-- ===== src/Tracker/Restart/Duplicates.antt =====
-- An event that was applied before a restart is refused after it.
use wfc.Prelude.{
  ◌≡◌, refl, ◌∙◌, true, false, String, Option, none, some, List, [], ◌∷◌, ◌++◌, Memᴰ, contains, inl,
  inr, Bool, Bool-cases, ◌==◌, Option-cases,
}
use wfc.Dict
use wfc.Dict.{Dict, get-put, get-put_self}
use wfc.Shared.Commands.{Payload, payload_text}
use wfc.Tracker.{
  Envelope, TrackStatus, TrackRecord, Note, applied, TrackTables, CommandTracker, repo_create,
  repo_update, set_status, move, recognise, identify, update, create, track_allowed, same_status,
  event_to_state, seen,
}
use wfc.Tracker.Updates.{update-Outcome}
use wfc.Tracker.Runs.{run-seen, Outcome-seen_refused, TrackCall, create_call, update_call, run}
use wfc.Tracker.Restart.{open_tracker}
use wfc.Tracker.Restart.Memory.{IsRecorded, recorded_is_seen}

mem-left : {A : Type 0} (x : A) (xs ys : List A) → Memᴰ x xs → Memᴰ x (xs ++ ys)
mem-left x [] ys m = elim m [ ]
mem-left x (z ∷ xs) ys (Memᴰ.head e) = Memᴰ.head e
mem-left x (z ∷ xs) ys (Memᴰ.tail m) = Memᴰ.tail (mem-left x xs ys m)

mem-last : {A : Type 0} (x : A) (xs : List A) → Memᴰ x (xs ++ x ∷ [])
mem-last x [] = Memᴰ.head refl
mem-last x (z ∷ xs) = Memᴰ.tail (mem-last x xs)

-- a row stays when a row is put
put_keeps_row :
    {V : Type 0} (d : Dict V) (k j : String) (v w : V)
    → Dict.get d j ≡ some w
    → (u : V) × (Dict.get (Dict.put d k v) j ≡ some u)
put_keeps_row d k j v w g = elim (Bool-cases (k == j)) [
  | inl y ↦ (v, get-put d k j v ∙ rw y refl)
  | inr n ↦ (w, get-put d k j v ∙ rw n g)
]

set_status_stored :
    (rows : Dict (Envelope × TrackStatus)) (k j : String) (status : TrackStatus)
    (row : Envelope × TrackStatus)
    → Dict.get rows j ≡ some row
    → (row' : Envelope × TrackStatus) × (Dict.get (set_status rows k status) j ≡ some row')
set_status_stored rows k j status row g = elim (Option-cases (Dict.get rows k)) [
  | inl e ↦ rw (set_status, e) (row, g)
  | inr (old, e) ↦ rw (set_status, e) (put_keeps_row rows k j (old.0, status) row g)
]

repo_create-IsRecorded :
    (repo : Option TrackTables) (k : String) (envelope : Envelope) (e : String)
    → IsRecorded repo e
    → IsRecorded (repo_create repo k envelope) e
repo_create-IsRecorded none k envelope e r = r
repo_create-IsRecorded (some t) k envelope e r =
    let (row, g) = put_keeps_row t.commands k r.trace_id _ r.row r.stored in
    record {
      trace_id = r.trace_id;
      note = r.note;
      row = row;
      stored = g;
      listed = mem-left _ t.history _ r.listed;
      named = r.named;
    }

repo_update-IsRecorded :
    (repo : Option TrackTables) (k : String) (status : TrackStatus) (note : Note) (e : String)
    → IsRecorded repo e
    → IsRecorded (repo_update repo k status note) e
repo_update-IsRecorded none k status note e r = r
repo_update-IsRecorded (some t) k status note e r =
    let (row, g) = set_status_stored t.commands k r.trace_id status r.row r.stored in
    record {
      trace_id = r.trace_id;
      note = r.note;
      row = row;
      stored = g;
      listed = mem-left _ t.history _ r.listed;
      named = r.named;
    }

-- what `update` writes to the tables
data Written (k : String) (note : Note) (t : CommandTracker) (r : CommandTracker × Bool)
    : Type 0 where
  nothing : r.0.repo ≡ t.repo → r.1 ≡ false → Written k note t r
  row_and_note :
      (status : TrackStatus) → r.0.repo ≡ repo_update t.repo k status note → Written k note t r

module _ (k event_type : String) (payload : Payload) where
  move-Written :
      (t : CommandTracker) (rec : TrackRecord) (status : TrackStatus)
      → Written k (applied event_type payload) t (move t k rec event_type payload status)
  move-Written t rec status = elim (Bool-cases (track_allowed rec.status status)) [
    | inr n ↦ rw n (nothing refl refl)
    | inl y ↦ elim (Bool-cases (same_status status rec.status)) [
      | inl same ↦ rw (y, same) (nothing refl refl)
      | inr other ↦ rw (y, other) (row_and_note status refl)
    ]
  ]

  recognise-Written :
      (t : CommandTracker) (rec : TrackRecord) (status : Option TrackStatus)
      → Written k (applied event_type payload) t (recognise t k rec event_type payload status)
  recognise-Written t rec none = nothing refl refl
  recognise-Written t rec (some status) = move-Written t rec status

  seen-Written :
      (t : CommandTracker) (id : String) (r : CommandTracker × Bool)
      → Written k (applied event_type payload) (seen t id) r
      → Written k (applied event_type payload) t r
  seen-Written t id r (nothing p f) = nothing p f
  seen-Written t id r (row_and_note status p) = row_and_note status p

  identify-Written :
      (t : CommandTracker) (rec : TrackRecord) (id : Option String)
      → Written k (applied event_type payload) t (identify t k rec event_type payload id)
  identify-Written t rec none = nothing refl refl
  identify-Written t rec (some id) = elim (Bool-cases (contains t.seen_event_ids id)) [
    | inl y ↦ rw y (nothing refl refl)
    | inr n ↦
        rw n (seen-Written t id _ (recognise-Written (seen t id) rec (event_to_state event_type)))
  ]

  update-Written :
      (t : CommandTracker)
      → Written k (applied event_type payload) t (update k event_type payload t)
  unfolding update
  update-Written t = elim (Option-cases (Dict.get t.commands k)) [
    | inl e ↦ rw (update, e) (nothing refl refl)
    | inr (rec, e) ↦ rw (update, e) (identify-Written t rec (payload_text payload "event_id"))
  ]

Written-IsRecorded :
    {k : String} {note : Note} {t : CommandTracker} {r : CommandTracker × Bool} (e : String)
    → Written k note t r
    → IsRecorded t.repo e
    → IsRecorded r.0.repo e
Written-IsRecorded e (nothing p f) h = rw p h
Written-IsRecorded {k} {note} {t} e (row_and_note status p) h =
    rw p (repo_update-IsRecorded t.repo k status note e h)

create-IsRecorded :
    (k : String) (envelope : Envelope) (t : CommandTracker) (e : String)
    → IsRecorded t.repo e
    → IsRecorded (create k envelope t).repo e
unfolding create
create-IsRecorded k envelope t e h = elim (Option-cases (Dict.get t.commands k)) [
  | inl g ↦ rw (create, g) (repo_create-IsRecorded t.repo k envelope e h)
  | inr (rec, g) ↦ rw (create, g) h
]

run-IsRecorded :
    (cs : List TrackCall) (t : CommandTracker) (e : String)
    → IsRecorded t.repo e
    → IsRecorded (run cs t).repo e
unfolding run
run-IsRecorded [] t e h = h
run-IsRecorded (create_call k envelope ∷ cs) t e h =
    run-IsRecorded cs (create k envelope t) e (create-IsRecorded k envelope t e h)
run-IsRecorded (update_call k event_type payload ∷ cs) t e h =
    run-IsRecorded cs (update k event_type payload t).0 e
      (Written-IsRecorded e (update-Written k event_type payload t) h)

applied-IsRecorded :
    {k event_type : String} {payload : Payload} {t : CommandTracker} {r : CommandTracker × Bool}
    (tables : TrackTables) (row : Envelope × TrackStatus) (e : String)
    → Written k (applied event_type payload) t r
    → t.repo ≡ some tables
    → Dict.get tables.commands k ≡ some row
    → payload_text payload "event_id" ≡ some e
    → r.1 ≡ true
    → IsRecorded r.0.repo e
applied-IsRecorded tables row e (nothing p f) o g named y = cc
applied-IsRecorded {k} {event_type} {payload} tables row e (row_and_note status p) o g named y =
    let note = applied event_type payload in
    let (row', g') = set_status_stored tables.commands k k status row g in
    rw (p, o)
      (record {
        trace_id = k;
        note = note;
        row = row';
        stored = g';
        listed = mem-last (k, note) tables.history;
        named = named;
      })

-- An event that was applied to a command of the tables is refused after a restart of the tracker, for
-- any command, with any type, whatever calls came before the restart and whatever came after it.
pub refused_after_restart :
    (k event_type k' event_type' : String) (payload payload' : Payload)
    (before after : List TrackCall) (t : CommandTracker) (tables : TrackTables)
    (row : Envelope × TrackStatus) (e : String)
    → t.repo ≡ some tables
    → Dict.get tables.commands k ≡ some row
    → payload_text payload "event_id" ≡ some e
    → (e == "") ≡ false
    → (update k event_type payload t).1 ≡ true
    → payload_text payload' "event_id" ≡ some e
    → (update k' event_type' payload'
        (run after (open_tracker (run before (update k event_type payload t).0).repo))).1
      ≡ false
refused_after_restart k event_type k' event_type' payload payload' before after t tables row e o g n
      full y n' =
    let kept =
      run-IsRecorded before (update k event_type payload t).0 e
        (applied-IsRecorded tables row e (update-Written k event_type payload t) o g n y) in
    let t' = open_tracker (run before (update k event_type payload t).0).repo in
    let known = run-seen after t' e (recorded_is_seen _ e kept full) in
    Outcome-seen_refused e (update-Outcome k' event_type' payload' (run after t')) n' known
