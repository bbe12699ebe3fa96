-- ===== src/Tracker/Restart/Memory.antt =====
-- Which event ids a restarted tracker knows.
use mathlib.Core.Path.{subst}
use wfc.Prelude.{
  ◌≡◌, refl, ap, ◌∙◌, sym, true, false, String, Option, none, some, List, [], ◌∷◌, arith, Memᴰ,
  contains, inl, inr, Bool-cases, ◌==◌, eq_refl, eq_iff,
}
use wfc.Dict
use wfc.Dict.{Dict, get-put}
use wfc.Tracker.{Envelope, TrackStatus, Note, TrackTables, CommandTracker}
use wfc.Tracker.Restart.{event_id_of, notes_of, add_id, hydrate_ids, hydrate, open_tracker}

mem-notes_of :
    (k : String) (note : Note) (rows : List (String × Note))
    → Memᴰ (k, note) rows
    → Memᴰ note (notes_of k rows)
unfolding notes_of
mem-notes_of k note [] m = elim m [ ]
mem-notes_of k note ((j, n) ∷ rows) (Memᴰ.head e) =
    let same : (j == k) ≡ true = (eq_iff j k).1 (sym (ap (λ x. x.0) e)) in
    rw same (Memᴰ.head (ap (λ x. x.1) e))
mem-notes_of k note ((j, n) ∷ rows) (Memᴰ.tail m) = elim (Bool-cases (j == k)) [
  | inl y ↦ rw y (Memᴰ.tail (mem-notes_of k note rows m))
  | inr other ↦ rw other (mem-notes_of k note rows m)
]

add_id-grows :
    (x : Option String) (ids : List String) (e : String)
    → contains ids e ≡ true
    → contains (add_id x ids) e ≡ true
unfolding contains
add_id-grows none ids e h = h
add_id-grows (some x) ids e h = ground arith

hydrate_ids-grows :
    (notes : List Note) (ids : List String) (e : String)
    → contains ids e ≡ true
    → contains (hydrate_ids notes ids) e ≡ true
unfolding hydrate_ids
hydrate_ids-grows [] ids e h = h
hydrate_ids-grows (n ∷ notes) ids e h =
    hydrate_ids-grows notes (add_id (event_id_of n) ids) e (add_id-grows (event_id_of n) ids e h)

hydrate_ids-finds :
    (notes : List Note) (ids : List String) (note : Note) (e : String)
    → Memᴰ note notes
    → event_id_of note ≡ some e
    → (e == "") ≡ false
    → contains (hydrate_ids notes ids) e ≡ true
unfolding hydrate_ids contains
hydrate_ids-finds [] ids note e m named full = elim m [ ]
hydrate_ids-finds (n ∷ notes) ids note e (Memᴰ.head p) named full =
    hydrate_ids-grows notes (add_id (event_id_of n) ids) e
      (rw (ap event_id_of (sym p) ∙ named, full, eq_refl e) refl)
hydrate_ids-finds (n ∷ notes) ids note e (Memᴰ.tail m) named full =
    hydrate_ids-finds notes (add_id (event_id_of n) ids) note e m named full

hydrate-grows :
    (commands : Dict (Envelope × TrackStatus)) (rows : List (String × Note)) (t : CommandTracker)
    (e : String)
    → contains t.seen_event_ids e ≡ true
    → contains (hydrate commands rows t).seen_event_ids e ≡ true
unfolding hydrate
hydrate-grows [] rows t e h = h
hydrate-grows ((k, (envelope, status)) ∷ commands) rows t e h =
    hydrate-grows commands rows _ e (hydrate_ids-grows (notes_of k rows) t.seen_event_ids e h)

hydrate-finds :
    (commands : Dict (Envelope × TrackStatus)) (rows : List (String × Note)) (t : CommandTracker)
    (k : String) (row : Envelope × TrackStatus) (note : Note) (e : String)
    → Dict.get commands k ≡ some row
    → Memᴰ (k, note) rows
    → event_id_of note ≡ some e
    → (e == "") ≡ false
    → contains (hydrate commands rows t).seen_event_ids e ≡ true
unfolding hydrate Dict.get
hydrate-finds [] rows t k row note e g m named full = cc
hydrate-finds ((j, (envelope, status)) ∷ commands) rows t k row note e g m named full =
    elim (Bool-cases (j == k)) [
      | inl y ↦
          let m' : Memᴰ (j, note) rows =
            subst (λ x. Memᴰ (x, note) rows) (sym ((eq_iff j k).0 y)) m in
          hydrate-grows commands rows _ e (
            hydrate_ids-finds (notes_of j rows) t.seen_event_ids note e
              (mem-notes_of j note rows m') named full)
      | inr n ↦ hydrate-finds commands rows _ k row note e (rw n at g) m named full
    ]

-- the tables hold a note with this event id, of a command that they have
pub record Holds (tables : TrackTables) (e : String) : Type 0 where
  pub trace_id : String
  pub note : Note
  pub row : Envelope × TrackStatus
  pub stored : Dict.get tables.commands trace_id ≡ some row
  pub listed : Memᴰ (trace_id, note) tables.history
  pub named : event_id_of note ≡ some e

abbrev pub IsRecorded : Option TrackTables → String → Type 0
IsRecorded none e = ⊥
IsRecorded (some tables) e = Holds tables e

pub recorded_is_seen :
    (repo : Option TrackTables) (e : String)
    → IsRecorded repo e
    → (e == "") ≡ false
    → contains (open_tracker repo).seen_event_ids e ≡ true
unfolding open_tracker
recorded_is_seen none e r full = elim r [ ]
recorded_is_seen (some tables) e r full =
    hydrate-finds tables.commands tables.history _ r.trace_id r.row r.note e r.stored r.listed
      r.named full
