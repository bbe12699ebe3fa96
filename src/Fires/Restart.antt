-- ===== src/Fires/Restart.antt =====
-- What of the fires survives a restart: the table fire_states and the hydration of __init__.
use mathlib.Core.Option
use wfc.Prelude.{
  ℕ, ◌≡◌, refl, sym, ap, ◌∙◌, String, Option, none, some, List, [], ◌∷◌, arith, eq_iff, eq_refl,
  inl, inr, Option-cases,
}
use wfc.Dict
use wfc.Dict.{Dict, get-put, IsUnique, put-IsUnique}
use wfc.Fires.{
  FireRecord, FireRow, FireStateStore, to_row, on_conflict, nodes_of_row, assigned_node,
  row_to_record, hydrate_rows, open_store, upsert, save, get,
}
use wfc.Fires.Changes.{Change, same, move, retouch, Origin, born, changed, Saved, untouched, saved}
use wfc.Fires.Histories.{FireCall, call, run, call-Saved}

-- the table holds the row of each record of the store, and no other
pub record IsMirrored (s : FireStateStore) (rows : Dict FireRow) : Type 0 where
  pub attached : s.repo ≡ some rows
  pub keyed : (k : String) (r : FireRecord) → get s k ≡ some r → r.fire_id ≡ k
  pub row_of : (k : String) → Dict.get rows k ≡ Option.map to_row (get s k)
  pub unique : IsUnique rows

-- what a row keeps of a record: the first leader alone, and no leader term
abbrev pub remembered : FireRecord → FireRecord
remembered r = record r { assigned_nodes = nodes_of_row (assigned_node r); leader_term = 0 }

Change-created_at : (r r' : FireRecord) → Change r r' → r'.created_at ≡ r.created_at
Change-created_at r r' (same e) = rw e
Change-created_at r r' (move new_state reason leader mission now live ok e) = rw e
Change-created_at r r' (retouch reason default severity now term nodes keep e) = rw e

Change-fire_id : (r r' : FireRecord) → Change r r' → r'.fire_id ≡ r.fire_id
Change-fire_id r r' (same e) = rw e
Change-fire_id r r' (move new_state reason leader mission now live ok e) = rw e
Change-fire_id r r' (retouch reason default severity now term nodes keep e) = rw e

-- the upsert writes the row of the record: a conflict finds the same `created_at`
on_conflict-to_row :
    {s : FireStateStore} {rows : Dict FireRow} (k : String) (r' : FireRecord)
    → IsMirrored s rows
    → Origin s k r'
    → (r'.fire_id ≡ k) × (on_conflict (Dict.get rows k) (to_row r') ≡ to_row r')
on_conflict-to_row k r' m (born zone severity sensor location now fresh e) =
    (rw e, rw (m.row_of k, fresh))
on_conflict-to_row k r' m (changed r g c) = (
  Change-fire_id r r' c ∙ m.keyed k r g,
  rw (m.row_of k, g)
      (ap (λ (t : ℕ). record (to_row r') { created_at = t }) (sym (Change-created_at r r' c))),
)

save-IsMirrored :
    (s : FireStateStore) (rows : Dict FireRow) (f : String) (q : FireRecord)
    → IsMirrored s rows
    → q.fire_id ≡ f
    → on_conflict (Dict.get rows f) (to_row q) ≡ to_row q
    → IsMirrored (save s f q) (Dict.put rows f (to_row q))
unfolding save upsert
save-IsMirrored s rows f q m id row = record {
  attached = rw m.attached (
      ap (λ (j : String). some (Dict.put rows j (on_conflict (Dict.get rows j) (to_row q)))) id
      ∙ ap (λ (w : FireRow). some (Dict.put rows f w)) row);
  keyed = λ k r g. ground (arith, get-put s.fires f k q, m.keyed k r, eq_iff f k);
  row_of = λ k. ground (arith, get-put s.fires f k q, get-put rows f k (to_row q), m.row_of k);
  unique = put-IsUnique rows f (to_row q) m.unique;
}

call-IsMirrored :
    {s s' : FireStateStore} (rows : Dict FireRow)
    → Saved s s'
    → IsMirrored s rows
    → (rows' : Dict FireRow) × IsMirrored s' rows'
call-IsMirrored rows (untouched e) m = (rows, rw e m)
call-IsMirrored {s} rows (saved f q o e) m =
    let (id, row) = on_conflict-to_row f q m o in
    (Dict.put rows f (to_row q), rw e (save-IsMirrored s rows f q m id row))

-- Whatever methods are called, the table goes on holding the row of each record, and no other.
pub run-IsMirrored :
    (cs : List FireCall) (s : FireStateStore) (rows : Dict FireRow)
    → IsMirrored s rows
    → (rows' : Dict FireRow) × IsMirrored (run cs s) rows'
unfolding run
run-IsMirrored [] s rows m = (rows, m)
run-IsMirrored (c ∷ cs) s rows m =
    let (rows', m') = call-IsMirrored rows (call-Saved c s) m in
    run-IsMirrored cs (call c s) rows' m'

abbrev from_row : Option FireRow → Option FireRecord → Option FireRecord
from_row none before = before
from_row (some row) before = some (row_to_record row)

get-hydrate_rows :
    (rows : Dict FireRow) (fires : Dict FireRecord) (k : String)
    → IsUnique rows
    → ((j : String) (row : FireRow) → Dict.get rows j ≡ some row → row.fire_id ≡ j)
    → Dict.get (hydrate_rows rows fires) k ≡ from_row (Dict.get rows k) (Dict.get fires k)
unfolding hydrate_rows Dict.get row_to_record
get-hydrate_rows [] fires k u keyed = refl
get-hydrate_rows ((j, row) ∷ rows) fires k u keyed =
    let id : row.fire_id ≡ j = keyed j row (rw (eq_refl j)) in
    let rest =
      get-hydrate_rows rows (Dict.put fires row.fire_id (row_to_record row)) k u.1
        (λ i w g. keyed i w (ground (arith, eq_iff j i, g, u.0))) in
    ground (arith, rest, get-put fires row.fire_id k (row_to_record row), eq_iff j k, u.0)

row_keyed :
    {s : FireStateStore} {rows : Dict FireRow}
    → IsMirrored s rows
    → (j : String) (row : FireRow) → Dict.get rows j ≡ some row
    → row.fire_id ≡ j
row_keyed {s} m j row g = elim (Option-cases (get s j)) [
  | inl e ↦ ground (arith, m.row_of j)
  | inr (r, e) ↦ ground (arith, m.row_of j, m.keyed j r e)
]

recalled :
    {o : Option FireRow} (k : String) (found : Option FireRecord)
    → o ≡ Option.map to_row found
    → from_row o (Dict.get {V = FireRecord} [] k) ≡ Option.map remembered found
unfolding Dict.get row_to_record
recalled k none e = rw e
recalled k (some r) e = rw e

-- A restart after any calls finds every fire, and of each fire all but the leaders past the first
-- and the leader term: the opened store has of each key what a row remembers of its record.
pub restart_remembers :
    (cs : List FireCall) (s : FireStateStore) (rows : Dict FireRow) (k : String)
    → IsMirrored s rows
    → get (open_store (run cs s).repo) k ≡ Option.map remembered (get (run cs s) k)
unfolding open_store
restart_remembers cs s rows k m =
    let (rows', m') = run-IsMirrored cs s rows m in
    rw m'.attached (
      get-hydrate_rows rows' [] k m'.unique (row_keyed m')
      ∙ recalled k (get (run cs s) k) (m'.row_of k))

-- a store that was opened on an empty table
pub open_store-IsMirrored : IsMirrored (open_store (some [])) []
unfolding open_store hydrate_rows Dict.get
open_store-IsMirrored = record {
  attached = refl;
  keyed = λ k r g. cc;
  row_of = λ k. refl;
  unique = tt;
}
