-- ===== src/Fires/Records.antt =====
-- What holds of every record that FireStateStore's methods made: its key, its leaders, its trail.
use wfc.Prelude.{
  ℕ, ◌≡◌, refl, true, String, Option, none, some, List, [], ◌∷◌, ◌++◌, ◌⊎◌, inl, inr, IsDistinct,
}
use wfc.Dict
use wfc.Shared.Status.{FireStatus, ignited, fire_allowed}
use wfc.Shared.Commands.{Coord}
use wfc.Fires.{FireRecord, FireStateStore, HistoryEntry, new_fire, history_entry, get, open_store}
use wfc.Fires.Changes.{Change, same, move, retouch, add_node-IsDistinct}
use wfc.Fires.Histories.{FireCall, run, run-AllFires}

-- `history` records a lawful life that ends in `state`: it starts with IGNITED, and each later
-- entry repeats the state before it or makes a move of the table
pub data Trail : List HistoryEntry → FireStatus → Type 0 where
  start :
      {history : List HistoryEntry} {state : FireStatus} (reason : String) (now : ℕ)
      → history ≡ history_entry ignited reason now ∷ []
      → state ≡ ignited
      → Trail history state
  more :
      {history : List HistoryEntry} {state : FireStatus} (past : List HistoryEntry)
      (before : FireStatus) (reason : String) (now : ℕ)
      → Trail past before
      → (before ≡ state) ⊎ (fire_allowed before state ≡ true)
      → history ≡ past ++ history_entry state reason now ∷ []
      → Trail history state

pub record IsSound (k : String) (r : FireRecord) : Type 0 where
  pub keyed : r.fire_id ≡ k
  pub distinct : IsDistinct r.assigned_nodes
  pub trail : Trail r.history r.state

new_fire-IsSound :
    (k zone severity sensor_id : String) (location : Option Coord) (now : ℕ)
    → IsSound k (new_fire k zone severity sensor_id location now)
new_fire-IsSound k zone severity sensor_id location now = record {
  keyed = refl;
  distinct = tt;
  trail = start "fire_detected" now refl refl;
}

Change-IsSound : (k : String) (r r' : FireRecord) → Change r r' → IsSound k r → IsSound k r'
Change-IsSound k r r' (same e) h = rw e h
Change-IsSound k r r' (move new_state reason leader mission now live ok e) h = rw e (record {
  keyed = h.keyed;
  distinct = add_node-IsDistinct r.assigned_nodes leader h.distinct;
  trail = more r.history r.state reason now h.trail (inr ok) refl;
})
Change-IsSound k r r' (retouch reason default severity now term nodes keep e) h = rw e (record {
  keyed = h.keyed;
  distinct = keep h.distinct;
  trail = more r.history r.state _ now h.trail (inl refl) refl;
})

abbrev pub AllSound : FireStateStore → Type 0
AllSound s = (k : String) (r : FireRecord) → get s k ≡ some r → IsSound k r

-- From a store whose records are sound, any calls leave every record under its own id, with no
-- leader assigned twice, and with an audit trail that is a lawful life ending in its state.
pub run-AllSound : (cs : List FireCall) (s : FireStateStore) → AllSound s → AllSound (run cs s)
run-AllSound = run-AllFires IsSound new_fire-IsSound Change-IsSound

get-nil : (k : String) → Dict.get {V = FireRecord} [] k ≡ none
unfolding Dict.get
get-nil k = refl

-- a store with no fires
pub open_store-AllSound : AllSound (open_store none)
unfolding open_store
open_store-AllSound k r g = cc (get-nil k)
