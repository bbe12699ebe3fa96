-- ===== src/Fires/Lifecycle.antt =====
-- The life cycle of a fire under any calls of FireStateStore's methods.
use wfc.Prelude.{◌≡◌, true, String, some, List, [], ◌∷◌, arith}
use wfc.Shared.Status.{FireStatus, extinguished, fire_allowed}
use wfc.Fires.{FireRecord, FireStateStore, get}
use wfc.Fires.Changes.{Change, same, move, retouch, Origin, born, changed}
use wfc.Fires.Histories.{FireCall, call, run, call-Saved, Saved-Origin, Saved-present}

infix 40 ◌⟶*◌
-- a way through the transition table
pub data ◌⟶*◌ (a : FireStatus) : FireStatus → Type 0 where
  here : a ⟶* a
  onward : {b c : FireStatus} → a ⟶* b → fire_allowed b c ≡ true → a ⟶* c

pub join_ways : {a b c : FireStatus} → a ⟶* b → b ⟶* c → a ⟶* c
join_ways w here = w
join_ways w (onward v ok) = onward (join_ways w v) ok

Change-⟶* : {a : FireStatus} (r r' : FireRecord) → Change r r' → a ⟶* r.state → a ⟶* r'.state
Change-⟶* r r' (same e) w = rw e w
Change-⟶* r r' (move new_state reason leader mission now live ok e) w = rw e (onward w ok)
Change-⟶* r r' (retouch reason default severity now term nodes keep e) w = rw e w

not_born :
    {s : FireStateStore} {k : String} {r r' : FireRecord}
    → get s k ≡ some r
    → Origin s k r'
    → (q : FireRecord) × (q ≡ r) × Change q r'
not_born g (born zone severity sensor location now fresh e) = cc
not_born g (changed q g' c) = (q, ground arith, c)

call-⟶* :
    {a : FireStatus} (c : FireCall) (s : FireStateStore) (k : String) (r : FireRecord)
    → get s k ≡ some r
    → a ⟶* r.state
    → (r' : FireRecord) × (get (call c s) k ≡ some r') × (a ⟶* r'.state)
call-⟶* c s k r g w =
    let (r', g') = Saved-present (call-Saved c s) k r g in
    let (q, e, ch) = not_born g (Saved-Origin (call-Saved c s) k r' g') in
    (r', g', Change-⟶* q r' ch (rw e w))

run-⟶* :
    {a : FireStatus} (cs : List FireCall) (s : FireStateStore) (k : String) (r : FireRecord)
    → get s k ≡ some r
    → a ⟶* r.state
    → (r' : FireRecord) × (get (run cs s) k ≡ some r') × (a ⟶* r'.state)
unfolding run
run-⟶* [] s k r g w = (r, g, w)
run-⟶* (c ∷ cs) s k r g w =
    let (r', g', w') = call-⟶* c s k r g w in run-⟶* cs (call c s) k r' g' w'

-- Whatever methods are called, in whatever order, a fire that the store has is never lost, and its
-- new state is reached from its old one by moves of FIRE_TRANSITIONS alone.
pub follows_table :
    (cs : List FireCall) (s : FireStateStore) (k : String) (r : FireRecord)
    → get s k ≡ some r
    → (r' : FireRecord) × (get (run cs s) k ≡ some r') × (r.state ⟶* r'.state)
follows_table cs s k r g = run-⟶* cs s k r g here

stuck_at_end : {a b : FireStatus} → a ⟶* b → a ≡ extinguished → b ≡ extinguished
stuck_at_end here e = e
stuck_at_end (onward {b} {c} w ok) e = let q : b ≡ extinguished = stuck_at_end w e in ground arith

-- EXTINGUISHED is terminal: no calls of the methods move an extinguished fire, or lose it.
pub extinguished_forever :
    (cs : List FireCall) (s : FireStateStore) (k : String) (r : FireRecord)
    → get s k ≡ some r
    → r.state ≡ extinguished
    → (r' : FireRecord) × (get (run cs s) k ≡ some r') × (r'.state ≡ extinguished)
extinguished_forever cs s k r g e =
    let (r', g', w) = follows_table cs s k r g in (r', g', stuck_at_end w e)
