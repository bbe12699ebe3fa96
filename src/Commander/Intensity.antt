-- ===== src/Commander/Intensity.antt =====
-- What the rules see of the new intensity that CommanderCore._handle_fire_intensity stores.
use Prim.Native.String.{◌++◌ as join}
use wfc.Prelude.{
  contains, List, [], ◌∷◌, ◌∙◌, false, or_else, ℕ, ◌≡◌, refl, sym, ap, String, Option, none, some,
  arith, ◌==◌, eq_refl, eq_iff, inl, inr, Bool-cases, Option-cases,
}
use wfc.Dict
use wfc.Dict.{get-put_self}
use wfc.Shared.Status.{FireStatus}
use wfc.Fires.{FireRecord, FireStateStore, get, update_severity, save}
use wfc.Rules.{skipped}
use wfc.Rules.Lifecycle.{severity_increase}
use wfc.Dispatch.{Ids}
use wfc.Fires.Histories
use wfc.Fires.Histories.{FireCall, transition_call, update_severity_call, run}
use wfc.Fires.Lifecycle.{follows_table}
use wfc.Fires.Records.{AllSound, run-AllSound}
use wfc.Engine.{all_rules, run_rules, high_fire_alert, latest}
use wfc.Engine.Turns.{at_turn, verdict, high_severity-fires, high_fire_alert-fires}
use wfc.Commander.{Commander, engine, evaluate}
use wfc.Commander.Telemetry.{
  FireIntensityUpdate, raise_intensity, intensity_context, handle_fire_intensity,
}

-- a fire that is read after its severity was updated has that severity
severity_after :
    (f severity reason : String) (now : ℕ) (s : FireStateStore) (rec : FireRecord)
    → get (update_severity f severity reason now s).0 f ≡ some rec
    → rec.severity ≡ severity
unfolding update_severity save
severity_after f severity reason now s rec g = elim (Option-cases (Dict.get s.fires f)) [
  | inl e ↦
      (let h : Dict.get s.fires f ≡ some rec = rw (e, update_severity) at g in
        absurd (ground arith))
  | inr (old, e) ↦ elim (Bool-cases (old.severity == severity)) [
    | inl y ↦
        (let h : Dict.get s.fires f ≡ some rec = rw (e, update_severity, y) at g in
          ground (arith, eq_iff old.severity severity))
    | inr n ↦
        (let h = rw (e, update_severity, n, get-put_self s.fires f _) at g in sym (ap of_stored h))
  ]
]
  where
    of_stored : Option FireRecord → String
    of_stored none = severity
    of_stored (some r) = r.severity

abbrev raise_calls : FireIntensityUpdate → FireStatus → ℕ → List FireCall
raise_calls u state now =
    let reason = join "intensity_update_to_" (join u.new_intensity (join "_from_" u.leader_id)) in
    transition_call u.fire_id state reason none none now
    ∷ update_severity_call u.fire_id u.new_intensity "intensity_update" now
    ∷ []

-- the commander once its store has the new severity of the fire
abbrev pub with_intensity : FireIntensityUpdate → FireRecord → ℕ → Commander → Commander
with_intensity u fire now c = record c { fires = raise_intensity u fire.state now c.fires }

-- the two calls of the store are a run of it
raised_by :
    (u : FireIntensityUpdate) (state : FireStatus) (now : ℕ) (s : FireStateStore)
    → raise_intensity u state now s ≡ run (raise_calls u state now) s
unfolding run Histories.call
raised_by u state now s = refl

-- the evaluation that the handler asks for
evaluates :
    (ids : Ids) (u : FireIntensityUpdate) (now : ℕ) (c : Commander) (fire rec : FireRecord)
    → get c.fires u.fire_id ≡ some fire
    → (u.new_intensity == fire.severity) ≡ false
    → get (raise_intensity u fire.state now c.fires) u.fire_id ≡ some rec
    → (let c' = with_intensity u fire now c in
        handle_fire_intensity ids (some u) now c
        ≡ evaluate ids rec (some (intensity_context u c')) now c')
unfolding handle_fire_intensity
evaluates ids u now c fire rec found new stored = rw (found, new, stored) refl

-- the fires are the same when the evaluation comes to SeverityIncreaseRule
before-fires :
    (ids : Ids) (u : FireIntensityUpdate) (now : ℕ) (c : Commander) (rec : FireRecord)
    → (at_turn "severity_increase" ids rec (intensity_context u c) now (engine c)).fires
      ≡ some c.fires
unfolding all_rules run_rules contains
before-fires ids u now c rec =
    let e = high_fire_alert rec now (engine c) in
    high_severity-fires ids "high_severity" rec.fire_id rec (intensity_context u c) now e.registry
      e.fires e
    ∙ high_fire_alert-fires rec now (engine c)

-- and the fire is still the one that is evaluated
at_turn-latest :
    (ids : Ids) (u : FireIntensityUpdate) (now : ℕ) (c : Commander) (rec : FireRecord)
    → get c.fires rec.fire_id ≡ some rec
    → latest rec (at_turn "severity_increase" ids rec (intensity_context u c) now (engine c)).fires
      ≡ rec
at_turn-latest ids u now c rec stored =
    ap (latest rec) (before-fires ids u now c rec) ∙ ap (λ o. or_else o rec) stored

-- The rule for a rising severity is deaf to an intensity update. In a store whose records are sound, an
-- update that gives a fire a new severity makes _handle_fire_intensity ask the rules about the record that
-- has the new severity already: the fire is evaluated as it stands in the store after it was written. When that
-- evaluation comes to SeverityIncreaseRule, the rule is not triggered.
pub intensity_never_triggers :
    (ids : Ids) (u : FireIntensityUpdate) (now : ℕ) (c : Commander) (fire : FireRecord)
    → AllSound c.fires
    → get c.fires u.fire_id ≡ some fire
    → (u.new_intensity == fire.severity) ≡ false
    → (let c' = with_intensity u fire now c in
        let context = intensity_context u c' in
        (rec : FireRecord) × (get c'.fires u.fire_id ≡ some rec)
        × (rec.severity ≡ u.new_intensity)
        × (handle_fire_intensity ids (some u) now c ≡ evaluate ids rec (some context) now c')
        × (verdict "severity_increase" severity_increase ids rec context now (engine c') ≡ skipped))
unfolding severity_increase
intensity_never_triggers ids u now c fire sound found new =
    let calls = raise_calls u fire.state now in
    let by = raised_by u fire.state now c.fires in
    let (rec, there, w) = follows_table calls c.fires u.fire_id fire found in
    let stored : get (raise_intensity u fire.state now c.fires) u.fire_id ≡ some rec =
      rw by there in
    let keyed = (run-AllSound calls c.fires sound u.fire_id rec there).keyed in
    let same = severity_after u.fire_id u.new_intensity "intensity_update" now _ rec stored in
    let c' = with_intensity u fire now c in
    let still = at_turn-latest ids u now c' rec (ap (get c'.fires) keyed ∙ stored) in
    (
      rec,
      stored,
      same,
      evaluates ids u now c fire rec found new stored,
      rw (still, same, eq_refl u.new_intensity) refl,
    )
