-- ===== src/Commander/Law.antt =====
-- What every part of CommanderCore's handlers does to the commander, the handlers do: a relation with the
-- laws of `StepLaw` holds between a commander and what a handler makes of it.
pub mod FireEvents
pub mod Telemetry
pub mod Acks
pub mod Redispatch
pub mod Messages
use wfc.Prelude.{
  ℕ, suc, ◌≡◌, refl, Bool, true, false, String, Option, none, some, List, [], ◌∷◌, if◌then◌else◌,
}
use wfc.Shared.Status.{FireStatus}
use wfc.Shared.Commands.{Payload}
use wfc.Fires
use wfc.Fires.{FireRecord, transition, upsert_again}
use wfc.Fires.Histories.{FireCall, transition_call, run}
use wfc.Fires.Histories
use wfc.Missions.{MissionStore}
use wfc.Dispatch.{Ids}
use wfc.Rules.{RuleContext}
use wfc.Commander.{Commander, evaluate, evaluate_found, log_event}
use wfc.Commander.Acks.{track}

pub record StepLaw (ids : Ids) : Type 1 where
  pub R : Commander → Commander → Type 0
  pub on_rest : (c c' : Commander) → c'.fires ≡ c.fires → c'.gate ≡ c.gate → R c c'
  pub chain : (a b c : Commander) → R a b → R b c → R a c
  pub on_evaluate :
      (fire : FireRecord) (context : Option RuleContext) (now : ℕ) (c : Commander)
      → R c (evaluate ids fire context now c)
  pub on_log :
      (event_type : String) (fire_id node_id reason : Option String) (payload : Payload) (now : ℕ)
      (c : Commander)
      → R c (log_event ids event_type fire_id node_id reason payload now c)
  pub on_fires : (cs : List FireCall) (c : Commander) → R c (record c { fires = run cs c.fires })
  pub on_upsert :
      (fire_id : String) (c : Commander) → R c (record c { fires = upsert_again fire_id c.fires })
  pub on_draw :
      (c : Commander)
      → R c (record c {
        gate = record c.gate { desk = record c.gate.desk { drawn = suc c.gate.desk.drawn } };
      })
  pub on_track :
      (trace_id event_type : String) (payload : Payload) (c : Commander)
      → R c (track trace_id event_type payload c).0

module _ {ids : Ids} (law : StepLaw ids) where
  pub stays : (c : Commander) → law.R c c
  stays c = law.on_rest c c refl refl

  pub aside : (c c' : Commander) → c'.fires ≡ c.fires → c'.gate ≡ c.gate → law.R c c'
  aside = law.on_rest

  -- the branches of a test
  pub either : (b : Bool) (c x y : Commander) → law.R c x → law.R c y → law.R c (if b then x else y)
  either true c x y p q = p
  either false c x y p q = q

  pub found :
      (o : Option FireRecord) (context : Option RuleContext) (now : ℕ) (c : Commander)
      → law.R c (evaluate_found ids o context now c)
  found none context now c = stays c
  found (some fire) context now c = law.on_evaluate fire context now c

  -- a line of the log, and then the rules
  pub noted :
      (event_type : String) (fire_id node_id reason : Option String) (payload : Payload)
      (context : Commander → RuleContext) (f : String) (now : ℕ) (c : Commander)
      → (let c' = log_event ids event_type fire_id node_id reason payload now c in
          law.R c (evaluate_found ids (Fires.get c'.fires f) (some (context c')) now c'))
  noted event_type fire_id node_id reason payload context f now c =
      let c' = log_event ids event_type fire_id node_id reason payload now c in
      law.chain c c' _ (law.on_log event_type fire_id node_id reason payload now c)
        (found (Fires.get c'.fires f) (some (context c')) now c')

  pub moved :
      (fire_id : String) (state : FireStatus) (reason : String) (now : ℕ) (c : Commander)
      → law.R c (record c { fires = (transition fire_id state reason none none now c.fires).0 })
  unfolding run Histories.call
  moved fire_id state reason now c =
      law.on_fires (transition_call fire_id state reason none none now ∷ []) c
