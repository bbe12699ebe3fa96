-- ===== src/Commander/Lifecycle.antt =====
-- The life cycle of a fire under any calls of CommanderCore but the merging of a snapshot.
use wfc.Prelude.{ℕ, ap, ◌∙◌, ◌≡◌, refl, false, String, Option, some, List, [], ◌∷◌, ◌==◌, or_else}
use wfc.Fires.{FireRecord, FireStateStore, get}
use wfc.Fires.Lifecycle.{◌⟶*◌, here, join_ways, follows_table}
use wfc.Dispatch.{Ids}
use wfc.Rules.{RuleContext}
use wfc.Engine.Calls.{evaluate_follows_table}
use wfc.Commander.{Commander, evaluate, engine}
use wfc.Commander.Law.{StepLaw}
use wfc.Commander.Law.Messages.{CommanderCall, message_call, CallLaw}

-- every fire of the first store is in the second, and moved by the table alone
abbrev pub IsOnward : FireStateStore → FireStateStore → Type 0
IsOnward s s' =
    (k : String) (r : FireRecord)
    → get s k ≡ some r
    → (r' : FireRecord) × (get s' k ≡ some r') × (r.state ⟶* r'.state)

IsOnward-same : (s s' : FireStateStore) → s' ≡ s → IsOnward s s'
IsOnward-same s s' e k r g = (r, ap (λ t. get t k) e ∙ g, here)

IsOnward-trans : (s t u : FireStateStore) → IsOnward s t → IsOnward t u → IsOnward s u
IsOnward-trans s t u p q k r g =
    let (r', g', w) = p k r g in let (r'', g'', w') = q k r' g' in (r'', g'', join_ways w w')

evaluated-IsOnward :
    (ids : Ids) (fire : FireRecord) (context : Option RuleContext) (now : ℕ) (c : Commander)
    → IsOnward c.fires (evaluate ids fire context now c).fires
unfolding evaluate
evaluated-IsOnward ids fire context now c k r g =
    let (s', r', p, g', w) =
      evaluate_follows_table ids fire context now (engine c) c.fires k r refl g in
    (r', ap (λ o. get (or_else o c.fires) k) p ∙ g', w)

abbrev onward_step : (ids : Ids) → StepLaw ids
onward_step ids = record {
  R = λ c c'. IsOnward c.fires c'.fires;
  on_rest = λ c c' p q. IsOnward-same c.fires c'.fires p;
  chain = λ a b c p q. IsOnward-trans a.fires b.fires c.fires p q;
  on_evaluate = evaluated-IsOnward ids;
  on_log = λ t f n r payload now c. IsOnward-same c.fires c.fires refl;
  on_fires = λ cs c. follows_table cs c.fires;
  on_upsert = λ f c k r g. (r, g, here);
  on_draw = λ c. IsOnward-same c.fires c.fires refl;
  on_track = λ trace_id t payload c. IsOnward-same c.fires c.fires refl;
}

abbrev onward_call : (ids : Ids) → CallLaw ids
onward_call ids = record {
  steps = onward_step ids;
  on_answer = λ r now c. IsOnward-same c.fires c.fires refl;
  on_expire = λ now c. IsOnward-same c.fires c.fires refl;
}

-- not a message on STATE_SNAPSHOT
abbrev pub IsQuiet : {Raw : Type 0} → CommanderCall Raw → Type 0
IsQuiet (message_call topic raw now) = (topic == "wfc/state/snapshot") ≡ false
IsQuiet _ = Unit

abbrev pub AllQuiet : {Raw : Type 0} → List (CommanderCall Raw) → Type 0
AllQuiet [] = Unit
AllQuiet (x ∷ xs) = IsQuiet x × AllQuiet xs
