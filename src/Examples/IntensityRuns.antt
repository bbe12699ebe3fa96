-- ===== src/Examples/IntensityRuns.antt =====
-- Runs of CommanderCore._handle_fire_intensity.
use wfc.Prelude.{◌≡◌, refl, some, none, [], ◌∷◌}
use wfc.Dict
use wfc.Fires.{FireRecord, open_store, ignite, new_fire, get}
use wfc.Fires.Histories.{ignite_call, run}
use wfc.Fires.Records.{AllSound, run-AllSound, open_store-AllSound}
use wfc.Rules.{skipped}
use wfc.Rules.Lifecycle.{severity_increase}
use wfc.Engine.Turns.{verdict}
use wfc.Commander.{Commander, engine, evaluate}
use wfc.Commander.Telemetry.{FireIntensityUpdate, intensity_context, handle_fire_intensity}
use wfc.Commander.Intensity.{with_intensity, intensity_never_triggers}
use wfc.Examples.Uuids.{plain_ids}
use wfc.Examples.CommanderRuns.{commander}

abbrev grown : FireIntensityUpdate
grown = record { fire_id = "f1"; leader_id = "n1"; new_intensity = "HIGH" }

-- a commander that has one fire, of low severity
abbrev lit : Commander
lit = record commander { fires = (ignite "f1" "zone-a" "LOW" "s1" none 1 (open_store none)).0 }

lit-AllSound : AllSound lit.fires
unfolding run wfc.Fires.Histories.call
lit-AllSound =
    run-AllSound (ignite_call "f1" "zone-a" "LOW" "s1" none 1 ∷ []) (open_store none)
      open_store-AllSound

found : get lit.fires "f1" ≡ some (new_fire "f1" "zone-a" "LOW" "s1" none 1)
unfolding Dict.get ignite open_store wfc.Fires.save Dict.put
found = refl

intensity_never_triggers_example :
    (let c' = with_intensity grown (new_fire "f1" "zone-a" "LOW" "s1" none 1) 5 lit in
      let context = intensity_context grown c' in
      (rec : FireRecord) × (get c'.fires "f1" ≡ some rec)
      × (rec.severity ≡ "HIGH")
      × (handle_fire_intensity plain_ids (some grown) 5 lit
          ≡ evaluate plain_ids rec (some context) 5 c')
      × (verdict "severity_increase" severity_increase plain_ids rec context 5 (engine c')
          ≡ skipped))
intensity_never_triggers_example =
    intensity_never_triggers plain_ids grown 5 lit (new_fire "f1" "zone-a" "LOW" "s1" none 1)
      lit-AllSound found refl
