-- ===== src/Telemetry/Resolution/Readings/Tests.antt =====
-- Runs of the resolution of a vehicle that charges.
use carhibou.Prelude.{◌≡◌, refl, true, false, none, some, String, [], ◌∷◌, In}
use carhibou.Prelude.Int.{ℤ, pos, negsuc}
use carhibou.Prelude.Equality.{get, string_eq}
use carhibou.Prelude.Hundredths.{hundredths}
use carhibou.Prelude.Maximum.{max_of, max_from}
use carhibou.Prelude.Time.{Instant, minutes}
use carhibou.Telemetry.Values.{bool, float, finite_number}
use carhibou.Telemetry.Registry.{definition_for, observation_is_fresh}
use carhibou.Telemetry.Registry.Catalog.{canonical_metrics}
use carhibou.Telemetry.Resolution.{
  mqtt, Method, SourceKind, Candidate, Reading, reading_as, candidate_is_fresh, retains, choose,
  choose_from, choose_stale,
}
use carhibou.Telemetry.Resolution.Readings.{
  derive, group_from, metric_readings, charging_from, derived_power, power_reading,
  resolve_readings,
}
use carhibou.Telemetry.Resolution.Readings.Lookup.{chosen, from_choice, get-resolve_readings}
use carhibou.Telemetry.Resolution.Readings.Fresh.{Shows, evidence_keys, resolve_readings-fresh}

abbrev measured : String → ℤ → Candidate ℤ
measured key value = record {
  key = key;
  value = float value;
  observed_at = minutes 10;
  source_id = "charger";
  source_kind = SourceKind.connector;
  channel = mqtt;
  method = Method.direct;
  source = record {
    reporting_interval = none;
    event_driven = false;
    source_last_contact_at = none;
    source_liveness_window_seconds = none;
  };
}

-- A charger that gives 7 kW.
abbrev charger : Candidate ℤ
charger = measured "charging.power" (pos 700)

-- A battery that takes up 6.5 kW.
abbrev battery : Candidate ℤ
battery = measured "battery.power" (negsuc 649)

abbrev at : Instant
at = minutes 11

abbrev active_reading : Reading ℤ
active_reading = reading_as (derive charger "charging.active" (bool true)) true

charger-chosen : chosen "charging.power" (charger ∷ battery ∷ []) at ≡ some charger
unfolding choose choose_from max_of max_from candidate_is_fresh observation_is_fresh definition_for
    canonical_metrics
charger-chosen = refl

state-chosen : chosen "charging.active" (charger ∷ battery ∷ []) at ≡ none
unfolding choose choose_from choose_stale max_of max_from candidate_is_fresh observation_is_fresh
    definition_for canonical_metrics
state-chosen = refl

power-chosen : chosen "charging.power" (battery ∷ []) at ≡ none
unfolding choose choose_from choose_stale max_of max_from candidate_is_fresh observation_is_fresh
    definition_for canonical_metrics
power-chosen = refl

active-resolved :
    get "charging.active" (resolve_readings (charger ∷ battery ∷ []) at) ≡ some active_reading
unfolding resolve_readings group_from metric_readings charging_from derived_power power_reading
    finite_number choose choose_from choose_stale max_of max_from candidate_is_fresh
    observation_is_fresh definition_for canonical_metrics
active-resolved = refl

power-resolved :
    get "charging.power" (resolve_readings (battery ∷ []) at)
    ≡ some (reading_as (derive battery "charging.power" (float (pos 650))) true)
unfolding resolve_readings group_from metric_readings charging_from derived_power power_reading
    finite_number choose choose_from choose_stale max_of max_from candidate_is_fresh
    observation_is_fresh definition_for canonical_metrics
power-resolved = refl

active-retains : retains (definition_for "charging.active") ≡ false
unfolding definition_for canonical_metrics
active-retains = refl

get-resolve_readings_example :
    get "battery.power" (resolve_readings (charger ∷ battery ∷ []) at)
    ≡ from_choice at (chosen "battery.power" (charger ∷ battery ∷ []) at)
get-resolve_readings_example = get-resolve_readings "battery.power" (charger ∷ battery ∷ []) at refl

resolve_readings-fresh_example :
    (c : Candidate ℤ) × In c (charger ∷ battery ∷ [])
    × In c.key (evidence_keys "charging.active")
    × Shows at c active_reading
resolve_readings-fresh_example =
    resolve_readings-fresh "charging.active" (charger ∷ battery ∷ []) at active-resolved
      active-retains
