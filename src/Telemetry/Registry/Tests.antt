-- ===== src/Telemetry/Registry/Tests.antt =====
-- Runs of the registry.
use carhibou.Prelude.{◌≡◌, refl, true, false, none, some}
use carhibou.Prelude.Int.{ℤ, pos}
use carhibou.Prelude.Hundredths.{hundredths}
use carhibou.Prelude.Time.{minutes}
use carhibou.Telemetry.Values.{Value, int, float, text, null, finite_number}
use carhibou.Telemetry.Registry.{
  Liveness, definition_for, observation_is_fresh, normalize_value, validate, validate_as,
}
use carhibou.Telemetry.Registry.Catalog.{canonical_metrics, MetricDefinition, ValueType, state}
use carhibou.Telemetry.Registry.Validation.{fits, normalize_value-fits}

abbrev soc : MetricDefinition
soc = record {
  key = "battery.soc";
  value_type = ValueType.number;
  unit = some "%";
  meaning = "how much charge is left in the main battery, from zero to one hundred";
  kind = state;
  freshness = minutes 15;
  retain_stale = true;
  minimum = some (pos 0);
  maximum = some (pos 100);
}

abbrev eighty : Value ℤ
eighty = int (pos 80)

-- The state of charge is stored as a float.
normalize_value-eighty : normalize_value "battery.soc" eighty ≡ (true, float (pos 8000))
unfolding normalize_value definition_for canonical_metrics validate validate_as finite_number
normalize_value-eighty = refl

-- More than a hundred percent and a text are refused.
normalize_value-refused :
    (normalize_value {F = ℤ} "battery.soc" (int (pos 101)) ≡ (false, null))
    × (normalize_value {F = ℤ} "battery.soc" (text "80") ≡ (false, null))
unfolding normalize_value definition_for canonical_metrics validate validate_as finite_number
normalize_value-refused = (refl, refl)

normalize_value-fits_example :
    (fits soc (float (pos 8000)) ≡ true)
    × (normalize_value "battery.soc" (float (pos 8000)) ≡ (true, float (pos 8000)))
unfolding definition_for canonical_metrics
normalize_value-fits_example =
    normalize_value-fits "battery.soc" eighty (float (pos 8000)) refl normalize_value-eighty

-- A source that was in contact at minute 20 and is asked about for five minutes.
abbrev event_source : Liveness
event_source = record {
  reporting_interval = none;
  event_driven = true;
  source_last_contact_at = some (minutes 20);
  source_liveness_window_seconds = some 300;
}

-- The speed of minute 1 is still fresh at minute 25, as its source was in contact.
speed_fresh : observation_is_fresh "vehicle.speed" (minutes 1) (minutes 25) event_source ≡ true
unfolding observation_is_fresh definition_for canonical_metrics
speed_fresh = refl

speed_stale : observation_is_fresh "vehicle.speed" (minutes 1) (minutes 26) event_source ≡ false
unfolding observation_is_fresh definition_for canonical_metrics
speed_stale = refl
