-- ===== src/Telemetry/Registry/Catalog.antt =====
-- backend/app/telemetry/registry.py: the canonical metrics, in the order of the source.
use carhibou.Prelude.{Bool, true, false, Option, none, some, String, List, [], ◌∷◌, ◌++◌}
use carhibou.Prelude.Int.{ℤ, pos, negsuc}
use carhibou.Prelude.Equality.{Dict}
use carhibou.Prelude.Time.{Duration, minutes}

pub data MetricKind : Type 0 where
  measurement state counter event : MetricKind

pub data ValueType : Type 0 where
  number boolean string : ValueType

pub record MetricDefinition : Type 0 where
  pub key : String
  pub value_type : ValueType
  pub unit : Option String
  pub meaning : String
  pub kind : MetricKind
  pub freshness : Duration
  pub retain_stale : Bool
  pub minimum : Option ℤ
  pub maximum : Option ℤ

abbrev pub fast_freshness : Duration
fast_freshness = minutes 3

abbrev pub slow_freshness : Duration
slow_freshness = minutes 15

-- `_number`, with the defaults written out at each call.
abbrev number_metric :
    String → String → String → MetricKind → Duration → Bool → Option ℤ → Option ℤ → MetricDefinition
number_metric key unit meaning kind freshness retain_stale minimum maximum = record {
  key = key;
  value_type = number;
  unit = some unit;
  meaning = meaning;
  kind = kind;
  freshness = freshness;
  retain_stale = retain_stale;
  minimum = minimum;
  maximum = maximum;
}

-- A metric that is not a number has no unit and no bounds.
abbrev other_metric : String → ValueType → String → MetricKind → Duration → Bool → MetricDefinition
other_metric key value_type meaning kind freshness retain_stale = record {
  key = key;
  value_type = value_type;
  unit = none;
  meaning = meaning;
  kind = kind;
  freshness = freshness;
  retain_stale = retain_stale;
  minimum = none;
  maximum = none;
}

-- The operation of the vehicle.
abbrev metrics_vehicle : List MetricDefinition
metrics_vehicle =
    number_metric "vehicle.speed" "km/h" "how fast the vehicle is moving" measurement fast_freshness
      false (some (pos 0)) (some (pos 1000))
    ∷ number_metric "vehicle.odometer" "km" "total distance the vehicle has travelled" counter
        slow_freshness true (some (pos 0)) none
    ∷ number_metric "vehicle.range" "km" "how far the vehicle estimates it can still go" state
        slow_freshness true (some (pos 0)) none
    ∷ other_metric "vehicle.state" string "the operating state the vehicle reports for itself" state
        slow_freshness true
    ∷ other_metric "vehicle.ready" boolean "whether the vehicle is switched on and able to move"
        state fast_freshness false
    ∷ other_metric "vehicle.in_use" boolean "whether the vehicle is actively in use" state
        fast_freshness false
    ∷ []

-- The battery and the charger.
abbrev metrics_battery : List MetricDefinition
metrics_battery =
    number_metric "battery.soc" "%"
      "how much charge is left in the main battery, from zero to one hundred" state slow_freshness
      true (some (pos 0)) (some (pos 100))
    ∷ number_metric "battery.current" "A" "current flowing into or out of the main battery"
        measurement fast_freshness false none none
    ∷ number_metric "battery.pack_voltage" "V" "voltage of the main battery that drives the wheels"
        measurement fast_freshness false (some (pos 0)) none
    ∷ number_metric "battery.aux_voltage" "V"
        "voltage of the small battery that powers the lights, locks and electronics" state
        slow_freshness true (some (pos 0)) (some (pos 30))
    ∷ number_metric "battery.power" "kW"
        "power the main battery is delivering, negative while it is charging" measurement
        fast_freshness false none none
    ∷ other_metric "charging.active" boolean "whether the vehicle is actively charging" state
        fast_freshness false
    ∷ number_metric "charging.power" "kW" "power coming from the charger into the vehicle"
        measurement fast_freshness false (some (pos 0)) none
    ∷ number_metric "charging.energy_added" "kWh" "energy added so far in this charge" counter
        slow_freshness true (some (pos 0)) none
    ∷ number_metric "charging.voltage" "V" "voltage coming from the charger" measurement
        fast_freshness false (some (pos 0)) none
    ∷ number_metric "charging.current" "A" "current coming from the charger" measurement
        fast_freshness false (some (pos 0)) none
    ∷ []

-- The engine, the body, and the warning light of the tyres.
abbrev metrics_engine : List MetricDefinition
metrics_engine =
    number_metric "engine.rpm" "rpm" "how fast the engine or motor is turning" measurement
      fast_freshness false (some (pos 0)) none
    ∷ number_metric "engine.load" "%" "how hard the engine is working, as a share of its maximum"
        measurement fast_freshness false (some (pos 0)) (some (pos 100))
    ∷ number_metric "engine.throttle" "%" "how far the throttle is open" measurement fast_freshness
        false (some (pos 0)) (some (pos 100))
    ∷ number_metric "engine.maf" "g/s" "how much air the engine is drawing in each second"
        measurement fast_freshness false (some (pos 0)) (some (pos 1000))
    ∷ number_metric "engine.intake_temperature" "°C" "temperature of the air entering the engine"
        measurement fast_freshness false (some (negsuc 99)) (some (pos 300))
    ∷ number_metric "fuel.level" "%" "usable fuel remaining in the tank from empty to full" state
        slow_freshness true (some (pos 0)) (some (pos 100))
    ∷ number_metric "engine.coolant_temperature" "°C" "coolant temperature" measurement
        fast_freshness false (some (negsuc 99)) (some (pos 300))
    ∷ other_metric "vehicle.door_open" boolean "whether a vehicle door is open" state fast_freshness
        true
    ∷ other_metric "vehicle.lights" string "whether exterior lights are active" state fast_freshness
        true
    ∷ other_metric "vehicle.high_beam" boolean "whether high-beam lights are active" state
        fast_freshness true
    ∷ other_metric "vehicle.handbrake" boolean "whether the parking brake is active" state
        fast_freshness true
    ∷ other_metric "tyre.warning" boolean "whether the tyre-pressure system reports a warning" state
        slow_freshness true
    ∷ []

-- One pressure and one temperature for each wheel.
abbrev metrics_tyre : List MetricDefinition
metrics_tyre =
    number_metric "tyre.front_left_pressure" "bar" "front left tyre pressure" measurement
      slow_freshness true (some (pos 0)) (some (pos 1000))
    ∷ number_metric "tyre.front_left_temperature" "°C" "front left tyre temperature" measurement
        slow_freshness true (some (negsuc 99)) (some (pos 300))
    ∷ number_metric "tyre.front_right_pressure" "bar" "front right tyre pressure" measurement
        slow_freshness true (some (pos 0)) (some (pos 1000))
    ∷ number_metric "tyre.front_right_temperature" "°C" "front right tyre temperature" measurement
        slow_freshness true (some (negsuc 99)) (some (pos 300))
    ∷ number_metric "tyre.rear_left_pressure" "bar" "rear left tyre pressure" measurement
        slow_freshness true (some (pos 0)) (some (pos 1000))
    ∷ number_metric "tyre.rear_left_temperature" "°C" "rear left tyre temperature" measurement
        slow_freshness true (some (negsuc 99)) (some (pos 300))
    ∷ number_metric "tyre.rear_right_pressure" "bar" "rear right tyre pressure" measurement
        slow_freshness true (some (pos 0)) (some (pos 1000))
    ∷ number_metric "tyre.rear_right_temperature" "°C" "rear right tyre temperature" measurement
        slow_freshness true (some (negsuc 99)) (some (pos 300))
    ∷ []

abbrev pub definitions : List MetricDefinition
definitions = metrics_vehicle ++ (metrics_battery ++ (metrics_engine ++ metrics_tyre))

abbrev by_key : List MetricDefinition → Dict String MetricDefinition
by_key [] = []
by_key (d ∷ ds) = (d.key, d) ∷ by_key ds

-- `CANONICAL_METRICS`
unfoldable pub canonical_metrics : Dict String MetricDefinition
canonical_metrics = by_key definitions
