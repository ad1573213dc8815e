-- ===== src/Telemetry/Registry.antt =====
-- backend/app/telemetry/registry.py: validation against the registry, and freshness.
pub mod Catalog
pub mod Validation
mod Tests
use carhibou.Prelude.{
  ℕ, ◌-◌, ◌*◌, max, Bool, true, false, ◌&&◌, Option, none, some, String, List, [], ◌∷◌, leb,
  or_number, is_some, if◌then◌else◌,
}
use carhibou.Prelude.Int.{ℤ}
use carhibou.Prelude.Equality.{get, string_eq}
use carhibou.Prelude.Float.{Float}
use carhibou.Prelude.Time.{Instant, Duration, seconds}
use carhibou.Telemetry.Values.{Value, null, bool, int, float, text, finite_number}
use Catalog.{MetricDefinition, ValueType, slow_freshness, canonical_metrics}

abbrev pub freshness_interval_multiplier : ℕ
freshness_interval_multiplier = 3

unfoldable pub definition_for : String → Option MetricDefinition
unfolding canonical_metrics
definition_for key = get key canonical_metrics

abbrev pub freshness_of : String → Duration
freshness_of key = elim (definition_for key) [ none ↦ slow_freshness | some d ↦ d.freshness ]

-- What an observation says of its source, for freshness.
pub record Liveness : Type 0 where
  pub reporting_interval : Option ℕ
  pub event_driven : Bool
  pub source_last_contact_at : Option Instant
  pub source_liveness_window_seconds : Option ℕ

-- The age up to which a report that is not held up by its source's contacts is fresh.
abbrev pub widened : Duration → Option ℕ → Duration
widened freshness none = freshness
widened freshness (some interval) =
    max freshness (seconds (freshness_interval_multiplier * interval))

abbrev pub contact_for : Bool → Option Instant → Option Instant
contact_for true contact = contact
contact_for false contact = none

unfoldable pub observation_is_fresh : String → Instant → Instant → Liveness → Bool
observation_is_fresh key observed_at now source =
    let freshness = freshness_of key in
    elim (contact_for source.event_driven source.source_last_contact_at) [
      | some contact ↦
          leb (now - max freshness (seconds (or_number source.source_liveness_window_seconds 0)))
            contact
      | none ↦ leb (now - widened freshness source.reporting_interval) observed_at
    ]

module _ {F : Type 0} ⦃ops : Float F⦄ where
  -- `bound is not None and number < bound`
  abbrev below : F → Option ℤ → Bool
  below number none = false
  below number (some minimum) = ops.lt number (ops.of_int minimum)

  abbrev above : F → Option ℤ → Bool
  above number none = false
  above number (some maximum) = ops.lt (ops.of_int maximum) number

  -- The case of a number in `MetricDefinition.validate`.
  abbrev within : MetricDefinition → Option F → Option (Value F)
  within d none = none
  within d (some number) =
      if below number d.minimum
      then none
      else if above number d.maximum
      then none
      else some (float number)

  -- `MetricDefinition.validate` of a value that is not None; `none` is its None.
  validate_as : ValueType → MetricDefinition → Value F → Option (Value F)
  validate_as ValueType.boolean d (bool b) = some (bool b)
  validate_as ValueType.boolean d _ = none
  validate_as ValueType.string d (text s) = some (text s)
  validate_as ValueType.string d _ = none
  validate_as ValueType.number d value = within d (finite_number value)

  pub validate : MetricDefinition → Value F → Option (Value F)
  validate d null = none
  validate d value = validate_as d.value_type d value

  abbrev validated : Option (Value F) → Bool × Value F
  validated none = (false, null)
  validated (some value) = (true, value)

  abbrev normalize_known : Option MetricDefinition → Value F → Bool × Value F
  normalize_known none value = (true, value)
  normalize_known (some d) value = validated (validate d value)

  -- Whether the observation is accepted, and the value to store.
  pub normalize_value : String → Value F → Bool × Value F
  normalize_value key null = (true, null)
  normalize_value key value = normalize_known (definition_for key) value
