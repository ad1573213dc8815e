-- ===== src/Telemetry/Resolution/Readings.antt =====
-- backend/app/telemetry/resolution.py: `resolve_readings`, with the grouping of the candidates and
-- the evidence for charging.
pub mod Lookup
pub mod Charging
pub mod Fresh
mod Tests
use carhibou.Prelude.{
  ℕ, Bool, true, false, ◌&&◌, ◌||◌, Option, none, some, String, List, [], ◌∷◌, ◌++◌, or_else,
  if◌then◌else◌,
}
use carhibou.Prelude.Int.{ℤ, pos}
use carhibou.Prelude.Equality.{◌==◌, Dict, get, insert, string_eq}
use carhibou.Prelude.Float.{Float}
use carhibou.Prelude.Time.{Instant}
use carhibou.Telemetry.Values.{Value, bool, float, null, int, text, finite_number}
use carhibou.Telemetry.Resolution.{
  Candidate, Reading, Channel, Method, candidate_is_fresh, reading, reading_as, choose,
}

-- `key in {"charging.active", "charging.power"}`
abbrev pub is_charging : String → Bool
is_charging key = key == "charging.active" || key == "charging.power"

abbrev pub is_true : {F : Type 0} → Value F → Bool
is_true (bool b) = b
is_true _ = false

abbrev pub choices_of : {A : Type 0} → Option (List A) → List A
choices_of none = []
choices_of (some choices) = choices

abbrev pub store : {V : Type 0} → String → Option V → Dict String V → Dict String V
store key none readings = readings
store key (some r) readings = insert key r readings

-- What `resolve_readings` holds of charging: `active`, and the reading that it stores.
abbrev pub Charging : Type 0 → Type 0
Charging F = Option Bool × Option (Reading F)

module _ {F : Type 0} where
  -- `_derived`
  abbrev pub derive : Candidate F → String → Value F → Candidate F
  derive origin key value = record origin {
    key = key;
    value = value;
    channel = Channel.derived;
    method = Method.derived;
  }

  -- `by_key.setdefault(candidate.key, []).append(candidate)`, over the candidates.
  pub group_from :
      Dict String (List (Candidate F)) → List (Candidate F) → Dict String (List (Candidate F))
  group_from groups [] = groups
  group_from groups (c ∷ cs) =
      group_from (insert c.key (choices_of (get c.key groups) ++ c ∷ []) groups) cs

  abbrev put_reading :
      String → Option (Candidate F) → Instant → Dict String (Reading F) → Dict String (Reading F)
  put_reading key none now readings = readings
  put_reading key (some c) now readings = insert key (reading c now) readings

  -- The loop over `by_key.items()`.
  pub metric_readings :
      Instant → Dict String (List (Candidate F)) → Dict String (Reading F) → Dict String (Reading F)
  metric_readings now [] readings = readings
  metric_readings now ((key, choices) ∷ groups) readings =
      metric_readings now groups (
        if is_charging key then readings else put_reading key (choose key choices now) now readings)

module _ {F : Type 0} ⦃ops : Float F⦄ where
  abbrev pub charging_power_floor_kw : F
  charging_power_floor_kw = ops.decimal (pos 5) 1

  abbrev pub number_of : Option (Candidate F) → Option F
  number_of none = none
  number_of (some c) = finite_number c.value

  -- `power is not None and power >= CHARGING_POWER_FLOOR_KW`
  abbrev pub reaches_floor : Option F → Bool
  reaches_floor none = false
  reaches_floor (some power) = ops.le charging_power_floor_kw power

  -- `battery_power is not None and battery_power <= -CHARGING_POWER_FLOOR_KW`
  abbrev pub absorbs : Option F → Bool
  absorbs none = false
  absorbs (some power) = ops.le power (ops.neg charging_power_floor_kw)

  abbrev pub origin_fresh : Option (Candidate F) → Instant → Option (Candidate F)
  origin_fresh none now = none
  origin_fresh (some c) now = if candidate_is_fresh c now then some c else none

  abbrev pub inferred_from : Option (Candidate F) → Bool → Charging F
  inferred_from none active = (none, none)
  inferred_from (some origin) active =
      (some active, some (reading_as (derive origin "charging.active" (bool active)) true))

  -- The `else` branch: charging as far as the powers show it.
  abbrev pub inferred_charging : Option (Candidate F) → Option (Candidate F) → Instant → Charging F
  inferred_charging evidence battery now =
      inferred_from (origin_fresh (or_else evidence battery) now)
        (reaches_floor (number_of evidence) || absorbs (number_of battery))

  abbrev pub explicit_or : Option (Candidate F) → Charging F → Instant → Charging F
  explicit_or none inferred now = inferred
  explicit_or (some c) inferred now = (some (is_true c.value), some (reading c now))

  pub charging_from :
      Option (Candidate F) → Option (Candidate F) → Option (Candidate F) → Instant → Charging F
  charging_from explicit evidence battery now =
      explicit_or (origin_fresh explicit now) (inferred_charging evidence battery now) now

  abbrev pub negative_power : Candidate F → Option F → Option (Reading F)
  negative_power battery none = none
  negative_power battery (some power) =
      if ops.lt power (ops.of_int (pos 0))
      then some (reading_as (derive battery "charging.power" (float (ops.abs power))) true)
      else none

  -- `battery and battery_power is not None and battery_power < 0`
  pub derived_power : Option (Candidate F) → Option (Reading F)
  derived_power none = none
  derived_power (some battery) = negative_power battery (finite_number battery.value)

  pub power_reading :
      Option (Candidate F) → Option (Candidate F) → Option Bool → Instant → Option (Reading F)
  power_reading (some c) battery active now = some (reading c now)
  power_reading none battery (some true) now = derived_power battery
  power_reading none battery _ now = none

  -- `resolve_readings`
  pub resolve_readings : List (Candidate F) → Instant → Dict String (Reading F)
  resolve_readings candidates now =
      let groups = group_from [] candidates in
      let explicit = choose "charging.active" (choices_of (get "charging.active" groups)) now in
      let evidence = choose "charging.power" (choices_of (get "charging.power" groups)) now in
      let battery = choose "battery.power" (choices_of (get "battery.power" groups)) now in
      let (active, active_reading) = charging_from explicit evidence battery now in
      store "charging.power" (power_reading evidence battery active now)
        (store "charging.active" active_reading (metric_readings now groups []))
