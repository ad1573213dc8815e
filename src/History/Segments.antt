-- ===== src/History/Segments.antt =====
-- backend/app/history/segments.py: how the rows of a period are cut into charges and drives. A
-- group of rows is given by its bounds, the index of its first row and the one after its last.
pub mod Motion
pub mod Groups
pub mod Drives
pub mod Charges
mod Tests
use carhibou.Prelude.{
  ℕ, zero, suc, ◌+◌, ◌-◌, Bool, true, false, ◌&&◌, ◌||◌, not, Option, none, some, String, List, [],
  ◌∷◌, ◌++◌, map, take, drop, leb, if◌then◌else◌,
}
use carhibou.Prelude.Int.{ℤ, pos}
use carhibou.Prelude.Equality.{Dict, get, string_eq}
use carhibou.Prelude.Float.{Float}
use carhibou.Prelude.Time.{Instant, Duration, seconds}
use carhibou.Telemetry.Values.{Value, null, bool, int, float, text, finite_number}

-- What the segments read of a row of telemetry, and its properties.
pub record Row (F : Type 0) : Type 0 where
  pub recorded_at : Instant
  pub latitude : Option F
  pub longitude : Option F
  pub gps_speed : Option F
  pub reporting_interval : Option ℕ
  pub metrics : Dict String (Value F)
  pub agent_data : Dict String (Value F)

-- `rows[start:end]` of the two bounds.
abbrev pub Bounds : Type 0
Bounds = ℕ × ℕ

abbrev pub slice : {A : Type 0} → List A → Bounds → List A
slice rows (start, end) = take (end - start) (drop start rows)

-- `get`, where a missing key is None.
abbrev pub value_at : {F : Type 0} → String → Dict String (Value F) → Value F
value_at key values = elim (get key values) [ none ↦ null | some v ↦ v ]

-- `isinstance(value, bool)`, with the value.
abbrev pub bool_of : {F : Type 0} → Value F → Option Bool
bool_of (bool b) = some b
bool_of _ = none

abbrev or_signal : Option Bool → Option Bool → Option Bool
or_signal none s = s
or_signal (some b) s = some b

module _ {F : Type 0} ⦃ops : Float F⦄ where
  -- `CHARGING_POWER_FLOOR_KW` of segments.py.
  abbrev pub charging_power_floor : F
  charging_power_floor = ops.decimal (pos 5) 1

  abbrev power_signal : Option F → Option Bool
  power_signal none = none
  power_signal (some power) = some (ops.le charging_power_floor power)

  -- `_charge_signal`
  pub charge_signal : Row F → Option Bool
  unfolding finite_number
  charge_signal row =
      or_signal (bool_of (value_at "charging.active" row.metrics))
        (power_signal (finite_number (value_at "charging.power" row.metrics)))

-- `start` and `last_charging`, which are set and reset together.
abbrev pub Open : Type 0
Open = Option (ℕ × ℕ)

-- One round of the loop of `_charge_groups`: the group that it closes, and the state after it.
abbrev pub charge_closed : Option Bool → ℕ → Open → List Bounds
charge_closed (some false) index (some (start, last)) = (start, index + 1) ∷ []
charge_closed _ index _ = []

abbrev pub charge_next : Option Bool → ℕ → Open → Open
charge_next (some true) index none = some (index, index)
charge_next (some true) index (some (start, last)) = some (start, index)
charge_next (some false) index _ = none
charge_next none index state = state

-- What follows the loop.
abbrev pub charge_end : Open → List Bounds
charge_end none = []
charge_end (some (start, last)) = (start, last + 1) ∷ []

module _ {F : Type 0} ⦃ops : Float F⦄ where
  -- The loop of `_charge_groups`, from an index on.
  pub charge_bounds : ℕ → Open → List (Row F) → List Bounds
  charge_bounds index state [] = charge_end state
  charge_bounds index state (row ∷ rows) =
      let signal = charge_signal row in
      charge_closed signal index state
      ++ charge_bounds (index + 1) (charge_next signal index state) rows

  -- `_charge_groups`
  abbrev pub charge_groups : List (Row F) → List (List (Row F))
  charge_groups rows = map (slice rows) (charge_bounds 0 none rows)
