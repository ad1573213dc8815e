-- ===== src/Telemetry/Values.antt =====
-- backend/app/telemetry/values.py: what a metric may hold, and its finite number.
pub mod Coercion
use carhibou.Prelude.{Bool, true, false, Option, none, some, String, if◌then◌else◌}
use carhibou.Prelude.Int.{ℤ}
use carhibou.Prelude.Float.{Float}

-- `MetricValue`. Python tells a bool, an int, a float and a str apart by `isinstance`.
-- An int here is one that `float` can hold.
pub data Value (F : Type 0) : Type 0 where
  null : Value F
  bool : Bool → Value F
  int : ℤ → Value F
  float : F → Value F
  text : String → Value F

module _ {F : Type 0} ⦃ops : Float F⦄ where
  -- An int or a float that is finite, as a float.
  unfoldable pub finite_number : Value F → Option F
  finite_number (int n) =
      let number = ops.of_int n in if ops.is_finite number then some number else none
  finite_number (float x) = if ops.is_finite x then some x else none
  finite_number null = none
  finite_number (bool b) = none
  finite_number (text s) = none

-- `value is None`
abbrev pub is_null : {F : Type 0} → Value F → Bool
is_null null = true
is_null _ = false
