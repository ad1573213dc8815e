-- ===== src/Telemetry/Values/Coercion.antt =====
-- backend/app/telemetry/values.py: the coercion of values that come from outside.
use Prim.Native.Char.{Char, code}
use Prim.Native.String.{String}
use carhibou.Prelude.{
  Bool, true, false, ◌&&◌, ◌||◌, Option, none, some, [], ◌∷◌, eqb, if◌then◌else◌,
}
use carhibou.Prelude.Equality.{◌==◌, Dict, string_eq}
use carhibou.Prelude.Float.{Float}
use carhibou.Prelude.Int.{ℤ, pos, negsuc}
use carhibou.Prelude.Math.{Texts}
use carhibou.Prelude.Text.{Characters}
use carhibou.Telemetry.Values.{Value, null, bool, int, float, text, finite_number}

-- A value that `json.loads` gives: a value of a metric, an int that is too large for a float, or a
-- list or an object, which no coercion accepts.
pub data Raw (F : Type 0) : Type 0 where
  scalar : Value F → Raw F
  oversized : Raw F
  container : Raw F

pub data Loaded (F : Type 0) : Type 0 where
  object : Dict String (Raw F) → Loaded F
  other : Loaded F

-- How `json.loads` ends: with a JSONDecodeError, with another exception, such as that for a text
-- that is nested too deep or for a number with too many digits, or with a value.
pub data Load (F : Type 0) : Type 0 where
  malformed : Load F
  raised : Load F
  loaded : Loaded F → Load F

-- What Python reads out of a text: `float(s)` of a text that stands for a number, and
-- `json.loads(s)`.
pub record Parsing (F : Type 0) : Type 0 where
  pub to_float : String → F
  pub loads : String → Load F

pub record NumericRange (F : Type 0) : Type 0 where
  pub minimum : F
  pub maximum : F
  pub maximum_exclusive : Bool

-- What a character is to `NUMBER`.
pub data Mark : Type 0 where
  sign digit point exponent foreign : Mark

-- Where a match of `NUMBER` stands: at the start, after the sign, in the digits, after a point
-- without digits before it, in the fraction, after the `e`, after the sign of the exponent, and in
-- the digits of the exponent.
pub data Place : Type 0 where
  first signed whole bare fraction marked marked_sign power : Place

abbrev pub advance : Place → Mark → Option Place
advance first sign = some signed
advance first digit = some whole
advance first point = some bare
advance signed digit = some whole
advance signed point = some bare
advance whole digit = some whole
advance whole point = some fraction
advance whole exponent = some marked
advance bare digit = some fraction
advance fraction digit = some fraction
advance fraction exponent = some marked
advance marked sign = some marked_sign
advance marked digit = some power
advance marked_sign digit = some power
advance power digit = some power
advance _ _ = none

abbrev pub complete : Place → Bool
complete whole = true
complete fraction = true
complete power = true
complete _ = false

module _ ⦃chars : Characters⦄ where
  abbrev pub mark_of : Char → Mark
  mark_of c =
      if chars.is_digit c
      then digit
      else if eqb (code c) b'+' || eqb (code c) b'-'
      then sign
      else if eqb (code c) b'.'
      then point
      else if eqb (code c) b'e' || eqb (code c) b'E'
      then exponent
      else foreign

  abbrev pub matches_from : Place → String → Bool
  matches_from p String.[] = complete p
  matches_from p (String.◌∷◌ c s) = elim (advance p (mark_of c)) [
    | none ↦ false
    | some q ↦ matches_from q s
  ]

  -- `NUMBER.fullmatch(s)`
  unfoldable pub is_number : String → Bool
  is_number s = matches_from first s

module _ {F : Type 0} ⦃ops : Float F⦄ where
  -- `NumericRange.contains`
  abbrev pub in_range : NumericRange F → F → Bool
  in_range r value =
      ops.le r.minimum value
      && (if r.maximum_exclusive then ops.lt value r.maximum else ops.le value r.maximum)

  abbrev closed : ℤ → ℤ → NumericRange F
  closed low high = record {
    minimum = ops.of_int low;
    maximum = ops.of_int high;
    maximum_exclusive = false;
  }

  -- `POSITION_RANGES`
  abbrev pub position_ranges : Dict String (NumericRange F)
  position_ranges =
      ("latitude", closed (negsuc 89) (pos 90))
      ∷ ("longitude", closed (negsuc 179) (pos 180))
      ∷ ("altitude", closed (negsuc 499) (pos 15_000))
      ∷ ("speed", closed (pos 0) (pos 1000))
      ∷ ("heading", record (closed (pos 0) (pos 360)) { maximum_exclusive = true })
      ∷ ("accuracy", closed (pos 0) (pos 100_000))
      ∷ []

  -- A float, or None.
  abbrev pub or_null : Option F → Value F
  or_null none = null
  or_null (some x) = float x

  module _ ⦃texts : Texts String⦄ ⦃chars : Characters⦄ ⦃ps : Parsing F⦄ where
    -- The branch of `coerce_metric_value` for a text, after `strip`.
    abbrev pub coerce_text : String → Value F
    coerce_text cleaned =
        if cleaned == "" || texts.lower cleaned == "nil"
        then null
        else if texts.lower cleaned == "true"
        then bool true
        else if texts.lower cleaned == "false"
        then bool false
        else if is_number cleaned
        then or_null (finite_number (float (ps.to_float cleaned)))
        else text cleaned

    -- `coerce_metric_value` of a value of a metric, which raises no exception.
    unfoldable pub coerce_value : Value F → Value F
    coerce_value null = null
    coerce_value (bool b) = bool b
    coerce_value (int n) = or_null (finite_number (int n))
    coerce_value (float x) = or_null (finite_number (float x))
    coerce_value (text s) = coerce_text (texts.strip s)

    -- `coerce_metric_value`, where none stands for the OverflowError of `float(value)`.
    unfoldable pub coerce_metric_value : Raw F → Option (Value F)
    coerce_metric_value container = some null
    coerce_metric_value oversized = none
    coerce_metric_value (scalar value) = some (coerce_value value)

    -- `coerce_number` of a value of a metric.
    unfoldable pub coerce_value_number : Value F → Option F
    coerce_value_number value = finite_number (coerce_value value)

    abbrev coerced_number : Option (Value F) → Option (Option F)
    coerced_number none = none
    coerced_number (some value) = some (finite_number value)

    -- `coerce_number`
    unfoldable pub coerce_number : Raw F → Option (Option F)
    coerce_number raw = coerced_number (coerce_metric_value raw)
