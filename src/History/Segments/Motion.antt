-- ===== src/History/Segments/Motion.antt =====
-- backend/app/history/segments.py: `_position`, `_distance`, `_drive_signal` and
-- `_drive_evidence`.
use carhibou.Prelude.{Bool, true, false, ◌&&◌, ◌||◌, not, Option, none, some, String, List, [], ◌∷◌}
use carhibou.Prelude.Int.{pos}
use carhibou.Prelude.Equality.{string_eq, contains}
use carhibou.Prelude.Float.{Float}
use carhibou.Prelude.Math.{Math, Texts}
use carhibou.Prelude.Time.{Duration, seconds}
use carhibou.Telemetry.Values.{Value, bool, text, finite_number}
use carhibou.History.Segments.{Row, value_at, bool_of, charge_signal}

-- `JOIN_GAP`
abbrev pub join_gap : Duration
join_gap = seconds 180

-- `DRIVING_STATES`
abbrev pub driving_states : List String
driving_states = "drive" ∷ "driving" ∷ "moving" ∷ "ready" ∷ "in_use" ∷ []

pub record SegmentPosition (F : Type 0) : Type 0 where
  pub latitude : F
  pub longitude : F

-- `_position`
abbrev pub position : {F : Type 0} → Row F → Option (SegmentPosition F)
position row = elim row.latitude [
  | none ↦ none
  | some latitude ↦ elim row.longitude [
    | none ↦ none
    | some longitude ↦ some (record { latitude = latitude; longitude = longitude })
  ]
]

-- `x if isinstance(x, bool) else y`, where both may be missing.
abbrev or_bool : Option Bool → Option Bool → Option Bool
or_bool none y = y
or_bool (some b) y = some b

module _ {F : Type 0} ⦃ops : Float F⦄ where
  -- `_drive_signal`
  unfoldable pub drive_signal : Row F → Option Bool
  drive_signal row = elim (charge_signal row) [
    | some true ↦ some false
    | _ ↦ or_bool (bool_of (value_at "vehicle.in_use" row.metrics)) (
        or_bool (bool_of (value_at "vehicle_in_use" row.agent_data))
          (bool_of (value_at "vehicle.ready" row.metrics)))
  ]

  -- `value is not None and value > 1`
  abbrev pub above_one : Option F → Bool
  above_one none = false
  above_one (some value) = ops.lt (ops.of_int (pos 1)) value

  -- `value is False`
  abbrev pub is_false : Value F → Bool
  is_false (bool b) = not b
  is_false _ = false

module _ {F : Type 0} ⦃ops : Float F⦄ ⦃fs : Math F⦄ where
  -- `_distance`
  abbrev pub distance : SegmentPosition F → SegmentPosition F → F
  distance left right =
      let two = ops.of_int (pos 2) in
      let earth_km = ops.decimal (pos 63_710_088) 4 in
      let latitude = fs.radians (fs.sub right.latitude left.latitude) in
      let longitude = fs.radians (fs.sub right.longitude left.longitude) in
      let start = fs.radians left.latitude in
      let end = fs.radians right.latitude in
      let value =
        fs.add (fs.pow (fs.sin (fs.div latitude two)) 2) (
          fs.mul (fs.mul (fs.cos start) (fs.cos end)) (fs.pow (fs.sin (fs.div longitude two)) 2)) in
      fs.mul (fs.mul two earth_km) (fs.asin (fs.sqrt value))

  -- `left and right and _distance(left, right) > 0`
  abbrev pub apart : Option (SegmentPosition F) → Option (SegmentPosition F) → Bool
  apart none right = false
  apart (some left) none = false
  apart (some left) (some right) = ops.lt (ops.of_int (pos 0)) (distance left right)

  abbrev previous_position : Option (Row F) → Option (SegmentPosition F)
  previous_position none = none
  previous_position (some row) = position row

  module _ ⦃texts : Texts String⦄ where
    -- `isinstance(state, str) and state.strip().lower() in DRIVING_STATES`
    abbrev pub is_driving : Value F → Bool
    is_driving (text s) = contains (texts.lower (texts.strip s)) driving_states
    is_driving _ = false

    -- What `_drive_evidence` does where there is no signal.
    unfoldable pub fallback_evidence : Row F → Option (Row F) → Bool
    fallback_evidence row previous =
        is_driving (value_at "vehicle.state" row.metrics)
        || (above_one (finite_number (value_at "vehicle.speed" row.metrics))
            || (above_one row.gps_speed
                || (is_false (value_at "charging.active" row.metrics)
                    && apart (previous_position previous) (position row))))

    -- `_drive_evidence`
    unfoldable pub drive_evidence : Row F → Option (Row F) → Bool
    drive_evidence row previous = elim (drive_signal row) [
      | some signal ↦ signal
      | none ↦ fallback_evidence row previous
    ]
