-- ===== src/Agent/Samples.antt =====
-- agent/vehicle_agent/models.py: `PositionFix` and `Sample` with `as_payload`, and the
-- `_deserialize` of queue.py. `json.loads` gives back what `json.dumps` wrote.
use Prim.Native.String.{compare}
use Prim.Native.Nat.{Ordering}
use carhibou.Prelude.{
  ℕ, Bool, true, false, ◌&&◌, Option, none, some, String, List, [], ◌∷◌, if◌then◌else◌,
}
use carhibou.Prelude.Int.{pos}
use carhibou.Prelude.Equality.{Dict, ◌==◌, string_eq, contains}
use carhibou.Prelude.Time.{Instant}
use carhibou.Telemetry.Values.{Value, null, int, text, float}

-- What a payload holds: a value, the ISO text of an instant, an object or a list.
mutual
  pub data Item (F : Type 0) : Type 0 where
    leaf : Value F → Item F
    moment : Instant → Item F
    object : Fields F → Item F
    array : Items F → Item F

  pub data Fields (F : Type 0) : Type 0 where
    end : Fields F
    field : String → Item F → Fields F → Fields F

  pub data Items (F : Type 0) : Type 0 where
    nil : Items F
    cons : Item F → Items F → Items F

pub record PositionFix (F : Type 0) : Type 0 where
  pub latitude : F
  pub longitude : F
  pub recorded_at : Option Instant
  pub altitude : Option F
  pub speed : Option F
  pub heading : Option F
  pub accuracy : Option F
  pub fix_quality : Option ℕ
  pub satellites : Option ℕ

pub record Sample (F : Type 0) : Type 0 where
  pub id : String
  pub sequence : ℕ
  pub recorded_at : Instant
  pub position : Option (PositionFix F)
  pub metrics : Dict String (Value F)
  pub agent : Dict String (Value F)
  pub reporting_interval : Option ℕ

-- The order of `sorted` on texts.
abbrev pub text_le : String → String → Bool
text_le s t = elim (compare s t) [ Ordering.gt ↦ false | _ ↦ true ]

-- `x or y` for instants.
abbrev or_instant : Option Instant → Instant → Instant
or_instant none t = t
or_instant (some s) t = s

infixl 5 ◌>>=◌
abbrev pub ◌>>=◌ {ℓ κ} : {A : Type ℓ} {B : Type κ} → Option A → (A → Option B) → Option B
none >>= f = none
some a >>= f = f a

module _ {F : Type 0} where
  -- An entry that is None is left out.
  abbrev optional : String → Option F → Fields F → Fields F
  optional key none rest = rest
  optional key (some x) rest = field key (leaf (float x)) rest

  -- `as_telemetry`
  abbrev pub as_telemetry : PositionFix F → Fields F
  as_telemetry p = field "latitude" (leaf (float p.latitude)) (
      field "longitude" (leaf (float p.longitude)) (
        optional "altitude" p.altitude (
          optional "speed" p.speed
            (optional "heading" p.heading (optional "accuracy" p.accuracy end)))))

  unfoldable pub insert_sorted : String × Value F → Dict String (Value F) → Dict String (Value F)
  insert_sorted x [] = x ∷ []
  insert_sorted x (y ∷ ys) = if text_le x.0 y.0 then x ∷ y ∷ ys else y ∷ insert_sorted x ys

  -- `sorted(metrics.items())`, whose keys are distinct.
  abbrev pub sorted_items : Dict String (Value F) → Dict String (Value F)
  sorted_items [] = []
  sorted_items (x ∷ xs) = insert_sorted x (sorted_items xs)

  abbrev pub observation : Instant → String × Value F → Item F
  observation recorded_at (key, value) = object (
      field "key" (leaf (text key)) (
        field "value" (leaf value) (
          field "observed_at" (moment recorded_at)
            (field "channel" (leaf (text "can")) (field "method" (leaf (text "direct")) end)))))

  abbrev pub observations : Instant → Dict String (Value F) → Items F
  observations recorded_at [] = nil
  observations recorded_at (m ∷ metrics) =
      cons (observation recorded_at m) (observations recorded_at metrics)

  abbrev pub position_item : Instant → Option (PositionFix F) → Item F
  position_item recorded_at none = leaf null
  position_item recorded_at (some p) = object (
      field "value" (object (as_telemetry p)) (
        field "observed_at" (moment (or_instant p.recorded_at recorded_at))
          (field "channel" (leaf (text "gnss")) (field "method" (leaf (text "direct")) end))))

  -- A dictionary of values as an object.
  abbrev pub fields_of : Dict String (Value F) → Fields F
  fields_of [] = end
  fields_of ((key, value) ∷ rest) = field key (leaf value) (fields_of rest)

  abbrev pub interval_item : Option ℕ → Item F
  interval_item none = leaf null
  interval_item (some n) = leaf (int (pos n))

  -- `as_payload`
  unfoldable pub as_payload : Sample F → Fields F
  as_payload s = field "id" (leaf (text s.id)) (
      field "sequence" (leaf (int (pos s.sequence))) (
        field "recorded_at" (moment s.recorded_at) (
          field "position" (position_item s.recorded_at s.position) (
            field "observations" (array (observations s.recorded_at (sorted_items s.metrics))) (
              field "agent" (object (fields_of s.agent))
                (field "reporting_interval" (interval_item s.reporting_interval) end))))))

  abbrev pub get_field : String → Fields F → Option (Item F)
  get_field key end = none
  get_field key (field name item rest) = if name == key then some item else get_field key rest

  abbrev pub keys : Fields F → List String
  keys end = []
  keys (field name item rest) = name ∷ keys rest

-- A sample that is read back. The fields of its position are the arguments that `PositionFix` was
-- given; `reporting_interval` has the default of `Sample`.
pub record Restored (F : Type 0) : Type 0 where
  pub id : String
  pub sequence : ℕ
  pub recorded_at : Instant
  pub position : Option (Fields F)
  pub metrics : Fields F
  pub agent : Fields F
  pub reporting_interval : Option ℕ

abbrev pub position_parameters : List String
position_parameters =
    "latitude" ∷ "longitude" ∷ "recorded_at" ∷ "altitude" ∷ "speed" ∷ "heading" ∷ "accuracy"
    ∷ "fix_quality" ∷ "satellites" ∷ []

abbrev all_in : List String → List String → Bool
all_in [] ys = true
all_in (x ∷ xs) ys = contains x ys && all_in xs ys

module _ {F : Type 0} where
  -- Whether `PositionFix(**fields)` raises no TypeError.
  unfoldable pub accepts : Fields F → Bool
  accepts fields =
      all_in (keys fields) position_parameters
      && (contains "latitude" (keys fields) && contains "longitude" (keys fields))

  -- The position of a payload; the outer None is the TypeError.
  abbrev pub read_position : Option (Item F) → Option (Option (Fields F))
  read_position (some (object fields)) = if accepts fields then some (some fields) else none
  read_position _ = some none

  -- `dict(value) if isinstance(value, dict) else {}`, of a key that may be missing.
  abbrev pub read_object : Option (Item F) → Fields F
  read_object (some (object fields)) = fields
  read_object _ = end

  abbrev pub read_text : Option (Item F) → Option String
  read_text (some (leaf (text s))) = some s
  read_text _ = none

  abbrev pub read_int : Option (Item F) → Option ℕ
  read_int (some (leaf (int (pos n)))) = some n
  read_int _ = none

  abbrev pub read_moment : Option (Item F) → Option Instant
  read_moment (some (moment t)) = some t
  read_moment _ = none

  -- `_deserialize`, where None stands for an exception. An `id` and a `sequence` of other types
  -- than those that `as_payload` writes are not read.
  unfoldable pub deserialize : Fields F → Option (Restored F)
  deserialize payload = do
    position ← read_position (get_field "position" payload)
    id ← read_text (get_field "id" payload)
    sequence ← read_int (get_field "sequence" payload)
    recorded_at ← read_moment (get_field "recorded_at" payload)
    some (record {
      id = id;
      sequence = sequence;
      recorded_at = recorded_at;
      position = position;
      metrics = read_object (get_field "metrics" payload);
      agent = read_object (get_field "agent" payload);
      reporting_interval = some 5;
    })
