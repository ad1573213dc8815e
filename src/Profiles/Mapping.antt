-- ===== src/Profiles/Mapping.antt =====
-- backend/app/vehicle_profiles/mapping.py: `MappingEngine`. Its errors are the texts of the source.
pub mod Outcomes
pub mod Message
use Prim.Native.Char.{Char, code}
use Prim.Native.String.{◌++◌ as append_text}
use Prim.Native.String
use carhibou.Prelude.{
  ℕ, Bool, true, false, ◌&&◌, ◌||◌, not, Option, none, some, is_some, String, List, [], ◌∷◌, ◌++◌,
  leb, eqb, filter, and_then, if◌then◌else◌,
}
use carhibou.Prelude.Equality.{◌==◌, Dict, get, insert, remove, contains, string_eq}
use carhibou.Prelude.Float.{Float}
use carhibou.Prelude.Int.{pos}
use carhibou.Prelude.Math.{Math, Texts}
use carhibou.Prelude.Text.{Characters, text_length, any_char, after_prefix}
use carhibou.Telemetry.Values.{Value, null, bool, float, text, is_null}
use carhibou.Telemetry.Values.Coercion.{
  Raw, Load, malformed, raised, loaded, object, other, Parsing, NumericRange, in_range,
  position_ranges, coerce_value, coerce_metric_value, coerce_value_number, coerce_number,
}
use carhibou.Profiles.{MappingTransform, MappingRule, MappingProfileDefinition}

pub record MappedValue (F : Type 0) : Type 0 where
  pub metrics : Dict String (Value F)
  pub position : Dict String F
  pub errors : List String

abbrev pub nothing_mapped : {F : Type 0} → MappedValue F
nothing_mapped = record { metrics = []; position = []; errors = [] }

-- `result.errors.append(error)`
abbrev pub note : {F : Type 0} → String → MappedValue F → MappedValue F
note error r = record r { errors = r.errors ++ error ∷ [] }

-- `position.update(new)`
abbrev pub merge : {V : Type 0} → Dict String V → Dict String V → Dict String V
merge old [] = old
merge old ((k, v) ∷ new) = merge (insert k v old) new

-- `self._rules.get(key)`: the last rule of a key counts.
abbrev pub rule_for : {F : Type 0} → String → List (MappingRule F) → Option (MappingRule F)
rule_for key [] = none
rule_for key (r ∷ rules) =
    let later = rule_for key rules in
    elim later [ some l ↦ some l | none ↦ if r.match == key then some r else none ]

-- The values of an enumeration: that of the text, or else that of "*".
abbrev pub enum_value : {F : Type 0} → String → Dict String (Value F) → Value F
enum_value value enum = elim (get value enum) [
  | some v ↦ v
  | none ↦ elim (get "*" enum) [ some v ↦ v | none ↦ null ]
]

abbrev or_one : {F : Type 0} ⦃ops : Float F⦄ → Option F → F
or_one ⦃ops⦄ none = ops.of_int (pos 1)
or_one (some x) = x

abbrev or_zero : {F : Type 0} ⦃ops : Float F⦄ → Option F → F
or_zero ⦃ops⦄ none = ops.of_int (pos 0)
or_zero (some x) = x

-- `value.startswith("{")`
abbrev pub opens_object : String → Bool
opens_object String.[] = false
opens_object (String.◌∷◌ c s) = eqb (code c) b'{'

module _ ⦃chars : Characters⦄ where
  -- `_valid_metric_key`
  unfoldable pub valid_metric_key : String → Bool
  valid_metric_key value =
      not (value == "") && (leb (text_length value) 120 && not (any_char chars.is_space value))

module _ {F : Type 0} ⦃ps : Parsing F⦄ where
  abbrev pub as_object : Load F → Option (Option (Dict String (Raw F)))
  as_object malformed = some none
  as_object raised = none
  as_object (loaded other) = some none
  as_object (loaded (object d)) = some (some d)

  -- `_json_object`, or none where `json.loads` raises another exception.
  abbrev pub json_object : String → Option (Option (Dict String (Raw F)))
  json_object value = as_object (ps.loads value)

-- What the loop of `_position_object` has done so far.
pub record Fields (F : Type 0) : Type 0 where
  pub position : Dict String F
  pub found : Bool
  pub result : MappedValue F

abbrev pub dotted : String → String → String
dotted prefix key = append_text prefix (append_text "." key)

abbrev pub field_error : String → String → String
field_error source name =
    append_text source (append_text ": position field " (append_text name " is invalid"))

module _ ⦃texts : Texts String⦄ where
  -- `value.lower() in {"1", "true", "yes", "on"}`
  abbrev pub is_truth : String → Bool
  is_truth value = contains (texts.lower value) ("1" ∷ "true" ∷ "yes" ∷ "on" ∷ [])

module _ {F : Type 0} ⦃ops : Float F⦄ ⦃fs : Math F⦄ ⦃texts : Texts String⦄ ⦃chars : Characters⦄
    ⦃ps : Parsing F⦄ where
  -- A field of a position, in `_store`.
  abbrev pub store_field :
      String → String → Option F → NumericRange F → MappedValue F → MappedValue F
  store_field source name none bounds result =
      note (append_text source ": position value is invalid") result
  store_field source name (some number) bounds result =
      if in_range bounds number
      then record result { position = insert name number result.position }
      else note (append_text source ": position value is invalid") result

  -- `_store`, where None stands for the KeyError of an unknown field.
  unfoldable pub store : MappingRule F → Value F → MappedValue F → Option (MappedValue F)
  store rule value result =
      if is_null value then some result else elim (after_prefix "position." rule.target) [
        | none ↦ some (record result { metrics = insert rule.target value result.metrics })
        | some name ↦ elim (get name position_ranges) [
          | none ↦ none
          | some bounds ↦
              some (store_field rule.match name (coerce_value_number value) bounds result)
        ]
      ]

  abbrev pub read_field : String → String → NumericRange F → Option F → Fields F → Fields F
  read_field source name bounds none s = record s {
    found = true;
    result = note (field_error source name) s.result;
  }
  read_field source name bounds (some number) s =
      if in_range bounds number
      then record s { found = true; position = insert name number s.position }
      else record s { found = true; result = note (field_error source name) s.result }

  -- One round of the loop of `_position_object`.
  abbrev pub read_raw :
      String → String → NumericRange F → Option (Raw F) → Fields F → Option (Fields F)
  read_raw source name bounds none s = some s
  read_raw source name bounds (some raw) s =
      and_then (coerce_number raw) (λ o. some (read_field source name bounds o s))

  -- The loop of `_position_object`.
  pub read_fields :
      String → Dict String (Raw F) → List (String × NumericRange F) → Fields F → Option (Fields F)
  read_fields source values [] s = some s
  read_fields source values ((name, bounds) ∷ ranges) s =
      and_then (read_raw source name bounds (get name values) s)
        (λ s'. read_fields source values ranges s')

  -- What follows the loop.
  abbrev pub end_fields : String → Fields F → MappedValue F
  end_fields source s =
      if not s.found
      then note (append_text source ": position object has no supported fields") s.result
      else if is_some (get "latitude" s.position)
      then (if is_some (get "longitude" s.position)
          then record s.result { position = merge s.result.position s.position }
          else record (note
              (append_text source ": latitude and longitude must be provided together") s.result) {
                position =
                    merge s.result.position (remove "longitude" (remove "latitude" s.position));
              })
      else if is_some (get "longitude" s.position)
      then record (note (append_text source ": latitude and longitude must be provided together")
          s.result) {
            position = merge s.result.position (remove "longitude" (remove "latitude" s.position));
          }
      else record s.result { position = merge s.result.position s.position }

  -- `_position_object`
  pub position_object : String → Dict String (Raw F) → MappedValue F → Option (MappedValue F)
  position_object source values result =
      and_then
        (read_fields source values position_ranges
          (record { position = []; found = false; result = result }))
        (λ s. some (end_fields source s))

  abbrev pub flatten_value : String → Value F → MappedValue F → MappedValue F
  flatten_value metric_key coerced result =
      if is_null coerced
      then result
      else record result { metrics = insert metric_key coerced result.metrics }

  -- One round of the loop of `_flatten`.
  abbrev pub flatten_raw : String → Raw F → MappedValue F → Option (MappedValue F)
  flatten_raw metric_key raw result =
      if valid_metric_key metric_key
      then and_then (coerce_metric_value raw) (λ v. some (flatten_value metric_key v result))
      else some result

  -- `_flatten`, where none stands for an exception.
  pub flatten : String → Dict String (Raw F) → MappedValue F → Option (MappedValue F)
  flatten prefix [] result = some result
  flatten prefix ((key, raw) ∷ values) result =
      and_then (flatten_raw (dotted prefix key) raw result) (λ r. flatten prefix values r)

  -- The branches of `_apply_rule`.
  abbrev pub apply_object :
      MappingRule F → Option (Dict String (Raw F)) → MappedValue F → Option (MappedValue F)
  apply_object rule none result =
      some (note (append_text rule.match ": expected a JSON object") result)
  apply_object rule (some parsed) result =
      if rule.target == "position"
      then position_object rule.match parsed result
      else flatten rule.target parsed result

  abbrev pub apply_json : MappingRule F → String → MappedValue F → Option (MappedValue F)
  apply_json rule value result = and_then (json_object value) (λ o. apply_object rule o result)

  abbrev pub apply_enum :
      MappingRule F → String → Dict String (Value F) → MappedValue F → Option (MappedValue F)
  apply_enum rule value enum result =
      if is_null (enum_value value enum)
      then some (note (append_text rule.match ": value is not mapped") result)
      else store rule (enum_value value enum) result

  abbrev pub apply_scale :
      MappingRule F → MappingTransform F → Option F → MappedValue F → Option (MappedValue F)
  apply_scale rule t none result = some (note (append_text rule.match ": expected a number") result)
  apply_scale rule t (some number) result =
      store rule (float (fs.add (fs.mul number (or_one t.scale)) (or_zero t.offset))) result

  -- The value as it stands, of a rule that no transform of `_apply_rule` applies to.
  abbrev pub apply_plain : MappingRule F → String → MappedValue F → Option (MappedValue F)
  apply_plain rule value result =
      store rule (if rule.target == "vehicle.state" then text value else coerce_value (text value))
        result

  abbrev pub apply_scalar :
      MappingRule F → MappingTransform F → String → MappedValue F → Option (MappedValue F)
  apply_scalar rule t value result =
      if t.boolean
      then store rule (bool (is_truth value)) result
      else if is_some t.scale || is_some t.offset
      then apply_scale rule t (coerce_value_number (text value)) result
      else apply_plain rule value result

  abbrev pub apply_by_enum :
      MappingRule F
      → MappingTransform F
      → Option (Dict String (Value F))
      → String
      → MappedValue F
      → Option (MappedValue F)
  apply_by_enum rule t none value result = apply_scalar rule t value result
  apply_by_enum rule t (some enum) value result = apply_enum rule value enum result

  abbrev pub apply_transform :
      MappingRule F → Option (MappingTransform F) → String → MappedValue F → Option (MappedValue F)
  apply_transform rule none value result = apply_plain rule value result
  apply_transform rule (some t) value result =
      if t.json_flatten
      then apply_json rule value result
      else apply_by_enum rule t t.enum value result

  -- `_apply_rule`
  unfoldable pub apply_rule : MappingRule F → String → MappedValue F → Option (MappedValue F)
  apply_rule rule value result = apply_transform rule rule.transform value result

  abbrev pub pass_object :
      String → String → Option (Dict String (Raw F)) → MappedValue F → Option (MappedValue F)
  pass_object key prefix none result =
      some (note (append_text key ": expected a JSON object") result)
  pass_object key prefix (some parsed) result = flatten prefix parsed result

  -- `_passthrough`
  unfoldable pub passthrough : String → String → String → MappedValue F → Option (MappedValue F)
  passthrough passthrough_prefix key value result =
      let prefix = dotted passthrough_prefix key in
      if opens_object value
      then and_then (json_object value) (λ o. pass_object key prefix o result)
      else if not (valid_metric_key prefix)
      then some (note (append_text key ": mapped key is too long") result)
      else some (flatten_value prefix (coerce_value (text value)) result)

  -- `map` from the stripped value on.
  abbrev pub map_value : MappingProfileDefinition F → String → String → Option (MappedValue F)
  map_value d key value =
      if value == "" || texts.lower value == "nil"
      then some nothing_mapped
      else elim (rule_for key d.rules) [
        | some rule ↦ apply_rule rule value nothing_mapped
        | none ↦
            if d.passthrough_prefix == ""
            then some nothing_mapped
            else passthrough d.passthrough_prefix key value nothing_mapped
      ]

  -- `MappingEngine.map`. The payload is a text, or the bytes that it is decoded from: then None
  -- stands for the UnicodeDecodeError.
  unfoldable pub map_message :
      MappingProfileDefinition F → String → Option String → Option (MappedValue F)
  map_message d key payload =
      if not (valid_metric_key key) || any_char (λ c. eqb (code c) b'/') key
      then some (note "invalid source key" nothing_mapped)
      else if contains key d.ignore
      then some nothing_mapped
      else elim payload [
        | none ↦ some (note (append_text key ": payload is not UTF-8") nothing_mapped)
        | some value ↦ map_value d key (texts.strip value)
      ]
