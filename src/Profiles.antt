-- ===== src/Profiles.antt =====
-- backend/app/vehicle_profiles: profiles that map the messages of other services to metrics. The
-- models of schemas.py, with the validators that schemas.py writes out.
pub mod Mapping
pub mod Readers
mod Tests
use Prim.Native.Char.{Char, code}
use Prim.Native.String
use carhibou.Prelude.{
  ℕ, suc, Bool, true, false, ◌&&◌, ◌||◌, not, Option, none, some, is_some, String, List, [], ◌∷◌,
  map, any, leb, eqb, if◌then◌else◌,
}
use carhibou.Prelude.Equality.{◌==◌, Dict, contains, string_eq}
use carhibou.Prelude.Text.{text_length, any_char}
use carhibou.Telemetry.Values.{Value}

-- `enum` is None or a dictionary; `boolean` and `json_flatten` are None or True.
pub record MappingTransform (F : Type 0) : Type 0 where
  pub scale : Option F
  pub offset : Option F
  pub enum : Option (Dict String (Value F))
  pub boolean : Bool
  pub json_flatten : Bool

pub record MappingRule (F : Type 0) : Type 0 where
  pub match : String
  pub target : String
  pub transform : Option (MappingTransform F)

pub record MappingProfileDefinition (F : Type 0) : Type 0 where
  pub passthrough_prefix : String
  pub ignore : List String
  pub rules : List (MappingRule F)

-- `POSITION_TARGETS`
abbrev pub position_targets : List String
position_targets =
    "position.latitude" ∷ "position.longitude" ∷ "position.altitude" ∷ "position.speed"
    ∷ "position.heading" ∷ "position.accuracy" ∷ []

abbrev within : Char → ℕ → ℕ → Bool
within c low high = leb low (code c) && leb (code c) high

-- `[a-z]` and `[a-z0-9_.-]`
abbrev pub is_key_start : Char → Bool
is_key_start c = within c b'a' b'z'

abbrev pub is_key_char : Char → Bool
is_key_char c =
    is_key_start c
    || (within c b'0' b'9' || (eqb (code c) b'_' || (eqb (code c) b'.' || eqb (code c) b'-')))

-- `re.fullmatch(PROFILE_KEY, key)`
abbrev pub is_profile_key : String → Bool
is_profile_key String.[] = false
is_profile_key (String.◌∷◌ c s) = is_key_start c && not (any_char (λ d. not (is_key_char d)) s)

-- The sum of `one_transform_kind`.
abbrev count_modes : List Bool → ℕ
count_modes [] = 0
count_modes (true ∷ modes) = suc (count_modes modes)
count_modes (false ∷ modes) = count_modes modes

-- `len(keys) != len(set(keys))`
abbrev pub repeats : List String → Bool
repeats [] = false
repeats (k ∷ ks) = contains k ks || repeats ks

module _ {F : Type 0} where
  -- `transform.enum or transform.boolean or transform.json_flatten`, where an empty dictionary is
  -- false.
  abbrev other_than_numeric : MappingTransform F → Bool
  other_than_numeric t =
      (elim t.enum [ none ↦ false | some d ↦ elim d [ [] ↦ false | x ∷ xs ↦ true ] ])
      || (t.boolean || t.json_flatten)

  abbrev pub flattens : Option (MappingTransform F) → Bool
  flattens none = false
  flattens (some t) = t.json_flatten

  abbrev is_numeric : Option (MappingTransform F) → Bool
  is_numeric none = true
  is_numeric (some t) = not (other_than_numeric t)

  -- `MappingRule.valid_target`, where false stands for the ValueError.
  unfoldable pub valid_target : MappingRule F → Bool
  valid_target rule =
      if rule.target == "position"
      then flattens rule.transform
      else if contains rule.target position_targets
      then is_numeric rule.transform
      else is_profile_key rule.target

  -- `one_transform_kind`
  unfoldable pub one_transform_kind : MappingTransform F → Bool
  one_transform_kind t =
      leb
        (count_modes (
          (is_some t.scale || is_some t.offset) ∷ is_some t.enum ∷ t.boolean ∷ t.json_flatten ∷ []))
        1

  -- `unique_matches`
  unfoldable pub unique_matches : MappingProfileDefinition F → Bool
  unique_matches d =
      let matches = map (λ r. r.match) d.rules in
      not (repeats matches) && not (any (λ k. contains k d.ignore) matches)
