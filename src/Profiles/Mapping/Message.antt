-- ===== src/Profiles/Mapping/Message.antt =====
-- backend/app/vehicle_profiles/mapping.py: what `map` gives for a message, and when it raises.
use Prim.Native.Char.{code}
use carhibou.Prelude.{
  ◌≡◌, refl, subst, and_then, false, ◌||◌, not, Option, none, some, is_some, String, List, [], ◌∷◌,
  Bool-cases, Option-cases, ◌⊎◌, inl, inr, In, if◌then◌else◌, arith, eqb,
}
use carhibou.Prelude.Equality.{◌==◌, Dict, contains, string_eq}
use carhibou.Prelude.Float.{Float}
use carhibou.Prelude.Math.{Math, Texts}
use carhibou.Prelude.Text.{Characters, any_char}
use carhibou.Telemetry.Values.{Value, text, is_null}
use carhibou.Telemetry.Values.Coercion.{
  Raw, Load, malformed, raised, loaded, object, other, Parsing, coerce_value_number,
}
use carhibou.Profiles.{MappingTransform, MappingRule, MappingProfileDefinition}
use carhibou.Profiles.Mapping.{
  MappedValue, nothing_mapped, rule_for, enum_value, opens_object, valid_metric_key, json_object,
  as_object, dotted, apply_object, apply_plain, pass_object, apply_json, apply_enum, apply_scale,
  apply_scalar, apply_by_enum, apply_transform, apply_rule, passthrough, map_value, map_message,
}
use carhibou.Profiles.Mapping.Outcomes.{
  IsMapped, Gives, Gives-map, Unknown, Oversized, noted, store-IsMapped, position_object-IsMapped,
  flatten-IsMapped, flatten_value-IsMapped,
}

empty-IsMapped : {F : Type 0} ⦃ops : Float F⦄ → IsMapped (nothing_mapped {F = F})
empty-IsMapped = record { in_place = tt; present = tt }

rule_for-In :
    {F : Type 0} (key : String) (rules : List (MappingRule F)) {rule : MappingRule F}
    → rule_for key rules ≡ some rule
    → In rule rules
rule_for-In key [] e = cc
rule_for-In key (r ∷ rules) {rule} e = ground (arith, rule_for-In key rules {rule = rule})

-- A text that `json.loads` raises an exception for that is not caught, or one of an object with an
-- int that is too large for a float.
abbrev pub Unreadable : (F : Type 0) ⦃ops : Float F⦄ ⦃ps : Parsing F⦄ → String → Type 0
Unreadable F ⦃ops⦄ ⦃ps⦄ value =
    (ps.loads value ≡ raised)
    ⊎ ((fields : Dict String (Raw F)) × (ps.loads value ≡ loaded (object fields))
        × Oversized fields)

-- A payload that is an unreadable text.
abbrev pub UnreadablePayload :
    (F : Type 0) ⦃ops : Float F⦄ ⦃texts : Texts String⦄ ⦃ps : Parsing F⦄ → Option String → Type 0
UnreadablePayload F ⦃ops⦄ ⦃texts⦄ payload =
    (value : String) × (payload ≡ some value) × Unreadable F (texts.strip value)

module _ {F : Type 0} ⦃ops : Float F⦄ ⦃fs : Math F⦄ ⦃texts : Texts String⦄ ⦃chars : Characters⦄
    ⦃ps : Parsing F⦄ where
  -- What is made of the object that a text stands for, or of none.
  object-IsMapped :
      (value : String) (f : Option (Dict String (Raw F)) → Option (MappedValue F))
      → Gives IsMapped (Unreadable F value) (f none)
      → ((fields : Dict String (Raw F)) → Gives IsMapped (Oversized fields) (f (some fields)))
      → Gives IsMapped (Unreadable F value) (and_then (json_object value) f)
  object-IsMapped value f bad good = read (ps.loads value) refl
    where
      read :
          (l : Load F)
          → ps.loads value ≡ l
          → Gives IsMapped (Unreadable F value) (and_then (as_object l) f)
      read malformed e = bad
      read raised e = inl e
      read (loaded other) e = bad
      read (loaded (object fields)) e =
          Gives-map IsMapped (Oversized fields) (Unreadable F value) (f (some fields))
            (λ large. inr (fields, e, large)) (good fields)

  apply_json-IsMapped :
      (rule : MappingRule F) (value : String) (r : MappedValue F)
      → IsMapped r
      → Gives IsMapped (Unreadable F value) (apply_json rule value r)
  apply_json-IsMapped rule value r h =
      object-IsMapped value (λ o. apply_object rule o r) (noted _ r h)
        (λ fields. elim (Bool-cases (rule.target == "position")) [
          | inl e ↦ rw (e, if◌then◌else◌) (position_object-IsMapped rule.match fields r h)
          | inr e ↦ rw (e, if◌then◌else◌) (flatten-IsMapped rule.target fields r h)
        ])

  apply_enum-IsMapped :
      (rule : MappingRule F) (value : String) (enum : Dict String (Value F)) (r : MappedValue F)
      → IsMapped r
      → Gives IsMapped (Unknown rule) (apply_enum rule value enum r)
  apply_enum-IsMapped rule value enum r h = elim (Bool-cases (is_null (enum_value value enum))) [
    | inl e ↦ rw (e, if◌then◌else◌) (noted _ r h)
    | inr e ↦ rw (e, if◌then◌else◌) (store-IsMapped rule (enum_value value enum) r h)
  ]

  apply_scale-IsMapped :
      (rule : MappingRule F) (t : MappingTransform F) (o : Option F) (r : MappedValue F)
      → IsMapped r
      → Gives IsMapped (Unknown rule) (apply_scale rule t o r)
  apply_scale-IsMapped rule t none r h = noted _ r h
  apply_scale-IsMapped rule t (some x) r h = store-IsMapped rule _ r h

  apply_scalar-IsMapped :
      (rule : MappingRule F) (t : MappingTransform F) (value : String) (r : MappedValue F)
      → IsMapped r
      → Gives IsMapped (Unknown rule) (apply_scalar rule t value r)
  apply_scalar-IsMapped rule t value r h = elim (Bool-cases t.boolean) [
    | inl b ↦ rw (b, if◌then◌else◌) (store-IsMapped rule _ r h)
    | inr b ↦
        rw (b, if◌then◌else◌)
          (elim (Bool-cases (is_some t.scale || is_some t.offset)) [
            | inl s ↦
                rw (s, if◌then◌else◌)
                  (apply_scale-IsMapped rule t (coerce_value_number (text value)) r h)
            | inr s ↦ rw (s, if◌then◌else◌) (store-IsMapped rule _ r h)
          ])
  ]

  apply_by_enum-IsMapped :
      (rule : MappingRule F) (t : MappingTransform F) (o : Option (Dict String (Value F)))
      (value : String) (r : MappedValue F)
      → IsMapped r
      → Gives IsMapped (Unknown rule) (apply_by_enum rule t o value r)
  apply_by_enum-IsMapped rule t none value r h = apply_scalar-IsMapped rule t value r h
  apply_by_enum-IsMapped rule t (some enum) value r h = apply_enum-IsMapped rule value enum r h

  apply_transform-IsMapped :
      (rule : MappingRule F) (o : Option (MappingTransform F)) (value : String) (r : MappedValue F)
      → IsMapped r
      → Gives IsMapped (Unknown rule ⊎ Unreadable F value) (apply_transform rule o value r)
  apply_transform-IsMapped rule none value r h =
      Gives-map IsMapped (Unknown rule) (Unknown rule ⊎ Unreadable F value)
        (apply_plain rule value r) (λ u. inl u) (store-IsMapped rule _ r h)
  apply_transform-IsMapped rule (some t) value r h = elim (Bool-cases t.json_flatten) [
    | inl e ↦
        rw (e, if◌then◌else◌)
          (Gives-map IsMapped (Unreadable F value) (Unknown rule ⊎ Unreadable F value)
            (apply_json rule value r) (λ u. inr u) (apply_json-IsMapped rule value r h))
    | inr e ↦
        rw (e, if◌then◌else◌)
          (Gives-map IsMapped (Unknown rule) (Unknown rule ⊎ Unreadable F value)
            (apply_by_enum rule (record t { json_flatten = false }) t.enum value r) (λ u. inl u)
            (apply_by_enum-IsMapped rule (record t { json_flatten = false }) t.enum value r h))
  ]

  apply_rule-IsMapped :
      (rule : MappingRule F) (value : String) (r : MappedValue F)
      → IsMapped r
      → Gives IsMapped (Unknown rule ⊎ Unreadable F value) (apply_rule rule value r)
  unfolding apply_rule
  apply_rule-IsMapped rule value r h = apply_transform-IsMapped rule rule.transform value r h

  passthrough-IsMapped :
      (p key value : String) (r : MappedValue F)
      → IsMapped r
      → Gives IsMapped (Unreadable F value) (passthrough p key value r)
  unfolding passthrough
  passthrough-IsMapped p key value r h = elim (Bool-cases (opens_object value)) [
    | inl o ↦
        rw (o, if◌then◌else◌)
          (object-IsMapped value (λ x. pass_object key (dotted p key) x r) (noted _ r h)
            (λ fields. flatten-IsMapped (dotted p key) fields r h))
    | inr o ↦
        rw (o, if◌then◌else◌)
          (elim (Bool-cases (not (valid_metric_key (dotted p key)))) [
            | inl long ↦ rw (long, if◌then◌else◌) (noted _ r h)
            | inr short ↦ rw (short, if◌then◌else◌) (flatten_value-IsMapped (dotted p key) _ r h)
          ])
  ]

  -- A profile with a rule for a field of the position that there is not.
  abbrev pub Unmappable : MappingProfileDefinition F → Type 0
  Unmappable d = (rule : MappingRule F) × In rule d.rules × Unknown rule

  map_value-IsMapped :
      (d : MappingProfileDefinition F) (key value : String)
      → Gives IsMapped (Unmappable d ⊎ Unreadable F value) (map_value d key value)
  map_value-IsMapped d key value = elim (Bool-cases (value == "" || texts.lower value == "nil")) [
    | inl e ↦ rw (e, if◌then◌else◌) empty-IsMapped
    | inr e ↦
        rw (e, if◌then◌else◌)
          (elim (Option-cases (rule_for key d.rules)) [
            | inr (rule, found) ↦ rw found (
                Gives-map IsMapped (Unknown rule ⊎ Unreadable F value)
                  (Unmappable d ⊎ Unreadable F value) (apply_rule rule value nothing_mapped)
                  (λ b. elim b [
                    | inl u ↦ inl (rule, rule_for-In key d.rules found, u)
                    | inr u ↦ inr u
                  ])
                  (apply_rule-IsMapped rule value nothing_mapped empty-IsMapped))
            | inl missing ↦ rw missing (elim (Bool-cases (d.passthrough_prefix == "")) [
              | inl off ↦ rw (off, if◌then◌else◌) empty-IsMapped
              | inr on ↦
                  rw (on, if◌then◌else◌)
                    (Gives-map IsMapped (Unreadable F value) (Unmappable d ⊎ Unreadable F value)
                      (passthrough d.passthrough_prefix key value nothing_mapped) (λ u. inr u)
                      (passthrough-IsMapped d.passthrough_prefix key value nothing_mapped
                        empty-IsMapped))
            ])
          ])
  ]

  map_Gives :
      (d : MappingProfileDefinition F) (key : String) (payload : Option String)
      → Gives IsMapped (Unmappable d ⊎ UnreadablePayload F payload) (map_message d key payload)
  unfolding map_message
  map_Gives d key payload =
      elim (Bool-cases (not (valid_metric_key key) || any_char (λ c. eqb (code c) b'/') key)) [
        | inl bad ↦ rw (bad, if◌then◌else◌) (noted _ nothing_mapped empty-IsMapped)
        | inr good ↦
            rw (good, if◌then◌else◌)
              (elim (Bool-cases (contains key d.ignore)) [
                | inl ignored ↦ rw (ignored, if◌then◌else◌) empty-IsMapped
                | inr taken ↦
                    rw (taken, if◌then◌else◌)
                      (elim (Option-cases payload) [
                        | inl bytes ↦ rw bytes (noted _ nothing_mapped empty-IsMapped)
                        | inr (value, given) ↦ rw given (
                            Gives-map IsMapped (Unmappable d ⊎ Unreadable F (texts.strip value))
                              (Unmappable d ⊎ UnreadablePayload F (some value))
                              (map_value d key (texts.strip value))
                              (λ b. elim b [ inl u ↦ inl u | inr u ↦ inr (value, refl, u) ])
                              (map_value-IsMapped d key (texts.strip value)))
                      ])
              ])
      ]

  -- Whatever the profile, whose ints have floats, the key and the payload of a message are: every
  -- field of the position that it maps to is one of the six and lies in the range of that field, and
  -- every metric has a value. The mapping raises an exception only for a profile with a rule for a
  -- field of the position that there is not, for a text that `json.loads` raises an exception for
  -- other than its JSONDecodeError, and for an object with an int that is too large for a float.
  pub map_message-IsMapped :
      (d : MappingProfileDefinition F) (key : String) (payload : Option String)
      → ((r : MappedValue F) × (map_message d key payload ≡ some r) × IsMapped r)
        ⊎ ((map_message d key payload ≡ none) × (Unmappable d ⊎ UnreadablePayload F payload))
  map_message-IsMapped d key payload = elim (Option-cases (map_message d key payload)) [
    | inl e ↦ inr (
      e,
      subst (Gives IsMapped (Unmappable d ⊎ UnreadablePayload F payload)) e
          (map_Gives d key payload),
    )
    | inr (r, e) ↦ inl (
      r,
      e,
      subst (Gives IsMapped (Unmappable d ⊎ UnreadablePayload F payload)) e
          (map_Gives d key payload),
    )
  ]
