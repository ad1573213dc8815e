-- ===== src/Profiles/Mapping/Outcomes.antt =====
-- backend/app/vehicle_profiles/mapping.py: what a mapped message holds.
use Prim.Native.String.{◌++◌ as append_text}
use carhibou.Prelude.{
  ◌≡◌, refl, sym, ap, In, and_then, arith, true, false, Option, none, some, is_some, String, List,
  [], ◌∷◌, Bool-cases, Option-cases, inl, inr, if◌then◌else◌, All,
}
use carhibou.Prelude.Equality.{◌==◌, Dict, get, insert, remove, string_eq}
use carhibou.Prelude.Float.{Float}
use carhibou.Prelude.Keys.{insert-All, remove-All}
use carhibou.Prelude.Math.{Math, Texts}
use carhibou.Prelude.Text.{Characters, after_prefix}
use carhibou.Telemetry.Values.{Value, null, is_null}
use carhibou.Telemetry.Values.Coercion.{
  Raw, scalar, oversized, container, Parsing, NumericRange, in_range, position_ranges,
  coerce_metric_value, coerce_number, coerce_value, coerce_value_number,
}
use carhibou.Profiles.{MappingRule}
use carhibou.Profiles.Mapping.{
  MappedValue, note, read_raw, flatten_raw, merge, valid_metric_key, Fields, dotted, store_field,
  store, read_field, read_fields, end_fields, position_object, flatten_value, flatten,
}

-- A result that fits, or an exception with its reason.
abbrev pub Gives : {A : Type 0} → (A → Type 0) → Type 0 → Option A → Type 0
Gives P Q none = Q
Gives P Q (some a) = P a

pub Gives-map :
    {A : Type 0} (P : A → Type 0) (Q R : Type 0) (o : Option A)
    → (Q → R)
    → Gives P Q o
    → Gives P R o
Gives-map P Q R none f h = f h
Gives-map P Q R (some a) f h = h

Gives-then :
    {A B : Type 0} (P : A → Type 0) (R : B → Type 0) (Q : Type 0) (o : Option A) (f : A → Option B)
    → Gives P Q o
    → ((a : A) → P a → Gives R Q (f a))
    → Gives R Q (and_then o f)
Gives-then P R Q none f h g = h
Gives-then P R Q (some a) f h g = g a h

get-In : {V : Type 0} (k : String) (v : V) (d : Dict String V) → get k d ≡ some v → In (k, v) d
get-In k v [] e = absurd (cc e)
get-In k v ((j, w) ∷ d) e = elim (Bool-cases (j == k)) [
  | inl same ↦
      inl (rw ((string_eq.same_iff j k).0 same) (ap (λ x. (k, x)) (ground (arith, same, e))))
  | inr other ↦ inr (get-In k v d (ground (arith, other, e)))
]

module _ {F : Type 0} ⦃ops : Float F⦄ where
  -- A field of a position whose value lies in the range of the field.
  abbrev pub Lies : String × F → Type 0
  Lies row = (b : NumericRange F) × (get row.0 position_ranges ≡ some b) × (in_range b row.1 ≡ true)

  abbrev pub Present : String × Value F → Type 0
  Present row = is_null row.1 ≡ false

  -- Positions in range, and metrics that have a value.
  pub record IsMapped (r : MappedValue F) : Type 0 where
    pub in_place : All Lies r.position
    pub present : All Present r.metrics

  -- A rule whose target is a field of the position that there is not.
  pub data Unknown (rule : MappingRule F) : Type 0 where
    unknown_field :
        (name : String)
        → after_prefix "position." rule.target ≡ some name
        → get name (position_ranges {F = F}) ≡ none
        → Unknown rule

  -- A JSON object with an int that is too large for a float.
  abbrev pub Oversized : Dict String (Raw F) → Type 0
  Oversized values = (key : String) × In (key, oversized) values

  pub merge-Lies :
      (old new : Dict String F) → All Lies old → All Lies new → All Lies (merge old new)
  merge-Lies old [] h k = h
  merge-Lies old ((n, x) ∷ new) h k =
      merge-Lies (insert n x old) new (insert-All Lies n x old k.0 h) k.1

-- A row of the ranges that `get` finds.
Listed : {F : Type 0} ⦃ops : Float F⦄ → String × NumericRange F → Type 0
Listed {F} row = get row.0 (position_ranges {F = F}) ≡ some row.1

position_ranges-Listed : (F : Type 0) ⦃ops : Float F⦄ → All Listed (position_ranges {F = F})
unfolding Listed
position_ranges-Listed F = (refl, (refl, (refl, (refl, (refl, (refl, tt))))))

module _ {F : Type 0} ⦃ops : Float F⦄ ⦃fs : Math F⦄ ⦃texts : Texts String⦄ ⦃chars : Characters⦄
    ⦃ps : Parsing F⦄ where
  put_metric :
      (k : String) (v : Value F) (r : MappedValue F)
      → is_null v ≡ false
      → IsMapped r
      → IsMapped (record r { metrics = insert k v r.metrics })
  put_metric k v r e h = record {
    in_place = h.in_place;
    present = insert-All Present k v r.metrics e h.present;
  }

  store_field-IsMapped :
      (source name : String) (o : Option F) (b : NumericRange F) (r : MappedValue F)
      → get name position_ranges ≡ some b
      → IsMapped r
      → IsMapped (store_field source name o b r)
  store_field-IsMapped source name none b r e h = record {
    in_place = h.in_place;
    present = h.present;
  }
  store_field-IsMapped source name (some x) b r e h = elim (Bool-cases (in_range b x)) [
    | inl good ↦
        rw (good, if◌then◌else◌)
          (record {
            in_place = insert-All Lies name x r.position (b, e, good) h.in_place;
            present = h.present;
          })
    | inr bad ↦ rw (bad, if◌then◌else◌) (record { in_place = h.in_place; present = h.present })
  ]

  pub store-IsMapped :
      (rule : MappingRule F) (v : Value F) (r : MappedValue F)
      → IsMapped r
      → Gives IsMapped (Unknown rule) (store rule v r)
  unfolding store
  store-IsMapped rule v r h = elim (Bool-cases (is_null v)) [
    | inl e ↦ rw (e, if◌then◌else◌) h
    | inr e ↦
        rw (e, if◌then◌else◌)
          (elim (Option-cases (after_prefix "position." rule.target)) [
            | inl plain ↦ rw plain (put_metric rule.target v r e h)
            | inr (name, field) ↦
                rw field (elim (Option-cases (get name (position_ranges {F = F}))) [
                  | inl unknown ↦ rw unknown (unknown_field name field unknown)
                  | inr (b, known) ↦
                      rw known
                        (store_field-IsMapped rule.match name (coerce_value_number v) b r known h)
                ])
          ])
  ]

  FieldsFit : Fields F → Type 0
  FieldsFit s = All Lies s.position × IsMapped s.result

  pub noted : (e : String) (r : MappedValue F) → IsMapped r → IsMapped (note e r)
  noted e r h = record { in_place = h.in_place; present = h.present }

  read_field-FieldsFit :
      (source name : String) (b : NumericRange F) (o : Option F) (s : Fields F)
      → get name position_ranges ≡ some b
      → FieldsFit s
      → FieldsFit (read_field source name b o s)
  unfolding FieldsFit
  read_field-FieldsFit source name b none s e h = (h.0, noted _ s.result h.1)
  read_field-FieldsFit source name b (some x) s e h = elim (Bool-cases (in_range b x)) [
    | inl good ↦ rw (good, if◌then◌else◌) (insert-All Lies name x s.position (b, e, good) h.0, h.1)
    | inr bad ↦ rw (bad, if◌then◌else◌) (h.0, noted _ s.result h.1)
  ]

  read_raw-FieldsFit :
      (Q : Type 0) (source name : String) (b : NumericRange F) (o : Option (Raw F)) (s : Fields F)
      → (o ≡ some oversized → Q)
      → get name position_ranges ≡ some b
      → FieldsFit s
      → Gives FieldsFit Q (read_raw source name b o s)
  unfolding coerce_metric_value coerce_number
  read_raw-FieldsFit Q source name b none s q e h = h
  read_raw-FieldsFit Q source name b (some container) s q e h =
      read_field-FieldsFit source name b _ s e h
  read_raw-FieldsFit Q source name b (some oversized) s q e h = q refl
  read_raw-FieldsFit Q source name b (some (scalar v)) s q e h =
      read_field-FieldsFit source name b _ s e h

  read_fields-FieldsFit :
      (source : String) (values : Dict String (Raw F)) (ranges : List (String × NumericRange F))
      (s : Fields F)
      → All Listed ranges
      → FieldsFit s
      → Gives FieldsFit (Oversized values) (read_fields source values ranges s)
  unfolding read_fields Listed
  read_fields-FieldsFit source values [] s l h = h
  read_fields-FieldsFit source values ((name, b) ∷ ranges) s l h =
      Gives-then FieldsFit FieldsFit (Oversized values) (read_raw source name b (get name values) s)
        (λ s'. read_fields source values ranges s')
        (read_raw-FieldsFit (Oversized values) source name b (get name values) s
          (λ found. (name, get-In name oversized values found)) l.0 h)
        (λ s' h'. read_fields-FieldsFit source values ranges s' l.1 h')

  put_position :
      (new : Dict String F) (r : MappedValue F)
      → All Lies new
      → IsMapped r
      → IsMapped (record r { position = merge r.position new })
  put_position new r k h = record {
    in_place = merge-Lies r.position new h.in_place k;
    present = h.present;
  }

  end_fields-IsMapped :
      (source : String) (s : Fields F) → FieldsFit s → IsMapped (end_fields source s)
  unfolding FieldsFit
  end_fields-IsMapped source s h =
      let rest = remove "longitude" (remove "latitude" s.position) in
      let apart : All Lies rest =
        remove-All Lies "longitude" (remove "latitude" s.position)
          (remove-All Lies "latitude" s.position h.0) in
      let lone = put_position rest s.result apart h.1 in
      let alone =
        noted (append_text source ": latitude and longitude must be provided together") _ lone in
      elim (Bool-cases s.found) [
        | inr none_found ↦ rw (none_found, if◌then◌else◌) (noted _ s.result h.1)
        | inl found ↦
            rw (found, if◌then◌else◌)
              (elim (Bool-cases (is_some (get "latitude" s.position))) [
                | inl lat ↦
                    rw (lat, if◌then◌else◌)
                      (elim (Bool-cases (is_some (get "longitude" s.position))) [
                        | inl lon ↦
                            rw (lon, if◌then◌else◌) (put_position s.position s.result h.0 h.1)
                        | inr lon ↦ rw (lon, if◌then◌else◌) alone
                      ])
                | inr lat ↦
                    rw (lat, if◌then◌else◌)
                      (elim (Bool-cases (is_some (get "longitude" s.position))) [
                        | inl lon ↦ rw (lon, if◌then◌else◌) alone
                        | inr lon ↦
                            rw (lon, if◌then◌else◌) (put_position s.position s.result h.0 h.1)
                      ])
              ])
      ]

  pub position_object-IsMapped :
      (source : String) (values : Dict String (Raw F)) (r : MappedValue F)
      → IsMapped r
      → Gives IsMapped (Oversized values) (position_object source values r)
  unfolding position_object FieldsFit
  position_object-IsMapped source values r h =
      let start : Fields F = record { position = []; found = false; result = r } in
      Gives-then FieldsFit IsMapped (Oversized values)
        (read_fields source values position_ranges start) (λ s. some (end_fields source s))
        (read_fields-FieldsFit source values position_ranges start (position_ranges-Listed F)
          (tt, h))
        (λ s fit. end_fields-IsMapped source s fit)

  pub flatten_value-IsMapped :
      (k : String) (v : Value F) (r : MappedValue F) → IsMapped r → IsMapped (flatten_value k v r)
  flatten_value-IsMapped k v r h = elim (Bool-cases (is_null v)) [
    | inl e ↦ rw (e, if◌then◌else◌) h
    | inr e ↦ rw (e, if◌then◌else◌) (put_metric k v r e h)
  ]

  flatten_raw-IsMapped :
      (Q : Type 0) (k : String) (raw : Raw F) (r : MappedValue F)
      → (raw ≡ oversized → Q)
      → IsMapped r
      → Gives IsMapped Q (flatten_raw k raw r)
  unfolding coerce_metric_value
  flatten_raw-IsMapped Q k raw r q h = elim (Bool-cases (valid_metric_key k)) [
    | inr bad ↦ rw (bad, if◌then◌else◌) h
    | inl good ↦ rw (good, if◌then◌else◌) (coerced raw q)
  ]
    where
      coerced :
          (raw : Raw F)
          → (raw ≡ oversized → Q)
          → Gives IsMapped Q (and_then (coerce_metric_value raw) (λ v. some (flatten_value k v r)))
      coerced container q = flatten_value-IsMapped k null r h
      coerced oversized q = q refl
      coerced (scalar v) q = flatten_value-IsMapped k (coerce_value v) r h

  pub flatten-IsMapped :
      (prefix : String) (values : Dict String (Raw F)) (r : MappedValue F)
      → IsMapped r
      → Gives IsMapped (Oversized values) (flatten prefix values r)
  unfolding flatten
  flatten-IsMapped prefix [] r h = h
  flatten-IsMapped prefix ((key, raw) ∷ values) r h =
      let row : String × Raw F = (key, raw) in
      Gives-then IsMapped IsMapped (Oversized (row ∷ values))
        (flatten_raw (dotted prefix key) raw r) (λ r'. flatten prefix values r')
        (flatten_raw-IsMapped (Oversized (row ∷ values)) (dotted prefix key) raw r
          (λ large. (key, inl (ap (λ x. (key, x)) (sym large)))) h)
        (λ r' h'.
          Gives-map IsMapped (Oversized values) (Oversized (row ∷ values))
            (flatten prefix values r') (λ found. (found.0, inr found.1))
            (flatten-IsMapped prefix values r' h'))
