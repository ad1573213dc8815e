-- ===== src/Connectors/Session/Carried.antt =====
-- backend/app/connectors/runtime.py: the sample that `flush` makes of the buffer.
use carhibou.Prelude.{
  ℕ, ◌+◌, ◌≤◌, ◌≡◌, ◌⊎◌, In, map, refl, sym, ap, ◌∙◌, true, Option, none, some, String, [], ◌∷◌,
  length, length-map, Bool-cases, inl, inr, if◌then◌else◌, All, arith,
}
use carhibou.Prelude.Equality.{Dict, get, string_eq}
use carhibou.Prelude.Float.{Float}
use carhibou.Prelude.Text.{Characters}
use carhibou.Prelude.Time.{Instant}
use carhibou.Telemetry.Resolution.{mqtt, direct}
use carhibou.Telemetry.Values.{Value}
use carhibou.Telemetry.Candidates.{Observation, PositionObservation, TelemetrySample}
use carhibou.Telemetry.State.{text_before}
use carhibou.Profiles.Mapping.{valid_metric_key}
use carhibou.Profiles.Mapping.Outcomes.{Lies}
use carhibou.Connectors.Session.{SessionState}
use carhibou.Connectors.Session.Flush.{
  insert_item, sorted_items, time_or, valid_position, position_of, observation_of, sample_of,
  valid_sample, finite, all_valid, pair_position,
}

module _ {F : Type 0} ⦃ops : Float F⦄ where
  pub valid_position-Lies : (d : Dict String F) → All Lies d → valid_position d ≡ true
  valid_position-Lies [] h = refl
  valid_position-Lies ((name, x) ∷ d) ((b, found, inside), h) =
      rw found (ground (arith, inside, valid_position-Lies d h))

  -- The position that the buffer holds, where it holds both coordinates.
  abbrev pair : Instant → Option F → Option F → SessionState F → Option (PositionObservation F)
  pair now (some latitude) (some longitude) s = some (record {
    value = position_of latitude longitude s.position;
    observed_at = time_or s.position_observed_at now;
    channel = mqtt;
    method = direct;
  })
  pair now _ _ s = none

  abbrev pub whole_position : Instant → SessionState F → Option (PositionObservation F)
  whole_position now s = pair now (get "latitude" s.position) (get "longitude" s.position) s

  pub pair_position-pair :
      (decimal : ℕ → String) (now : Instant) (a b : Option F) (s : SessionState F)
      → valid_position s.position ≡ true
      → pair_position decimal now a b s ≡ (pair now a b s, s)
  pair_position-pair decimal now none b s h = refl
  pair_position-pair decimal now (some x) none s h = refl
  pair_position-pair decimal now (some x) (some y) s h = rw (h, if◌then◌else◌)

length-insert_item :
    {V : Type 0} (row : String × V) (xs : Dict String V)
    → length (insert_item row xs) ≡ length xs + 1
length-insert_item row [] = omega arith
length-insert_item row (x ∷ xs) = elim (Bool-cases (text_before row.0 x.0)) [
  | inl before ↦ rw (before, if◌then◌else◌) (omega arith)
  | inr later ↦ rw (later, if◌then◌else◌) (omega (arith, length-insert_item row xs))
]

pub length-sorted_items : {V : Type 0} (d : Dict String V) → length (sorted_items d) ≡ length d
length-sorted_items [] = refl
length-sorted_items (row ∷ d) =
    omega (arith, length-insert_item row (sorted_items d), length-sorted_items d)

insert_item-In :
    {V : Type 0} (row r : String × V) (xs : Dict String V)
    → (r ≡ row) ⊎ In r xs
    → In r (insert_item row xs)
insert_item-In row r [] h = h
insert_item-In row r (x ∷ xs) h = elim (Bool-cases (text_before row.0 x.0)) [
  | inl before ↦ rw (before, if◌then◌else◌) h
  | inr after ↦
      rw (after, if◌then◌else◌)
        (elim h [
          | inl new ↦ inr (insert_item-In row r xs (inl new))
          | inr old ↦ elim old [
            | inl first ↦ inl first
            | inr rest ↦ inr (insert_item-In row r xs (inr rest))
          ]
        ])
]

sorted_items-In : {V : Type 0} (r : String × V) (d : Dict String V) → In r d → In r (sorted_items d)
sorted_items-In r [] h = h
sorted_items-In r (row ∷ d) (inl e) = insert_item-In row r (sorted_items d) (inl e)
sorted_items-In r (row ∷ d) (inr h) =
    insert_item-In row r (sorted_items d) (inr (sorted_items-In r d h))

module _ {F : Type 0} where
  -- A sample with one observation for each buffered metric: its value, at the time of its stamp. It
  -- has a position exactly where both coordinates are buffered, and that has all the fields.
  pub record Carries (id : String) (now : Instant) (s : SessionState F) (sample : TelemetrySample F)
      : Type 0 where
    pub new_id : sample.id ≡ id
    pub sequenced : sample.sequence ≡ s.sequence
    pub recorded : sample.recorded_at ≡ now
    pub as_many : length sample.observations ≡ length s.metrics
    pub observed :
        (name : String) (v : Value F) (t : Instant)
        → In (name, v) s.metrics
        → get name s.metric_observed_at ≡ some t
        → (o : Observation F) × In o sample.observations
          × (o.key ≡ name)
          × (o.value ≡ v)
          × (o.observed_at ≡ t)
    pub placed :
        (latitude longitude : F) (t : Instant)
        → get "latitude" s.position ≡ some latitude
        → get "longitude" s.position ≡ some longitude
        → s.position_observed_at ≡ some t
        → (p : PositionObservation F) × (sample.position ≡ some p)
          × (p.observed_at ≡ t)
          × (p.value.latitude ≡ latitude)
          × (p.value.longitude ≡ longitude)
          × (p.value.altitude ≡ get "altitude" s.position)
          × (p.value.speed ≡ get "speed" s.position)
          × (p.value.heading ≡ get "heading" s.position)
          × (p.value.accuracy ≡ get "accuracy" s.position)
    pub unplaced :
        (get "latitude" s.position ≡ none) ⊎ (get "longitude" s.position ≡ none)
        → sample.position ≡ none

  observation_of-In :
      (times : Dict String Instant) (now t : Instant) (name : String) (v : Value F)
      (rows : Dict String (Value F))
      → In (name, v) rows
      → get name times ≡ some t
      → (o : Observation F) × In o (map (observation_of times now) rows)
        × (o.key ≡ name)
        × (o.value ≡ v)
        × (o.observed_at ≡ t)
  observation_of-In times now t name v [] h e = absurd h
  observation_of-In times now t name v (row ∷ rows) (inl same) e = (
    observation_of times now row,
    inl refl,
    ap (λ (r : String × Value F). r.0) (sym same),
    ap (λ (r : String × Value F). r.1) (sym same),
    ap (λ (r : String × Value F). time_or (get r.0 times) now) (sym same) ∙ rw e refl,
  )
  observation_of-In times now t name v (row ∷ rows) (inr h) e =
      let (o, m, k, w, at) = observation_of-In times now t name v rows h e in (o, inr m, k, w, at)

module _ {F : Type 0} ⦃ops : Float F⦄ where
  pair-none : (now : Instant) (a : Option F) (s : SessionState F) → pair now a none s ≡ none
  pair-none now none s = refl
  pair-none now (some x) s = refl

  pub sample_of-Carries :
      (id : String) (now : Instant) (s : SessionState F)
      → Carries id now s (sample_of id now (whole_position now s) s)
  sample_of-Carries id now s = record {
    new_id = refl;
    sequenced = refl;
    recorded = refl;
    as_many =
        length-map (observation_of s.metric_observed_at now) (sorted_items s.metrics)
        ∙ length-sorted_items s.metrics;
    observed = λ name v t m e.
        observation_of-In s.metric_observed_at now t name v (sorted_items s.metrics)
          (sorted_items-In (name, v) s.metrics m) e;
    placed = λ latitude longitude t a b e.
        rw (a, b, e) (_, refl, refl, refl, refl, refl, refl, refl, refl);
    unplaced = λ h. elim h [
      | inl a ↦ rw a refl
      | inr b ↦ rw b (pair-none now (get "latitude" s.position) s)
    ];
  }

insert_item-All :
    {V : Type 0} (P : String × V → Type 0) (row : String × V) (xs : Dict String V)
    → P row
    → All P xs
    → All P (insert_item row xs)
insert_item-All P row [] p h = (p, tt)
insert_item-All P row (x ∷ xs) p h = elim (Bool-cases (text_before row.0 x.0)) [
  | inl before ↦ rw (before, if◌then◌else◌) (p, h)
  | inr after ↦ rw (after, if◌then◌else◌) (h.0, insert_item-All P row xs p h.1)
]

sorted_items-All :
    {V : Type 0} (P : String × V → Type 0) (d : Dict String V) → All P d → All P (sorted_items d)
sorted_items-All P [] h = tt
sorted_items-All P (row ∷ d) h =
    insert_item-All P row (sorted_items d) h.0 (sorted_items-All P d h.1)

module _ {F : Type 0} ⦃ops : Float F⦄ ⦃chars : Characters⦄ where
  -- A metric that the validation of the sample accepts.
  abbrev pub IsSendable : String × Value F → Type 0
  IsSendable row = (valid_metric_key row.0 ≡ true) × (finite row.1 ≡ true)

  all_valid-map :
      (times : Dict String Instant) (now : Instant) (rows : Dict String (Value F))
      → All IsSendable rows
      → all_valid (map (observation_of times now) rows) ≡ true
  all_valid-map times now [] h = refl
  all_valid-map times now (row ∷ rows) ((key, value), h) =
      ground (arith, key, value, all_valid-map times now rows h)

  pub buffer-valid :
      (id : String) (now : Instant) (s : SessionState F)
      → length s.metrics ≤ 2000
      → All IsSendable s.metrics
      → valid_sample (sample_of id now (whole_position now s) s) ≡ true
  buffer-valid id now s few h = ground (
    arith,
    length-map (observation_of s.metric_observed_at now) (sorted_items s.metrics),
    length-sorted_items s.metrics,
    all_valid-map s.metric_observed_at now (sorted_items s.metrics)
        (sorted_items-All IsSendable s.metrics h),
  )
