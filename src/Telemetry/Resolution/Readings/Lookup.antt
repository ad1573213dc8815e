-- ===== src/Telemetry/Resolution/Readings/Lookup.antt =====
-- backend/app/telemetry/resolution.py: the reading of each metric, in terms of the candidates
-- that name it.
use carhibou.Prelude.{
  ◌≡◌, refl, sym, ◌∙◌, ap, inl, inr, false, Option, none, some, String, List, [], ◌∷◌, ◌++◌, arith,
  filter, Bool-cases, if◌then◌else◌,
}
use mathlib.Core.List.{append-nil, append_assoc}
use carhibou.Prelude.Equality.{◌==◌, Dict, get, insert, get-insert, string_eq}
use carhibou.Prelude.Float.{Float}
use carhibou.Prelude.Time.{Instant}
use carhibou.Prelude.Maximum.{max_of}
use carhibou.Telemetry.Resolution.{Candidate, Reading, reading, choose, choose_from, choose_stale}
use carhibou.Telemetry.Resolution.Readings.{
  is_charging, choices_of, group_from, metric_readings, put_reading, resolve_readings, store,
  Charging, charging_from, power_reading,
}

module _ {V : Type 0} where
  -- No key stands twice.
  abbrev pub IsDistinct : Dict String V → Type 0
  IsDistinct [] = Unit
  IsDistinct ((k, v) ∷ d) = (get k d ≡ none) × IsDistinct d

  insert-IsDistinct :
      (k : String) (v : V) (d : Dict String V) → IsDistinct d → IsDistinct (insert k v d)
  insert-IsDistinct k v [] h = (refl, tt)
  insert-IsDistinct k v ((j, w) ∷ d) h = ground (
    arith,
    insert-IsDistinct k v d,
    get-insert k j v d,
    string_eq.same_iff j k,
    string_eq.same_iff k j,
  )

  get-store :
      (k j : String) (r : Option V) (d : Dict String V)
      → get j (store k r d)
        ≡ (if k == j then (elim r [ none ↦ get j d | some v ↦ some v ]) else get j d)
  get-store k j none d = ground arith
  get-store k j (some v) d = get-insert k j v d

module _ {F : Type 0} where
  -- The candidates for one metric, in their order.
  abbrev pub named : String → List (Candidate F) → List (Candidate F)
  named key = filter (λ c. c.key == key)

  group_from-choices :
      (key : String) (groups : Dict String (List (Candidate F))) (cs : List (Candidate F))
      → choices_of (get key (group_from groups cs)) ≡ choices_of (get key groups) ++ named key cs
  unfolding group_from
  group_from-choices key groups [] = sym (append-nil _)
  group_from-choices key groups (c ∷ cs) =
      let v = choices_of (get c.key groups) ++ c ∷ [] in
      group_from-choices key (insert c.key v groups) cs
      ∙ (ap (λ o. choices_of o ++ named key cs) (get-insert c.key key v groups)
          ∙ elim (Bool-cases (c.key == key)) [
            | inl same ↦ rw same (
                rw (ap (λ k. choices_of (get k groups)) ((string_eq.same_iff c.key key).0 same))
                  (append_assoc (choices_of (get key groups)) (c ∷ []) (named key cs)))
            | inr other ↦ rw other refl
          ])

  group_from-IsDistinct :
      (groups : Dict String (List (Candidate F))) (cs : List (Candidate F))
      → IsDistinct groups
      → IsDistinct (group_from groups cs)
  unfolding group_from
  group_from-IsDistinct groups [] h = h
  group_from-IsDistinct groups (c ∷ cs) h =
      let v = choices_of (get c.key groups) ++ c ∷ [] in
      group_from-IsDistinct (insert c.key v groups) cs (insert-IsDistinct c.key v groups h)

  abbrev pub from_choice : Instant → Option (Candidate F) → Option (Reading F)
  from_choice now none = none
  from_choice now (some c) = some (reading c now)

  abbrev over : Option (Reading F) → Option (Reading F) → Option (Reading F)
  over none old = old
  over (some r) old = some r

  choose-nil : (key : String) (now : Instant) → choose {F = F} key [] now ≡ none
  unfolding choose choose_from choose_stale max_of
  choose-nil key now = ground arith

  get-put_reading :
      (k key : String) (o : Option (Candidate F)) (now : Instant) (d : Dict String (Reading F))
      → get key (put_reading k o now d)
        ≡ (if k == key then over (from_choice now o) (get key d) else get key d)
  get-put_reading k key none now d = ground arith
  get-put_reading k key (some c) now d = get-insert k key (reading c now) d

  over-none : (r : Option (Reading F)) → over r none ≡ r
  over-none none = refl
  over-none (some r) = refl

  get-metric_readings :
      (key : String) (now : Instant) (groups : Dict String (List (Candidate F)))
      (readings : Dict String (Reading F))
      → IsDistinct groups
      → get key (metric_readings now groups readings) ≡ (
          if is_charging key
          then get key readings
          else over
              (from_choice now (choose key (choices_of (get key groups)) now))
              (get key readings))
  unfolding metric_readings
  get-metric_readings key now [] readings h = ground (arith, choose-nil key now)
  get-metric_readings key now ((k, choices) ∷ groups) readings h =
      let next =
        if is_charging k then readings else put_reading k (choose k choices now) now readings in
      get-metric_readings key now groups next h.1
      ∙ ground (
        arith,
        get-put_reading k key (choose k choices now) now readings,
        choose-nil key now,
        string_eq.same_iff k key,
      )

module _ {F : Type 0} where
  -- What `_choose` makes of the candidates for one metric.
  abbrev pub chosen : String → List (Candidate F) → Instant → Option (Candidate F)
  chosen key cs now = choose key (named key cs) now

module _ {F : Type 0} ⦃ops : Float F⦄ where
  abbrev pub charging_of : List (Candidate F) → Instant → Charging F
  charging_of cs now =
      charging_from (chosen "charging.active" cs now) (chosen "charging.power" cs now)
        (chosen "battery.power" cs now) now

  abbrev pub power_of : List (Candidate F) → Instant → Option (Reading F)
  power_of cs now =
      power_reading (chosen "charging.power" cs now) (chosen "battery.power" cs now)
        (charging_of cs now).0 now

  resolve_readings-grouped :
      (cs : List (Candidate F)) (now : Instant)
      → resolve_readings cs now
        ≡ store "charging.power" (power_of cs now) (
            store "charging.active"
              (charging_of cs now).1
              (metric_readings now (group_from [] cs) []))
  unfolding resolve_readings
  resolve_readings-grouped cs now = rw (
    group_from-choices "charging.active" [] cs,
    group_from-choices "charging.power" [] cs,
    group_from-choices "battery.power" [] cs,
  )

  get-metric_readings_named :
      (key : String) (cs : List (Candidate F)) (now : Instant)
      → get key (metric_readings now (group_from [] cs) [])
        ≡ (if is_charging key then none else from_choice now (chosen key cs now))
  get-metric_readings_named key cs now =
      get-metric_readings key now (group_from [] cs) [] (group_from-IsDistinct [] cs tt)
      ∙ rw (group_from-choices key [] cs)
          (ground (arith, over-none (from_choice now (chosen key cs now))))

  -- A metric that is not about charging has a reading exactly where a candidate of its own is
  -- chosen, and it is the reading of that candidate.
  pub get-resolve_readings :
      (key : String) (cs : List (Candidate F)) (now : Instant)
      → is_charging key ≡ false
      → get key (resolve_readings cs now) ≡ from_choice now (chosen key cs now)
  get-resolve_readings key cs now h = rw resolve_readings-grouped (
      ground (
        arith,
        get-store "charging.power" key (power_of cs now) (
            store "charging.active" (charging_of cs now).1
              (metric_readings now (group_from [] cs) [])),
        get-store "charging.active" key (charging_of cs now).1
            (metric_readings now (group_from [] cs) []),
        get-metric_readings_named key cs now,
        string_eq.same_iff "charging.power" key,
        string_eq.same_iff "charging.active" key,
        string_eq.same_iff key "charging.power",
        string_eq.same_iff key "charging.active",
      ))

  -- The reading of `charging.active` is the one that the evidence gives.
  pub get-charging_active :
      (cs : List (Candidate F)) (now : Instant)
      → get "charging.active" (resolve_readings cs now) ≡ (charging_of cs now).1
  get-charging_active cs now =
      let metrics = metric_readings now (group_from [] cs) [] in
      rw resolve_readings-grouped (
        ground (
          arith,
          get-store "charging.power" "charging.active" (power_of cs now)
              (store "charging.active" (charging_of cs now).1 metrics),
          get-store "charging.active" "charging.active" (charging_of cs now).1 metrics,
          get-metric_readings_named "charging.active" cs now,
        ))

  -- The reading of `charging.power` is the one of its own candidate or of the battery.
  pub get-charging_power :
      (cs : List (Candidate F)) (now : Instant)
      → get "charging.power" (resolve_readings cs now) ≡ power_of cs now
  get-charging_power cs now =
      let metrics = metric_readings now (group_from [] cs) [] in
      rw resolve_readings-grouped (
        ground (
          arith,
          get-store "charging.power" "charging.power" (power_of cs now)
              (store "charging.active" (charging_of cs now).1 metrics),
          get-store "charging.active" "charging.power" (charging_of cs now).1 metrics,
          get-metric_readings_named "charging.power" cs now,
        ))
