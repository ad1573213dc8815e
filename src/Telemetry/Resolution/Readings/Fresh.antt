-- ===== src/Telemetry/Resolution/Readings/Fresh.antt =====
-- backend/app/telemetry/resolution.py: the freshness of the readings, and the candidates that they
-- stand on.
use carhibou.Prelude.{
  ◌≡◌, refl, sym, ◌∙◌, ap, ◌⊎◌, In, In-filter, [], ◌∷◌, if◌then◌else◌, inl, inr, Bool, true, false,
  ◌||◌, Option, none, some, String, List, arith, Bool-cases, Option-cases, or_else,
}
use carhibou.Prelude.Equality.{◌==◌, get, string_eq}
use carhibou.Prelude.Float.{Float}
use carhibou.Prelude.Time.{Instant}
use carhibou.Telemetry.Registry.{definition_for}
use carhibou.Telemetry.Resolution.{Candidate, Reading, candidate_is_fresh, retains}
use carhibou.Telemetry.Resolution.Choice.{choose_sound}
use carhibou.Telemetry.Resolution.Readings.{
  is_charging, number_of, reaches_floor, absorbs, inferred_from, origin_fresh, charging_from,
  derived_power, power_reading, resolve_readings,
}
use carhibou.Telemetry.Resolution.Readings.Lookup.{
  named, chosen, from_choice, charging_of, get-resolve_readings, get-charging_active,
  get-charging_power,
}
use carhibou.Telemetry.Resolution.Readings.Charging.{
  retains-charging_power, retains-battery_power, chosen-fresh,
}

-- What a reading for a metric may stand on: a candidate for the metric itself, and for the two
-- about charging also one for a power.
abbrev pub evidence_keys : String → List String
evidence_keys key =
    if is_charging key
    then "charging.active" ∷ "charging.power" ∷ "battery.power" ∷ []
    else key ∷ []

other_key :
    (key : String)
    → is_charging key ≡ true
    → (key == "charging.active") ≡ false
    → key ≡ "charging.power"
other_key key h other = (string_eq.same_iff key "charging.power").0 (ground (arith, h, other))

module _ {F : Type 0} ⦃ops : Float F⦄ where
  -- A fresh reading that stands on a fresh candidate: it has its time and its source.
  abbrev pub Shows : Instant → Candidate F → Reading F → Type 0
  Shows now c r =
      (candidate_is_fresh c now ≡ true)
      × (r.fresh ≡ true)
      × (r.observed_at ≡ c.observed_at)
      × (r.source_id ≡ c.source_id)
      × (r.source_kind ≡ c.source_kind)

  -- The candidate is one of those that charging is resolved from.
  abbrev Backed :
      Option (Candidate F)
      → Option (Candidate F)
      → Option (Candidate F)
      → Instant
      → Reading F
      → Type 0
  Backed explicit evidence battery now r =
      (c : Candidate F) × ((explicit ≡ some c) ⊎ (evidence ≡ some c) ⊎ (battery ≡ some c))
      × Shows now c r

  inferred_from-Shows :
      (origin : Option (Candidate F)) (active : Bool) (now : Instant) {r : Reading F}
      → (inferred_from (origin_fresh origin now) active).1 ≡ some r
      → (c : Candidate F) × (origin ≡ some c) × Shows now c r
  inferred_from-Shows none active now e = cc
  inferred_from-Shows (some c) active now e = elim (Bool-cases (candidate_is_fresh c now)) [
    | inl f ↦ (c, refl, ground (arith, f))
    | inr stale ↦ absurd (ground (arith, stale))
  ]

  or_else-Backed :
      (explicit evidence battery : Option (Candidate F)) (now : Instant) (r : Reading F)
      → ((c : Candidate F) × (or_else evidence battery ≡ some c) × Shows now c r)
      → Backed explicit evidence battery now r
  or_else-Backed explicit none battery now r (c, e, h) = (c, inr (inr e), h)
  or_else-Backed explicit (some x) battery now r (c, e, h) = (c, inr (inl e), h)

  charging_from-Backed :
      (explicit evidence battery : Option (Candidate F)) (now : Instant) {r : Reading F}
      → (charging_from explicit evidence battery now).1 ≡ some r
      → Backed explicit evidence battery now r
  unfolding charging_from
  charging_from-Backed none evidence battery now {r} e =
      or_else-Backed none evidence battery now r
        (inferred_from-Shows (or_else evidence battery) _ now e)
  charging_from-Backed (some x) evidence battery now {r} e =
      elim (Bool-cases (candidate_is_fresh x now)) [
        | inl f ↦ (x, inl refl, ground (arith, f))
        | inr stale ↦ or_else-Backed (some x) evidence battery now r (
            inferred_from-Shows (or_else evidence battery)
              (reaches_floor (number_of evidence) || absorbs (number_of battery)) now {r = r}
              (ground (arith, stale)))
      ]

  derived_power-Shows :
      (battery : Option (Candidate F)) (now : Instant) {r : Reading F}
      → ((c : Candidate F) → battery ≡ some c → candidate_is_fresh c now ≡ true)
      → derived_power battery ≡ some r
      → (c : Candidate F) × (battery ≡ some c) × Shows now c r
  unfolding derived_power
  derived_power-Shows none now fresh e = cc
  derived_power-Shows (some b) now fresh e = (b, refl, ground (arith, fresh b refl))

  power_reading-Backed :
      (evidence battery : Option (Candidate F)) (active : Option Bool) (now : Instant)
      {r : Reading F}
      → ((c : Candidate F) → evidence ≡ some c → candidate_is_fresh c now ≡ true)
      → ((c : Candidate F) → battery ≡ some c → candidate_is_fresh c now ≡ true)
      → power_reading evidence battery active now ≡ some r
      → (c : Candidate F) × ((evidence ≡ some c) ⊎ (battery ≡ some c)) × Shows now c r
  unfolding power_reading
  power_reading-Backed (some c) battery active now fresh charged e =
      (c, inl refl, ground (arith, fresh c refl))
  power_reading-Backed none battery none now fresh charged e = cc
  power_reading-Backed none battery (some true) now fresh charged e =
      let (c, found, h) = derived_power-Shows battery now charged e in (c, inr found, h)
  power_reading-Backed none battery (some false) now fresh charged e = cc

  -- A candidate of the vehicle, for one of some metrics.
  abbrev Stands : List String → List (Candidate F) → Instant → Reading F → Type 0
  Stands keys cs now r = (c : Candidate F) × In c cs × In c.key keys × Shows now c r

  chosen-In :
      (key : String) (cs : List (Candidate F)) (now : Instant) {c : Candidate F}
      → chosen key cs now ≡ some c
      → In c cs × (c.key ≡ key)
  chosen-In key cs now {c} e =
      let (m, k) =
        In-filter (λ (c : Candidate F). c.key == key) c cs
          (choose_sound key (named key cs) now {c = c} e).0 in
      (m, (string_eq.same_iff c.key key).0 k)

  charging_active-Stands :
      (cs : List (Candidate F)) (now : Instant) {r : Reading F}
      → get "charging.active" (resolve_readings cs now) ≡ some r
      → Stands ("charging.active" ∷ "charging.power" ∷ "battery.power" ∷ []) cs now r
  charging_active-Stands cs now {r} e =
      let (c, from, h) =
        charging_from-Backed (chosen "charging.active" cs now) (chosen "charging.power" cs now)
          (chosen "battery.power" cs now) now (sym (get-charging_active cs now) ∙ e) in
      elim from [
        | inl a ↦ let (m, k) = chosen-In "charging.active" cs now a in (c, m, inl k, h)
        | inr b ↦ elim b [
          | inl p ↦ let (m, k) = chosen-In "charging.power" cs now p in (c, m, inr (inl k), h)
          | inr p ↦ let (m, k) = chosen-In "battery.power" cs now p in (c, m, inr (inr (inl k)), h)
        ]
      ]

  charging_power-Stands :
      (cs : List (Candidate F)) (now : Instant) {r : Reading F}
      → get "charging.power" (resolve_readings cs now) ≡ some r
      → Stands ("charging.active" ∷ "charging.power" ∷ "battery.power" ∷ []) cs now r
  charging_power-Stands cs now {r} e =
      let (c, from, h) =
        power_reading-Backed (chosen "charging.power" cs now) (chosen "battery.power" cs now)
          (charging_of cs now).0 now
          (λ c found. chosen-fresh "charging.power" cs now found retains-charging_power)
          (λ c found. chosen-fresh "battery.power" cs now found retains-battery_power)
          (sym (get-charging_power cs now) ∙ e) in
      elim from [
        | inl p ↦ let (m, k) = chosen-In "charging.power" cs now p in (c, m, inr (inl k), h)
        | inr p ↦ let (m, k) = chosen-In "battery.power" cs now p in (c, m, inr (inr (inl k)), h)
      ]

  choice-Stands :
      (key : String) (cs : List (Candidate F)) (now : Instant) {r : Reading F}
      → from_choice now (chosen key cs now) ≡ some r
      → retains (definition_for key) ≡ false
      → Stands (key ∷ []) cs now r
  choice-Stands key cs now {r} e drops = elim (Option-cases (chosen key cs now)) [
    | inl nothing ↦ ground arith
    | inr (c, found) ↦
        let (m, k) = chosen-In key cs now found in
        (c, m, inl k, ground (arith, found, chosen-fresh key cs now {c = c} found drops))
  ]

  -- A reading of a metric that does not keep its last value is fresh, and stands on a candidate of
  -- the vehicle that is fresh at that time, whose time and source it has. The candidate is one for
  -- that metric, or, where the metric is one of the two about charging, for one of them or for the
  -- power of the battery.
  pub resolve_readings-fresh :
      (key : String) (cs : List (Candidate F)) (now : Instant) {r : Reading F}
      → get key (resolve_readings cs now) ≡ some r
      → retains (definition_for key) ≡ false
      → (c : Candidate F) × In c cs × In c.key (evidence_keys key) × Shows now c r
  resolve_readings-fresh key cs now {r} e drops = elim (Bool-cases (is_charging key)) [
    | inr other ↦
        rw (other, if◌then◌else◌)
          (choice-Stands key cs now (sym (get-resolve_readings key cs now other) ∙ e) drops)
    | inl charging ↦
        rw (charging, if◌then◌else◌)
          (elim (Bool-cases (key == "charging.active")) [
            | inl active ↦ charging_active-Stands cs now (
                ap (λ k. get k (resolve_readings cs now)) (sym ((string_eq.same_iff _ _).0 active))
                ∙ e)
            | inr power ↦
                charging_power-Stands cs now (
                  ap (λ k. get k (resolve_readings cs now)) (sym (other_key key charging power))
                  ∙ e)
          ])
  ]
