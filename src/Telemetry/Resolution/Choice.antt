-- ===== src/Telemetry/Resolution/Choice.antt =====
-- backend/app/telemetry/resolution.py: what `_choose` picks.
use carhibou.Prelude.{
  none, ◌≢◌, ℕ, ◌≡◌, refl, sym, subst, ◌⊎◌, inl, inr, Bool, true, false, ◌&&◌, not, some, String,
  List, [], ◌∷◌, arith, In, In-filter, In-filter_of, Bool-cases, ◌||◌, ltb, eqb,
}
use carhibou.Prelude.Equality.{◌==◌, string_eq}
use carhibou.Prelude.Maximum.{
  max_of, max_of-In, max_of-max, worse, prefer-max, prefer-filter-In, by_triple,
  by_triple-IsWeakOrder,
}
use carhibou.Prelude.Time.{Instant}
use carhibou.Telemetry.Values.{is_null}
use carhibou.Telemetry.Registry.{definition_for}
use carhibou.Telemetry.Resolution.{
  Candidate, candidate_is_fresh, priority, usable, fresh_of, preferred, retains, choose,
  choose_from, choose_stale, is_road,
}

none_ne_some : {A : Type 0} {a : A} → none ≡ some a → ⊥
none_ne_some e = cc

-- 2 for a fresh candidate, and 1 more where it is preferred.
abbrev pub standing : Bool → Bool → ℕ
standing false _ = 0
standing true false = 2
standing true true = 3

abbrev pub beats : ℕ → ℕ → Bool → Bool
beats m n less = ltb m n || (eqb m n && less)

beats-standing :
    (x y fresh less : Bool)
    → worse x y less ≡ false
    → beats (standing true x) (standing fresh y) less ≡ false
beats-standing false false false less h = refl
beats-standing false true false less h = refl
beats-standing true false false less h = refl
beats-standing true true false less h = refl
beats-standing false false true less h = h
beats-standing false true true less h = cc
beats-standing true false true less h = refl
beats-standing true true true less h = h

beats-stale : (x y less : Bool) → beats (standing true x) (standing false y) less ≡ false
beats-stale false y less = refl
beats-stale true y less = refl

module _ {F : Type 0} where
  preferred-In :
      (key : String) (cs : List (Candidate F)) (c : Candidate F) → In c (preferred key cs) → In c cs
  preferred-In key cs c h =
      ground (arith, prefer-filter-In (λ (c : Candidate F). is_road c.channel) cs c)

  usable-In :
      (cs : List (Candidate F)) (c : Candidate F)
      → In c (usable cs)
      → In c cs × (is_null c.value ≡ false)
  usable-In cs c h = ground (arith, In-filter (λ (c : Candidate F). not (is_null c.value)) c cs)

  fresh_of-In :
      (cs : List (Candidate F)) (now : Instant) (c : Candidate F)
      → In c (fresh_of cs now)
      → In c cs × (is_null c.value ≡ false) × (candidate_is_fresh c now ≡ true)
  fresh_of-In cs now c h = ground (
    arith,
    In-filter (λ (c : Candidate F). candidate_is_fresh c now) c (usable cs),
    usable-In cs c,
  )

  choose_stale_sound :
      (key : String) (cs : List (Candidate F)) {c : Candidate F}
      → choose_stale key cs ≡ some c
      → In c (usable cs) × (retains (definition_for key) ≡ true)
  unfolding choose_stale
  choose_stale_sound key cs {c} e =
      ground (arith, max_of-In (by_triple priority) (usable cs) {a = c})

  choose_from_sound :
      (key : String) (cs fs : List (Candidate F)) {c : Candidate F}
      → choose_from key cs fs ≡ some c
      → In c fs ⊎ (In c (usable cs) × (retains (definition_for key) ≡ true))
  unfolding choose_from
  choose_from_sound key cs [] e = inr (choose_stale_sound key cs e)
  choose_from_sound key cs (f ∷ fs) {c} e =
      inl (preferred-In key (f ∷ fs) c (max_of-In (by_triple priority) (preferred key (f ∷ fs)) e))

  -- A chosen candidate is one of the candidates, has a value, and is fresh unless the metric
  -- keeps its last value.
  pub choose_sound :
      (key : String) (cs : List (Candidate F)) (now : Instant) {c : Candidate F}
      → choose key cs now ≡ some c
      → In c cs
        × (is_null c.value ≡ false)
        × ((candidate_is_fresh c now ≡ true) ⊎ (retains (definition_for key) ≡ true))
  unfolding choose
  choose_sound key cs now {c} e = ground (
    arith,
    choose_from_sound key cs (fresh_of cs now) {c = c},
    fresh_of-In cs now c,
    usable-In cs c,
  )

  -- The speed, reported over one of the vehicle's buses.
  abbrev pub is_road_speed : String → Candidate F → Bool
  is_road_speed key c = key == "vehicle.speed" && is_road c.channel

  -- `d` comes before `c`: by freshness, then by the bus for a fresh speed, then by `_priority`.
  abbrev pub outranks : String → Instant → Candidate F → Candidate F → Bool
  outranks key now d c =
      beats (standing (candidate_is_fresh c now) (is_road_speed key c))
        (standing (candidate_is_fresh d now) (is_road_speed key d)) (by_triple priority c d)

  preferred-max :
      (key : String) (fs : List (Candidate F)) {c : Candidate F} (d : Candidate F)
      → max_of (by_triple priority) (preferred key fs) ≡ some c
      → In d fs
      → worse (is_road_speed key c) (is_road_speed key d) (by_triple priority c d) ≡ false
  preferred-max key fs {c} d e h = elim (Bool-cases (key == "vehicle.speed")) [
    | inl speed ↦ rw speed (
        prefer-max (by_triple priority) (by_triple-IsWeakOrder priority) (λ c. is_road c.channel) fs
          d (rw speed at e) h)
    | inr other ↦
        rw other
          (max_of-max (by_triple priority) (by_triple-IsWeakOrder priority) fs d (rw other at e) h)
  ]

  stale_of :
      (cs : List (Candidate F)) (now : Instant) (c : Candidate F)
      → ◌≡◌ {A = List (Candidate F)} [] (fresh_of cs now)
      → In c (usable cs)
      → candidate_is_fresh c now ≡ false
  stale_of cs now c s h = elim (Bool-cases (candidate_is_fresh c now)) [
    | inl fresh ↦ absurd (
        subst (λ l. In c l) (sym s)
          (In-filter_of (λ (c : Candidate F). candidate_is_fresh c now) c (usable cs) h fresh))
    | inr stale ↦ stale
  ]

  choose_stale-max :
      (key : String) (cs : List (Candidate F)) {c : Candidate F} (d : Candidate F)
      → choose_stale key cs ≡ some c
      → In d (usable cs)
      → by_triple priority c d ≡ false
  unfolding choose_stale
  choose_stale-max key cs d e h = elim (Bool-cases (retains (definition_for key))) [
    | inl keeps ↦
        max_of-max (by_triple priority) (by_triple-IsWeakOrder priority) (usable cs) d
          (rw keeps at e) h
    | inr drops ↦ absurd (none_ne_some (rw drops at e))
  ]

  choose_from-max :
      (key : String) (cs fs : List (Candidate F)) (now : Instant) {c : Candidate F}
      (d : Candidate F)
      → fs ≡ fresh_of cs now
      → choose_from key cs fs ≡ some c
      → In d (usable cs)
      → outranks key now d c ≡ false
  unfolding choose_from
  choose_from-max key cs [] now {c} d s e h =
      let chosen : In c (usable cs) = (choose_stale_sound key cs e).0 in
      rw (stale_of cs now c s chosen, stale_of cs now d s h) (choose_stale-max key cs d e h)
  choose_from-max key cs (f ∷ fs) now {c} d s e h =
      let mem : In c (f ∷ fs) =
        preferred-In key (f ∷ fs) c (max_of-In (by_triple priority) (preferred key (f ∷ fs)) e) in
      rw ((fresh_of-In cs now c (subst (λ l. In c l) s mem)).2)
        (elim (Bool-cases (candidate_is_fresh d now)) [
          | inl fresh ↦ beats-standing (is_road_speed key c) (is_road_speed key d) _ _ (
              preferred-max key (f ∷ fs) d e (
                subst (λ l. In d l) (sym s)
                  (In-filter_of (λ (c : Candidate F). candidate_is_fresh c now) d (usable cs) h
                    fresh)))
          | inr stale ↦ rw stale (beats-stale (is_road_speed key c) (is_road_speed key d) _)
        ])

  -- No candidate that has a value comes before the chosen one: fresh candidates come before stale
  -- ones, for the speed the buses before the other channels, and then `_priority` decides.
  pub choose-max :
      (key : String) (cs : List (Candidate F)) (now : Instant) {c : Candidate F} (d : Candidate F)
      → choose key cs now ≡ some c
      → In d cs
      → is_null d.value ≡ false
      → outranks key now d c ≡ false
  unfolding choose
  choose-max key cs now d e h v =
      choose_from-max key cs (fresh_of cs now) now d refl e
        (In-filter_of (λ (c : Candidate F). not (is_null c.value)) d cs h (rw v))

  -- A metric gets a reading from any candidate that has a value and is fresh, and from a stale one
  -- where the metric keeps its last value.
  pub choose_total :
      (key : String) (cs : List (Candidate F)) (now : Instant) (d : Candidate F)
      → In d cs
      → is_null d.value ≡ false
      → (candidate_is_fresh d now ≡ true) ⊎ (retains (definition_for key) ≡ true)
      → choose key cs now ≢ none
  unfolding choose choose_from choose_stale max_of
  choose_total key cs now d h v ok = ground (
    arith,
    In-filter_of (λ (c : Candidate F). not (is_null c.value)) d cs h,
    In-filter_of (λ (c : Candidate F). candidate_is_fresh c now) d (usable cs),
  )
