-- ===== src/History/Table/Buckets.antt =====
-- backend/app/history/reconstruction.py: the buckets of a range, and the indices at which the
-- rows of `table_rows` begin.
use carhibou.Prelude.{
  ℕ, zero, suc, ◌+◌, ◌-◌, ◌*◌, ◌/◌, ◌≤◌, ◌<◌, ◌≡◌, refl, subst, true, false, ◌&&◌, Option, none,
  some, List, [], ◌∷◌, ltb, eqb, Bool-cases, inl, inr, if◌then◌else◌, arith,
}
use native.Mathlib.Nat.{div-add-mod, mod-lt}
use carhibou.Prelude.Time.{Instant}
use carhibou.History.Events.{TimedEvent}
use carhibou.History.Table.{
  Range, bucket_count, bucket_of, edge, add_index, add_expiry, event_expiry, relevant, ordered,
}

-- A range and a step that are not empty.
pub record IsRange (r : Range) : Type 0 where
  pub ahead : r.start < r.end
  pub moves : 0 < r.step

ceil_bounds : (d s : ℕ) → 0 < s → (d ≤ s * ((d + (s - 1)) / s)) × (s * ((d + (s - 1)) / s) < d + s)
ceil_bounds d s h = omega (arith, div-add-mod (d + (s - 1)) s, mod-lt (d + (s - 1)) {m = s} h)

mul_mono : (s i q : ℕ) → suc i ≤ q → s * i + s ≤ s * q
mul_mono s i q h = grind arith

positive : (d s q : ℕ) → 0 < d → d ≤ s * q → 1 ≤ q
positive d s zero h k = absurd (omega arith)
positive d s (suc q) h k = omega arith

-- The number of buckets, where the range is not empty, is the quotient rounded up.
buckets : Range → ℕ
buckets r = (r.end - r.start + (r.step - 1)) / r.step

bucket_count-buckets : (r : Range) → IsRange r → bucket_count r ≡ buckets r
unfolding buckets
bucket_count-buckets r v =
    let bounds = ceil_bounds (r.end - r.start) r.step v.moves in
    let one = positive (r.end - r.start) r.step (buckets r) (omega arith) bounds.0 in
    omega (arith, one)

bucket_count-pos : (r : Range) → 0 < bucket_count r
bucket_count-pos r = omega arith

pub edge_last : (r : Range) → IsRange r → edge r (bucket_count r) ≡ r.end
unfolding buckets
edge_last r v =
    rw (bucket_count-buckets r v) (omega (arith, (ceil_bounds (r.end - r.start) r.step v.moves).0))

-- A bucket begins before the end of the range.
begins_before : (r : Range) (i : ℕ) → IsRange r → i < bucket_count r → r.start + r.step * i < r.end
unfolding buckets
begins_before r i v h =
    let q = buckets r in
    let below : suc i ≤ q = subst (λ n. i < n) (bucket_count-buckets r v) h in
    omega (arith, (ceil_bounds (r.end - r.start) r.step v.moves).1, mul_mono r.step i q below)

pub edge_inside :
    (r : Range) (i : ℕ) → IsRange r → i < bucket_count r → edge r i ≡ r.start + r.step * i
edge_inside r i v h = omega (arith, begins_before r i v h)

pub edge_grows :
    (r : Range) (i j : ℕ) → IsRange r → i < bucket_count r → i < j → edge r i < edge r j
edge_grows r i j v h lt = omega (arith, begins_before r i v h, mul_mono r.step i j lt, v.moves)

-- Indices that ascend from a bound on, and stay below another.
abbrev pub Ascends : ℕ → List ℕ → ℕ → Type 0
Ascends i [] n = Unit
Ascends i (j ∷ js) n = (i ≤ j) × (j < n) × Ascends (suc j) js n

below : (i j : ℕ) → ltb i j ≡ true → suc i ≤ j
below i j lt = ground arith

above : (i j : ℕ) → ltb i j ≡ false → eqb i j ≡ false → suc j ≤ i
above i j ge ne = ground arith

add_index-Ascends :
    (k i : ℕ) (js : List ℕ) (n : ℕ) → k ≤ i → i < n → Ascends k js n → Ascends k (add_index i js) n
unfolding add_index
add_index-Ascends k i [] n low high a = (low, high, tt)
add_index-Ascends k i (j ∷ js) n low high a = elim (Bool-cases (ltb i j)) [
  | inl lt ↦ rw (lt, if◌then◌else◌) (low, high, (below i j lt, a.1, a.2))
  | inr ge ↦
      rw (ge, if◌then◌else◌)
        (elim (Bool-cases (eqb i j)) [
          | inl eq ↦ rw (eq, if◌then◌else◌) a
          | inr ne ↦
              rw (ne, if◌then◌else◌)
                (a.0, a.1, add_index-Ascends (suc j) i js n (above i j ge ne) high a.2)
        ])
]

-- The last of the indices is that of the last bucket.
abbrev pub Ends : ℕ → List ℕ → ℕ → Type 0
Ends i [] n = suc i ≡ n
Ends i (j ∷ js) n = Ends j js n

add_index-Ends :
    (k i : ℕ) (js : List ℕ) (n : ℕ) → k < i → i < n → Ends k js n → Ends k (add_index i js) n
unfolding add_index
add_index-Ends k i [] n after high e = absurd (omega (arith, e))
add_index-Ends k i (j ∷ js) n after high e = elim (Bool-cases (ltb i j)) [
  | inl lt ↦ rw (lt, if◌then◌else◌) e
  | inr ge ↦
      rw (ge, if◌then◌else◌)
        (elim (Bool-cases (eqb i j)) [
          | inl eq ↦ rw (eq, if◌then◌else◌) e
          | inr ne ↦ rw (ne, if◌then◌else◌) (add_index-Ends j i js n (above i j ge ne) high e)
        ])
]

-- The indices of a table start with 0, ascend, and end with the last bucket.
abbrev pub Starts : List ℕ → ℕ → Type 0
Starts [] n = ⊥
Starts (j ∷ js) n = (j ≡ 0) × Ascends 1 js n × Ends 0 js n

not_below : (i j : ℕ) → j ≡ 0 → ltb i j ≡ false
not_below i j e = ground arith

positive_index : (i j : ℕ) → j ≡ 0 → eqb i j ≡ false → 1 ≤ i
positive_index i j e ne = ground arith

add_index-Starts : (i : ℕ) (js : List ℕ) (n : ℕ) → i < n → Starts js n → Starts (add_index i js) n
unfolding add_index
add_index-Starts i [] n high s = absurd s
add_index-Starts i (j ∷ js) n high s = elim (Bool-cases (eqb i j)) [
  | inl eq ↦ rw (not_below i j s.0, if◌then◌else◌, eq, if◌then◌else◌) s
  | inr ne ↦
      rw (not_below i j s.0, if◌then◌else◌, ne, if◌then◌else◌)
        (
          s.0,
          add_index-Ascends 1 i js n (positive_index i j s.0 ne) high s.1,
          add_index-Ends 0 i js n (positive_index i j s.0 ne) high s.2,
        )
]

bucket_of-lt : (r : Range) (t : Instant) → bucket_of r t < bucket_count r
bucket_of-lt r t = omega arith

add_expiry-Starts :
    (r : Range) (o : Option Instant) (js : List ℕ)
    → Starts js (bucket_count r)
    → Starts (add_expiry r o js) (bucket_count r)
add_expiry-Starts r none js s = s
add_expiry-Starts r (some t) js s = elim (Bool-cases (ltb r.start t && ltb t r.end)) [
  | inl inside ↦
      rw (inside, if◌then◌else◌)
        (add_index-Starts (bucket_of r t) js (bucket_count r) (bucket_of-lt r t) s)
  | inr outside ↦ rw (outside, if◌then◌else◌) s
]

relevant-Starts :
    {F : Type 0} (r : Range) (events : List (TimedEvent F)) (js : List ℕ)
    → Starts js (bucket_count r)
    → Starts (relevant r events js) (bucket_count r)
unfolding relevant
relevant-Starts r [] js s = s
relevant-Starts r (e ∷ events) js s = relevant-Starts r events _ (
    add_expiry-Starts r (event_expiry e) _ (
      add_index-Starts (bucket_of r e.observed_at) js (bucket_count r)
        (bucket_of-lt r e.observed_at) s))

only : (n : ℕ) → 0 < n → eqb (n - 1) 0 ≡ true → 1 ≡ n
only n h e = ground arith

first_indices : (n : ℕ) → 0 < n → Starts (add_index (n - 1) (0 ∷ [])) n
unfolding add_index
first_indices n h =
    rw (not_below (n - 1) 0 refl, if◌then◌else◌)
      (elim (Bool-cases (eqb (n - 1) 0)) [
        | inl eq ↦ rw (eq, if◌then◌else◌) (refl, tt, only n h eq)
        | inr ne ↦
            rw (ne, if◌then◌else◌)
              (refl, (positive_index (n - 1) 0 refl ne, omega (arith, h), tt), omega (arith, h))
      ])

pub ordered-Starts :
    {F : Type 0} (r : Range) (events : List (TimedEvent F))
    → Starts (ordered r events) (bucket_count r)
unfolding ordered
ordered-Starts r events =
    relevant-Starts r events _ (first_indices (bucket_count r) (bucket_count-pos r))
