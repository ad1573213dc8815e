-- ===== src/Prelude/Maximum.antt =====
-- Python's `max(xs, key=…)`: the first element that no later one exceeds.
use Prim.Native.Nat.{ℕ}
use mathlib.Core.Path.{◌≡◌, refl, sym, subst}
use mathlib.Core.Logic.{inl, inr}
use mathlib.Core.Bool.{Bool, true, false, ◌||◌, ◌&&◌}
use mathlib.Core.List.{List, [], ◌∷◌}
use mathlib.Core.Option.{Option, none, some}
use native.Mathlib.Omega.{arith}
use carhibou.Prelude.Booleans.{if◌then◌else◌, ltb, eqb, Bool-cases}
use carhibou.Prelude.Lists.{In, In-filter, In-filter_of, filter}

-- `lt` compares the keys of two elements.
pub record IsWeakOrder {A : Type 0} (lt : A → A → Bool) : Type 0 where
  pub asym : (a b : A) → lt a b ≡ true → lt b a ≡ false
  pub negtrans : (a b c : A) → lt a b ≡ false → lt b c ≡ false → lt a c ≡ false

module _ {A : Type 0} (lt : A → A → Bool) where
  -- The loop of `max`, with the best element so far.
  unfoldable pub max_from : A → List A → A
  max_from best [] = best
  max_from best (x ∷ xs) = max_from (if lt best x then x else best) xs

  -- `max(xs)` where the empty list gives None.
  unfoldable pub max_of : List A → Option A
  max_of [] = none
  max_of (x ∷ xs) = some (max_from x xs)

  pub max_from-In : (best : A) (xs : List A) → In (max_from best xs) (best ∷ xs)
  unfolding max_from
  max_from-In best [] = inl refl
  max_from-In best (x ∷ xs) = ground (arith, max_from-In (if lt best x then x else best) xs)

  module _ (order : IsWeakOrder lt) where
    irrefl : (a : A) → lt a a ≡ false
    irrefl a = elim (Bool-cases (lt a a)) [ inl h ↦ order.asym a a h | inr h ↦ h ]

    pub max_from-max :
        (best : A) (xs : List A) (y : A) → In y (best ∷ xs) → lt (max_from best xs) y ≡ false
    unfolding max_from
    max_from-max best [] y (inl e) = rw e (irrefl best)
    max_from-max best [] y (inr h) = absurd h
    max_from-max best (x ∷ xs) y h =
        let next = if lt best x then x else best in
        ground (
          arith,
          max_from-max next xs y,
          max_from-max next xs next (inl refl),
          order.negtrans (max_from next xs) next y,
          order.asym best x,
          irrefl best,
          irrefl x,
        )

module _ {A : Type 0} (lt : A → A → Bool) where
  pub max_of-In : (xs : List A) {a : A} → max_of lt xs ≡ some a → In a xs
  unfolding max_of
  max_of-In [] e = cc
  max_of-In (x ∷ xs) {a} e = ground (arith, max_from-In lt x xs)

  pub max_of-none : (xs : List A) (a : A) → max_of lt xs ≡ none → ¬ In a xs
  unfolding max_of
  max_of-none [] a e h = h
  max_of-none (x ∷ xs) a e h = cc

  pub max_of-max :
      (order : IsWeakOrder lt) (xs : List A) {a : A} (y : A)
      → max_of lt xs ≡ some a
      → In y xs
      → lt a y ≡ false
  unfolding max_of
  max_of-max order [] y e h = cc
  max_of-max order (x ∷ xs) y e h = ground (arith, max_from-max lt order x xs y)

-- `xs or ys` for lists.
abbrev pub prefer {ℓ} : {A : Type ℓ} → List A → List A → List A
prefer [] ys = ys
prefer (x ∷ xs) ys = x ∷ xs

pub prefer-filter-In :
    {A : Type 0} (p : A → Bool) (xs : List A) (a : A) → In a (prefer (filter p xs) xs) → In a xs
prefer-filter-In p xs a h = ground (arith, In-filter p a xs)

-- Whether the second of two elements comes before the first, by a test and then by an order.
abbrev pub worse : Bool → Bool → Bool → Bool
worse false true less = true
worse true false less = false
worse false false less = less
worse true true less = less

module _ {A : Type 0} (lt : A → A → Bool) (order : IsWeakOrder lt) (p : A → Bool) where
  prefer_from-max :
      (fs ps : List A) {c : A} (d : A)
      → ps ≡ filter p fs
      → max_of lt (prefer ps fs) ≡ some c
      → In d fs
      → worse (p c) (p d) (lt c d) ≡ false
  prefer_from-max fs [] {c} d s e h = ground (
    arith,
    max_of-max lt order fs {a = c} d e h,
    In-filter_of p d fs h,
    In-filter_of p c fs (max_of-In lt fs e),
  )
  prefer_from-max fs (r ∷ rs) {c} d s e h =
      let mem : In c (filter p fs) = subst (λ l. In c l) s (max_of-In lt (r ∷ rs) e) in
      ground (
        arith,
        In-filter p c fs mem,
        In-filter_of p d fs h,
        max_of-max lt order (r ∷ rs) {a = c} d e,
        subst (λ l. In d l) (sym s),
      )

  pub prefer-max :
      (fs : List A) {c : A} (d : A)
      → max_of lt (prefer (filter p fs) fs) ≡ some c
      → In d fs
      → worse (p c) (p d) (lt c d) ≡ false
  prefer-max fs d e h = prefer_from-max fs (filter p fs) d refl e h

-- Lexicographic order on triples of numbers.
abbrev pub triple_lt : ℕ × ℕ × ℕ → ℕ × ℕ × ℕ → Bool
triple_lt (a, b, c) (x, y, z) = ltb a x || (eqb a x && (ltb b y || (eqb b y && ltb c z)))

module _ {A : Type 0} (key : A → ℕ × ℕ × ℕ) where
  abbrev pub by_triple : A → A → Bool
  by_triple a b = triple_lt (key a) (key b)

  pub by_triple-IsWeakOrder : IsWeakOrder by_triple
  by_triple-IsWeakOrder = record {
    asym = λ a b h. ground arith;
    negtrans = λ a b c h k. ground arith;
  }
