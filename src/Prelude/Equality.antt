-- ===== src/Prelude/Equality.antt =====
-- A Boolean equality test as an interface, and dictionaries over it in insertion order.
use Prim.Native.Nat.{ℕ}
use Prim.Native.String.{String}
use mathlib.Core.Path.{◌≡◌, refl}
use mathlib.Core.Logic.{◌↔◌}
use mathlib.Core.Bool.{Bool, true, false, ◌||◌}
use mathlib.Core.List.{List, [], ◌∷◌, ◌++◌}
use mathlib.Core.Option.{Option, none, some}
use native.Mathlib.Omega.{arith}
use text.Mathlib.Text.{◌==◌ as str_eq}
use text.Mathlib.TextEquality.{eq_iff}
use carhibou.Prelude.Booleans.{if◌then◌else◌, eqb}

-- A test that decides equality.
pub record Eq {ℓ} (K : Type ℓ) : Type ℓ where
  pub same : K → K → Bool
  pub same_iff : (j k : K) → (same j k ≡ true) ↔ (j ≡ k)

infix 50 ◌==◌
pub eqb_iff : (a b : ℕ) → (eqb a b ≡ true) ↔ (a ≡ b)
eqb_iff a b = ground arith

abbrev pub ◌==◌ {ℓ} : {K : Type ℓ} ⦃e : Eq K⦄ (j k : K) → Bool
◌==◌ ⦃e⦄ j k = e.same j k

instance abbrev pub string_eq : Eq String
string_eq = record { same = str_eq; same_iff = eq_iff }

instance abbrev pub nat_eq : Eq ℕ
nat_eq = record { same = eqb; same_iff = eqb_iff }

module _ {ℓ} {A : Type ℓ} ⦃e : Eq A⦄ where
  -- `a in xs`
  abbrev pub contains : A → List A → Bool
  contains a [] = false
  contains a (x ∷ xs) = x == a || contains a xs

  pub ==_refl : (a : A) → (a == a) ≡ true
  ==_refl a = (e.same_iff a a).1 refl

module _ {ℓ} {A : Type ℓ} ⦃e : Eq A⦄ where
  pub contains-append :
      (a : A) (xs ys : List A) → contains a (xs ++ ys) ≡ (contains a xs || contains a ys)
  contains-append a [] ys = refl
  contains-append a (x ∷ xs) ys = ground (arith, contains-append a xs ys)

abbrev pub Dict {ℓ} : Type ℓ → Type ℓ → Type ℓ
Dict K V = List (K × V)

module _ {ℓ} {K V : Type ℓ} ⦃e : Eq K⦄ where
  -- `d.get(k)`
  abbrev pub get : K → Dict K V → Option V
  get k [] = none
  get k ((j, v) ∷ d) = if j == k then some v else get k d

  -- `d[k] = v`: an old key keeps its place.
  abbrev pub insert : K → V → Dict K V → Dict K V
  insert k v [] = (k, v) ∷ []
  insert k v ((j, w) ∷ d) = if j == k then (j, v) ∷ d else (j, w) ∷ insert k v d

  -- `d.pop(k, None)`
  abbrev pub remove : K → Dict K V → Dict K V
  remove k [] = []
  remove k ((j, v) ∷ d) = let rest = remove k d in if j == k then rest else (j, v) ∷ rest

  pub get-remove :
      (k j : K) (d : Dict K V) → get j (remove k d) ≡ (if k == j then none else get j d)
  get-remove k j [] = ground arith
  get-remove k j ((i, w) ∷ d) =
      ground (arith, get-remove k j d, e.same_iff i k, e.same_iff i j, e.same_iff k j)

  pub get-insert :
      (k j : K) (v : V) (d : Dict K V) → get j (insert k v d) ≡ (if k == j then some v else get j d)
  get-insert k j v [] = refl
  get-insert k j v ((i, w) ∷ d) =
      ground (arith, get-insert k j v d, e.same_iff i k, e.same_iff i j, e.same_iff k j)

  pub get-insert_self : (k : K) (v : V) (d : Dict K V) → get k (insert k v d) ≡ some v
  get-insert_self k v d = simp (get-insert, ==_refl)
