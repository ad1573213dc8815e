-- ===== src/Prelude/Keys.antt =====
-- Tables whose rows have distinct keys.
use Prim.Native.String.{String}
use mathlib.Core.Path.{◌≡◌, refl, ap, sym, ◌∙◌, subst}
use mathlib.Core.Logic.{inl, inr}
use mathlib.Core.Bool.{Bool, true, false, ◌||◌}
use mathlib.Core.Option.{none, some}
use mathlib.Core.List.{List, [], ◌∷◌, map}
use native.Mathlib.Omega.{arith}
use carhibou.Prelude.Booleans.{Bool-cases, if◌then◌else◌}
use carhibou.Prelude.Lists.{In, All, filter}
use carhibou.Prelude.Equality.{◌==◌, Eq, Dict, get, insert, remove, string_eq, contains, ==_refl}

abbrev pub Distinct : List String → Type 0
Distinct [] = Unit
Distinct (k ∷ ks) = (contains k ks ≡ false) × Distinct ks

module _ {A : Type 0} (key : A → String) where
  pub contains-map : (xs : List A) (a : A) → In a xs → contains (key a) (map key xs) ≡ true
  contains-map [] a m = absurd m
  contains-map (x ∷ xs) a (inl e) =
      let same : (key x == key a) ≡ true = rw e (==_refl (key x)) in rw same
  contains-map (x ∷ xs) a (inr m) = ground (arith, contains-map xs a m)

  -- The row of a key is the only one.
  pub only_row :
      (xs : List A) (a b : A) → Distinct (map key xs) → In a xs → In b xs → key b ≡ key a → a ≡ b
  only_row [] a b d m n e = absurd m
  only_row (x ∷ xs) a b d (inl p) (inl q) e = p ∙ sym q
  only_row (x ∷ xs) a b d (inl p) (inr n) e = cc (d.0, contains-map xs b n)
  only_row (x ∷ xs) a b d (inr m) (inl q) e = cc (d.0, contains-map xs a m)
  only_row (x ∷ xs) a b d (inr m) (inr n) e = only_row xs a b d.1 m n e

  contains-filter :
      (p : A → Bool) (xs : List A) (k : String)
      → contains k (map key xs) ≡ false
      → contains k (map key (filter p xs)) ≡ false
  contains-filter p [] k h = refl
  contains-filter p (x ∷ xs) k h = ground (arith, contains-filter p xs k)

  pub filter-Distinct :
      (p : A → Bool) (xs : List A) → Distinct (map key xs) → Distinct (map key (filter p xs))
  filter-Distinct p [] d = tt
  filter-Distinct p (x ∷ xs) d = elim (Bool-cases (p x)) [
    | inl kept ↦
        rw (kept, if◌then◌else◌) (contains-filter p xs (key x) d.0, filter-Distinct p xs d.1)
    | inr dropped ↦ rw (dropped, if◌then◌else◌) (filter-Distinct p xs d.1)
  ]

module _ {κ} {K V : Type 0} ⦃e : Eq K⦄ (P : K × V → Type κ) where
  pub insert-All : (k : K) (v : V) (d : Dict K V) → P (k, v) → All P d → All P (insert k v d)
  insert-All k v [] h a = (h, tt)
  insert-All k v ((j, w) ∷ d) h a = elim (Bool-cases (j == k)) [
    | inl same ↦
        rw (same, if◌then◌else◌) (subst (λ i. P (i, v)) (sym ((e.same_iff j k).0 same)) h, a.1)
    | inr different ↦ rw (different, if◌then◌else◌) (a.0, insert-All k v d h a.1)
  ]

  pub remove-All : (k : K) (d : Dict K V) → All P d → All P (remove k d)
  remove-All k [] a = tt
  remove-All k ((j, w) ∷ d) a = elim (Bool-cases (j == k)) [
    | inl same ↦ rw (same, if◌then◌else◌) (remove-All k d a.1)
    | inr different ↦ rw (different, if◌then◌else◌) (a.0, remove-All k d a.1)
  ]

abbrev pub keys : {V : Type 0} → Dict String V → List String
keys [] = []
keys ((k, v) ∷ d) = k ∷ keys d

-- A dictionary has one row for a key.
abbrev pub IsDict : {V : Type 0} → Dict String V → Type 0
IsDict d = Distinct (keys d)

module _ {V : Type 0} where
  contains-insert :
      (k j : String) (v : V) (d : Dict String V)
      → contains j (keys (insert k v d)) ≡ (k == j || contains j (keys d))
  contains-insert k j v [] = refl
  contains-insert k j v ((i, w) ∷ d) = ground (
    arith,
    contains-insert k j v d,
    string_eq.same_iff i k,
    string_eq.same_iff i j,
    string_eq.same_iff k j,
  )

  pub insert-IsDict : (k : String) (v : V) (d : Dict String V) → IsDict d → IsDict (insert k v d)
  insert-IsDict k v [] h = (refl, tt)
  insert-IsDict k v ((j, w) ∷ d) h = elim (Bool-cases (j == k)) [
    | inl same ↦ rw (same, if◌then◌else◌) h
    | inr different ↦
        rw (different, if◌then◌else◌)
          (
            rw (contains-insert k j v d)
                (ground (arith, string_eq.same_iff k j, string_eq.same_iff j k, h.0)),
            insert-IsDict k v d h.1,
          )
  ]

  contains-remove :
      (k j : String) (d : Dict String V)
      → contains j (keys d) ≡ false
      → contains j (keys (remove k d)) ≡ false
  contains-remove k j [] h = refl
  contains-remove k j ((i, w) ∷ d) h = ground (arith, contains-remove k j d)

  pub remove-IsDict : (k : String) (d : Dict String V) → IsDict d → IsDict (remove k d)
  remove-IsDict k [] h = tt
  remove-IsDict k ((j, w) ∷ d) h = elim (Bool-cases (j == k)) [
    | inl same ↦ rw (same, if◌then◌else◌) (remove-IsDict k d h.1)
    | inr different ↦
        rw (different, if◌then◌else◌) (contains-remove k j d h.0, remove-IsDict k d h.1)
  ]

  pub get_absent : (k : String) (d : Dict String V) → contains k (keys d) ≡ false → get k d ≡ none
  get_absent k [] h = refl
  get_absent k ((j, w) ∷ d) h = ground (arith, get_absent k d)

  contains_row : (k : String) (v : V) (d : Dict String V) → In (k, v) d → contains k (keys d) ≡ true
  contains_row k v [] m = absurd m
  contains_row k v ((j, w) ∷ d) (inl e) = ground (arith, ap (λ r. r.0) e, string_eq.same_iff j k)
  contains_row k v ((j, w) ∷ d) (inr m) = ground (arith, contains_row k v d m)

  -- A row of a dictionary is the one that `get` finds.
  pub get_row : (k : String) (v : V) (d : Dict String V) → IsDict d → In (k, v) d → get k d ≡ some v
  get_row k v [] h m = absurd m
  get_row k v ((j, w) ∷ d) h (inl e) =
      ground (arith, ap (λ r. r.0) e, ap (λ r. r.1) e, string_eq.same_iff j k)
  get_row k v ((j, w) ∷ d) h (inr m) = elim (Bool-cases (j == k)) [
    | inl same ↦ absurd (cc (h.0, contains_row k v d m, (string_eq.same_iff j k).0 same))
    | inr different ↦ rw (different, if◌then◌else◌) (get_row k v d h.1 m)
  ]
