-- ===== src/History/Queries/Ranks.antt =====
-- Rows of the first rank, and dictionaries made from rows.
use carhibou.Prelude.{
  ℕ, ◌≡◌, refl, sym, ◌∙◌, ap, ap₂, ◌⊎◌, inl, inr, Bool, true, false, ◌&&◌, some, is_some, List, [],
  ◌∷◌, filter, any, In, In-filter, In-filter_of, Bool-cases, Option-cases, if◌then◌else◌, arith,
}
use carhibou.Prelude.Equality.{◌==◌, Dict, Eq, get, insert, get-insert, string_eq, ==_refl}
use carhibou.Prelude.Maximum.{
  max_of, max_of-In, max_of-max, max_of-none, by_triple, by_triple-IsWeakOrder,
}
use carhibou.Prelude.Time.{Instant}
use carhibou.History.Events.{signal_eq}
use carhibou.History.Queries.{Placed, outranked, is_first, first_rows, from_rows}

any-false :
    {A : Type 0} (p : A → Bool) (xs : List A) → ((a : A) → In a xs → p a ≡ false) → any p xs ≡ false
any-false p [] h = refl
any-false p (x ∷ xs) h = rw (h x (inl refl)) (any-false p xs λ a m. h a (inr m))

any-none :
    {A : Type 0} (p : A → Bool) (xs : List A) (a : A) → any p xs ≡ false → In a xs → p a ≡ false
any-none p [] a h m = absurd m
any-none p (x ∷ xs) a h (inl e) = rw e (ground arith)
any-none p (x ∷ xs) a h (inr m) = any-none p xs a (ground arith) m

module _ {K V : Type 0} ⦃e : Eq K⦄ where
  -- A value of the dictionary is that of one of the rows.
  pub get-from_rows :
      (rows d : Dict K V) (k : K) (v : V)
      → get k (from_rows rows d) ≡ some v
      → In (k, v) rows ⊎ (get k d ≡ some v)
  get-from_rows [] d k v h = inr h
  get-from_rows ((j, w) ∷ rows) d k v h = elim (get-from_rows rows (insert j w d) k v h) [
    | inl m ↦ inl (inr m)
    | inr old ↦ elim (Bool-cases (j == k)) [
      | inl same ↦
          let found : some w ≡ some v =
            sym (rw (get-insert j k w d) (rw (same, if◌then◌else◌))) ∙ old in
          inl (inl (ap₂ (λ a b. (a, b)) (sym ((e.same_iff j k).0 same)) (cc found)))
      | inr different ↦ inr (sym (rw (get-insert j k w d) (rw (different, if◌then◌else◌))) ∙ old)
    ]
  ]

  -- Every row gives its key a value.
  pub from_rows-some :
      (rows d : Dict K V) (k : K)
      → ((v : V) × In (k, v) rows) ⊎ (is_some (get k d) ≡ true)
      → is_some (get k (from_rows rows d)) ≡ true
  from_rows-some [] d k (inl (v, m)) = absurd m
  from_rows-some [] d k (inr h) = h
  from_rows-some ((j, w) ∷ rows) d k (inl (v, inl same)) =
      from_rows-some rows (insert j w d) k
        (inr (ground (arith, get-insert j k w d, ap (λ r. r.0) same, e.same_iff j k)))
  from_rows-some ((j, w) ∷ rows) d k (inl (v, inr m)) =
      from_rows-some rows (insert j w d) k (inl (v, m))
  from_rows-some ((j, w) ∷ rows) d k (inr h) =
      from_rows-some rows (insert j w d) k (inr (ground (arith, get-insert j k w d, h)))

module _ {A K : Type 0} ⦃e : Eq K⦄ (partition : A → K) (time : A → Instant) where
  -- A row of the first rank is not outranked within its partition.
  pub first_rows-first :
      (rows : List (Placed A)) (a b : Placed A)
      → In a (first_rows partition time rows)
      → In b rows
      → partition b.row ≡ partition a.row
      → outranked partition time a b ≡ false
  first_rows-first rows a b m n same =
      let (inside, top) = In-filter (is_first partition time rows) a rows m in
      let free =
        any-none (λ b. partition b.row == partition a.row && outranked partition time a b) rows b
          (ground (arith, top)) n in
      ground (arith, free, (e.same_iff (partition b.row) (partition a.row)).1 same)

  abbrev rank : Placed A → ℕ × ℕ × ℕ
  rank r = (time r.row, r.place, 0)

  abbrev alike : Placed A → Placed A → Bool
  alike a b = partition b.row == partition a.row

  -- The best row of a partition has the first rank.
  best-is_first :
      (rows : List (Placed A)) (a b : Placed A)
      → max_of (by_triple rank) (filter (alike a) rows) ≡ some b
      → partition b.row ≡ partition a.row
      → is_first partition time rows b ≡ true
  best-is_first rows a b best same =
      let free : any (λ c. partition c.row == partition b.row && outranked partition time b c) rows
          ≡ false =
        any-false _ rows λ c m. elim (Bool-cases (partition c.row == partition b.row)) [
          | inr different ↦ ground (arith, different)
          | inl alike_b ↦
              let alike_a : alike a c ≡ true =
                (e.same_iff (partition c.row) (partition a.row)).1
                  ((e.same_iff (partition c.row) (partition b.row)).0 alike_b ∙ same) in
              let worse : outranked partition time b c ≡ false =
                max_of-max (by_triple rank) (by_triple-IsWeakOrder rank) (filter (alike a) rows) c
                  best (In-filter_of (alike a) c rows m alike_a) in
              ground (arith, worse)
        ] in
      rw free

  -- Every partition has a row of the first rank.
  pub first_rows-some :
      (rows : List (Placed A)) (a : Placed A)
      → In a rows
      → (b : Placed A) × In b (first_rows partition time rows) × (partition b.row ≡ partition a.row)
  first_rows-some rows a m =
      let inside = In-filter_of (alike a) a rows m (==_refl (partition a.row)) in
      elim (Option-cases (max_of (by_triple rank) (filter (alike a) rows))) [
        | inl nothing ↦
            absurd (max_of-none (by_triple rank) (filter (alike a) rows) a nothing inside)
        | inr (b, best) ↦
            let (there, found) =
              In-filter (alike a) b rows
                (max_of-In (by_triple rank) (filter (alike a) rows) best) in
            let same = (e.same_iff (partition b.row) (partition a.row)).0 found in
            (
              b,
              In-filter_of (is_first partition time rows) b rows there
                  (best-is_first rows a b best same),
              same,
            )
      ]
