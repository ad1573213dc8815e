-- ===== src/Agent/Queue/Delivery.antt =====
-- agent/vehicle_agent/runtime.py: what `upload_once` takes out of the queue.
use carhibou.Prelude.{
  ℕ, ◌+◌, ◌≡◌, refl, subst, ◌⊎◌, inl, inr, Bool, true, false, not, Option, none, some, String, List,
  [], ◌∷◌, length, In, In-filter, In-filter_of, length-filter-le, Bool-cases, arith,
}
use carhibou.Prelude.Equality.{string_eq, contains}
use carhibou.Agent.Samples.{Restored, ◌>>=◌}
use carhibou.Agent.Queue.{
  Row, acknowledge, acknowledge_answer, upload_samples, pending, upload_once,
}

module _ {F : Type 0} where
  -- The rows that an answer leaves, and their number.
  abbrev Takes : List String → List (Row F) → List (Row F) → ℕ → Type 0
  Takes answer q left n =
      (length left + n ≡ length q)
      × ((r : Row F) → In r left → In r q × (contains r.id answer ≡ false))
      × ((r : Row F) → In r q → In r left ⊎ (contains r.id answer ≡ true))

  acknowledge-Takes :
      (answer : List String) (q : List (Row F))
      → Takes answer q (acknowledge answer q).0 (acknowledge answer q).1
  unfolding acknowledge
  acknowledge-Takes answer q =
      let p : Row F → Bool = λ r. not (contains r.id answer) in
      (
        omega (arith, length-filter-le p q),
        λ r m. let (there, kept) = In-filter p r q m in (there, ground (arith, kept)),
        λ r m. elim (Bool-cases (contains r.id answer)) [
          | inl named ↦ inr named
          | inr kept ↦ inl (In-filter_of p r q m (rw kept))
        ],
      )

  answered-Takes :
      (q : List (Row F)) (o : Option (List String)) {left : List (Row F)} {n : ℕ}
      → acknowledge_answer q o ≡ some (left, n)
      → (answer : List String) × (o ≡ some answer) × Takes answer q left n
  answered-Takes q none e = cc
  answered-Takes q (some answer) {left} {n} e =
      let same : acknowledge answer q ≡ (left, n) = cc in
      (
        answer,
        refl,
        subst (λ (r : List (Row F) × ℕ). Takes answer q r.0 r.1) same (acknowledge-Takes answer q),
      )

  -- An upload that goes through either found no samples, and leaves the queue as it is, or it had
  -- an answer to the pending samples: a row is left exactly where it was in the queue and the answer
  -- does not name it, and the number of the rows that are gone is returned.
  pub upload_once-Takes :
      (limit : ℕ) (transport : List (Restored F) → Option (List String)) (q : List (Row F))
      {left : List (Row F)} {n : ℕ}
      → upload_once limit transport q ≡ some (left, n)
      → ((pending limit q ≡ some []) × (left ≡ q) × (n ≡ 0))
        ⊎ ((samples : List (Restored F)) × (answer : List String) × (pending limit q ≡ some samples)
            × (transport samples ≡ some answer)
            × (length left + n ≡ length q)
            × ((r : Row F) → In r left → In r q × (contains r.id answer ≡ false))
            × ((r : Row F) → In r q → In r left ⊎ (contains r.id answer ≡ true)))
  unfolding upload_once
  upload_once-Takes limit transport q {left} {n} e = takes (pending limit q) refl e
    where
      takes :
          (o : Option (List (Restored F)))
          → pending limit q ≡ o
          → (o >>= upload_samples transport q) ≡ some (left, n)
          → ((pending limit q ≡ some []) × (left ≡ q) × (n ≡ 0))
            ⊎ ((samples : List (Restored F)) × (answer : List String) × (pending limit q
                  ≡ some samples)
                × (transport samples ≡ some answer)
                × (length left + n ≡ length q)
                × ((r : Row F) → In r left → In r q × (contains r.id answer ≡ false))
                × ((r : Row F) → In r q → In r left ⊎ (contains r.id answer ≡ true)))
      takes none read end = cc
      takes (some []) read end = inl (read, cc, cc)
      takes (some (s ∷ samples)) read end =
          let (answer, sent, (count, kept, gone)) =
            answered-Takes q (transport (s ∷ samples)) end in
          inr (s ∷ samples, answer, read, sent, count, kept, gone)
