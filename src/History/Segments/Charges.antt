-- ===== src/History/Segments/Charges.antt =====
-- backend/app/history/segments.py: what the groups of `_charge_groups` are.
pub mod Laws
use carhibou.Prelude.{
  ℕ, suc, ◌+◌, ◌≤◌, ◌<◌, ◌≡◌, ◌≢◌, sym, ◌∙◌, subst, ◌⊎◌, inl, inr, Bool, true, false, Option, none,
  some, List, [], ◌∷◌, ◌++◌, get_elem?, length, All, All-append, arith,
}
use native.Mathlib.Decide.{dec_lt}
use native.Mathlib.Nat.{zero-add, add-zero}
use carhibou.Prelude.Float.{Float}
use carhibou.History.Segments.{
  Bounds, Open, Row, charge_signal, charge_closed, charge_next, charge_end, charge_bounds,
}
use carhibou.History.Segments.Groups.{
  Holds, Holds-left, Holds-right, Holds-one, Follow, Follow-from,
}
use carhibou.History.Segments.Charges.Laws.{
  IsSession, OpenFits, charge_next-OpenFits, charge_closed-IsSession, charge_end-IsSession, low,
  OpenBefore, charge_next-OpenBefore, charge_closed-Follow, charge_end-Follow, Ahead,
  charge_next-Ahead, charge_end-Holds,
}

-- The signal of the row of an index; past the rows there is none.
abbrev pub charge_at : {F : Type 0} ⦃ops : Float F⦄ → List (Row F) → ℕ → Option Bool
charge_at rows j = elim (get_elem? rows j) [ none ↦ none | some row ↦ charge_signal row ]

-- `f` gives the signals of rows that start at an index.
abbrev Signals : {F : Type 0} ⦃ops : Float F⦄ → (ℕ → Option Bool) → ℕ → List (Row F) → Type 0
Signals f i [] = Unit
Signals f i (row ∷ rows) = (f i ≡ charge_signal row) × Signals f (i + 1) rows

Signals_lem :
    {F : Type 0} ⦃ops : Float F⦄ (f : ℕ → Option Bool) (i : ℕ) (rows : List (Row F))
    → ((k : ℕ) → k < length rows → f (i + k) ≡ charge_at rows k)
    → Signals f i rows
Signals_lem f i [] h = tt
Signals_lem f i (row ∷ rows) h = (
  ground (arith, h 0 (omega arith)),
  Signals_lem f (i + 1) rows λ k lt. ground (arith, h (suc k) (omega arith)),
)

module _ {F : Type 0} ⦃ops : Float F⦄ (f : ℕ → Option Bool) where
  charge_bounds-IsSession :
      (i : ℕ) (o : Open) (rows : List (Row F))
      → Signals f i rows
      → OpenFits f i o
      → All (IsSession f) (charge_bounds i o rows)
  unfolding charge_bounds
  charge_bounds-IsSession i o [] signals h = charge_end-IsSession f i o h
  charge_bounds-IsSession i o (row ∷ rows) signals h =
      let v = charge_signal row in
      All-append (IsSession f) (charge_closed v i o)
        (charge_bounds (i + 1) (charge_next v i o) rows)
        (charge_closed-IsSession f i v o signals.0 h)
        (charge_bounds-IsSession (i + 1) (charge_next v i o) rows signals.1
          (charge_next-OpenFits f i v o signals.0 h))

  charge_bounds-Holds :
      (i : ℕ) (o : Open) (rows : List (Row F)) (j : ℕ)
      → Signals f i rows
      → OpenBefore i o
      → Ahead i o j
      → j < i + length rows
      → f j ≡ some true
      → Holds (charge_bounds i o rows) j
  unfolding charge_bounds
  charge_bounds-Holds i o [] j signals h ahead lt e = charge_end-Holds i o j ahead (omega arith)
  charge_bounds-Holds i o (row ∷ rows) j signals h ahead lt e =
      let v = charge_signal row in
      let rest = charge_bounds (i + 1) (charge_next v i o) rows in
      elim (charge_next-Ahead v i o j h ahead
        λ p. sym signals.0 ∙ subst (λ k. f k ≡ some true) (sym p) e) [
          | inl held ↦ Holds-left (charge_closed v i o) rest j held
          | inr later ↦ Holds-right (charge_closed v i o) rest j (
              charge_bounds-Holds (i + 1) (charge_next v i o) rows j signals.1
                (charge_next-OpenBefore v i o h) later (omega arith) e)
        ]

module _ {F : Type 0} ⦃ops : Float F⦄ where
  charge_bounds-Follow :
      (i : ℕ) (o : Open) (rows : List (Row F))
      → OpenBefore i o
      → Follow (low i o) (charge_bounds i o rows) (i + length rows)
  unfolding charge_bounds
  charge_bounds-Follow i o [] h = rw add-zero (charge_end-Follow i o h)
  charge_bounds-Follow i o (row ∷ rows) h =
      let v = charge_signal row in
      charge_closed-Follow v i o (charge_bounds (i + 1) (charge_next v i o) rows)
        (i + suc (length rows)) h
        (subst
          (λ n.
            Follow (low (i + 1) (charge_next v i o))
              (charge_bounds (i + 1) (charge_next v i o) rows) n)
          (omega arith)
          (charge_bounds-Follow (i + 1) (charge_next v i o) rows (charge_next-OpenBefore v i o h)))

  all-Signals : (rows : List (Row F)) → Signals (charge_at rows) 0 rows
  all-Signals rows = Signals_lem (charge_at rows) 0 rows λ k lt. rw zero-add

  -- The groups of charging rows follow one another within the rows. Each begins with a charging
  -- row, goes on without a stop, and ends with the stop or with a charging row. Every row that
  -- reports charging is in one of them.
  pub charge_bounds-sessions :
      (rows : List (Row F))
      → Follow 0 (charge_bounds 0 none rows) (length rows)
        × All (IsSession (charge_at rows)) (charge_bounds 0 none rows)
        × ((j : ℕ)
            → j < length rows
            → charge_at rows j ≡ some true
            → Holds (charge_bounds 0 none rows) j)
  charge_bounds-sessions rows = (
    subst (λ n. Follow 0 (charge_bounds 0 none rows) n) (omega arith)
        (charge_bounds-Follow 0 none rows tt),
    charge_bounds-IsSession (charge_at rows) 0 none rows (all-Signals rows) tt,
    λ j lt e.
        charge_bounds-Holds (charge_at rows) 0 none rows j (all-Signals rows) tt (omega arith)
          (omega arith) e,
  )
