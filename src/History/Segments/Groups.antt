-- ===== src/History/Segments/Groups.antt =====
-- Groups of rows by their bounds: which rows they hold, and that they follow one another.
use carhibou.Prelude.{
  ℕ, ◌≤◌, ◌<◌, inl, List, [], ◌∷◌, ◌++◌, In, In-append_left, In-append_right, arith,
}
use carhibou.History.Segments.{Bounds}

-- Some group holds the row of an index.
abbrev pub Holds : List Bounds → ℕ → Type 0
Holds groups j = (g : Bounds) × In g groups × (g.0 ≤ j) × (j < g.1)

pub Holds-left : (gs hs : List Bounds) (j : ℕ) → Holds gs j → Holds (gs ++ hs) j
Holds-left gs hs j (g, m, low, high) = (g, In-append_left g gs hs m, low, high)

pub Holds-right : (gs hs : List Bounds) (j : ℕ) → Holds hs j → Holds (gs ++ hs) j
Holds-right gs hs j (g, m, low, high) = (g, In-append_right g gs hs m, low, high)

pub Holds-one : (s e j : ℕ) → s ≤ j → j < e → Holds ((s, e) ∷ []) j
Holds-one s e j low high = ((s, e), inl (λ i. (s, e)), low, high)

-- The groups lie between two indices, none is empty, and each ends before the next begins.
abbrev pub Follow : ℕ → List Bounds → ℕ → Type 0
Follow i [] n = i ≤ n
Follow i (g ∷ gs) n = (i ≤ g.0) × (g.0 < g.1) × Follow g.1 gs n

pub Follow-from : (i k n : ℕ) (gs : List Bounds) → i ≤ k → Follow k gs n → Follow i gs n
Follow-from i k n [] h follow = omega arith
Follow-from i k n (g ∷ gs) h follow = (omega arith, follow.1, follow.2)
