-- ===== src/History/Segments/Charges/Laws.antt =====
-- backend/app/history/segments.py: one round of the loop of `_charge_groups`, and what follows it.
use carhibou.Prelude.{
  ℕ, ◌+◌, ◌≤◌, ◌<◌, ◌≡◌, ◌≢◌, sym, ◌∙◌, subst, ◌⊎◌, inl, inr, Bool, true, false, Option, none, some,
  List, ◌++◌, All, arith,
}
use native.Mathlib.Decide.{dec_lt}
use carhibou.History.Segments.{Bounds, Open, charge_closed, charge_next, charge_end}
use carhibou.History.Segments.Groups.{Holds, Holds-one, Follow, Follow-from}

-- A group begins with a charging row, has no stop before its last row, and its last row is a stop
-- or charging.
pub record IsSession (f : ℕ → Option Bool) (g : Bounds) : Type 0 where
  pub begins : f g.0 ≡ some true
  pub whole : (j : ℕ) → g.0 ≤ j → j + 1 < g.1 → f j ≢ some false
  pub ends : (j : ℕ) → j + 1 ≡ g.1 → f j ≢ none

-- An open group began with a charging row, and no row since is a stop.
abbrev pub OpenFits : (ℕ → Option Bool) → ℕ → Open → Type 0
OpenFits f i none = Unit
OpenFits f i (some (s, l)) =
    (s ≤ l)
    × (l < i)
    × (f s ≡ some true)
    × (f l ≡ some true)
    × ((j : ℕ) → s ≤ j → j < i → f j ≢ some false)

not_at :
    (f : ℕ → Option Bool) (i : ℕ) (v : Option Bool) {w : Option Bool}
    → f i ≡ w
    → w ≢ v
    → (j : ℕ) → j ≡ i
    → f j ≢ v
not_at f i v e ne j p q = ne (sym e ∙ subst (λ k. f k ≡ v) p q)

module _ (f : ℕ → Option Bool) (i : ℕ) where
  still_before :
      (v : Option Bool) {w : Option Bool} (s : ℕ)
      → f i ≡ w
      → w ≢ v
      → ((j : ℕ) → s ≤ j → j < i → f j ≢ v)
      → (j : ℕ) → s ≤ j
      → j < i + 1
      → f j ≢ v
  still_before v s e ne h j low high = elim (dec_lt j i) [
    | yes lt ↦ h j low lt
    | no ge ↦ not_at f i v e ne j (omega arith)
  ]

  pub charge_next-OpenFits :
      (v : Option Bool) (o : Open)
      → f i ≡ v
      → OpenFits f i o
      → OpenFits f (i + 1) (charge_next v i o)
  charge_next-OpenFits none none e h = tt
  charge_next-OpenFits none (some (s, l)) e h =
      (h.0, omega arith, h.2, h.3, still_before (some false) s e (λ q. cc) h.4)
  charge_next-OpenFits (some false) o e h = tt
  charge_next-OpenFits (some true) none e h = (
    omega arith,
    omega arith,
    e,
    e,
    λ j low high. not_at f i (some false) e (λ q. cc) j (omega arith),
  )
  charge_next-OpenFits (some true) (some (s, l)) e h =
      (omega arith, omega arith, h.2, e, still_before (some false) s e (λ q. cc) h.4)

  pub charge_closed-IsSession :
      (v : Option Bool) (o : Open)
      → f i ≡ v
      → OpenFits f i o
      → All (IsSession f) (charge_closed v i o)
  charge_closed-IsSession none o e h = tt
  charge_closed-IsSession (some true) o e h = tt
  charge_closed-IsSession (some false) none e h = tt
  charge_closed-IsSession (some false) (some (s, l)) e h = (
    record {
      begins = h.2;
      whole = λ j low high. h.4 j low (omega arith);
      ends = λ j p. not_at f i none e (λ q. cc) j (omega arith);
    },
    tt,
  )

  pub charge_end-IsSession : (o : Open) → OpenFits f i o → All (IsSession f) (charge_end o)
  charge_end-IsSession none h = tt
  charge_end-IsSession (some (s, l)) h = (
    record {
      begins = h.2;
      whole = λ j low high. h.4 j low (omega arith);
      ends = λ j p. not_at f l none h.3 (λ q. cc) j (omega arith);
    },
    tt,
  )

-- The first row that a group may still begin with.
abbrev pub low : ℕ → Open → ℕ
low i none = i
low i (some (s, l)) = s

abbrev pub OpenBefore : ℕ → Open → Type 0
OpenBefore i none = Unit
OpenBefore i (some (s, l)) = (s ≤ l) × (l < i)

pub charge_next-OpenBefore :
    (v : Option Bool) (i : ℕ) (o : Open) → OpenBefore i o → OpenBefore (i + 1) (charge_next v i o)
charge_next-OpenBefore v i o h = ground arith

pub charge_closed-Follow :
    (v : Option Bool) (i : ℕ) (o : Open) (gs : List Bounds) (n : ℕ)
    → OpenBefore i o
    → Follow (low (i + 1) (charge_next v i o)) gs n
    → Follow (low i o) (charge_closed v i o ++ gs) n
charge_closed-Follow none i none gs n h k = Follow-from i (i + 1) n gs (omega arith) k
charge_closed-Follow none i (some (s, l)) gs n h k = k
charge_closed-Follow (some true) i none gs n h k = k
charge_closed-Follow (some true) i (some (s, l)) gs n h k = k
charge_closed-Follow (some false) i none gs n h k = Follow-from i (i + 1) n gs (omega arith) k
charge_closed-Follow (some false) i (some (s, l)) gs n h k = (omega arith, omega arith, k)

pub charge_end-Follow : (i : ℕ) (o : Open) → OpenBefore i o → Follow (low i o) (charge_end o) i
charge_end-Follow i none h = omega arith
charge_end-Follow i (some (s, l)) h = (omega arith, omega arith, omega arith)

-- The row of an index is yet to come, or in the open group.
abbrev pub Ahead : ℕ → Open → ℕ → Type 0
Ahead i none j = i ≤ j
Ahead i (some (s, l)) j = (i ≤ j) ⊎ ((s ≤ j) × (j ≤ l))

pub charge_next-Ahead :
    (v : Option Bool) (i : ℕ) (o : Open) (j : ℕ)
    → OpenBefore i o
    → Ahead i o j
    → (i ≡ j → v ≡ some true)
    → Holds (charge_closed v i o) j ⊎ Ahead (i + 1) (charge_next v i o) j
charge_next-Ahead (some true) i none j h ahead charging = inr (ground arith)
charge_next-Ahead (some true) i (some (s, l)) j h ahead charging = inr (ground arith)
charge_next-Ahead (some false) i none j h ahead charging = inr (ground arith)
charge_next-Ahead (some false) i (some (s, l)) j h (inl later) charging = inr (ground arith)
charge_next-Ahead (some false) i (some (s, l)) j h (inr now) charging =
    inl (Holds-one s (i + 1) j (omega arith) (omega arith))
charge_next-Ahead none i none j h ahead charging = inr (ground arith)
charge_next-Ahead none i (some (s, l)) j h ahead charging = inr (ground arith)

pub charge_end-Holds : (i : ℕ) (o : Open) (j : ℕ) → Ahead i o j → j < i → Holds (charge_end o) j
charge_end-Holds i none j ahead h = absurd (omega arith)
charge_end-Holds i (some (s, l)) j ahead h = Holds-one s (l + 1) j (ground arith) (ground arith)
