-- ===== src/History/Segments/Drives/Laws.antt =====
-- backend/app/history/segments.py: what the groups of `_drive_groups` are.
use carhibou.Prelude.{
  ℕ, zero, suc, ◌+◌, ◌≤◌, ◌<◌, ◌≡◌, ◌≢◌, refl, sym, ◌∙◌, subst, ap, inl, inr, Bool, true, false,
  Option, none, some, String, List, [], ◌∷◌, All, Bool-cases, if◌then◌else◌, arith,
}
use native.Mathlib.Decide.{dec_lt}
use carhibou.Prelude.Float.{Float}
use carhibou.Prelude.Math.{Math, Texts}
use carhibou.Prelude.Time.{Instant}
use carhibou.History.Segments.{Row, Bounds}
use carhibou.History.Segments.Drives.{
  Drive, Reading, stopped, driving, moving, idle, splits, opened, active_next, active_closed,
  drive_closed, drive_next, drive_end, row_reading,
}

abbrev pub is_active : Reading → Bool
is_active driving = true
is_active moving = true
is_active stopped = false
is_active idle = false

module _ {F : Type 0} ⦃ops : Float F⦄ ⦃fs : Math F⦄ ⦃texts : Texts String⦄ where
  -- What the row of an index says, given the row before the first; past the rows, nothing.
  abbrev pub reading_at : Option (Row F) → List (Row F) → ℕ → Reading
  reading_at previous [] j = idle
  reading_at previous (row ∷ rows) zero = row_reading row previous
  reading_at previous (row ∷ rows) (suc j) = reading_at (some row) rows j

  -- `r` gives what rows say that start at an index.
  abbrev pub Says : (ℕ → Reading) → ℕ → Option (Row F) → List (Row F) → Type 0
  Says r i previous [] = Unit
  Says r i previous (row ∷ rows) = (r i ≡ row_reading row previous) × Says r (i + 1) (some row) rows

  pub Says_lem :
      (r : ℕ → Reading) (i : ℕ) (previous : Option (Row F)) (rows : List (Row F))
      → ((k : ℕ) → r (i + k) ≡ reading_at previous rows k)
      → Says r i previous rows
  Says_lem r i previous [] h = tt
  Says_lem r i previous (row ∷ rows) h =
      (ground (arith, h 0), Says_lem r (i + 1) (some row) rows λ k. ground (arith, h (suc k)))

-- A group begins with a row that moves, has no stop before its last row, and its last row is a
-- stop or moves.
pub record IsDrive (r : ℕ → Reading) (g : Bounds) : Type 0 where
  pub begins : is_active (r g.0) ≡ true
  pub whole : (j : ℕ) → g.0 ≤ j → j + 1 < g.1 → r j ≢ stopped
  pub ends : (j : ℕ) → j + 1 ≡ g.1 → r j ≢ idle

-- An open drive began with a row that moves, its last evidence moves, and no row since is a stop.
abbrev pub OpenFits : (ℕ → Reading) → ℕ → Option Drive → Type 0
OpenFits r i none = Unit
OpenFits r i (some d) =
    (d.start ≤ d.last_evidence)
    × (d.last_evidence < i)
    × (is_active (r d.start) ≡ true)
    × (is_active (r d.last_evidence) ≡ true)
    × ((j : ℕ) → d.start ≤ j → j < i → r j ≢ stopped)

at : (r : ℕ → Reading) (i : ℕ) (v : Reading) (j : ℕ) → r i ≡ v → j ≡ i → r j ≡ v
at r i v j e p = subst (λ k. r k ≡ v) (sym p) e

add_one_injective : (m n : ℕ) → m + 1 ≡ n + 1 → m ≡ n
add_one_injective m n p = omega arith

module _ (r : ℕ → Reading) (i : ℕ) where
  still_before :
      (v : Reading) (s : ℕ)
      → r i ≡ v
      → v ≢ stopped
      → ((j : ℕ) → s ≤ j → j < i → r j ≢ stopped)
      → (j : ℕ) → s ≤ j
      → j < i + 1
      → r j ≢ stopped
  still_before v s e ne h j low high = elim (dec_lt j i) [
    | yes lt ↦ h j low lt
    | no ge ↦ λ q. ne (sym (at r i v j e (omega arith)) ∙ q)
  ]

  opened-OpenFits :
      (v : Reading) (t : Instant) (b : Bool)
      → r i ≡ v
      → is_active v ≡ true
      → v ≢ stopped
      → OpenFits r (i + 1) (some (opened i t v b))
  opened-OpenFits v t b e a ne = (
    omega arith,
    omega arith,
    rw e a,
    rw e a,
    λ j low high q. ne (sym (at r i v j e (omega arith)) ∙ q),
  )

  active_next-OpenFits :
      (v : Reading) (t : Instant) (o : Option Drive)
      → r i ≡ v
      → is_active v ≡ true
      → v ≢ stopped
      → OpenFits r i o
      → OpenFits r (i + 1) (active_next i t v o)
  active_next-OpenFits v t none e a ne h = opened-OpenFits v t false e a ne
  active_next-OpenFits v t (some d) e a ne h = elim (Bool-cases (splits t d)) [
    | inl split ↦ rw (split, active_next) (opened-OpenFits v t d.signal_bounded e a ne)
    | inr joined ↦
        rw (joined, active_next)
          (omega arith, omega arith, h.2, rw e a, still_before v d.start e ne h.4)
  ]

  pub drive_next-OpenFits :
      (v : Reading) (t : Instant) (o : Option Drive)
      → r i ≡ v
      → OpenFits r i o
      → OpenFits r (i + 1) (drive_next v i t o)
  drive_next-OpenFits stopped t o e h = tt
  drive_next-OpenFits driving t o e h = active_next-OpenFits driving t o e refl (λ q. cc) h
  drive_next-OpenFits moving t o e h = active_next-OpenFits moving t o e refl (λ q. cc) h
  drive_next-OpenFits idle t none e h = tt
  drive_next-OpenFits idle t (some d) e h =
      (h.0, omega arith, h.2, h.3, still_before idle d.start e (λ q. cc) h.4)

  -- An open drive that is closed at its last evidence.
  at_evidence-IsDrive :
      (d : Drive) → OpenFits r i (some d) → IsDrive r (d.start, d.last_evidence + 1)
  at_evidence-IsDrive d h = record {
    begins = h.2;
    whole = λ j low high. h.4 j low (omega arith);
    ends = λ j p q. cc (ap (λ k. is_active (r k)) (add_one_injective j d.last_evidence p));
  }

  at_stop-IsDrive : (d : Drive) → r i ≡ stopped → OpenFits r i (some d) → IsDrive r (d.start, i + 1)
  at_stop-IsDrive d e h = record {
    begins = h.2;
    whole = λ j low high. h.4 j low (omega arith);
    ends = λ j p q. cc (at r i stopped j e (omega arith));
  }

  active_closed-IsDrive :
      (t : Instant) (o : Option Drive) → OpenFits r i o → All (IsDrive r) (active_closed t o)
  active_closed-IsDrive t none h = tt
  active_closed-IsDrive t (some d) h = elim (Bool-cases (splits t d)) [
    | inl split ↦ rw (split, active_closed) (at_evidence-IsDrive d h, tt)
    | inr joined ↦ rw (joined, active_closed) tt
  ]

  pub drive_closed-IsDrive :
      (v : Reading) (t : Instant) (o : Option Drive)
      → r i ≡ v
      → OpenFits r i o
      → All (IsDrive r) (drive_closed v i t o)
  drive_closed-IsDrive stopped t none e h = tt
  drive_closed-IsDrive stopped t (some d) e h = elim (Bool-cases d.signal_bounded) [
    | inl bounded ↦ rw (bounded, if◌then◌else◌) (at_stop-IsDrive d e h, tt)
    | inr free ↦ rw (free, if◌then◌else◌) (at_evidence-IsDrive d h, tt)
  ]
  drive_closed-IsDrive driving t o e h = active_closed-IsDrive t o h
  drive_closed-IsDrive moving t o e h = active_closed-IsDrive t o h
  drive_closed-IsDrive idle t o e h = tt

  pub drive_end-IsDrive : (o : Option Drive) → OpenFits r i o → All (IsDrive r) (drive_end o)
  drive_end-IsDrive none h = tt
  drive_end-IsDrive (some d) h = (at_evidence-IsDrive d h, tt)
