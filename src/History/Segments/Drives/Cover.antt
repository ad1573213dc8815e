-- ===== src/History/Segments/Drives/Cover.antt =====
-- backend/app/history/segments.py: where the groups of `_drive_groups` lie among the rows.
use carhibou.Prelude.{
  ℕ, suc, ◌+◌, ◌≤◌, ◌<◌, ◌≡◌, sym, ◌∙◌, subst, ap, ◌⊎◌, inl, inr, true, Option, none, some, String,
  List, [], ◌∷◌, ◌++◌, length, All, All-append, Bool-cases, if◌then◌else◌, arith,
}
use native.Mathlib.Nat.{zero-add, add-zero}
use carhibou.Prelude.Float.{Float}
use carhibou.Prelude.Math.{Math, Texts}
use carhibou.Prelude.Time.{Instant}
use carhibou.History.Segments.{Row, Bounds}
use carhibou.History.Segments.Groups.{
  Holds, Holds-left, Holds-right, Holds-one, Follow, Follow-from,
}
use carhibou.History.Segments.Drives.{
  Drive, Reading, stopped, driving, moving, idle, splits, active_next, active_closed, drive_closed,
  drive_next, drive_end, row_reading, drive_bounds,
}
use carhibou.History.Segments.Drives.Laws.{
  is_active, reading_at, Says, Says_lem, IsDrive, OpenFits, drive_next-OpenFits,
  drive_closed-IsDrive, drive_end-IsDrive,
}

-- The first row that a group may still begin with.
abbrev low : ℕ → Option Drive → ℕ
low i none = i
low i (some d) = d.start

abbrev OpenBefore : ℕ → Option Drive → Type 0
OpenBefore i none = Unit
OpenBefore i (some d) = (d.start ≤ d.last_evidence) × (d.last_evidence < i)

drive_next-OpenBefore :
    (v : Reading) (i : ℕ) (t : Instant) (o : Option Drive)
    → OpenBefore i o
    → OpenBefore (i + 1) (drive_next v i t o)
drive_next-OpenBefore v i t o h = ground arith

active_closed-Follow :
    (v : Reading) (i : ℕ) (t : Instant) (o : Option Drive) (gs : List Bounds) (n : ℕ)
    → OpenBefore i o
    → Follow (low (i + 1) (active_next i t v o)) gs n
    → Follow (low i o) (active_closed t o ++ gs) n
active_closed-Follow v i t none gs n h k = k
active_closed-Follow v i t (some d) gs n h k = elim (Bool-cases (splits t d)) [
  | inl split ↦
      rw (split, active_closed)
        (
          omega arith,
          omega arith,
          Follow-from (d.last_evidence + 1) i n gs (omega arith) (rw (split, active_next) at k),
        )
  | inr joined ↦ rw (joined, active_closed) (rw (joined, active_next) at k)
]

drive_closed-Follow :
    (v : Reading) (i : ℕ) (t : Instant) (o : Option Drive) (gs : List Bounds) (n : ℕ)
    → OpenBefore i o
    → Follow (low (i + 1) (drive_next v i t o)) gs n
    → Follow (low i o) (drive_closed v i t o ++ gs) n
drive_closed-Follow stopped i t none gs n h k = Follow-from i (i + 1) n gs (omega arith) k
drive_closed-Follow stopped i t (some d) gs n h k =
    let end = (if d.signal_bounded then i else d.last_evidence) + 1 in
    (omega arith, ground arith, Follow-from end (i + 1) n gs (ground arith) k)
drive_closed-Follow driving i t o gs n h k = active_closed-Follow driving i t o gs n h k
drive_closed-Follow moving i t o gs n h k = active_closed-Follow moving i t o gs n h k
drive_closed-Follow idle i t none gs n h k = Follow-from i (i + 1) n gs (omega arith) k
drive_closed-Follow idle i t (some d) gs n h k = k

drive_end-Follow : (i : ℕ) (o : Option Drive) → OpenBefore i o → Follow (low i o) (drive_end o) i
drive_end-Follow i none h = omega arith
drive_end-Follow i (some d) h = (omega arith, omega arith, omega arith)

-- The row of an index is yet to come, or in the open drive.
abbrev Ahead : ℕ → Option Drive → ℕ → Type 0
Ahead i none j = i ≤ j
Ahead i (some d) j = (i ≤ j) ⊎ ((d.start ≤ j) × (j ≤ d.last_evidence))

active_next-Ahead :
    (v : Reading) (i : ℕ) (t : Instant) (o : Option Drive) (j : ℕ)
    → OpenBefore i o
    → Ahead i o j
    → Holds (active_closed t o) j ⊎ Ahead (i + 1) (active_next i t v o) j
active_next-Ahead v i t none j h ahead = inr (ground arith)
active_next-Ahead v i t (some d) j h ahead = elim (Bool-cases (splits t d)) [
  | inl split ↦ elim ahead [
    | inl later ↦ rw (split, active_next, active_closed) (inr (ground arith))
    | inr now ↦
        rw (split, active_next, active_closed)
          (inl (Holds-one d.start (d.last_evidence + 1) j now.0 (omega arith)))
  ]
  | inr joined ↦ rw (joined, active_next, active_closed) (inr (ground arith))
]

drive_next-Ahead :
    (v : Reading) (i : ℕ) (t : Instant) (o : Option Drive) (j : ℕ)
    → OpenBefore i o
    → Ahead i o j
    → (i ≡ j → is_active v ≡ true)
    → Holds (drive_closed v i t o) j ⊎ Ahead (i + 1) (drive_next v i t o) j
drive_next-Ahead driving i t o j h ahead active = active_next-Ahead driving i t o j h ahead
drive_next-Ahead moving i t o j h ahead active = active_next-Ahead moving i t o j h ahead
drive_next-Ahead stopped i t none j h ahead active = inr (ground arith)
drive_next-Ahead stopped i t (some d) j h (inl later) active = inr (ground arith)
drive_next-Ahead stopped i t (some d) j h (inr now) active =
    let end = (if d.signal_bounded then i else d.last_evidence) + 1 in
    inl (Holds-one d.start end j (omega arith) (ground arith))
drive_next-Ahead idle i t none j h ahead active = inr (ground arith)
drive_next-Ahead idle i t (some d) j h ahead active = inr (ground arith)

drive_end-Holds : (i : ℕ) (o : Option Drive) (j : ℕ) → Ahead i o j → j < i → Holds (drive_end o) j
drive_end-Holds i none j ahead h = absurd (omega arith)
drive_end-Holds i (some d) j ahead h =
    Holds-one d.start (d.last_evidence + 1) j (ground arith) (ground arith)

module _ {F : Type 0} ⦃ops : Float F⦄ ⦃fs : Math F⦄ ⦃texts : Texts String⦄ where
  module _ (r : ℕ → Reading) where
    drive_bounds-IsDrive :
        (i : ℕ) (previous : Option (Row F)) (o : Option Drive) (rows : List (Row F))
        → Says r i previous rows
        → OpenFits r i o
        → All (IsDrive r) (drive_bounds i previous o rows)
    unfolding drive_bounds
    drive_bounds-IsDrive i previous o [] says h = drive_end-IsDrive r i o h
    drive_bounds-IsDrive i previous o (row ∷ rows) says h =
        let v = row_reading row previous in
        let t = row.recorded_at in
        All-append (IsDrive r) (drive_closed v i t o)
          (drive_bounds (i + 1) (some row) (drive_next v i t o) rows)
          (drive_closed-IsDrive r i v t o says.0 h)
          (drive_bounds-IsDrive (i + 1) (some row) (drive_next v i t o) rows says.1
            (drive_next-OpenFits r i v t o says.0 h))

    drive_bounds-Holds :
        (i : ℕ) (previous : Option (Row F)) (o : Option Drive) (rows : List (Row F)) (j : ℕ)
        → Says r i previous rows
        → OpenBefore i o
        → Ahead i o j
        → j < i + length rows
        → is_active (r j) ≡ true
        → Holds (drive_bounds i previous o rows) j
    unfolding drive_bounds
    drive_bounds-Holds i previous o [] j says h ahead lt e =
        drive_end-Holds i o j ahead (omega arith)
    drive_bounds-Holds i previous o (row ∷ rows) j says h ahead lt e =
        let v = row_reading row previous in
        let t = row.recorded_at in
        let rest = drive_bounds (i + 1) (some row) (drive_next v i t o) rows in
        elim (drive_next-Ahead v i t o j h ahead
          λ p. ap is_active (sym says.0) ∙ subst (λ k. is_active (r k) ≡ true) (sym p) e) [
            | inl held ↦ Holds-left (drive_closed v i t o) rest j held
            | inr later ↦ Holds-right (drive_closed v i t o) rest j (
                drive_bounds-Holds (i + 1) (some row) (drive_next v i t o) rows j says.1
                  (drive_next-OpenBefore v i t o h) later (omega arith) e)
          ]

  drive_bounds-Follow :
      (i : ℕ) (previous : Option (Row F)) (o : Option Drive) (rows : List (Row F))
      → OpenBefore i o
      → Follow (low i o) (drive_bounds i previous o rows) (i + length rows)
  unfolding drive_bounds
  drive_bounds-Follow i previous o [] h = rw add-zero (drive_end-Follow i o h)
  drive_bounds-Follow i previous o (row ∷ rows) h =
      let v = row_reading row previous in
      let t = row.recorded_at in
      let rest = drive_bounds (i + 1) (some row) (drive_next v i t o) rows in
      drive_closed-Follow v i t o rest (i + suc (length rows)) h (
        subst (λ n. Follow (low (i + 1) (drive_next v i t o)) rest n) (omega arith)
          (drive_bounds-Follow (i + 1) (some row) (drive_next v i t o) rows
            (drive_next-OpenBefore v i t o h)))

  all_readings : (rows : List (Row F)) → Says (reading_at none rows) 0 none rows
  all_readings rows = Says_lem (reading_at none rows) 0 none rows λ k. rw zero-add

  -- The drives follow one another within the rows. Each begins with a row that moves, by the
  -- signal or by the fallback, goes on without a stop, and ends with the stop or with a row that
  -- moves. Every row that moves is in one of them.
  pub drive_bounds-drives :
      (rows : List (Row F))
      → Follow 0 (drive_bounds 0 none none rows) (length rows)
        × All (IsDrive (reading_at none rows)) (drive_bounds 0 none none rows)
        × ((j : ℕ)
            → j < length rows
            → is_active (reading_at none rows j) ≡ true
            → Holds (drive_bounds 0 none none rows) j)
  drive_bounds-drives rows = (
    subst (λ n. Follow 0 (drive_bounds 0 none none rows) n) (omega arith)
        (drive_bounds-Follow 0 none none rows tt),
    drive_bounds-IsDrive (reading_at none rows) 0 none none rows (all_readings rows) tt,
    λ j lt e.
        drive_bounds-Holds (reading_at none rows) 0 none none rows j (all_readings rows) tt
          (omega arith) (omega arith) e,
  )
