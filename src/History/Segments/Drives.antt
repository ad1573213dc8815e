-- ===== src/History/Segments/Drives.antt =====
-- backend/app/history/segments.py: `_drive_groups`.
pub mod Laws
pub mod Cover
use carhibou.Prelude.{
  ℕ, ◌+◌, Bool, true, false, ◌&&◌, ◌||◌, not, Option, none, some, String, List, [], ◌∷◌, ◌++◌, map,
  leb, if◌then◌else◌,
}
use carhibou.Prelude.Float.{Float}
use carhibou.Prelude.Math.{Math, Texts}
use carhibou.Prelude.Time.{Instant}
use carhibou.History.Segments.{Row, Bounds, slice}
use carhibou.History.Segments.Motion.{join_gap, drive_signal, drive_evidence}

-- An open drive: `start` and `last_evidence`, which are set and reset together, the time of
-- `rows[last_evidence]`, and `signal_bounded`, which is false while no drive is open.
pub record Drive : Type 0 where
  pub start : ℕ
  pub last_evidence : ℕ
  pub last_recorded_at : Instant
  pub signal_bounded : Bool

-- What a row says: a stop, the motion of a signal or of a fallback, or nothing.
pub data Reading : Type 0 where
  stopped driving moving idle : Reading

abbrev pub reading_of : Option Bool → Bool → Reading
reading_of (some false) evidence = stopped
reading_of (some true) evidence = driving
reading_of none true = moving
reading_of none false = idle

abbrev pub is_true_signal : Reading → Bool
is_true_signal driving = true
is_true_signal _ = false

-- `gap >= JOIN_GAP` of a drive that no signal bounds.
abbrev pub splits : Instant → Drive → Bool
splits recorded_at d = not d.signal_bounded && leb (d.last_recorded_at + join_gap) recorded_at

abbrev pub opened : ℕ → Instant → Reading → Bool → Drive
opened index recorded_at r bounded = record {
  start = index;
  last_evidence = index;
  last_recorded_at = recorded_at;
  signal_bounded = bounded || is_true_signal r;
}

abbrev pub continued : ℕ → Instant → Reading → Drive → Drive
continued index recorded_at r d = record {
  start = d.start;
  last_evidence = index;
  last_recorded_at = recorded_at;
  signal_bounded = d.signal_bounded || is_true_signal r;
}

-- A row with motion.
abbrev pub active_closed : Instant → Option Drive → List Bounds
active_closed recorded_at none = []
active_closed recorded_at (some d) =
    if splits recorded_at d then (d.start, d.last_evidence + 1) ∷ [] else []

abbrev pub active_next : ℕ → Instant → Reading → Option Drive → Option Drive
active_next index recorded_at r none = some (opened index recorded_at r false)
active_next index recorded_at r (some d) =
    if splits recorded_at d
    then some (opened index recorded_at r d.signal_bounded)
    else some (continued index recorded_at r d)

-- A row with a false signal.
abbrev pub stop_closed : ℕ → Option Drive → List Bounds
stop_closed index none = []
stop_closed index (some d) =
    (d.start, (if d.signal_bounded then index else d.last_evidence) + 1) ∷ []

-- One round of the loop: the groups that it closes, and the state after it.
abbrev pub drive_closed : Reading → ℕ → Instant → Option Drive → List Bounds
drive_closed stopped index recorded_at state = stop_closed index state
drive_closed driving index recorded_at state = active_closed recorded_at state
drive_closed moving index recorded_at state = active_closed recorded_at state
drive_closed idle index recorded_at state = []

abbrev pub drive_next : Reading → ℕ → Instant → Option Drive → Option Drive
drive_next stopped index recorded_at state = none
drive_next driving index recorded_at state = active_next index recorded_at driving state
drive_next moving index recorded_at state = active_next index recorded_at moving state
drive_next idle index recorded_at state = state

-- What follows the loop.
abbrev pub drive_end : Option Drive → List Bounds
drive_end none = []
drive_end (some d) = (d.start, d.last_evidence + 1) ∷ []

module _ {F : Type 0} ⦃ops : Float F⦄ ⦃fs : Math F⦄ ⦃texts : Texts String⦄ where
  unfoldable pub row_reading : Row F → Option (Row F) → Reading
  row_reading row previous = reading_of (drive_signal row) (drive_evidence row previous)

  -- The loop of `_drive_groups`, from an index and the row before it on.
  unfoldable pub drive_bounds : ℕ → Option (Row F) → Option Drive → List (Row F) → List Bounds
  drive_bounds index previous state [] = drive_end state
  drive_bounds index previous state (row ∷ rows) =
      let r = row_reading row previous in
      drive_closed r index row.recorded_at state
      ++ drive_bounds (index + 1) (some row) (drive_next r index row.recorded_at state) rows

  -- `_drive_groups`
  abbrev pub drive_groups : List (Row F) → List (List (Row F))
  drive_groups rows = map (slice rows) (drive_bounds 0 none none rows)
