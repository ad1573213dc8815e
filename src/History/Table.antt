-- ===== src/History/Table.antt =====
-- backend/app/history/reconstruction.py: `table_rows`, over the state of the candidates at the
-- start and the events of the range, which the source reads from the tables. A quotient of
-- durations that the source takes in floats is taken exactly.
pub mod Buckets
pub mod Tiling
pub mod Reports
pub mod Size
pub mod Replayed
mod Tests
use carhibou.Prelude.{
  ℕ, zero, suc, ◌+◌, ◌-◌, ◌*◌, ◌/◌, min, max, Bool, true, false, ◌&&◌, Option, none, some, String,
  List, [], ◌∷◌, ltb, eqb, if◌then◌else◌,
}
use carhibou.Prelude.Float.{Float}
use carhibou.Prelude.Time.{Instant, Duration}
use carhibou.History.Reconstruction.{metric_expiry, position_expiry}
use carhibou.History.Events.{CandidateState, TimedEvent, Snapshot, consume, resolved_state}

pub record TableRow (F : Type 0) : Type 0 where
  pub bucket_start : Instant
  pub bucket_end : Instant
  pub collapsed_buckets : ℕ
  pub reports : ℕ
  pub snapshot : Snapshot F

-- The range of a table: `step_seconds` of the source as a duration.
pub record Range : Type 0 where
  pub start : Instant
  pub end : Instant
  pub step : Duration

-- `max(1, ceil((end - start) / step))`
abbrev pub bucket_count : Range → ℕ
bucket_count r = max 1 ((r.end - r.start + (r.step - 1)) / r.step)

-- `min(bucket_count - 1, max(0, floor((t - start) / step)))`
abbrev pub bucket_of : Range → Instant → ℕ
bucket_of r t = min (bucket_count r - 1) ((t - r.start) / r.step)

-- A set of indices as its sorted list.
pub add_index : ℕ → List ℕ → List ℕ
add_index i [] = i ∷ []
add_index i (j ∷ js) =
    if ltb i j then i ∷ j ∷ js else (if eqb i j then j ∷ js else j ∷ add_index i js)

abbrev pub add_expiry : Range → Option Instant → List ℕ → List ℕ
add_expiry r none indices = indices
add_expiry r (some expiry) indices =
    if ltb r.start expiry && ltb expiry r.end
    then add_index (bucket_of r expiry) indices
    else indices

module _ {F : Type 0} where
  -- `_expiry` of `event.metric or event.position`.
  abbrev pub event_expiry : TimedEvent F → Option Instant
  event_expiry e = elim e.metric [
    | some c ↦ some (metric_expiry c)
    | none ↦ elim e.position [ some p ↦ some (position_expiry p) | none ↦ none ]
  ]

  -- The loop that fills `relevant`.
  pub relevant : Range → List (TimedEvent F) → List ℕ → List ℕ
  relevant r [] indices = indices
  relevant r (e ∷ events) indices =
      relevant r events
        (add_expiry r (event_expiry e) (add_index (bucket_of r e.observed_at) indices))

  -- `ordered`
  pub ordered : Range → List (TimedEvent F) → List ℕ
  ordered r events = relevant r events (add_index (bucket_count r - 1) (0 ∷ []))

-- `min(end, start + step * index)`
abbrev pub edge : Range → ℕ → Instant
edge r index = min r.end (r.start + r.step * index)

-- `ordered[offset + 1]`, or `bucket_count` after the last.
abbrev pub next_index : Range → List ℕ → ℕ
next_index r [] = bucket_count r
next_index r (i ∷ indices) = i

module _ {F : Type 0} ⦃ops : Float F⦄ (same : Snapshot F → Snapshot F → Bool) where
  -- The row of a span, which goes into the last row if that shows the same.
  abbrev pub add_row : TableRow F → List (TableRow F) → List (TableRow F)
  add_row row [] = row ∷ []
  add_row row (last ∷ output) =
      if same last.snapshot row.snapshot
      then record last {
        bucket_end = row.bucket_end;
        collapsed_buckets = last.collapsed_buckets + row.collapsed_buckets;
        reports = last.reports + row.reports;
      }
        ∷ output
      else row ∷ last ∷ output

  abbrev pub span_row : Range → ℕ → ℕ → CandidateState F → ℕ → TableRow F
  span_row r index next s reports = record {
    bucket_start = r.start + r.step * index;
    bucket_end = edge r next;
    collapsed_buckets = next - index;
    reports = reports;
    snapshot = resolved_state s (edge r (index + 1));
  }

  -- The loop over `ordered`, with the last row of `output` first.
  pub add_rows :
      Range
      → List ℕ
      → CandidateState F
      → List (TimedEvent F)
      → List (TableRow F)
      → List (TableRow F)
  add_rows r [] s events output = output
  add_rows r (index ∷ indices) s events output =
      let (s', reports, rest) = consume (edge r (index + 1)) events s 0 in
      add_rows r indices s' rest
        (add_row (span_row r index (next_index r indices) s' reports) output)

  -- `table_rows`, newest first. `same` is the equality of two dictionaries of readings.
  pub table_rows : Range → CandidateState F → List (TimedEvent F) → List (TableRow F)
  table_rows r s events = add_rows r (ordered r events) s events []
