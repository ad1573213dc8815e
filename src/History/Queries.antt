-- ===== src/History/Queries.antt =====
-- backend/app/history/reconstruction.py: `candidate_state_at` and `state_at_time`, with the queries
-- that they make. A window function ranks the rows of a partition: a row has the first rank where no
-- other row of its partition comes before it. The place of a row in its table stands for its key, in
-- the order that a tie of two instants falls back on; for positions, which the source leaves in any
-- order at a tie, the place decides too.
pub mod Ranks
pub mod Latest
pub mod Between
pub mod Shown
mod Tests
use carhibou.Prelude.{
  ℕ, ◌+◌, min, Bool, true, false, ◌&&◌, not, Option, none, some, String, List, [], ◌∷◌, map, filter,
  any, leb, if◌then◌else◌,
}
use carhibou.Prelude.Equality.{◌==◌, Dict, Eq, insert, contains, string_eq}
use carhibou.Prelude.Float.{Float}
use carhibou.Prelude.Maximum.{max_of, triple_lt}
use carhibou.Prelude.Time.{Instant}
use carhibou.Telemetry.Values.{Value}
use carhibou.Telemetry.Registry.{Liveness}
use carhibou.Telemetry.Resolution.{Candidate, SourceKind}
use carhibou.Telemetry.Resolution.Position.{PositionCandidateValue}
use carhibou.Telemetry.Contacts.{latest_contact_period, SourceContactPeriod}
use carhibou.Telemetry.Store.{
  Position, Telemetry, TelemetryObservation, TelemetryPositionObservation,
}
use carhibou.Telemetry.State.{Db, recorded_before}
use carhibou.History.Events.{
  SignalKey, FixKey, signal_eq, fix_eq, CandidateState, Snapshot, resolved_state,
}

-- A row with its place in its table.
pub record Placed (A : Type 0) : Type 0 where
  pub place : ℕ
  pub row : A

abbrev pub numbered : {A : Type 0} → ℕ → List A → List (Placed A)
numbered n [] = []
numbered n (a ∷ rows) = record { place = n; row = a } ∷ numbered (n + 1) rows

module _ {A K : Type 0} ⦃e : Eq K⦄ (partition : A → K) (time : A → Instant) where
  -- `ORDER BY observed_at DESC, id DESC`: whether the second row comes first.
  abbrev pub outranked : Placed A → Placed A → Bool
  outranked a b = triple_lt (time a.row, a.place, 0) (time b.row, b.place, 0)

  -- `rank == 1`
  abbrev pub is_first : List (Placed A) → Placed A → Bool
  is_first rows a = not (any (λ b. partition b.row == partition a.row && outranked a b) rows)

  abbrev pub first_rows : List (Placed A) → List (Placed A)
  first_rows rows = filter (is_first rows) rows

-- `{key: value for …}`
abbrev pub from_rows : {K V : Type 0} ⦃e : Eq K⦄ → Dict K V → Dict K V → Dict K V
from_rows [] d = d
from_rows ((k, v) ∷ rows) d = from_rows rows (insert k v d)

-- `_source_context` and `_contact`, for one source.
abbrev pub contact_at : Option SourceContactPeriod → Instant → Option Instant × Option ℕ
contact_at none at = (none, none)
contact_at (some p) at = (some (min p.last_contact_at at), some p.liveness_window_seconds)

module _ {F : Type 0} where
  abbrev pub liveness_at : Db F → Instant → String → Telemetry F → Liveness
  liveness_at db at source_id sample =
      let (last_contact, window) =
        contact_at (latest_contact_period db.contact_periods source_id (some at)) at in
      record {
        reporting_interval = sample.reporting_interval;
        event_driven = sample.event_driven;
        source_last_contact_at = last_contact;
        source_liveness_window_seconds = window;
      }

  -- `_kind`
  abbrev pub kind_of : Db F → String → SourceKind
  kind_of db source_id =
      if contains source_id db.connectors then SourceKind.connector else SourceKind.agent

  -- `_metric_candidate`
  abbrev pub metric_candidate_at :
      Db F → Instant → TelemetryObservation F → Telemetry F → Candidate F
  metric_candidate_at db at row sample = record {
    key = row.metric_key;
    value = row.value;
    observed_at = row.observed_at;
    source_id = row.source_id;
    source_kind = kind_of db row.source_id;
    channel = row.channel;
    method = row.method;
    source = liveness_at db at row.source_id sample;
  }

  -- `_position_candidate`
  abbrev pub position_candidate_at :
      Db F
      → Instant
      → TelemetryPositionObservation F
      → Telemetry F
      → PositionCandidateValue (Position F)
  position_candidate_at db at row sample = record {
    value = row.value;
    observed_at = row.observed_at;
    source_id = row.source_id;
    source_kind = kind_of db row.source_id;
    channel = row.channel;
    method = row.method;
    source = liveness_at db at row.source_id sample;
  }

  -- `join(Telemetry, Telemetry.id == row.telemetry_id)`, where `id` is unique.
  abbrev pub sample_with : String → List (Telemetry F) → Option (Telemetry F)
  sample_with id [] = none
  sample_with id (t ∷ ts) = if t.id == id then some t else sample_with id ts

  abbrev pub signal_of : TelemetryObservation F → SignalKey
  signal_of row = record { source_id = row.source_id; channel = row.channel; key = row.metric_key }

  abbrev pub fix_of : TelemetryPositionObservation F → FixKey
  fix_of row = record { source_id = row.source_id; channel = row.channel }

  -- The rows of `_latest_metric_rows` before they are ranked.
  abbrev pub metric_rows : Db F → String → Instant → List (Placed (TelemetryObservation F))
  metric_rows db vehicle_id at =
      filter (λ r. r.row.vehicle_id == vehicle_id && leb r.row.observed_at at)
        (numbered 0 db.observations)

  abbrev pub position_rows :
      Db F → String → Instant → List (Placed (TelemetryPositionObservation F))
  position_rows db vehicle_id at =
      filter (λ r. r.row.vehicle_id == vehicle_id && leb r.row.observed_at at)
        (numbered 0 db.position_observations)

  abbrev pub metric_pair :
      Db F
      → Instant
      → TelemetryObservation F
      → Option (Telemetry F)
      → Dict SignalKey (Candidate F)
      → Dict SignalKey (Candidate F)
  metric_pair db at row none pairs = pairs
  metric_pair db at row (some sample) pairs =
      (signal_of row, metric_candidate_at db at row sample) ∷ pairs

  abbrev pub metric_pairs :
      Db F → Instant → List (Placed (TelemetryObservation F)) → Dict SignalKey (Candidate F)
  metric_pairs db at [] = []
  metric_pairs db at (r ∷ rows) =
      metric_pair db at r.row (sample_with r.row.telemetry_id db.telemetry)
        (metric_pairs db at rows)

  abbrev pub position_pair :
      Db F
      → Instant
      → TelemetryPositionObservation F
      → Option (Telemetry F)
      → Dict FixKey (PositionCandidateValue (Position F))
      → Dict FixKey (PositionCandidateValue (Position F))
  position_pair db at row none pairs = pairs
  position_pair db at row (some sample) pairs =
      (fix_of row, position_candidate_at db at row sample) ∷ pairs

  abbrev pub position_pairs :
      Db F
      → Instant
      → List (Placed (TelemetryPositionObservation F))
      → Dict FixKey (PositionCandidateValue (Position F))
  position_pairs db at [] = []
  position_pairs db at (r ∷ rows) =
      position_pair db at r.row (sample_with r.row.telemetry_id db.telemetry)
        (position_pairs db at rows)

  abbrev pub agent_of : Option (Telemetry F) → Dict String (Value F)
  agent_of none = []
  agent_of (some t) = t.agent_data

  -- `candidate_state_at`
  unfoldable pub candidate_state_at : Db F → String → Instant → CandidateState F
  candidate_state_at db vehicle_id at = record {
    metrics =
        from_rows
          (metric_pairs db at
            (first_rows signal_of (λ r. r.observed_at) (metric_rows db vehicle_id at)))
          [];
    positions =
        from_rows
          (position_pairs db at
            (first_rows fix_of (λ r. r.observed_at) (position_rows db vehicle_id at)))
          [];
    agent = agent_of (
        max_of recorded_before
          (filter (λ t. t.vehicle_id == vehicle_id && leb t.recorded_at at) db.telemetry));
  }

module _ {F : Type 0} ⦃ops : Float F⦄ where
  -- `state_at_time`
  pub state_at_time : Db F → String → Instant → Snapshot F
  state_at_time db vehicle_id at = resolved_state (candidate_state_at db vehicle_id at) at
