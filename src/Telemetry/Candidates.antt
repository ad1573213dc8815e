-- ===== src/Telemetry/Candidates.antt =====
-- backend/app/telemetry/services.py: `_accepted_observations`, `_telemetry_model`,
-- `_apply_metric_candidate` and `_apply_position_candidate`, over the table that each writes.
pub mod Latest
use carhibou.Prelude.{
  ℕ, Bool, true, false, Option, none, some, String, List, [], ◌∷◌, leb, if◌then◌else◌,
}
use carhibou.Prelude.Equality.{Dict, get, insert}
use carhibou.Prelude.Float.{Float}
use carhibou.Prelude.Time.{Instant}
use carhibou.Telemetry.Values.{Value, null, float}
use carhibou.Telemetry.Registry.{normalize_value}
use carhibou.Telemetry.Resolution.{Channel, gnss, Method}
use carhibou.Telemetry.Store.{
  Position, Telemetry, MetricIdentity, PositionIdentity, CandidateRow, metric_eq, position_eq,
}

-- backend/app/telemetry/schemas.py: what an agent sends.
pub record Observation (F : Type 0) : Type 0 where
  pub key : String
  pub value : Value F
  pub observed_at : Instant
  pub channel : Channel
  pub method : Method

pub record PositionObservation (F : Type 0) : Type 0 where
  pub value : Position F
  pub observed_at : Instant
  pub channel : Channel
  pub method : Method

pub record TelemetrySample (F : Type 0) : Type 0 where
  pub id : String
  pub sequence : ℕ
  pub recorded_at : Instant
  pub position : Option (PositionObservation F)
  pub observations : List (Observation F)
  pub agent : Dict String (Value F)
  pub reporting_interval : Option ℕ
  pub event_driven : Bool

pub record TelemetryBatch (F : Type 0) : Type 0 where
  pub boot_id : String
  pub samples : List (TelemetrySample F)

-- backend/app/agents/models.py: the columns of an agent that ingestion reads and writes.
pub record Agent : Type 0 where
  pub id : String
  pub vehicle_id : String
  pub retired_at : Option Instant
  pub last_seen_at : Option Instant

module _ {F : Type 0} ⦃ops : Float F⦄ where
  abbrev accept : Observation F → Bool × Value F → List (Observation F) → List (Observation F)
  accept o (true, value) accepted = record o { value = value } ∷ accepted
  accept o (false, value) accepted = accepted

  -- `_accepted_observations`
  pub accepted_observations : List (Observation F) → List (Observation F)
  accepted_observations [] = []
  accepted_observations (o ∷ os) =
      accept o (normalize_value o.key o.value) (accepted_observations os)

module _ {F : Type 0} where
  -- `_telemetry_model`
  unfoldable pub telemetry_model : Agent → String → TelemetrySample F → Telemetry F
  telemetry_model agent boot_id sample = record {
    id = sample.id;
    vehicle_id = agent.vehicle_id;
    agent_id = agent.id;
    boot_id = boot_id;
    sequence = sample.sequence;
    recorded_at = sample.recorded_at;
    reporting_interval = sample.reporting_interval;
    event_driven = sample.event_driven;
    agent_data = sample.agent;
  }

abbrev pub MetricCandidates : Type 0 → Type 0
MetricCandidates F = Dict MetricIdentity (CandidateRow (Value F))

abbrev pub PositionCandidates : Type 0 → Type 0
PositionCandidates F = Dict PositionIdentity (CandidateRow (Position F))

-- `row and row.observed_at >= observed_at`
abbrev pub holds_newer : {V : Type 0} → Option (CandidateRow V) → Instant → Bool
holds_newer none observed_at = false
holds_newer (some row) observed_at = leb observed_at row.observed_at

module _ {F : Type 0} where
  abbrev pub metric_identity : Telemetry F → Observation F → MetricIdentity
  metric_identity t o = record {
    vehicle_id = t.vehicle_id;
    source_id = t.agent_id;
    channel = o.channel;
    metric_key = o.key;
  }

  abbrev pub metric_row : Telemetry F → Observation F → CandidateRow (Value F)
  metric_row t o = record {
    value = o.value;
    observed_at = o.observed_at;
    method = o.method;
    reporting_interval = t.reporting_interval;
    event_driven = t.event_driven;
    telemetry_id = t.id;
  }

  -- `_apply_metric_candidate`
  unfoldable pub apply_metric_candidate :
      Telemetry F → Observation F → MetricCandidates F → MetricCandidates F
  apply_metric_candidate t o rows =
      if holds_newer (get (metric_identity t o) rows) o.observed_at
      then rows
      else insert (metric_identity t o) (metric_row t o) rows

  -- The calls of `_apply_metric_candidate` for the observations of a sample.
  unfoldable pub apply_observations :
      Telemetry F → List (Observation F) → MetricCandidates F → MetricCandidates F
  apply_observations t [] rows = rows
  apply_observations t (o ∷ os) rows = apply_observations t os (apply_metric_candidate t o rows)

  abbrev pub position_identity : Telemetry F → PositionObservation F → PositionIdentity
  position_identity t p = record {
    vehicle_id = t.vehicle_id;
    source_id = t.agent_id;
    channel = p.channel;
  }

  abbrev pub position_row : Telemetry F → PositionObservation F → CandidateRow (Position F)
  position_row t p = record {
    value = p.value;
    observed_at = p.observed_at;
    method = p.method;
    reporting_interval = t.reporting_interval;
    event_driven = t.event_driven;
    telemetry_id = t.id;
  }

  abbrev value_of : Option F → Value F
  value_of none = null
  value_of (some x) = float x

  -- The speed that a position carries, as an observation of its own.
  abbrev pub position_speed : PositionObservation F → Observation F
  position_speed p = record {
    key = "vehicle.speed";
    value = value_of p.value.speed;
    observed_at = p.observed_at;
    channel = gnss;
    method = p.method;
  }

  -- `_apply_position_candidate`, for the tables of positions and of metrics.
  pub apply_position_candidate :
      Telemetry F
      → Option (PositionObservation F)
      → PositionCandidates F × MetricCandidates F
      → PositionCandidates F × MetricCandidates F
  apply_position_candidate t none tables = tables
  apply_position_candidate t (some p) (positions, metrics) = (
    if holds_newer (get (position_identity t p) positions) p.observed_at
        then positions
        else insert (position_identity t p) (position_row t p) positions,
    apply_metric_candidate t (position_speed p) metrics,
  )
