-- ===== src/Telemetry/Store.antt =====
-- backend/app/telemetry/models.py, with vehicle_state/models.py, hooks/models.py and jobs/models.py
-- as far as ingestion writes them: the rows of the tables. Tables keep their rows in order of
-- insertion; a table with a natural primary key is a dictionary over that key.
use carhibou.Prelude.{ℕ, ◌≡◌, ◌↔◌, Bool, true, false, ◌&&◌, Option, String, List, arith}
use carhibou.Prelude.Equality.{Dict, Eq, ◌==◌, string_eq}
use carhibou.Prelude.Time.{Instant}
use carhibou.Telemetry.Values.{Value}
use carhibou.Telemetry.Resolution.{Channel, can, obd, gnss, mqtt, Method, Reading}
use carhibou.Telemetry.Resolution.Position.{PositionReading}

-- `Position.model_dump()`
pub record Position (F : Type 0) : Type 0 where
  pub latitude : F
  pub longitude : F
  pub altitude : Option F
  pub speed : Option F
  pub heading : Option F
  pub accuracy : Option F

pub record Telemetry (F : Type 0) : Type 0 where
  pub id : String
  pub vehicle_id : String
  pub agent_id : String
  pub boot_id : String
  pub sequence : ℕ
  pub recorded_at : Instant
  pub reporting_interval : Option ℕ
  pub event_driven : Bool
  pub agent_data : Dict String (Value F)

pub record TelemetryObservation (F : Type 0) : Type 0 where
  pub telemetry_id : String
  pub vehicle_id : String
  pub source_id : String
  pub metric_key : String
  pub value : Value F
  pub observed_at : Instant
  pub channel : Channel
  pub method : Method

pub record TelemetryPositionObservation (F : Type 0) : Type 0 where
  pub telemetry_id : String
  pub vehicle_id : String
  pub source_id : String
  pub value : Position F
  pub observed_at : Instant
  pub channel : Channel
  pub method : Method

-- The primary keys of the two tables of candidates.
pub record MetricIdentity : Type 0 where
  pub vehicle_id : String
  pub source_id : String
  pub channel : Channel
  pub metric_key : String

pub record PositionIdentity : Type 0 where
  pub vehicle_id : String
  pub source_id : String
  pub channel : Channel

pub record CandidateRow (V : Type 0) : Type 0 where
  pub value : V
  pub observed_at : Instant
  pub method : Method
  pub reporting_interval : Option ℕ
  pub event_driven : Bool
  pub telemetry_id : String

abbrev pub same_channel : Channel → Channel → Bool
same_channel can can = true
same_channel obd obd = true
same_channel gnss gnss = true
same_channel mqtt mqtt = true
same_channel Channel.derived Channel.derived = true
same_channel _ _ = false

pub same_channel_iff : (a b : Channel) → (same_channel a b ≡ true) ↔ (a ≡ b)
same_channel_iff a b = ground arith

abbrev same_metric : MetricIdentity → MetricIdentity → Bool
same_metric a b =
    a.vehicle_id == b.vehicle_id
    && (a.source_id == b.source_id
        && (same_channel a.channel b.channel && a.metric_key == b.metric_key))

pub same_metric_iff : (a b : MetricIdentity) → (same_metric a b ≡ true) ↔ (a ≡ b)
same_metric_iff a b = ground (
  arith,
  string_eq.same_iff a.vehicle_id b.vehicle_id,
  string_eq.same_iff a.source_id b.source_id,
  same_channel_iff a.channel b.channel,
  string_eq.same_iff a.metric_key b.metric_key,
)

abbrev same_position : PositionIdentity → PositionIdentity → Bool
same_position a b =
    a.vehicle_id == b.vehicle_id && (a.source_id == b.source_id && same_channel a.channel b.channel)

pub same_position_iff : (a b : PositionIdentity) → (same_position a b ≡ true) ↔ (a ≡ b)
same_position_iff a b = ground (
  arith,
  string_eq.same_iff a.vehicle_id b.vehicle_id,
  string_eq.same_iff a.source_id b.source_id,
  same_channel_iff a.channel b.channel,
)

instance abbrev pub metric_eq : Eq MetricIdentity
metric_eq = record { same = same_metric; same_iff = same_metric_iff }

instance abbrev pub position_eq : Eq PositionIdentity
position_eq = record { same = same_position; same_iff = same_position_iff }

pub record VehicleState (F : Type 0) : Type 0 where
  pub telemetry_id : String
  pub updated_at : Instant
  pub readings : Dict String (Reading F)
  pub position : Option (PositionReading (Position F))
  pub agent_state : Dict String (Value F)

pub record Hook : Type 0 where
  pub id : String
  pub enabled : Bool
  pub trigger_type : String
  pub vehicle_id : Option String

-- A generated key is the number of the rows before it.
pub record Trigger : Type 0 where
  pub id : ℕ
  pub occurred_at : Instant
  pub vehicle_id : String
  pub agent_id : String
  pub telemetry_id : String
  pub telemetry_ids : List String
  pub boot_id : String

pub record HookExecution : Type 0 where
  pub id : ℕ
  pub hook_id : String
  pub trigger_id : ℕ
  pub telemetry_id : String

-- A pending job of type `hook.execute`.
pub record HookJob : Type 0 where
  pub execution_id : ℕ

pub record HookTables : Type 0 where
  pub triggers : List Trigger
  pub executions : List HookExecution
  pub jobs : List HookJob
