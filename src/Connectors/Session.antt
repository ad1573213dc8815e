-- ===== src/Connectors/Session.antt =====
-- backend/app/connectors/runtime.py: `MqttConnectorSession`, its buffer and what it writes. `mono` is
-- a reading of the monotonic clock in microseconds, `now` one of `utcnow`, made once in a call.
-- `decimal` writes a number. The loop of `run` with its client is not modelled: it calls
-- `handle_message`, `flush`, `flush_status` and `write_status` in some order.
pub mod Messages
pub mod Flush
pub mod Kept
pub mod Buffer
pub mod Heard
pub mod Carried
pub mod Delivery
pub mod Calls
mod Tests
use Prim.Native.Char.{code}
use Prim.Native.String.{◌++◌ as append_text}
use carhibou.Prelude.{
  ℕ, ◌+◌, ◌-◌, Bool, true, false, ◌&&◌, ◌||◌, not, Option, none, some, is_some, String, List, [],
  ◌∷◌, map, length, ltb, leb, eqb, last_or, or_else, if◌then◌else◌,
}
use carhibou.Prelude.Equality.{◌==◌, Dict, get, insert, string_eq}
use carhibou.Prelude.Float.{Float}
use carhibou.Prelude.Math.{Math, Texts}
use carhibou.Prelude.Text.{Characters, any_char, after_prefix}
use carhibou.Prelude.Time.{Instant, seconds}
use carhibou.Jobs.Worker.{take_text}
use carhibou.Telemetry.Values.{Value, null, bool, int, float, text}
use carhibou.Telemetry.Values.Coercion.{Parsing, NumericRange, in_range, position_ranges}
use carhibou.Telemetry.Resolution.{mqtt, direct}
use carhibou.Telemetry.Store.{Position}
use carhibou.Telemetry.Candidates.{Agent, Observation, PositionObservation, TelemetrySample}
use carhibou.Telemetry.Contacts.{touch_source_contact}
use carhibou.Telemetry.State.{Db, text_before}
use carhibou.Telemetry.Ingest.{IngestionResult, Ingestion, ingested, retired_source, ingest_batch}
use carhibou.Profiles.{MappingProfileDefinition}
use carhibou.Profiles.Mapping.{MappedValue, merge, map_message, valid_metric_key}
use carhibou.Sources.{Source}
use carhibou.Connectors.{Connector, ConnectorStatus}

-- What a session reads of its `ConnectorDefinition`. `car_id` is written in decimal.
pub record SessionDefinition (F : Type 0) : Type 0 where
  pub id : String
  pub namespace : String
  pub car_id : String
  pub sample_seconds : ℕ
  pub mapping_profile : MappingProfileDefinition F

pub record SessionState (F : Type 0) : Type 0 where
  pub boot_id : String
  pub sequence : ℕ
  pub metrics : Dict String (Value F)
  pub metric_observed_at : Dict String Instant
  pub position : Dict String F
  pub position_observed_at : Option Instant
  pub window_started : Option ℕ
  pub last_status_write : Option ℕ
  pub mapping_errors : ℕ
  pub pending_message : Bool
  pub pending_error : Option String

-- The tables that a session reads and writes.
pub record Store (C F : Type 0) : Type 0 where
  pub connectors : Dict String (Connector C)
  pub agents : Dict String Source
  pub telemetry : Db F

-- The arguments of `_write_status`.
pub record StatusWrite : Type 0 where
  pub status : Option ConnectorStatus
  pub error : Option String
  pub is_connected : Bool
  pub message : Bool
  pub force : Bool

-- `topic_prefix`
abbrev pub topic_prefix : {F : Type 0} → SessionDefinition F → String
topic_prefix d = append_text "teslamate/" (
    append_text (if d.namespace == "" then "" else append_text d.namespace "/")
      (append_text "cars/" (append_text d.car_id "/")))

abbrev is_connected_status : Option ConnectorStatus → Bool
is_connected_status (some ConnectorStatus.connected) = true
is_connected_status _ = false

abbrev or_stay : {A : Type 0} → Option A → A → A
or_stay none a = a
or_stay (some b) a = b

abbrev clipped : Option String → Option String
clipped none = none
clipped (some e) = some (take_text 4000 e)

abbrev stamped : Bool → Instant → Option Instant → Option Instant
stamped true now old = some now
stamped false now old = old

abbrev seen : Instant → String → Option Source → Dict String Source → Dict String Source
seen now id none agents = agents
seen now id (some agent) agents = insert id (record agent { last_seen_at = some now }) agents

-- `now_mono - self._last_status_write < STATUS_WRITE_SECONDS`, where the first write is due at once.
abbrev pub too_soon : ℕ → Option ℕ → Bool
too_soon mono none = false
too_soon mono (some last) = ltb (mono - last) (seconds 3)

abbrev noted_row : {C : Type 0} → StatusWrite → Instant → Connector C → Connector C
noted_row w now connector = record connector {
  status = or_stay w.status connector.status;
  last_error = or_stay (clipped w.error) connector.last_error;
  last_connected_at = stamped w.is_connected now connector.last_connected_at;
  last_message_at = stamped w.message now connector.last_message_at;
}

abbrev disabled_row : {C : Type 0} → Connector C → Connector C
disabled_row connector = record connector { status = ConnectorStatus.disabled; last_error = "" }

abbrev same_reading : Option ℕ → Option ℕ → Bool
same_reading none none = true
same_reading (some a) (some b) = eqb a b
same_reading _ _ = false

abbrev pending_write : {F : Type 0} → Bool → SessionState F → StatusWrite
pending_write force s = record {
  status = none;
  error = s.pending_error;
  is_connected = false;
  message = s.pending_message;
  force = force;
}

module _ {C F : Type 0} where
  abbrev touched : String → Instant → Store C F → Store C F
  touched id now store = record store {
    agents = seen now id (get id store.agents) store.agents;
    telemetry = record store.telemetry {
      contact_periods = touch_source_contact store.telemetry.contact_periods id now 15;
    };
  }

  -- The transaction of `_write_status`, and whether it writes.
  abbrev write_row :
      String → StatusWrite → Instant → Option (Connector C) → Store C F → Bool × Store C F
  write_row id w now none store = (false, store)
  write_row id w now (some connector) store =
      let noted = record store {
        connectors = insert id (noted_row w now connector) store.connectors;
      } in
      if not connector.enabled
      then (true, record store { connectors = insert id (disabled_row connector) store.connectors })
      else if is_connected_status w.status || (w.is_connected || w.message)
      then (true, touched id now noted)
      else (true, noted)

  abbrev written : ℕ → SessionState F → Bool × Store C F → SessionState F × Store C F
  written mono s (true, store) = (record s { last_status_write = some mono }, store)
  written mono s (false, store) = (s, store)

  -- `_write_status`
  pub write_status :
      SessionDefinition F
      → StatusWrite
      → ℕ
      → Instant
      → SessionState F × Store C F
      → SessionState F × Store C F
  write_status d w mono now (s, store) =
      if not w.force && too_soon mono s.last_status_write
      then (s, store)
      else written mono s (write_row d.id w now (get d.id store.connectors) store)

  abbrev acknowledge : Option ℕ → SessionState F × Store C F → SessionState F × Store C F
  acknowledge before (s, store) =
      if same_reading s.last_status_write before
      then (s, store)
      else (record s { pending_message = false; pending_error = none }, store)

  -- `flush_status`
  pub flush_status :
      SessionDefinition F
      → Bool
      → ℕ
      → Instant
      → SessionState F × Store C F
      → SessionState F × Store C F
  flush_status d force mono now (s, store) =
      if not s.pending_message && not (is_some s.pending_error)
      then (s, store)
      else acknowledge s.last_status_write
          (write_status d (pending_write force s) mono now (s, store))

-- The state that `__init__` gives a session.
abbrev pub new_session : {F : Type 0} → String → SessionState F
new_session boot_id = record {
  boot_id = boot_id;
  sequence = 0;
  metrics = [];
  metric_observed_at = [];
  position = [];
  position_observed_at = none;
  window_started = none;
  last_status_write = none;
  mapping_errors = 0;
  pending_message = false;
  pending_error = none;
}
