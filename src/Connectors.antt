-- ===== src/Connectors.antt =====
-- backend/app/connectors/models.py and services.py: the rows of connectors, and the operations on a
-- connector and on the source through which it reports, which has the same id. The stored
-- configuration of a connector is a type `C`, of which `update_connector` reads `sample_seconds`.
-- The encrypted password is left out, as is `connector_response`, which masks it, and the telemetry
-- that the database removes with a purged source.
pub mod Supervisor
pub mod Assigned
pub mod Lifecycle
pub mod Retirement
mod Tests
pub mod Session
use carhibou.Prelude.{
  ℕ, ◌+◌, Bool, true, false, not, Option, none, some, is_some, String, List, [], ◌∷◌, filter, map,
  if◌then◌else◌,
}
use carhibou.Prelude.Equality.{◌==◌, Dict, get, insert, remove, string_eq}
use carhibou.Prelude.Time.{Instant}
use carhibou.Sources.{Source, retire_agent}

pub data ConnectorStatus : Type 0 where
  disabled : ConnectorStatus
  connecting : ConnectorStatus
  connected : ConnectorStatus
  error : ConnectorStatus

-- `Connector`
pub record Connector (C : Type 0) : Type 0 where
  pub id : String
  pub vehicle_id : String
  pub name : String
  pub kind : String
  pub mapping_profile : String
  pub enabled : Bool
  pub config : C
  pub config_version : ℕ
  pub status : ConnectorStatus
  pub last_connected_at : Option Instant
  pub last_message_at : Option Instant
  pub last_sample_at : Option Instant
  pub last_error : String

-- The two tables, by id.
pub record Tables (C : Type 0) : Type 0 where
  pub connectors : Dict String (Connector C)
  pub agents : Dict String Source

pub record ConnectorUpdate (C : Type 0) : Type 0 where
  pub name : String
  pub enabled : Bool
  pub mapping_profile : String
  pub config : C

pub record ConnectorCreate (C : Type 0) : Type 0 where
  pub kind : String
  pub name : String
  pub mapping_profile : String
  pub config : C

-- What an operation ends in: a `ValueError`, a `RuntimeError`, or the tables.
pub data Change (A : Type 0) : Type 0 where
  value_error : String → Change A
  runtime_error : String → Change A
  changed : A → Change A

abbrev pub is_retired_source : Option Source → Bool
is_retired_source none = false
is_retired_source (some agent) = is_some agent.retired_at

abbrev paced : String → ℕ → Source → Source
paced name cadence agent = record agent {
  name = name;
  config_version = agent.config_version + 1;
  sampling_seconds = cadence;
  upload_seconds = cadence;
  parked_sampling_seconds = cadence;
  parked_upload_seconds = cadence;
}

abbrev retire_source : Instant → String → Option Source → Dict String Source → Dict String Source
retire_source now id none agents = agents
retire_source now id (some agent) agents = insert id (retire_agent now agent) agents

abbrev shadow_source : String → String → String → String → String → ℕ → Source
shadow_source id vehicle_id name credential_hash version cadence = record {
  id = id;
  vehicle_id = vehicle_id;
  name = name;
  credential_hash = credential_hash;
  credential_version = 1;
  implementation_id = "connector.teslamate.mqtt";
  protocol_version = 2;
  agent_version = version;
  hostname = none;
  vehicle_profile = none;
  last_seen_at = none;
  config_version = 1;
  sampling_seconds = cadence;
  upload_seconds = cadence;
  parked_sampling_seconds = cadence;
  parked_upload_seconds = cadence;
  revoked_at = none;
  retired_at = none;
}

module _ {C : Type 0} where
  -- `connector_is_retired`, by the id that the connector shares with its source.
  abbrev pub connector_is_retired : Tables C → String → Bool
  connector_is_retired db id = is_retired_source (get id db.agents)

  abbrev edited : ConnectorUpdate C → Connector C → Connector C
  edited form connector = record connector {
    name = form.name;
    enabled = form.enabled;
    mapping_profile = form.mapping_profile;
    config = form.config;
    config_version = connector.config_version + 1;
    status = if form.enabled then ConnectorStatus.connecting else ConnectorStatus.disabled;
    last_error = "";
  }

  -- The source of `update_connector`; an exception undoes what was written before it.
  abbrev update_source : String → String → ℕ → Option Source → Tables C → Change (Tables C)
  update_source id name cadence none db = runtime_error "connector shadow agent is missing"
  update_source id name cadence (some agent) db =
      changed (record db { agents = insert id (paced name cadence agent) db.agents })

  -- `update_connector`
  unfoldable pub update_connector :
      (String → Bool) → (C → ℕ) → Connector C → ConnectorUpdate C → Tables C → Change (Tables C)
  update_connector available sample_seconds connector form db =
      if connector_is_retired db connector.id
      then value_error "retired connector cannot be changed"
      else if not (available form.mapping_profile)
      then value_error "mapping profile is not available"
      else update_source connector.id form.name (sample_seconds form.config)
          (get connector.id db.agents)
          (record db { connectors = insert connector.id (edited form connector) db.connectors })

  abbrev turn_off : Connector C → Connector C
  turn_off connector = record connector { enabled = false; status = ConnectorStatus.disabled }

  -- `retire_connector`
  unfoldable pub retire_connector : Instant → Connector C → Tables C → Tables C
  retire_connector now connector db = record {
    connectors = insert connector.id (turn_off connector) db.connectors;
    agents = retire_source now connector.id (get connector.id db.agents) db.agents;
  }

  -- `purge_connector`
  unfoldable pub purge_connector : Connector C → Tables C → Tables C
  purge_connector connector db = record {
    connectors = remove connector.id db.connectors;
    agents = remove connector.id db.agents;
  }

  -- `create_connector`, of which `id` is the new key and `credential_hash` that of a new credential
  -- that nobody is told.
  abbrev new_connector : String → String → ConnectorCreate C → Connector C
  new_connector id vehicle_id form = record {
    id = id;
    vehicle_id = vehicle_id;
    name = form.name;
    kind = form.kind;
    mapping_profile = form.mapping_profile;
    enabled = true;
    config = form.config;
    config_version = 1;
    status = ConnectorStatus.connecting;
    last_connected_at = none;
    last_message_at = none;
    last_sample_at = none;
    last_error = "";
  }

  unfoldable pub create_connector :
      (String → Bool)
      → (C → ℕ)
      → String
      → String
      → String
      → String
      → ConnectorCreate C
      → Tables C
      → Change (Tables C)
  create_connector available sample_seconds version id credential_hash vehicle_id form db =
      let source =
        shadow_source id vehicle_id form.name credential_hash version
          (sample_seconds form.config) in
      if not (form.kind == "teslamate.mqtt")
      then value_error "connector kind is not available"
      else if not (available form.mapping_profile)
      then value_error "mapping profile is not available"
      else changed (record {
        connectors = insert id (new_connector id vehicle_id form) db.connectors;
        agents = insert id source db.agents;
      })
