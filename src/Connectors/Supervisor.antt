-- ===== src/Connectors/Supervisor.antt =====
-- backend/app/connectors/runtime.py: `ConnectorSupervisor`. The dictionary of sessions holds of a
-- session the definition that it runs; what `reconcile` does with the sessions themselves is the
-- list of its actions. `resolve` stands for the validation of a stored configuration, of its
-- mapping profile and of its password, and gives a definition or the text of an exception.
pub mod Reconciled
pub mod Rows
use Prim.Native.String.{◌++◌ as append_text}
use carhibou.Prelude.{
  ℕ, ◌+◌, Bool, true, false, ◌&&◌, not, Option, none, some, is_some, String, List, [], ◌∷◌, ◌++◌,
  eqb, filter, map, if◌then◌else◌,
}
use carhibou.Prelude.Equality.{◌==◌, Dict, get, insert, remove, string_eq}
use carhibou.Jobs.Worker.{take_text}
use carhibou.Sources.{Source}
use carhibou.Connectors.{
  Connector, ConnectorStatus, Tables, is_retired_source, connector_is_retired,
}

-- `ConnectorDefinition`, with the validated configuration, profile and password as one value.
pub record ConnectorDefinition (D : Type 0) : Type 0 where
  pub id : String
  pub config_version : ℕ
  pub detail : D

-- What `MqttConfig.model_validate`, `mapping_profile_definition` and `connector_password` end in.
pub data Resolved (D : Type 0) : Type 0 where
  invalid : String → Resolved D
  valid : D → Resolved D

-- What is done with a session: `stop` and `join`, or `start`.
pub data Action (D : Type 0) : Type 0 where
  stops : ConnectorDefinition D → Action D
  starts : ConnectorDefinition D → Action D

-- The rows of the query: enabled, and of no retired source.
abbrev pub is_running : {C : Type 0} → Tables C → Connector C → Bool
is_running db connector = connector.enabled && not (connector_is_retired db connector.id)

abbrev pub broken : {C : Type 0} → String → Connector C → Connector C
broken reason connector = record connector {
  status = ConnectorStatus.error;
  last_error = take_text 4000 (append_text "invalid stored connector configuration: " reason);
}

module _ {C D : Type 0} where
  abbrev pub definition_of : Connector C → D → ConnectorDefinition D
  definition_of connector detail = record {
    id = connector.id;
    config_version = connector.config_version;
    detail = detail;
  }

  -- One row of the loop of `_definitions`.
  abbrev define :
      Connector C
      → Resolved D
      → Dict String (ConnectorDefinition D)
      → Dict String (ConnectorDefinition D)
  define connector (invalid reason) definitions = definitions
  define connector (valid detail) definitions =
      insert connector.id (definition_of connector detail) definitions

  abbrev blame : Connector C → Resolved D → Connector C
  blame connector (invalid reason) = broken reason connector
  blame connector (valid detail) = connector

  abbrev visit :
      Bool
      → Connector C
      → Resolved D
      → Dict String (ConnectorDefinition D)
      → Dict String (ConnectorDefinition D)
  visit running connector r definitions =
      if running then define connector r definitions else definitions

  -- The definitions that `_definitions` gives.
  pub collect :
      (Connector C → Resolved D)
      → Tables C
      → Dict String (Connector C)
      → Dict String (ConnectorDefinition D)
      → Dict String (ConnectorDefinition D)
  collect resolve db [] definitions = definitions
  collect resolve db ((id, connector) ∷ rows) definitions =
      collect resolve db rows
        (visit (is_running db connector) connector (resolve connector) definitions)

  abbrev mark_row : (Connector C → Resolved D) → Tables C → Connector C → Connector C
  mark_row resolve db connector =
      if is_running db connector then blame connector (resolve connector) else connector

  -- `_definitions`: the definitions, and the rows with the errors of those that are not valid.
  abbrev pub definitions_of :
      (Connector C → Resolved D) → Tables C → Dict String (ConnectorDefinition D) × Tables C
  definitions_of resolve db = (
    collect resolve db db.connectors [],
    record db { connectors = map (λ row. (row.0, mark_row resolve db row.1)) db.connectors },
  )

-- The state of the supervisor, with what it has done so far.
pub record Sessions (D : Type 0) : Type 0 where
  pub running : Dict String (ConnectorDefinition D)
  pub actions : List (Action D)

module _ {D : Type 0} where
  -- `not definition or definition.config_version != session.definition.config_version`
  abbrev pub is_outdated : ConnectorDefinition D → Option (ConnectorDefinition D) → Bool
  is_outdated session none = true
  is_outdated session (some definition) = not (eqb definition.config_version session.config_version)

  abbrev drop_session :
      Dict String (ConnectorDefinition D) → String → ConnectorDefinition D → Sessions D → Sessions D
  drop_session definitions id session s =
      if is_outdated session (get id definitions)
      then record { running = remove id s.running; actions = s.actions ++ stops session ∷ [] }
      else s

  -- The first loop of `reconcile`, over a copy of the sessions.
  pub drop_sessions :
      Dict String (ConnectorDefinition D)
      → Dict String (ConnectorDefinition D)
      → Sessions D
      → Sessions D
  drop_sessions definitions [] s = s
  drop_sessions definitions ((id, session) ∷ sessions) s =
      drop_sessions definitions sessions (drop_session definitions id session s)

  abbrev start_session : String → ConnectorDefinition D → Sessions D → Sessions D
  start_session id definition s = if is_some (get id s.running) then s else record {
    running = insert id definition s.running;
    actions = s.actions ++ starts definition ∷ [];
  }

  -- The second loop of `reconcile`.
  pub start_sessions : Dict String (ConnectorDefinition D) → Sessions D → Sessions D
  start_sessions [] s = s
  start_sessions ((id, definition) ∷ definitions) s =
      start_sessions definitions (start_session id definition s)

  -- `reconcile` from the definitions on.
  unfoldable pub reconcile_with :
      Dict String (ConnectorDefinition D) → Dict String (ConnectorDefinition D) → Sessions D
  reconcile_with definitions sessions =
      start_sessions definitions
        (drop_sessions definitions sessions (record { running = sessions; actions = [] }))

module _ {C D : Type 0} where
  -- `reconcile`
  pub reconcile :
      (Connector C → Resolved D)
      → Tables C
      → Dict String (ConnectorDefinition D)
      → Sessions D × Tables C
  reconcile resolve db sessions =
      let (definitions, db) = definitions_of resolve db in (reconcile_with definitions sessions, db)
