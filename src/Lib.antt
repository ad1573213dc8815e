-- ===== src/Lib.antt =====
-- Carhibou collects telemetry of vehicles from several sources (agents in the vehicle, and
-- connectors that read other services), resolves one current state out of what they report, keeps
-- the history, and triggers hooks on new telemetry. This library models that core of the backend.
--
-- The parts, with the files of the repository and of the library:
-- - backend/app/telemetry/values.py is Telemetry.Values: `MetricValue` is `Value`, and the ranges and
--   coercions are Telemetry.Values.Coercion, with the pattern `NUMBER` as an automaton.
-- - backend/app/telemetry/registry.py is Telemetry.Registry: the table `CANONICAL_METRICS` is
--   Telemetry.Registry.Catalog, entry by entry; `normalize_value` and `observation_is_fresh` are
--   Telemetry.Registry.
-- - backend/app/telemetry/resolution.py is Telemetry.Resolution: `_choose` is `choose`;
--   `resolve_readings` is in Telemetry.Resolution.Readings, `resolve_position` in
--   Telemetry.Resolution.Position, `load_candidates` and `resolve_vehicle` in Telemetry.State.
-- - backend/app/telemetry/contacts.py and `touch_source_contact` are Telemetry.Contacts.
-- - The tables (backend/app/telemetry/models.py, backend/app/hooks/models.py,
--   backend/app/jobs/models.py, backend/app/vehicle_state/models.py) are Telemetry.Store.
-- - backend/app/telemetry/services.py: the tables of candidates are Telemetry.Candidates,
--   `_update_current_state` is Telemetry.State, `_enqueue_hooks` is Telemetry.Hooks and
--   `ingest_batch` is Telemetry.Ingest, which calls all the others in the order of the source.
-- - backend/app/history/reconstruction.py: `_expiry` is History.Reconstruction; the state of a
--   replay and `resolved_state`, with the inner loop of `table_rows`, are History.Events; the rows
--   of `table_rows` are History.Table, over the state at the start and the events; `candidate_state_at`
--   and `state_at_time` are History.Queries, `_events` is History.Queries.Between, and `table_rows`
--   with its queries is `table_at` of History.Queries.Shown.
-- - backend/app/history/segments.py: `_charge_groups` with `_charge_signal` is History.Segments,
--   `_drive_evidence` with what it reads is History.Segments.Motion, and `_drive_groups` is
--   History.Segments.Drives. A round of their loops is a function of what the row says.
-- - backend/app/jobs/models.py is Jobs, backend/app/jobs/services.py is Jobs.Queue, and
--   backend/app/worker.py is Jobs.Worker: `execute_hook_job` is `begin_execution` up to its commit
--   and `finish_execution` after the child process. Jobs.Step lets several workers take their
--   transactions in any order, with the loss of workers.
-- - backend/app/access is Access, and the guards of backend/app/users/services.py are Access.Users.
-- - agent/vehicle_agent/models.py is Agent.Samples with the reading of a payload, and
--   agent/vehicle_agent/queue.py is Agent.Queue with `upload_once` of
--   agent/vehicle_agent/runtime.py.
-- - backend/app/vehicle_profiles/schemas.py is Profiles, as far as mapping profiles go, and
--   backend/app/vehicle_profiles/mapping.py is Profiles.Mapping: `MappingEngine.map` is `map_message`,
--   and an exception is None. What backend/app/vehicle_profiles/services.py writes to the rows of
--   sources and connectors is Connectors.Assigned.
-- - backend/app/agents/services.py is Sources: a row of the table `agents` is a `Source`, since
--   connectors report through one too. `create_enrollment` and `enroll` are Sources.Admission, and
--   `revoke_agent` is that of backend/app/agents/routes.py.
-- - backend/app/connectors/services.py is Connectors, with its operations but the removals, and all
--   else that writes to sources, as steps in Connectors.Lifecycle. Of backend/app/connectors/runtime.py, `ConnectorSupervisor` is
--   Connectors.Supervisor, `MqttConnectorSession` is Connectors.Session with `handle_message` in
--   Connectors.Session.Messages and `flush` in Connectors.Session.Flush, and the calls of a session in
--   any order, with the messages that they are given, are Connectors.Session.Calls.
--
-- A session of a connector maps its messages by a profile and sends what it has buffered to
-- `ingest_batch`; the supervisor starts and stops sessions after the rows that the services write.
-- Ingestion writes the jobs that the workers claim, and the tables that the history reads. The
-- worker of the model starts from a table of jobs: `enqueue_step` stands for any code that adds one.
--
-- State is passed explicitly: a function that writes to the database takes the tables and returns
-- them. A table is a list of its rows, or a dictionary over its primary key. A query without an
-- order gives the rows in the order of the table. A generated key is a number that no row has.
-- The session's transaction, its locks and its foreign keys are not modelled: a batch is ingested
-- under a lock of its vehicle, so that its steps are not interleaved with those of another batch.
-- The schema refuses a batch that names one sample twice; a batch here is one that it lets through.
--
-- An instant is a number of microseconds and `as_utc` does nothing. `utcnow` is an argument, once
-- for the resolution and once for the contact of the source. Subtracting a duration from an instant
-- stops at the first instant, where Python raises an error. Floats are an interface,
-- Prelude.Float, with a parameter for the type. The ints of the model are those that have a float: a
-- value of a metric holds no other, and `float(value)` raises no OverflowError for it. A larger int in
-- the payload of a message is `Raw.oversized`, and raises one.
-- `slices` runs on fuel, which is the number of samples: every slice takes at least one.
--
-- A worker's transaction is taken as one step, as the code claims a job and starts its
-- execution under the locks of their rows; the child process of a hook, the secrets and the
-- input that it is given, and the answer of the transport of the vehicle agent are arguments.
-- A hook's advisory lock and the logs that it stores while it runs are left out. Functions on
-- floats, such as the sine, and the lower case of a text are interfaces of Prelude.Math. The
-- length of a range over its step is taken exactly, where the source divides floats. Two
-- snapshots of a table are compared by a parameter.
--
-- A call of a session reads each clock once. The supervisor's sessions are known by the definitions
-- that they run, and the validation of a stored configuration, of its profile and of its password is
-- a parameter, as are the hash of a token and the lookup of a profile. `float(s)`, `json.loads` and
-- the classes of characters are interfaces.
--
-- Not modelled: authentication, the API's routes, the summaries of segments, the MQTT client and
-- the threads of the connectors, the code that runs in a hook's child process, CAN profiles, the
-- accounting of retired sources, the settings, the frontend, the Go agent, and the readers of
-- devices. Most of it is input and output, other languages, or work that a database or another
-- library does; the summaries stand apart from the parts above.
pub mod Prelude
pub mod History
pub mod Telemetry
pub mod Jobs
pub mod Agent
pub mod Access
pub mod Profiles
pub mod Sources
pub mod Connectors
