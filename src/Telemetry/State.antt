-- ===== src/Telemetry/State.antt =====
-- The tables that ingestion writes, as one value, with `load_candidates` of
-- backend/app/telemetry/resolution.py and `_update_current_state` of services.py. `now` is what
-- `utcnow` returns.
pub mod Kept
use Prim.Native.Nat.{Ordering}
use Prim.Native.String.{compare}
use carhibou.Prelude.{
  ℕ, ◌+◌, max, Bool, true, false, ◌&&◌, ◌||◌, Option, none, some, String, List, [], ◌∷◌, ◌++◌, map,
  filter, ltb, leb, eqb, or_number, if◌then◌else◌,
}
use carhibou.Prelude.Equality.{◌==◌, Dict, get, insert, contains, string_eq}
use carhibou.Prelude.Float.{Float}
use carhibou.Prelude.Maximum.{max_of}
use carhibou.Prelude.Time.{Instant}
use carhibou.Telemetry.Values.{Value}
use carhibou.Telemetry.Registry.{Liveness}
use carhibou.Telemetry.Resolution.{Candidate, Reading, SourceKind}
use carhibou.Telemetry.Resolution.Readings.{resolve_readings}
use carhibou.Telemetry.Resolution.Position.{
  PositionCandidateValue, PositionReading, resolve_position,
}
use carhibou.Telemetry.Contacts.{SourceContactPeriod, latest_contact_period, touch_source_contact}
use carhibou.Telemetry.Store.{
  Position, Telemetry, TelemetryObservation, TelemetryPositionObservation, MetricIdentity,
  PositionIdentity, CandidateRow, VehicleState, Hook, HookTables,
}
use carhibou.Telemetry.Candidates.{
  Observation, PositionObservation, TelemetrySample, TelemetryBatch, Agent, MetricCandidates,
  PositionCandidates, accepted_observations, telemetry_model, apply_observations,
  apply_position_candidate,
}
use carhibou.Telemetry.Hooks.{enqueue_hooks}

pub record Db (F : Type 0) : Type 0 where
  pub telemetry : List (Telemetry F)
  pub observations : List (TelemetryObservation F)
  pub position_observations : List (TelemetryPositionObservation F)
  pub metric_candidates : MetricCandidates F
  pub position_candidates : PositionCandidates F
  pub contact_periods : List SourceContactPeriod
  pub states : Dict String (VehicleState F)
  pub connectors : List String
  pub hooks : List Hook
  pub hook_tables : HookTables

module _ {F : Type 0} where
  -- `kind` and `contact` of `load_candidates`.
  abbrev kind : Db F → String → SourceKind
  kind db source_id =
      if contains source_id db.connectors then SourceKind.connector else SourceKind.agent

  abbrev contact : Db F → String → Option Instant × Option ℕ
  contact db source_id = elim (latest_contact_period db.contact_periods source_id none) [
    | none ↦ (none, none)
    | some p ↦ (some p.last_contact_at, some p.liveness_window_seconds)
  ]

  abbrev liveness_of : {V : Type 0} → Db F → String → CandidateRow V → Liveness
  liveness_of db source_id row =
      let (last_contact_at, window) = contact db source_id in
      record {
        reporting_interval = row.reporting_interval;
        event_driven = row.event_driven;
        source_last_contact_at = last_contact_at;
        source_liveness_window_seconds = window;
      }

  abbrev metric_candidate : Db F → MetricIdentity × CandidateRow (Value F) → Candidate F
  metric_candidate db (i, row) = record {
    key = i.metric_key;
    value = row.value;
    observed_at = row.observed_at;
    source_id = i.source_id;
    source_kind = kind db i.source_id;
    channel = i.channel;
    method = row.method;
    source = liveness_of db i.source_id row;
  }

  abbrev position_candidate :
      Db F → PositionIdentity × CandidateRow (Position F) → PositionCandidateValue (Position F)
  position_candidate db (i, row) = record {
    value = row.value;
    observed_at = row.observed_at;
    source_id = i.source_id;
    source_kind = kind db i.source_id;
    channel = i.channel;
    method = row.method;
    source = liveness_of db i.source_id row;
  }

  -- `load_candidates`: the rows of the vehicle. A query without an order gives them in the order
  -- of the table.
  pub load_candidates :
      Db F → String → List (Candidate F) × List (PositionCandidateValue (Position F))
  load_candidates db vehicle_id = (
    map (metric_candidate db) (filter (λ e. e.0.vehicle_id == vehicle_id) db.metric_candidates),
    map (position_candidate db) (filter (λ e. e.0.vehicle_id == vehicle_id) db.position_candidates),
  )

abbrev pub text_before : String → String → Bool
text_before a b = elim (compare a b) [ Ordering.lt ↦ true | _ ↦ false ]

module _ {F : Type 0} where
  -- The order of the key `(recorded_at, sequence, id)`.
  abbrev pub recorded_before : Telemetry F → Telemetry F → Bool
  recorded_before a b =
      ltb a.recorded_at b.recorded_at
      || (eqb a.recorded_at b.recorded_at
          && (ltb a.sequence b.sequence || (eqb a.sequence b.sequence && text_before a.id b.id)))

  insert_sorted : Telemetry F → List (Telemetry F) → List (Telemetry F)
  insert_sorted t [] = t ∷ []
  insert_sorted t (x ∷ xs) = if recorded_before t x then t ∷ x ∷ xs else x ∷ insert_sorted t xs

  sort_into : List (Telemetry F) → List (Telemetry F) → List (Telemetry F)
  sort_into sorted [] = sorted
  sort_into sorted (t ∷ ts) = sort_into (insert_sorted t sorted) ts

  -- `stored.sort(…)`, which is stable.
  unfoldable pub sort : List (Telemetry F) → List (Telemetry F)
  unfolding sort_into insert_sorted
  sort = sort_into []

  abbrev latest_record : Instant → List (Telemetry F) → Instant
  latest_record at [] = at
  latest_record at (t ∷ ts) = latest_record (max at t.recorded_at) ts

  -- `agent_state.update(…)`
  abbrev update : Dict String (Value F) → Dict String (Value F) → Dict String (Value F)
  update d [] = d
  update d ((k, v) ∷ new) = update (insert k v d) new

module _ {F : Type 0} ⦃ops : Float F⦄ where
  resolved :
      Db F → String → Instant → Dict String (Reading F) × Option (PositionReading (Position F))
  resolved db vehicle_id now =
      let (metrics, positions) = load_candidates db vehicle_id in
      (resolve_readings metrics now, resolve_position positions now)

  -- The rest of `_update_current_state`, by whether there is a state and which row is the newest.
  pub next_state :
      Db F
      → String
      → Instant
      → List (Telemetry F)
      → Option (Telemetry F)
      → Option (VehicleState F)
      → Option (VehicleState F)
  next_state db vehicle_id now accepted none old = old
  next_state db vehicle_id now accepted (some newest) none =
      let (readings, position) = resolved db vehicle_id now in
      some (record {
        telemetry_id = newest.id;
        updated_at = latest_record newest.recorded_at accepted;
        readings = readings;
        position = position;
        agent_state = update [] newest.agent_data;
      })
  next_state db vehicle_id now accepted (some newest) (some old) =
      let (readings, position) = resolved db vehicle_id now in
      let updated_at = latest_record old.updated_at accepted in
      some (record {
        telemetry_id = if eqb updated_at newest.recorded_at then newest.id else old.telemetry_id;
        updated_at = updated_at;
        readings = readings;
        position = position;
        agent_state =
            if leb old.updated_at newest.recorded_at
            then update old.agent_state newest.agent_data
            else old.agent_state;
      })

  abbrev put_state : String → Option (VehicleState F) → Db F → Db F
  put_state vehicle_id none db = db
  put_state vehicle_id (some state) db = record db { states = insert vehicle_id state db.states }

  -- `_update_current_state`
  unfoldable pub update_current_state : String → List (Telemetry F) → Instant → Db F → Db F
  update_current_state vehicle_id [] now db = db
  update_current_state vehicle_id (t ∷ accepted) now db =
      put_state vehicle_id
        (next_state db vehicle_id now (t ∷ accepted) (max_of recorded_before (t ∷ accepted))
          (get vehicle_id db.states))
        db
