-- ===== src/Telemetry/Ingest.antt =====
-- backend/app/telemetry/services.py: `ingest_batch`.
pub mod Redelivery
pub mod Acceptance
use carhibou.Prelude.{
  ℕ, max, Bool, true, false, Option, none, some, String, List, [], ◌∷◌, ◌++◌, map, or_number,
  is_some, if◌then◌else◌,
}
use carhibou.Prelude.Equality.{◌==◌, contains, string_eq}
use carhibou.Prelude.Float.{Float}
use carhibou.Prelude.Time.{Instant}
use carhibou.Telemetry.Contacts.{touch_source_contact}
use carhibou.Telemetry.Store.{Telemetry, TelemetryObservation, TelemetryPositionObservation}
use carhibou.Telemetry.Candidates.{
  Observation, PositionObservation, TelemetrySample, TelemetryBatch, Agent, accepted_observations,
  telemetry_model, apply_observations, apply_position_candidate,
}
use carhibou.Telemetry.Hooks.{enqueue_hooks}
use carhibou.Telemetry.State.{Db, sort, update_current_state}

pub record IngestionResult : Type 0 where
  pub accepted : List String
  pub duplicates : List String

-- `RetiredSourceError`
pub data Ingestion (A : Type 0) : Type 0 where
  ingested : A → Ingestion A
  retired_source : Ingestion A

module _ {F : Type 0} where
  abbrev observation_row : Telemetry F → Observation F → TelemetryObservation F
  observation_row t o = record {
    telemetry_id = t.id;
    vehicle_id = t.vehicle_id;
    source_id = t.agent_id;
    metric_key = o.key;
    value = o.value;
    observed_at = o.observed_at;
    channel = o.channel;
    method = o.method;
  }

  abbrev position_rows :
      Telemetry F → Option (PositionObservation F) → List (TelemetryPositionObservation F)
  position_rows t none = []
  position_rows t (some p) =
      record {
        telemetry_id = t.id;
        vehicle_id = t.vehicle_id;
        source_id = t.agent_id;
        value = p.value;
        observed_at = p.observed_at;
        channel = p.channel;
        method = p.method;
      }
      ∷ []

-- What the loop of `ingest_batch` has done so far.
pub record Progress (F : Type 0) : Type 0 where
  pub db : Db F
  pub stored : List (Telemetry F)
  pub result : IngestionResult

module _ {F : Type 0} where
  -- `max([sample.reporting_interval or 0 …] + [15])`
  abbrev pub announced_window : List (TelemetrySample F) → ℕ
  announced_window [] = 15
  announced_window (s ∷ samples) = max (or_number s.reporting_interval 0) (announced_window samples)

  abbrev pub enqueue : List (Telemetry F) → Db F → Db F
  enqueue stored db = record db { hook_tables = enqueue_hooks db.hooks stored db.hook_tables }

  abbrev pub touch : Agent → Instant → ℕ → Db F → Db F
  touch agent now window db = record db {
    contact_periods = touch_source_contact db.contact_periods agent.id now window;
  }

  -- `existing_ids`: a query for the ids of the batch, which is asked of those ids alone.
  abbrev pub stored_ids : Db F → List String
  stored_ids db = map (λ t. t.id) db.telemetry

  abbrev pub start : Db F → Progress F
  start db = record { db = db; stored = []; result = record { accepted = []; duplicates = [] } }

module _ {F : Type 0} ⦃ops : Float F⦄ where
  -- A sample that is new: its row, its observations, its position, and the candidates.
  pub store_sample : Telemetry F → TelemetrySample F → Db F → Db F
  store_sample t sample db =
      let observations = accepted_observations sample.observations in
      let (positions, metrics) =
        apply_position_candidate t sample.position
          (db.position_candidates, apply_observations t observations db.metric_candidates) in
      record db {
        telemetry = db.telemetry ++ t ∷ [];
        observations = db.observations ++ map (observation_row t) observations;
        position_observations = db.position_observations ++ position_rows t sample.position;
        metric_candidates = metrics;
        position_candidates = positions;
      }

  -- One round of the loop.
  pub ingest_sample : Agent → String → List String → TelemetrySample F → Progress F → Progress F
  ingest_sample agent boot_id existing sample p =
      let t = telemetry_model agent boot_id sample in
      if contains t.id existing
      then record p {
        result = record {
          accepted = p.result.accepted;
          duplicates = p.result.duplicates ++ t.id ∷ [];
        };
      }
      else record {
        db = store_sample t sample p.db;
        stored = p.stored ++ t ∷ [];
        result = record {
          accepted = p.result.accepted ++ t.id ∷ [];
          duplicates = p.result.duplicates;
        };
      }

  pub ingest_samples :
      Agent → String → List String → List (TelemetrySample F) → Progress F → Progress F
  ingest_samples agent boot_id existing [] p = p
  ingest_samples agent boot_id existing (sample ∷ samples) p =
      ingest_samples agent boot_id existing samples (ingest_sample agent boot_id existing sample p)

  -- A source that is not retired. `resolved_at` and `seen_at` are the two readings of the clock.
  unfoldable pub ingest_active :
      Agent → TelemetryBatch F → Instant → Instant → Db F → IngestionResult × Agent × Db F
  ingest_active agent batch resolved_at seen_at db =
      let p = ingest_samples agent batch.boot_id (stored_ids db) batch.samples (start db) in
      let stored = sort p.stored in
      (
        p.result,
        record agent { last_seen_at = some seen_at },
        touch agent seen_at (announced_window batch.samples)
            (enqueue stored (update_current_state agent.vehicle_id stored resolved_at p.db)),
      )

  -- `ingest_batch`
  unfoldable pub ingest_batch :
      Agent
      → TelemetryBatch F
      → Instant
      → Instant
      → Db F
      → Ingestion (IngestionResult × Agent × Db F)
  ingest_batch agent batch resolved_at seen_at db =
      if is_some agent.retired_at
      then retired_source
      else ingested (ingest_active agent batch resolved_at seen_at db)
