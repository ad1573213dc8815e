-- ===== src/Connectors/Session/Flush.antt =====
-- backend/app/connectors/runtime.py: `flush`, which sends what a session has buffered as one sample.
-- The validation of the sample is that of backend/app/telemetry/schemas.py: at most 2000
-- observations, each with a key that `valid_metric_key` accepts and no float that is not finite.
use carhibou.Prelude.{
  ℕ, ◌+◌, ◌-◌, Bool, true, false, ◌&&◌, not, Option, none, some, String, List, [], ◌∷◌, map, length,
  ltb, leb, if◌then◌else◌,
}
use carhibou.Prelude.Equality.{Dict, get, insert, string_eq}
use carhibou.Prelude.Float.{Float}
use carhibou.Prelude.Text.{Characters}
use carhibou.Prelude.Time.{Instant, seconds}
use carhibou.Telemetry.Values.{Value, float}
use carhibou.Telemetry.Values.Coercion.{NumericRange, in_range, position_ranges}
use carhibou.Telemetry.Resolution.{mqtt, direct}
use carhibou.Telemetry.Store.{Position}
use carhibou.Telemetry.Candidates.{Agent, Observation, PositionObservation, TelemetrySample}
use carhibou.Telemetry.State.{Db, text_before}
use carhibou.Telemetry.Ingest.{IngestionResult, Ingestion, ingested, retired_source, ingest_batch}
use carhibou.Profiles.Mapping.{valid_metric_key}
use carhibou.Sources.{Source}
use carhibou.Connectors.{Connector}
use carhibou.Connectors.Session.{SessionDefinition, SessionState, Store}
use carhibou.Connectors.Session.Messages.{record_mapping_notes}

-- What a call of `flush` ends in: an exception, or the value that it returns.
pub data Flushed (A : Type 0) : Type 0 where
  raises : A → Flushed A
  returns : Bool → A → Flushed A

-- `sorted(d.items())`, where the keys are distinct.
abbrev pub insert_item : {V : Type 0} → String × V → Dict String V → Dict String V
insert_item row [] = row ∷ []
insert_item row (x ∷ xs) =
    let rest = insert_item row xs in if text_before row.0 x.0 then row ∷ x ∷ xs else x ∷ rest

abbrev pub sorted_items : {V : Type 0} → Dict String V → Dict String V
sorted_items [] = []
sorted_items (row ∷ d) = insert_item row (sorted_items d)

abbrev pub time_or : Option Instant → Instant → Instant
time_or none now = now
time_or (some t) now = t

module _ {F : Type 0} ⦃ops : Float F⦄ where
  -- A field that `Position` has, in its range.
  abbrev pub fits : Option (NumericRange F) → F → Bool
  fits none value = false
  fits (some range) value = in_range range value

  -- The validation of `Position(**position)`, whose ranges hold finite numbers only.
  abbrev pub valid_position : Dict String F → Bool
  valid_position [] = true
  valid_position ((name, value) ∷ d) = fits (get name position_ranges) value && valid_position d

  abbrev pub finite : Value F → Bool
  finite (float x) = ops.is_finite x
  finite _ = true

module _ {F : Type 0} where
  abbrev pub position_of : F → F → Dict String F → Position F
  position_of latitude longitude p = record {
    latitude = latitude;
    longitude = longitude;
    altitude = get "altitude" p;
    speed = get "speed" p;
    heading = get "heading" p;
    accuracy = get "accuracy" p;
  }

  abbrev pub observation_of : Dict String Instant → Instant → String × Value F → Observation F
  observation_of times now row = record {
    key = row.0;
    value = row.1;
    observed_at = time_or (get row.0 times) now;
    channel = mqtt;
    method = direct;
  }

  -- The sample of `flush`.
  abbrev pub sample_of :
      String → Instant → Option (PositionObservation F) → SessionState F → TelemetrySample F
  sample_of id now position s = record {
    id = id;
    sequence = s.sequence;
    recorded_at = now;
    position = position;
    observations = map (observation_of s.metric_observed_at now) (sorted_items s.metrics);
    agent = [];
    reporting_interval = none;
    event_driven = true;
  }

  abbrev pub emptied : SessionState F → SessionState F
  emptied s = record s {
    metrics = [];
    metric_observed_at = [];
    position = [];
    position_observed_at = none;
    window_started = none;
  }

  abbrev pub next_sequence : SessionState F → SessionState F
  next_sequence s = record s { sequence = s.sequence + 1 }

  -- `self._window_started is None`, or the window is not over and the flush not forced.
  abbrev pub waits : Bool → ℕ → SessionDefinition F → Option ℕ → Bool
  waits force mono d none = true
  waits force mono d (some started) = not force && ltb (mono - started) (seconds d.sample_seconds)

module _ {F : Type 0} ⦃ops : Float F⦄ ⦃chars : Characters⦄ where
  abbrev valid_observation : Observation F → Bool
  valid_observation o = valid_metric_key o.key && finite o.value

  abbrev pub all_valid : List (Observation F) → Bool
  all_valid [] = true
  all_valid (o ∷ os) = valid_observation o && all_valid os

  -- The validation of the sample.
  abbrev pub valid_sample : TelemetrySample F → Bool
  valid_sample sample = leb (length sample.observations) 2000 && all_valid sample.observations

module _ {F : Type 0} ⦃ops : Float F⦄ (decimal : ℕ → String) where
  abbrev pub checked_position :
      Instant → F → F → SessionState F → Option (PositionObservation F) × SessionState F
  checked_position now latitude longitude s =
      if valid_position s.position
      then (
        some (record {
          value = position_of latitude longitude s.position;
          observed_at = time_or s.position_observed_at now;
          channel = mqtt;
          method = direct;
        }),
        s,
      )
      else (none, record_mapping_notes decimal ("buffered position failed validation" ∷ []) s)

  abbrev pub pair_position :
      Instant
      → Option F
      → Option F
      → SessionState F
      → Option (PositionObservation F) × SessionState F
  pair_position now (some latitude) (some longitude) s = checked_position now latitude longitude s
  pair_position now _ _ s = (none, s)

  -- The position of the sample, where both coordinates are buffered.
  abbrev pub buffered_position :
      Instant → SessionState F → Option (PositionObservation F) × SessionState F
  buffered_position now s =
      pair_position now (get "latitude" s.position) (get "longitude" s.position) s

-- The columns of the source that ingestion reads.
abbrev pub as_agent : Source → Agent
as_agent source = record {
  id = source.id;
  vehicle_id = source.vehicle_id;
  retired_at = source.retired_at;
  last_seen_at = source.last_seen_at;
}

module _ {C F : Type 0} where
  -- The rows after `ingest_batch` and the commit.
  abbrev pub committed : Source → Connector C → Instant → Agent × Db F → Store C F → Store C F
  committed source connector now (agent, db) store = record {
    connectors =
        insert connector.id (record connector { last_sample_at = some now }) store.connectors;
    agents = insert source.id (record source { last_seen_at = agent.last_seen_at }) store.agents;
    telemetry = db;
  }

  abbrev pub stored :
      Source
      → Connector C
      → Instant
      → SessionState F × Store C F
      → Ingestion (IngestionResult × Agent × Db F)
      → Flushed (SessionState F × Store C F)
  stored source connector now (s, store) retired_source = raises (s, store)
  stored source connector now (s, store) (ingested (result, agent, db)) =
      returns true (emptied (next_sequence s), committed source connector now (agent, db) store)

module _ {C F : Type 0} ⦃ops : Float F⦄ where
  abbrev pub send :
      TelemetrySample F
      → Instant
      → Option Source
      → Option (Connector C)
      → SessionState F × Store C F
      → Flushed (SessionState F × Store C F)
  send sample now none connector (s, store) = returns false (emptied s, store)
  send sample now (some source) none (s, store) = returns false (emptied s, store)
  send sample now (some source) (some connector) (s, store) =
      if not connector.enabled
      then returns false (emptied s, store)
      else stored source connector now (s, store)
          (ingest_batch (as_agent source) (record { boot_id = s.boot_id; samples = sample ∷ [] })
            now now store.telemetry)

module _ {C F : Type 0} ⦃ops : Float F⦄ ⦃chars : Characters⦄ where
  abbrev pub flush_sample :
      SessionDefinition F
      → TelemetrySample F
      → Instant
      → SessionState F × Store C F
      → Flushed (SessionState F × Store C F)
  flush_sample d sample now (s, store) =
      if not (valid_sample sample)
      then raises (s, store)
      else send sample now (get d.id store.agents) (get d.id store.connectors) (s, store)

module _ {C F : Type 0} ⦃ops : Float F⦄ ⦃chars : Characters⦄ (decimal : ℕ → String) where
  -- `flush`, where `id` is the key of the new sample.
  unfoldable pub flush :
      SessionDefinition F
      → Bool
      → ℕ
      → Instant
      → String
      → SessionState F × Store C F
      → Flushed (SessionState F × Store C F)
  flush d force mono now id (s, store) =
      if waits force mono d s.window_started
      then returns false (s, store)
      else let (position, s) = buffered_position decimal now s in
        flush_sample d (sample_of id now position s) now (s, store)
