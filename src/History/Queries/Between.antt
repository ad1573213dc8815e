-- ===== src/History/Queries/Between.antt =====
-- backend/app/history/reconstruction.py: `_events`.
use carhibou.Prelude.{
  Bool, ◌&&◌, Option, none, some, String, List, [], ◌∷◌, ◌++◌, map, filter, ltb, leb, if◌then◌else◌,
}
use carhibou.Prelude.Equality.{◌==◌, string_eq}
use carhibou.Prelude.Time.{Instant}
use carhibou.Telemetry.Store.{Telemetry, TelemetryObservation, TelemetryPositionObservation}
use carhibou.Telemetry.State.{Db, recorded_before}
use carhibou.History.Events.{TimedEvent}
use carhibou.History.Queries.{metric_candidate_at, position_candidate_at, sample_with}

-- `sorted`, which is stable.
unfoldable pub insert_by : {A : Type 0} → (A → A → Bool) → A → List A → List A
insert_by before x [] = x ∷ []
insert_by before x (y ∷ ys) =
    let rest = insert_by before x ys in if before x y then x ∷ y ∷ ys else y ∷ rest

unfoldable pub sort_into : {A : Type 0} → (A → A → Bool) → List A → List A → List A
sort_into before done [] = done
sort_into before done (x ∷ xs) = sort_into before (insert_by before x done) xs

abbrev pub sorted_by : {A : Type 0} → (A → A → Bool) → List A → List A
sorted_by before xs = sort_into before [] xs

-- After the start and not after the end.
abbrev pub between : Instant → Instant → Instant → Bool
between start end t = ltb start t && leb t end

module _ {F : Type 0} where
  abbrev metric_event :
      Db F
      → Instant
      → TelemetryObservation F
      → Option (Telemetry F)
      → List (TimedEvent F)
      → List (TimedEvent F)
  metric_event db end row none events = events
  metric_event db end row (some sample) events =
      record {
        observed_at = row.observed_at;
        metric = some (metric_candidate_at db end row sample);
        position = none;
        agent = none;
      }
      ∷ events

  abbrev pub metric_events : Db F → Instant → List (TelemetryObservation F) → List (TimedEvent F)
  metric_events db end [] = []
  metric_events db end (row ∷ rows) =
      metric_event db end row (sample_with row.telemetry_id db.telemetry)
        (metric_events db end rows)

  abbrev position_event :
      Db F
      → Instant
      → TelemetryPositionObservation F
      → Option (Telemetry F)
      → List (TimedEvent F)
      → List (TimedEvent F)
  position_event db end row none events = events
  position_event db end row (some sample) events =
      record {
        observed_at = row.observed_at;
        metric = none;
        position = some (position_candidate_at db end row sample);
        agent = none;
      }
      ∷ events

  abbrev pub position_events :
      Db F → Instant → List (TelemetryPositionObservation F) → List (TimedEvent F)
  position_events db end [] = []
  position_events db end (row ∷ rows) =
      position_event db end row (sample_with row.telemetry_id db.telemetry)
        (position_events db end rows)

  abbrev pub agent_event : Telemetry F → TimedEvent F
  agent_event t = record {
    observed_at = t.recorded_at;
    metric = none;
    position = none;
    agent = some t.agent_data;
  }

  abbrev pub event_precedes : TimedEvent F → TimedEvent F → Bool
  event_precedes a b = ltb a.observed_at b.observed_at

  -- `_events`. The rows of a table are in the order of their keys, which a stable sort keeps.
  unfoldable pub events_between : Db F → String → Instant → Instant → List (TimedEvent F)
  events_between db vehicle_id start end = sorted_by event_precedes (
      metric_events db end (
        sorted_by (λ a b. ltb a.observed_at b.observed_at)
          (filter (λ r. r.vehicle_id == vehicle_id && between start end r.observed_at)
            db.observations))
      ++ (position_events db end (
            sorted_by (λ a b. ltb a.observed_at b.observed_at)
              (filter (λ r. r.vehicle_id == vehicle_id && between start end r.observed_at)
                db.position_observations))
          ++ map agent_event (
              sorted_by recorded_before (
                filter (λ t. t.vehicle_id == vehicle_id && between start end t.recorded_at)
                  db.telemetry))))
