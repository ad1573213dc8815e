-- ===== src/History/Queries/Shown.antt =====
-- backend/app/history/reconstruction.py: `table_rows` with its queries, and what its rows show.
use carhibou.Prelude.{
  ◌≤◌, ◌≡◌, Bool, true, ◌&&◌, String, List, [], ◌∷◌, map, filter, if◌then◌else◌, Bool-cases,
  Option-cases, inl, inr, In-filter, All, All-append, All-of, arith,
}
use carhibou.Prelude.Equality.{◌==◌, string_eq}
use carhibou.Prelude.Float.{Float}
use carhibou.Prelude.Time.{Instant}
use carhibou.Telemetry.Store.{Telemetry, TelemetryObservation, TelemetryPositionObservation}
use carhibou.Telemetry.State.{Db}
use carhibou.History.Events.{TimedEvent, Snapshot}
use carhibou.History.Table.{Range, TableRow, table_rows}
use carhibou.History.Table.Replayed.{Shows, table_rows-Shows}
use carhibou.History.Events.Replay.{InOrder}
use carhibou.History.Queries.{sample_with, candidate_state_at}
use carhibou.History.Queries.Between.{
  insert_by, sort_into, between, metric_events, position_events, agent_event, event_precedes,
  events_between,
}

-- A sort keeps what holds of every element.
module _ {κ} {A : Type 0} (before : A → A → Bool) (P : A → Type κ) where
  insert_by-All : (x : A) (xs : List A) → P x → All P xs → All P (insert_by before x xs)
  unfolding insert_by
  insert_by-All x [] p h = (p, tt)
  insert_by-All x (y ∷ ys) p h = elim (Bool-cases (before x y)) [
    | inl e ↦ rw (e, if◌then◌else◌) (p, h)
    | inr e ↦ rw (e, if◌then◌else◌) (h.0, insert_by-All x ys p h.1)
  ]

  sort_into-All : (done xs : List A) → All P done → All P xs → All P (sort_into before done xs)
  unfolding sort_into
  sort_into-All done [] d h = d
  sort_into-All done (x ∷ xs) d h =
      sort_into-All (insert_by before x done) xs (insert_by-All x done h.0 d) h.1

All-from :
    {F : Type 0} (t u : Instant) (events : List (TimedEvent F))
    → t ≤ u
    → All (λ g. u ≤ g.observed_at) events
    → All (λ g. t ≤ g.observed_at) events
All-from t u [] h a = tt
All-from t u (g ∷ events) h a = (omega (arith, h, a.0), All-from t u events h a.1)

module _ {F : Type 0} where
  insert_by-InOrder :
      (e : TimedEvent F) (events : List (TimedEvent F))
      → InOrder events
      → InOrder (insert_by event_precedes e events)
  unfolding insert_by
  insert_by-InOrder e [] o = (tt, tt)
  insert_by-InOrder e (f ∷ events) o = elim (Bool-cases (event_precedes e f)) [
    | inl before ↦
        rw (before, if◌then◌else◌)
          ((ground arith, All-from e.observed_at f.observed_at events (ground arith) o.0), o)
    | inr after ↦
        rw (after, if◌then◌else◌)
          (
            insert_by-All event_precedes (λ g. f.observed_at ≤ g.observed_at) e events
                (ground arith) o.0,
            insert_by-InOrder e events o.1,
          )
  ]

  sort_into-InOrder :
      (done events : List (TimedEvent F))
      → InOrder done
      → InOrder (sort_into event_precedes done events)
  unfolding sort_into
  sort_into-InOrder done [] o = o
  sort_into-InOrder done (e ∷ events) o =
      sort_into-InOrder (insert_by event_precedes e done) events (insert_by-InOrder e done o)

  -- An event after the start and not after the end.
  abbrev pub Within : Instant → Instant → TimedEvent F → Type 0
  Within start end e = between start end e.observed_at ≡ true

  metric_events-Within :
      (db : Db F) (start end : Instant) (rows : List (TelemetryObservation F))
      → All (λ r. between start end r.observed_at ≡ true) rows
      → All (Within start end) (metric_events db end rows)
  metric_events-Within db start end [] h = tt
  metric_events-Within db start end (r ∷ rows) h =
      elim (Option-cases (sample_with r.telemetry_id db.telemetry)) [
        | inl missing ↦ rw missing (metric_events-Within db start end rows h.1)
        | inr (sample, found) ↦ rw found (h.0, metric_events-Within db start end rows h.1)
      ]

  position_events-Within :
      (db : Db F) (start end : Instant) (rows : List (TelemetryPositionObservation F))
      → All (λ r. between start end r.observed_at ≡ true) rows
      → All (Within start end) (position_events db end rows)
  position_events-Within db start end [] h = tt
  position_events-Within db start end (r ∷ rows) h =
      elim (Option-cases (sample_with r.telemetry_id db.telemetry)) [
        | inl missing ↦ rw missing (position_events-Within db start end rows h.1)
        | inr (sample, found) ↦ rw found (h.0, position_events-Within db start end rows h.1)
      ]

  agent_events-Within :
      (start end : Instant) (rows : List (Telemetry F))
      → All (λ t. between start end t.recorded_at ≡ true) rows
      → All (Within start end) (map agent_event rows)
  agent_events-Within start end [] h = tt
  agent_events-Within start end (t ∷ rows) h = (h.0, agent_events-Within start end rows h.1)

filtered :
    {A : Type 0} (own : A → Bool) (time : A → Instant) (start end : Instant) (rows : List A)
    → All
        (λ r. between start end (time r) ≡ true)
        (filter (λ r. own r && between start end (time r)) rows)
filtered own time start end rows =
    All-of _ _
      λ r m. ground (arith, (In-filter (λ r. own r && between start end (time r)) r rows m).1)

module _ {F : Type 0} where
  -- The events of a span are in the order of their times, and all of them lie after its start and
  -- not after its end.
  pub events_between-InOrder :
      (db : Db F) (vehicle_id : String) (start end : Instant)
      → InOrder (events_between db vehicle_id start end)
        × All (Within start end) (events_between db vehicle_id start end)
  unfolding events_between
  events_between-InOrder db vehicle_id start end = (
    sort_into-InOrder [] _ tt,
    sort_into-All event_precedes (Within start end) [] _ tt (
        All-append (Within start end) _ _
          (metric_events-Within db start end _ (
            sort_into-All _ (λ r. between start end r.observed_at ≡ true) [] _ tt
              (filtered (λ r. r.vehicle_id == vehicle_id) (λ r. r.observed_at) start end
                db.observations)))
          (All-append (Within start end) _ _
            (position_events-Within db start end _ (
              sort_into-All _ (λ r. between start end r.observed_at ≡ true) [] _ tt
                (filtered (λ r. r.vehicle_id == vehicle_id) (λ r. r.observed_at) start end
                  db.position_observations)))
            (agent_events-Within start end _ (
              sort_into-All _ (λ t. between start end t.recorded_at ≡ true) [] _ tt
                (filtered (λ t. t.vehicle_id == vehicle_id) (λ t. t.recorded_at) start end
                  db.telemetry))))),
  )

module _ {F : Type 0} ⦃ops : Float F⦄ (same : Snapshot F → Snapshot F → Bool) where
  -- `table_rows` with its queries.
  pub table_at : Db F → String → Range → List (TableRow F)
  table_at db vehicle_id r =
      table_rows same r (candidate_state_at db vehicle_id r.start)
        (events_between db vehicle_id r.start r.end)

  -- Every row of the table of a vehicle shows the readings, the position and the agent's data as they
  -- are resolved, at the end of the row's first bucket, from the candidates at the start of the
  -- table and all the events that are stored from then on to that instant.
  pub table_at-Shows :
      (db : Db F) (vehicle_id : String) (r : Range)
      → All
          (Shows r
            (candidate_state_at db vehicle_id r.start)
            (events_between db vehicle_id r.start r.end))
          (table_at db vehicle_id r)
  unfolding table_at
  table_at-Shows db vehicle_id r =
      table_rows-Shows same r (candidate_state_at db vehicle_id r.start)
        (events_between db vehicle_id r.start r.end)
        (events_between-InOrder db vehicle_id r.start r.end).0
