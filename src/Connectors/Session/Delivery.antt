-- ===== src/Connectors/Session/Delivery.antt =====
-- backend/app/connectors/runtime.py: what `flush` does with the buffer of a session.
use carhibou.Prelude.{
  ℕ, ◌+◌, ◌<◌, ◌≤◌, ◌≡◌, refl, ap, ◌∙◌, Bool, true, false, none, some, String, [], ◌∷◌, length,
  length-map, leb, if◌then◌else◌, All, arith,
}
use carhibou.Prelude.Equality.{get, string_eq, get-insert_self}
use carhibou.Prelude.Float.{Float}
use carhibou.Prelude.Text.{Characters}
use carhibou.Prelude.Time.{Instant}
use carhibou.Telemetry.Candidates.{Agent, TelemetrySample}
use carhibou.Telemetry.Ingest.{IngestionResult, ingested, ingest_active, ingest_batch}
use carhibou.Telemetry.State.{Db}
use carhibou.Sources.{Source}
use carhibou.Connectors.{Connector}
use carhibou.Connectors.Session.{SessionDefinition, SessionState, Store}
use carhibou.Connectors.Session.Flush.{
  raises, returns, sorted_items, observation_of, sample_of, emptied, next_sequence, waits,
  buffered_position, as_agent, committed, send, flush_sample, flush,
}
use carhibou.Connectors.Session.Buffer.{IsBuffered}
use carhibou.Connectors.Session.Carried.{
  valid_position-Lies, whole_position, pair_position-pair, length-sorted_items, Carries,
  sample_of-Carries, IsSendable, buffer-valid,
}

module _ {C F : Type 0} ⦃ops : Float F⦄ where
  send-ingests :
      (sample : TelemetrySample F) (now : Instant) (s : SessionState F) (store : Store C F)
      (source : Source) (connector : Connector C)
      → source.retired_at ≡ none
      → connector.enabled ≡ true
      → (let (result, agent, db) =
            ingest_active
              (as_agent source)
              (record { boot_id = s.boot_id; samples = sample ∷ [] })
              now
              now
              store.telemetry in
          send sample now (some source) (some connector) (s, store)
          ≡ returns true
              (emptied (next_sequence s), committed source connector now (agent, db) store))
  unfolding ingest_batch
  send-ingests sample now s store source connector live on =
      rw (on, if◌then◌else◌) (rw (live, if◌then◌else◌))

module _ {C F : Type 0} ⦃ops : Float F⦄ ⦃chars : Characters⦄ (decimal : ℕ → String) where
  -- A flush that is due sends one sample, which carries every buffered metric with its value and
  -- time, and the position where both coordinates are buffered. That sample is ingested as a batch of
  -- one, the result of which is what is stored, with the time of the flush at the connector; the
  -- sequence grows by one and the buffer is empty after it. The buffer is one that calls leave
  -- behind: its positions lie in range and it is empty outside a window. The source has to exist and
  -- not be retired, the connector to exist and be enabled, and the buffer to hold at most 2000
  -- metrics, each with a valid key and no float that is not finite.
  pub flush-sends :
      (d : SessionDefinition F) (force : Bool) (mono : ℕ) (now : Instant) (id : String)
      (s : SessionState F) (store : Store C F) (source : Source) (connector : Connector C)
      → IsBuffered s
      → waits force mono d s.window_started ≡ false
      → get d.id store.agents ≡ some source
      → get d.id store.connectors ≡ some connector
      → source.retired_at ≡ none
      → connector.enabled ≡ true
      → length s.metrics ≤ 2000
      → All IsSendable s.metrics
      → (sample : TelemetrySample F) × (result : IngestionResult) × (agent : Agent) × (db : Db F)
        × (after : SessionState F × Store C F) × Carries id now s sample
        × (ingest_batch
              (as_agent source)
              (record { boot_id = s.boot_id; samples = sample ∷ [] })
              now
              now
              store.telemetry
            ≡ ingested (result, agent, db))
        × (flush decimal d force mono now id (s, store) ≡ returns true after)
        × (after.0 ≡ record s {
          sequence = s.sequence + 1;
          metrics = [];
          metric_observed_at = [];
          position = [];
          position_observed_at = none;
          window_started = none;
        })
        × (after.1.telemetry ≡ db)
        × (get connector.id after.1.connectors
            ≡ some (record connector { last_sample_at = some now }))
        × (get source.id after.1.agents ≡ some (record source { last_seen_at = some now }))
  unfolding flush ingest_batch ingest_active
  flush-sends d force mono now id s store source connector h due agents rows live on few valid =
      let base : buffered_position decimal now s ≡ (whole_position now s, s) =
        pair_position-pair decimal now (get "latitude" s.position) (get "longitude" s.position) s
          (valid_position-Lies s.position h.in_place) in
      let sample = sample_of id now (whole_position now s) s in
      let (result, agent, db) =
        ingest_active (as_agent source) (record { boot_id = s.boot_id; samples = sample ∷ [] }) now
          now store.telemetry in
      (
        sample,
        result,
        agent,
        db,
        (emptied (next_sequence s), committed source connector now (agent, db) store),
        sample_of-Carries id now s,
        rw (live, if◌then◌else◌),
        rw (due, if◌then◌else◌)
            (ap (λ r. flush_sample d (sample_of id now r.0 r.1) now (r.1, store)) base
              ∙ rw (buffer-valid id now s few valid, if◌then◌else◌)
                  (rw (agents, rows) (send-ingests sample now s store source connector live on))),
        refl,
        refl,
        get-insert_self connector.id _ store.connectors,
        get-insert_self source.id _ store.agents,
      )

  flush_sample-raises :
      (d : SessionDefinition F) (sample : TelemetrySample F) (now : Instant)
      (p : SessionState F × Store C F)
      → 2000 < length sample.observations
      → flush_sample d sample now p ≡ raises p
  flush_sample-raises d sample now (s, store) many =
      let long : leb (length sample.observations) 2000 ≡ false = ground arith in rw long

  -- A buffer that calls leave behind, with more than 2000 metrics in it, is never sent: every flush that is due raises an exception
  -- and leaves the buffer, its window and the tables as they were.
  pub flush-overfull :
      (d : SessionDefinition F) (force : Bool) (mono : ℕ) (now : Instant) (id : String)
      (s : SessionState F) (store : Store C F)
      → IsBuffered s
      → waits force mono d s.window_started ≡ false
      → 2000 < length s.metrics
      → flush decimal d force mono now id (s, store) ≡ raises (s, store)
  unfolding flush
  flush-overfull d force mono now id s store h due many =
      let base : buffered_position decimal now s ≡ (whole_position now s, s) =
        pair_position-pair decimal now (get "latitude" s.position) (get "longitude" s.position) s
          (valid_position-Lies s.position h.in_place) in
      let sample = sample_of id now (whole_position now s) s in
      rw (due, if◌then◌else◌)
        (ap (λ r. flush_sample d (sample_of id now r.0 r.1) now (r.1, store)) base
          ∙ flush_sample-raises d sample now (s, store)
              (omega (
                arith,
                many,
                length-sorted_items s.metrics,
                length-map (observation_of s.metric_observed_at now) (sorted_items s.metrics),
              )))
