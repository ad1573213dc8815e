-- ===== src/Telemetry/Ingest/Acceptance.antt =====
-- backend/app/telemetry/services.py: what a batch adds to the table of telemetry, and what its
-- answer says of it.
use carhibou.Prelude.{
  ◌≡◌, refl, sym, ◌∙◌, ap, not, none, String, List, [], ◌∷◌, ◌++◌, map, filter, arith, Bool-cases,
  inl, inr,
}
use mathlib.Core.List.{append_assoc, append-nil}
use carhibou.Prelude.Equality.{contains, string_eq}
use carhibou.Prelude.Float.{Float}
use carhibou.Prelude.Time.{Instant}
use carhibou.Telemetry.Store.{Telemetry}
use carhibou.Telemetry.Candidates.{TelemetrySample, TelemetryBatch, Agent, telemetry_model}
use carhibou.Telemetry.State.{Db}
use carhibou.Telemetry.State.Kept.{telemetry-update_current_state}
use carhibou.Telemetry.Ingest.{
  IngestionResult, ingested, Progress, store_sample, ingest_sample, ingest_samples, stored_ids,
  start, ingest_active, ingest_batch,
}
use carhibou.Telemetry.Ingest.Redelivery.{sample_ids, ingest_batch-active}

-- Two extensions of a list, one after the other.
extend_twice :
    {A : Type 0} (a b c x y xy : List A) → b ≡ a ++ x → c ≡ b ++ y → xy ≡ x ++ y → c ≡ a ++ xy
extend_twice a b c x y xy first second whole =
    second ∙ ap (λ l. l ++ y) first ∙ append_assoc a x y ∙ ap (λ l. a ++ l) (sym whole)

module _ {F : Type 0} where
  abbrev pub fresh_samples : List String → List (TelemetrySample F) → List (TelemetrySample F)
  fresh_samples existing = filter (λ s. not (contains s.id existing))

  abbrev new_rows : Agent → String → List String → List (TelemetrySample F) → List (Telemetry F)
  new_rows agent boot_id existing samples =
      map (telemetry_model agent boot_id) (fresh_samples existing samples)

  -- A row that holds all of a sample, under its source and the vehicle of that.
  abbrev pub Holds : Agent → String → TelemetrySample F → Telemetry F → Type 0
  Holds agent boot_id s row =
      (row.id ≡ s.id)
      × (row.vehicle_id ≡ agent.vehicle_id)
      × (row.agent_id ≡ agent.id)
      × (row.boot_id ≡ boot_id)
      × (row.sequence ≡ s.sequence)
      × (row.recorded_at ≡ s.recorded_at)
      × (row.reporting_interval ≡ s.reporting_interval)
      × (row.event_driven ≡ s.event_driven)
      × (row.agent_data ≡ s.agent)

  -- As many rows as samples, each of which holds the sample at its place.
  abbrev pub HoldAll : Agent → String → List (TelemetrySample F) → List (Telemetry F) → Type 0
  HoldAll agent boot_id [] [] = Unit
  HoldAll agent boot_id [] (r ∷ rows) = ⊥
  HoldAll agent boot_id (s ∷ samples) [] = ⊥
  HoldAll agent boot_id (s ∷ samples) (r ∷ rows) =
      Holds agent boot_id s r × HoldAll agent boot_id samples rows

  map-HoldAll :
      (agent : Agent) (boot_id : String) (samples : List (TelemetrySample F))
      → HoldAll agent boot_id samples (map (telemetry_model agent boot_id) samples)
  unfolding telemetry_model
  map-HoldAll agent boot_id [] = tt
  map-HoldAll agent boot_id (s ∷ samples) =
      ((refl, refl, refl, refl, refl, refl, refl, refl, refl), map-HoldAll agent boot_id samples)

  abbrev pub new_ids : List String → List (TelemetrySample F) → List String
  new_ids existing samples = sample_ids (fresh_samples existing samples)

  abbrev pub old_ids : List String → List (TelemetrySample F) → List String
  old_ids existing samples = sample_ids (filter (λ s. contains s.id existing) samples)

  -- `p'` is what `p` becomes once the loop has seen these samples.
  abbrev Follows :
      Agent → String → List String → List (TelemetrySample F) → Progress F → Progress F → Type 0
  Follows agent boot_id existing samples p p' =
      (p'.result.accepted ≡ p.result.accepted ++ new_ids existing samples)
      × (p'.result.duplicates ≡ p.result.duplicates ++ old_ids existing samples)
      × (p'.db.telemetry ≡ p.db.telemetry ++ new_rows agent boot_id existing samples)

  new_ids-cons :
      (existing : List String) (s : TelemetrySample F) (samples : List (TelemetrySample F))
      → new_ids existing (s ∷ samples) ≡ new_ids existing (s ∷ []) ++ new_ids existing samples
  new_ids-cons existing s samples = ground arith

  old_ids-cons :
      (existing : List String) (s : TelemetrySample F) (samples : List (TelemetrySample F))
      → old_ids existing (s ∷ samples) ≡ old_ids existing (s ∷ []) ++ old_ids existing samples
  old_ids-cons existing s samples = ground arith

  new_rows-cons :
      (agent : Agent) (boot_id : String) (existing : List String) (s : TelemetrySample F)
      (samples : List (TelemetrySample F))
      → new_rows agent boot_id existing (s ∷ samples)
        ≡ new_rows agent boot_id existing (s ∷ []) ++ new_rows agent boot_id existing samples
  new_rows-cons agent boot_id existing s samples = ground arith

  Follows-cons :
      (agent : Agent) (boot_id : String) (existing : List String) (s : TelemetrySample F)
      (samples : List (TelemetrySample F)) (p q r : Progress F)
      → Follows agent boot_id existing (s ∷ []) p q
      → Follows agent boot_id existing samples q r
      → Follows agent boot_id existing (s ∷ samples) p r
  Follows-cons agent boot_id existing s samples p q r (a, d, t) (a', d', t') =
      let new = new_ids-cons existing s samples in
      (
        extend_twice _ _ _ _ _ _ a a' new,
        extend_twice _ _ _ _ _ _ d d' (old_ids-cons existing s samples),
        extend_twice _ _ _ _ _ _ t t' (new_rows-cons agent boot_id existing s samples),
      )

module _ {F : Type 0} ⦃ops : Float F⦄ where
  ingest_sample-Follows :
      (agent : Agent) (boot_id : String) (existing : List String) (s : TelemetrySample F)
      (p : Progress F)
      → Follows agent boot_id existing (s ∷ []) p (ingest_sample agent boot_id existing s p)
  unfolding ingest_sample store_sample telemetry_model
  ingest_sample-Follows agent boot_id existing s p = elim (Bool-cases (contains s.id existing)) [
    | inl old ↦ rw old (sym (append-nil p.result.accepted), refl, sym (append-nil p.db.telemetry))
    | inr new ↦ rw new (refl, sym (append-nil p.result.duplicates), refl)
  ]

  ingest_samples-Follows :
      (agent : Agent) (boot_id : String) (existing : List String)
      (samples : List (TelemetrySample F)) (p : Progress F)
      → Follows agent boot_id existing samples p (ingest_samples agent boot_id existing samples p)
  unfolding ingest_samples
  ingest_samples-Follows agent boot_id existing [] p = (
    sym (append-nil p.result.accepted),
    sym (append-nil p.result.duplicates),
    sym (append-nil p.db.telemetry),
  )
  ingest_samples-Follows agent boot_id existing (s ∷ samples) p =
      let q = ingest_sample agent boot_id existing s p in
      Follows-cons agent boot_id existing s samples p q
        (ingest_samples agent boot_id existing samples q)
        (ingest_sample-Follows agent boot_id existing s p)
        (ingest_samples-Follows agent boot_id existing samples q)

  -- What a batch with this answer has done to the table of telemetry.
  abbrev pub Accepts :
      Agent → String → Db F → List (TelemetrySample F) → IngestionResult → Db F → Type 0
  Accepts agent boot_id db samples result db' =
      (result.accepted ≡ new_ids (stored_ids db) samples)
      × (result.duplicates ≡ old_ids (stored_ids db) samples)
      × ((added : List (Telemetry F)) × (db'.telemetry ≡ db.telemetry ++ added)
          × HoldAll agent boot_id (fresh_samples (stored_ids db) samples) added)

  ingest_active-Accepts :
      (agent : Agent) (batch : TelemetryBatch F) (resolved_at seen_at : Instant) (db : Db F)
      → let x = ingest_active agent batch resolved_at seen_at db in
        Accepts agent batch.boot_id db batch.samples x.0 x.2
  unfolding ingest_active
  ingest_active-Accepts agent batch resolved_at seen_at db =
      let (accepted, duplicates, stored) =
        ingest_samples-Follows agent batch.boot_id (stored_ids db) batch.samples (start db) in
      (
        accepted,
        duplicates,
        (
          _,
          rw telemetry-update_current_state stored,
          map-HoldAll agent batch.boot_id (fresh_samples (stored_ids db) batch.samples),
        ),
      )

  -- A batch of a source that is not retired, with no int beyond the range of floats, is answered.
  -- The samples whose ids are not stored are accepted, in order, and the others are reported as
  -- duplicates. At the end of the table of telemetry there is one new row for each accepted sample,
  -- in order, with all that the sample says, the source and its vehicle; no other row changes.
  pub ingest_batch-Accepts :
      (agent : Agent) (batch : TelemetryBatch F) (resolved_at seen_at : Instant) (db : Db F)
      → agent.retired_at ≡ none
      → (result : IngestionResult) × (agent' : Agent) × (db' : Db F) × (ingest_batch agent batch
            resolved_at seen_at db
          ≡ ingested (result, agent', db'))
        × Accepts agent batch.boot_id db batch.samples result db'
  ingest_batch-Accepts agent batch resolved_at seen_at db active = (
    _,
    _,
    _,
    ingest_batch-active agent batch resolved_at seen_at db active,
    ingest_active-Accepts agent batch resolved_at seen_at db,
  )
