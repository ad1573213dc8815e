-- ===== src/Telemetry/Ingest/Redelivery.antt =====
-- backend/app/telemetry/services.py: a batch that is delivered again, as agents do after a
-- lost answer.
use carhibou.Prelude.{
  ◌≡◌, refl, sym, ◌∙◌, ap, Bool, true, false, ◌||◌, some, none, String, List, [], ◌∷◌, ◌++◌, map,
  All, inl, inr, subst, Option-cases, Bool-cases, is_some, if◌then◌else◌,
}
use mathlib.Core.List.{map-append, append_assoc, append-nil}
use carhibou.Prelude.Equality.{==_refl, contains, contains-append, string_eq}
use carhibou.Prelude.Float.{Float}
use carhibou.Prelude.Time.{Instant}
use carhibou.Telemetry.Store.{Telemetry}
use carhibou.Telemetry.Candidates.{TelemetrySample, TelemetryBatch, Agent, telemetry_model}
use carhibou.Telemetry.Hooks.{enqueue_hooks}
use carhibou.Telemetry.State.{Db, sort, update_current_state}
use carhibou.Telemetry.State.Kept.{telemetry-update_current_state}
use carhibou.Telemetry.Ingest.{
  IngestionResult, ingested, retired_source, Progress, store_sample, ingest_sample, ingest_samples,
  announced_window, touch, stored_ids, start, ingest_active, ingest_batch,
}

refused : {A : Type 0} (a : A) → retired_source ≡ ingested a → ⊥
refused a e = cc

accepted_value : {A : Type 0} (a b : A) → ingested a ≡ ingested b → a ≡ b
accepted_value a b e = cc

or_true : (b : Bool) → (b || true) ≡ true
or_true false = refl
or_true true = refl

module _ {F : Type 0} where
  abbrev pub sample_ids : List (TelemetrySample F) → List String
  sample_ids = map (λ s. s.id)

  abbrev pub Stored : Db F → List (TelemetrySample F) → Type 0
  Stored db = All (λ s. contains s.id (stored_ids db) ≡ true)

module _ {F : Type 0} ⦃ops : Float F⦄ where
  store_sample-ids :
      (i : String) (t : Telemetry F) (sample : TelemetrySample F) (db : Db F)
      → contains i (stored_ids (store_sample t sample db))
        ≡ (contains i (stored_ids db) || contains i (t.id ∷ []))
  unfolding store_sample
  store_sample-ids i t sample db =
      rw (map-append (λ (t : Telemetry F). t.id)) (contains-append i (stored_ids db) (t.id ∷ []))

  ingest_sample-keep :
      (i : String) (agent : Agent) (boot_id : String) (existing : List String)
      (sample : TelemetrySample F) (p : Progress F)
      → contains i (stored_ids p.db) ≡ true
      → contains i (stored_ids (ingest_sample agent boot_id existing sample p).db) ≡ true
  unfolding ingest_sample
  ingest_sample-keep i agent boot_id existing sample p h =
      let t = telemetry_model agent boot_id sample in
      elim (Bool-cases (contains t.id existing)) [
        | inl old ↦ rw old h
        | inr new ↦ rw new (rw (store_sample-ids i t sample p.db) (rw h refl))
      ]

  ingest_sample-Stored :
      (agent : Agent) (boot_id : String) (existing : List String) (sample : TelemetrySample F)
      (p : Progress F)
      → (contains sample.id existing ≡ true → contains sample.id (stored_ids p.db) ≡ true)
      → contains sample.id (stored_ids (ingest_sample agent boot_id existing sample p).db) ≡ true
  unfolding ingest_sample telemetry_model
  ingest_sample-Stored agent boot_id existing sample p h =
      let t = telemetry_model agent boot_id sample in
      elim (Bool-cases (contains sample.id existing)) [
        | inl old ↦ rw old (h old)
        | inr new ↦ rw new (
            rw (store_sample-ids sample.id t sample p.db)
              (rw (==_refl sample.id) (or_true (contains sample.id (stored_ids p.db)))))
      ]

  ingest_samples-keep :
      (i : String) (agent : Agent) (boot_id : String) (existing : List String)
      (samples : List (TelemetrySample F)) (p : Progress F)
      → contains i (stored_ids p.db) ≡ true
      → contains i (stored_ids (ingest_samples agent boot_id existing samples p).db) ≡ true
  unfolding ingest_samples
  ingest_samples-keep i agent boot_id existing [] p h = h
  ingest_samples-keep i agent boot_id existing (s ∷ samples) p h =
      ingest_samples-keep i agent boot_id existing samples
        (ingest_sample agent boot_id existing s p)
        (ingest_sample-keep i agent boot_id existing s p h)

  ingest_samples-Stored :
      (agent : Agent) (boot_id : String) (existing : List String)
      (samples : List (TelemetrySample F)) (p : Progress F)
      → ((i : String) → contains i existing ≡ true → contains i (stored_ids p.db) ≡ true)
      → Stored (ingest_samples agent boot_id existing samples p).db samples
  unfolding ingest_samples
  ingest_samples-Stored agent boot_id existing [] p h = tt
  ingest_samples-Stored agent boot_id existing (s ∷ samples) p h =
      let p' = ingest_sample agent boot_id existing s p in
      (
        ingest_samples-keep s.id agent boot_id existing samples p'
            (ingest_sample-Stored agent boot_id existing s p (h s.id)),
        ingest_samples-Stored agent boot_id existing samples p'
            (λ i e. ingest_sample-keep i agent boot_id existing s p (h i e)),
      )

  abbrev with_duplicates : Progress F → List String → Progress F
  with_duplicates p duplicates = record p {
    result = record { accepted = p.result.accepted; duplicates = duplicates };
  }

  -- A batch of known samples changes nothing but the list of duplicates.
  ingest_samples-duplicates :
      (agent : Agent) (boot_id : String) (existing : List String)
      (samples : List (TelemetrySample F)) (p : Progress F)
      → All (λ s. contains s.id existing ≡ true) samples
      → ingest_samples agent boot_id existing samples p
        ≡ with_duplicates p (p.result.duplicates ++ sample_ids samples)
  unfolding ingest_samples ingest_sample telemetry_model
  ingest_samples-duplicates agent boot_id existing [] p h =
      ap (λ d. with_duplicates p d) (sym (append-nil p.result.duplicates))
  ingest_samples-duplicates agent boot_id existing (s ∷ samples) p h = rw (h.0) (
      ingest_samples-duplicates agent boot_id existing samples
        (with_duplicates p (p.result.duplicates ++ s.id ∷ [])) h.1
      ∙ ap (λ d. with_duplicates p d)
          (append_assoc p.result.duplicates (s.id ∷ []) (sample_ids samples)))

  pub ingest_batch-active :
      (agent : Agent) (batch : TelemetryBatch F) (resolved_at seen_at : Instant) (db : Db F)
      → agent.retired_at ≡ none
      → ingest_batch agent batch resolved_at seen_at db
        ≡ ingested (ingest_active agent batch resolved_at seen_at db)
  unfolding ingest_batch
  ingest_batch-active agent batch resolved_at seen_at db active =
      ap
        (λ o.
          if is_some o
          then retired_source
          else ingested (ingest_active agent batch resolved_at seen_at db))
        active

  ingest_batch-retired :
      (agent : Agent) (batch : TelemetryBatch F) (resolved_at seen_at : Instant) (db : Db F)
      {at : Instant}
      → agent.retired_at ≡ some at
      → ingest_batch agent batch resolved_at seen_at db ≡ retired_source
  unfolding ingest_batch
  ingest_batch-retired agent batch resolved_at seen_at db retired =
      ap
        (λ o.
          if is_some o
          then retired_source
          else ingested (ingest_active agent batch resolved_at seen_at db))
        retired

  ingest_active-duplicates :
      (agent : Agent) (batch : TelemetryBatch F) (resolved_at seen_at : Instant) (db : Db F)
      → Stored db batch.samples
      → ingest_active agent batch resolved_at seen_at db ≡ (
        record { accepted = []; duplicates = sample_ids batch.samples },
        record agent { last_seen_at = some seen_at },
        touch agent seen_at (announced_window batch.samples) db,
      )
  unfolding ingest_active sort update_current_state enqueue_hooks
  ingest_active-duplicates agent batch resolved_at seen_at db known =
      rw
        (ingest_samples-duplicates agent batch.boot_id (stored_ids db) batch.samples (start db)
          known)
        refl

  -- A batch whose samples are all stored is answered with their ids as duplicates. Of the tables
  -- only the source's contacts change.
  pub ingest_batch-duplicates :
      (agent : Agent) (batch : TelemetryBatch F) (resolved_at seen_at : Instant) (db : Db F)
      → agent.retired_at ≡ none
      → Stored db batch.samples
      → ingest_batch agent batch resolved_at seen_at db
        ≡ ingested (
          record { accepted = []; duplicates = sample_ids batch.samples },
          record agent { last_seen_at = some seen_at },
          touch agent seen_at (announced_window batch.samples) db,
        )
  ingest_batch-duplicates agent batch resolved_at seen_at db active known =
      ingest_batch-active agent batch resolved_at seen_at db active
      ∙ ap (λ x. ingested x) (ingest_active-duplicates agent batch resolved_at seen_at db known)

  ingest_active-Stored :
      (agent : Agent) (batch : TelemetryBatch F) (resolved_at seen_at : Instant) (db : Db F)
      → Stored (ingest_active agent batch resolved_at seen_at db).2 batch.samples
  unfolding ingest_active
  ingest_active-Stored agent batch resolved_at seen_at db = rw telemetry-update_current_state (
      ingest_samples-Stored agent batch.boot_id (stored_ids db) batch.samples (start db) (λ i e. e))

  ingest_active-retired_at :
      (agent : Agent) (batch : TelemetryBatch F) (resolved_at seen_at : Instant) (db : Db F)
      → (ingest_active agent batch resolved_at seen_at db).1.retired_at ≡ agent.retired_at
  unfolding ingest_active
  ingest_active-retired_at agent batch resolved_at seen_at db = refl

  -- Delivering a batch a second time, at any later time, accepts nothing, reports every sample as a
  -- duplicate, and changes no table but that of the source's contacts.
  pub ingest_batch_twice :
      (agent agent' : Agent) (batch : TelemetryBatch F)
      (resolved_at seen_at resolved_at' seen_at' : Instant) (db db' : Db F)
      {result : IngestionResult}
      → ingest_batch agent batch resolved_at seen_at db ≡ ingested (result, agent', db')
      → ingest_batch agent' batch resolved_at' seen_at' db'
        ≡ ingested (
          record { accepted = []; duplicates = sample_ids batch.samples },
          record agent' { last_seen_at = some seen_at' },
          touch agent' seen_at' (announced_window batch.samples) db',
        )
  ingest_batch_twice agent agent' batch resolved_at seen_at resolved_at' seen_at' db db' first =
      elim (Option-cases agent.retired_at) [
        | inr (at, retired) ↦ absurd (
            refused _
              (sym (ingest_batch-retired agent batch resolved_at seen_at db retired) ∙ first))
        | inl active ↦
            let x = ingest_active agent batch resolved_at seen_at db in
            subst
              (λ y.
                ingest_batch y.1 batch resolved_at' seen_at' y.2
                ≡ ingested (
                  record { accepted = []; duplicates = sample_ids batch.samples },
                  record y.1 { last_seen_at = some seen_at' },
                  touch y.1 seen_at' (announced_window batch.samples) y.2,
                ))
              (accepted_value x _
                (sym (ingest_batch-active agent batch resolved_at seen_at db active) ∙ first))
              (ingest_batch-duplicates x.1 batch resolved_at' seen_at' x.2
                (ingest_active-retired_at agent batch resolved_at seen_at db ∙ active)
                (ingest_active-Stored agent batch resolved_at seen_at db))
      ]
