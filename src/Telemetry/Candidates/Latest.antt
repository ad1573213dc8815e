-- ===== src/Telemetry/Candidates/Latest.antt =====
-- backend/app/telemetry/services.py: what the tables of candidates hold after observations.
use carhibou.Prelude.{
  ◌≤◌, ◌≡◌, refl, ap, ◌⊎◌, inl, inr, true, Option, none, some, List, [], ◌∷◌, arith, In, subst, sym,
  Bool-cases, if◌then◌else◌,
}
use carhibou.Prelude.Equality.{◌==◌, get, get-insert, ==_refl}
use carhibou.Prelude.Time.{Instant}
use carhibou.Telemetry.Values.{Value}
use carhibou.Telemetry.Store.{Telemetry, MetricIdentity, CandidateRow, metric_eq}
use carhibou.Telemetry.Candidates.{
  Observation, MetricCandidates, holds_newer, metric_identity, metric_row, apply_metric_candidate,
  apply_observations,
}

-- There is a row for the identity that is not older than an instant.
abbrev pub Covers : {F : Type 0} → MetricIdentity → Instant → MetricCandidates F → Type 0
Covers {F} i at rows =
    (row : CandidateRow (Value F)) × (get i rows ≡ some row) × (at ≤ row.observed_at)

module _ {F : Type 0} where
  get-apply_metric_candidate :
      (t : Telemetry F) (o : Observation F) (i : MetricIdentity) (rows : MetricCandidates F)
      → get i (apply_metric_candidate t o rows) ≡ (
          if holds_newer (get (metric_identity t o) rows) o.observed_at
          then get i rows
          else if metric_identity t o == i
          then some (metric_row t o)
          else get i rows)
  unfolding apply_metric_candidate
  get-apply_metric_candidate t o i rows =
      ground (arith, get-insert (metric_identity t o) i (metric_row t o) rows)

  holds_newer-Covers :
      (t : Telemetry F) (o : Observation F) (rows : MetricCandidates F)
      (found : Option (CandidateRow (Value F)))
      → get (metric_identity t o) rows ≡ found
      → holds_newer found o.observed_at ≡ true
      → Covers (metric_identity t o) o.observed_at (apply_metric_candidate t o rows)
  unfolding apply_metric_candidate
  holds_newer-Covers t o rows none e h = cc
  holds_newer-Covers t o rows (some row) e h = (row, rw e (rw h e), ground arith)

  -- An observation that has been applied is on record, by itself or by a later one.
  apply-Covers :
      (t : Telemetry F) (o : Observation F) (rows : MetricCandidates F)
      → Covers (metric_identity t o) o.observed_at (apply_metric_candidate t o rows)
  apply-Covers t o rows =
      elim (Bool-cases (holds_newer (get (metric_identity t o) rows) o.observed_at)) [
        | inl newer ↦ holds_newer-Covers t o rows _ refl newer
        | inr older ↦ (
          metric_row t o,
          rw get-apply_metric_candidate (rw (older, ==_refl (metric_identity t o))),
          omega arith,
        )
      ]

  -- Applying an observation makes no row older.
  apply-Covers_keep :
      (t : Telemetry F) (o : Observation F) (i : MetricIdentity) (at : Instant)
      (rows : MetricCandidates F)
      → Covers i at rows
      → Covers i at (apply_metric_candidate t o rows)
  apply-Covers_keep t o i at rows (row, e, h) =
      elim (Bool-cases (holds_newer (get (metric_identity t o) rows) o.observed_at)) [
        | inl newer ↦ (row, rw get-apply_metric_candidate (rw newer e), h)
        | inr older ↦ elim (Bool-cases (metric_identity t o == i)) [
          | inl same ↦ (
            metric_row t o,
            rw get-apply_metric_candidate (rw (older, same)),
            ground (arith, metric_eq.same_iff (metric_identity t o) i),
          )
          | inr other ↦ (row, rw get-apply_metric_candidate (rw (older, other) e), h)
        ]
      ]

  apply_observations-Covers_keep :
      (t : Telemetry F) (os : List (Observation F)) (i : MetricIdentity) (at : Instant)
      (rows : MetricCandidates F)
      → Covers i at rows
      → Covers i at (apply_observations t os rows)
  unfolding apply_observations
  apply_observations-Covers_keep t [] i at rows h = h
  apply_observations-Covers_keep t (o ∷ os) i at rows h =
      apply_observations-Covers_keep t os i at (apply_metric_candidate t o rows)
        (apply-Covers_keep t o i at rows h)

  apply_observations-covered :
      (t : Telemetry F) (os : List (Observation F)) (rows : MetricCandidates F) (o : Observation F)
      → In o os
      → Covers (metric_identity t o) o.observed_at (apply_observations t os rows)
  unfolding apply_observations
  apply_observations-covered t [] rows o h = absurd h
  apply_observations-covered t (x ∷ os) rows o (inl e) =
      apply_observations-Covers_keep t os (metric_identity t o) o.observed_at
        (apply_metric_candidate t x rows)
        (subst (λ y. Covers (metric_identity t y) y.observed_at (apply_metric_candidate t x rows))
          (sym e) (apply-Covers t x rows))
  apply_observations-covered t (x ∷ os) rows o (inr h) =
      apply_observations-covered t os (apply_metric_candidate t x rows) o h

  apply_sound :
      (t : Telemetry F) (o : Observation F) (i : MetricIdentity) (rows : MetricCandidates F)
      {row : CandidateRow (Value F)}
      → get i (apply_metric_candidate t o rows) ≡ some row
      → (get i rows ≡ some row) ⊎ ((metric_identity t o ≡ i) × (row ≡ metric_row t o))
  apply_sound t o i rows {row} e =
      ground
        (arith, get-apply_metric_candidate t o i rows, metric_eq.same_iff (metric_identity t o) i)

  abbrev FromOne :
      Telemetry F → List (Observation F) → MetricIdentity → CandidateRow (Value F) → Type 0
  FromOne t os i row =
      (o : Observation F) × In o os × (metric_identity t o ≡ i) × (row ≡ metric_row t o)

  later :
      (t : Telemetry F) (o : Observation F) (os : List (Observation F)) (i : MetricIdentity)
      (row : CandidateRow (Value F))
      → FromOne t os i row
      → FromOne t (o ∷ os) i row
  later t o os i row (x, mem, same, shape) = (x, inr mem, same, shape)

  -- A candidate is an old row or one of the observations, so no value is made up.
  pub apply_observations_sound :
      (t : Telemetry F) (os : List (Observation F)) (rows : MetricCandidates F) (i : MetricIdentity)
      {row : CandidateRow (Value F)}
      → get i (apply_observations t os rows) ≡ some row
      → (get i rows ≡ some row)
        ⊎ ((o : Observation F) × In o os × (metric_identity t o ≡ i) × (row ≡ metric_row t o))
  unfolding apply_observations
  apply_observations_sound t [] rows i e = inl e
  apply_observations_sound t (o ∷ os) rows i {row} e =
      elim (apply_observations_sound t os (apply_metric_candidate t o rows) i e) [
        | inr found ↦ inr (later t o os i row found)
        | inl kept ↦ elim (apply_sound t o i rows kept) [
          | inl old ↦ inl old
          | inr (same, shape) ↦ inr (o, inl refl, same, shape)
        ]
      ]

  -- A row that holds all of an observation, with the terms and the id of its sample.
  abbrev pub Records : Telemetry F → Observation F → CandidateRow (Value F) → Type 0
  Records t o row =
      (row.value ≡ o.value)
      × (row.observed_at ≡ o.observed_at)
      × (row.method ≡ o.method)
      × (row.reporting_interval ≡ t.reporting_interval)
      × (row.event_driven ≡ t.event_driven)
      × (row.telemetry_id ≡ t.id)

  FromOne-Records :
      (t : Telemetry F) (os : List (Observation F)) (o : Observation F)
      (row : CandidateRow (Value F))
      → FromOne t os (metric_identity t o) row
      → (x : Observation F) × In x os × (x.channel ≡ o.channel) × (x.key ≡ o.key) × Records t x row
  FromOne-Records t os o row (x, mem, same, shape) = (
    x,
    mem,
    ap (λ (i : MetricIdentity). i.channel) same,
    ap (λ (i : MetricIdentity). i.metric_key) same,
    subst (Records t x) (sym shape) (refl, refl, refl, refl, refl, refl),
  )

  -- After the observations of a sample there is a row for the vehicle, the source, the channel and
  -- the metric of every one of them, and it is not older than that observation. The row is the one
  -- that was there before, or it holds an observation of the sample of the same channel and metric:
  -- its value, time and method, with the announced interval and the id of the sample.
  pub apply_observations-Covers :
      (t : Telemetry F) (os : List (Observation F)) (rows : MetricCandidates F) (o : Observation F)
      → In o os
      → (let i : MetricIdentity = record {
        vehicle_id = t.vehicle_id;
        source_id = t.agent_id;
        channel = o.channel;
        metric_key = o.key;
      } in
          (row : CandidateRow (Value F)) × (get i (apply_observations t os rows) ≡ some row)
          × (o.observed_at ≤ row.observed_at)
          × ((get i rows ≡ some row)
              ⊎ ((x : Observation F) × In x os
                  × (x.channel ≡ o.channel)
                  × (x.key ≡ o.key)
                  × Records t x row)))
  apply_observations-Covers t os rows o h =
      let (row, found, newer) = apply_observations-covered t os rows o h in
      (
        row,
        found,
        newer,
        elim (apply_observations_sound t os rows (metric_identity t o) found) [
          | inl old ↦ inl old
          | inr taken ↦ inr (FromOne-Records t os o row taken)
        ],
      )
