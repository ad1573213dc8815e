-- ===== src/History/Queries/Latest.antt =====
-- backend/app/history/reconstruction.py: the candidates of `candidate_state_at`.
use carhibou.Prelude.{
  ◌≡◌, refl, sym, ◌∙◌, ap, subst, ◌⊎◌, inl, inr, true, false, Option, none, some, is_some, String,
  List, [], ◌∷◌, In, In-filter,
}
use carhibou.Prelude.Equality.{Dict, get, string_eq}
use carhibou.Prelude.Time.{Instant}
use carhibou.Telemetry.Resolution.{Candidate}
use carhibou.Telemetry.Store.{Telemetry, TelemetryObservation}
use carhibou.Telemetry.State.{Db}
use carhibou.History.Events.{SignalKey, signal_eq}
use carhibou.History.Queries.{
  Placed, outranked, is_first, first_rows, from_rows, metric_candidate_at, sample_with, signal_of,
  metric_rows, metric_pair, metric_pairs, candidate_state_at,
}
use carhibou.History.Queries.Ranks.{
  get-from_rows, from_rows-some, first_rows-first, first_rows-some,
}

module _ {F : Type 0} (db : Db F) (at : Instant) where
  -- A candidate that is made from a row and the sample of that row.
  pub record FromRow (rows : List (Placed (TelemetryObservation F))) (k : SignalKey)
      (c : Candidate F) : Type 0 where
    pub source : Placed (TelemetryObservation F)
    pub sample : Telemetry F
    pub inside : In source rows
    pub joined : sample_with source.row.telemetry_id db.telemetry ≡ some sample
    pub key : signal_of source.row ≡ k
    pub made : c ≡ metric_candidate_at db at source.row sample

  pair-cases :
      (x : Placed (TelemetryObservation F)) (rows : List (Placed (TelemetryObservation F)))
      (o : Option (Telemetry F)) (k : SignalKey) (c : Candidate F)
      → sample_with x.row.telemetry_id db.telemetry ≡ o
      → In (k, c) (metric_pair db at x.row o (metric_pairs db at rows))
      → FromRow (x ∷ rows) k c ⊎ In (k, c) (metric_pairs db at rows)
  pair-cases x rows none k c found m = inr m
  pair-cases x rows (some t) k c found (inl e) = inl (record {
    source = x;
    sample = t;
    inside = inl refl;
    joined = found;
    key = sym (ap (λ p. p.0) e);
    made = ap (λ p. p.1) e;
  })
  pair-cases x rows (some t) k c found (inr m) = inr m

  metric_pairs-FromRow :
      (rows : List (Placed (TelemetryObservation F))) (k : SignalKey) (c : Candidate F)
      → In (k, c) (metric_pairs db at rows)
      → FromRow rows k c
  metric_pairs-FromRow [] k c m = absurd m
  metric_pairs-FromRow (x ∷ rows) k c m = elim (pair-cases x rows _ k c refl m) [
    | inl h ↦ h
    | inr later ↦
        let h = metric_pairs-FromRow rows k c later in
        record {
          source = h.source;
          sample = h.sample;
          inside = inr h.inside;
          joined = h.joined;
          key = h.key;
          made = h.made;
        }
  ]

  In-metric_pair :
      (row : TelemetryObservation F) (o : Option (Telemetry F)) (p : SignalKey × Candidate F)
      (pairs : Dict SignalKey (Candidate F))
      → In p pairs
      → In p (metric_pair db at row o pairs)
  In-metric_pair row none p pairs m = m
  In-metric_pair row (some t) p pairs m = inr m

  In-metric_pairs :
      (rows : List (Placed (TelemetryObservation F))) (r : Placed (TelemetryObservation F))
      (sample : Telemetry F)
      → In r rows
      → sample_with r.row.telemetry_id db.telemetry ≡ some sample
      → In (signal_of r.row, metric_candidate_at db at r.row sample) (metric_pairs db at rows)
  In-metric_pairs [] r sample m found = absurd m
  In-metric_pairs (x ∷ rows) r sample (inl same) found =
      subst
        (λ y.
          In (signal_of r.row, metric_candidate_at db at r.row sample)
            (metric_pair db at y.row (sample_with y.row.telemetry_id db.telemetry)
              (metric_pairs db at rows)))
        same (rw found (inl refl))
  In-metric_pairs (x ∷ rows) r sample (inr m) found =
      In-metric_pair x.row _ _ (metric_pairs db at rows) (In-metric_pairs rows r sample m found)

  -- A candidate that is the latest: no row of its signal comes after the row that it is made from.
  pub record IsLatest (vehicle_id : String) (k : SignalKey) (c : Candidate F) : Type 0 where
    pub from_row : FromRow (metric_rows db vehicle_id at) k c
    pub latest :
        (b : Placed (TelemetryObservation F))
        → In b (metric_rows db vehicle_id at)
        → signal_of b.row ≡ k
        → outranked signal_of (λ r. r.observed_at) from_row.source b ≡ false

  abbrev firsts : String → List (Placed (TelemetryObservation F))
  firsts vehicle_id = first_rows signal_of (λ r. r.observed_at) (metric_rows db vehicle_id at)

  get-metrics :
      (vehicle_id : String) (k : SignalKey) (c : Candidate F)
      → get k (candidate_state_at db vehicle_id at).metrics ≡ some c
      → IsLatest vehicle_id k c
  unfolding candidate_state_at
  get-metrics vehicle_id k c e =
      let rows = metric_rows db vehicle_id at in
      elim (get-from_rows (metric_pairs db at (firsts vehicle_id)) [] k c e) [
        | inr nothing ↦ absurd (cc nothing)
        | inl m ↦
            let h = metric_pairs-FromRow (firsts vehicle_id) k c m in
            record {
              from_row = record {
                source = h.source;
                sample = h.sample;
                inside =
                    (In-filter (is_first signal_of (λ r. r.observed_at) rows) h.source rows
                      h.inside).0;
                joined = h.joined;
                key = h.key;
                made = h.made;
              };
              latest = λ b n same.
                  first_rows-first signal_of (λ r. r.observed_at) rows h.source b h.inside n
                    (same ∙ sym h.key);
            }
      ]

  metrics-some :
      (vehicle_id : String) (a : Placed (TelemetryObservation F))
      → ((b : Placed (TelemetryObservation F))
          → In b (metric_rows db vehicle_id at)
          → (sample : Telemetry F) × (sample_with b.row.telemetry_id db.telemetry ≡ some sample))
      → In a (metric_rows db vehicle_id at)
      → is_some (get (signal_of a.row) (candidate_state_at db vehicle_id at).metrics) ≡ true
  unfolding candidate_state_at
  metrics-some vehicle_id a joined m =
      let rows = metric_rows db vehicle_id at in
      let (b, inside, same) = first_rows-some signal_of (λ r. r.observed_at) rows a m in
      let (sample, found) =
        joined b (In-filter (is_first signal_of (λ r. r.observed_at) rows) b rows inside).0 in
      subst (λ k. is_some (get k (from_rows (metric_pairs db at (firsts vehicle_id)) [])) ≡ true)
        same
        (from_rows-some (metric_pairs db at (firsts vehicle_id)) [] (signal_of b.row)
          (inl (_, In-metric_pairs (firsts vehicle_id) b sample inside found)))

  pub candidate_state_at-IsLatest :
      (vehicle_id : String)
      → ((b : Placed (TelemetryObservation F))
          → In b (metric_rows db vehicle_id at)
          → (sample : Telemetry F) × (sample_with b.row.telemetry_id db.telemetry ≡ some sample))
      → ((k : SignalKey) (c : Candidate F)
          → get k (candidate_state_at db vehicle_id at).metrics ≡ some c
          → IsLatest vehicle_id k c)
        × ((a : Placed (TelemetryObservation F))
            → In a (metric_rows db vehicle_id at)
            → is_some (get (signal_of a.row) (candidate_state_at db vehicle_id at).metrics) ≡ true)
  candidate_state_at-IsLatest vehicle_id joined =
      (get-metrics vehicle_id, λ a m. metrics-some vehicle_id a joined m)
