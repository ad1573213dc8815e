-- ===== src/Telemetry/Tests.antt =====
-- Runs of ingestion, from the tables of one source to a batch that is delivered twice.
use carhibou.Prelude.{
  ℕ, ◌≡◌, ◌≤◌, refl, true, false, none, some, String, List, [], ◌∷◌, length, All, In, ◌⊎◌, inl, inr,
}
use carhibou.Prelude.Int.{ℤ, pos}
use carhibou.Prelude.Equality.{get, string_eq}
use carhibou.Prelude.Hundredths.{hundredths}
use carhibou.Prelude.Maximum.{max_of, max_from}
use carhibou.Prelude.Time.{minutes, seconds}
use carhibou.Telemetry.Values.{Value, int}
use carhibou.Telemetry.Resolution.{can, Method}
use carhibou.Telemetry.Contacts.{SourceContactPeriod, latest_contact_period}
use carhibou.Telemetry.Store.{
  Telemetry, Hook, HookExecution, Trigger, HookTables, CandidateRow, metric_eq,
}
use carhibou.Telemetry.Candidates.{
  Observation, TelemetrySample, TelemetryBatch, Agent, MetricCandidates, metric_identity,
  metric_row, apply_metric_candidate, apply_observations,
}
use carhibou.Telemetry.Candidates.Latest.{Records, apply_observations-Covers}
use carhibou.Telemetry.Hooks.{enqueue_hooks, hook_trigger_sample_limit}
use carhibou.Telemetry.Hooks.Triggers.{named_samples, enqueue_hooks-named, enqueue_hooks-limit}
use carhibou.Telemetry.Hooks.Runs.{Adds, IsDue, enqueue_hooks-runs}
use carhibou.Telemetry.State.{Db}
use carhibou.Telemetry.Ingest.{IngestionResult, ingested, ingest_active, ingest_batch, touch}
use carhibou.Telemetry.Ingest.Acceptance.{Accepts, ingest_batch-Accepts}
use carhibou.Telemetry.Ingest.Redelivery.{ingest_batch-active, ingest_batch_twice}

abbrev period : SourceContactPeriod
period = record {
  id = 1;
  source_id = "agent";
  started_at = seconds 100;
  last_contact_at = seconds 160;
  liveness_window_seconds = 30;
}

period-latest : latest_contact_period (period ∷ []) "agent" none ≡ some period
unfolding latest_contact_period max_of max_from
period-latest = refl

abbrev agent : Agent
agent = record { id = "agent"; vehicle_id = "car"; retired_at = none; last_seen_at = none }

abbrev charge : ℕ → ℕ → Observation ℤ
charge percent minute = record {
  key = "battery.soc";
  value = int (pos percent);
  observed_at = minutes minute;
  channel = can;
  method = Method.direct;
}

abbrev sample : String → ℕ → List (Observation ℤ) → TelemetrySample ℤ
sample id sequence observations = record {
  id = id;
  sequence = sequence;
  recorded_at = minutes sequence;
  position = none;
  observations = observations;
  agent = [];
  reporting_interval = some 60;
  event_driven = false;
}

-- The two observations come in the wrong order.
abbrev charges : List (Observation ℤ)
charges = charge 81 2 ∷ charge 80 1 ∷ []

abbrev row : Telemetry ℤ
row = record {
  id = "first";
  vehicle_id = "car";
  agent_id = "agent";
  boot_id = "boot";
  sequence = 1;
  recorded_at = minutes 1;
  reporting_interval = some 60;
  event_driven = false;
  agent_data = [];
}

abbrev no_candidates : MetricCandidates ℤ
no_candidates = []

charges-applied :
    get (metric_identity row (charge 81 2)) (apply_observations row charges [])
    ≡ some (metric_row row (charge 81 2))
unfolding apply_observations apply_metric_candidate
charges-applied = refl

apply_observations-Covers_example :
    (candidate : CandidateRow (Value ℤ)) × (get
        (metric_identity row (charge 80 1))
        (apply_observations row charges [])
      ≡ some candidate)
    × (minutes 1 ≤ candidate.observed_at)
    × ((get (metric_identity row (charge 80 1)) no_candidates ≡ some candidate)
        ⊎ ((x : Observation ℤ) × In x charges
            × (x.channel ≡ can)
            × (x.key ≡ "battery.soc")
            × Records row x candidate))
apply_observations-Covers_example =
    apply_observations-Covers row charges no_candidates (charge 80 1) (inr (inl refl))

abbrev hook : Hook
hook = record {
  id = "hook";
  enabled = true;
  trigger_type = "telemetry.received";
  vehicle_id = none;
}

abbrev no_runs : HookTables
no_runs = record { triggers = []; executions = []; jobs = [] }

abbrev second : Telemetry ℤ
second = record row { id = "second"; sequence = 2; recorded_at = minutes 2 }

enqueue_hooks-named_example :
    named_samples (enqueue_hooks (hook ∷ []) (row ∷ second ∷ []) no_runs).triggers
    ≡ "first" ∷ "second" ∷ []
enqueue_hooks-named_example = enqueue_hooks-named (hook ∷ []) (row ∷ second ∷ []) no_runs

enqueue_hooks-runs_example :
    (due : List Hook) × (triggers : List Trigger) × (executions : List HookExecution) × Adds due
      no_runs
      (enqueue_hooks (hook ∷ []) (row ∷ second ∷ []) no_runs)
      triggers
      executions
    × ((h : Hook) → In h due → In h (hook ∷ []) × IsDue "car" h)
    × ((h : Hook) → In h (hook ∷ []) → IsDue "car" h → In h due)
enqueue_hooks-runs_example = enqueue_hooks-runs (hook ∷ []) row (second ∷ []) no_runs

enqueue_hooks-limit_example :
    All
      (λ tr. length tr.telemetry_ids ≤ hook_trigger_sample_limit)
      (enqueue_hooks (hook ∷ []) (row ∷ second ∷ []) no_runs).triggers
enqueue_hooks-limit_example = enqueue_hooks-limit (hook ∷ []) (row ∷ second ∷ []) no_runs tt

abbrev batch : TelemetryBatch ℤ
batch = record { boot_id = "boot"; samples = sample "first" 1 charges ∷ sample "second" 2 [] ∷ [] }

abbrev empty : Db ℤ
empty = record {
  telemetry = [];
  observations = [];
  position_observations = [];
  metric_candidates = [];
  position_candidates = [];
  contact_periods = [];
  states = [];
  connectors = [];
  hooks = hook ∷ [];
  hook_tables = no_runs;
}

abbrev answer : IngestionResult × Agent × Db ℤ
answer = ingest_active agent batch (minutes 3) (minutes 3) empty

ingest_batch_twice_example :
    ingest_batch answer.1 batch (minutes 4) (minutes 4) answer.2
    ≡ ingested (
      record { accepted = []; duplicates = "first" ∷ "second" ∷ [] },
      record answer.1 { last_seen_at = some (minutes 4) },
      touch answer.1 (minutes 4) 60 answer.2,
    )
ingest_batch_twice_example =
    ingest_batch_twice agent answer.1 batch (minutes 3) (minutes 3) (minutes 4) (minutes 4) empty
      answer.2 (ingest_batch-active agent batch (minutes 3) (minutes 3) empty refl)

ingest_batch-Accepts_example :
    (result : IngestionResult) × (agent' : Agent) × (db' : Db ℤ) × (ingest_batch agent batch
        (minutes 3)
        (minutes 3)
        empty
      ≡ ingested (result, agent', db'))
    × Accepts agent "boot" empty batch.samples result db'
ingest_batch-Accepts_example = ingest_batch-Accepts agent batch (minutes 3) (minutes 3) empty refl
