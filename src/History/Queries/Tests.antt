-- ===== src/History/Queries/Tests.antt =====
-- A run of the state at an instant, over three observations of one signal.
use carhibou.Prelude.{ℕ, ◌≡◌, inl, inr, true, false, some, is_some, [], ◌∷◌, In}
use carhibou.Prelude.Equality.{get}
use carhibou.Prelude.Int.{ℤ, pos}
use carhibou.Telemetry.Values.{int}
use carhibou.Telemetry.Resolution.{Candidate, can, Method}
use carhibou.Telemetry.Store.{Telemetry, TelemetryObservation}
use carhibou.Telemetry.State.{Db}
use carhibou.History.Events.{SignalKey, signal_eq}
use carhibou.History.Queries.{Placed, metric_rows, sample_with, signal_of, candidate_state_at}
use carhibou.History.Table.{Range}
use carhibou.History.Table.Replayed.{Shows}
use carhibou.History.Events.{Snapshot}
use carhibou.Prelude.{Bool, All}
use carhibou.Prelude.Hundredths.{hundredths}
use carhibou.History.Queries.Between.{events_between}
use carhibou.History.Queries.Shown.{table_at, table_at-Shows}
use carhibou.History.Queries.Latest.{IsLatest, candidate_state_at-IsLatest}

abbrev sample : Telemetry ℤ
sample = record {
  id = "t";
  vehicle_id = "car";
  agent_id = "agent";
  boot_id = "boot";
  sequence = 1;
  recorded_at = 30;
  reporting_interval = some 60;
  event_driven = false;
  agent_data = [];
}

abbrev charge : ℕ → ℕ → TelemetryObservation ℤ
charge level at = record {
  telemetry_id = "t";
  vehicle_id = "car";
  source_id = "agent";
  metric_key = "battery.soc";
  value = int (pos level);
  observed_at = at;
  channel = can;
  method = Method.direct;
}

-- The last one is later than the instant of the run.
abbrev db : Db ℤ
db = record {
  telemetry = sample ∷ [];
  observations = charge 80 10 ∷ charge 79 20 ∷ charge 78 40 ∷ [];
  position_observations = [];
  metric_candidates = [];
  position_candidates = [];
  contact_periods = [];
  states = [];
  connectors = [];
  hooks = [];
  hook_tables = record { triggers = []; executions = []; jobs = [] };
}

-- Every observation has its sample.
brought :
    (b : Placed (TelemetryObservation ℤ))
    → In b (metric_rows db "car" 30)
    → (t : Telemetry ℤ) × (sample_with b.row.telemetry_id db.telemetry ≡ some t)
brought b (inl e) = (sample, rw e)
brought b (inr (inl e)) = (sample, rw e)
brought b (inr (inr none_left)) = absurd none_left

candidate_state_at-IsLatest_example :
    ((k : SignalKey) (c : Candidate ℤ)
      → get k (candidate_state_at db "car" 30).metrics ≡ some c
      → IsLatest db 30 "car" k c)
    × ((a : Placed (TelemetryObservation ℤ))
        → In a (metric_rows db "car" 30)
        → is_some (get (signal_of a.row) (candidate_state_at db "car" 30).metrics) ≡ true)
candidate_state_at-IsLatest_example = candidate_state_at-IsLatest db 30 "car" brought

-- Two rows are never taken for equal here.
abbrev differ : Snapshot ℤ → Snapshot ℤ → Bool
differ a b = false

abbrev span : Range
span = record { start = 15; end = 60; step = 15 }

table_at-Shows_example :
    All
      (Shows span (candidate_state_at db "car" 15) (events_between db "car" 15 60))
      (table_at differ db "car" span)
table_at-Shows_example = table_at-Shows differ db "car" span
