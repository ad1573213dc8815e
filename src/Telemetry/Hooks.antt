-- ===== src/Telemetry/Hooks.antt =====
-- backend/app/telemetry/services.py: `_enqueue_hooks`.
pub mod Triggers
pub mod Runs
use carhibou.Prelude.{
  ℕ, zero, suc, Bool, true, false, ◌&&◌, ◌||◌, Option, none, some, String, List, [], ◌∷◌, ◌++◌, map,
  filter, take, drop, length, last_or, if◌then◌else◌,
}
use carhibou.Prelude.Equality.{◌==◌, string_eq}
use carhibou.Telemetry.Store.{Telemetry, Hook, Trigger, HookExecution, HookJob, HookTables}

abbrev pub hook_trigger_sample_limit : ℕ
hook_trigger_sample_limit = 10

-- `Hook.vehicle_id.is_(None) | (Hook.vehicle_id == latest.vehicle_id)`
abbrev pub for_vehicle : String → Option String → Bool
for_vehicle vehicle_id none = true
for_vehicle vehicle_id (some v) = v == vehicle_id

abbrev pub enabled_hooks : String → List Hook → List Hook
enabled_hooks vehicle_id = filter (λ h.
    h.enabled && (h.trigger_type == "telemetry.received" && for_vehicle vehicle_id h.vehicle_id))

module _ {F : Type 0} where
  -- The slices of the loop over `range(0, len(samples), HOOK_TRIGGER_SAMPLE_LIMIT)`, on fuel.
  pub slices : ℕ → List (Telemetry F) → List (List (Telemetry F))
  slices zero samples = []
  slices (suc fuel) [] = []
  slices (suc fuel) (s ∷ samples) =
      take hook_trigger_sample_limit (s ∷ samples)
      ∷ slices fuel (drop hook_trigger_sample_limit (s ∷ samples))

  abbrev pub new_trigger : ℕ → Telemetry F → List (Telemetry F) → Trigger
  new_trigger id latest samples = record {
    id = id;
    occurred_at = latest.recorded_at;
    vehicle_id = latest.vehicle_id;
    agent_id = latest.agent_id;
    telemetry_id = latest.id;
    telemetry_ids = map (λ s. s.id) samples;
    boot_id = latest.boot_id;
  }

-- One execution, with its job.
abbrev pub add_execution : ℕ → String → Hook → HookTables → HookTables
add_execution trigger_id telemetry_id h t =
    let id = length t.executions in
    record t {
      executions =
          t.executions
          ++ record {
            id = id;
            hook_id = h.id;
            trigger_id = trigger_id;
            telemetry_id = telemetry_id;
          }
            ∷ [];
      jobs = t.jobs ++ record { execution_id = id } ∷ [];
    }

pub add_executions : ℕ → String → List Hook → HookTables → HookTables
add_executions trigger_id telemetry_id [] t = t
add_executions trigger_id telemetry_id (h ∷ hooks) t =
    add_executions trigger_id telemetry_id hooks (add_execution trigger_id telemetry_id h t)

module _ {F : Type 0} where
  abbrev pub with_trigger : Telemetry F → List (Telemetry F) → HookTables → HookTables
  with_trigger latest samples t = record t {
    triggers = t.triggers ++ new_trigger (length t.triggers) latest samples ∷ [];
  }

  -- One round of the loop; a slice has a last sample.
  abbrev pub add_trigger : List Hook → List (Telemetry F) → HookTables → HookTables
  add_trigger hooks [] t = t
  add_trigger hooks (s ∷ samples) t =
      let latest = last_or s samples in
      add_executions (length t.triggers) latest.id hooks (with_trigger latest (s ∷ samples) t)

  pub add_triggers : List Hook → List (List (Telemetry F)) → HookTables → HookTables
  add_triggers hooks [] t = t
  add_triggers hooks (samples ∷ rest) t = add_triggers hooks rest (add_trigger hooks samples t)

  -- `_enqueue_hooks`
  unfoldable pub enqueue_hooks : List Hook → List (Telemetry F) → HookTables → HookTables
  enqueue_hooks hooks [] t = t
  enqueue_hooks hooks (s ∷ samples) t =
      let latest = last_or s samples in
      add_triggers (enabled_hooks latest.vehicle_id hooks)
        (slices (length (s ∷ samples)) (s ∷ samples)) t
