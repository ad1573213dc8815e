-- ===== src/Telemetry/Hooks/Triggers.antt =====
-- backend/app/telemetry/services.py: the triggers, executions and jobs that `_enqueue_hooks`
-- adds.
use carhibou.Prelude.{
  ℕ, zero, suc, ◌+◌, ◌≤◌, ◌≡◌, refl, sym, ◌∙◌, ap, List, [], ◌∷◌, ◌++◌, map, String, arith, length,
  take, drop, All, length-append, length-map, All-append, length-take-le, length-drop-le,
  take-append-drop, last_or,
}
use mathlib.Core.List.{append-nil, append_assoc, map-append}
use carhibou.Telemetry.Store.{Telemetry, Hook, Trigger, HookExecution, HookJob, HookTables}
use carhibou.Telemetry.Hooks.{
  hook_trigger_sample_limit, enabled_hooks, slices, add_execution, add_executions, with_trigger,
  add_trigger, add_triggers, enqueue_hooks,
}

abbrev concat : {A : Type 0} → List (List A) → List A
concat [] = []
concat (x ∷ xs) = x ++ concat xs

-- The samples that the triggers name, in order.
abbrev pub named_samples : List Trigger → List String
named_samples [] = []
named_samples (t ∷ ts) = t.telemetry_ids ++ named_samples ts

module _ {F : Type 0} where
  drop-lt :
      (fuel : ℕ) (s : Telemetry F) (samples : List (Telemetry F))
      → length (s ∷ samples) ≤ suc fuel
      → length (drop hook_trigger_sample_limit (s ∷ samples)) ≤ fuel
  drop-lt fuel s samples h = omega (arith, length-drop-le 9 samples)

  concat-slices :
      (fuel : ℕ) (samples : List (Telemetry F))
      → length samples ≤ fuel
      → concat (slices fuel samples) ≡ samples
  unfolding slices
  concat-slices zero [] h = refl
  concat-slices zero (s ∷ samples) h = absurd (omega arith)
  concat-slices (suc fuel) [] h = refl
  concat-slices (suc fuel) (s ∷ samples) h =
      rw
        (concat-slices fuel (drop hook_trigger_sample_limit (s ∷ samples))
          (drop-lt fuel s samples h))
        (ap (λ l. s ∷ l) (take-append-drop 9 samples))

  ids : List (Telemetry F) → List String
  ids = map (λ s. s.id)

named_samples-append :
    (ts us : List Trigger) → named_samples (ts ++ us) ≡ named_samples ts ++ named_samples us
named_samples-append [] us = refl
named_samples-append (t ∷ ts) us =
    rw (named_samples-append ts us)
      (sym (append_assoc t.telemetry_ids (named_samples ts) (named_samples us)))

abbrev execution_of : HookTables → ℕ → String → Hook → List HookExecution
execution_of t trigger_id telemetry_id h =
    record {
      id = length t.executions;
      hook_id = h.id;
      trigger_id = trigger_id;
      telemetry_id = telemetry_id;
    }
    ∷ []

abbrev job_of : HookTables → List HookJob
job_of t = record { execution_id = length t.executions } ∷ []

-- The executions for one trigger leave the triggers alone, and are one for each hook.
add_executions-counts :
    (trigger_id : ℕ) (telemetry_id : String) (hooks : List Hook) (t : HookTables)
    → ((add_executions trigger_id telemetry_id hooks t).triggers ≡ t.triggers)
      × (length (add_executions trigger_id telemetry_id hooks t).executions
          ≡ length t.executions + length hooks)
      × (length (add_executions trigger_id telemetry_id hooks t).jobs
          ≡ length t.jobs + length hooks)
unfolding add_executions
add_executions-counts trigger_id telemetry_id [] t = (refl, omega arith, omega arith)
add_executions-counts trigger_id telemetry_id (h ∷ hooks) t =
    let t' = add_execution trigger_id telemetry_id h t in
    let (triggers, executions, jobs) = add_executions-counts trigger_id telemetry_id hooks t' in
    (
      triggers,
      omega (
        arith,
        executions,
        length-append t.executions (execution_of t trigger_id telemetry_id h),
      ),
      omega (arith, jobs, length-append t.jobs (job_of t)),
    )

module _ {F : Type 0} where
  add_trigger-counts :
      (hooks : List Hook) (s : Telemetry F) (samples : List (Telemetry F)) (t : HookTables)
      → let t' = add_trigger hooks (s ∷ samples) t in
        (t'.triggers ≡ (with_trigger (last_or s samples) (s ∷ samples) t).triggers)
        × (length t'.executions ≡ length t.executions + length hooks)
        × (length t'.jobs ≡ length t.jobs + length hooks)
  add_trigger-counts hooks s samples t =
      add_executions-counts (length t.triggers) (last_or s samples).id hooks
        (with_trigger (last_or s samples) (s ∷ samples) t)

  add_triggers-named :
      (hooks : List Hook) (groups : List (List (Telemetry F))) (t : HookTables)
      → named_samples (add_triggers hooks groups t).triggers
        ≡ named_samples t.triggers ++ ids (concat groups)
  unfolding add_triggers ids
  add_triggers-named hooks [] t = sym (append-nil (named_samples t.triggers))
  add_triggers-named hooks ([] ∷ groups) t = add_triggers-named hooks groups t
  add_triggers-named hooks ((s ∷ samples) ∷ groups) t =
      rw (add_triggers-named hooks groups (add_trigger hooks (s ∷ samples) t)) (
        rw ((add_trigger-counts hooks s samples t).0)
          (simp (named_samples-append, append_assoc, append-nil, map-append)))

  ids-limit :
      (s : Telemetry F) (samples : List (Telemetry F))
      → suc (length (map (λ (s : Telemetry F). s.id) (take 9 samples))) ≤ hook_trigger_sample_limit
  ids-limit s samples =
      omega
        (arith, length-map (λ (s : Telemetry F). s.id) (take 9 samples), length-take-le 9 samples)

  add_triggers-limit :
      (hooks : List Hook) (fuel : ℕ) (samples : List (Telemetry F)) (t : HookTables)
      → All (λ tr. length tr.telemetry_ids ≤ hook_trigger_sample_limit) t.triggers
      → All
          (λ tr. length tr.telemetry_ids ≤ hook_trigger_sample_limit)
          (add_triggers hooks (slices fuel samples) t).triggers
  unfolding add_triggers slices
  add_triggers-limit hooks zero samples t h = h
  add_triggers-limit hooks (suc fuel) [] t h = h
  add_triggers-limit hooks (suc fuel) (s ∷ samples) t h =
      let t' = add_trigger hooks (take hook_trigger_sample_limit (s ∷ samples)) t in
      add_triggers-limit hooks fuel (drop hook_trigger_sample_limit (s ∷ samples)) t' (
        rw ((add_trigger-counts hooks s (take 9 samples) t).0) (
          All-append (λ (tr : Trigger). length tr.telemetry_ids ≤ hook_trigger_sample_limit)
            t.triggers _ h (ids-limit s samples, tt)))

  -- The triggers of a batch name its samples, each once and in order.
  pub enqueue_hooks-named :
      (hooks : List Hook) (samples : List (Telemetry F)) (t : HookTables)
      → named_samples (enqueue_hooks hooks samples t).triggers
        ≡ named_samples t.triggers ++ map (λ s. s.id) samples
  unfolding enqueue_hooks ids
  enqueue_hooks-named hooks [] t = sym (append-nil (named_samples t.triggers))
  enqueue_hooks-named hooks (s ∷ samples) t =
      let latest = last_or s samples in
      add_triggers-named (enabled_hooks latest.vehicle_id hooks)
        (slices (length (s ∷ samples)) (s ∷ samples)) t
      ∙ ap (λ l. named_samples t.triggers ++ ids l)
          (concat-slices (length (s ∷ samples)) (s ∷ samples) (omega arith))

  -- No trigger asks a hook to handle more than ten samples.
  pub enqueue_hooks-limit :
      (hooks : List Hook) (samples : List (Telemetry F)) (t : HookTables)
      → All (λ tr. length tr.telemetry_ids ≤ hook_trigger_sample_limit) t.triggers
      → All
          (λ tr. length tr.telemetry_ids ≤ hook_trigger_sample_limit)
          (enqueue_hooks hooks samples t).triggers
  unfolding enqueue_hooks
  enqueue_hooks-limit hooks [] t h = h
  enqueue_hooks-limit hooks (s ∷ samples) t h =
      add_triggers-limit (enabled_hooks (last_or s samples).vehicle_id hooks) (length (s ∷ samples))
        (s ∷ samples) t h
