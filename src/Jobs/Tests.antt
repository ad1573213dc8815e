-- ===== src/Jobs/Tests.antt =====
-- Runs of the queue of jobs and of its workers.
use carhibou.Prelude.{◌≡◌, refl, ◌⊎◌, true, false, none, some, String, [], ◌∷◌, map, In, All}
use carhibou.Prelude.Equality.{string_eq, get, ◌==◌}
use carhibou.Prelude.Json.{text, object, end, field}
use carhibou.Prelude.Maximum.{max_of, max_from}
use carhibou.Prelude.Keys.{Distinct}
use carhibou.Prelude.Time.{seconds}
use carhibou.Jobs.{Job, JobStatus, Execution, ExecutionStatus, Work}
use carhibou.Jobs.Queue.{
  is_stale, claimable, claimed, claim_job, recover_expired_leases, update_job, expire_executions,
}
use carhibou.Jobs.Queue.Claims.{Oldest, recover_row, claim_job-Oldest}
use carhibou.Jobs.Queue.Recovery.{quiet, recover_expired_leases-live}
use carhibou.Jobs.Worker.{
  RuntimeResult, Surroundings, run_job, process_one, begin_execution, finish_execution,
  contains_secret,
}
use carhibou.Jobs.Worker.Outcomes.{Clean, run_job-Clean}
use carhibou.Jobs.Worker.Settled.{IsSettled, run_job-IsSettled}
use carhibou.Jobs.Step.{World, held, enqueue_step, claim_step, Reach, here, next, enqueues, claims}
use carhibou.Jobs.Step.Exclusion.{held-Distinct}

abbrev job : Job
job = record {
  id = "job";
  kind = "hook.execute";
  payload = some "run";
  status = JobStatus.pending;
  attempts = 0;
  next_attempt_at = seconds 5;
  locked_at = none;
  locked_by = none;
  created_at = seconds 5;
  completed_at = none;
  last_error = none;
}

abbrev later : Job
later = record job { id = "later"; payload = none; created_at = seconds 6 }

abbrev run : Execution
run = record {
  hook_id = "hook";
  status = ExecutionStatus.pending;
  started_at = none;
  finished_at = none;
  log_count = 0;
  logs_truncated = false;
  error = none;
}

abbrev tables : Work
tables = record {
  jobs = later ∷ job ∷ [];
  executions = ("run", run) ∷ [];
  states = [];
  heartbeats = [];
}

-- The state of the hook quotes a secret.
abbrev leaking : RuntimeResult
leaking = record {
  status = ExecutionStatus.success;
  state = object (field "note" (text "the key is 1234.") end);
  log_count = 2;
  logs_truncated = false;
  error = none;
}

abbrev surroundings : Surroundings
surroundings = record {
  started_at = seconds 11;
  finished_at = seconds 12;
  inputs = none;
  secrets = "" ∷ "1234" ∷ [];
  result = leaking;
}

-- A worker takes the older job, and finds the secret.
leaking_run :
    let w = (process_one (seconds 10) "1.0" "worker" surroundings tables).0 in
    (map (λ j. j.status) w.jobs ≡ JobStatus.pending ∷ JobStatus.completed ∷ [])
    × (map (λ x. x.1.status) w.executions ≡ ExecutionStatus.failed ∷ [])
    × (w.states ≡ [])
unfolding max_of max_from process_one claim_job expire_executions run_job begin_execution
    finish_execution contains_secret
leaking_run = (refl, refl, refl)

claim_job-Oldest_example :
    ((claim_job (seconds 10) "worker" tables ≡ (recover_expired_leases (seconds 10) tables, none))
      × ((j : Job) → In j tables.jobs → claimable (seconds 10) j ≡ false))
    ⊎ ((j : Job) × In j tables.jobs
        × (claimable (seconds 10) j ≡ true)
        × Oldest (seconds 10) j tables.jobs
        × ((claim_job (seconds 10) "worker" tables).1 ≡ some (claimed (seconds 10) "worker" j))
        × ((claim_job (seconds 10) "worker" tables).0.jobs
            ≡ update_job j.id
                (claimed (seconds 10) "worker")
                (map (recover_row (seconds 10)) tables.jobs)))
claim_job-Oldest_example = claim_job-Oldest (seconds 10) "worker" tables

-- The tables with the job in the hands of a worker that is lost.
abbrev abandoned : Work
abandoned = record tables {
  jobs = claimed (seconds 10) "worker" job ∷ [];
  executions = ("run", record run { status = ExecutionStatus.running }) ∷ [];
}

recover_expired_leases-live_example :
    let w = recover_expired_leases (seconds 200) abandoned in
    All (λ j. is_stale (seconds 200) j ≡ false) w.jobs
    × (w.jobs ≡ map (recover_row (seconds 200)) abandoned.jobs)
    × ((j : Job) (id : String)
        → In j abandoned.jobs
        → is_stale (seconds 200) j ≡ true
        → (j.kind == "hook.execute") ≡ true
        → j.payload ≡ some id
        → quiet (get id w.executions) ≡ true)
recover_expired_leases-live_example = recover_expired_leases-live (seconds 200) abandoned

run_job-Clean_example :
    Clean surroundings.secrets
      (run_job surroundings (claimed (seconds 10) "worker" job) abandoned).states
run_job-Clean_example = run_job-Clean surroundings (claimed (seconds 10) "worker" job) abandoned tt

run_job-IsSettled_example :
    IsSettled
      (claimed (seconds 10) "worker" job)
      (run_job surroundings (claimed (seconds 10) "worker" job) abandoned)
run_job-IsSettled_example =
    run_job-IsSettled surroundings (claimed (seconds 10) "worker" job) abandoned refl

abbrev fresh : World
fresh = record { work = record tables { jobs = [] }; busy = [] }

abbrev queued : World
queued = enqueue_step later (enqueue_step job fresh)

-- Two workers ask for a job, and each gets one.
abbrev shared : World
shared = claim_step (seconds 10) "1.0" "second" (claim_step (seconds 10) "1.0" "first" queued)

shared-Reach : Reach fresh shared
shared-Reach =
    next
      (next (next (next here (enqueues job refl refl refl)) (enqueues later refl refl refl))
        (claims (seconds 10) "1.0" "first"))
      (claims (seconds 10) "1.0" "second")

shared-held : held shared.busy ≡ "later" ∷ "job" ∷ []
unfolding claim_step claim_job expire_executions max_of max_from
shared-held = refl

held-Distinct_example : Distinct (held shared.busy)
held-Distinct_example = held-Distinct {s = fresh} {t = shared} (refl, refl) shared-Reach
