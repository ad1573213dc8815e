-- ===== src/Jobs/Queue.antt =====
-- backend/app/jobs/services.py: `recover_expired_leases` and `claim_job`. Every call of `utcnow`
-- in one of them gives the same instant.
pub mod Claims
pub mod Recovery
use carhibou.Prelude.{
  ℕ, ◌+◌, Bool, true, false, ◌&&◌, ◌||◌, Option, none, some, String, List, [], ◌∷◌, map, filter,
  ltb, leb, if◌then◌else◌,
}
use carhibou.Prelude.Equality.{◌==◌, string_eq, get, insert}
use carhibou.Prelude.Maximum.{max_of}
use carhibou.Prelude.Time.{Instant}
use carhibou.Jobs.{
  Job, JobStatus, ExecutionStatus, Execution, Work, lease, is_pending, is_running,
  is_running_execution,
}

-- `locked_at < now - lease`, which no missing time satisfies.
abbrev pub lock_expired : Instant → Option Instant → Bool
lock_expired now none = false
lock_expired now (some locked) = ltb (locked + lease) now

abbrev pub is_stale : Instant → Job → Bool
is_stale now job = is_running job.status && lock_expired now job.locked_at

abbrev pub lease_error : String
lease_error = "worker lease expired; manual retry required"

abbrev pub expire_job : Instant → Job → Job
expire_job now job = record job {
  status = JobStatus.failed;
  last_error = some lease_error;
  completed_at = some now;
}

abbrev pub fail_execution : Instant → String → Execution → Execution
fail_execution now error e = record e {
  status = ExecutionStatus.failed;
  error = some error;
  finished_at = some now;
}

-- What the loop does to the execution of a stale job.
abbrev pub expire_at : Instant → String → Option Execution → Work → Work
expire_at now id none w = w
expire_at now id (some e) w =
    if is_running_execution e.status
    then record w { executions = insert id (fail_execution now lease_error e) w.executions }
    else w

abbrev pub expire_payload : Instant → Option String → Work → Work
expire_payload now none w = w
expire_payload now (some id) w = expire_at now id (get id w.executions) w

abbrev pub expire_execution : Instant → Job → Work → Work
expire_execution now job w =
    if job.kind == "hook.execute" then expire_payload now job.payload w else w

-- The executions of the stale jobs among those given.
unfoldable pub expire_executions : Instant → List Job → Work → Work
expire_executions now [] w = w
expire_executions now (job ∷ jobs) w = expire_executions now jobs (expire_execution now job w)

-- `recover_expired_leases`
pub recover_expired_leases : Instant → Work → Work
recover_expired_leases now w =
    let recovered = expire_executions now (filter (is_stale now) w.jobs) w in
    record recovered {
      jobs = map (λ job. if is_stale now job then expire_job now job else job) w.jobs;
    }

-- `locked_at IS NULL`
abbrev pub no_lock : Option Instant → Bool
no_lock none = true
no_lock (some t) = false

-- The condition of the query of `claim_job`.
abbrev pub claimable : Instant → Job → Bool
claimable now job =
    is_pending job.status
    && (leb job.next_attempt_at now && (no_lock job.locked_at || lock_expired now job.locked_at))

-- The order of the query: the oldest first.
abbrev pub newer : Job → Job → Bool
newer a b = ltb b.created_at a.created_at

abbrev pub claimed : Instant → String → Job → Job
claimed now worker job = record job {
  status = JobStatus.running;
  locked_at = some now;
  locked_by = some worker;
  attempts = job.attempts + 1;
}

-- A write to the row of one job.
abbrev pub update_job : String → (Job → Job) → List Job → List Job
update_job id f = map (λ job. if job.id == id then f job else job)

abbrev pub next_job : Instant → List Job → Option Job
next_job now jobs = max_of newer (filter (claimable now) jobs)

-- `claim_job`
unfoldable pub claim_job : Instant → String → Work → Work × Option Job
unfolding recover_expired_leases
claim_job now worker w =
    let recovered = recover_expired_leases now w in
    elim (next_job now recovered.jobs) [
      | none ↦ (recovered, none)
      | some job ↦ (
        record recovered { jobs = update_job job.id (claimed now worker) recovered.jobs },
        some (claimed now worker job),
      )
    ]
