-- ===== src/Jobs/Worker.antt =====
-- backend/app/worker.py: `heartbeat`, `_contains_secret`, `execute_hook_job` in its two transactions
-- and `process_one`. The hook's child process and the tables that `build_runtime_input` reads are
-- not modelled: what they give is an argument.
pub mod Outcomes
pub mod Settled
use carhibou.Prelude.{
  ℕ, zero, suc, ◌+◌, Bool, true, false, ◌&&◌, ◌||◌, not, Option, none, some, is_some, String, List,
  [], ◌∷◌, any, if◌then◌else◌, ◌++◌,
}
use Prim.Native.String
use Prim.Native.String.{◌++◌ as append_text}
use package.text.Mathlib.Text.{find?}
use carhibou.Prelude.Equality.{◌==◌, string_eq, Dict, get, insert}
use carhibou.Prelude.Json.{
  Json, Items, Fields, null, bool, number, text, array, object, nil, cons, end, field,
}
use carhibou.Prelude.Time.{Instant}
use carhibou.Jobs.{
  Job, JobStatus, Execution, ExecutionStatus, HookState, WorkerHeartbeat, Work, success, is_open,
}
use carhibou.Jobs.Queue.{update_job, claim_job, fail_execution}

-- `any(secret and secret in value for secret in secrets)`
abbrev pub names_secret : List String → String → Bool
names_secret secrets value =
    any (λ secret. not (secret == "") && is_some (find? value secret)) secrets

-- `_contains_secret`
unfoldable mutual
  pub contains_secret : List String → Json → Bool
  contains_secret secrets null = false
  contains_secret secrets (bool b) = false
  contains_secret secrets (number n) = false
  contains_secret secrets (text value) = names_secret secrets value
  contains_secret secrets (array items) = items_contain_secret secrets items
  contains_secret secrets (object fields) = fields_contain_secret secrets fields

  pub items_contain_secret : List String → Items → Bool
  items_contain_secret secrets nil = false
  items_contain_secret secrets (cons item items) =
      contains_secret secrets item || items_contain_secret secrets items

  pub fields_contain_secret : List String → Fields → Bool
  fields_contain_secret secrets end = false
  fields_contain_secret secrets (field key item fields) =
      (names_secret secrets key || contains_secret secrets item)
      || fields_contain_secret secrets fields

-- `heartbeat`
abbrev pub heartbeat : Instant → String → String → Work → Work
heartbeat now version worker w = record w {
  heartbeats = insert worker (record { version = version; seen_at = now }) w.heartbeats;
}

-- The first characters of a text.
pub take_text : ℕ → String → String
take_text zero s = String.[]
take_text (suc n) String.[] = String.[]
take_text (suc n) (String.◌∷◌ c s) = String.◌∷◌ c (take_text n s)

-- `RuntimeResult`
pub record RuntimeResult : Type 0 where
  pub status : ExecutionStatus
  pub state : Json
  pub log_count : ℕ
  pub logs_truncated : Bool
  pub error : Option String

-- What a transaction ends in: an exception, with its text, or a commit.
pub data Outcome : Type 0 where
  raised : String → Outcome
  committed : Work → Outcome

-- What the first transaction of `execute_hook_job` ends in.
pub data Beginning : Type 0 where
  refused : String → Beginning
  acknowledged : Work → Beginning
  started : String → Work → Beginning

abbrev pub complete : Instant → Job → Job
complete now job = record job { status = JobStatus.completed; completed_at = some now }

abbrev pub release : Instant → Job → Job
release now job = record (complete now job) { locked_at = none; locked_by = none }

abbrev pub start_execution : Instant → Execution → Execution
start_execution now e = record e { status = ExecutionStatus.running; started_at = some now }

-- `execute_hook_job` up to its commit. `inputs` is the error of `build_runtime_input`, if it
-- raises one.
abbrev pub begin_with : Instant → Option String → String → Execution → Work → Beginning
begin_with now (some error) id e w = refused error
begin_with now none id e w =
    started id (record w { executions = insert id (start_execution now e) w.executions })

abbrev pub begin_at : Instant → Option String → String → Job → Option Execution → Work → Beginning
begin_at now inputs id job none w = refused "hook execution no longer exists"
begin_at now inputs id job (some e) w =
    if is_open e.status
    then begin_with now inputs id e w
    else acknowledged (record w { jobs = update_job job.id (complete now) w.jobs })

abbrev pub begin_payload : Instant → Option String → Job → Option String → Work → Beginning
begin_payload now inputs job none w = refused "hook job has no execution_id"
begin_payload now inputs job (some id) w = begin_at now inputs id job (get id w.executions) w

unfoldable pub begin_execution : Instant → Option String → Job → Work → Beginning
begin_execution now inputs job w = begin_payload now inputs job job.payload w

abbrev pub secret_error : String
secret_error = "hook state contains a secret value and was not persisted"

abbrev pub is_success : ExecutionStatus → Bool
is_success success = true
is_success _ = false

-- `result.status == "success" and _contains_secret(result.state, secrets)`
abbrev pub leaks : List String → RuntimeResult → Bool
leaks secrets r = is_success r.status && contains_secret secrets r.state

abbrev pub finish_status : Instant → List String → RuntimeResult → Execution → Execution
finish_status now secrets r e = record e {
  status = if leaks secrets r then ExecutionStatus.failed else r.status;
  log_count = r.log_count;
  logs_truncated = r.logs_truncated;
  error = if leaks secrets r then some secret_error else r.error;
  finished_at = some now;
}

-- `HookState` after a success.
abbrev pub next_hook_state : Instant → Json → Option HookState → HookState
next_hook_state now value none = record { value = value; version = 1; updated_at = now }
next_hook_state now value (some state) = record {
  value = value;
  version = state.version + 1;
  updated_at = now;
}

-- `db.get(Job, id)` is not None.
abbrev pub has_job : String → List Job → Bool
has_job id = any (λ job. job.id == id)

-- The states after the result of a hook.
abbrev pub finish_states :
    Instant → List String → RuntimeResult → String → Work → Dict String HookState
finish_states now secrets r hook_id w =
    if is_success r.status && not (leaks secrets r)
    then insert hook_id (next_hook_state now r.state (get hook_id w.states)) w.states
    else w.states

abbrev pub finish_at :
    Instant → List String → RuntimeResult → String → String → Option Execution → Work → Outcome
finish_at now secrets r id job_id none w = raised "execution state disappeared"
finish_at now secrets r id job_id (some e) w =
    if has_job job_id w.jobs
    then committed (record w {
      jobs = update_job job_id (release now) w.jobs;
      executions = insert id (finish_status now secrets r e) w.executions;
      states = finish_states now secrets r e.hook_id w;
    })
    else raised "execution state disappeared"

-- `execute_hook_job` after the child process has ended.
unfoldable pub finish_execution :
    Instant → List String → RuntimeResult → String → String → Work → Outcome
finish_execution now secrets r id job_id w =
    finish_at now secrets r id job_id (get id w.executions) w

abbrev pub fail_row : Instant → String → Job → Job
fail_row now error job = record job {
  status = JobStatus.failed;
  last_error = some error;
  completed_at = some now;
}

abbrev pub fail_at : Instant → String → String → Option Execution → Work → Work
fail_at now message id none w = w
fail_at now message id (some e) w =
    if is_open e.status
    then record w { executions = insert id (fail_execution now message e) w.executions }
    else w

abbrev pub fail_payload : Instant → String → Option String → Work → Work
fail_payload now message none w = w
fail_payload now message (some id) w = fail_at now message id (get id w.executions) w

-- The handler of `process_one`, on the tables after the rollback.
unfoldable pub fail_job : Instant → String → Job → Work → Work
fail_job now error job w =
    let message = take_text 4000 error in
    fail_payload now message job.payload
      (record w { jobs = update_job job.id (fail_row now message) w.jobs })

-- What a worker meets while it runs a job: the times of its transactions, the error of
-- `build_runtime_input`, and the secrets and the result of the child process.
pub record Surroundings : Type 0 where
  pub started_at : Instant
  pub finished_at : Instant
  pub inputs : Option String
  pub secrets : List String
  pub result : RuntimeResult

abbrev pub or_fail : Instant → Job → Work → Outcome → Work
or_fail now job before (raised error) = fail_job now error job before
or_fail now job before (committed w) = w

abbrev pub after_begin : Surroundings → Job → Work → Beginning → Work
after_begin s job before (refused error) = fail_job s.finished_at error job before
after_begin s job before (acknowledged w) = w
after_begin s job before (started id w) =
    or_fail s.finished_at job w (finish_execution s.finished_at s.secrets s.result id job.id w)

-- The body of `process_one` after the claim is committed.
unfoldable pub run_job : Surroundings → Job → Work → Work
run_job s job w =
    if job.kind == "hook.execute"
    then after_begin s job w (begin_execution s.started_at s.inputs job w)
    else fail_job s.finished_at (append_text "unknown job type: " job.kind) job w

-- `process_one`, where no other worker comes in between.
unfoldable pub process_one : Instant → String → String → Surroundings → Work → Work × Bool
process_one now version worker s w =
    let (taken, job) = claim_job now worker (heartbeat now version worker w) in
    elim job [ none ↦ (taken, false) | some j ↦ (run_job s j taken, true) ]
