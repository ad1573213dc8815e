-- ===== src/Jobs.antt =====
-- backend/app/jobs and backend/app/worker.py: the queue of jobs, and the workers that run hooks.
-- The tables of jobs/models.py and hooks/models.py, with the columns that a worker reads or writes.
pub mod Queue
pub mod Worker
pub mod Step
mod Tests
use carhibou.Prelude.{ℕ, Bool, true, false, Option, String, List}
use carhibou.Prelude.Equality.{Dict}
use carhibou.Prelude.Json.{Json}
use carhibou.Prelude.Time.{Instant, Duration, seconds}

-- The values of `Job.status` that the program writes.
pub data JobStatus : Type 0 where
  pending running completed failed : JobStatus

-- The values of `HookExecution.status` that the program writes.
pub data ExecutionStatus : Type 0 where
  pending running success failed timeout : ExecutionStatus

-- `payload` is what `payload.get("execution_id")` gives where that is a text.
pub record Job : Type 0 where
  pub id : String
  pub kind : String
  pub payload : Option String
  pub status : JobStatus
  pub attempts : ℕ
  pub next_attempt_at : Instant
  pub locked_at : Option Instant
  pub locked_by : Option String
  pub created_at : Instant
  pub completed_at : Option Instant
  pub last_error : Option String

pub record Execution : Type 0 where
  pub hook_id : String
  pub status : ExecutionStatus
  pub started_at : Option Instant
  pub finished_at : Option Instant
  pub log_count : ℕ
  pub logs_truncated : Bool
  pub error : Option String

pub record HookState : Type 0 where
  pub value : Json
  pub version : ℕ
  pub updated_at : Instant

pub record WorkerHeartbeat : Type 0 where
  pub version : String
  pub seen_at : Instant

-- The tables that a worker writes; all but the jobs are kept under their primary keys.
pub record Work : Type 0 where
  pub jobs : List Job
  pub executions : Dict String Execution
  pub states : Dict String HookState
  pub heartbeats : Dict String WorkerHeartbeat

-- `LEASE_SECONDS`
abbrev pub lease : Duration
lease = seconds 180

abbrev pub is_pending : JobStatus → Bool
is_pending pending = true
is_pending _ = false

abbrev pub is_running : JobStatus → Bool
is_running running = true
is_running _ = false

abbrev pub is_running_execution : ExecutionStatus → Bool
is_running_execution running = true
is_running_execution _ = false

-- `status in {"pending", "running"}`
abbrev pub is_open : ExecutionStatus → Bool
is_open pending = true
is_open running = true
is_open _ = false
