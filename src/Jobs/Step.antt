-- ===== src/Jobs/Step.antt =====
-- Workers that share the tables: every step is a transaction of one of them, of the code that
-- enqueues jobs, or the loss of a worker. Steps of different workers come in any order.
pub mod Rows
pub mod Invariant
pub mod Transactions
pub mod Exclusion
use carhibou.Prelude.{
  ℕ, ◌≡◌, Bool, true, false, not, Option, none, some, String, List, [], ◌∷◌, ◌++◌, map, filter, In,
  if◌then◌else◌,
}
use Prim.Native.String.{◌++◌ as append_text}
use carhibou.Prelude.Equality.{◌==◌, string_eq, contains}
use carhibou.Prelude.Time.{Instant}
use carhibou.Jobs.{Job, pending, Work}
use carhibou.Jobs.Queue.{claim_job}
use carhibou.Jobs.Worker.{
  RuntimeResult, heartbeat, Beginning, refused, acknowledged, started, begin_execution,
  finish_execution, fail_job, or_fail,
}

-- A worker between two of its transactions: the job that it has claimed, and the execution that it
-- has started.
pub record Busy : Type 0 where
  pub worker : String
  pub job : Job
  pub execution : Option String

pub record World : Type 0 where
  pub work : Work
  pub busy : List Busy

abbrev pub held : List Busy → List String
held = map (λ b. b.job.id)

abbrev pub ids : List Job → List String
ids = map (λ j. j.id)

abbrev pub leave : String → List Busy → List Busy
leave id = filter (λ b. not (b.job.id == id))

abbrev pub mark : String → String → List Busy → List Busy
mark id execution = map (λ b. if b.job.id == id then record b { execution = some execution } else b)

-- The end of the first transaction of `process_one`.
abbrev pub claim_result : String → List Busy → Work → Option Job → World
claim_result worker busy w none = record { work = w; busy = busy }
claim_result worker busy w (some job) = record {
  work = w;
  busy = record { worker = worker; job = job; execution = none } ∷ busy;
}

unfoldable pub claim_step : Instant → String → String → World → World
claim_step now version worker s =
    let (w, job) = claim_job now worker (heartbeat now version worker s.work) in
    claim_result worker s.busy w job

abbrev pub begin_result : Instant → Job → World → Beginning → World
begin_result now job s (refused error) = record {
  work = fail_job now error job s.work;
  busy = leave job.id s.busy;
}
begin_result now job s (acknowledged w) = record { work = w; busy = leave job.id s.busy }
begin_result now job s (started id w) = record { work = w; busy = mark job.id id s.busy }

pub begin_step : Instant → Option String → Busy → World → World
begin_step now inputs b s = begin_result now b.job s (
    if b.job.kind == "hook.execute"
    then begin_execution now inputs b.job s.work
    else refused (append_text "unknown job type: " b.job.kind))

pub finish_step : Instant → List String → RuntimeResult → String → Busy → World → World
finish_step now secrets r id b s = record {
  work = or_fail now b.job s.work (finish_execution now secrets r id b.job.id s.work);
  busy = leave b.job.id s.busy;
}

pub fail_step : Instant → String → Busy → World → World
fail_step now error b s = record {
  work = fail_job now error b.job s.work;
  busy = leave b.job.id s.busy;
}

abbrev pub enqueue_step : Job → World → World
enqueue_step job s = record s { work = record s.work { jobs = s.work.jobs ++ job ∷ [] } }

pub data Step (s : World) : World → Type 0 where
  -- A new job, with a key that no row has.
  enqueues :
      (job : Job)
      → contains job.id (ids s.work.jobs) ≡ false
      → job.status ≡ pending
      → job.attempts ≡ 0
      → Step s (enqueue_step job s)
  claims : (now : Instant) (version worker : String) → Step s (claim_step now version worker s)
  begins :
      (b : Busy) (now : Instant) (inputs : Option String)
      → In b s.busy
      → b.execution ≡ none
      → Step s (begin_step now inputs b s)
  finishes :
      (b : Busy) (now : Instant) (secrets : List String) (r : RuntimeResult) (id : String)
      → In b s.busy
      → b.execution ≡ some id
      → Step s (finish_step now secrets r id b s)
  -- An exception anywhere else, such as in the start of the child process.
  fails :
      (b : Busy) (now : Instant) (error : String) → In b s.busy → Step s (fail_step now error b s)
  -- A worker that is lost writes nothing more.
  crashes : (b : Busy) → In b s.busy → Step s (record s { busy = leave b.job.id s.busy })

pub data Reach (s : World) : World → Type 0 where
  here : Reach s s
  next : {t u : World} → Reach s t → Step t u → Reach s u
