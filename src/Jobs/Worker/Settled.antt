-- ===== src/Jobs/Worker/Settled.antt =====
-- backend/app/worker.py: the rows of a job and of its execution after its run.
use carhibou.Prelude.{
  ◌≡◌, refl, inl, inr, Bool, true, false, not, Option, none, some, String, List, [], ◌∷◌, All,
  Bool-cases, if◌then◌else◌, arith,
}
use carhibou.Prelude.Equality.{◌==◌, string_eq, get, get-insert_self}
use carhibou.Prelude.Time.{Instant}
use carhibou.Jobs.{Job, JobStatus, completed, failed, Execution, Work, is_open}
use carhibou.Jobs.Queue.{update_job, fail_execution}
use carhibou.Jobs.Worker.{
  RuntimeResult, Outcome, raised, committed, Beginning, refused, acknowledged, started,
  Surroundings, finish_status, complete, release, fail_row, finish_at, finish_execution, fail_at,
  fail_payload, fail_job, begin_execution, begin_payload, begin_at, begin_with, after_begin,
  or_fail, run_job, has_job, take_text,
}

-- The statuses that no worker changes any more.
abbrev pub is_done : JobStatus → Bool
is_done completed = true
is_done failed = true
is_done _ = false

-- No execution that waits or runs.
abbrev pub shut : Option Execution → Bool
shut none = true
shut (some e) = not (is_open e.status)

abbrev pub ShutPayload : Option String → Work → Type 0
ShutPayload none w = Unit
ShutPayload (some id) w = shut (get id w.executions) ≡ true

-- The rows of a job are done, and its execution neither waits nor runs.
pub record IsSettled (job : Job) (w : Work) : Type 0 where
  pub done : All (λ j. (j.id == job.id) ≡ true → is_done j.status ≡ true) w.jobs
  pub ended : ShutPayload job.payload w

update_job-done :
    (id : String) (f : Job → Job) (jobs : List Job)
    → ((j : Job) → (f j).id ≡ j.id)
    → ((j : Job) → is_done (f j).status ≡ true)
    → All (λ j. (j.id == id) ≡ true → is_done j.status ≡ true) (update_job id f jobs)
update_job-done id f [] keeps d = tt
update_job-done id f (j ∷ jobs) keeps d = (
  elim (Bool-cases (j.id == id)) [
    | inl same ↦ rw (same, if◌then◌else◌) (λ _. d j)
    | inr other ↦ rw (other, if◌then◌else◌) (λ same. cc)
  ],
  update_job-done id f jobs keeps d,
)

fail_at-shut :
    (now : Instant) (message id : String) (o : Option Execution) (w : Work)
    → get id w.executions ≡ o
    → shut (get id (fail_at now message id o w).executions) ≡ true
fail_at-shut now message id none w e = rw e
fail_at-shut now message id (some x) w e = elim (Bool-cases (is_open x.status)) [
  | inl opened ↦
      rw (opened, if◌then◌else◌)
        (rw (get-insert_self id (fail_execution now message x) w.executions))
  | inr other ↦ rw (other, if◌then◌else◌) (rw (e, other))
]

fail_payload-shut :
    (now : Instant) (message : String) (p : Option String) (w : Work)
    → ShutPayload p (fail_payload now message p w)
fail_payload-shut now message none w = tt
fail_payload-shut now message (some id) w = fail_at-shut now message id (get id w.executions) w refl

fail_at-jobs :
    (now : Instant) (message id : String) (o : Option Execution) (w : Work)
    → (fail_at now message id o w).jobs ≡ w.jobs
fail_at-jobs now message id none w = refl
fail_at-jobs now message id (some e) w = ground arith

pub fail_payload-jobs :
    (now : Instant) (message : String) (p : Option String) (w : Work)
    → (fail_payload now message p w).jobs ≡ w.jobs
fail_payload-jobs now message none w = refl
fail_payload-jobs now message (some id) w = fail_at-jobs now message id (get id w.executions) w

fail_job-IsSettled :
    (now : Instant) (error : String) (job : Job) (w : Work)
    → IsSettled job (fail_job now error job w)
unfolding fail_job
fail_job-IsSettled now error job w =
    let message = take_text 4000 error in
    let rows = record w { jobs = update_job job.id (fail_row now message) w.jobs } in
    record {
      done =
          rw (fail_payload-jobs now message job.payload rows)
            (update_job-done job.id (fail_row now message) w.jobs (λ j. refl) (λ j. refl));
      ended = fail_payload-shut now message job.payload rows;
    }

-- What must hold of the first transaction for the second to settle the job.
abbrev Settles : Job → Beginning → Type 0
Settles job (refused error) = Unit
Settles job (acknowledged w) = IsSettled job w
Settles job (started id w) = job.payload ≡ some id

begin_at-Settles :
    (now : Instant) (inputs : Option String) (id : String) (job : Job) (o : Option Execution)
    (w : Work)
    → job.payload ≡ some id
    → get id w.executions ≡ o
    → Settles job (begin_at now inputs id job o w)
begin_at-Settles now inputs id job none w p e = tt
begin_at-Settles now inputs id job (some x) w p e = elim (Bool-cases (is_open x.status)) [
  | inl opened ↦ rw (opened, if◌then◌else◌) (begin_with-Settles inputs)
  | inr other ↦
      rw (other, if◌then◌else◌)
        (record {
          done = update_job-done job.id (complete now) w.jobs (λ j. refl) (λ j. refl);
          ended = rw (p, ShutPayload) (rw (e, other));
        })
]
  where
    begin_with-Settles : (i : Option String) → Settles job (begin_with now i id x w)
    begin_with-Settles none = p
    begin_with-Settles (some error) = tt

begin_payload-Settles :
    (now : Instant) (inputs : Option String) (job : Job) (p : Option String) (w : Work)
    → job.payload ≡ p
    → Settles job (begin_payload now inputs job p w)
begin_payload-Settles now inputs job none w e = tt
begin_payload-Settles now inputs job (some id) w e =
    begin_at-Settles now inputs id job (get id w.executions) w e refl

finish_status-ended :
    (now : Instant) (secrets : List String) (r : RuntimeResult) (e : Execution)
    → is_open r.status ≡ false
    → is_open (finish_status now secrets r e).status ≡ false
finish_status-ended now secrets r e h = ground arith

abbrev Finishes : Job → Outcome → Type 0
Finishes job (raised error) = Unit
Finishes job (committed w) = IsSettled job w

finish_at-Finishes :
    (now : Instant) (secrets : List String) (r : RuntimeResult) (id : String) (job : Job)
    (o : Option Execution) (w : Work)
    → is_open r.status ≡ false
    → job.payload ≡ some id
    → Finishes job (finish_at now secrets r id job.id o w)
finish_at-Finishes now secrets r id job none w h p = tt
finish_at-Finishes now secrets r id job (some x) w h p = elim (Bool-cases (has_job job.id w.jobs)) [
  | inl there ↦
      rw (there, if◌then◌else◌)
        (record {
          done = update_job-done job.id (release now) w.jobs (λ j. refl) (λ j. refl);
          ended =
              rw (p, ShutPayload)
                (rw (get-insert_self id (finish_status now secrets r x) w.executions)
                  (rw (finish_status-ended now secrets r x h)));
        })
  | inr gone ↦ rw (gone, if◌then◌else◌) tt
]

or_fail-IsSettled :
    (now : Instant) (job : Job) (w : Work) (o : Outcome)
    → Finishes job o
    → IsSettled job (or_fail now job w o)
or_fail-IsSettled now job w (raised error) h = fail_job-IsSettled now error job w
or_fail-IsSettled now job w (committed w') h = h

after_begin-IsSettled :
    (s : Surroundings) (job : Job) (w : Work) (b : Beginning)
    → is_open s.result.status ≡ false
    → Settles job b
    → IsSettled job (after_begin s job w b)
unfolding finish_execution
after_begin-IsSettled s job w (refused error) h k = fail_job-IsSettled s.finished_at error job w
after_begin-IsSettled s job w (acknowledged w') h k = k
after_begin-IsSettled s job w (started id w') h k =
    or_fail-IsSettled s.finished_at job w'
      (finish_execution s.finished_at s.secrets s.result id job.id w')
      (finish_at-Finishes s.finished_at s.secrets s.result id job (get id w'.executions) w' h k)

-- However the run of a job ends, where the child process reports that it has ended: the job is
-- completed or failed afterwards, and its execution neither waits nor runs.
pub run_job-IsSettled :
    (s : Surroundings) (job : Job) (w : Work)
    → is_open s.result.status ≡ false
    → IsSettled job (run_job s job w)
unfolding run_job begin_execution
run_job-IsSettled s job w h = elim (Bool-cases (job.kind == "hook.execute")) [
  | inl hook ↦
      rw (hook, if◌then◌else◌)
        (after_begin-IsSettled s job w (begin_execution s.started_at s.inputs job w) h
          (begin_payload-Settles s.started_at s.inputs job job.payload w refl))
  | inr other ↦ rw (other, if◌then◌else◌) (fail_job-IsSettled s.finished_at _ job w)
]
