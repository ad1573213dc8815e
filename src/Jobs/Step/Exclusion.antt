-- ===== src/Jobs/Step/Exclusion.antt =====
-- backend/app/worker.py and backend/app/jobs/services.py: who holds and who has tried a job,
-- over all orders of the transactions.
use carhibou.Prelude.{
  ◌≡◌, refl, ap, inl, true, false, String, List, [], ◌∷◌, ◌++◌, All, All_In, All-of, All-append,
  arith,
}
use mathlib.Core.List.{map-append}
use carhibou.Prelude.Equality.{◌==◌, string_eq, get, contains, contains-append}
use carhibou.Prelude.Keys.{Distinct}
use carhibou.Jobs.{Job, pending, is_pending}
use carhibou.Jobs.Worker.{finish_execution}
use carhibou.Jobs.Step.{
  Busy, World, held, ids, finish_step, fail_step, enqueue_step, Step, enqueues, claims, begins,
  finishes, fails, crashes, Reach, here, next,
}
use carhibou.Jobs.Step.Rows.{Counted, Taken}
use carhibou.Jobs.Step.Invariant.{Inv, fail_job-Touches, leave-Inv}
use carhibou.Jobs.Step.Transactions.{begin_step-Inv, claim_step-Inv, finish_at-Touches}

ids-append :
    (jobs : List Job) (job : Job)
    → contains job.id (ids jobs) ≡ false
    → Distinct (ids jobs)
    → Distinct (ids (jobs ++ job ∷ []))
ids-append [] job h d = (refl, tt)
ids-append (j ∷ jobs) job h d = (
  ground (
    arith,
    ap (contains j.id) (map-append (λ (x : Job). x.id) jobs (job ∷ [])),
    contains-append j.id (ids jobs) (job.id ∷ []),
    string_eq.same_iff j.id job.id,
    string_eq.same_iff job.id j.id,
  ),
  ids-append jobs job (ground arith) d.1,
)

Taken-append :
    (id : String) (jobs : List Job) (job : Job)
    → contains job.id (ids jobs) ≡ false
    → Taken id jobs
    → Taken id (jobs ++ job ∷ [])
Taken-append id jobs job h t = (
  ground (
    arith,
    ap (contains id) (map-append (λ (x : Job). x.id) jobs (job ∷ [])),
    contains-append id (ids jobs) (job.id ∷ []),
    t.0,
  ),
  All-append (λ (j : Job). (j.id == id) ≡ true → is_pending j.status ≡ false) jobs (job ∷ []) t.1
      (λ e. cc (h, t.0, ap (λ k. contains k (ids jobs)) ((string_eq.same_iff job.id id).0 e)), tt),
)

enqueue_step-Inv :
    (job : Job) (s : World)
    → contains job.id (ids s.work.jobs) ≡ false
    → job.status ≡ pending
    → job.attempts ≡ 0
    → Inv s
    → Inv (enqueue_step job s)
enqueue_step-Inv job s fresh p a v = record {
  sound = record {
    distinct = ids-append s.work.jobs job fresh v.sound.distinct;
    counted = All-append Counted s.work.jobs (job ∷ []) v.sound.counted (rw (p, a), tt);
    taken =
        All-of (λ (b : Busy). Taken b.job.id (s.work.jobs ++ job ∷ [])) s.busy
          λ b m.
            Taken-append b.job.id s.work.jobs job fresh
              (All_In (λ (b : Busy). Taken b.job.id s.work.jobs) s.busy b v.sound.taken m);
  };
  exclusive = v.exclusive;
}

-- Every step keeps the invariant.
Step-Inv : {s t : World} → Step s t → Inv s → Inv t
unfolding finish_step fail_step finish_execution
Step-Inv {s} (enqueues job fresh p a) v = enqueue_step-Inv job s fresh p a v
Step-Inv {s} (claims now version worker) v = claim_step-Inv now version worker s v
Step-Inv {s} (begins b now i m e) v = begin_step-Inv now i b s m v
Step-Inv {s} (finishes b now secrets r id m e) v =
    leave-Inv b s _ m (finish_at-Touches now secrets r id b.job (get id s.work.executions) s.work) v
Step-Inv {s} (fails b now error m) v = leave-Inv b s _ m (fail_job-Touches now error b.job s.work) v
Step-Inv {s} (crashes b m) v = leave-Inv b s s.work m (inl refl) v

Reach-Inv : {s t : World} → Reach s t → Inv s → Inv t
Reach-Inv here v = v
Reach-Inv (next r st) v = Step-Inv st (Reach-Inv r v)

-- A world in which nothing has happened.
abbrev pub IsFresh : World → Type 0
IsFresh s = (s.work.jobs ≡ []) × (s.busy ≡ [])

IsFresh-Inv : (s : World) → IsFresh s → Inv s
IsFresh-Inv s h = record {
  sound = record { distinct = rw h.0 tt; counted = rw h.0 tt; taken = rw h.1 tt };
  exclusive = rw h.1 tt;
}

-- From a world without jobs and workers on, whatever the order of the transactions, with lost
-- workers and expired leases: no two workers hold the same job.
pub held-Distinct : {s t : World} → IsFresh s → Reach s t → Distinct (held t.busy)
held-Distinct {s} h r = (Reach-Inv r (IsFresh-Inv s h)).exclusive

-- From a world without jobs and workers on, whatever the order of the transactions: a job that
-- waits has not been tried, and from its first claim on its count of attempts stays one.
pub Reach-Counted : {s t : World} → IsFresh s → Reach s t → All Counted t.work.jobs
Reach-Counted {s} h r = (Reach-Inv r (IsFresh-Inv s h)).sound.counted
