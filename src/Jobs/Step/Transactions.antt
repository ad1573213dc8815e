-- ===== src/Jobs/Step/Transactions.antt =====
-- backend/app/worker.py: the transactions of a worker and the invariant.
use carhibou.Prelude.{
  ◌≡◌, refl, sym, subst, inl, inr, true, false, Option, none, some, String, List, [], ◌∷◌, map, In,
  All, All_In, All-of, Bool-cases, if◌then◌else◌,
}
use carhibou.Prelude.Equality.{◌==◌, string_eq, get, contains}
use carhibou.Prelude.Keys.{contains-map, only_row}
use carhibou.Prelude.Time.{Instant}
use carhibou.Jobs.{Job, Execution, Work, is_pending, is_open}
use carhibou.Jobs.Queue.{claimed, update_job}
use carhibou.Jobs.Queue.Claims.{recover_row, claimable-pending, In-recovered, claim_job-Oldest}
use carhibou.Jobs.Queue.Recovery.{recover_expired_leases-live}
use carhibou.Jobs.Worker.{
  RuntimeResult, heartbeat, Beginning, refused, acknowledged, started, begin_execution,
  begin_payload, begin_at, begin_with, complete, release, has_job, finish_at, fail_job, or_fail,
}
use carhibou.Jobs.Step.{Busy, World, held, mark, claim_step, begin_result, begin_step}
use carhibou.Jobs.Step.Rows.{Taken, ids-map, recover-Keeps, claimed-Keeps}
use carhibou.Jobs.Step.Invariant.{
  AreSound, Inv, map-AreSound, Touches, complete-Ends, release-Ends, fail_job-Touches, leave-Inv,
}

-- What the first transaction of a job's holder does to the rows.
abbrev BeginTouches : Job → Work → Beginning → Type 0
BeginTouches job w (refused error) = Unit
BeginTouches job w (acknowledged w') = Touches job.id w.jobs w'.jobs
BeginTouches job w (started id w') = w'.jobs ≡ w.jobs

begin_with-Touches :
    (now : Instant) (i : Option String) (id : String) (job : Job) (e : Execution) (w : Work)
    → BeginTouches job w (begin_with now i id e w)
begin_with-Touches now none id job e w = refl
begin_with-Touches now (some error) id job e w = tt

begin_at-Touches :
    (now : Instant) (i : Option String) (id : String) (job : Job) (o : Option Execution) (w : Work)
    → BeginTouches job w (begin_at now i id job o w)
begin_at-Touches now i id job none w = tt
begin_at-Touches now i id job (some e) w = elim (Bool-cases (is_open e.status)) [
  | inl opened ↦ rw (opened, if◌then◌else◌) (begin_with-Touches now i id job e w)
  | inr shut ↦ rw (shut, if◌then◌else◌) (inr (complete now, complete-Ends now, refl))
]

begin_payload-Touches :
    (now : Instant) (i : Option String) (job : Job) (p : Option String) (w : Work)
    → BeginTouches job w (begin_payload now i job p w)
begin_payload-Touches now i job none w = tt
begin_payload-Touches now i job (some id) w = begin_at-Touches now i id job (get id w.executions) w

pub held-mark : (id k : String) (busy : List Busy) → held (mark id k busy) ≡ held busy
held-mark id k [] = refl
held-mark id k (b ∷ busy) = elim (Bool-cases (b.job.id == id)) [
  | inl same ↦ rw (same, held-mark id k busy)
  | inr other ↦ rw (other, held-mark id k busy)
]

mark-Taken :
    (id k : String) (jobs : List Job) (busy : List Busy)
    → All (λ b. Taken b.job.id jobs) busy
    → All (λ b. Taken b.job.id jobs) (mark id k busy)
mark-Taken id k jobs [] h = tt
mark-Taken id k jobs (b ∷ busy) h = elim (Bool-cases (b.job.id == id)) [
  | inl same ↦ rw (same, if◌then◌else◌) (h.0, mark-Taken id k jobs busy h.1)
  | inr other ↦ rw (other, if◌then◌else◌) (h.0, mark-Taken id k jobs busy h.1)
]

begin_result-Inv :
    (now : Instant) (b : Busy) (s : World) (r : Beginning)
    → In b s.busy
    → BeginTouches b.job s.work r
    → Inv s
    → Inv (begin_result now b.job s r)
begin_result-Inv now b s (refused error) m t v =
    leave-Inv b s (fail_job now error b.job s.work) m (fail_job-Touches now error b.job s.work) v
begin_result-Inv now b s (acknowledged w) m t v = leave-Inv b s w m t v
begin_result-Inv now b s (started id w) m t v = record {
  sound = record {
    distinct = rw t v.sound.distinct;
    counted = rw t v.sound.counted;
    taken = rw t (mark-Taken b.job.id id s.work.jobs s.busy v.sound.taken);
  };
  exclusive = rw (held-mark b.job.id id s.busy) v.exclusive;
}

pub begin_step-Inv :
    (now : Instant) (i : Option String) (b : Busy) (s : World)
    → In b s.busy
    → Inv s
    → Inv (begin_step now i b s)
unfolding begin_step begin_execution
begin_step-Inv now i b s m v = elim (Bool-cases (b.job.kind == "hook.execute")) [
  | inl hook ↦
      rw (hook, if◌then◌else◌)
        (begin_result-Inv now b s (begin_execution now i b.job s.work) m
          (begin_payload-Touches now i b.job b.job.payload s.work) v)
  | inr other ↦ rw (other, if◌then◌else◌) (begin_result-Inv now b s (refused _) m tt v)
]

pub finish_at-Touches :
    (now : Instant) (secrets : List String) (r : RuntimeResult) (id : String) (job : Job)
    (o : Option Execution) (w : Work)
    → Touches job.id w.jobs (or_fail now job w (finish_at now secrets r id job.id o w)).jobs
finish_at-Touches now secrets r id job none w = fail_job-Touches now _ job w
finish_at-Touches now secrets r id job (some e) w = elim (Bool-cases (has_job job.id w.jobs)) [
  | inl there ↦ rw (there, if◌then◌else◌) (inr (release now, release-Ends now, refl))
  | inr gone ↦ rw (gone, if◌then◌else◌) (fail_job-Touches now _ job w)
]

-- The job that a claim takes is in nobody's hands.
free_to_claim :
    (job : Job) (jobs : List Job) (busy : List Busy)
    → In job jobs
    → is_pending job.status ≡ true
    → All (λ b. Taken b.job.id jobs) busy
    → contains job.id (held busy) ≡ false
free_to_claim job jobs [] m p t = refl
free_to_claim job jobs (b ∷ busy) m p t = elim (Bool-cases (b.job.id == job.id)) [
  | inl same ↦
      let again =
        (string_eq.same_iff job.id b.job.id).1
          (sym ((string_eq.same_iff b.job.id job.id).0 same)) in
      cc (
        p,
        All_In (λ (j : Job). (j.id == b.job.id) ≡ true → is_pending j.status ≡ false) jobs job t.0.1
            m again,
      )
  | inr other ↦ rw other (free_to_claim job jobs busy m p t.1)
]

claimed_rows :
    (now : Instant) (worker id : String) (jobs : List Job)
    → All
        (λ j. (j.id == id) ≡ true → is_pending j.status ≡ false)
        (update_job id (claimed now worker) jobs)
claimed_rows now worker id [] = tt
claimed_rows now worker id (j ∷ jobs) = (
  elim (Bool-cases (j.id == id)) [
    | inl same ↦ rw (same, if◌then◌else◌) (λ _. refl)
    | inr other ↦ rw (other, if◌then◌else◌) (λ same. cc)
  ],
  claimed_rows now worker id jobs,
)

-- The rows after the claim of a job that waited.
claim-AreSound :
    (now : Instant) (worker : String) (job : Job) (jobs : List Job) (busy : List Busy)
    → In job jobs
    → is_pending job.status ≡ true
    → AreSound jobs busy
    → AreSound
        (update_job job.id (claimed now worker) jobs)
        (record { worker = worker; job = claimed now worker job; execution = none } ∷ busy)
claim-AreSound now worker job jobs busy m p v =
    let keeps = claimed-Keeps now worker job.id jobs (
      All-of (λ (j : Job). (j.id == job.id) ≡ true → is_pending j.status ≡ true) jobs
        λ j n e.
          subst (λ (x : Job). is_pending x.status ≡ true)
            (only_row (λ (x : Job). x.id) jobs job j v.distinct m n
              ((string_eq.same_iff j.id job.id).0 e))
            p) in
    let f : Job → Job = λ j. if j.id == job.id then claimed now worker j else j in
    let sound = map-AreSound f jobs busy keeps v in
    record {
      distinct = sound.distinct;
      counted = sound.counted;
      taken = (
        (
          rw (ids-map f jobs keeps) (contains-map (λ (j : Job). j.id) jobs job m),
          claimed_rows now worker job.id jobs,
        ),
        sound.taken,
      );
    }

pub claim_step-Inv :
    (now : Instant) (version worker : String) (s : World)
    → Inv s
    → Inv (claim_step now version worker s)
unfolding claim_step
claim_step-Inv now version worker s v =
    let w = heartbeat now version worker s.work in
    let rows = map (recover_row now) s.work.jobs in
    let sound =
      map-AreSound (recover_row now) s.work.jobs s.busy (recover-Keeps now s.work.jobs) v.sound in
    elim (claim_job-Oldest now worker w) [
      | inl (e, idle) ↦ rw e (record {
        sound = rw ((recover_expired_leases-live now w).1) sound;
        exclusive = v.exclusive;
      })
      | inr (job, m, c, oldest, e, rows_after) ↦
          let waits = claimable-pending now job c in
          let there = In-recovered now job s.work.jobs m waits in
          rw e (record {
            sound = rw rows_after (claim-AreSound now worker job rows s.busy there waits sound);
            exclusive = (free_to_claim job rows s.busy there waits sound.taken, v.exclusive);
          })
    ]
