-- ===== src/Jobs/Queue/Claims.antt =====
-- backend/app/jobs/services.py: which job `claim_job` takes.
use carhibou.Prelude.{
  ◌≤◌, ◌≡◌, sym, ◌∙◌, subst, ◌⊎◌, inl, inr, true, false, none, some, String, List, [], ◌∷◌, map,
  filter, In, In-filter, In-filter_of, Bool-cases, Option-cases, if◌then◌else◌, arith,
}
use carhibou.Prelude.Maximum.{IsWeakOrder, max_of-In, max_of-none, max_of-max}
use carhibou.Prelude.Time.{Instant}
use carhibou.Jobs.{Job, Work, is_pending}
use carhibou.Jobs.Queue.{
  is_stale, expire_job, recover_expired_leases, claimable, newer, claimed, update_job, next_job,
  claim_job,
}

abbrev pub recover_row : Instant → Job → Job
recover_row now job = if is_stale now job then expire_job now job else job

recover_row-pending :
    (now : Instant) (job : Job) → is_pending job.status ≡ true → recover_row now job ≡ job
recover_row-pending now job p = ground arith

recover_row-still_pending :
    (now : Instant) (job : Job)
    → is_pending (recover_row now job).status ≡ true
    → recover_row now job ≡ job
recover_row-still_pending now job p = ground arith

recovered-In :
    (now : Instant) (job : Job) (jobs : List Job)
    → In job (map (recover_row now) jobs)
    → is_pending job.status ≡ true
    → In job jobs
recovered-In now job [] h p = absurd h
recovered-In now job (j ∷ jobs) (inl e) p =
    inl (e ∙ recover_row-still_pending now j (subst (λ (x : Job). is_pending x.status ≡ true) e p))
recovered-In now job (j ∷ jobs) (inr h) p = inr (recovered-In now job jobs h p)

pub In-recovered :
    (now : Instant) (job : Job) (jobs : List Job)
    → In job jobs
    → is_pending job.status ≡ true
    → In job (map (recover_row now) jobs)
In-recovered now job [] h p = absurd h
In-recovered now job (j ∷ jobs) (inl e) p =
    inl (e ∙ sym (recover_row-pending now j (subst (λ (x : Job). is_pending x.status ≡ true) e p)))
In-recovered now job (j ∷ jobs) (inr h) p = inr (In-recovered now job jobs h p)

newer-IsWeakOrder : IsWeakOrder newer
newer-IsWeakOrder = record { asym = λ a b h. ground arith; negtrans = λ a b c h k. ground arith }

pub claimable-pending :
    (now : Instant) (job : Job) → claimable now job ≡ true → is_pending job.status ≡ true
claimable-pending now job h = ground arith

-- A job that waits is the one that is claimed, or is not older than it.
abbrev pub Oldest : Instant → Job → List Job → Type 0
Oldest now job jobs =
    (other : Job) → In other jobs → claimable now other ≡ true → job.created_at ≤ other.created_at

next_job-Oldest :
    (now : Instant) (jobs : List Job) {job : Job}
    → next_job now (map (recover_row now) jobs) ≡ some job
    → In job jobs × (claimable now job ≡ true) × Oldest now job jobs
next_job-Oldest now jobs {job} e =
    let rows = map (recover_row now) jobs in
    let (m, c) =
      In-filter (claimable now) job rows (max_of-In newer (filter (claimable now) rows) e) in
    (
      recovered-In now job jobs m (claimable-pending now job c),
      c,
      λ other h p. not_newer job other (
          max_of-max newer newer-IsWeakOrder (filter (claimable now) rows) {a = job} other e (
            In-filter_of (claimable now) other rows
              (In-recovered now other jobs h (claimable-pending now other p)) p)),
    )
  where
    not_newer : (a b : Job) → newer a b ≡ false → a.created_at ≤ b.created_at
    not_newer a b h = ground arith

next_job-none :
    (now : Instant) (jobs : List Job)
    → next_job now (map (recover_row now) jobs) ≡ none
    → (job : Job) → In job jobs
    → claimable now job ≡ false
next_job-none now jobs e job h = elim (Bool-cases (claimable now job)) [
  | inl c ↦ absurd (
      max_of-none newer (filter (claimable now) (map (recover_row now) jobs)) job e (
        In-filter_of (claimable now) job (map (recover_row now) jobs)
          (In-recovered now job jobs h (claimable-pending now job c)) c))
  | inr c ↦ c
]

-- `claim_job` finds nothing only where no job may be claimed. Otherwise it takes a job that may be
-- claimed and that is as old as every other one, marks its row as running under the worker's
-- lease, and counts the attempt; the other rows are those that the recovery of leases leaves.
pub claim_job-Oldest :
    (now : Instant) (worker : String) (w : Work)
    → ((claim_job now worker w ≡ (recover_expired_leases now w, none))
        × ((job : Job) → In job w.jobs → claimable now job ≡ false))
      ⊎ ((job : Job) × In job w.jobs
          × (claimable now job ≡ true)
          × Oldest now job w.jobs
          × ((claim_job now worker w).1 ≡ some (claimed now worker job))
          × ((claim_job now worker w).0.jobs
              ≡ update_job job.id (claimed now worker) (map (recover_row now) w.jobs)))
unfolding claim_job
claim_job-Oldest now worker w = elim (Option-cases (next_job now (map (recover_row now) w.jobs))) [
  | inl e ↦ inl (rw (e, claim_job), next_job-none now w.jobs e)
  | inr (job, e) ↦
      let (m, c, oldest) = next_job-Oldest now w.jobs e in
      inr (job, m, c, oldest, rw (e, claim_job), rw (e, claim_job))
]
