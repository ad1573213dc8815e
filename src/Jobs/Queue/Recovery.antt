-- ===== src/Jobs/Queue/Recovery.antt =====
-- backend/app/jobs/services.py: what `recover_expired_leases` leaves.
use carhibou.Prelude.{
  ◌≡◌, refl, subst, inl, inr, Bool, true, false, not, Option, none, some, String, List, [], ◌∷◌,
  map, filter, In, In-filter_of, All, Bool-cases, if◌then◌else◌,
}
use carhibou.Prelude.Equality.{◌==◌, string_eq, get, insert, get-insert, get-insert_self}
use carhibou.Prelude.Time.{Instant}
use carhibou.Jobs.{Job, Execution, Work, is_running_execution}
use carhibou.Jobs.Queue.{
  is_stale, lease_error, fail_execution, expire_at, expire_payload, expire_execution,
  expire_executions, recover_expired_leases,
}
use carhibou.Jobs.Queue.Claims.{recover_row}

-- An execution that is not running.
abbrev pub quiet : Option Execution → Bool
quiet none = true
quiet (some e) = not (is_running_execution e.status)

module _ (now : Instant) (id : String) where
  insert-quiet :
      (k : String) (e : Execution) (w : Work)
      → quiet (get id w.executions) ≡ true
      → quiet (get id (insert k (fail_execution now lease_error e) w.executions)) ≡ true
  insert-quiet k e w h =
      let v = fail_execution now lease_error e in
      rw (get-insert k id v w.executions)
        (elim (Bool-cases (k == id)) [ inl same ↦ rw same | inr other ↦ rw other h ])

  expire_at-quiet :
      (k : String) (o : Option Execution) (w : Work)
      → quiet (get id w.executions) ≡ true
      → quiet (get id (expire_at now k o w).executions) ≡ true
  expire_at-quiet k none w h = h
  expire_at-quiet k (some e) w h = elim (Bool-cases (is_running_execution e.status)) [
    | inl running ↦ rw (running, if◌then◌else◌) (insert-quiet k e w h)
    | inr other ↦ rw (other, if◌then◌else◌) h
  ]

  expire_payload-quiet :
      (p : Option String) (w : Work)
      → quiet (get id w.executions) ≡ true
      → quiet (get id (expire_payload now p w).executions) ≡ true
  expire_payload-quiet none w h = h
  expire_payload-quiet (some k) w h = expire_at-quiet k (get k w.executions) w h

  expire_execution-quiet :
      (job : Job) (w : Work)
      → quiet (get id w.executions) ≡ true
      → quiet (get id (expire_execution now job w).executions) ≡ true
  expire_execution-quiet job w h = elim (Bool-cases (job.kind == "hook.execute")) [
    | inl hook ↦ rw (hook, if◌then◌else◌) (expire_payload-quiet job.payload w h)
    | inr other ↦ rw (other, if◌then◌else◌) h
  ]

  expire_executions-quiet :
      (jobs : List Job) (w : Work)
      → quiet (get id w.executions) ≡ true
      → quiet (get id (expire_executions now jobs w).executions) ≡ true
  unfolding expire_executions
  expire_executions-quiet [] w h = h
  expire_executions-quiet (job ∷ jobs) w h =
      expire_executions-quiet jobs (expire_execution now job w) (expire_execution-quiet job w h)

  -- The execution of a job is not running once its job has been expired.
  expired-quiet :
      (o : Option Execution) (w : Work)
      → get id w.executions ≡ o
      → quiet (get id (expire_at now id o w).executions) ≡ true
  expired-quiet none w e = rw e
  expired-quiet (some x) w e = elim (Bool-cases (is_running_execution x.status)) [
    | inl running ↦
        rw (running, if◌then◌else◌)
          (rw (get-insert_self id (fail_execution now lease_error x) w.executions))
    | inr other ↦ rw (other, if◌then◌else◌) (rw (e, other))
  ]

  expire_execution-own :
      (job : Job) (w : Work)
      → (job.kind == "hook.execute") ≡ true
      → job.payload ≡ some id
      → quiet (get id (expire_execution now job w).executions) ≡ true
  expire_execution-own job w k p =
      rw (k, p, expire_payload) (expired-quiet (get id w.executions) w refl)

  expire_executions-own :
      (job : Job) (jobs : List Job) (w : Work)
      → In job jobs
      → (job.kind == "hook.execute") ≡ true
      → job.payload ≡ some id
      → quiet (get id (expire_executions now jobs w).executions) ≡ true
  unfolding expire_executions
  expire_executions-own job [] w m k p = absurd m
  expire_executions-own job (j ∷ jobs) w (inl e) k p =
      expire_executions-quiet jobs (expire_execution now j w) (
        subst (λ (x : Job). quiet (get id (expire_execution now x w).executions) ≡ true) e
          (expire_execution-own job w k p))
  expire_executions-own job (j ∷ jobs) w (inr m) k p =
      expire_executions-own job jobs (expire_execution now j w) m k p

recover_row-live :
    (now : Instant) (jobs : List Job)
    → All (λ job. is_stale now job ≡ false) (map (recover_row now) jobs)
recover_row-live now [] = tt
recover_row-live now (job ∷ jobs) = (
  elim (Bool-cases (is_stale now job)) [
    | inl stale ↦ rw (stale, recover_row)
    | inr live ↦ rw (live, recover_row) live
  ],
  recover_row-live now jobs,
)

-- After the recovery no job runs under an expired lease, and the execution of a hook's job whose
-- lease had expired is not running. A job whose lease has not expired keeps its row.
pub recover_expired_leases-live :
    (now : Instant) (w : Work)
    → All (λ job. is_stale now job ≡ false) (recover_expired_leases now w).jobs
      × ((recover_expired_leases now w).jobs ≡ map (recover_row now) w.jobs)
      × ((job : Job) (id : String)
          → In job w.jobs
          → is_stale now job ≡ true
          → (job.kind == "hook.execute") ≡ true
          → job.payload ≡ some id
          → quiet (get id (recover_expired_leases now w).executions) ≡ true)
unfolding recover_expired_leases
recover_expired_leases-live now w = (
  recover_row-live now w.jobs,
  refl,
  λ job id m stale kind payload.
      expire_executions-own now id job (filter (is_stale now) w.jobs) w
        (In-filter_of (is_stale now) job w.jobs m stale) kind payload,
)
