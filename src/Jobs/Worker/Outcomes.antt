-- ===== src/Jobs/Worker/Outcomes.antt =====
-- backend/app/worker.py: the states of hooks after the run of a job.
use carhibou.Prelude.{
  ◌≡◌, refl, inl, inr, true, false, ◌&&◌, not, Option, none, some, String, List, [], ◌∷◌, All,
  Bool-cases, if◌then◌else◌, arith,
}
use carhibou.Prelude.Equality.{Dict, ◌==◌, string_eq, get, insert}
use carhibou.Prelude.Time.{Instant}
use carhibou.Jobs.{Job, Execution, HookState, Work, is_open}
use carhibou.Jobs.Queue.{update_job}
use carhibou.Jobs.Worker.{
  RuntimeResult, Outcome, raised, committed, Beginning, refused, acknowledged, started,
  Surroundings, contains_secret, leaks, is_success, next_hook_state, finish_states, finish_at,
  finish_execution, fail_at, fail_payload, fail_job, begin_execution, begin_payload, begin_at,
  begin_with, after_begin, or_fail, run_job, has_job,
}

-- No state of a hook holds one of the secrets.
abbrev pub Clean : List String → Dict String HookState → Type 0
Clean secrets = All (λ row. contains_secret secrets row.1.value ≡ false)

insert-Clean :
    (secrets : List String) (k : String) (v : HookState) (d : Dict String HookState)
    → Clean secrets d
    → contains_secret secrets v.value ≡ false
    → Clean secrets (insert k v d)
insert-Clean secrets k v [] h c = (c, tt)
insert-Clean secrets k v ((j, x) ∷ d) h c = elim (Bool-cases (j == k)) [
  | inl same ↦ rw (same, if◌then◌else◌) (c, h.1)
  | inr other ↦ rw (other, if◌then◌else◌) (h.0, insert-Clean secrets k v d h.1 c)
]

next_hook_state-value :
    (now : Instant) (r : RuntimeResult) (o : Option HookState)
    → (next_hook_state now r.state o).value ≡ r.state
next_hook_state-value now r none = refl
next_hook_state-value now r (some s) = refl

-- `P` holds of the tables that a transaction commits; one that raises commits nothing.
abbrev Commits : (Work → Type 0) → Outcome → Type 0
Commits P (raised error) = Unit
Commits P (committed w) = P w

no_leak :
    (secrets : List String) (r : RuntimeResult)
    → (is_success r.status && not (leaks secrets r)) ≡ true
    → contains_secret secrets r.state ≡ false
no_leak secrets r h = ground arith

finish_states-Clean :
    (now : Instant) (secrets : List String) (r : RuntimeResult) (k : String) (w : Work)
    → Clean secrets w.states
    → Clean secrets (finish_states now secrets r k w)
finish_states-Clean now secrets r k w h =
    elim (Bool-cases (is_success r.status && not (leaks secrets r))) [
      | inl stored ↦
          rw (stored, if◌then◌else◌)
            (insert-Clean secrets k (next_hook_state now r.state (get k w.states)) w.states h
              (rw (next_hook_state-value now r (get k w.states)) (no_leak secrets r stored)))
      | inr kept ↦ rw (kept, if◌then◌else◌) h
    ]

finish_at-Clean :
    (now : Instant) (secrets : List String) (r : RuntimeResult) (id job_id : String)
    (o : Option Execution) (w : Work)
    → Clean secrets w.states
    → Commits (λ w'. Clean secrets w'.states) (finish_at now secrets r id job_id o w)
finish_at-Clean now secrets r id job_id none w h = tt
finish_at-Clean now secrets r id job_id (some x) w h = elim (Bool-cases (has_job job_id w.jobs)) [
  | inl there ↦ rw (there, if◌then◌else◌) (finish_states-Clean now secrets r x.hook_id w h)
  | inr gone ↦ rw (gone, if◌then◌else◌) tt
]

-- The handler leaves the states of the hooks alone.
fail_at-states :
    (now : Instant) (message id : String) (o : Option Execution) (w : Work)
    → (fail_at now message id o w).states ≡ w.states
fail_at-states now message id none w = refl
fail_at-states now message id (some e) w = ground arith

fail_job-states :
    (now : Instant) (error : String) (job : Job) (w : Work) (p : Option String)
    → (fail_payload now error p w).states ≡ w.states
fail_job-states now error job w none = refl
fail_job-states now error job w (some id) = fail_at-states now error id (get id w.executions) w

-- `P` holds of the tables that the first transaction commits.
abbrev Begins : (Work → Type 0) → Beginning → Type 0
Begins P (refused error) = Unit
Begins P (acknowledged w) = P w
Begins P (started id w) = P w

begin_payload-states :
    (now : Instant) (inputs : Option String) (job : Job) (p : Option String) (w : Work)
    → Begins (λ w'. w'.states ≡ w.states) (begin_payload now inputs job p w)
begin_payload-states now inputs job none w = tt
begin_payload-states now inputs job (some id) w = begin_at-states (get id w.executions)
  where
    begin_with-states :
        (i : Option String) (e : Execution)
        → Begins (λ w'. w'.states ≡ w.states) (begin_with now i id e w)
    begin_with-states none e = refl
    begin_with-states (some error) e = tt

    begin_at-states :
        (o : Option Execution)
        → Begins (λ w'. w'.states ≡ w.states) (begin_at now inputs id job o w)
    begin_at-states none = tt
    begin_at-states (some e) = elim (Bool-cases (is_open e.status)) [
      | inl opened ↦ rw (opened, if◌then◌else◌) (begin_with-states inputs e)
      | inr shut ↦ rw (shut, if◌then◌else◌) refl
    ]

or_fail-Clean :
    (secrets : List String) (now : Instant) (job : Job) (w : Work) (o : Outcome)
    → Clean secrets w.states
    → Commits (λ w'. Clean secrets w'.states) o
    → Clean secrets (or_fail now job w o).states
unfolding fail_job
or_fail-Clean secrets now job w (raised error) h c =
    rw (fail_job-states now _ job (record w { jobs = update_job job.id _ w.jobs }) job.payload) h
or_fail-Clean secrets now job w (committed w') h c = c

after_begin-Clean :
    (s : Surroundings) (job : Job) (w : Work) (b : Beginning)
    → Clean s.secrets w.states
    → Begins (λ w'. w'.states ≡ w.states) b
    → Clean s.secrets (after_begin s job w b).states
unfolding finish_execution
after_begin-Clean s job w (refused error) h e =
    or_fail-Clean s.secrets s.finished_at job w (raised error) h tt
after_begin-Clean s job w (acknowledged w') h e = rw e h
after_begin-Clean s job w (started id w') h e =
    let before : Clean s.secrets w'.states = rw e h in
    or_fail-Clean s.secrets s.finished_at job w'
      (finish_execution s.finished_at s.secrets s.result id job.id w') before
      (finish_at-Clean s.finished_at s.secrets s.result id job.id (get id w'.executions) w' before)

-- However the run of a job ends, no stored state of a hook holds one of the secrets that the
-- hook was given, where none did before.
pub run_job-Clean :
    (s : Surroundings) (job : Job) (w : Work)
    → Clean s.secrets w.states
    → Clean s.secrets (run_job s job w).states
unfolding run_job begin_execution
run_job-Clean s job w h = elim (Bool-cases (job.kind == "hook.execute")) [
  | inl hook ↦
      rw (hook, if◌then◌else◌)
        (after_begin-Clean s job w (begin_execution s.started_at s.inputs job w) h
          (begin_payload-states s.started_at s.inputs job job.payload w))
  | inr other ↦
      rw (other, if◌then◌else◌) (or_fail-Clean s.secrets s.finished_at job w (raised _) h tt)
]
