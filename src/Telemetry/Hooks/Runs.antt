-- ===== src/Telemetry/Hooks/Runs.antt =====
-- backend/app/telemetry/services.py: which hooks `_enqueue_hooks` runs for its triggers, and the jobs
-- of the runs.
use carhibou.Prelude.{
  ℕ, suc, ◌+◌, ◌≡◌, refl, sym, ◌∙◌, ap, subst, Bool, true, ◌&&◌, ◌↔◌, ◌⊎◌, Option, none, some,
  String, List, [], ◌∷◌, ◌++◌, map, length, length-append, length-map, last_or, In, In-filter,
  In-filter_of, arith,
}
use mathlib.Core.List.{append-nil, append_assoc, map-append}
use carhibou.Prelude.Equality.{◌==◌, string_eq}
use carhibou.Telemetry.Store.{Telemetry, Hook, Trigger, HookExecution, HookJob, HookTables}
use carhibou.Telemetry.Hooks.{
  for_vehicle, enabled_hooks, slices, add_execution, add_executions, with_trigger, new_trigger,
  add_trigger, add_triggers, enqueue_hooks,
}

-- Keys that count on from a number.
abbrev pub Counts : ℕ → List ℕ → Type 0
Counts n [] = Unit
Counts n (k ∷ keys) = (k ≡ n) × Counts (suc n) keys

Counts-append :
    (n : ℕ) (ks ls : List ℕ) → Counts n ks → Counts (n + length ks) ls → Counts n (ks ++ ls)
Counts-append n [] ls h l = subst (λ m. Counts m ls) (omega arith) l
Counts-append n (k ∷ ks) ls (e, h) l =
    (e, Counts-append (suc n) ks ls h (subst (λ m. Counts m ls) (omega arith) l))

-- The hook, the trigger and the sample of an execution.
abbrev pub run_of : HookExecution → String × ℕ × String
run_of e = (e.hook_id, e.trigger_id, e.telemetry_id)

-- The runs that triggers ask for: each of them one of every hook.
abbrev pub asked_runs : List Hook → List Trigger → List (String × ℕ × String)
asked_runs hooks [] = []
asked_runs hooks (tr ∷ triggers) =
    map (λ h. (h.id, tr.id, tr.telemetry_id)) hooks ++ asked_runs hooks triggers

abbrev job_for : HookExecution → HookJob
job_for e = record { execution_id = e.id }

-- What is added to the tables: triggers and executions with the next keys, the runs that the
-- triggers ask of the hooks, and a job for each execution.
abbrev pub Adds : List Hook → HookTables → HookTables → List Trigger → List HookExecution → Type 0
Adds hooks t t' triggers executions =
    (t'.triggers ≡ t.triggers ++ triggers)
    × (t'.executions ≡ t.executions ++ executions)
    × (map (λ j. j.execution_id) t'.jobs
        ≡ map (λ j. j.execution_id) t.jobs ++ map (λ e. e.id) executions)
    × (map run_of executions ≡ asked_runs hooks triggers)
    × Counts (length t.triggers) (map (λ tr. tr.id) triggers)
    × Counts (length t.executions) (map (λ e. e.id) executions)

Adds-none : (hooks : List Hook) (t : HookTables) → Adds hooks t t [] []
Adds-none hooks t = (
  sym (append-nil t.triggers),
  sym (append-nil t.executions),
  sym (append-nil (map (λ (j : HookJob). j.execution_id) t.jobs)),
  refl,
  tt,
  tt,
)

append_twice : {A : Type 0} (a b c x y : List A) → b ≡ a ++ x → c ≡ b ++ y → c ≡ a ++ (x ++ y)
append_twice a b c x y first second = second ∙ ap (λ l. l ++ y) first ∙ append_assoc a x y

longer : {A : Type 0} (a b x : List A) → b ≡ a ++ x → length b ≡ length a + length x
longer a b x e = rw e (length-append a x)

counted_on :
    {A : Type 0} (id : A → ℕ) (a b x y : List A)
    → b ≡ a ++ x
    → Counts (length a) (map id x)
    → Counts (length b) (map id y)
    → Counts (length a) (map id (x ++ y))
counted_on id a b x y e h l = rw (map-append id x y) (
    Counts-append (length a) (map id x) (map id y) h
      (subst (λ m. Counts m (map id y)) (omega (arith, longer a b x e, length-map id x)) l))

asked_runs-append :
    (hooks : List Hook) (a b : List Trigger)
    → asked_runs hooks (a ++ b) ≡ asked_runs hooks a ++ asked_runs hooks b
asked_runs-append hooks [] b = refl
asked_runs-append hooks (tr ∷ a) b =
    rw (asked_runs-append hooks a b)
      (sym (append_assoc _ (asked_runs hooks a) (asked_runs hooks b)))

Adds-append :
    (hooks : List Hook) (t u v : HookTables) (trs trs' : List Trigger) (es es' : List HookExecution)
    → Adds hooks t u trs es
    → Adds hooks u v trs' es'
    → Adds hooks t v (trs ++ trs') (es ++ es')
Adds-append hooks t u v trs trs' es es' (a, b, c, d, m, n) (a', b', c', d', m', n') = (
  append_twice t.triggers u.triggers v.triggers trs trs' a a',
  append_twice t.executions u.executions v.executions es es' b b',
  rw (map-append (λ (e : HookExecution). e.id) es es') (append_twice _ _ _ _ _ c c'),
  rw (map-append run_of es es', asked_runs-append hooks trs trs', d, d') refl,
  counted_on (λ (tr : Trigger). tr.id) t.triggers u.triggers trs trs' a m m',
  counted_on (λ (e : HookExecution). e.id) t.executions u.executions es es' b n n',
)

-- The executions of hooks for one trigger, from a key on.
abbrev executions_for : ℕ → ℕ → String → List Hook → List HookExecution
executions_for n trigger_id telemetry_id [] = []
executions_for n trigger_id telemetry_id (h ∷ hooks) =
    record { id = n; hook_id = h.id; trigger_id = trigger_id; telemetry_id = telemetry_id }
    ∷ executions_for (suc n) trigger_id telemetry_id hooks

executions_for-runs :
    (n trigger_id : ℕ) (telemetry_id : String) (hooks : List Hook)
    → map run_of (executions_for n trigger_id telemetry_id hooks)
      ≡ map (λ (h : Hook). (h.id, trigger_id, telemetry_id)) hooks
executions_for-runs n trigger_id telemetry_id [] = refl
executions_for-runs n trigger_id telemetry_id (h ∷ hooks) =
    rw (executions_for-runs (suc n) trigger_id telemetry_id hooks) refl

executions_for-Counts :
    (n trigger_id : ℕ) (telemetry_id : String) (hooks : List Hook)
    → Counts n (map (λ e. e.id) (executions_for n trigger_id telemetry_id hooks))
executions_for-Counts n trigger_id telemetry_id [] = tt
executions_for-Counts n trigger_id telemetry_id (h ∷ hooks) =
    (refl, executions_for-Counts (suc n) trigger_id telemetry_id hooks)

add_executions-adds :
    (trigger_id : ℕ) (telemetry_id : String) (hooks : List Hook) (t : HookTables)
    → let t' = add_executions trigger_id telemetry_id hooks t in
      let added = executions_for (length t.executions) trigger_id telemetry_id hooks in
      (t'.triggers ≡ t.triggers)
      × (t'.executions ≡ t.executions ++ added)
      × (map (λ j. j.execution_id) t'.jobs
          ≡ map (λ j. j.execution_id) t.jobs ++ map (λ e. e.id) added)
unfolding add_executions
add_executions-adds trigger_id telemetry_id [] t = (
  refl,
  sym (append-nil t.executions),
  sym (append-nil (map (λ (j : HookJob). j.execution_id) t.jobs)),
)
add_executions-adds trigger_id telemetry_id (h ∷ hooks) t =
    let u = add_execution trigger_id telemetry_id h t in
    let (same, executions, jobs) = add_executions-adds trigger_id telemetry_id hooks u in
    let next : length u.executions ≡ suc (length t.executions) =
      omega (arith, longer t.executions u.executions _ refl) in
    let added : List HookExecution =
      executions_for (suc (length t.executions)) trigger_id telemetry_id hooks in
    let e : executions_for (length u.executions) trigger_id telemetry_id hooks ≡ added =
      ap (λ n. executions_for n trigger_id telemetry_id hooks) next in
    (
      same,
      append_twice t.executions u.executions _ _ added refl
          (executions ∙ ap (λ l. u.executions ++ l) e),
      append_twice (map (λ (j : HookJob). j.execution_id) t.jobs)
          (map (λ (j : HookJob). j.execution_id) u.jobs) _ (length t.executions ∷ [])
          (map (λ (e : HookExecution). e.id) added)
          (map-append (λ (j : HookJob). j.execution_id) t.jobs _)
          (jobs
            ∙ ap
                (λ (l : List HookExecution).
                  map (λ (j : HookJob). j.execution_id) u.jobs ++ map (λ e. e.id) l)
                e),
    )

module _ {F : Type 0} where
  add_trigger-Adds :
      (hooks : List Hook) (s : Telemetry F) (samples : List (Telemetry F)) (t : HookTables)
      → Adds hooks t
          (add_trigger hooks (s ∷ samples) t)
          (new_trigger (length t.triggers) (last_or s samples) (s ∷ samples) ∷ [])
          (executions_for (length t.executions) (length t.triggers) (last_or s samples).id hooks)
  add_trigger-Adds hooks s samples t =
      let latest = last_or s samples in
      let (triggers, executions, jobs) =
        add_executions-adds (length t.triggers) latest.id hooks
          (with_trigger latest (s ∷ samples) t) in
      (
        triggers,
        executions,
        jobs,
        executions_for-runs (length t.executions) (length t.triggers) latest.id hooks
            ∙ sym (append-nil (map (λ (h : Hook). (h.id, length t.triggers, latest.id)) hooks)),
        (refl, tt),
        executions_for-Counts (length t.executions) (length t.triggers) latest.id hooks,
      )

  add_triggers-Adds :
      (hooks : List Hook) (groups : List (List (Telemetry F))) (t : HookTables)
      → (triggers : List Trigger) × (executions : List HookExecution) × Adds hooks t
          (add_triggers hooks groups t)
          triggers
          executions
  unfolding add_triggers
  add_triggers-Adds hooks [] t = ([], [], Adds-none hooks t)
  add_triggers-Adds hooks ([] ∷ groups) t = add_triggers-Adds hooks groups t
  add_triggers-Adds hooks ((s ∷ samples) ∷ groups) t =
      let u = add_trigger hooks (s ∷ samples) t in
      let (triggers, executions, later) = add_triggers-Adds hooks groups u in
      (
        _,
        _,
        Adds-append hooks t u (add_triggers hooks groups u) _ triggers _ executions
            (add_trigger-Adds hooks s samples t) later,
      )

-- A hook that is enabled for telemetry, of the vehicle or of all.
abbrev pub IsDue : String → Hook → Type 0
IsDue vehicle_id h =
    (h.enabled ≡ true)
    × (h.trigger_type ≡ "telemetry.received")
    × ((h.vehicle_id ≡ none) ⊎ (h.vehicle_id ≡ some vehicle_id))

abbrev due_test : String → Hook → Bool
due_test vehicle_id h =
    h.enabled && (h.trigger_type == "telemetry.received" && for_vehicle vehicle_id h.vehicle_id)

for_vehicle_iff :
    (vehicle_id : String) (o : Option String)
    → (for_vehicle vehicle_id o ≡ true) ↔ ((o ≡ none) ⊎ (o ≡ some vehicle_id))
for_vehicle_iff vehicle_id none = ground arith
for_vehicle_iff vehicle_id (some v) = ground (arith, string_eq.same_iff v vehicle_id)

due_test-IsDue :
    (vehicle_id : String) (h : Hook) → (due_test vehicle_id h ≡ true) ↔ IsDue vehicle_id h
due_test-IsDue vehicle_id h = ground (
  arith,
  string_eq.same_iff h.trigger_type "telemetry.received",
  for_vehicle_iff vehicle_id h.vehicle_id,
)

enabled_hooks-IsDue :
    (vehicle_id : String) (hooks : List Hook) (h : Hook)
    → In h (enabled_hooks vehicle_id hooks)
    → In h hooks × IsDue vehicle_id h
enabled_hooks-IsDue vehicle_id hooks h m =
    let (there, due) = In-filter (due_test vehicle_id) h hooks m in
    (there, (due_test-IsDue vehicle_id h).0 due)

IsDue-enabled_hooks :
    (vehicle_id : String) (hooks : List Hook) (h : Hook)
    → In h hooks
    → IsDue vehicle_id h
    → In h (enabled_hooks vehicle_id hooks)
IsDue-enabled_hooks vehicle_id hooks h m due =
    In-filter_of (due_test vehicle_id) h hooks m ((due_test-IsDue vehicle_id h).1 due)

module _ {F : Type 0} where
  pub enqueue_hooks-runs :
      (hooks : List Hook) (s : Telemetry F) (samples : List (Telemetry F)) (t : HookTables)
      → (due : List Hook) × (triggers : List Trigger) × (executions : List HookExecution) × Adds due
          t
          (enqueue_hooks hooks (s ∷ samples) t)
          triggers
          executions
        × ((h : Hook) → In h due → In h hooks × IsDue (last_or s samples).vehicle_id h)
        × ((h : Hook) → In h hooks → IsDue (last_or s samples).vehicle_id h → In h due)
  unfolding enqueue_hooks
  enqueue_hooks-runs hooks s samples t =
      let vehicle_id = (last_or s samples).vehicle_id in
      let due = enabled_hooks vehicle_id hooks in
      let (triggers, executions, adds) =
        add_triggers-Adds due (slices (length (s ∷ samples)) (s ∷ samples)) t in
      (
        due,
        triggers,
        executions,
        adds,
        enabled_hooks-IsDue vehicle_id hooks,
        IsDue-enabled_hooks vehicle_id hooks,
      )
