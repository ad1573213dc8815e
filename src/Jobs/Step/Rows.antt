-- ===== src/Jobs/Step/Rows.antt =====
-- backend/app/worker.py and backend/app/jobs/services.py: how the steps change the rows of the
-- jobs.
use carhibou.Prelude.{
  ◌≡◌, refl, sym, ◌∙◌, ap, inl, inr, true, false, String, List, [], ◌∷◌, map, All, All-of,
  Bool-cases, if◌then◌else◌, arith,
}
use carhibou.Prelude.Equality.{◌==◌, string_eq, contains}
use carhibou.Prelude.Time.{Instant}
use carhibou.Jobs.{Job, is_pending}
use carhibou.Jobs.Queue.{claimed}
use carhibou.Jobs.Queue.Claims.{recover_row}
use carhibou.Jobs.Step.{ids}

-- A job that waits has not been tried, and any other has been tried once.
abbrev pub Counted : Job → Type 0
Counted j = j.attempts ≡ (if is_pending j.status then 0 else 1)

-- A worker may hold the job of a key: it has a row, and no such row waits.
abbrev pub Taken : String → List Job → Type 0
Taken id jobs =
    (contains id (ids jobs) ≡ true)
    × All (λ j. (j.id == id) ≡ true → is_pending j.status ≡ false) jobs

-- A write to a row that keeps its key and the count of its attempts, and does not make it wait
-- again.
pub record Keeps (f : Job → Job) (j : Job) : Type 0 where
  pub same_id : (f j).id ≡ j.id
  pub counts : Counted j → Counted (f j)
  pub stays : is_pending j.status ≡ false → is_pending (f j).status ≡ false

pub ids-map : (f : Job → Job) (jobs : List Job) → All (Keeps f) jobs → ids (map f jobs) ≡ ids jobs
ids-map f [] h = refl
ids-map f (j ∷ jobs) h = rw (h.0.same_id, ids-map f jobs h.1)

pub map-Counted :
    (f : Job → Job) (jobs : List Job)
    → All (Keeps f) jobs
    → All Counted jobs
    → All Counted (map f jobs)
map-Counted f [] h c = tt
map-Counted f (j ∷ jobs) h c = (h.0.counts c.0, map-Counted f jobs h.1 c.1)

map-stays :
    (f : Job → Job) (id : String) (jobs : List Job)
    → All (Keeps f) jobs
    → All (λ j. (j.id == id) ≡ true → is_pending j.status ≡ false) jobs
    → All (λ j. (j.id == id) ≡ true → is_pending j.status ≡ false) (map f jobs)
map-stays f id [] h t = tt
map-stays f id (j ∷ jobs) h t =
    (λ e. h.0.stays (t.0 (ap (λ k. k == id) (sym h.0.same_id) ∙ e)), map-stays f id jobs h.1 t.1)

pub map-Taken :
    (f : Job → Job) (id : String) (jobs : List Job)
    → All (Keeps f) jobs
    → Taken id jobs
    → Taken id (map f jobs)
map-Taken f id jobs h t = (rw (ids-map f jobs h) t.0, map-stays f id jobs h t.1)

recover_row-Keeps : (now : Instant) (j : Job) → Keeps (recover_row now) j
recover_row-Keeps now j = record {
  same_id = ground arith;
  counts = λ c. ground arith;
  stays = λ p. ground arith;
}

pub recover-Keeps : (now : Instant) (jobs : List Job) → All (Keeps (recover_row now)) jobs
recover-Keeps now jobs = All-of (Keeps (recover_row now)) jobs λ j m. recover_row-Keeps now j

-- A write that ends a job.
pub record Ends (g : Job → Job) : Type 0 where
  pub same_id : (j : Job) → (g j).id ≡ j.id
  pub same_attempts : (j : Job) → (g j).attempts ≡ j.attempts
  pub ended : (j : Job) → is_pending (g j).status ≡ false

pub Ends-Keeps :
    (g : Job → Job) (id : String) (jobs : List Job)
    → Ends g
    → All (λ j. (j.id == id) ≡ true → is_pending j.status ≡ false) jobs
    → All (Keeps (λ j. if j.id == id then g j else j)) jobs
Ends-Keeps g id [] e t = tt
Ends-Keeps g id (j ∷ jobs) e t = (
  elim (Bool-cases (j.id == id)) [
    | inl same ↦ record {
      same_id = rw (same, if◌then◌else◌) (e.same_id j);
      counts =
          λ c. rw (same, if◌then◌else◌) (rw (e.ended j, e.same_attempts j) (c ∙ rw (t.0 same)));
      stays = λ p. rw (same, if◌then◌else◌) (e.ended j);
    }
    | inr other ↦ record {
      same_id = rw (other, if◌then◌else◌);
      counts = λ c. rw (other, if◌then◌else◌) c;
      stays = λ p. rw (other, if◌then◌else◌) p;
    }
  ],
  Ends-Keeps g id jobs e t.1,
)

pub claimed-Keeps :
    (now : Instant) (worker id : String) (jobs : List Job)
    → All (λ j. (j.id == id) ≡ true → is_pending j.status ≡ true) jobs
    → All (Keeps (λ j. if j.id == id then claimed now worker j else j)) jobs
claimed-Keeps now worker id [] t = tt
claimed-Keeps now worker id (j ∷ jobs) t = (
  elim (Bool-cases (j.id == id)) [
    | inl same ↦ record {
      same_id = rw (same, if◌then◌else◌);
      counts = λ c. rw (same, if◌then◌else◌) (ground (arith, t.0 same));
      stays = λ p. rw (same, if◌then◌else◌);
    }
    | inr other ↦ record {
      same_id = rw (other, if◌then◌else◌);
      counts = λ c. rw (other, if◌then◌else◌) c;
      stays = λ p. rw (other, if◌then◌else◌) p;
    }
  ],
  claimed-Keeps now worker id jobs t.1,
)
