-- ===== src/Jobs/Step/Invariant.antt =====
-- backend/app/worker.py and backend/app/jobs/services.py: an invariant of the rows and of the
-- workers, and how the holder of a job changes the rows.
use carhibou.Prelude.{
  ◌≡◌, refl, ◌⊎◌, inl, inr, not, String, List, [], ◌∷◌, map, In, All, All_In, All-of, Bool-cases,
  if◌then◌else◌,
}
use carhibou.Prelude.Equality.{◌==◌, string_eq}
use carhibou.Prelude.Keys.{Distinct, filter-Distinct}
use carhibou.Prelude.Time.{Instant}
use carhibou.Jobs.{Job, Work}
use carhibou.Jobs.Queue.{update_job}
use carhibou.Jobs.Worker.{complete, release, fail_row, take_text, fail_job}
use carhibou.Jobs.Worker.Settled.{fail_payload-jobs}
use carhibou.Jobs.Step.{Busy, World, held, ids, leave}
use carhibou.Jobs.Step.Rows.{
  Counted, Taken, Keeps, Ends, ids-map, map-Counted, map-Taken, Ends-Keeps,
}

-- What holds of the rows of the jobs, given the jobs that workers hold.
pub record AreSound (jobs : List Job) (busy : List Busy) : Type 0 where
  pub distinct : Distinct (ids jobs)
  pub counted : All Counted jobs
  pub taken : All (λ b. Taken b.job.id jobs) busy

pub record Inv (s : World) : Type 0 where
  pub sound : AreSound s.work.jobs s.busy
  pub exclusive : Distinct (held s.busy)

pub map-AreSound :
    (f : Job → Job) (jobs : List Job) (busy : List Busy)
    → All (Keeps f) jobs
    → AreSound jobs busy
    → AreSound (map f jobs) busy
map-AreSound f jobs busy k v = record {
  distinct = rw (ids-map f jobs k) v.distinct;
  counted = map-Counted f jobs k v.counted;
  taken =
      All-of (λ (b : Busy). Taken b.job.id (map f jobs)) busy
        λ b m.
          map-Taken f b.job.id jobs k (All_In (λ (b : Busy). Taken b.job.id jobs) busy b v.taken m);
}

-- A transaction of the holder of a job leaves the rows alone, or ends the job.
abbrev pub Touches : String → List Job → List Job → Type 0
Touches id jobs jobs' = (jobs' ≡ jobs) ⊎ ((g : Job → Job) × Ends g × (jobs' ≡ update_job id g jobs))

Touches-AreSound :
    (b : Busy) (jobs jobs' : List Job) (busy : List Busy)
    → In b busy
    → Touches b.job.id jobs jobs'
    → AreSound jobs busy
    → AreSound jobs' busy
Touches-AreSound b jobs jobs' busy m (inl e) v = rw e v
Touches-AreSound b jobs jobs' busy m (inr (g, ends, e)) v = rw e (
    map-AreSound _ jobs busy
      (Ends-Keeps g b.job.id jobs ends
        (All_In (λ (b : Busy). Taken b.job.id jobs) busy b v.taken m).1)
      v)

fail_row-Ends : (now : Instant) (error : String) → Ends (fail_row now error)
fail_row-Ends now error = record {
  same_id = λ j. refl;
  same_attempts = λ j. refl;
  ended = λ j. refl;
}

pub complete-Ends : (now : Instant) → Ends (complete now)
complete-Ends now = record { same_id = λ j. refl; same_attempts = λ j. refl; ended = λ j. refl }

pub release-Ends : (now : Instant) → Ends (release now)
release-Ends now = record { same_id = λ j. refl; same_attempts = λ j. refl; ended = λ j. refl }

pub fail_job-Touches :
    (now : Instant) (error : String) (job : Job) (w : Work)
    → Touches job.id w.jobs (fail_job now error job w).jobs
unfolding fail_job
fail_job-Touches now error job w =
    let message = take_text 4000 error in
    inr (
      fail_row now message,
      fail_row-Ends now message,
      fail_payload-jobs now message job.payload
          (record w { jobs = update_job job.id (fail_row now message) w.jobs }),
    )

leave-All :
    (P : Busy → Type 0) (id : String) (busy : List Busy) → All P busy → All P (leave id busy)
leave-All P id [] h = tt
leave-All P id (b ∷ busy) h = elim (Bool-cases (b.job.id == id)) [
  | inl same ↦ rw (same, if◌then◌else◌) (leave-All P id busy h.1)
  | inr other ↦ rw (other, if◌then◌else◌) (h.0, leave-All P id busy h.1)
]

pub leave-Inv :
    (b : Busy) (s : World) (w : Work)
    → In b s.busy
    → Touches b.job.id s.work.jobs w.jobs
    → Inv s
    → Inv (record { work = w; busy = leave b.job.id s.busy })
leave-Inv b s w m t v =
    let sound = Touches-AreSound b s.work.jobs w.jobs s.busy m t v.sound in
    record {
      sound = record {
        distinct = sound.distinct;
        counted = sound.counted;
        taken = leave-All (λ (b : Busy). Taken b.job.id w.jobs) b.job.id s.busy sound.taken;
      };
      exclusive =
          filter-Distinct (λ (x : Busy). x.job.id) (λ x. not (x.job.id == b.job.id)) s.busy
            v.exclusive;
    }
