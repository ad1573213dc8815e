-- ===== src/History/Events/Consumed.antt =====
-- backend/app/history/reconstruction.py: what the inner loop of `table_rows` counts and
-- leaves.
use carhibou.Prelude.{
  ℕ, ◌+◌, ◌≤◌, ◌≡◌, refl, true, List, [], ◌∷◌, leb, Bool-cases, inl, inr, if◌then◌else◌, All, arith,
}
use carhibou.Prelude.Time.{Instant}
use carhibou.History.Events.{CandidateState, TimedEvent, report, apply_event, consume}

is_until : (t end : Instant) → t ≤ end → leb t end ≡ true
is_until t end h = ground arith

module _ {F : Type 0} where
  -- The events that are reports of the agent.
  abbrev pub reports_of : List (TimedEvent F) → ℕ
  reports_of [] = 0
  reports_of (e ∷ events) = report e + reports_of events

  -- An event of a range that ends at an instant.
  abbrev pub IsUntil : Instant → TimedEvent F → Type 0
  IsUntil end e = e.observed_at ≤ end

  pub consume-reports :
      (t : Instant) (events : List (TimedEvent F)) (s : CandidateState F) (n : ℕ)
      → (consume t events s n).1 + reports_of (consume t events s n).2 ≡ n + reports_of events
  unfolding consume
  consume-reports t [] s n = refl
  consume-reports t (e ∷ events) s n = elim (Bool-cases (leb e.observed_at t)) [
    | inl le ↦
        rw (le, if◌then◌else◌)
          (omega (arith, consume-reports t events (apply_event e s) (n + report e)))
    | inr gt ↦ rw (gt, if◌then◌else◌) refl
  ]

  pub consume-IsUntil :
      (end t : Instant) (events : List (TimedEvent F)) (s : CandidateState F) (n : ℕ)
      → All (IsUntil end) events
      → All (IsUntil end) (consume t events s n).2
  unfolding consume
  consume-IsUntil end t [] s n h = tt
  consume-IsUntil end t (e ∷ events) s n h = elim (Bool-cases (leb e.observed_at t)) [
    | inl le ↦
        rw (le, if◌then◌else◌) (consume-IsUntil end t events (apply_event e s) (n + report e) h.1)
    | inr gt ↦ rw (gt, if◌then◌else◌) h
  ]

  pub consume-All :
      (end : Instant) (events : List (TimedEvent F)) (s : CandidateState F) (n : ℕ)
      → All (IsUntil end) events
      → (consume end events s n).2 ≡ []
  unfolding consume
  consume-All end [] s n h = refl
  consume-All end (e ∷ events) s n h =
      rw (is_until e.observed_at end h.0, if◌then◌else◌)
        (consume-All end events (apply_event e s) (n + report e) h.1)
