-- ===== src/History/Events/Replay.antt =====
-- backend/app/history/reconstruction.py: the state after the events up to an instant, without
-- the inner loop of `table_rows`.
use carhibou.Prelude.{
  ℕ, ◌+◌, ◌≤◌, ◌≡◌, refl, ◌∙◌, ap, true, false, List, [], ◌∷◌, filter, leb, Bool-cases, inl, inr,
  if◌then◌else◌, All, arith,
}
use carhibou.Prelude.Time.{Instant}
use carhibou.History.Events.{CandidateState, TimedEvent, report, apply_event, consume}

up_to : (at early late : Instant) → leb at early ≡ true → early ≤ late → leb at late ≡ true
up_to at early late e h = ground arith

not_up_to : (at later t : Instant) → leb at t ≡ false → at ≤ later → leb later t ≡ false
not_up_to at later t e h = ground arith

module _ {F : Type 0} where
  -- A state after events, the first one first.
  abbrev pub replay : CandidateState F → List (TimedEvent F) → CandidateState F
  replay s [] = s
  replay s (e ∷ events) = replay (apply_event e s) events

  -- The events up to an instant.
  abbrev pub until : Instant → List (TimedEvent F) → List (TimedEvent F)
  until t = filter (λ e. leb e.observed_at t)

  -- Events in the order of their times.
  abbrev pub InOrder : List (TimedEvent F) → Type 0
  InOrder [] = Unit
  InOrder (e ∷ events) = All (λ f. e.observed_at ≤ f.observed_at) events × InOrder events

  -- The loop forgets nothing that a later instant needs.
  pub consume-replay :
      (t later : Instant) (events : List (TimedEvent F)) (s : CandidateState F) (n : ℕ)
      → t ≤ later
      → replay s (until later events)
        ≡ replay (consume t events s n).0 (until later (consume t events s n).2)
  unfolding consume
  consume-replay t later [] s n h = refl
  consume-replay t later (e ∷ events) s n h = elim (Bool-cases (leb e.observed_at t)) [
    | inl le ↦
        rw (le, up_to e.observed_at t later le h, if◌then◌else◌)
          (consume-replay t later events (apply_event e s) (n + report e) h)
    | inr gt ↦ rw (gt, if◌then◌else◌) refl
  ]

  pub consume-InOrder :
      (t : Instant) (events : List (TimedEvent F)) (s : CandidateState F) (n : ℕ)
      → InOrder events
      → InOrder (consume t events s n).2
  unfolding consume
  consume-InOrder t [] s n o = tt
  consume-InOrder t (e ∷ events) s n o = elim (Bool-cases (leb e.observed_at t)) [
    | inl le ↦
        rw (le, if◌then◌else◌) (consume-InOrder t events (apply_event e s) (n + report e) o.1)
    | inr gt ↦ rw (gt, if◌then◌else◌) o
  ]

  until_after :
      (at t : Instant) (events : List (TimedEvent F))
      → leb at t ≡ false
      → All (λ f. at ≤ f.observed_at) events
      → until t events ≡ []
  until_after at t [] gt h = refl
  until_after at t (e ∷ events) gt h =
      rw (not_up_to at e.observed_at t gt h.0, if◌then◌else◌) (until_after at t events gt h.1)

  -- The loop leaves only later events.
  pub until-consume :
      (t : Instant) (events : List (TimedEvent F)) (s : CandidateState F) (n : ℕ)
      → InOrder events
      → until t (consume t events s n).2 ≡ []
  unfolding consume
  until-consume t [] s n o = refl
  until-consume t (e ∷ events) s n o = elim (Bool-cases (leb e.observed_at t)) [
    | inl le ↦ rw (le, if◌then◌else◌) (until-consume t events (apply_event e s) (n + report e) o.1)
    | inr gt ↦ rw (gt, if◌then◌else◌, gt, if◌then◌else◌) (until_after e.observed_at t events gt o.0)
  ]

  -- So the state after the loop is that after all the events up to the instant.
  pub consume-until :
      (t : Instant) (events : List (TimedEvent F)) (s : CandidateState F) (n : ℕ)
      → InOrder events
      → replay s (until t events) ≡ (consume t events s n).0
  consume-until t events s n o =
      consume-replay t t events s n (omega arith)
      ∙ ap (replay (consume t events s n).0) (until-consume t events s n o)
