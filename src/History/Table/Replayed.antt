-- ===== src/History/Table/Replayed.antt =====
-- backend/app/history/reconstruction.py: what the rows of `table_rows` show.
use carhibou.Prelude.{
  ℕ, suc, ◌+◌, ◌*◌, ◌≤◌, min, ◌≡◌, refl, sym, ◌∙◌, ap, subst, Bool, List, [], ◌∷◌, Bool-cases, inl,
  inr, if◌then◌else◌, All, arith,
}
use carhibou.Prelude.Float.{Float}
use carhibou.Prelude.Time.{Instant}
use carhibou.History.Events.{CandidateState, TimedEvent, Snapshot, consume, resolved_state}
use carhibou.History.Events.Replay.{
  replay, until, InOrder, consume-replay, consume-InOrder, consume-until,
}
use carhibou.History.Table.{
  TableRow, Range, bucket_count, edge, add_row, span_row, add_rows, ordered, table_rows,
}
use carhibou.History.Table.Buckets.{Starts, Ascends, ordered-Starts}

later_product : (s i j : ℕ) → i ≤ j → s * i ≤ s * j
later_product s i j h = grind arith

edge_later : (r : Range) (i j : ℕ) → i ≤ j → edge r i ≤ edge r j
edge_later r i j h = omega (arith, later_product r.step i j h)

next_product : (s i : ℕ) → s * i + s ≡ s * (i + 1)
next_product s i = grind arith

module _ {F : Type 0} ⦃ops : Float F⦄ where
  -- The end of the first bucket of a row.
  abbrev pub shown_at : Range → TableRow F → Instant
  shown_at r row = min r.end (row.bucket_start + r.step)

  -- A row that shows a state after the events up to the end of its first bucket.
  abbrev pub Shows : Range → CandidateState F → List (TimedEvent F) → TableRow F → Type 0
  Shows r s events row =
      row.snapshot ≡ resolved_state (replay s (until (shown_at r row) events)) (shown_at r row)

  module _ (same : Snapshot F → Snapshot F → Bool) where
    add_row-Shows :
        (r : Range) (s : CandidateState F) (events : List (TimedEvent F)) (row : TableRow F)
        (output : List (TableRow F))
        → Shows r s events row
        → All (Shows r s events) output
        → All (Shows r s events) (add_row same row output)
    add_row-Shows r s events row [] h a = (h, tt)
    add_row-Shows r s events row (last ∷ output) h a =
        elim (Bool-cases (same last.snapshot row.snapshot)) [
          | inl e ↦ rw (e, if◌then◌else◌) (a.0, a.1)
          | inr e ↦ rw (e, if◌then◌else◌) (h, a)
        ]

    span_row-Shows :
        (r : Range) (index next : ℕ) (initial : CandidateState F)
        (eventinitial : List (TimedEvent F)) (s : CandidateState F) (reports : ℕ)
        → replay initial (until (edge r (index + 1)) eventinitial) ≡ s
        → Shows r initial eventinitial (span_row same r index next s reports)
    span_row-Shows r index next initial eventinitial s reports e =
        let at : edge r (index + 1) ≡ min r.end (r.start + r.step * index + r.step) =
          omega (arith, next_product r.step index) in
        subst
          (λ t.
            resolved_state s (edge r (index + 1))
            ≡ resolved_state (replay initial (until t eventinitial)) t)
          at (ap (λ x. resolved_state x (edge r (index + 1))) (sym e))

    add_rows-Shows :
        (r : Range) (index : ℕ) (indices : List ℕ) (initial : CandidateState F)
        (eventinitial : List (TimedEvent F)) (s : CandidateState F) (events : List (TimedEvent F))
        (output : List (TableRow F))
        → Ascends (suc index) indices (bucket_count r)
        → InOrder events
        → ((t : Instant)
            → edge r (index + 1) ≤ t
            → replay initial (until t eventinitial) ≡ replay s (until t events))
        → All (Shows r initial eventinitial) output
        → All (Shows r initial eventinitial) (add_rows same r (index ∷ indices) s events output)
    unfolding add_rows
    add_rows-Shows r index [] initial eventinitial s events output a o agree h =
        let t = edge r (index + 1) in
        let c = consume t events s 0 in
        add_row-Shows r initial eventinitial _ output
          (span_row-Shows r index (bucket_count r) initial eventinitial c.0 c.1
            (agree t (omega arith) ∙ consume-until t events s 0 o))
          h
    add_rows-Shows r index (next ∷ indices) initial eventinitial s events output a o agree h =
        let t = edge r (index + 1) in
        let c = consume t events s 0 in
        add_rows-Shows r next indices initial eventinitial c.0 c.2 _ a.2
          (consume-InOrder t events s 0 o)
          (λ u later.
            let after : t ≤ u =
              omega (arith, later, edge_later r (index + 1) (next + 1) (omega (arith, a.0))) in
            agree u after ∙ consume-replay t u events s 0 after)
          (add_row-Shows r initial eventinitial _ output
            (span_row-Shows r index next initial eventinitial c.0 c.1
              (agree t (omega arith) ∙ consume-until t events s 0 o))
            h)

    from_start :
        (r : Range) (s : CandidateState F) (events : List (TimedEvent F)) (indices : List ℕ)
        → Starts indices (bucket_count r)
        → InOrder events
        → All (Shows r s events) (add_rows same r indices s events [])
    from_start r s events [] st o = absurd st
    from_start r s events (index ∷ indices) st o =
        add_rows-Shows r index indices s events s events []
          (subst (λ i. Ascends (suc i) indices (bucket_count r)) (sym st.0) st.1) o (λ t h. refl) tt

    -- Every row of a table shows the readings, the position and the agent's data as they are
    -- resolved, at the end of the row's first bucket, from the state at the start and all the
    -- events up to that instant. It holds for events in the order of their times.
    pub table_rows-Shows :
        (r : Range) (s : CandidateState F) (events : List (TimedEvent F))
        → InOrder events
        → All (Shows r s events) (table_rows same r s events)
    unfolding table_rows
    table_rows-Shows r s events o =
        from_start r s events (ordered r events) (ordered-Starts r events) o
