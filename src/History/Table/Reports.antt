-- ===== src/History/Table/Reports.antt =====
-- backend/app/history/reconstruction.py: the reports that the rows of `table_rows` count.
use carhibou.Prelude.{
  ℕ, ◌+◌, ◌≡◌, refl, sym, ◌∙◌, ap, subst, Bool, List, [], ◌∷◌, Bool-cases, inl, inr, if◌then◌else◌,
  All, arith,
}
use carhibou.Prelude.Float.{Float}
use carhibou.History.Events.{CandidateState, TimedEvent, Snapshot, consume}
use carhibou.History.Events.Consumed.{
  reports_of, IsUntil, consume-reports, consume-IsUntil, consume-All,
}
use carhibou.History.Table.{
  TableRow, Range, bucket_count, edge, add_row, span_row, add_rows, ordered, table_rows,
}
use carhibou.History.Table.Buckets.{IsRange, Starts, Ends, edge_last, ordered-Starts}

module _ {F : Type 0} where
  -- The reports that rows count.
  abbrev pub total_reports : List (TableRow F) → ℕ
  total_reports [] = 0
  total_reports (row ∷ rows) = row.reports + total_reports rows

module _ {F : Type 0} ⦃ops : Float F⦄ (same : Snapshot F → Snapshot F → Bool) where
  add_row-reports :
      (row : TableRow F) (output : List (TableRow F))
      → total_reports (add_row same row output) ≡ row.reports + total_reports output
  add_row-reports row [] = refl
  add_row-reports row (last ∷ output) = elim (Bool-cases (same last.snapshot row.snapshot)) [
    | inl e ↦ rw (e, if◌then◌else◌) (omega arith)
    | inr e ↦ rw (e, if◌then◌else◌) refl
  ]

  add_rows-reports :
      (r : Range) (index : ℕ) (indices : List ℕ) (s : CandidateState F)
      (events : List (TimedEvent F)) (output : List (TableRow F))
      → IsRange r
      → Ends index indices (bucket_count r)
      → All (IsUntil r.end) events
      → total_reports (add_rows same r (index ∷ indices) s events output)
        ≡ total_reports output + reports_of events
  unfolding add_rows
  add_rows-reports r index [] s events output v last until =
      let t = edge r (index + 1) in
      let c = consume t events s 0 in
      let at_end : t ≡ r.end = ap (edge r) (omega (arith, last)) ∙ edge_last r v in
      let none_left : reports_of c.2 ≡ 0 = ap reports_of (
        subst (λ x. (consume x events s 0).2 ≡ []) (sym at_end)
          (consume-All r.end events s 0 until)) in
      omega (
        arith,
        add_row-reports (span_row same r index (bucket_count r) c.0 c.1) output,
        consume-reports t events s 0,
        none_left,
      )
  add_rows-reports r index (next ∷ indices) s events output v last until =
      let t = edge r (index + 1) in
      let c = consume t events s 0 in
      omega (
        arith,
        add_rows-reports r next indices c.0 c.2
            (add_row same (span_row same r index next c.0 c.1) output) v last
            (consume-IsUntil r.end t events s 0 until),
        add_row-reports (span_row same r index next c.0 c.1) output,
        consume-reports t events s 0,
      )

  from_start :
      (r : Range) (s : CandidateState F) (events : List (TimedEvent F)) (indices : List ℕ)
      → IsRange r
      → Starts indices (bucket_count r)
      → All (IsUntil r.end) events
      → total_reports (add_rows same r indices s events []) ≡ reports_of events
  from_start r s events [] v st until = absurd st
  from_start r s events (index ∷ indices) v st until = omega (
    arith,
    add_rows-reports r index indices s events [] v
        (subst (λ i. Ends i indices (bucket_count r)) (sym st.0) st.2) until,
  )

  -- The rows of a table count every report of the agent in the range once: their counts sum to the
  -- number of the events that are reports. It holds for a range and a step that are not empty, and
  -- events that are not after the range.
  pub table_rows-reports :
      (r : Range) (s : CandidateState F) (events : List (TimedEvent F))
      → IsRange r
      → All (IsUntil r.end) events
      → total_reports (table_rows same r s events) ≡ reports_of events
  unfolding table_rows
  table_rows-reports r s events v until =
      from_start r s events (ordered r events) v (ordered-Starts r events) until
