-- ===== src/History/Table/Tiling.antt =====
-- backend/app/history/reconstruction.py: where the rows of `table_rows` begin and end, and the
-- buckets that they stand for.
use carhibou.Prelude.{
  ℕ, suc, ◌+◌, ◌*◌, ◌<◌, ◌≡◌, refl, sym, subst, Bool, List, [], ◌∷◌, Bool-cases, inl, inr,
  if◌then◌else◌, arith,
}
use carhibou.Prelude.Float.{Float}
use carhibou.Prelude.Time.{Instant}
use carhibou.History.Events.{CandidateState, TimedEvent, Snapshot, consume}
use carhibou.History.Table.{
  TableRow, Range, bucket_count, edge, add_row, span_row, add_rows, ordered, table_rows,
}
use carhibou.History.Table.Buckets.{
  IsRange, Ascends, Starts, edge_inside, edge_grows, edge_last, ordered-Starts,
}

module _ {F : Type 0} where
  -- Rows, the last first, that follow each other from a start to an end without gap or overlap.
  abbrev pub Tiles : Instant → List (TableRow F) → Instant → Type 0
  Tiles start [] end = end ≡ start
  Tiles start (row ∷ rows) end =
      (row.bucket_end ≡ end)
      × (row.bucket_start < row.bucket_end)
      × Tiles start rows row.bucket_start

  -- The buckets that rows stand for.
  abbrev pub total_buckets : List (TableRow F) → ℕ
  total_buckets [] = 0
  total_buckets (row ∷ rows) = row.collapsed_buckets + total_buckets rows

module _ {F : Type 0} ⦃ops : Float F⦄ (same : Snapshot F → Snapshot F → Bool) where
  add_row-Tiles :
      (start : Instant) (row : TableRow F) (output : List (TableRow F))
      → Tiles start output row.bucket_start
      → row.bucket_start < row.bucket_end
      → Tiles start (add_row same row output) row.bucket_end
        × (total_buckets (add_row same row output) ≡ row.collapsed_buckets + total_buckets output)
  add_row-Tiles start row [] t lt = ((refl, lt, t), refl)
  add_row-Tiles start row (last ∷ output) t lt =
      elim (Bool-cases (same last.snapshot row.snapshot)) [
        | inl e ↦ rw (e, if◌then◌else◌) ((refl, omega (arith, t.0, t.1), t.2), omega arith)
        | inr e ↦ rw (e, if◌then◌else◌) ((refl, lt, t), refl)
      ]

  -- The rows after the span from an index to the next.
  next_rows :
      Range → ℕ → ℕ → CandidateState F → List (TimedEvent F) → List (TableRow F) → List (TableRow F)
  next_rows r index next s events output =
      let (s', reports, rest) = consume (edge r (index + 1)) events s 0 in
      add_row same (span_row same r index next s' reports) output

  added :
      (r : Range) (index next : ℕ) (s : CandidateState F) (events : List (TimedEvent F))
      (output : List (TableRow F))
      → IsRange r
      → index < bucket_count r
      → index < next
      → Tiles r.start output (r.start + r.step * index)
      → total_buckets output ≡ index
      → Tiles r.start (next_rows r index next s events output) (edge r next)
        × (total_buckets (next_rows r index next s events output) ≡ next)
  unfolding next_rows
  added r index next s events output v low lt t total =
      let (s', reports, rest) = consume (edge r (index + 1)) events s 0 in
      let step = add_row-Tiles r.start (span_row same r index next s' reports) output t (
        subst (λ e. e < edge r next) (edge_inside r index v low)
          (edge_grows r index next v low lt)) in
      (step.0, omega (arith, step.1))

  add_rows-Tiles :
      (r : Range) (index : ℕ) (indices : List ℕ) (s : CandidateState F)
      (events : List (TimedEvent F)) (output : List (TableRow F))
      → IsRange r
      → index < bucket_count r
      → Ascends (suc index) indices (bucket_count r)
      → Tiles r.start output (r.start + r.step * index)
      → total_buckets output ≡ index
      → Tiles r.start (add_rows same r (index ∷ indices) s events output) r.end
        × (total_buckets (add_rows same r (index ∷ indices) s events output) ≡ bucket_count r)
  unfolding add_rows next_rows
  add_rows-Tiles r index [] s events output v low a t total =
      let step = added r index (bucket_count r) s events output v low (omega arith) t total in
      (
        subst (λ e. Tiles r.start (next_rows r index (bucket_count r) s events output) e)
            (edge_last r v) step.0,
        step.1,
      )
  add_rows-Tiles r index (next ∷ indices) s events output v low a t total =
      let step = added r index next s events output v low a.0 t total in
      add_rows-Tiles r next indices _ _ _ v a.1 a.2
        (subst (λ e. Tiles r.start (next_rows r index next s events output) e)
          (edge_inside r next v a.1) step.0)
        step.1

  from_start :
      (r : Range) (s : CandidateState F) (events : List (TimedEvent F)) (indices : List ℕ)
      → IsRange r
      → Starts indices (bucket_count r)
      → Tiles r.start (add_rows same r indices s events []) r.end
        × (total_buckets (add_rows same r indices s events []) ≡ bucket_count r)
  from_start r s events [] v st = absurd st
  from_start r s events (index ∷ indices) v st =
      add_rows-Tiles r index indices s events [] v (omega (arith, st.0))
        (subst (λ i. Ascends (suc i) indices (bucket_count r)) (sym st.0) st.1)
        (subst (λ i. r.start + r.step * i ≡ r.start) (sym st.0) (omega arith)) (sym st.0)

  -- The rows begin where the range begins, each where the one before it ends, and the last ends
  -- where the range ends; and the buckets that they stand for are all the buckets of the range.
  -- It holds for every range and step that are not empty.
  pub table_rows-Tiles :
      (r : Range) (s : CandidateState F) (events : List (TimedEvent F))
      → IsRange r
      → Tiles r.start (table_rows same r s events) r.end
        × (total_buckets (table_rows same r s events) ≡ bucket_count r)
  unfolding table_rows
  table_rows-Tiles r s events v =
      from_start r s events (ordered r events) v (ordered-Starts r events)
