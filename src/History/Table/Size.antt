-- ===== src/History/Table/Size.antt =====
-- backend/app/history/reconstruction.py: the number of the rows of `table_rows`.
use carhibou.Prelude.{
  ℕ, ◌+◌, ◌-◌, ◌*◌, ◌≤◌, Bool, ◌&&◌, Option, none, some, List, [], ◌∷◌, length, ltb, eqb,
  Bool-cases, inl, inr, if◌then◌else◌, arith,
}
use carhibou.Prelude.Float.{Float}
use carhibou.Prelude.Time.{Instant}
use carhibou.History.Events.{CandidateState, TimedEvent, Snapshot, consume}
use carhibou.History.Table.{
  TableRow, Range, bucket_count, bucket_of, edge, next_index, add_index, add_expiry, event_expiry,
  relevant, ordered, add_row, span_row, add_rows, table_rows,
}

length-add_index : (i : ℕ) (js : List ℕ) → length (add_index i js) ≤ 1 + length js
unfolding add_index
length-add_index i [] = omega arith
length-add_index i (j ∷ js) = elim (Bool-cases (ltb i j)) [
  | inl lt ↦ rw (lt, if◌then◌else◌) (omega arith)
  | inr ge ↦
      rw (ge, if◌then◌else◌)
        (elim (Bool-cases (eqb i j)) [
          | inl eq ↦ rw (eq, if◌then◌else◌) (omega arith)
          | inr ne ↦ rw (ne, if◌then◌else◌) (omega (arith, length-add_index i js))
        ])
]

length-add_expiry :
    (r : Range) (o : Option Instant) (js : List ℕ) → length (add_expiry r o js) ≤ 1 + length js
length-add_expiry r none js = omega arith
length-add_expiry r (some t) js = elim (Bool-cases (ltb r.start t && ltb t r.end)) [
  | inl inside ↦ rw (inside, if◌then◌else◌) (length-add_index (bucket_of r t) js)
  | inr outside ↦ rw (outside, if◌then◌else◌) (omega arith)
]

length-relevant :
    {F : Type 0} (r : Range) (events : List (TimedEvent F)) (js : List ℕ)
    → length (relevant r events js) ≤ 2 * length events + length js
unfolding relevant
length-relevant r [] js = omega arith
length-relevant r (e ∷ events) js =
    let indices = add_index (bucket_of r e.observed_at) js in
    omega (
      arith,
      length-relevant r events (add_expiry r (event_expiry e) indices),
      length-add_expiry r (event_expiry e) indices,
      length-add_index (bucket_of r e.observed_at) js,
    )

module _ {F : Type 0} ⦃ops : Float F⦄ (same : Snapshot F → Snapshot F → Bool) where
  length-add_row :
      (row : TableRow F) (output : List (TableRow F))
      → length (add_row same row output) ≤ 1 + length output
  length-add_row row [] = omega arith
  length-add_row row (last ∷ output) = elim (Bool-cases (same last.snapshot row.snapshot)) [
    | inl e ↦ rw (e, if◌then◌else◌) (omega arith)
    | inr e ↦ rw (e, if◌then◌else◌) (omega arith)
  ]

  length-add_rows :
      (r : Range) (indices : List ℕ) (s : CandidateState F) (events : List (TimedEvent F))
      (output : List (TableRow F))
      → length (add_rows same r indices s events output) ≤ length indices + length output
  unfolding add_rows
  length-add_rows r [] s events output = omega arith
  length-add_rows r (index ∷ indices) s events output =
      let c = consume (edge r (index + 1)) events s 0 in
      let row = span_row same r index (next_index r indices) c.0 c.1 in
      omega (
        arith,
        length-add_rows r indices c.0 c.2 (add_row same row output),
        length-add_row row output,
      )

  -- A table has at most two rows more than twice its events, however long the range is.
  pub length-table_rows :
      (r : Range) (s : CandidateState F) (events : List (TimedEvent F))
      → length (table_rows same r s events) ≤ 2 * length events + 2
  unfolding table_rows ordered
  length-table_rows r s events = omega (
    arith,
    length-add_rows r (ordered r events) s events [],
    length-relevant r events (add_index (bucket_count r - 1) (0 ∷ [])),
    length-add_index (bucket_count r - 1) (0 ∷ []),
  )
