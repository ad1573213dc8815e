-- ===== src/Agent/Queue/Loss.antt =====
-- agent/vehicle_agent/queue.py: what `pending` reads of the samples that `enqueue` stored.
use carhibou.Prelude.{
  ℕ, zero, suc, ◌≡◌, refl, take, In, inl, inr, Option-cases, Option, none, some, String, List, [],
  ◌∷◌,
}
use carhibou.Prelude.Time.{Instant}
use carhibou.Agent.Samples.{
  Sample, PositionFix, Restored, end, fields_of, as_payload, accepts, deserialize,
}
use carhibou.Agent.Queue.{
  Row, first_rows, enqueue, insert_row, sort_rows, deserialize_all, pending, upload_once,
}

module _ {F : Type 0} where
  plain :
      (s : Sample F)
      → s.position ≡ none
      → deserialize (as_payload s)
        ≡ some (record {
          id = s.id;
          sequence = s.sequence;
          recorded_at = s.recorded_at;
          position = none;
          metrics = end;
          agent = fields_of s.agent;
          reporting_interval = some 5;
        })
  unfolding deserialize as_payload
  plain s e = rw e

  placed :
      (s : Sample F) (p : PositionFix F) → s.position ≡ some p → deserialize (as_payload s) ≡ none
  unfolding deserialize as_payload accepts
  placed s p e = rw e

  take_nil : (n : ℕ) → take {A = Row F} n [] ≡ []
  take_nil zero = refl
  take_nil (suc n) = refl

  blocked :
      (rows : List (Row F)) (r : Row F) (s : Sample F) (p : PositionFix F)
      → In r rows
      → r.payload ≡ as_payload s
      → s.position ≡ some p
      → deserialize_all rows ≡ none
  unfolding deserialize_all
  blocked [] r s p m e q = absurd m
  blocked (x ∷ rows) r s p (inl same) e q =
      let fails : deserialize x.payload ≡ none = rw (← same, e) (placed s p q) in rw fails
  blocked (x ∷ rows) r s p (inr m) e q = elim (Option-cases (deserialize x.payload)) [
    | inl fails ↦ rw fails
    | inr (y, comes) ↦ rw (comes, blocked rows r s p m e q)
  ]

  -- A sample without a position, the only one in a queue, comes back with no metrics and with the default interval.
  pub pending-enqueue :
      (now : Instant) (s : Sample F) (limit : ℕ)
      → s.position ≡ none
      → pending (suc limit) (enqueue now s [])
        ≡ some (
            record {
              id = s.id;
              sequence = s.sequence;
              recorded_at = s.recorded_at;
              position = none;
              metrics = end;
              agent = fields_of s.agent;
              reporting_interval = some 5;
            }
            ∷ [])
  unfolding pending enqueue sort_rows insert_row deserialize_all
  pending-enqueue now s limit e = rw (plain s e, take_nil limit)

  -- One sample with a position among the first that are read stops every upload: the upload raises
  -- an exception whatever the transport would answer, and so does the next one.
  pub upload_once-blocked :
      (limit : ℕ) (transport : List (Restored F) → Option (List String)) (q : List (Row F))
      (r : Row F) (s : Sample F) (p : PositionFix F)
      → In r (first_rows limit q)
      → r.payload ≡ as_payload s
      → s.position ≡ some p
      → upload_once limit transport q ≡ none
  unfolding upload_once pending
  upload_once-blocked limit transport q r s p m e has =
      rw (blocked (first_rows limit q) r s p m e has)
