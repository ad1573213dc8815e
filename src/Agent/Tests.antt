-- ===== src/Agent/Tests.antt =====
-- Runs of the agent's queue.
use carhibou.Prelude.{
  ℕ, ◌+◌, ◌≡◌, ◌⊎◌, refl, inl, inr, true, false, Option, none, some, String, List, [], ◌∷◌, In,
}
use carhibou.Prelude.Int.{ℤ, pos}
use carhibou.Prelude.Equality.{string_eq, contains}
use carhibou.Telemetry.Values.{float}
use carhibou.Agent.Samples.{Sample, PositionFix, Restored, end, as_payload, deserialize, accepts}
use carhibou.Agent.Queue.{
  Row, ids, row_of, enqueue, insert_row, sort_rows, deserialize_all, pending, acknowledge,
  upload_once,
}
use carhibou.Agent.Queue.Delivery.{upload_once-Takes}
use carhibou.Agent.Queue.Loss.{pending-enqueue, upload_once-blocked}

abbrev plain : Sample ℤ
plain = record {
  id = "a";
  sequence = 2;
  recorded_at = 10;
  position = none;
  metrics = ("vehicle.speed", float (pos 5000)) ∷ [];
  agent = [];
  reporting_interval = some 60;
}

abbrev fix : PositionFix ℤ
fix = record {
  latitude = pos 4885;
  longitude = pos 235;
  recorded_at = none;
  altitude = none;
  speed = none;
  heading = none;
  accuracy = none;
  fix_quality = none;
  satellites = none;
}

abbrev placed : Sample ℤ
placed = record plain { id = "b"; sequence = 3; position = some fix }

abbrev earlier : Sample ℤ
earlier = record plain { id = "c"; sequence = 1 }

-- Samples come in the order of their sequence, and an id is stored once.
queued-ids :
    ids
      (sort_rows (enqueue 13 plain (enqueue 12 earlier (enqueue 11 placed (enqueue 11 plain [])))))
    ≡ "c" ∷ "a" ∷ "b" ∷ []
unfolding enqueue sort_rows insert_row
queued-ids = refl

abbrev queue : List (Row ℤ)
queue = row_of 11 plain ∷ row_of 12 earlier ∷ []

-- A server that accepts the first sample that it gets.
abbrev first_only : List (Restored ℤ) → Option (List String)
first_only [] = none
first_only (s ∷ samples) = some (s.id ∷ [])

upload_once-first : upload_once 500 first_only queue ≡ some (row_of 11 plain ∷ [], 1)
unfolding upload_once pending sort_rows insert_row deserialize_all deserialize as_payload accepts
    acknowledge
upload_once-first = refl

upload_once-Takes_example :
    ((pending 500 queue ≡ some []) × (row_of 11 plain ∷ [] ≡ queue) × (◌≡◌ {A = ℕ} 1 0))
    ⊎ ((samples : List (Restored ℤ)) × (answer : List String) × (pending 500 queue ≡ some samples)
        × (first_only samples ≡ some answer)
        × (◌≡◌ {A = ℕ} (1 + 1) 2)
        × ((r : Row ℤ) → In r (row_of 11 plain ∷ []) → In r queue × (contains r.id answer ≡ false))
        × ((r : Row ℤ) → In r queue → In r (row_of 11 plain ∷ []) ⊎ (contains r.id answer ≡ true)))
upload_once-Takes_example = upload_once-Takes 500 first_only queue upload_once-first

pending-enqueue_example :
    pending 500 (enqueue 11 plain [])
    ≡ some (
        record {
          id = "a";
          sequence = 2;
          recorded_at = 10;
          position = none;
          metrics = end;
          agent = end;
          reporting_interval = some 5;
        }
        ∷ [])
pending-enqueue_example = pending-enqueue 11 plain 499 refl

upload_once-blocked_example : upload_once 500 first_only (row_of 11 placed ∷ queue) ≡ none
unfolding sort_rows insert_row
upload_once-blocked_example =
    upload_once-blocked 500 first_only (row_of 11 placed ∷ queue) (row_of 11 placed) placed fix
      (inr (inr (inl refl))) refl refl
