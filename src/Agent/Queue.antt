-- ===== src/Agent/Queue.antt =====
-- agent/vehicle_agent/queue.py, `SQLiteQueue`, and `upload_once` of runtime.py. The table of samples
-- keeps its rows in order of insertion; SQLite gives rows that an order does not tell apart in any
-- order, and here in that one.
pub mod Delivery
pub mod Loss
use carhibou.Prelude.{
  ℕ, zero, suc, ◌-◌, Bool, true, false, ◌&&◌, ◌||◌, not, Option, none, some, String, List, [], ◌∷◌,
  ◌++◌, map, filter, take, length, ltb, eqb, leb, if◌then◌else◌,
}
use carhibou.Prelude.Equality.{◌==◌, string_eq, contains}
use carhibou.Prelude.Time.{Instant}
use carhibou.Agent.Samples.{Fields, Sample, Restored, as_payload, deserialize, ◌>>=◌}

pub record Row (F : Type 0) : Type 0 where
  pub id : String
  pub sequence : ℕ
  pub payload : Fields F
  pub queued_at : Instant

module _ {F : Type 0} where
  abbrev pub ids : List (Row F) → List String
  ids = map (λ r. r.id)

  abbrev pub row_of : Instant → Sample F → Row F
  row_of now s = record {
    id = s.id;
    sequence = s.sequence;
    payload = as_payload s;
    queued_at = now;
  }

  -- `enqueue`: an id that is stored is ignored.
  unfoldable pub enqueue : Instant → Sample F → List (Row F) → List (Row F)
  enqueue now s q = if contains s.id (ids q) then q else q ++ row_of now s ∷ []

  -- `ORDER BY sequence, queued_at`
  abbrev pub before : Row F → Row F → Bool
  before a b =
      ltb a.sequence b.sequence || (eqb a.sequence b.sequence && leb a.queued_at b.queued_at)

  unfoldable pub insert_row : Row F → List (Row F) → List (Row F)
  insert_row r [] = r ∷ []
  insert_row r (x ∷ xs) = if before r x then r ∷ x ∷ xs else x ∷ insert_row r xs

  unfoldable pub sort_rows : List (Row F) → List (Row F)
  sort_rows [] = []
  sort_rows (r ∷ rows) = insert_row r (sort_rows rows)

  abbrev pub first_rows : ℕ → List (Row F) → List (Row F)
  first_rows limit q = take limit (sort_rows q)

  -- The samples of rows; None stands for an exception.
  unfoldable pub deserialize_all : List (Row F) → Option (List (Restored F))
  deserialize_all [] = some []
  deserialize_all (r ∷ rows) = do
    s ← deserialize r.payload
    rest ← deserialize_all rows
    some (s ∷ rest)

  -- `pending`
  unfoldable pub pending : ℕ → List (Row F) → Option (List (Restored F))
  pending limit q = deserialize_all (first_rows limit q)

  -- `acknowledge`: the rows that are left, and the number of those deleted.
  unfoldable pub acknowledge : List String → List (Row F) → List (Row F) × ℕ
  acknowledge sample_ids q =
      let left = filter (λ r. not (contains r.id sample_ids)) q in (left, length q - length left)

  -- `depth`
  abbrev pub depth : List (Row F) → ℕ
  depth q = length q

  abbrev pub acknowledge_answer : List (Row F) → Option (List String) → Option (List (Row F) × ℕ)
  acknowledge_answer q none = none
  acknowledge_answer q (some answer) = some (acknowledge answer q)

  abbrev pub upload_samples :
      (List (Restored F) → Option (List String))
      → List (Row F)
      → List (Restored F)
      → Option (List (Row F) × ℕ)
  upload_samples transport q [] = some (q, 0)
  upload_samples transport q (s ∷ samples) = acknowledge_answer q (transport (s ∷ samples))

  -- `upload_once`, over a transport that answers with the ids that the server names, or raises an
  -- exception. An exception leaves the queue as it is.
  unfoldable pub upload_once :
      ℕ → (List (Restored F) → Option (List String)) → List (Row F) → Option (List (Row F) × ℕ)
  upload_once limit transport q = do samples ← pending limit q; upload_samples transport q samples
