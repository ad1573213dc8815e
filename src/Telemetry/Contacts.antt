-- ===== src/Telemetry/Contacts.antt =====
-- backend/app/telemetry/contacts.py and `touch_source_contact` of services.py: the periods in which
-- a source was in contact.
pub mod Periods
use carhibou.Prelude.{
  ℕ, ◌+◌, Bool, true, false, ◌&&◌, Option, none, some, String, List, [], ◌∷◌, ◌++◌, ltb, leb, eqb,
  filter, max, if◌then◌else◌,
}
use carhibou.Prelude.Equality.{◌==◌, string_eq}
use carhibou.Prelude.Maximum.{max_of, by_triple}
use carhibou.Prelude.Time.{Instant, seconds}

pub record SourceContactPeriod : Type 0 where
  pub id : ℕ
  pub source_id : String
  pub started_at : Instant
  pub last_contact_at : Instant
  pub liveness_window_seconds : ℕ

-- `ORDER BY started_at DESC, id DESC`: the first row is the one with the greatest pair.
abbrev pub period_order : SourceContactPeriod → ℕ × ℕ × ℕ
period_order p = (p.started_at, p.id, 0)

-- `SourceContactPeriod.started_at <= at`, where `at` is given.
abbrev started_by : Option Instant → SourceContactPeriod → Bool
started_by none p = true
started_by (some at) p = leb p.started_at at

abbrev pub periods_of : String → List SourceContactPeriod → List SourceContactPeriod
periods_of source_id = filter (λ p. p.source_id == source_id)

-- `latest_contact_period`, and the row of `latest_contact_periods` for one source.
unfoldable pub latest_contact_period :
    List SourceContactPeriod → String → Option Instant → Option SourceContactPeriod
latest_contact_period rows source_id at =
    max_of (by_triple period_order) (filter (started_by at) (periods_of source_id rows))

-- Writing the fields of the row that a query returned.
abbrev pub update_period : ℕ → Instant → ℕ → List SourceContactPeriod → List SourceContactPeriod
update_period id contacted_at window [] = []
update_period id contacted_at window (p ∷ ps) =
    (if eqb p.id id
      then record p { last_contact_at = contacted_at; liveness_window_seconds = window }
      else p)
    ∷ update_period id contacted_at window ps

-- The key of a new row is above those of the table.
abbrev pub next_id : List SourceContactPeriod → ℕ
next_id [] = 1
next_id (p ∷ ps) = max (p.id + 1) (next_id ps)

abbrev pub new_period : String → Instant → ℕ → List SourceContactPeriod → SourceContactPeriod
new_period source_id contacted_at window rows = record {
  id = next_id rows;
  source_id = source_id;
  started_at = contacted_at;
  last_contact_at = contacted_at;
  liveness_window_seconds = window;
}

pub touch_from :
    Option SourceContactPeriod
    → String
    → Instant
    → ℕ
    → List SourceContactPeriod
    → List SourceContactPeriod
touch_from none source_id contacted_at window rows =
    rows ++ new_period source_id contacted_at window rows ∷ []
touch_from (some latest) source_id contacted_at window rows =
    if ltb contacted_at latest.last_contact_at
    then rows
    else if ltb (latest.last_contact_at + seconds latest.liveness_window_seconds) contacted_at
    then rows ++ new_period source_id contacted_at window rows ∷ []
    else update_period latest.id contacted_at window rows

pub touch_source_contact :
    List SourceContactPeriod → String → Instant → ℕ → List SourceContactPeriod
touch_source_contact rows source_id contacted_at window =
    touch_from (latest_contact_period rows source_id none) source_id contacted_at window rows
