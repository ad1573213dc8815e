-- ===== src/Telemetry/Contacts/Periods.antt =====
-- backend/app/telemetry/services.py: what `touch_source_contact` does to the periods of a
-- source.
use carhibou.Prelude.{
  ℕ, ◌+◌, ◌≤◌, ◌≡◌, refl, subst, ap, suc, inl, inr, Option, none, some, String, List, [], ◌∷◌, ◌++◌,
  arith, In, In-filter, In-append_right, length, length-append, Bool-cases, ltb, if◌then◌else◌,
}
use carhibou.Prelude.Equality.{◌==◌, string_eq}
use carhibou.Prelude.Maximum.{max_of-In, by_triple}
use carhibou.Prelude.Time.{Instant, seconds}
use carhibou.Telemetry.Contacts.{
  SourceContactPeriod, period_order, periods_of, latest_contact_period, started_by, update_period,
  new_period, touch_from, touch_source_contact,
}

-- The latest period is a row of the table, of that source.
latest_contact_period-In :
    (rows : List SourceContactPeriod) (source_id : String) (at : Option Instant)
    {p : SourceContactPeriod}
    → latest_contact_period rows source_id at ≡ some p
    → In p rows × (p.source_id ≡ source_id)
unfolding latest_contact_period
latest_contact_period-In rows source_id at {p} e = ground (
  arith,
  In-filter (started_by at) p (periods_of source_id rows) (max_of-In (by_triple period_order) _ e),
  In-filter (λ (p : SourceContactPeriod). p.source_id == source_id) p rows,
  string_eq.same_iff p.source_id source_id,
)

-- A period of the source that lasts to a given instant.
abbrev pub Reaches : Instant → String → List SourceContactPeriod → Type 0
Reaches at source_id rows =
    (p : SourceContactPeriod) × In p rows × (p.source_id ≡ source_id) × (at ≤ p.last_contact_at)

update_period-Reaches :
    (rows : List SourceContactPeriod) (contacted_at : Instant) (window : ℕ)
    (p : SourceContactPeriod)
    → In p rows
    → Reaches contacted_at p.source_id (update_period p.id contacted_at window rows)
update_period-Reaches [] contacted_at window p h = absurd h
update_period-Reaches (q ∷ rows) contacted_at window p (inl e) = (
  record q { last_contact_at = contacted_at; liveness_window_seconds = window },
  ground arith,
  ground arith,
  omega arith,
)
update_period-Reaches (q ∷ rows) contacted_at window p (inr h) =
    let (r, mem, source, last) = update_period-Reaches rows contacted_at window p h in
    (r, inr mem, source, last)

new_period-Reaches :
    (rows : List SourceContactPeriod) (source_id : String) (contacted_at : Instant) (window : ℕ)
    → Reaches contacted_at source_id (rows ++ new_period source_id contacted_at window rows ∷ [])
new_period-Reaches rows source_id contacted_at window =
    let p = new_period source_id contacted_at window rows in
    (p, In-append_right p rows (p ∷ []) (inl refl), refl, omega arith)

touch_from-Reaches :
    (rows : List SourceContactPeriod) (source_id : String) (contacted_at : Instant) (window : ℕ)
    (p : SourceContactPeriod)
    → In p rows
    → p.source_id ≡ source_id
    → Reaches contacted_at source_id (touch_from (some p) source_id contacted_at window rows)
unfolding touch_from
touch_from-Reaches rows source_id contacted_at window p mem source =
    elim (Bool-cases (ltb contacted_at p.last_contact_at)) [
      | inl late ↦ rw late (p, mem, source, ground arith)
      | inr current ↦
          rw current
            (elim (Bool-cases
              (ltb (p.last_contact_at + seconds p.liveness_window_seconds) contacted_at)) [
                | inl lapsed ↦ rw lapsed (new_period-Reaches rows source_id contacted_at window)
                | inr alive ↦ rw alive (
                    subst
                      (λ s. Reaches contacted_at s (update_period p.id contacted_at window rows))
                      source (update_period-Reaches rows contacted_at window p mem))
              ])
    ]

touch_latest-Reaches :
    (rows : List SourceContactPeriod) (source_id : String) (contacted_at : Instant) (window : ℕ)
    (o : Option SourceContactPeriod)
    → latest_contact_period rows source_id none ≡ o
    → Reaches contacted_at source_id (touch_from o source_id contacted_at window rows)
touch_latest-Reaches rows source_id contacted_at window none e =
    unfold touch_from in new_period-Reaches rows source_id contacted_at window
touch_latest-Reaches rows source_id contacted_at window (some p) e =
    let (mem, source) = latest_contact_period-In rows source_id none e in
    touch_from-Reaches rows source_id contacted_at window p mem source

-- Every contact is on record afterwards: some period of the source lasts at least to it.
pub touch_source_contact-Reaches :
    (rows : List SourceContactPeriod) (source_id : String) (contacted_at : Instant) (window : ℕ)
    → Reaches contacted_at source_id (touch_source_contact rows source_id contacted_at window)
unfolding touch_source_contact
touch_source_contact-Reaches rows source_id contacted_at window =
    touch_latest-Reaches rows source_id contacted_at window _ refl

length-update_period :
    (id : ℕ) (contacted_at : Instant) (window : ℕ) (rows : List SourceContactPeriod)
    → length (update_period id contacted_at window rows) ≡ length rows
length-update_period id contacted_at window [] = refl
length-update_period id contacted_at window (p ∷ rows) =
    ap suc (length-update_period id contacted_at window rows)

-- A source that has been in contact gets a new period exactly for a contact that comes more than
-- the announced window after its last one; otherwise the table keeps its number of rows.
pub length-touch_source_contact :
    (rows : List SourceContactPeriod) (source_id : String) (contacted_at : Instant) (window : ℕ)
    {p : SourceContactPeriod}
    → latest_contact_period rows source_id none ≡ some p
    → length (touch_source_contact rows source_id contacted_at window) ≡ (
        if ltb (p.last_contact_at + seconds p.liveness_window_seconds) contacted_at
        then length rows + 1
        else length rows)
unfolding touch_source_contact touch_from
length-touch_source_contact rows source_id contacted_at window {p} e = rw e (
    ground (
      arith,
      length-append rows (new_period source_id contacted_at window rows ∷ []),
      length-update_period p.id contacted_at window rows,
    ))
