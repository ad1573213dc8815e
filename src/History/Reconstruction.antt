-- ===== src/History/Reconstruction.antt =====
-- backend/app/history/reconstruction.py: when a candidate expires.
pub mod Expiry
mod Tests
use carhibou.Prelude.{
  ℕ, ◌+◌, ◌*◌, max, Bool, true, false, Option, none, some, String, is_some, ◌&&◌, or_number,
  if◌then◌else◌,
}
use carhibou.Prelude.Time.{Instant, Duration, seconds}
use carhibou.Telemetry.Registry.{Liveness, contact_for, freshness_of, freshness_interval_multiplier}
use carhibou.Telemetry.Resolution.{Candidate}
use carhibou.Telemetry.Resolution.Position.{PositionCandidateValue}

-- The freshness window of a report, by its interval.
abbrev interval_window : Duration → Option ℕ → Duration
interval_window freshness none = freshness
interval_window freshness (some interval) =
    max freshness (seconds (freshness_interval_multiplier * interval))

-- `_expiry`, over what it reads of a candidate.
pub expiry : String → Instant → Liveness → Instant
expiry key observed_at source =
    let freshness = freshness_of key in
    elim (contact_for source.event_driven source.source_last_contact_at) [
      | some contact ↦
          contact + max freshness (seconds (or_number source.source_liveness_window_seconds 0))
      | none ↦ observed_at + interval_window freshness source.reporting_interval
    ]

module _ {F : Type 0} where
  pub metric_expiry : Candidate F → Instant
  metric_expiry c = expiry c.key c.observed_at c.source

-- A position has the window of the speed.
pub position_expiry : {V : Type 0} → PositionCandidateValue V → Instant
position_expiry c = expiry "vehicle.speed" c.observed_at c.source
