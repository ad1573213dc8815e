-- ===== src/History/Reconstruction/Expiry.antt =====
-- backend/app/history/reconstruction.py: the expiry of a candidate and its freshness.
use carhibou.Prelude.{◌≡◌, true, String, ◌≤◌, ◌↔◌, arith, leb}
use carhibou.Prelude.Time.{Instant}
use carhibou.Telemetry.Registry.{Liveness, observation_is_fresh}
use carhibou.Telemetry.Resolution.{Candidate, candidate_is_fresh}
use carhibou.History.Reconstruction.{expiry, metric_expiry}

observation_is_fresh-expiry :
    (key : String) (observed_at now : Instant) (source : Liveness)
    → observation_is_fresh key observed_at now source ≡ leb now (expiry key observed_at source)
unfolding observation_is_fresh expiry
observation_is_fresh-expiry key observed_at now source = ground arith

-- The instant at which a row of the table ends a candidate is the last at which the resolution
-- takes it for fresh, for metrics.
pub candidate_is_fresh-expiry :
    {F : Type 0} (c : Candidate F) (now : Instant)
    → (candidate_is_fresh c now ≡ true) ↔ (now ≤ metric_expiry c)
unfolding candidate_is_fresh metric_expiry
candidate_is_fresh-expiry c now =
    ground (arith, observation_is_fresh-expiry c.key c.observed_at now c.source)
