-- ===== src/History/Reconstruction/Tests.antt =====
-- Runs of the expiry of candidates.
use carhibou.Prelude.{◌≡◌, ◌≤◌, ◌↔◌, refl, true, false, none, some}
use carhibou.Prelude.Int.{ℤ, pos}
use carhibou.Prelude.Time.{minutes}
use carhibou.Telemetry.Values.{float}
use carhibou.Telemetry.Registry.{definition_for}
use carhibou.Telemetry.Registry.Catalog.{canonical_metrics}
use carhibou.Telemetry.Resolution.{Candidate, can, Method, SourceKind, candidate_is_fresh}
use carhibou.History.Reconstruction.{expiry, metric_expiry}
use carhibou.History.Reconstruction.Expiry.{candidate_is_fresh-expiry}

-- The speed of a source that reports every two minutes.
abbrev speed : Candidate ℤ
speed = record {
  key = "vehicle.speed";
  value = float (pos 5000);
  observed_at = minutes 10;
  source_id = "agent";
  source_kind = SourceKind.agent;
  channel = can;
  method = Method.direct;
  source = record {
    reporting_interval = some 120;
    event_driven = false;
    source_last_contact_at = none;
    source_liveness_window_seconds = none;
  };
}

-- Three times two minutes later it expires.
speed-expiry : metric_expiry speed ≡ minutes 16
unfolding metric_expiry expiry definition_for canonical_metrics
speed-expiry = refl

candidate_is_fresh-expiry_example :
    (candidate_is_fresh speed (minutes 16) ≡ true) ↔ (minutes 16 ≤ metric_expiry speed)
candidate_is_fresh-expiry_example = candidate_is_fresh-expiry speed (minutes 16)
