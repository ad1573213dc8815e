-- ===== src/Telemetry/Resolution/Tests.antt =====
-- Runs of the choice of a candidate and of a position.
use carhibou.Prelude.{ℕ, ◌≡◌, ◌⊎◌, refl, true, false, none, some, List, [], ◌∷◌, In, inl, inr}
use carhibou.Prelude.Int.{ℤ, pos}
use carhibou.Prelude.Maximum.{max_of, max_from}
use carhibou.Prelude.Time.{minutes}
use carhibou.Telemetry.Values.{float, is_null}
use carhibou.Telemetry.Registry.{Liveness, definition_for, observation_is_fresh}
use carhibou.Telemetry.Registry.Catalog.{canonical_metrics}
use carhibou.Telemetry.Resolution.{
  Channel, can, obd, gnss, Method, SourceKind, Candidate, candidate_is_fresh, retains, choose,
  choose_from, choose_stale,
}
use carhibou.Telemetry.Resolution.Choice.{outranks, choose_sound, choose-max}
use carhibou.Telemetry.Resolution.Position.{
  PositionCandidateValue, position_reading, position_outranks, position_is_fresh, select_position,
  resolve_position, resolve_position-max,
}

abbrev silent : Liveness
silent = record {
  reporting_interval = none;
  event_driven = false;
  source_last_contact_at = none;
  source_liveness_window_seconds = none;
}

abbrev speed : Channel → ℕ → Candidate ℤ
speed channel minute = record {
  key = "vehicle.speed";
  value = float (pos 5000);
  observed_at = minutes minute;
  source_id = "agent";
  source_kind = SourceKind.agent;
  channel = channel;
  method = Method.direct;
  source = silent;
}

-- A speed of the bus that is older than that of the receiver, and one that is out of date.
abbrev speeds : List (Candidate ℤ)
speeds = speed gnss 10 ∷ speed obd 9 ∷ speed can 1 ∷ []

abbrev odometer : Candidate ℤ
odometer = record (speed can 1) { key = "vehicle.odometer" }

choose-speeds : choose "vehicle.speed" speeds (minutes 11) ≡ some (speed obd 9)
unfolding choose choose_from max_of max_from candidate_is_fresh observation_is_fresh definition_for
    canonical_metrics
choose-speeds = refl

-- An hour later there is no speed, while an odometer keeps its value.
choose-stale :
    (choose "vehicle.speed" speeds (minutes 70) ≡ none)
    × (choose "vehicle.odometer" (odometer ∷ []) (minutes 70) ≡ some odometer)
unfolding choose choose_from choose_stale max_of max_from candidate_is_fresh observation_is_fresh
    definition_for canonical_metrics
choose-stale = (refl, refl)

choose-sound_example :
    In (speed obd 9) speeds
    × (is_null (float (pos 5000)) ≡ false)
    × ((candidate_is_fresh (speed obd 9) (minutes 11) ≡ true)
        ⊎ (retains (definition_for "vehicle.speed") ≡ true))
choose-sound_example = choose_sound "vehicle.speed" speeds (minutes 11) choose-speeds

choose-max_example : outranks "vehicle.speed" (minutes 11) (speed can 1) (speed obd 9) ≡ false
choose-max_example =
    choose-max "vehicle.speed" speeds (minutes 11) (speed can 1) choose-speeds
      (inr (inr (inl refl))) refl

odometer-retains : retains (definition_for "vehicle.odometer") ≡ true
unfolding definition_for canonical_metrics
odometer-retains = refl

abbrev fix : ℕ → PositionCandidateValue ℕ
fix minute = record {
  value = minute;
  observed_at = minutes minute;
  source_id = "agent";
  source_kind = SourceKind.agent;
  channel = gnss;
  method = Method.direct;
  source = silent;
}

resolve-fixes :
    resolve_position (fix 1 ∷ fix 10 ∷ []) (minutes 11)
    ≡ some (position_reading (fix 10) (minutes 11))
unfolding resolve_position select_position max_of max_from position_is_fresh observation_is_fresh
    definition_for canonical_metrics
resolve-fixes = refl

resolve_position-max_example :
    (c : PositionCandidateValue ℕ) × In c (fix 1 ∷ fix 10 ∷ [])
    × (position_reading (fix 10) (minutes 11) ≡ position_reading c (minutes 11))
    × (position_outranks (minutes 11) (fix 1) c ≡ false)
resolve_position-max_example =
    resolve_position-max (fix 1 ∷ fix 10 ∷ []) (minutes 11) (fix 1) resolve-fixes (inl refl)
