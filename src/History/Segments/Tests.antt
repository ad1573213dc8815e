-- ===== src/History/Segments/Tests.antt =====
-- Runs of the groups of charges and drives.
use carhibou.Prelude.{ℕ, ◌<◌, ◌≡◌, refl, Bool, true, false, none, some, String, List, [], ◌∷◌, All}
use carhibou.Prelude.Int.{ℤ, pos}
use carhibou.Prelude.Hundredths.{hundredths}
use carhibou.Prelude.Math.{Math, Texts}
use carhibou.Prelude.Equality.{string_eq}
use carhibou.Prelude.Time.{Instant, seconds}
use carhibou.Telemetry.Values.{bool, float, finite_number}
use carhibou.History.Segments.{Row, charge_bounds, charge_signal}
use carhibou.History.Segments.Groups.{Holds, Follow}
use carhibou.History.Segments.Charges.{charge_at, charge_bounds-sessions}
use carhibou.History.Segments.Charges.Laws.{IsSession}
use carhibou.History.Segments.Motion.{drive_signal, drive_evidence, fallback_evidence}
use carhibou.History.Segments.Drives.{drive_bounds, row_reading}
use carhibou.History.Segments.Drives.Laws.{is_active, reading_at, IsDrive}
use carhibou.History.Segments.Drives.Cover.{drive_bounds-drives}

-- No test reads a position, so that these need not be the functions of `math`.
instance abbrev plain : Math ℤ
plain = record {
  add = λ x y. x;
  sub = λ x y. x;
  mul = λ x y. x;
  div = λ x y. x;
  pow = λ x n. x;
  radians = λ x. x;
  sin = λ x. x;
  cos = λ x. x;
  asin = λ x. x;
  sqrt = λ x. x;
}

instance abbrev lower_case : Texts String
lower_case = record { strip = λ s. s; lower = λ s. s }

abbrev row : Instant → Row ℤ
row t = record {
  recorded_at = t;
  latitude = none;
  longitude = none;
  gps_speed = none;
  reporting_interval = none;
  metrics = [];
  agent_data = [];
}

abbrev charging : Instant → Bool → Row ℤ
charging t b = record (row t) { metrics = ("charging.active", bool b) ∷ [] }

abbrev power : Instant → Row ℤ
power t = record (row t) { metrics = ("charging.power", float (pos 50)) ∷ [] }

-- A charge with a gap in its reports, and one that goes on to the end.
abbrev night : List (Row ℤ)
night =
    row (seconds 0)
    ∷ power (seconds 60)
    ∷ row (seconds 120)
    ∷ charging (seconds 180) false
    ∷ charging (seconds 240) true
    ∷ row (seconds 300)
    ∷ []

night-charges : charge_bounds 0 none night ≡ (1, 4) ∷ (4, 5) ∷ []
unfolding charge_bounds charge_signal finite_number
night-charges = refl

charge_bounds-sessions_example :
    Follow 0 (charge_bounds 0 none night) 6
    × All (IsSession (charge_at night)) (charge_bounds 0 none night)
    × ((j : ℕ) → j < 6 → charge_at night j ≡ some true → Holds (charge_bounds 0 none night) j)
charge_bounds-sessions_example = charge_bounds-sessions night

abbrev speed : Instant → Row ℤ
speed t = record (row t) { metrics = ("vehicle.speed", float (pos 3000)) ∷ [] }

abbrev in_use : Instant → Bool → Row ℤ
in_use t b = record (row t) { metrics = ("vehicle.in_use", bool b) ∷ [] }

-- A drive of fallback readings, which a long gap ends, and one between two signals.
abbrev day : List (Row ℤ)
day =
    speed (seconds 0)
    ∷ speed (seconds 60)
    ∷ speed (seconds 300)
    ∷ in_use (seconds 360) true
    ∷ row (seconds 900)
    ∷ in_use (seconds 1000) false
    ∷ []

day-drives : drive_bounds 0 none none day ≡ (0, 2) ∷ (2, 6) ∷ []
unfolding drive_bounds row_reading drive_signal drive_evidence fallback_evidence charge_signal
    finite_number
day-drives = refl

drive_bounds-drives_example :
    Follow 0 (drive_bounds 0 none none day) 6
    × All (IsDrive (reading_at none day)) (drive_bounds 0 none none day)
    × ((j : ℕ)
        → j < 6
        → is_active (reading_at none day j) ≡ true
        → Holds (drive_bounds 0 none none day) j)
drive_bounds-drives_example = drive_bounds-drives day
