-- ===== src/Prelude/Time.antt =====
-- Instants and durations (backend/app/common/time.py): an aware datetime is a number of
-- microseconds since the first instant that a Python datetime has, in UTC, so `as_utc` is the
-- identity. A timedelta is a number of microseconds.
use Prim.Native.Nat.{ℕ, ◌*◌}

abbrev pub Instant : Type 0
Instant = ℕ

abbrev pub Duration : Type 0
Duration = ℕ

-- `timedelta(seconds=n)`
abbrev pub seconds : ℕ → Duration
seconds n = n * 1_000_000

-- `timedelta(minutes=n)`
abbrev pub minutes : ℕ → Duration
minutes n = n * 60_000_000
