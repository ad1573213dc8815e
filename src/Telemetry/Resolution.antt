-- ===== src/Telemetry/Resolution.antt =====
-- backend/app/telemetry/resolution.py: one reading for each metric out of the candidates that
-- several sources and channels left, and one position.
pub mod Choice
pub mod Readings
pub mod Position
mod Tests
use carhibou.Prelude.{
  ℕ, Bool, true, false, ◌&&◌, ◌||◌, not, Option, none, some, String, List, [], ◌∷◌, ◌++◌, eqb,
  filter, any, is_some, or_else, if◌then◌else◌,
}
use carhibou.Prelude.Int.{ℤ, pos}
use carhibou.Prelude.Equality.{◌==◌, Dict, get, insert, string_eq}
use carhibou.Prelude.Float.{Float}
use carhibou.Prelude.Maximum.{max_of, by_triple, prefer}
use carhibou.Prelude.Time.{Instant}
use carhibou.Telemetry.Values.{Value, null, bool, int, float, text, finite_number, is_null}
use carhibou.Telemetry.Registry.{Liveness, observation_is_fresh, definition_for}
use carhibou.Telemetry.Registry.Catalog.{MetricDefinition}

pub data Channel : Type 0 where
  can obd gnss mqtt derived : Channel

pub data Method : Type 0 where
  direct derived : Method

pub data SourceKind : Type 0 where
  agent connector : SourceKind

pub record Candidate (F : Type 0) : Type 0 where
  pub key : String
  pub value : Value F
  pub observed_at : Instant
  pub source_id : String
  pub source_kind : SourceKind
  pub channel : Channel
  pub method : Method
  pub source : Liveness

-- The dictionary that `_reading` returns.
pub record Reading (F : Type 0) : Type 0 where
  pub value : Value F
  pub observed_at : Instant
  pub source_id : String
  pub source_kind : SourceKind
  pub channel : Channel
  pub method : Method
  pub fresh : Bool

abbrev pub is_direct : Method → Bool
is_direct Method.direct = true
is_direct Method.derived = false

abbrev channel_rank : Channel → ℕ
channel_rank can = 5
channel_rank obd = 4
channel_rank gnss = 3
channel_rank mqtt = 2
channel_rank Channel.derived = 1

-- `candidate.channel in {"can", "obd"}`
abbrev pub is_road : Channel → Bool
is_road can = true
is_road obd = true
is_road gnss = false
is_road mqtt = false
is_road Channel.derived = false

-- `definition is None or definition.retain_stale`
abbrev pub retains : Option MetricDefinition → Bool
retains none = true
retains (some d) = d.retain_stale

module _ {F : Type 0} where
  unfoldable pub candidate_is_fresh : Candidate F → Instant → Bool
  candidate_is_fresh c now = observation_is_fresh c.key c.observed_at now c.source

  abbrev pub reading_as : Candidate F → Bool → Reading F
  reading_as c fresh = record {
    value = c.value;
    observed_at = c.observed_at;
    source_id = c.source_id;
    source_kind = c.source_kind;
    channel = c.channel;
    method = c.method;
    fresh = fresh;
  }

  abbrev pub reading : Candidate F → Instant → Reading F
  reading c now = reading_as c (candidate_is_fresh c now)

  abbrev pub priority : Candidate F → ℕ × ℕ × ℕ
  priority c = (if is_direct c.method then 1 else 0, channel_rank c.channel, c.observed_at)

  abbrev pub usable : List (Candidate F) → List (Candidate F)
  usable = filter (λ c. not (is_null c.value))

  abbrev pub fresh_of : List (Candidate F) → Instant → List (Candidate F)
  fresh_of cs now = filter (λ c. candidate_is_fresh c now) (usable cs)

  abbrev pub road_of : List (Candidate F) → List (Candidate F)
  road_of = filter (λ c. is_road c.channel)

  -- For the speed, `if road: fresh = road`.
  abbrev pub preferred : String → List (Candidate F) → List (Candidate F)
  preferred key fresh = if key == "vehicle.speed" then prefer (road_of fresh) fresh else fresh

  choose_stale : String → List (Candidate F) → Option (Candidate F)
  choose_stale key cs =
      if retains (definition_for key) then max_of (by_triple priority) (usable cs) else none

  choose_from : String → List (Candidate F) → List (Candidate F) → Option (Candidate F)
  choose_from key cs [] = choose_stale key cs
  choose_from key cs (f ∷ fs) = max_of (by_triple priority) (preferred key (f ∷ fs))

  -- `_choose`
  pub choose : String → List (Candidate F) → Instant → Option (Candidate F)
  unfolding choose_from
  choose key cs now = choose_from key cs (fresh_of cs now)
