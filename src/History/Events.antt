-- ===== src/History/Events.antt =====
-- backend/app/history/reconstruction.py: the state of the candidates, `resolved_state`, and how
-- `table_rows` applies events to the state.
pub mod Consumed
pub mod Replay
use carhibou.Prelude.{
  ℕ, zero, suc, ◌+◌, ◌-◌, ◌*◌, ◌/◌, min, max, ◌≡◌, ◌↔◌, Bool, true, false, ◌&&◌, ◌||◌, Option, none,
  some, is_some, String, List, [], ◌∷◌, map, ltb, leb, eqb, if◌then◌else◌, arith,
}
use carhibou.Prelude.Equality.{Dict, Eq, ◌==◌, insert, string_eq}
use carhibou.Prelude.Float.{Float}
use carhibou.Prelude.Time.{Instant, Duration, seconds}
use carhibou.Telemetry.Values.{Value, null, float}
use carhibou.Telemetry.Store.{Position, same_channel, same_channel_iff}
use carhibou.Telemetry.Resolution.{Channel, gnss, Candidate, Reading}
use carhibou.Telemetry.Resolution.Readings.{resolve_readings}
use carhibou.Telemetry.Resolution.Position.{
  PositionCandidateValue, PositionReading, resolve_position,
}
use carhibou.History.Reconstruction.{metric_expiry, position_expiry}

-- The keys of `CandidateState.metrics` and `CandidateState.positions`.
pub record SignalKey : Type 0 where
  pub source_id : String
  pub channel : Channel
  pub key : String

pub record FixKey : Type 0 where
  pub source_id : String
  pub channel : Channel

abbrev same_signal : SignalKey → SignalKey → Bool
same_signal a b = a.source_id == b.source_id && (same_channel a.channel b.channel && a.key == b.key)

pub same_signal_iff : (a b : SignalKey) → (same_signal a b ≡ true) ↔ (a ≡ b)
same_signal_iff a b = ground (
  arith,
  string_eq.same_iff a.source_id b.source_id,
  same_channel_iff a.channel b.channel,
  string_eq.same_iff a.key b.key,
)

abbrev same_fix : FixKey → FixKey → Bool
same_fix a b = a.source_id == b.source_id && same_channel a.channel b.channel

pub same_fix_iff : (a b : FixKey) → (same_fix a b ≡ true) ↔ (a ≡ b)
same_fix_iff a b =
    ground (arith, string_eq.same_iff a.source_id b.source_id, same_channel_iff a.channel b.channel)

instance abbrev pub signal_eq : Eq SignalKey
signal_eq = record { same = same_signal; same_iff = same_signal_iff }

instance abbrev pub fix_eq : Eq FixKey
fix_eq = record { same = same_fix; same_iff = same_fix_iff }

pub record CandidateState (F : Type 0) : Type 0 where
  pub metrics : Dict SignalKey (Candidate F)
  pub positions : Dict FixKey (PositionCandidateValue (Position F))
  pub agent : Dict String (Value F)

pub record TimedEvent (F : Type 0) : Type 0 where
  pub observed_at : Instant
  pub metric : Option (Candidate F)
  pub position : Option (PositionCandidateValue (Position F))
  pub agent : Option (Dict String (Value F))

-- What `resolved_state` returns.
pub record Snapshot (F : Type 0) : Type 0 where
  pub readings : Dict String (Reading F)
  pub position : Option (PositionReading (Position F))
  pub agent : Dict String (Value F)

abbrev values : {K V : Type 0} → Dict K V → List V
values = map (λ row. row.1)

module _ {F : Type 0} where
  -- `state.agent.update(agent)`
  abbrev pub update : Dict String (Value F) → Dict String (Value F) → Dict String (Value F)
  update old [] = old
  update old ((k, v) ∷ new) = update (insert k v old) new

  abbrev pub or_null : Option F → Value F
  or_null none = null
  or_null (some x) = float x

  -- The candidate for the speed that a position stands for.
  abbrev pub speed_candidate : PositionCandidateValue (Position F) → Candidate F
  speed_candidate p = record {
    key = "vehicle.speed";
    value = or_null p.value.speed;
    observed_at = p.observed_at;
    source_id = p.source_id;
    source_kind = p.source_kind;
    channel = gnss;
    method = p.method;
    source = p.source;
  }

  abbrev pub apply_metric : Option (Candidate F) → CandidateState F → CandidateState F
  apply_metric none s = s
  apply_metric (some c) s = record s {
    metrics =
        insert (record { source_id = c.source_id; channel = c.channel; key = c.key }) c s.metrics;
  }

  abbrev pub apply_position :
      Option (PositionCandidateValue (Position F)) → CandidateState F → CandidateState F
  apply_position none s = s
  apply_position (some p) s = record s {
    positions = insert (record { source_id = p.source_id; channel = p.channel }) p s.positions;
    metrics =
        insert (record { source_id = p.source_id; channel = gnss; key = "vehicle.speed" })
          (speed_candidate p) s.metrics;
  }

  abbrev pub apply_agent : Option (Dict String (Value F)) → CandidateState F → CandidateState F
  apply_agent none s = s
  apply_agent (some agent) s = record s { agent = update s.agent agent }

  -- The body of the loop over the events.
  abbrev pub apply_event : TimedEvent F → CandidateState F → CandidateState F
  apply_event e s = apply_agent e.agent (apply_position e.position (apply_metric e.metric s))

  abbrev pub report : TimedEvent F → ℕ
  report e = if is_some e.agent then 1 else 0

  -- The loop over the events up to the end of a bucket: the state, the reports counted, and the
  -- events that are left.
  pub consume :
      Instant
      → List (TimedEvent F)
      → CandidateState F
      → ℕ
      → CandidateState F × ℕ × List (TimedEvent F)
  consume bucket_end [] s reports = (s, reports, [])
  consume bucket_end (e ∷ events) s reports =
      if leb e.observed_at bucket_end
      then consume bucket_end events (apply_event e s) (reports + report e)
      else (s, reports, e ∷ events)

  module _ ⦃ops : Float F⦄ where
    -- `resolved_state`
    abbrev pub resolved_state : CandidateState F → Instant → Snapshot F
    resolved_state s at = record {
      readings = resolve_readings (values s.metrics) at;
      position = resolve_position (values s.positions) at;
      agent = s.agent;
    }
