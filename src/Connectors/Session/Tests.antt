-- ===== src/Connectors/Session/Tests.antt =====
-- Runs of a session: a message, the flush that sends it, and a buffer that is too large.
use carhibou.Prelude.{
  ℕ, zero, suc, ◌+◌, ◌/◌, ◌%◌, ◌≡◌, refl, true, false, Option, none, some, String, [], ◌∷◌, eqb,
  length, All, if◌then◌else◌, arith,
}
use Prim.Native.String.{◌++◌ as append_text}
use carhibou.Prelude.Equality.{Dict, get, string_eq}
use carhibou.Prelude.Hundredths.{hundredths}
use carhibou.Prelude.Int.{ℤ, pos}
use carhibou.Prelude.Time.{seconds}
use carhibou.Telemetry.Values.{Value, null, float, finite_number}
use carhibou.Telemetry.Values.Coercion.{coerce_value, coerce_value_number, is_number}
use carhibou.Telemetry.State.{Db}
use carhibou.Telemetry.Candidates.{Agent, TelemetrySample}
use carhibou.Telemetry.Ingest.{IngestionResult, ingested, ingest_batch}
use carhibou.Profiles.Readers.{lower_case, ascii, reader, unused}
use carhibou.Profiles.Mapping.{map_message, apply_rule, store, valid_metric_key}
use carhibou.Sources.{Source}
use carhibou.Connectors.{Connector, ConnectorStatus, shadow_source}
use carhibou.Connectors.Session.{SessionDefinition, SessionState, Store, new_session}
use carhibou.Connectors.Session.Messages.{handle_message}
use carhibou.Connectors.Session.Flush.{raises, returns, as_agent, flush}
use carhibou.Connectors.Session.Buffer.{IsBuffered}
use carhibou.Connectors.Session.Kept.{left_by}
use carhibou.Connectors.Session.Heard.{Message, IsHeard}
use carhibou.Connectors.Session.Carried.{Carries, IsSendable}
use carhibou.Connectors.Session.Delivery.{flush-sends, flush-overfull}
use carhibou.Connectors.Session.Calls.{here, next, handles, flushes, Reach-IsBuffered}

-- How the runs write a number: by its last binary digit.
abbrev digit : ℕ → String
digit n = if eqb (n % 2) 0 then "0" else "1"

abbrev definition : SessionDefinition ℤ
definition = record {
  id = "c";
  namespace = "";
  car_id = "1";
  sample_seconds = 10;
  mapping_profile = record {
    passthrough_prefix = "";
    ignore = [];
    rules = record { match = "speed"; target = "vehicle.speed"; transform = none } ∷ [];
  };
}

abbrev connector : Connector ℕ
connector = record {
  id = "c";
  vehicle_id = "v";
  name = "Car";
  kind = "teslamate.mqtt";
  mapping_profile = "p";
  enabled = true;
  config = 10;
  config_version = 1;
  status = ConnectorStatus.connected;
  last_connected_at = none;
  last_message_at = none;
  last_sample_at = none;
  last_error = "";
}

abbrev source : Source
source = shadow_source "c" "v" "Car" "h" "1" 10

abbrev empty_db : Db ℤ
empty_db = record {
  telemetry = [];
  observations = [];
  position_observations = [];
  metric_candidates = [];
  position_candidates = [];
  contact_periods = [];
  states = [];
  connectors = "c" ∷ [];
  hooks = [];
  hook_tables = record { triggers = []; executions = []; jobs = [] };
}

abbrev tables : Store ℕ ℤ
tables = record {
  connectors = ("c", connector) ∷ [];
  agents = ("c", source) ∷ [];
  telemetry = empty_db;
}

abbrev message : Option (SessionState ℤ × Store ℕ ℤ)
message =
    handle_message digit definition "teslamate/cars/1/speed" (some "12.5") (seconds 1) (seconds 100)
      (new_session "boot", tables)

abbrev heard : SessionState ℤ × Store ℕ ℤ
heard = elim message [ some p ↦ p | none ↦ (new_session "boot", tables) ]

message-heard : message ≡ some heard
unfolding handle_message map_message apply_rule store valid_metric_key coerce_value
    coerce_value_number is_number finite_number
message-heard = refl

abbrev told : Message
told = record { topic = "teslamate/cars/1/speed"; payload = some "12.5"; at = seconds 100 }

Reach-IsBuffered_example :
    IsBuffered (left_by (flush digit definition false (seconds 5) (seconds 105) "s" heard)).0
    × IsHeard definition
        (told ∷ [])
        (left_by (flush digit definition false (seconds 5) (seconds 105) "s" heard)).0
Reach-IsBuffered_example = Reach-IsBuffered digit definition "boot" tables (
    next
      (next here
        (handles "teslamate/cars/1/speed" (some "12.5") (seconds 1) (seconds 100) message-heard))
      (flushes false (seconds 5) (seconds 105) "s"))

-- A buffer with a speed and a position.
abbrev full : SessionState ℤ
full = record (new_session "boot") {
  metrics = ("vehicle.speed", float (pos 1250)) ∷ [];
  metric_observed_at = ("vehicle.speed", seconds 100) ∷ [];
  position = ("latitude", pos 4800) ∷ ("longitude", pos 200) ∷ [];
  position_observed_at = some (seconds 100);
  window_started = some (seconds 1);
}

full-IsBuffered : IsBuffered full
full-IsBuffered = record {
  idle = λ e. absurd (cc e);
  in_place = ((_, refl, refl), ((_, refl, refl), tt));
}

full-valid : All IsSendable full.metrics
unfolding valid_metric_key
full-valid = ((refl, refl), tt)

flush-sends_example :
    (sample : TelemetrySample ℤ) × (result : IngestionResult) × (agent : Agent) × (db : Db ℤ)
    × (after : SessionState ℤ × Store ℕ ℤ) × Carries "s" (seconds 105) full sample
    × (ingest_batch
          (as_agent source)
          (record { boot_id = "boot"; samples = sample ∷ [] })
          (seconds 105)
          (seconds 105)
          empty_db
        ≡ ingested (result, agent, db))
    × (flush digit definition true (seconds 5) (seconds 105) "s" (full, tables)
        ≡ returns true after)
    × (after.0 ≡ record full {
      sequence = full.sequence + 1;
      metrics = [];
      metric_observed_at = [];
      position = [];
      position_observed_at = none;
      window_started = none;
    })
    × (after.1.telemetry ≡ db)
    × (get "c" after.1.connectors ≡ some (record connector { last_sample_at = some (seconds 105) }))
    × (get "c" after.1.agents ≡ some (record source { last_seen_at = some (seconds 105) }))
flush-sends_example =
    flush-sends digit definition true (seconds 5) (seconds 105) "s" full tables source connector
      full-IsBuffered refl refl refl refl refl (omega arith) full-valid

-- Names in binary digits, and as many metrics without a value.
name : ℕ → ℕ → String
name zero n = ""
name (suc size) n = append_text (digit n) (name size (n / 2))

many : ℕ → Dict String (Value ℤ)
many zero = []
many (suc n) = (name 11 n, null) ∷ many n

length-many : (n : ℕ) → length (many n) ≡ n
unfolding many
length-many zero = refl
length-many (suc n) = omega (arith, length-many n)

abbrev overfull : SessionState ℤ
overfull = record (new_session "boot") { metrics = many 2001; window_started = some (seconds 1) }

overfull-IsBuffered : IsBuffered overfull
overfull-IsBuffered = record { idle = λ e. absurd (cc e); in_place = tt }

flush-overfull_example :
    flush digit definition true (seconds 5) (seconds 105) "s" (overfull, tables)
    ≡ raises (overfull, tables)
flush-overfull_example =
    flush-overfull digit definition true (seconds 5) (seconds 105) "s" overfull tables
      overfull-IsBuffered refl (omega (arith, length-many 2001))
