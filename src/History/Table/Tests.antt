-- ===== src/History/Table/Tests.antt =====
-- Runs of the rows of a table.
use carhibou.Prelude.{
  ◌≤◌, ◌*◌, ◌+◌, ◌≡◌, Bool, true, false, none, some, List, [], ◌∷◌, length, arith,
}
use carhibou.Prelude.Int.{ℤ, pos}
use carhibou.Prelude.Hundredths.{hundredths}
use carhibou.Prelude.Time.{minutes}
use carhibou.Telemetry.Values.{float}
use carhibou.Telemetry.Resolution.{Candidate, can, Method, SourceKind}
use carhibou.History.Events.{CandidateState, TimedEvent, Snapshot}
use carhibou.History.Events.Consumed.{reports_of}
use carhibou.History.Table.{Range, bucket_count, table_rows}
use carhibou.History.Table.Buckets.{IsRange}
use carhibou.History.Table.Tiling.{Tiles, total_buckets, table_rows-Tiles}
use carhibou.History.Table.Reports.{total_reports, table_rows-reports}
use carhibou.History.Table.Size.{length-table_rows}

-- An hour in buckets of a minute.
abbrev hour : Range
hour = record { start = minutes 100; end = minutes 160; step = minutes 1 }

hour-IsRange : IsRange hour
hour-IsRange = record { ahead = omega arith; moves = omega arith }

abbrev at_start : CandidateState ℤ
at_start = record { metrics = []; positions = []; agent = [] }

abbrev speed : Candidate ℤ
speed = record {
  key = "vehicle.speed";
  value = float (pos 5000);
  observed_at = minutes 110;
  source_id = "agent";
  source_kind = SourceKind.agent;
  channel = can;
  method = Method.direct;
  source = record {
    reporting_interval = none;
    event_driven = false;
    source_last_contact_at = none;
    source_liveness_window_seconds = none;
  };
}

abbrev events : List (TimedEvent ℤ)
events =
    record { observed_at = minutes 110; metric = some speed; position = none; agent = none }
    ∷ record { observed_at = minutes 110; metric = none; position = none; agent = some [] }
    ∷ []

-- Two snapshots that show as many readings.
abbrev same : Snapshot ℤ → Snapshot ℤ → Bool
same a b = elim a.readings [
  | [] ↦ elim b.readings [ [] ↦ true | r ∷ rs ↦ false ]
  | r ∷ rs ↦ elim b.readings [ [] ↦ false | q ∷ qs ↦ true ]
]

table_rows-Tiles_example :
    Tiles (minutes 100) (table_rows same hour at_start events) (minutes 160)
    × (total_buckets (table_rows same hour at_start events) ≡ bucket_count hour)
table_rows-Tiles_example = table_rows-Tiles same hour at_start events hour-IsRange

table_rows-reports_example :
    total_reports (table_rows same hour at_start events) ≡ reports_of events
table_rows-reports_example =
    table_rows-reports same hour at_start events hour-IsRange (omega arith, (omega arith, tt))

length-table_rows_example : length (table_rows same hour at_start events) ≤ 2 * length events + 2
length-table_rows_example = length-table_rows same hour at_start events
