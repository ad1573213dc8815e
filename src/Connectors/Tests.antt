-- ===== src/Connectors/Tests.antt =====
-- Runs of connectors: a supervisor with two of them, and a session with its messages.
use carhibou.Prelude.{
  ℕ, ◌≤◌, ◌≡◌, refl, Bool, true, none, some, String, [], ◌∷◌, eqb, All, if◌then◌else◌, arith,
}
use carhibou.Prelude.Equality.{Dict, get, insert, string_eq}
use carhibou.Prelude.Hundredths.{hundredths}
use carhibou.Prelude.Keys.{IsDict}
use carhibou.Profiles.Readers.{lower_case, ascii, reader, unused}
use carhibou.Sources.{Source}
use carhibou.Connectors.{
  Connector, ConnectorStatus, Tables, ConnectorUpdate, value_error, changed, edited,
  update_connector, retire_connector, shadow_source,
}
use carhibou.Connectors.Supervisor.{
  ConnectorDefinition, Resolved, valid, invalid, definition_of, reconcile,
}
use carhibou.Connectors.Supervisor.Reconciled.{due}
use carhibou.Connectors.Supervisor.Rows.{wanted, reconcile-due}
use carhibou.Connectors.Lifecycle.{here}
use carhibou.Connectors.Retirement.{retire_connector-stays, update_connector-restarts}

abbrev all_profiles : String → Bool
all_profiles name = true

-- A stored configuration is its `sample_seconds`, and 0 is not valid.
abbrev cadence : ℕ → ℕ
cadence c = c

abbrev resolve : Connector ℕ → Resolved ℕ
resolve connector = if eqb connector.config 0 then invalid "no cadence" else valid connector.config

abbrev car : Connector ℕ
car = record {
  id = "c";
  vehicle_id = "v";
  name = "Car";
  kind = "teslamate.mqtt";
  mapping_profile = "p";
  enabled = true;
  config = 10;
  config_version = 2;
  status = ConnectorStatus.connecting;
  last_connected_at = none;
  last_message_at = none;
  last_sample_at = none;
  last_error = "";
}

abbrev source : Source
source = shadow_source "c" "v" "Car" "h" "1" 10

abbrev tables : Tables ℕ
tables = record {
  connectors = ("c", car) ∷ ("d", record car { id = "d"; config = 0 }) ∷ [];
  agents = ("c", source) ∷ [];
}

-- A session of an older version, and one whose connector is gone.
abbrev older : ConnectorDefinition ℕ
older = record { id = "c"; config_version = 1; detail = 5 }

abbrev sessions : Dict String (ConnectorDefinition ℕ)
sessions = ("c", older) ∷ ("e", record older { id = "e" }) ∷ []

reconcile-due_example :
    get "c" (reconcile resolve tables sessions).0.running
    ≡ due (get "c" sessions) (wanted resolve tables (get "c" tables.connectors))
reconcile-due_example =
    reconcile-due resolve tables sessions "c" ((refl, (refl, tt)), (refl, (refl, tt)))
      (refl, (refl, tt))

-- That is the stored version.
renewed_car :
    due (get "c" sessions) (wanted resolve tables (get "c" tables.connectors))
    ≡ some (definition_of car 10)
renewed_car = refl

abbrev retired : Tables ℕ
retired = retire_connector 1000 car tables

retired-Keyed : IsDict retired.connectors × All (λ row. row.1.id ≡ row.0) retired.connectors
unfolding retire_connector
retired-Keyed = ((refl, (refl, tt)), (refl, (refl, tt)))

retire_connector-stays_example :
    ((row : Connector ℕ) (form : ConnectorUpdate ℕ)
      → row.id ≡ "c"
      → update_connector all_profiles cadence row form retired
        ≡ value_error "retired connector cannot be changed")
    × (get "c" (reconcile resolve retired sessions).0.running ≡ none)
retire_connector-stays_example =
    retire_connector-stays all_profiles cadence resolve 1000 car tables retired sessions refl here
      retired-Keyed (refl, (refl, tt))

abbrev faster : ConnectorUpdate ℕ
faster = record { name = "Car"; enabled = true; mapping_profile = "p"; config = 3 }

abbrev updated : Tables ℕ
updated = record {
  connectors = insert "c" (edited faster car) tables.connectors;
  agents =
      insert "c"
        (record source {
          config_version = 2;
          sampling_seconds = 3;
          upload_seconds = 3;
          parked_sampling_seconds = 3;
          parked_upload_seconds = 3;
        })
        tables.agents;
}

updates : update_connector all_profiles cadence car faster tables ≡ changed updated
unfolding update_connector
updates = refl

versions :
    (s : ConnectorDefinition ℕ) → get "c" sessions ≡ some s → s.config_version ≤ car.config_version
versions s e = ground arith

update_connector-restarts_example :
    get "c" (reconcile resolve updated sessions).0.running
    ≡ some (definition_of (edited faster car) 3)
update_connector-restarts_example =
    update_connector-restarts all_profiles cadence resolve 3 car faster tables sessions updates refl
      refl ((refl, (refl, tt)), (refl, (refl, tt))) (refl, (refl, tt)) versions
