-- ===== src/Sources/Tests.antt =====
-- Runs of the enrollment of a source and of its settings.
use carhibou.Prelude.{◌≡◌, ◌≢◌, refl, Bool, true, false, none, some, String, [], ◌∷◌, arith}
use carhibou.Prelude.Equality.{get, string_eq}
use carhibou.Sources.{
  Source, AgentEnrollmentToken, EnrollmentCreate, AgentSettings, EnrollRequest, EnrollResponse,
  Fleet, EnrollmentError, failed, done, update_agent, configure,
}
use carhibou.Sources.Admission.{new_token, new_source, create_enrollment, enroll, admit, response}
use carhibou.Sources.Enrollment.{enroll_once, enroll-create_enrollment, here}
use carhibou.Sources.Settings.{directions, update_agent-version}

abbrev all_profiles : String → Bool
all_profiles name = true

abbrev hashed : String → String
hashed s = s

abbrev form : EnrollmentCreate
form = record {
  implementation_id = "carhibou.go";
  name = "Car";
  vehicle_profile = none;
  ttl_minutes = 30;
  sampling_seconds = 10;
  upload_seconds = 20;
  parked_sampling_seconds = 300;
  parked_upload_seconds = 600;
}

abbrev request : EnrollRequest
request = record {
  token = "t";
  implementation_id = "carhibou.go";
  protocol_version = 2;
  agent_version = "1";
  hostname = "pi";
}

abbrev empty_fleet : Fleet
empty_fleet = record { vehicles = "v" ∷ []; tokens = []; agents = [] }

abbrev token : AgentEnrollmentToken
token = new_token "t" 1000 "v" form

abbrev fleet : Fleet
fleet = record { vehicles = "v" ∷ []; tokens = ("t", token) ∷ []; agents = [] }

abbrev source : Source
source = new_source "a" "c" request token

abbrev joined : EnrollResponse × Fleet
joined = (response "c" source, admit 2000 "t" source token fleet)

created : create_enrollment all_profiles hashed 1000 "t" "v" form empty_fleet ≡ done (token, fleet)
unfolding create_enrollment
created = refl

redeemed : enroll hashed 2000 "a" "c" request fleet ≡ done joined
unfolding enroll
redeemed = refl

-- A connector does not enroll.
reserved :
    enroll hashed 2000 "a" "c" (record request { implementation_id = "connector.x" }) fleet
    ≡ failed EnrollmentError.connector_implementation
unfolding enroll
reserved = refl

enroll_once_example :
    (reason : EnrollmentError) × (enroll hashed 3000 "b" "d" request joined.1 ≡ failed reason)
enroll_once_example =
    enroll_once all_profiles hashed 2000 3000 "a" "b" "c" "d" request request fleet joined.1
      redeemed here refl

enroll-create_enrollment_example :
    (s : EnrollResponse × Fleet) × (enroll hashed 2000 "a" "c" request fleet ≡ done s)
    × ((agent : Source) × (get "a" s.1.agents ≡ some agent)
        × (agent.vehicle_id ≡ "v")
        × (agent.name ≡ "Car")
        × (agent.vehicle_profile ≡ none)
        × (agent.sampling_seconds ≡ 10)
        × (agent.upload_seconds ≡ 20)
        × (agent.parked_sampling_seconds ≡ 300)
        × (agent.parked_upload_seconds ≡ 600)
        × (agent.credential_hash ≡ "c")
        × (s.0.config ≡ record {
          version = 1;
          default_sampling = 10;
          parked_sampling = 300;
          default_upload = 20;
          parked_upload = 600;
          vehicle_profile = none;
        }))
enroll-create_enrollment_example =
    enroll-create_enrollment all_profiles hashed 1000 2000 "t" "v" "a" "c" form request empty_fleet
      created (omega arith) refl refl refl refl

abbrev faster : AgentSettings
faster = record {
  name = "Car";
  vehicle_profile = some "ev";
  sampling_seconds = 5;
  upload_seconds = 20;
  parked_sampling_seconds = 300;
  parked_upload_seconds = 600;
}

update_agent-version_example :
    (told : Bool) × ((after : Source) × (update_agent all_profiles faster source
        ≡ done (told, after))
      × (directions after ≡ directions (configure faster source))
      × (told ≡ true → (after.config_version ≡ 2) × (directions after ≢ directions source))
      × (told ≡ false → after ≡ record source { name = "Car" })
      × (update_agent all_profiles faster after ≡ done (false, after)))
update_agent-version_example = update_agent-version all_profiles faster source refl
