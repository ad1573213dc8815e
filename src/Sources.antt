-- ===== src/Sources.antt =====
-- backend/app/agents/services.py and backend/app/agents/models.py: the sources of telemetry, with the
-- change of their settings and their retirement. The tables are dictionaries by the
-- unique columns `id` and `token_hash`; `db.get` is `get`, and a changed row is inserted again.
-- `hardware` and `last_config_sync_at`, which nothing here reads, are left out.
pub mod Admission
pub mod Enrollment
pub mod Settings
mod Tests
use carhibou.Prelude.{
  ℕ, ◌+◌, Bool, true, false, ◌&&◌, ◌||◌, not, Option, none, some, is_some, String, List, [], ◌∷◌,
  ltb, eqb, if◌then◌else◌,
}
use carhibou.Prelude.Equality.{◌==◌, Dict, get, insert, contains, string_eq}
use carhibou.Prelude.Text.{after_prefix}
use carhibou.Prelude.Time.{Instant, minutes}

-- `Agent`
pub record Source : Type 0 where
  pub id : String
  pub vehicle_id : String
  pub name : String
  pub credential_hash : String
  pub credential_version : ℕ
  pub implementation_id : String
  pub protocol_version : ℕ
  pub agent_version : String
  pub hostname : Option String
  pub vehicle_profile : Option String
  pub last_seen_at : Option Instant
  pub config_version : ℕ
  pub sampling_seconds : ℕ
  pub upload_seconds : ℕ
  pub parked_sampling_seconds : ℕ
  pub parked_upload_seconds : ℕ
  pub revoked_at : Option Instant
  pub retired_at : Option Instant

-- `AgentEnrollmentToken`
pub record AgentEnrollmentToken : Type 0 where
  pub token_hash : String
  pub vehicle_id : String
  pub intended_name : String
  pub implementation_id : String
  pub vehicle_profile : Option String
  pub created_at : Instant
  pub expires_at : Instant
  pub used_at : Option Instant
  pub sampling_seconds : ℕ
  pub upload_seconds : ℕ
  pub parked_sampling_seconds : ℕ
  pub parked_upload_seconds : ℕ

pub record EnrollmentCreate : Type 0 where
  pub implementation_id : String
  pub name : String
  pub vehicle_profile : Option String
  pub ttl_minutes : ℕ
  pub sampling_seconds : ℕ
  pub upload_seconds : ℕ
  pub parked_sampling_seconds : ℕ
  pub parked_upload_seconds : ℕ

pub record AgentSettings : Type 0 where
  pub name : String
  pub vehicle_profile : Option String
  pub sampling_seconds : ℕ
  pub upload_seconds : ℕ
  pub parked_sampling_seconds : ℕ
  pub parked_upload_seconds : ℕ

pub record EnrollRequest : Type 0 where
  pub token : String
  pub implementation_id : String
  pub protocol_version : ℕ
  pub agent_version : String
  pub hostname : String

-- `AgentConfig`, without the definition of the profile.
pub record AgentConfig : Type 0 where
  pub version : ℕ
  pub default_sampling : ℕ
  pub parked_sampling : ℕ
  pub default_upload : ℕ
  pub parked_upload : ℕ
  pub vehicle_profile : Option String

pub record EnrollResponse : Type 0 where
  pub agent_id : String
  pub vehicle_id : String
  pub credential : String
  pub config : AgentConfig

-- The tables, where a vehicle is its id.
pub record Fleet : Type 0 where
  pub vehicles : List String
  pub tokens : Dict String AgentEnrollmentToken
  pub agents : Dict String Source

-- `EnrollmentError`, by its message.
pub data EnrollmentError : Type 0 where
  connector_implementation : EnrollmentError
  profile_unavailable : EnrollmentError
  unsupported_protocol : EnrollmentError
  invalid_token : EnrollmentError
  other_implementation : EnrollmentError
  vehicle_gone : EnrollmentError

pub data Enrolling (A : Type 0) : Type 0 where
  failed : EnrollmentError → Enrolling A
  done : A → Enrolling A

abbrev pub supported_protocol_version : ℕ
supported_protocol_version = 2

-- `implementation_id.startswith(CONNECTOR_IMPLEMENTATION_PREFIX)`
abbrev pub is_connector : String → Bool
is_connector id = is_some (after_prefix "connector." id)

-- `agent_config`
abbrev pub agent_config : Source → AgentConfig
agent_config agent = record {
  version = agent.config_version;
  default_sampling = agent.sampling_seconds;
  parked_sampling = agent.parked_sampling_seconds;
  default_upload = agent.upload_seconds;
  parked_upload = agent.parked_upload_seconds;
  vehicle_profile = agent.vehicle_profile;
}

-- `profile and not can_profile_definition(db, profile)`
abbrev pub lacks_profile : (String → Bool) → Option String → Bool
lacks_profile available none = false
lacks_profile available (some profile) = not (profile == "") && not (available profile)

-- `!=` on columns that may be None.
abbrev pub same_text : Option String → Option String → Bool
same_text none none = true
same_text none (some b) = false
same_text (some a) none = false
same_text (some a) (some b) = a == b

abbrev changes_configuration : AgentSettings → Source → Bool
changes_configuration form agent =
    not (same_text agent.vehicle_profile form.vehicle_profile)
    || (not (eqb agent.sampling_seconds form.sampling_seconds)
        || (not (eqb agent.upload_seconds form.upload_seconds)
            || (not (eqb agent.parked_sampling_seconds form.parked_sampling_seconds)
                || not (eqb agent.parked_upload_seconds form.parked_upload_seconds))))

abbrev configure : AgentSettings → Source → Source
configure form agent = record agent {
  name = form.name;
  vehicle_profile = form.vehicle_profile;
  sampling_seconds = form.sampling_seconds;
  upload_seconds = form.upload_seconds;
  parked_sampling_seconds = form.parked_sampling_seconds;
  parked_upload_seconds = form.parked_upload_seconds;
}

abbrev bump : Bool → Source → Source
bump false agent = agent
bump true agent = record agent { config_version = agent.config_version + 1 }

-- `update_agent`
unfoldable pub update_agent : (String → Bool) → AgentSettings → Source → Enrolling (Bool × Source)
update_agent available form agent =
    if lacks_profile available form.vehicle_profile
    then failed profile_unavailable
    else done (
      changes_configuration form agent,
      bump (changes_configuration form agent) (configure form agent),
    )

-- `retire_agent`
abbrev pub or_now : Option Instant → Instant → Option Instant
or_now none now = some now
or_now (some t) now = some t

unfoldable pub retire_agent : Instant → Source → Source
retire_agent now agent = record agent {
  retired_at = some now;
  revoked_at = or_now agent.revoked_at now;
}

-- `revoke_agent`
unfoldable pub revoke_agent : Instant → Source → Source
revoke_agent now agent = record agent { revoked_at = some now }

-- `rotate_credential`, of which `credential` is the new one.
unfoldable pub rotate_credential : (String → String) → String → Source → Source
rotate_credential hash_token credential agent = record agent {
  credential_hash = hash_token credential;
  credential_version = agent.credential_version + 1;
}
