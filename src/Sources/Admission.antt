-- ===== src/Sources/Admission.antt =====
-- backend/app/agents/services.py: `create_enrollment` and `enroll`.
use carhibou.Prelude.{
  ◌+◌, Bool, ◌||◌, not, Option, none, some, is_some, String, ltb, eqb, if◌then◌else◌,
}
use carhibou.Prelude.Equality.{◌==◌, get, insert, contains, string_eq}
use carhibou.Prelude.Time.{Instant, minutes}
use carhibou.Sources.{
  Source, AgentEnrollmentToken, EnrollmentCreate, EnrollRequest, EnrollResponse, Fleet,
  connector_implementation, profile_unavailable, unsupported_protocol, invalid_token,
  other_implementation, vehicle_gone, Enrolling, failed, done, supported_protocol_version,
  is_connector, agent_config, lacks_profile,
}

-- A row of a new source, whose other columns have their defaults.
abbrev pub new_source : String → String → EnrollRequest → AgentEnrollmentToken → Source
new_source id credential_hash request token = record {
  id = id;
  vehicle_id = token.vehicle_id;
  name = token.intended_name;
  credential_hash = credential_hash;
  credential_version = 1;
  implementation_id = request.implementation_id;
  protocol_version = request.protocol_version;
  agent_version = request.agent_version;
  hostname = some request.hostname;
  vehicle_profile = token.vehicle_profile;
  last_seen_at = none;
  config_version = 1;
  sampling_seconds = token.sampling_seconds;
  upload_seconds = token.upload_seconds;
  parked_sampling_seconds = token.parked_sampling_seconds;
  parked_upload_seconds = token.parked_upload_seconds;
  revoked_at = none;
  retired_at = none;
}

-- `not token or token.used_at is not None or token.expires_at < now`, where there is a token.
abbrev pub is_spent : Instant → AgentEnrollmentToken → Bool
is_spent now token = is_some token.used_at || ltb token.expires_at now

abbrev pub new_token : String → Instant → String → EnrollmentCreate → AgentEnrollmentToken
new_token token_hash now vehicle_id form = record {
  token_hash = token_hash;
  vehicle_id = vehicle_id;
  intended_name = form.name;
  implementation_id = form.implementation_id;
  vehicle_profile = form.vehicle_profile;
  created_at = now;
  expires_at = now + minutes form.ttl_minutes;
  used_at = none;
  sampling_seconds = form.sampling_seconds;
  upload_seconds = form.upload_seconds;
  parked_sampling_seconds = form.parked_sampling_seconds;
  parked_upload_seconds = form.parked_upload_seconds;
}

-- `create_enrollment`, whose new token is `raw`.
unfoldable pub create_enrollment :
    (String → Bool)
    → (String → String)
    → Instant
    → String
    → String
    → EnrollmentCreate
    → Fleet
    → Enrolling (AgentEnrollmentToken × Fleet)
create_enrollment available hash_token now raw vehicle_id form db =
    let token = new_token (hash_token raw) now vehicle_id form in
    if is_connector form.implementation_id
    then failed connector_implementation
    else if lacks_profile available form.vehicle_profile
    then failed profile_unavailable
    else done (token, record db { tokens = insert (hash_token raw) token db.tokens })

abbrev pub response : String → Source → EnrollResponse
response credential agent = record {
  agent_id = agent.id;
  vehicle_id = agent.vehicle_id;
  credential = credential;
  config = agent_config agent;
}

-- The rows that `enroll` writes.
abbrev pub admit : Instant → String → Source → AgentEnrollmentToken → Fleet → Fleet
admit now key agent token db = record db {
  tokens = insert key (record token { used_at = some now }) db.tokens;
  agents = insert agent.id agent db.agents;
}

abbrev pub enroll_with :
    (String → String)
    → Instant
    → String
    → String
    → EnrollRequest
    → Fleet
    → String
    → Option AgentEnrollmentToken
    → Enrolling (EnrollResponse × Fleet)
enroll_with hash_token now id credential request db key none = failed invalid_token
enroll_with hash_token now id credential request db key (some token) =
    let agent = new_source id (hash_token credential) request token in
    if is_spent now token
    then failed invalid_token
    else if not (request.implementation_id == token.implementation_id)
    then failed other_implementation
    else if not (contains token.vehicle_id db.vehicles)
    then failed vehicle_gone
    else done (response credential agent, admit now key agent token db)

-- `enroll`, whose new row has the key `id` and whose new credential is `credential`.
unfoldable pub enroll :
    (String → String)
    → Instant
    → String
    → String
    → EnrollRequest
    → Fleet
    → Enrolling (EnrollResponse × Fleet)
enroll hash_token now id credential request db =
    if is_connector request.implementation_id
    then failed connector_implementation
    else if not (eqb request.protocol_version supported_protocol_version)
    then failed unsupported_protocol
    else enroll_with hash_token now id credential request db (hash_token request.token)
        (get (hash_token request.token) db.tokens)
