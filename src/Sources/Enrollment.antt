-- ===== src/Sources/Enrollment.antt =====
-- backend/app/agents/services.py: a token of `create_enrollment` and the sources that `enroll` makes
-- from it.
use carhibou.Prelude.{
  ◌+◌, ◌≤◌, ◌≡◌, refl, sym, ap, ◌∙◌, subst, Bool, true, false, not, Option, none, some, is_some,
  String, ◌⊎◌, inl, inr, Bool-cases, eqb, if◌then◌else◌, arith,
}
use carhibou.Prelude.Equality.{
  ◌==◌, Dict, get, insert, contains, string_eq, get-insert, get-insert_self,
}
use carhibou.Prelude.Time.{Instant, minutes}
use carhibou.Sources.{
  Source, AgentEnrollmentToken, EnrollmentCreate, EnrollRequest, EnrollResponse, Fleet,
  EnrollmentError, connector_implementation, unsupported_protocol, invalid_token, failed, done,
  supported_protocol_version, is_connector,
}
use carhibou.Sources.Admission.{
  new_source, new_token, admit, response, enroll_with, enroll, create_enrollment,
}

module _ (hash_token : String → String) (now : Instant) (id credential : String)
    (request : EnrollRequest) (db : Fleet) where
  abbrev pub made : AgentEnrollmentToken → Source
  made token = new_source id (hash_token credential) request token

  -- What an enrollment that succeeds has found, and what it leaves.
  pub record Enrolled (r : EnrollResponse × Fleet) : Type 0 where
    pub token : AgentEnrollmentToken
    pub stored : get (hash_token request.token) db.tokens ≡ some token
    pub unused : token.used_at ≡ none
    pub in_time : now ≤ token.expires_at
    pub same_implementation : request.implementation_id ≡ token.implementation_id
    pub existing_vehicle : contains token.vehicle_id db.vehicles ≡ true
    pub result : r ≡ (
      response credential (made token),
      admit now (hash_token request.token) (made token) token db,
    )

  enroll_with-Enrolled :
      (o : Option AgentEnrollmentToken) {r : EnrollResponse × Fleet}
      → get (hash_token request.token) db.tokens ≡ o
      → enroll_with hash_token now id credential request db (hash_token request.token) o ≡ done r
      → Enrolled r
  enroll_with-Enrolled none found e = ground arith
  enroll_with-Enrolled (some token) found e = record {
    token = token;
    stored = found;
    unused = ground arith;
    in_time = ground arith;
    same_implementation =
        ground (arith, string_eq.same_iff request.implementation_id token.implementation_id);
    existing_vehicle = ground arith;
    result = ground arith;
  }

  -- An enrollment succeeds only with a stored token that is unused and not past its time, that is of
  -- the implementation that asks, and whose vehicle still exists. It adds one source, with the
  -- vehicle, the name, the profile and the cadences of the token, answers with the configuration of
  -- that source, marks the token as used now, and changes no other row.
  pub enroll-Enrolled :
      {r : EnrollResponse × Fleet}
      → enroll hash_token now id credential request db ≡ done r
      → Enrolled r
  unfolding enroll
  enroll-Enrolled e =
      enroll_with-Enrolled (get (hash_token request.token) db.tokens) refl (ground arith)

-- A token that has been redeemed.
pub record Used (db : Fleet) (key : String) : Type 0 where
  pub row : AgentEnrollmentToken
  pub stored : get key db.tokens ≡ some row
  pub used : is_some row.used_at ≡ true

module _ (available : String → Bool) (hash_token : String → String) where
  -- The operations on the tables, in any order: `token_hash` is unique, and the other operations
  -- change sources only.
  pub data Step (db : Fleet) : Fleet → Type 0 where
    creates :
        (now : Instant) (raw vehicle_id : String) (form : EnrollmentCreate)
        {r : AgentEnrollmentToken × Fleet}
        → get (hash_token raw) db.tokens ≡ none
        → create_enrollment available hash_token now raw vehicle_id form db ≡ done r
        → Step db r.1
    enrolls :
        (now : Instant) (id credential : String) (request : EnrollRequest)
        {r : EnrollResponse × Fleet}
        → enroll hash_token now id credential request db ≡ done r
        → Step db r.1
    manages : (agents : Dict String Source) → Step db (record db { agents = agents })

  pub data Reach (db : Fleet) : Fleet → Type 0 where
    here : Reach db db
    next : {d e : Fleet} → Reach db d → Step d e → Reach db e

  marked_still :
      (db : Fleet) (key other : String) (t : AgentEnrollmentToken)
      → other ≡ key
      → (get other db.tokens ≡ none) ⊎ (is_some t.used_at ≡ true)
      → Used db key
      → is_some t.used_at ≡ true
  marked_still db key other t same (inl free) u = absurd (cc (same, free, u.stored))
  marked_still db key other t same (inr used) u = used

  insert-Used :
      (db : Fleet) (agents : Dict String Source) (key other : String) (t : AgentEnrollmentToken)
      → (get other db.tokens ≡ none) ⊎ (is_some t.used_at ≡ true)
      → Used db key
      → Used (record db { tokens = insert other t db.tokens; agents = agents }) key
  insert-Used db agents key other t h u = elim (Bool-cases (other == key)) [
    | inl same ↦ record {
      row = t;
      stored = rw (get-insert other key t db.tokens) (rw (same, if◌then◌else◌));
      used = marked_still db key other t ((string_eq.same_iff other key).0 same) h u;
    }
    | inr different ↦ record {
      row = u.row;
      stored = rw (get-insert other key t db.tokens) (rw (different, if◌then◌else◌) u.stored);
      used = u.used;
    }
  ]

  pub Step-Used : {db after : Fleet} (key : String) → Step db after → Used db key → Used after key
  unfolding create_enrollment
  Step-Used {db} {after} key (creates now raw vehicle_id form free e) u =
      subst (λ c. Used c key) (ground arith)
        (insert-Used db db.agents key (hash_token raw)
          (new_token (hash_token raw) now vehicle_id form) (inl free) u)
  Step-Used {db} {after} key (enrolls now id credential request e) u =
      let h = enroll-Enrolled hash_token now id credential request db e in
      subst (λ x. Used x.1 key) (sym h.result)
        (insert-Used db (insert id (made hash_token now id credential request db h.token) db.agents)
          key (hash_token request.token) (record h.token { used_at = some now }) (inr refl) u)
  Step-Used key (manages agents) u = record { row = u.row; stored = u.stored; used = u.used }

  Reach-Used : {db after : Fleet} (key : String) → Reach db after → Used db key → Used after key
  Reach-Used key here u = u
  Reach-Used key (next steps step) u = Step-Used key step (Reach-Used key steps u)

  refused_with :
      (now : Instant) (id credential : String) (request : EnrollRequest) (db : Fleet) (key : String)
      (o : Option AgentEnrollmentToken) (t : AgentEnrollmentToken)
      → o ≡ some t
      → is_some t.used_at ≡ true
      → enroll_with hash_token now id credential request db key o ≡ failed invalid_token
  refused_with now id credential request db key o t found used = rw found (ground arith)

  enroll-Used :
      (now : Instant) (id credential : String) (request : EnrollRequest) (db : Fleet)
      {r : EnrollResponse × Fleet}
      → enroll hash_token now id credential request db ≡ done r
      → Used r.1 (hash_token request.token)
  enroll-Used now id credential request db e =
      let h = enroll-Enrolled hash_token now id credential request db e in
      subst (λ x. Used x.1 (hash_token request.token)) (sym h.result)
        (record {
          row = record h.token { used_at = some now };
          stored = get-insert_self (hash_token request.token) _ db.tokens;
          used = refl;
        })

  -- A token is good for one source. After an enrollment with it, and after any later operations on
  -- the tables, every other enrollment with the same token fails, with an error and no change.
  pub enroll_once :
      (now later : Instant) (id other credential secret : String) (request again : EnrollRequest)
      (db after : Fleet) {r : EnrollResponse × Fleet}
      → enroll hash_token now id credential request db ≡ done r
      → Reach r.1 after
      → again.token ≡ request.token
      → (reason : EnrollmentError) × (enroll hash_token later other secret again after
          ≡ failed reason)
  unfolding enroll
  enroll_once now later id other credential secret request again db after {r} e steps same =
      elim (Bool-cases (is_connector again.implementation_id)) [
        | inl reserved ↦ (connector_implementation, rw (reserved, if◌then◌else◌))
        | inr free ↦
            elim (Bool-cases (not (eqb again.protocol_version supported_protocol_version))) [
              | inl wrong ↦ (unsupported_protocol, ground arith)
              | inr right ↦
                  let u =
                    Reach-Used (hash_token request.token) steps
                      (enroll-Used now id credential request db e) in
                  (
                    invalid_token,
                    rw (free, if◌then◌else◌)
                        (rw (right, if◌then◌else◌)
                          (refused_with later other secret again after (hash_token again.token) _
                            u.row (rw same u.stored) u.used)),
                  )
            ]
      ]

  enroll_with-accepts :
      (now : Instant) (id credential : String) (request : EnrollRequest) (db : Fleet) (key : String)
      (o : Option AgentEnrollmentToken) (t : AgentEnrollmentToken)
      → o ≡ some t
      → t.used_at ≡ none
      → now ≤ t.expires_at
      → request.implementation_id ≡ t.implementation_id
      → contains t.vehicle_id db.vehicles ≡ true
      → enroll_with hash_token now id credential request db key o ≡ (
          let agent = new_source id (hash_token credential) request t in
          done (response credential agent, admit now key agent t db))
  enroll_with-accepts now id credential request db key o t found unused early same exists =
      rw found
        (ground (arith, (string_eq.same_iff request.implementation_id t.implementation_id).1 same))

  create_enrollment-done :
      (now : Instant) (raw vehicle_id : String) (form : EnrollmentCreate) (db : Fleet)
      {r : AgentEnrollmentToken × Fleet}
      → create_enrollment available hash_token now raw vehicle_id form db ≡ done r
      → (is_connector form.implementation_id ≡ false)
        × (r.1.vehicles ≡ db.vehicles)
        × (get (hash_token raw) r.1.tokens ≡ some (new_token (hash_token raw) now vehicle_id form))
  unfolding create_enrollment
  create_enrollment-done now raw vehicle_id form db e = (
    ground arith,
    ground arith,
    ground (
      arith,
      get-insert_self (hash_token raw) (new_token (hash_token raw) now vehicle_id form) db.tokens,
    ),
  )

  -- A token that is created for an implementation that is no connector can be redeemed for the whole
  -- of its lifetime: a request with it, from that implementation, of the supported protocol and for a
  -- vehicle that still exists, makes a source whose stored row has the name, the profile and the
  -- four cadences of the form in which it was created and the hash of the new credential, and the
  -- answer has that configuration.
  pub enroll-create_enrollment :
      (now later : Instant) (raw vehicle_id id credential : String) (form : EnrollmentCreate)
      (request : EnrollRequest) (db : Fleet) {r : AgentEnrollmentToken × Fleet}
      → create_enrollment available hash_token now raw vehicle_id form db ≡ done r
      → later ≤ now + minutes form.ttl_minutes
      → request.token ≡ raw
      → request.implementation_id ≡ form.implementation_id
      → request.protocol_version ≡ supported_protocol_version
      → contains vehicle_id db.vehicles ≡ true
      → (s : EnrollResponse × Fleet) × (enroll hash_token later id credential request r.1 ≡ done s)
        × ((agent : Source) × (get id s.1.agents ≡ some agent)
            × (agent.vehicle_id ≡ vehicle_id)
            × (agent.name ≡ form.name)
            × (agent.vehicle_profile ≡ form.vehicle_profile)
            × (agent.sampling_seconds ≡ form.sampling_seconds)
            × (agent.upload_seconds ≡ form.upload_seconds)
            × (agent.parked_sampling_seconds ≡ form.parked_sampling_seconds)
            × (agent.parked_upload_seconds ≡ form.parked_upload_seconds)
            × (agent.credential_hash ≡ hash_token credential)
            × (s.0.config ≡ record {
              version = 1;
              default_sampling = form.sampling_seconds;
              parked_sampling = form.parked_sampling_seconds;
              default_upload = form.upload_seconds;
              parked_upload = form.parked_upload_seconds;
              vehicle_profile = form.vehicle_profile;
            }))
  unfolding enroll
  enroll-create_enrollment now later raw vehicle_id id credential form request db {r} e early t i p
        v =
      let (plain, kept, stored) = create_enrollment-done now raw vehicle_id form db e in
      let token = new_token (hash_token raw) now vehicle_id form in
      let agent = new_source id (hash_token credential) request token in
      let key = hash_token request.token in
      let supported : not (eqb request.protocol_version supported_protocol_version) ≡ false =
        ground arith in
      (
        (response credential agent, admit later key agent token r.1),
        rw (ap is_connector i ∙ plain, if◌then◌else◌)
            (rw (supported, if◌then◌else◌)
              (enroll_with-accepts later id credential request r.1 key (get key r.1.tokens) token
                (rw t stored) refl early i (rw kept v))),
        (
          agent,
          get-insert_self id agent r.1.agents,
          refl,
          refl,
          refl,
          refl,
          refl,
          refl,
          refl,
          refl,
          refl,
        ),
      )
