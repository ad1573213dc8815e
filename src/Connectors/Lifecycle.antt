-- ===== src/Connectors/Lifecycle.antt =====
-- backend/app/connectors/services.py and backend/app/agents/services.py: the operations on connectors
-- and their sources in any order, and the sources that they leave retired.
use carhibou.Prelude.{
  ℕ, ◌≡◌, refl, sym, ◌∙◌, ap, subst, Bool, true, false, Option, none, some, is_some, String, List,
  Bool-cases, inl, inr, if◌then◌else◌, arith,
}
use carhibou.Prelude.Equality.{◌==◌, Dict, get, insert, string_eq, get-insert, get-insert_self}
use carhibou.Prelude.Time.{Instant}
use carhibou.Sources.{
  Source, AgentEnrollmentToken, AgentSettings, EnrollRequest, EnrollResponse, Fleet, done,
  update_agent, retire_agent, revoke_agent, rotate_credential,
}
use carhibou.Sources.Admission.{enroll}
use carhibou.Sources.Enrollment.{enroll-Enrolled}
use carhibou.Connectors.Assigned.{
  update_profile, delete_profile, update_profile-retired, delete_profile-retired,
}
use carhibou.Connectors.{
  Connector, Tables, ConnectorUpdate, ConnectorCreate, changed, is_retired_source,
  connector_is_retired, edited, paced, update_source, update_connector, retire_source,
  retire_connector, shadow_source, create_connector,
}

abbrev pub IsRetired : Dict String Source → String → Type 0
IsRetired agents id = is_retired_source (get id agents) ≡ true

insert-IsRetired :
    (agents : Dict String Source) (id j : String) (agent : Source)
    → (id ≡ j → is_some agent.retired_at ≡ true)
    → IsRetired agents j
    → IsRetired (insert id agent agents) j
insert-IsRetired agents id j agent kept h =
    rw (get-insert id j agent agents) (elim (Bool-cases (id == j)) [
      | inl same ↦ rw (same, if◌then◌else◌) (kept ((string_eq.same_iff id j).0 same))
      | inr different ↦ rw (different, if◌then◌else◌) h
    ])

-- A changed row, of which the change keeps the retirement.
rewrite-IsRetired :
    (agents : Dict String Source) (id j : String) (old new : Source)
    → get id agents ≡ some old
    → (is_some old.retired_at ≡ true → is_some new.retired_at ≡ true)
    → IsRetired agents j
    → IsRetired (insert id new agents) j
rewrite-IsRetired agents id j old new found kept h =
    insert-IsRetired agents id j new
      (λ same.
        kept
          (subst (λ o. is_retired_source o ≡ true) (ap (λ k. get k agents) (sym same) ∙ found) h))
      h

update_agent-retired_at :
    (available : String → Bool) (form : AgentSettings) (agent : Source) {told : Bool} {new : Source}
    → update_agent available form agent ≡ done (told, new)
    → new.retired_at ≡ agent.retired_at
unfolding update_agent
update_agent-retired_at available form agent e = ground arith

module _ {C : Type 0} (available : String → Bool) (sample_seconds : C → ℕ) where
  -- The operations that write to sources, in any order, without the removals: those on connectors, on
  -- sources, on their credentials and on the profiles that they are assigned, enrollment, and the
  -- stamps of ingestion and of sessions. A new row has a key that no row has. What sessions and the
  -- supervisor write to the rows of connectors is any change of these.
  pub data Step (db : Tables C) : Tables C → Type 0 where
    creates :
        (version id credential_hash vehicle_id : String) (form : ConnectorCreate C)
        {after : Tables C}
        → get id db.agents ≡ none
        → create_connector available sample_seconds version id credential_hash vehicle_id form db
          ≡ changed after
        → Step db after
    updates :
        (connector : Connector C) (form : ConnectorUpdate C) {after : Tables C}
        → update_connector available sample_seconds connector form db ≡ changed after
        → Step db after
    retires :
        (now : Instant) (connector : Connector C) → Step db (retire_connector now connector db)
    retires_agent :
        (now : Instant) (id : String) (agent : Source)
        → get id db.agents ≡ some agent
        → Step db (record db { agents = insert id (retire_agent now agent) db.agents })
    configures :
        (id : String) (agent new : Source) (form : AgentSettings) (told : Bool)
        → get id db.agents ≡ some agent
        → update_agent available form agent ≡ done (told, new)
        → Step db (record db { agents = insert id new db.agents })
    rotates :
        (hash_token : String → String) (credential id : String) (agent : Source)
        → get id db.agents ≡ some agent
        → Step db (record db {
          agents = insert id (rotate_credential hash_token credential agent) db.agents;
        })
    revokes :
        (now : Instant) (id : String) (agent : Source)
        → get id db.agents ≡ some agent
        → Step db (record db { agents = insert id (revoke_agent now agent) db.agents })
    enrolls :
        (hash_token : String → String) (now : Instant) (id credential : String)
        (request : EnrollRequest) (vehicles : List String)
        (tokens : Dict String AgentEnrollmentToken) {r : EnrollResponse × Fleet}
        → get id db.agents ≡ none
        → enroll hash_token now id credential request
            (record { vehicles = vehicles; tokens = tokens; agents = db.agents })
          ≡ done r
        → Step db (record db { agents = r.1.agents })
    updates_profile :
        (is_can : Bool) (profile_id : String) → Step db (update_profile is_can profile_id db)
    deletes_profile :
        (default_profiles : String → String) (is_can : Bool) (profile_id : String)
        → Step db (delete_profile default_profiles is_can profile_id db)
    sees :
        (now : Instant) (id : String) (agent : Source)
        → get id db.agents ≡ some agent
        → Step db
            (record db { agents = insert id (record agent { last_seen_at = some now }) db.agents })
    reports :
        (connectors : Dict String (Connector C)) → Step db (record db { connectors = connectors })

  pub data Reach (db : Tables C) : Tables C → Type 0 where
    here : Reach db db
    next : {d e : Tables C} → Reach db d → Step d e → Reach db e

  update_source-agents :
      (id name : String) (cadence : ℕ) (o : Option Source) (db : Tables C) {after : Tables C}
      → update_source id name cadence o db ≡ changed after
      → (agent : Source) × (o ≡ some agent)
        × (after ≡ record db { agents = insert id (paced name cadence agent) db.agents })
  update_source-agents id name cadence none db e = absurd (cc e)
  update_source-agents id name cadence (some agent) db e = (agent, refl, ground arith)

  -- What an update that succeeds has found, and what it writes.
  pub update_connector-changed :
      (connector : Connector C) (form : ConnectorUpdate C) (db : Tables C) {after : Tables C}
      → update_connector available sample_seconds connector form db ≡ changed after
      → (connector_is_retired db connector.id ≡ false)
        × ((agent : Source) × (get connector.id db.agents ≡ some agent)
            × (after ≡ record {
              connectors = insert connector.id (edited form connector) db.connectors;
              agents =
                  insert connector.id
                    (paced form.name (sample_seconds form.config) agent)
                    db.agents;
            }))
  unfolding update_connector
  update_connector-changed connector form db e = (
    ground arith,
    update_source-agents connector.id form.name (sample_seconds form.config)
        (get connector.id db.agents)
        (record db { connectors = insert connector.id (edited form connector) db.connectors })
        (ground arith),
  )

  retire_source-IsRetired :
      (now : Instant) (id j : String) (o : Option Source) (agents : Dict String Source)
      → get id agents ≡ o
      → IsRetired agents j
      → IsRetired (retire_source now id o agents) j
  unfolding retire_agent
  retire_source-IsRetired now id j none agents e h = h
  retire_source-IsRetired now id j (some agent) agents e h =
      insert-IsRetired agents id j _ (λ same. refl) h

  create_connector-agents :
      (version id credential_hash vehicle_id : String) (form : ConnectorCreate C) (db : Tables C)
      {after : Tables C}
      → create_connector available sample_seconds version id credential_hash vehicle_id form db
        ≡ changed after
      → after.agents
        ≡ insert id
            (shadow_source id vehicle_id form.name credential_hash version
              (sample_seconds form.config))
            db.agents
  unfolding create_connector
  create_connector-agents version id credential_hash vehicle_id form db e = ground arith

  Step-IsRetired :
      (j : String) {db after : Tables C}
      → Step db after
      → IsRetired db.agents j
      → IsRetired after.agents j
  unfolding retire_connector retire_agent rotate_credential revoke_agent
  Step-IsRetired j {db} (creates version id credential_hash vehicle_id form free e) h =
      subst (λ a. IsRetired a j)
        (sym (create_connector-agents version id credential_hash vehicle_id form db e))
        (insert-IsRetired db.agents id j _ (λ same. absurd (cc (free, same, h))) h)
  Step-IsRetired j {db} (updates connector form e) h =
      let (live, (agent, found, result)) = update_connector-changed connector form db e in
      subst (λ t. IsRetired t.agents j) (sym result)
        (rewrite-IsRetired db.agents connector.id j agent _ found (λ r. r) h)
  Step-IsRetired j {db} (retires now connector) h =
      retire_source-IsRetired now connector.id j (get connector.id db.agents) db.agents refl h
  Step-IsRetired j {db} (retires_agent now id agent found) h =
      rewrite-IsRetired db.agents id j agent _ found (λ r. refl) h
  Step-IsRetired j {db} (configures id agent new form told found e) h =
      rewrite-IsRetired db.agents id j agent new found
        (λ r.
          subst (λ o. is_some o ≡ true) (sym (update_agent-retired_at available form agent e)) r)
        h
  Step-IsRetired j {db} (rotates hash_token credential id agent found) h =
      rewrite-IsRetired db.agents id j agent _ found (λ r. r) h
  Step-IsRetired j {db} (revokes now id agent found) h =
      rewrite-IsRetired db.agents id j agent _ found (λ r. r) h
  Step-IsRetired j {db} (enrolls hash_token now id credential request vehicles tokens free e) h =
      let fleet : Fleet = record { vehicles = vehicles; tokens = tokens; agents = db.agents } in
      let enrolled = enroll-Enrolled hash_token now id credential request fleet e in
      subst (λ (r : EnrollResponse × Fleet). IsRetired r.1.agents j) (sym enrolled.result)
        (insert-IsRetired db.agents id j _ (λ same. absurd (cc (free, same, h))) h)
  Step-IsRetired j {db} (updates_profile is_can profile_id) h =
      update_profile-retired is_can profile_id j db h
  Step-IsRetired j {db} (deletes_profile default_profiles is_can profile_id) h =
      delete_profile-retired default_profiles is_can profile_id j db h
  Step-IsRetired j {db} (sees now id agent found) h =
      rewrite-IsRetired db.agents id j agent _ found (λ r. r) h
  Step-IsRetired j {db} (reports connectors) h = h

  pub Reach-IsRetired :
      (j : String) {db after : Tables C}
      → Reach db after
      → IsRetired db.agents j
      → IsRetired after.agents j
  Reach-IsRetired j here h = h
  Reach-IsRetired j (next steps step) h = Step-IsRetired j step (Reach-IsRetired j steps h)

  pub retire_source-retires :
      (now : Instant) (id : String) (o : Option Source) (agents : Dict String Source)
      → is_some o ≡ true
      → IsRetired (retire_source now id o agents) id
  unfolding retire_agent
  retire_source-retires now id none agents h = absurd (cc h)
  retire_source-retires now id (some agent) agents h =
      rw (get-insert_self id (retire_agent now agent) agents)
