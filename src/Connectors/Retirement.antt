-- ===== src/Connectors/Retirement.antt =====
-- backend/app/connectors/services.py and runtime.py: what becomes of the session of a connector that
-- is retired or updated.
use carhibou.Prelude.{
  ℕ, ◌+◌, ◌≤◌, ◌≡◌, refl, ◌∙◌, subst, Bool, true, false, Option, none, some, is_some, String, [],
  ◌∷◌, if◌then◌else◌, arith, All,
}
use carhibou.Prelude.Equality.{Dict, get, string_eq, get-insert_self}
use carhibou.Prelude.Keys.{IsDict}
use carhibou.Prelude.Time.{Instant}
use carhibou.Connectors.{
  Connector, Tables, ConnectorUpdate, value_error, changed, is_retired_source, connector_is_retired,
  edited, paced, update_connector, retire_connector,
}
use carhibou.Connectors.Supervisor.{
  ConnectorDefinition, Resolved, valid, is_running, definition_of, reconcile,
}
use carhibou.Connectors.Supervisor.Reconciled.{due}
use carhibou.Connectors.Supervisor.Rows.{wanted, Keyed, reconcile-due}
use carhibou.Connectors.Lifecycle.{
  Reach, update_connector-changed, Reach-IsRetired, retire_source-retires,
}

keyed_row :
    {C : Type 0} (j : String) (rows : Dict String (Connector C)) (c : Connector C)
    → All (λ row. row.1.id ≡ row.0) rows
    → get j rows ≡ some c
    → c.id ≡ j
keyed_row j [] c h e = absurd (cc e)
keyed_row j ((id, connector) ∷ rows) c h e =
    ground (arith, h.0, keyed_row j rows c h.1, string_eq.same_iff id j)

-- A session of an older version makes way for a new one.
renewed :
    {D : Type 0} (o : Option (ConnectorDefinition D)) (d : ConnectorDefinition D) (v : ℕ)
    → ((s : ConnectorDefinition D) → o ≡ some s → s.config_version ≤ v)
    → d.config_version ≡ v + 1
    → due o (some d) ≡ some d
renewed none d v old new = refl
renewed (some s) d v old new = ground (arith, old s refl)

module _ {C : Type 0} (available : String → Bool) (sample_seconds : C → ℕ) where
  wanted-retired :
      {D : Type 0} (resolve : Connector C → Resolved D) (db : Tables C) (j : String)
      (o : Option (Connector C))
      → connector_is_retired db j ≡ true
      → ((c : Connector C) → o ≡ some c → c.id ≡ j)
      → wanted resolve db o ≡ none
  wanted-retired resolve db j none h same = refl
  wanted-retired resolve db j (some c) h same =
      let retired : connector_is_retired db c.id ≡ true = rw (same c refl) h in
      let off : is_running db c ≡ false = ground (arith, retired) in rw (off, if◌then◌else◌)

  due-none : {D : Type 0} (s : Option (ConnectorDefinition D)) → due s none ≡ none
  due-none none = refl
  due-none (some s) = refl

  -- A connector with a source that is retired stays retired, whatever follows of these: the creation,
  -- update and retirement of connectors, the settings, retirement, revocation, enrollment and new
  -- credentials of sources, the update and deletion of profiles, the stamps of the last contact, and
  -- any writes to the rows of connectors. Every later update of it is refused, and the next `reconcile` leaves
  -- no session for it, where the rows are kept by their ids and the sessions have one entry for a
  -- connector.
  pub retire_connector-stays :
      {D : Type 0} (resolve : Connector C → Resolved D) (now : Instant) (connector : Connector C)
      (db after : Tables C) (sessions : Dict String (ConnectorDefinition D))
      → is_some (get connector.id db.agents) ≡ true
      → Reach available sample_seconds (retire_connector now connector db) after
      → Keyed after.connectors
      → IsDict sessions
      → ((row : Connector C) (form : ConnectorUpdate C)
          → row.id ≡ connector.id
          → update_connector available sample_seconds row form after
            ≡ value_error "retired connector cannot be changed")
        × (get connector.id (reconcile resolve after sessions).0.running ≡ none)
  unfolding update_connector retire_connector
  retire_connector-stays resolve now connector db after sessions there steps keyed single =
      let retired : connector_is_retired after connector.id ≡ true =
        Reach-IsRetired available sample_seconds connector.id steps (
          retire_source-retires available sample_seconds now connector.id
            (get connector.id db.agents) db.agents there) in
      let stopped =
        wanted-retired resolve after connector.id (get connector.id after.connectors) retired
          (λ c. keyed_row connector.id after.connectors c keyed.1) in
      (
        λ row form same.
            let refused : connector_is_retired after row.id ≡ true = rw same retired in
            rw (refused, if◌then◌else◌),
        reconcile-due resolve after sessions connector.id keyed single
            ∙ rw stopped (due-none (get connector.id sessions)),
      )

  -- An update of an enabled connector restarts its session: after the next `reconcile`, where its
  -- stored configuration is valid, it has a session with the new version of the configuration,
  -- whatever session it had, as long as that has no version above the one before the update. The rows
  -- are kept by their ids, and the sessions have one entry for a connector.
  pub update_connector-restarts :
      {D : Type 0} (resolve : Connector C → Resolved D) (detail : D) (connector : Connector C)
      (form : ConnectorUpdate C) (db : Tables C) {after : Tables C}
      (sessions : Dict String (ConnectorDefinition D))
      → update_connector available sample_seconds connector form db ≡ changed after
      → form.enabled ≡ true
      → resolve (edited form connector) ≡ valid detail
      → Keyed after.connectors
      → IsDict sessions
      → ((s : ConnectorDefinition D)
          → get connector.id sessions ≡ some s
          → s.config_version ≤ connector.config_version)
      → get connector.id (reconcile resolve after sessions).0.running
        ≡ some (definition_of (edited form connector) detail)
  update_connector-restarts resolve detail connector form db {after} sessions e on good keyed single
        old =
      let (live, (agent, found, result)) =
        update_connector-changed available sample_seconds connector form db e in
      let row : get connector.id after.connectors ≡ some (edited form connector) =
        rw result (get-insert_self connector.id (edited form connector) db.connectors) in
      let unretired : connector_is_retired after connector.id ≡ false = rw result (
        rw
          (get-insert_self connector.id (paced form.name (sample_seconds form.config) agent)
            db.agents)
          (subst (λ o. is_retired_source o ≡ false) found live)) in
      let running : is_running after (edited form connector) ≡ true =
        ground (arith, on, unretired) in
      reconcile-due resolve after sessions connector.id keyed single
      ∙ rw row (
          rw (running, if◌then◌else◌)
            (rw good (renewed (get connector.id sessions) _ connector.config_version old refl)))
