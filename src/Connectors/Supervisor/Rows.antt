-- ===== src/Connectors/Supervisor/Rows.antt =====
-- backend/app/connectors/runtime.py: the sessions that `reconcile` leaves, from the rows of the table.
use carhibou.Prelude.{
  ◌≡◌, refl, ◌∙◌, ap, subst, Bool, true, false, Option, none, some, String, [], ◌∷◌, inl, inr,
  Bool-cases, if◌then◌else◌, or_else, All, arith,
}
use carhibou.Prelude.Equality.{◌==◌, Dict, get, contains, string_eq, get-insert}
use carhibou.Prelude.Keys.{keys, IsDict, get_absent}
use carhibou.Connectors.{Connector, Tables}
use carhibou.Connectors.Supervisor.{
  ConnectorDefinition, Resolved, invalid, valid, is_running, definition_of, visit, collect,
  reconcile,
}
use carhibou.Connectors.Supervisor.Reconciled.{due, reconcile_with-due}

-- The rows of the table, by their ids.
abbrev pub Keyed : {C : Type 0} → Dict String (Connector C) → Type 0
Keyed rows = IsDict rows × All (λ row. row.1.id ≡ row.0) rows

module _ {C D : Type 0} (resolve : Connector C → Resolved D) (db : Tables C) where
  abbrev resolved : Connector C → Resolved D → Option (ConnectorDefinition D)
  resolved connector (invalid reason) = none
  resolved connector (valid detail) = some (definition_of connector detail)

  -- The definition that a row gives: that of an enabled connector whose source is not retired and
  -- whose stored configuration is valid.
  abbrev pub wanted : Option (Connector C) → Option (ConnectorDefinition D)
  wanted none = none
  wanted (some connector) =
      if is_running db connector then resolved connector (resolve connector) else none

  get-visit :
      (j : String) (b : Bool) (connector : Connector C) (r : Resolved D)
      (definitions : Dict String (ConnectorDefinition D))
      → get j (visit b connector r definitions) ≡ (
          if connector.id == j
          then or_else (if b then resolved connector r else none) (get j definitions)
          else get j definitions)
  get-visit j false connector r definitions = ground arith
  get-visit j true connector (invalid reason) definitions = ground arith
  get-visit j true connector (valid detail) definitions =
      ground (arith, get-insert connector.id j (definition_of connector detail) definitions)

  get-collect :
      (j : String) (rows : Dict String (Connector C))
      (definitions : Dict String (ConnectorDefinition D))
      → Keyed rows
      → get j (collect resolve db rows definitions)
        ≡ or_else (wanted (get j rows)) (get j definitions)
  unfolding collect
  get-collect j [] definitions h = refl
  get-collect j ((id, connector) ∷ rows) definitions h =
      let now = visit (is_running db connector) connector (resolve connector) definitions in
      let rest = get-collect j rows now (h.0.1, h.1.1) in
      let first = get-visit j (is_running db connector) connector (resolve connector) definitions in
      elim (Bool-cases (id == j)) [
        | inl same ↦
            let absent : get j rows ≡ none = get_absent j rows (
              subst (λ k. contains k (keys rows) ≡ false) ((string_eq.same_iff id j).0 same)
                h.0.0) in
            let own : (connector.id == j) ≡ true = rw h.1.0 same in
            rw (same, if◌then◌else◌) (rest ∙ rw absent (first ∙ rw (own, if◌then◌else◌)))
        | inr different ↦
            let other : (connector.id == j) ≡ false = rw h.1.0 different in
            rw (different, if◌then◌else◌)
              (rest ∙ ap (or_else (wanted (get j rows))) (first ∙ rw (other, if◌then◌else◌)))
      ]

  -- After `reconcile`, a connector has the session that it should have: none where it is disabled,
  -- retired, missing or not valid, the session that it had where that runs the stored version of its
  -- configuration, and otherwise a new one with the stored configuration. The rows are kept by their
  -- ids, and the sessions have one entry for a connector.
  pub reconcile-due :
      (sessions : Dict String (ConnectorDefinition D)) (j : String)
      → Keyed db.connectors
      → IsDict sessions
      → get j (reconcile resolve db sessions).0.running
        ≡ due (get j sessions) (wanted (get j db.connectors))
  unfolding reconcile
  reconcile-due sessions j h k =
      reconcile_with-due (collect resolve db db.connectors []) sessions j k
      ∙ ap (due (get j sessions)) (get-collect j db.connectors [] h ∙ ground arith)
