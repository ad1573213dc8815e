-- ===== src/Connectors/Supervisor/Reconciled.antt =====
-- backend/app/connectors/runtime.py: the sessions that `reconcile` leaves.
use carhibou.Prelude.{
  ◌≡◌, refl, sym, ◌∙◌, ap, subst, true, false, ◌&&◌, Option, none, some, is_some, String, [], ◌∷◌,
  eqb, inl, inr, Bool-cases, if◌then◌else◌, or_else, All, All-of, arith,
}
use carhibou.Prelude.Equality.{◌==◌, Dict, get, contains, string_eq, get-insert, get-remove}
use carhibou.Prelude.Keys.{keys, IsDict, insert-IsDict, remove-IsDict, get_absent, get_row}
use carhibou.Connectors.Supervisor.{
  ConnectorDefinition, Sessions, is_outdated, drop_session, drop_sessions, start_session,
  start_sessions, reconcile_with,
}

module _ {D : Type 0} where
  -- The session that a connector should have: none without a definition, the one that it has where
  -- that runs the same version of the configuration, and else a new one.
  abbrev pub due :
      Option (ConnectorDefinition D)
      → Option (ConnectorDefinition D)
      → Option (ConnectorDefinition D)
  due session none = none
  due none (some definition) = some definition
  due (some session) (some definition) =
      if eqb definition.config_version session.config_version then some session else some definition

  abbrev keep :
      Option (ConnectorDefinition D)
      → Option (ConnectorDefinition D)
      → Option (ConnectorDefinition D)
  keep none definition = none
  keep (some session) definition = if is_outdated session definition then none else some session

  due-keep : (s d : Option (ConnectorDefinition D)) → or_else (keep s d) d ≡ due s d
  due-keep none none = refl
  due-keep none (some d) = refl
  due-keep (some s) none = refl
  due-keep (some s) (some d) = ground arith

  -- What the first loop makes of a session, where the list has it.
  abbrev dropped :
      Option (ConnectorDefinition D)
      → Option (ConnectorDefinition D)
      → Option (ConnectorDefinition D)
      → Option (ConnectorDefinition D)
  dropped none definition old = old
  dropped (some session) definition old = if is_outdated session definition then none else old

  get-drop_session :
      (definitions : Dict String (ConnectorDefinition D)) (id j : String)
      (session : ConnectorDefinition D) (s : Sessions D)
      → get j (drop_session definitions id session s).running
        ≡ (if id == j && is_outdated session (get id definitions) then none else get j s.running)
  get-drop_session definitions id j session s = ground (arith, get-remove id j s.running)

  get-drop_sessions :
      (definitions sessions : Dict String (ConnectorDefinition D)) (s : Sessions D) (j : String)
      → IsDict sessions
      → get j (drop_sessions definitions sessions s).running
        ≡ dropped (get j sessions) (get j definitions) (get j s.running)
  unfolding drop_sessions
  get-drop_sessions definitions [] s j h = refl
  get-drop_sessions definitions ((id, session) ∷ sessions) s j h =
      let now = drop_session definitions id session s in
      let rest = get-drop_sessions definitions sessions now j h.1 in
      let first = get-drop_session definitions id j session s in
      elim (Bool-cases (id == j)) [
        | inl same ↦
            let absent : get j sessions ≡ none = get_absent j sessions (
              subst (λ k. contains k (keys sessions) ≡ false) ((string_eq.same_iff id j).0 same)
                h.0) in
            rw (same, if◌then◌else◌)
              (rest ∙ rw absent (first ∙ ground (arith, (string_eq.same_iff id j).0 same)))
        | inr different ↦
            rw (different, if◌then◌else◌)
              (rest ∙ ap (dropped (get j sessions) (get j definitions)) (ground (arith, first)))
      ]

  get-start_session :
      (id j : String) (definition : ConnectorDefinition D) (s : Sessions D)
      → get j (start_session id definition s).running
        ≡ or_else (get j s.running) (if id == j then some definition else none)
  get-start_session id j definition s = elim (Bool-cases (is_some (get id s.running))) [
    | inl there ↦ rw (there, if◌then◌else◌) (ground (arith, there, string_eq.same_iff id j))
    | inr missing ↦
        rw (missing, if◌then◌else◌)
          (get-insert id j definition s.running ∙ ground (arith, missing, string_eq.same_iff id j))
  ]

  get-start_sessions :
      (definitions : Dict String (ConnectorDefinition D)) (s : Sessions D) (j : String)
      → get j (start_sessions definitions s).running ≡ or_else (get j s.running) (get j definitions)
  unfolding start_sessions
  get-start_sessions [] s j = ground arith
  get-start_sessions ((id, definition) ∷ definitions) s j =
      get-start_sessions definitions (start_session id definition s) j
      ∙ rw (get-start_session id j definition s) (ground arith)

  -- `reconcile` gives every connector the session that it should have, whatever sessions there were,
  -- where the dictionary of sessions has one for a connector.
  pub reconcile_with-due :
      (definitions sessions : Dict String (ConnectorDefinition D)) (j : String)
      → IsDict sessions
      → get j (reconcile_with definitions sessions).running
        ≡ due (get j sessions) (get j definitions)
  unfolding reconcile_with
  reconcile_with-due definitions sessions j h =
      let s : Sessions D = record { running = sessions; actions = [] } in
      get-start_sessions definitions (drop_sessions definitions sessions s) j
      ∙ rw (get-drop_sessions definitions sessions s j h)
          (ground (arith, due-keep (get j sessions) (get j definitions)))

  drop_sessions-IsDict :
      (definitions sessions : Dict String (ConnectorDefinition D)) (s : Sessions D)
      → IsDict s.running
      → IsDict (drop_sessions definitions sessions s).running
  unfolding drop_sessions
  drop_sessions-IsDict definitions [] s h = h
  drop_sessions-IsDict definitions ((id, session) ∷ sessions) s h =
      drop_sessions-IsDict definitions sessions (drop_session definitions id session s)
        (elim (Bool-cases (is_outdated session (get id definitions))) [
          | inl outdated ↦ rw (outdated, if◌then◌else◌) (remove-IsDict id s.running h)
          | inr current ↦ rw (current, if◌then◌else◌) h
        ])

  start_sessions-IsDict :
      (definitions : Dict String (ConnectorDefinition D)) (s : Sessions D)
      → IsDict s.running
      → IsDict (start_sessions definitions s).running
  unfolding start_sessions
  start_sessions-IsDict [] s h = h
  start_sessions-IsDict ((id, definition) ∷ definitions) s h =
      start_sessions-IsDict definitions (start_session id definition s)
        (elim (Bool-cases (is_some (get id s.running))) [
          | inl there ↦ rw (there, if◌then◌else◌) h
          | inr missing ↦ rw (missing, if◌then◌else◌) (insert-IsDict id definition s.running h)
        ])

  reconcile_with-IsDict :
      (definitions sessions : Dict String (ConnectorDefinition D))
      → IsDict sessions
      → IsDict (reconcile_with definitions sessions).running
  unfolding reconcile_with
  reconcile_with-IsDict definitions sessions h =
      start_sessions-IsDict definitions
        (drop_sessions definitions sessions (record { running = sessions; actions = [] }))
        (drop_sessions-IsDict definitions sessions (record { running = sessions; actions = [] }) h)

  due-current :
      (s d : Option (ConnectorDefinition D)) (x : ConnectorDefinition D)
      → due s d ≡ some x
      → is_outdated x d ≡ false
  due-current none none x e = absurd (cc e)
  due-current none (some d) x e = ground arith
  due-current (some s) none x e = absurd (cc e)
  due-current (some s) (some d) x e = ground arith

  due-some : (s d : Option (ConnectorDefinition D)) → is_some d ≡ true → is_some (due s d) ≡ true
  due-some none (some d) h = refl
  due-some (some s) (some d) h = ground arith
  due-some s none h = absurd (cc h)

  drop_sessions_none :
      (definitions sessions : Dict String (ConnectorDefinition D)) (s : Sessions D)
      → All (λ row. is_outdated row.1 (get row.0 definitions) ≡ false) sessions
      → drop_sessions definitions sessions s ≡ s
  unfolding drop_sessions
  drop_sessions_none definitions [] s h = refl
  drop_sessions_none definitions ((id, session) ∷ sessions) s h =
      rw (h.0, if◌then◌else◌) (drop_sessions_none definitions sessions s h.1)

  start_sessions_none :
      (definitions : Dict String (ConnectorDefinition D)) (s : Sessions D)
      → All (λ row. is_some (get row.0 s.running) ≡ true) definitions
      → start_sessions definitions s ≡ s
  unfolding start_sessions
  start_sessions_none [] s h = refl
  start_sessions_none ((id, definition) ∷ definitions) s h =
      rw (h.0, if◌then◌else◌) (start_sessions_none definitions s h.1)

  -- A second `reconcile` with the same definitions stops nothing, starts nothing and keeps every
  -- session.
  pub reconcile_with_idempotent :
      (definitions sessions : Dict String (ConnectorDefinition D))
      → IsDict definitions
      → IsDict sessions
      → (let after = (reconcile_with definitions sessions).running in
          reconcile_with definitions after ≡ record { running = after; actions = [] })
  unfolding reconcile_with
  reconcile_with_idempotent definitions sessions h k =
      let after = (reconcile_with definitions sessions).running in
      let is_due : (j : String) → get j after ≡ due (get j sessions) (get j definitions) =
        λ j. reconcile_with-due definitions sessions j k in
      let current : All (λ row. is_outdated row.1 (get row.0 definitions) ≡ false) after =
        All-of _ after λ row m. due-current (get row.0 sessions) (get row.0 definitions) row.1 (
          sym (is_due row.0)
          ∙ get_row row.0 row.1 after (reconcile_with-IsDict definitions sessions k) m) in
      let present : All (λ row. is_some (get row.0 after) ≡ true) definitions =
        All-of _ definitions λ row m. rw (is_due row.0) (
          due-some (get row.0 sessions) (get row.0 definitions)
            (rw (get_row row.0 row.1 definitions h m))) in
      let s : Sessions D = record { running = after; actions = [] } in
      ap (start_sessions definitions) (drop_sessions_none definitions after s current)
      ∙ start_sessions_none definitions s present
