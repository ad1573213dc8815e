-- ===== src/Connectors/Assigned.antt =====
-- backend/app/vehicle_profiles/services.py: what `update_profile` and `delete_profile` write to the
-- sources and connectors that a profile is assigned to. The table of profiles is left out.
use carhibou.Prelude.{
  ◌+◌, ◌≡◌, Bool, true, false, none, some, String, [], ◌∷◌, if◌then◌else◌, arith,
}
use carhibou.Prelude.Equality.{◌==◌, Dict, get, string_eq}
use carhibou.Sources.{Source, same_text}
use carhibou.Connectors.{Connector, Tables, is_retired_source}

abbrev map_rows : {V : Type 0} → (V → V) → Dict String V → Dict String V
map_rows f [] = []
map_rows f ((k, v) ∷ d) = (k, f v) ∷ map_rows f d

-- `_bump_assigned_agents`, for one row.
abbrev bump_agent : String → Source → Source
bump_agent profile_id agent =
    if same_text agent.vehicle_profile (some profile_id)
    then record agent { config_version = agent.config_version + 1 }
    else agent

-- The update of `delete_profile`, for one source.
abbrev unassign_agent : String → Source → Source
unassign_agent profile_id agent =
    if same_text agent.vehicle_profile (some profile_id)
    then record agent { vehicle_profile = none; config_version = agent.config_version + 1 }
    else agent

module _ {C : Type 0} where
  -- `_bump_assigned_connectors`, for one row.
  abbrev bump_connector : String → Connector C → Connector C
  bump_connector profile_id connector =
      if connector.mapping_profile == profile_id
      then record connector { config_version = connector.config_version + 1 }
      else connector

  -- The round of the loop of `delete_profile`, for one connector.
  abbrev default_connector : (String → String) → String → Connector C → Connector C
  default_connector default_profiles profile_id connector =
      if connector.mapping_profile == profile_id
      then record connector {
        mapping_profile = default_profiles connector.kind;
        config_version = connector.config_version + 1;
      }
      else connector

  -- `update_profile`, of a profile that is a CAN profile or not.
  pub update_profile : Bool → String → Tables C → Tables C
  update_profile true profile_id db = record db {
    agents = map_rows (bump_agent profile_id) db.agents;
  }
  update_profile false profile_id db = record db {
    connectors = map_rows (bump_connector profile_id) db.connectors;
  }

  -- `delete_profile`
  pub delete_profile : (String → String) → Bool → String → Tables C → Tables C
  delete_profile default_profiles true profile_id db = record db {
    agents = map_rows (unassign_agent profile_id) db.agents;
  }
  delete_profile default_profiles false profile_id db = record db {
    connectors = map_rows (default_connector default_profiles profile_id) db.connectors;
  }

map_rows-retired :
    (f : Source → Source) (j : String) (agents : Dict String Source)
    → ((a : Source) → (f a).retired_at ≡ a.retired_at)
    → is_retired_source (get j agents) ≡ true
    → is_retired_source (get j (map_rows f agents)) ≡ true
map_rows-retired f j [] kept h = h
map_rows-retired f j ((k, a) ∷ agents) kept h =
    ground (arith, h, kept a, map_rows-retired f j agents kept)

bump_agent-retired_at :
    (profile_id : String) (a : Source) → (bump_agent profile_id a).retired_at ≡ a.retired_at
bump_agent-retired_at profile_id a = ground arith

unassign_agent-retired_at :
    (profile_id : String) (a : Source) → (unassign_agent profile_id a).retired_at ≡ a.retired_at
unassign_agent-retired_at profile_id a = ground arith

module _ {C : Type 0} where
  pub update_profile-retired :
      (is_can : Bool) (profile_id j : String) (db : Tables C)
      → is_retired_source (get j db.agents) ≡ true
      → is_retired_source (get j (update_profile is_can profile_id db).agents) ≡ true
  unfolding update_profile
  update_profile-retired true profile_id j db h =
      map_rows-retired (bump_agent profile_id) j db.agents (bump_agent-retired_at profile_id) h
  update_profile-retired false profile_id j db h = h

  pub delete_profile-retired :
      (default_profiles : String → String) (is_can : Bool) (profile_id j : String) (db : Tables C)
      → is_retired_source (get j db.agents) ≡ true
      → is_retired_source (get j (delete_profile default_profiles is_can profile_id db).agents)
        ≡ true
  unfolding delete_profile
  delete_profile-retired default_profiles true profile_id j db h =
      map_rows-retired (unassign_agent profile_id) j db.agents
        (unassign_agent-retired_at profile_id) h
  delete_profile-retired default_profiles false profile_id j db h = h
