-- ===== src/Access/Visibility.antt =====
-- backend/app/access: `visible_vehicle_ids` beside `access_level` and `_authorize_vehicle`.
use carhibou.Prelude.{
  ◌≡◌, ◌↔◌, refl, sym, ◌∙◌, inl, inr, true, false, Option, none, some, is_some, String, List, [],
  ◌∷◌, map, All, Bool-cases, arith,
}
use carhibou.Prelude.Equality.{◌==◌, string_eq, contains}
use carhibou.Access.{
  User, Grant, Accounts, Level, is_admin, granted_to, visible_vehicle_ids, grant_level,
  access_level, not_found, authorized, level_allows, authorize_level, authorize_vehicle,
}

-- The foreign key of grants: every grant is on a vehicle that exists.
abbrev pub KnowVehicles : Accounts → Type 0
KnowVehicles t = All (λ g. contains g.vehicle_id t.vehicles ≡ true) t.grants

grant_level-granted :
    (u v : String) (grants : List Grant)
    → is_some (grant_level u v grants) ≡ contains v (map (λ g. g.vehicle_id) (granted_to u grants))
unfolding grant_level
grant_level-granted u v [] = refl
grant_level-granted u v (g ∷ grants) = elim (Bool-cases (g.user_id == u)) [
  | inl mine ↦ elim (Bool-cases (g.vehicle_id == v)) [
    | inl here ↦ rw (mine, here)
    | inr there ↦ rw (mine, there) (grant_level-granted u v grants)
  ]
  | inr other ↦ rw other (grant_level-granted u v grants)
]

granted-known :
    (u v : String) (vehicles : List String) (grants : List Grant)
    → All (λ g. contains g.vehicle_id vehicles ≡ true) grants
    → contains v vehicles ≡ false
    → is_some (grant_level u v grants) ≡ false
unfolding grant_level
granted-known u v vehicles [] h e = refl
granted-known u v vehicles (g ∷ grants) h e = elim (Bool-cases (g.vehicle_id == v)) [
  | inl here ↦ cc (e, h.0, (string_eq.same_iff g.vehicle_id v).0 here)
  | inr there ↦ ground (arith, granted-known u v vehicles grants h.1 e)
]

-- A vehicle is in the list of those that a user sees exactly if the user has a level of access to
-- it, where every grant is on a vehicle that exists.
pub visible_vehicle_ids-access_level :
    (t : Accounts) (user : User) (v : String)
    → KnowVehicles t
    → contains v (visible_vehicle_ids t user) ≡ is_some (access_level t user v)
unfolding visible_vehicle_ids access_level
visible_vehicle_ids-access_level t user v h = elim (Bool-cases (contains v t.vehicles)) [
  | inl exists ↦ elim (Bool-cases (is_admin user)) [
    | inl admin ↦ rw (admin, exists)
    | inr plain ↦ rw (plain, exists) (sym (grant_level-granted user.id v t.grants))
  ]
  | inr missing ↦ elim (Bool-cases (is_admin user)) [
    | inl admin ↦ rw (admin, missing)
    | inr plain ↦
        rw (plain, missing)
          (sym (grant_level-granted user.id v t.grants)
            ∙ granted-known user.id v t.vehicles t.grants h missing)
  ]
]

-- A missing level of access is the only reason to answer that there is no such vehicle.
authorize_level-not_found :
    (required : Level) (o : Option Level)
    → (authorize_level required o ≡ not_found) ↔ (is_some o ≡ false)
authorize_level-not_found required none = ((λ e. refl), (λ e. refl))
authorize_level-not_found required (some level) = ground arith

authorize_vehicle-level :
    (t : Accounts) (user : User) (v : String) (required : Level)
    → authorize_vehicle t user v required ≡ authorize_level required (access_level t user v)
unfolding authorize_vehicle access_level
authorize_vehicle-level t user v required = elim (Bool-cases (contains v t.vehicles)) [
  | inl exists ↦ rw exists
  | inr missing ↦ rw missing
]

-- A vehicle that a user does not see is answered like one that does not exist, and no other is. A
-- request is let through at the user's level of access, which allows what is required.
pub authorize_vehicle-visible :
    (t : Accounts) (user : User) (v : String) (required : Level)
    → KnowVehicles t
    → ((authorize_vehicle t user v required ≡ not_found)
        ↔ (contains v (visible_vehicle_ids t user) ≡ false))
      × ((level : Level)
          → authorize_vehicle t user v required ≡ authorized level
          → (access_level t user v ≡ some level) × (level_allows level required ≡ true))
authorize_vehicle-visible t user v required h = (
  rw (visible_vehicle_ids-access_level t user v h, authorize_vehicle-level t user v required)
      (authorize_level-not_found required (access_level t user v)),
  λ level e.
      let e' : authorize_level required (access_level t user v) ≡ authorized level =
        sym (authorize_vehicle-level t user v required) ∙ e in
      allowed (access_level t user v) level e',
)
  where
    allowed :
        (o : Option Level) (level : Level)
        → authorize_level required o ≡ authorized level
        → (o ≡ some level) × (level_allows level required ≡ true)
    allowed none level e = cc
    allowed (some l) level e = ground arith
