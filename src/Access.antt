-- ===== src/Access.antt =====
-- backend/app/access and backend/app/users/services.py: who may see and change which vehicle, and
-- the administration of accounts. The rows of access/models.py, users/models.py and of the key of
-- vehicles/models.py, with the columns that these functions read or write.
pub mod Visibility
pub mod Grants
pub mod Users
mod Tests
use carhibou.Prelude.{
  ℕ, Bool, true, false, ◌&&◌, ◌||◌, not, Option, none, some, String, List, [], ◌∷◌, ◌++◌, map,
  filter, any, if◌then◌else◌, ltb, is_some,
}
use carhibou.Prelude.Equality.{Dict, get, ◌==◌, string_eq, contains}
use carhibou.Prelude.Time.{Instant}

-- `VehicleAccessLevel`
pub data Level : Type 0 where
  view operate : Level

-- `level_allows`
abbrev pub level_allows : Level → Level → Bool
level_allows operate required = true
level_allows view view = true
level_allows view operate = false

abbrev pub system_admin : String
system_admin = "system.admin"

pub record User : Type 0 where
  pub id : String
  pub email : String
  pub display_name : String
  pub is_active : Bool
  pub can_create_profiles : Bool
  pub permissions : Dict String Bool
  pub created_at : Instant

-- `is_admin`
abbrev pub is_true : Option Bool → Bool
is_true none = false
is_true (some b) = b

abbrev pub is_admin : User → Bool
is_admin user = is_true (get system_admin user.permissions)

-- `VehicleAccessGrant`; the schema lets no other level through.
pub record Grant : Type 0 where
  pub vehicle_id : String
  pub user_id : String
  pub level : Level

-- `VehicleGrantWrite`
pub record GrantWrite : Type 0 where
  pub user_id : String
  pub level : Level

-- `DefaultVehicleGrant` and `DefaultAccess`
pub record DefaultGrant : Type 0 where
  pub vehicle_id : String
  pub level : Level

pub record DefaultAccess : Type 0 where
  pub profiles_create : Bool
  pub grants : List DefaultGrant

-- The tables; `default_access` is the row of `AppSetting` of that key.
pub record Accounts : Type 0 where
  pub vehicles : List String
  pub users : List User
  pub grants : List Grant
  pub default_access : Option DefaultAccess

abbrev pub granted_to : String → List Grant → List Grant
granted_to user_id = filter (λ g. g.user_id == user_id)

-- `visible_vehicle_ids`, a set, as the list of its elements.
pub visible_vehicle_ids : Accounts → User → List String
visible_vehicle_ids t user =
    if is_admin user then t.vehicles else map (λ g. g.vehicle_id) (granted_to user.id t.grants)

-- The level of the grant of a user on a vehicle.
pub grant_level : String → String → List Grant → Option Level
grant_level user_id vehicle_id [] = none
grant_level user_id vehicle_id (g ∷ grants) =
    if g.user_id == user_id && g.vehicle_id == vehicle_id
    then some g.level
    else grant_level user_id vehicle_id grants

-- `access_level`
pub access_level : Accounts → User → String → Option Level
access_level t user vehicle_id =
    if contains vehicle_id t.vehicles
    then (if is_admin user then some operate else grant_level user.id vehicle_id t.grants)
    else none

-- `_authorize_vehicle`: 404, 403, or the level.
pub data Authorization : Type 0 where
  not_found denied : Authorization
  authorized : Level → Authorization

abbrev pub authorize_level : Level → Option Level → Authorization
authorize_level required none = not_found
authorize_level required (some level) =
    if level_allows level required then authorized level else denied

pub authorize_vehicle : Accounts → User → String → Level → Authorization
authorize_vehicle t user vehicle_id required =
    authorize_level required
      (if contains vehicle_id t.vehicles then access_level t user vehicle_id else none)

-- `AccessConfigurationError`, by its message.
pub data AccessError : Type 0 where
  duplicate_user unknown_user duplicate_vehicle : AccessError

pub data Result {ℓ} (A : Type ℓ) : Type ℓ where
  ok : A → Result A
  err : AccessError → Result A

-- `len(ids) != len(set(ids))`
abbrev pub repeats : List String → Bool
repeats [] = false
repeats (x ∷ xs) = contains x xs || repeats xs

-- `existing == set(ids)` for the users found by `id IN ids`.
abbrev pub all_known : List String → List User → Bool
all_known [] users = true
all_known (id ∷ ids) users = any (λ u. u.id == id) users && all_known ids users

abbrev pub written : String → List GrantWrite → List Grant
written vehicle_id =
    map (λ g. record { vehicle_id = vehicle_id; user_id = g.user_id; level = g.level })

-- `replace_vehicle_grants`, the tables after it.
pub replace_vehicle_grants : String → List GrantWrite → Accounts → Result Accounts
replace_vehicle_grants vehicle_id grants t =
    let user_ids = map (λ g. g.user_id) grants in
    if repeats user_ids
    then err duplicate_user
    else if all_known user_ids t.users
    then ok (record t {
      grants = filter (λ g. not (g.vehicle_id == vehicle_id)) t.grants ++ written vehicle_id grants;
    })
    else err unknown_user

-- `get_default_access` and `set_default_access`; `model_validate` gives back what `model_dump`
-- wrote.
abbrev pub get_default_access : Accounts → DefaultAccess
get_default_access t = elim t.default_access [
  | none ↦ record { profiles_create = false; grants = [] }
  | some value ↦ value
]

abbrev pub set_default_access : DefaultAccess → Accounts → Result Accounts
set_default_access value t =
    if repeats (map (λ g. g.vehicle_id) value.grants)
    then err duplicate_vehicle
    else ok (record t { default_access = some value })

-- `requested[vehicle_id]`: the last grant of a vehicle counts.
abbrev pub requested : String → List DefaultGrant → Option Level
requested vehicle_id [] = none
requested vehicle_id (g ∷ grants) =
    let later = requested vehicle_id grants in
    if is_some later then later else if g.vehicle_id == vehicle_id then some g.level else none

-- The grants on the vehicles that exist.
pub default_grants : String → List DefaultGrant → List String → List Grant
default_grants user_id grants [] = []
default_grants user_id grants (v ∷ vehicles) =
    let rest = default_grants user_id grants vehicles in
    elim (requested v grants) [
      | none ↦ rest
      | some level ↦ record { vehicle_id = v; user_id = user_id; level = level } ∷ rest
    ]

-- `apply_default_access`, for a user that has just been added.
pub apply_default_access : String → Accounts → Accounts
apply_default_access user_id t =
    let template = get_default_access t in
    record t {
      users =
          map
            (λ u.
              if u.id == user_id
              then record u { can_create_profiles = template.profiles_create }
              else u)
            t.users;
      grants = t.grants ++ default_grants user_id template.grants t.vehicles;
    }
