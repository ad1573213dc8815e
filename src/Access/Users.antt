-- ===== src/Access/Users.antt =====
-- backend/app/users/services.py: `set_admin`, `set_active` and `delete_user`, with their guard.
pub mod Guard
pub mod Administrators
use carhibou.Prelude.{
  ◌≡◌, Bool, true, false, ◌&&◌, ◌||◌, not, String, List, map, filter, any, In, if◌then◌else◌,
}
use carhibou.Prelude.Equality.{Dict, ◌==◌, string_eq, insert}
use carhibou.Access.{User, is_admin, system_admin}

-- `UserAdministrationError`, or the rows after the change.
pub data Outcome : Type 0 where
  refused : Outcome
  changed : List User → Outcome

-- `_other_active_admin_exists`
abbrev pub is_active_admin : User → Bool
is_active_admin u = u.is_active && is_admin u

unfoldable pub other_active_admin_exists : String → List User → Bool
other_active_admin_exists excluding = any (λ u. not (u.id == excluding) && is_active_admin u)

-- A write to the row of one user.
abbrev pub update_user : String → (User → User) → List User → List User
update_user id f = map (λ u. if u.id == id then f u else u)

abbrev pub with_admin : Bool → User → User
with_admin admin u = record u {
  permissions =
      if admin
      then insert system_admin true u.permissions
      else filter (λ p. not (p.0 == system_admin)) u.permissions;
}

-- What follows `_guard_last_admin`, where it has to be asked.
abbrev pub guarded : Bool → String → List User → List User → Outcome
guarded asks id users after =
    if asks && not (other_active_admin_exists id users) then refused else changed after

-- `set_admin`
unfoldable pub set_admin : User → Bool → List User → Outcome
set_admin user admin users =
    guarded (is_admin user && not admin) user.id users
      (update_user user.id (with_admin admin) users)

abbrev pub with_active : Bool → User → User
with_active active u = record u { is_active = active }

-- `set_active`
unfoldable pub set_active : User → Bool → List User → Outcome
set_active user active users =
    guarded (user.is_active && (not active && is_admin user)) user.id users
      (update_user user.id (with_active active) users)

-- `delete_user`
unfoldable pub delete_user : User → List User → Outcome
delete_user user users =
    guarded (is_admin user) user.id users (filter (λ u. not (u.id == user.id)) users)

-- A change that the code makes to the rows of accounts.
pub data Change (users : List User) : List User → Type 0 where
  admins :
      (user : User) (admin : Bool) {after : List User}
      → In user users
      → set_admin user admin users ≡ changed after
      → Change users after
  actives :
      (user : User) (active : Bool) {after : List User}
      → In user users
      → set_active user active users ≡ changed after
      → Change users after
  deletes :
      (user : User) {after : List User}
      → In user users
      → delete_user user users ≡ changed after
      → Change users after

pub data Changes (users : List User) : List User → Type 0 where
  here : Changes users users
  next :
      {between after : List User}
      → Changes users between
      → Change between after
      → Changes users after
