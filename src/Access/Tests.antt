-- ===== src/Access/Tests.antt =====
-- Runs of the grants and of the administration of accounts.
use carhibou.Prelude.{◌≡◌, ◌↔◌, refl, inl, inr, true, false, some, List, [], ◌∷◌}
use carhibou.Prelude.Equality.{string_eq, contains}
use carhibou.Access.{
  User, GrantWrite, Accounts, Level, view, operate, visible_vehicle_ids, access_level, not_found,
  authorized, level_allows, authorize_vehicle, ok, replace_vehicle_grants, default_grants,
  apply_default_access,
}
use carhibou.Access.Visibility.{authorize_vehicle-visible}
use carhibou.Access.Users.{
  refused, set_admin, set_active, delete_user, other_active_admin_exists, Changes, here, next,
  admins, actives,
}
use carhibou.Access.Users.Administrators.{IsAdministered, Changes-IsAdministered}

abbrev ann : User
ann = record {
  id = "ann";
  email = "ann@example.org";
  display_name = "Ann";
  is_active = true;
  can_create_profiles = false;
  permissions = [];
  created_at = 1;
}

abbrev root : User
root = record ann { id = "root"; permissions = ("system.admin", true) ∷ []; created_at = 0 }

abbrev accounts : Accounts
accounts = record {
  vehicles = "van" ∷ "car" ∷ [];
  users = root ∷ ann ∷ [];
  grants = record { vehicle_id = "van"; user_id = "ann"; level = view } ∷ [];
  default_access = some (record {
    profiles_create = true;
    grants =
        record { vehicle_id = "car"; level = operate }
        ∷ record { vehicle_id = "gone"; level = view }
        ∷ [];
  });
}

-- A new user gets the grant on the vehicle that exists.
ann-default :
    (apply_default_access "ann" accounts).grants
    ≡ record { vehicle_id = "van"; user_id = "ann"; level = view }
      ∷ record { vehicle_id = "car"; user_id = "ann"; level = operate }
      ∷ []
unfolding apply_default_access default_grants
ann-default = refl

authorize_vehicle-visible_example :
    ((authorize_vehicle accounts ann "car" operate ≡ not_found)
      ↔ (contains "car" (visible_vehicle_ids accounts ann) ≡ false))
    × ((level : Level)
        → authorize_vehicle accounts ann "car" operate ≡ authorized level
        → (access_level accounts ann "car" ≡ some level) × (level_allows level operate ≡ true))
authorize_vehicle-visible_example = authorize_vehicle-visible accounts ann "car" operate (refl, tt)

abbrev shared : List GrantWrite
shared = record { user_id = "ann"; level = operate } ∷ []

abbrev after : Accounts
after = record accounts {
  grants =
      record { vehicle_id = "van"; user_id = "ann"; level = view }
      ∷ record { vehicle_id = "car"; user_id = "ann"; level = operate }
      ∷ [];
}

shared-after : replace_vehicle_grants "car" shared accounts ≡ ok after
unfolding replace_vehicle_grants
shared-after = refl

-- Root makes Ann an administrator, and then closes their own account.
abbrev admin_ann : User
admin_ann = record ann { permissions = ("system.admin", true) ∷ [] }

handed_over : Changes (root ∷ ann ∷ []) (record root { is_active = false } ∷ admin_ann ∷ [])
unfolding set_admin set_active other_active_admin_exists
handed_over =
    next (next here (admins ann true (inr (inl refl)) refl)) (actives root false (inl refl) refl)

Changes-IsAdministered_example : IsAdministered (record root { is_active = false } ∷ admin_ann ∷ [])
Changes-IsAdministered_example =
    Changes-IsAdministered {users = root ∷ ann ∷ []} handed_over
      (record { distinct = (refl, (refl, tt)); administered = refl })

-- Without Ann, root may not go.
root-delete : delete_user root (root ∷ ann ∷ []) ≡ refused
unfolding delete_user other_active_admin_exists
root-delete = refl
