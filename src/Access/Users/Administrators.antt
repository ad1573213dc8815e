-- ===== src/Access/Users/Administrators.antt =====
-- backend/app/users/services.py: the active administrators after any number of changes.
use carhibou.Prelude.{
  ◌≡◌, refl, subst, inl, inr, Bool, true, not, String, List, [], ◌∷◌, Bool-cases,
}
use carhibou.Prelude.Equality.{◌==◌, string_eq}
use carhibou.Prelude.Keys.{Distinct, filter-Distinct}
use carhibou.Access.{User}
use carhibou.Access.Users.{
  changed, update_user, with_admin, with_active, guarded, set_admin, set_active, delete_user,
  Change, admins, actives, deletes, Changes, here, next,
}
use carhibou.Access.Users.Guard.{
  has_active_admin, user_ids, set_admin-keeps, set_active-keeps, delete_user-keeps, guarded-changed,
}

user_ids-update :
    (id : String) (f : User → User) (users : List User)
    → ((u : User) → (f u).id ≡ u.id)
    → user_ids (update_user id f users) ≡ user_ids users
user_ids-update id f [] k = refl
user_ids-update id f (u ∷ users) k = elim (Bool-cases (u.id == id)) [
  | inl same ↦ rw (same, k u, user_ids-update id f users k)
  | inr other ↦ rw (other, user_ids-update id f users k)
]

-- The key of a user is unique, and somebody can restore access.
pub record IsAdministered (users : List User) : Type 0 where
  pub distinct : Distinct (user_ids users)
  pub administered : has_active_admin users ≡ true

guarded-Distinct :
    (asks : Bool) (id : String) (users after : List User) {after' : List User}
    → guarded asks id users after ≡ changed after'
    → Distinct (user_ids after)
    → Distinct (user_ids after')
guarded-Distinct asks id users after e d =
    subst (λ l. Distinct (user_ids l)) (guarded-changed asks id users after e).0 d

Change-Distinct :
    {users after : List User}
    → Change users after
    → Distinct (user_ids users)
    → Distinct (user_ids after)
unfolding set_admin set_active delete_user
Change-Distinct {users} (admins user admin m e) d =
    guarded-Distinct _ user.id users _ e
      (rw (user_ids-update user.id (with_admin admin) users (λ u. refl)) d)
Change-Distinct {users} (actives user active m e) d =
    guarded-Distinct _ user.id users _ e
      (rw (user_ids-update user.id (with_active active) users (λ u. refl)) d)
Change-Distinct {users} (deletes user m e) d =
    guarded-Distinct _ user.id users _ e
      (filter-Distinct (λ (u : User). u.id) (λ u. not (u.id == user.id)) users d)

Change-IsAdministered :
    {users after : List User} → Change users after → IsAdministered users → IsAdministered after
Change-IsAdministered {users} {after} c v = record {
  distinct = Change-Distinct c v.distinct;
  administered = keeps c;
}
  where
    keeps : Change users after → has_active_admin after ≡ true
    keeps (admins user admin m e) = set_admin-keeps users user v.distinct m admin v.administered e
    keeps (actives user active m e) =
        set_active-keeps users user v.distinct m active v.administered e
    keeps (deletes user m e) = delete_user-keeps users user v.distinct m v.administered e

-- However administrators are named and removed, and accounts closed, opened and deleted: where
-- there is an active administrator, one remains.
pub Changes-IsAdministered :
    {users after : List User} → Changes users after → IsAdministered users → IsAdministered after
Changes-IsAdministered here v = v
Changes-IsAdministered (next cs c) v = Change-IsAdministered c (Changes-IsAdministered cs v)
