-- ===== src/Access/Users/Guard.antt =====
-- backend/app/users/services.py: the active administrators after a change that the guard lets
-- through.
use carhibou.Prelude.{
  ◌≡◌, refl, sym, ◌∙◌, subst, ◌⊎◌, inl, inr, Bool, true, false, ◌&&◌, ◌||◌, not, String, List, [],
  ◌∷◌, map, filter, any, In, Bool-cases, if◌then◌else◌, arith,
}
use mathlib.Core.Bool.{false≢true}
use carhibou.Prelude.Equality.{◌==◌, string_eq, get-insert_self}
use carhibou.Prelude.Keys.{Distinct, only_row}
use carhibou.Access.{User, is_admin, system_admin}
use carhibou.Access.Users.{
  changed, is_active_admin, other_active_admin_exists, update_user, with_admin, with_active,
  guarded, set_admin, set_active, delete_user,
}

-- Somebody can restore access.
abbrev pub has_active_admin : List User → Bool
has_active_admin = any is_active_admin

abbrev pub user_ids : List User → List String
user_ids = map (λ u. u.id)

or_left : (a b : Bool) → a ≡ true → (a || b) ≡ true
or_left a b h = ground arith

or_right : (a b : Bool) → b ≡ true → (a || b) ≡ true
or_right a b h = ground arith

or_cases : (a b : Bool) → (a || b) ≡ true → (a ≡ true) ⊎ (b ≡ true)
or_cases a b h = ground arith

-- A change of one row keeps an active administrator in another row.
other-update :
    (id : String) (f : User → User) (users : List User)
    → other_active_admin_exists id users ≡ true
    → has_active_admin (update_user id f users) ≡ true
unfolding other_active_admin_exists
other-update id f [] h = cc
other-update id f (u ∷ users) h =
    let row = if u.id == id then f u else u in
    elim (or_cases (not (u.id == id) && is_active_admin u) _ h) [
      | inl first ↦ or_left (is_active_admin row) _ (elim (Bool-cases (u.id == id)) [
        | inl same ↦ cc (rw same at first)
        | inr other ↦ rw other (rw other at first)
      ])
      | inr later ↦ or_right (is_active_admin row) _ (other-update id f users later)
    ]

other-filter :
    (id : String) (users : List User)
    → other_active_admin_exists id users ≡ true
    → has_active_admin (filter (λ u. not (u.id == id)) users) ≡ true
unfolding other_active_admin_exists
other-filter id [] h = cc
other-filter id (u ∷ users) h = ground (arith, other-filter id users)

-- A change of rows that keeps those that are active administrators.
keeping-update :
    (id : String) (f : User → User) (users : List User)
    → ((u : User)
        → In u users
        → (u.id == id) ≡ true
        → is_active_admin u ≡ true
        → is_active_admin (f u) ≡ true)
    → has_active_admin users ≡ true
    → has_active_admin (update_user id f users) ≡ true
keeping-update id f [] k h = cc
keeping-update id f (u ∷ users) k h =
    let row = if u.id == id then f u else u in
    elim (or_cases (is_active_admin u) _ h) [
      | inl first ↦ or_left (is_active_admin row) _ (elim (Bool-cases (u.id == id)) [
        | inl same ↦ rw (same, if◌then◌else◌) (k u (inl refl) same first)
        | inr other ↦ rw (other, if◌then◌else◌) first
      ])
      | inr later ↦
          or_right (is_active_admin row) _ (keeping-update id f users (λ v m. k v (inr m)) later)
    ]

keeping-filter :
    (id : String) (users : List User)
    → ((u : User) → In u users → (u.id == id) ≡ true → is_active_admin u ≡ false)
    → has_active_admin users ≡ true
    → has_active_admin (filter (λ u. not (u.id == id)) users) ≡ true
keeping-filter id [] k h = cc
keeping-filter id (u ∷ users) k h =
    let later : has_active_admin users ≡ true
        → has_active_admin (filter (λ u. not (u.id == id)) users) ≡ true =
      keeping-filter id users (λ v m. k v (inr m)) in
    elim (Bool-cases (u.id == id)) [
      | inl same ↦ rw (same, if◌then◌else◌) (later (rw (k u (inl refl) same) at h))
      | inr other ↦
          rw (other, if◌then◌else◌)
            (elim (or_cases (is_active_admin u) _ h) [
              | inl first ↦ or_left (is_active_admin u) _ first
              | inr rest ↦ or_right (is_active_admin u) _ (later rest)
            ])
    ]

-- What a change that goes through says of the guard.
pub guarded-changed :
    (asks : Bool) (id : String) (users after : List User) {after' : List User}
    → guarded asks id users after ≡ changed after'
    → (after ≡ after') × ((asks ≡ false) ⊎ (other_active_admin_exists id users ≡ true))
guarded-changed asks id users after e = ground arith

promoted : (u : User) → is_active_admin u ≡ true → is_active_admin (with_admin true u) ≡ true
promoted u a = ground (arith, get-insert_self system_admin true u.permissions)

module _ (users : List User) (user : User) (d : Distinct (user_ids users)) (m : In user users) where
  -- The rows that a change touches are the user's.
  own_row : (u : User) → In u users → (u.id == user.id) ≡ true → user ≡ u
  own_row u n same =
      only_row (λ (x : User). x.id) users user u d m n ((string_eq.same_iff u.id user.id).0 same)

  no_admin :
      is_active_admin user ≡ false
      → (u : User) → In u users
      → (u.id == user.id) ≡ true
      → is_active_admin u ≡ false
  no_admin e u n same = subst (λ x. is_active_admin x ≡ false) (own_row u n same) e

  weakened :
      (asks : Bool) (f : User → User) {after : List User}
      → has_active_admin users ≡ true
      → (asks ≡ false → is_active_admin user ≡ false)
      → guarded asks user.id users (update_user user.id f users) ≡ changed after
      → has_active_admin after ≡ true
  weakened asks f {after} h plain e =
      let (same, guard) = guarded-changed asks user.id users (update_user user.id f users) e in
      subst (λ l. has_active_admin l ≡ true) same
        (elim guard [
          | inl free ↦
              keeping-update user.id f users
                (λ u n row a. absurd (false≢true (sym (no_admin (plain free) u n row) ∙ a))) h
          | inr other ↦ other-update user.id f users other
        ])

  pub set_admin-keeps :
      (admin : Bool) {after : List User}
      → has_active_admin users ≡ true
      → set_admin user admin users ≡ changed after
      → has_active_admin after ≡ true
  unfolding set_admin
  set_admin-keeps true h e =
      let after = update_user user.id (with_admin true) users in
      subst (λ l. has_active_admin l ≡ true)
        ((guarded-changed (is_admin user && false) user.id users after e).0)
        (keeping-update user.id (with_admin true) users (λ u n row a. promoted u a) h)
  set_admin-keeps false h e = weakened _ (with_admin false) h (λ q. ground arith) e

  pub set_active-keeps :
      (active : Bool) {after : List User}
      → has_active_admin users ≡ true
      → set_active user active users ≡ changed after
      → has_active_admin after ≡ true
  unfolding set_active
  set_active-keeps true h e =
      let after = update_user user.id (with_active true) users in
      subst (λ l. has_active_admin l ≡ true)
        ((guarded-changed (user.is_active && false) user.id users after e).0)
        (keeping-update user.id (with_active true) users (λ u n row a. ground arith) h)
  set_active-keeps false h e = weakened _ (with_active false) h (λ q. ground arith) e

  pub delete_user-keeps :
      {after : List User}
      → has_active_admin users ≡ true
      → delete_user user users ≡ changed after
      → has_active_admin after ≡ true
  unfolding delete_user
  delete_user-keeps h e =
      let (same, guard) = guarded-changed (is_admin user) user.id users _ e in
      subst (λ l. has_active_admin l ≡ true) same
        (elim guard [
          | inl free ↦ keeping-filter user.id users (no_admin (ground arith)) h
          | inr other ↦ other-filter user.id users other
        ])
