-- ===== src/Access/Grants.antt =====
-- backend/app/access/services.py: `access_level` after `replace_vehicle_grants`.
use carhibou.Prelude.{
  ◌≡◌, refl, inl, inr, true, false, not, Option, none, some, or_else, String, List, [], ◌∷◌, ◌++◌,
  filter, Bool-cases, if◌then◌else◌, arith,
}
use carhibou.Prelude.Equality.{◌==◌, string_eq, contains}
use carhibou.Access.{
  User, Grant, GrantWrite, Accounts, Level, is_admin, grant_level, access_level, ok, written,
  replace_vehicle_grants,
}

-- The level that a list of grants gives a user.
abbrev pub level_in : String → List GrantWrite → Option Level
level_in u [] = none
level_in u (g ∷ grants) = if g.user_id == u then some g.level else level_in u grants

grant_level-append :
    (u v : String) (xs ys : List Grant)
    → grant_level u v (xs ++ ys) ≡ or_else (grant_level u v xs) (grant_level u v ys)
unfolding grant_level
grant_level-append u v [] ys = refl
grant_level-append u v (g ∷ xs) ys = ground (arith, grant_level-append u v xs ys)

grant_level-others :
    (u v vehicle_id : String) (grants : List Grant)
    → grant_level u v (filter (λ g. not (g.vehicle_id == vehicle_id)) grants)
      ≡ (if vehicle_id == v then none else grant_level u v grants)
unfolding grant_level
grant_level-others u v vehicle_id [] = ground arith
grant_level-others u v vehicle_id (g ∷ grants) = ground (
  arith,
  grant_level-others u v vehicle_id grants,
  string_eq.same_iff vehicle_id v,
  string_eq.same_iff g.vehicle_id v,
  string_eq.same_iff g.vehicle_id vehicle_id,
)

grant_level-written :
    (u v vehicle_id : String) (grants : List GrantWrite)
    → grant_level u v (written vehicle_id grants)
      ≡ (if vehicle_id == v then level_in u grants else none)
unfolding grant_level
grant_level-written u v vehicle_id [] = ground arith
grant_level-written u v vehicle_id (g ∷ grants) =
    ground (arith, grant_level-written u v vehicle_id grants)

replaced :
    (u v vehicle_id : String) (grants : List GrantWrite) (old : List Grant)
    → grant_level u v
        (filter (λ g. not (g.vehicle_id == vehicle_id)) old ++ written vehicle_id grants)
      ≡ (if vehicle_id == v then level_in u grants else grant_level u v old)
replaced u v vehicle_id grants old =
    rw
      (
        grant_level-append u v (filter (λ g. not (g.vehicle_id == vehicle_id)) old)
            (written vehicle_id grants),
        grant_level-others u v vehicle_id old,
        grant_level-written u v vehicle_id grants,
      )
      (elim (Bool-cases (vehicle_id == v)) [
        | inl same ↦ rw same
        | inr other ↦ rw other (or_else_none (grant_level u v old))
      ])
  where
    or_else_none : (o : Option Level) → or_else o none ≡ o
    or_else_none none = refl
    or_else_none (some l) = refl

-- After the grants on a vehicle that exists are replaced, every user who is not an administrator has on it the
-- level that the new grants give, and on every other vehicle the level that was there before.
pub access_level-replace_vehicle_grants :
    (t : Accounts) (vehicle_id : String) (grants : List GrantWrite) (user : User) (v : String)
    {t' : Accounts}
    → contains vehicle_id t.vehicles ≡ true
    → is_admin user ≡ false
    → replace_vehicle_grants vehicle_id grants t ≡ ok t'
    → access_level t' user v
      ≡ (if vehicle_id == v then level_in user.id grants else access_level t user v)
unfolding access_level replace_vehicle_grants
access_level-replace_vehicle_grants t vehicle_id grants user v exists plain e =
    ground (arith, replaced user.id v vehicle_id grants t.grants, string_eq.same_iff vehicle_id v)
