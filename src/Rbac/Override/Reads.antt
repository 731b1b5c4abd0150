-- ===== src/Rbac/Override/Reads.antt =====
-- getEffectivePermissions of src/modules/rbac/override.service.ts as a function of the tables and the time.
use generic_iam.Prelude.{
  ℕ, Text, ◌≡◌, refl, Bool, ◌&&◌, not, Option, none, some, List, [], ◌∷◌, ◌++◌, ◌==◌, has, any,
  select, map, arith,
}
use generic_iam.Entities.{
  PermissionEntity, UserPermissionOverrideEntity, UserRoleEntity, Db, OverrideType,
  ResourceAclEntity,
}
use generic_iam.Errors.{Result, ok, err, type_error}
use generic_iam.Env.{Env}
use generic_iam.App.{World}
use generic_iam.Rbac.Assignment.{unexpired, get_user_roles}
use generic_iam.Rbac.Override.{
  is_grant, effective_loop, role_permissions_of, joined_permissions, get_effective_permissions,
}

module _ ⦃env : Env⦄ where
  -- The assignments of a user that have not expired.
  abbrev pub is_active : Text → Text → ℕ → UserRoleEntity → Bool
  is_active user tenant now ur =
      ur.user_id == user && ur.tenant_id == tenant && unexpired now ur.expires_at

  abbrev pub is_deny : OverrideType → Bool
  is_deny t = not (is_grant t)

  -- The same reads as functions of the database.
  unfoldable pub role_permissions_in : Db → List Text → List PermissionEntity
  role_permissions_in db [] = []
  role_permissions_in db (role ∷ roles) =
      env.find
        (λ p.
          any (λ rp. rp.permission_id == p.id && has (role ∷ roles) rp.role_id) db.role_permissions)
        db.permissions

  abbrev pub cons_result :
      Result (List PermissionEntity) → PermissionEntity → Result (List PermissionEntity)
  cons_result (ok ps) p = ok (p ∷ ps)
  cons_result (err e) p = err e

  abbrev pub cons_found :
      Option PermissionEntity → Result (List PermissionEntity) → Result (List PermissionEntity)
  cons_found none rest = err type_error
  cons_found (some p) rest = cons_result rest p

  unfoldable pub joined_in : Db → List UserPermissionOverrideEntity → Result (List PermissionEntity)
  joined_in db [] = ok []
  joined_in db (o ∷ os) =
      cons_found (env.find_one (λ p. p.id == o.permission_id) db.permissions) (joined_in db os)

  pub role_permissions_of_lem :
      (roles : List Text) (w : World)
      → role_permissions_of roles w ≡ (ok (role_permissions_in w.db roles), w)
  unfolding role_permissions_of role_permissions_in
  role_permissions_of_lem [] w = refl
  role_permissions_of_lem (r ∷ rs) w = refl

  pub joined_permissions_lem :
      (os : List UserPermissionOverrideEntity) (w : World)
      → joined_permissions os w ≡ (joined_in w.db os, w)
  unfolding joined_permissions joined_in
  joined_permissions_lem [] w = refl
  joined_permissions_lem (o ∷ os) w = ground (arith, joined_permissions_lem os w)

  abbrev pub roles_in : Db → ℕ → Text → Text → List Text
  roles_in db now user tenant =
      map (λ ur. ur.role_id) (env.find (is_active user tenant now) db.user_roles)

  abbrev pub overrides_in :
      (OverrideType → Bool) → Db → Text → Text → List UserPermissionOverrideEntity
  overrides_in kind db user tenant =
      select (λ o. kind o.override_type)
        (env.find (λ o. o.user_id == user && o.tenant_id == tenant) db.overrides)

  abbrev pub finish :
      Db → ℕ → Text → Text → Result (List PermissionEntity) → Result (List PermissionEntity)
  finish db now user tenant (ok grants) = ok (
      effective_loop (map (λ o. o.permission_id) (overrides_in is_deny db user tenant)) []
        (role_permissions_in db (roles_in db now user tenant) ++ grants))
  finish db now user tenant (err e) = err e

  -- The result as a function of the database and the time.
  unfoldable pub effective_in : Db → ℕ → Text → Text → Result (List PermissionEntity)
  effective_in db now user tenant =
      finish db now user tenant (joined_in db (overrides_in is_grant db user tenant))

  pub get_effective_permissions_eq :
      (user tenant : Text) (w : World)
      → get_effective_permissions user tenant w ≡ (effective_in w.db w.now user tenant, w)
  unfolding get_effective_permissions get_user_roles effective_in
  get_effective_permissions_eq user tenant w = ground (
    arith,
    role_permissions_of_lem (roles_in w.db w.now user tenant) w,
    joined_permissions_lem (overrides_in is_grant w.db user tenant) w,
  )

  -- The ACL has no part in it.
  pub effective_in-acls :
      (db : Db) (rows : List ResourceAclEntity) (now : ℕ) (user tenant : Text)
      → effective_in (record db { acls = rows }) now user tenant ≡ effective_in db now user tenant
  unfolding effective_in role_permissions_in joined_in
  effective_in-acls db rows now user tenant = refl
