-- ===== src/Rbac/Override/Returns.antt =====
-- When getEffectivePermissions of src/modules/rbac/override.service.ts returns.
use generic_iam.Prelude.{
  Text, ◌≡◌, refl, ap, Bool, false, ◌&&◌, not, List, [], ◌∷◌, ◌++◌, ◌==◌, any, any-select, map,
  arith, ◌∙◌, Option-cases, inl, inr,
}
use generic_iam.Entities.{PermissionEntity, UserPermissionOverrideEntity, Db}
use generic_iam.Errors.{ok}
use generic_iam.Env.{Env}
use generic_iam.App.{World}
use generic_iam.Rbac.Override.{is_grant, effective_loop, get_effective_permissions}
use generic_iam.Rbac.Override.Reads.{
  is_deny, joined_in, overrides_in, roles_in, role_permissions_in, finish, effective_in,
  get_effective_permissions_eq,
}
use generic_iam.Rbac.Override.Laws.{has_id, entitled, get_effective_permissions_lem}

module _ ⦃env : Env⦄ where
  -- The override names a permission that is not there.
  abbrev pub dangling : Db → UserPermissionOverrideEntity → Bool
  dangling db o = not (any (λ p. p.id == o.permission_id) db.permissions)

  joined_in-returns :
      (db : Db) (os : List UserPermissionOverrideEntity)
      → any (dangling db) os ≡ false
      → (ps : List PermissionEntity) × (joined_in db os ≡ ok ps)
  unfolding joined_in any
  joined_in-returns db [] h = ([], refl)
  joined_in-returns db (o ∷ os) h =
      elim (Option-cases (env.find_one (λ p. p.id == o.permission_id) db.permissions)) [
        | inl missing ↦
            let gone = env.find_one_none (λ p. p.id == o.permission_id) db.permissions missing in
            ([], ground (arith, gone))
        | inr (p, e) ↦
            let (ps, r) = joined_in-returns db os (ground (arith, h)) in
            (p ∷ ps, ground (arith, e, r))
      ]

  -- If each grant of the user in the tenant names a permission that is there, the call returns,
  -- and lists a permission exactly when a role that the user holds now gives it or a grant names
  -- it, and no denial does.
  pub get_effective_permissions-returns :
      (user tenant : Text) (w : World)
      → any
          (λ o.
            (dangling w.db o && is_grant o.override_type)
            && (o.user_id == user && o.tenant_id == tenant))
          w.db.overrides
        ≡ false
      → (ps : List PermissionEntity) × ((get_effective_permissions user tenant w ≡ (ok ps, w))
          × ((i : Text) → any (has_id i) ps ≡ entitled user tenant w.now w.db i))
  unfolding effective_in
  get_effective_permissions-returns user tenant w h =
      let (grants, e) =
        joined_in-returns w.db (overrides_in is_grant w.db user tenant) no_dangling in
      let ps = effective_of grants in
      let same : effective_in w.db w.now user tenant ≡ ok ps =
        ap (finish w.db w.now user tenant) e in
      let call = get_effective_permissions_eq user tenant w ∙ ap (λ r. (r, w)) same in
      (ps, (call, λ i. (get_effective_permissions_lem user tenant w w ps i call).1))
    where
      effective_of : List PermissionEntity → List PermissionEntity
      effective_of grants =
          effective_loop (map (λ o. o.permission_id) (overrides_in is_deny w.db user tenant)) []
            (role_permissions_in w.db (roles_in w.db w.now user tenant) ++ grants)

      no_dangling : any (dangling w.db) (overrides_in is_grant w.db user tenant) ≡ false
      no_dangling =
          any-select (λ o. is_grant o.override_type) (dangling w.db)
            (env.find (λ o. o.user_id == user && o.tenant_id == tenant) w.db.overrides)
          ∙ env.any_find (λ o. o.user_id == user && o.tenant_id == tenant)
              (λ o. dangling w.db o && is_grant o.override_type) w.db.overrides
          ∙ h
