-- ===== src/Tenant/Laws.antt =====
-- Laws of src/modules/tenant/tenant.service.ts and src/modules/super-admin/super-admin.service.ts.
use generic_iam.Prelude.{
  Text, ◌≡◌, true, false, ◌&&◌, not, Bool, ◌==◌, ==_refl, any, arith, Option-cases, inl, inr, ℕ,
}
use generic_iam.Entities.{UserEntity}
use generic_iam.Errors.{ok}
use generic_iam.Env.{Env, Saved-cases}
use generic_iam.App.{World, Done, tenants}
use generic_iam.Rows.{found_passes, found_there}
use generic_iam.Base
use generic_iam.Tenant.{deactivate_tenant, ImpersonateDto, impersonate, impersonation_claims}

module _ ⦃env : Env⦄ where
  -- Deactivating a tenant that succeeds leaves an inactive row of it; its users and all the
  -- refresh tokens are as before.
  pub deactivate_tenant-ok :
      (id actor : Text) (w : World) (d : Done)
      → (deactivate_tenant id actor w).0 ≡ ok d
      → (any (λ t. t.id == id && not t.is_active) (deactivate_tenant id actor w).1.db.tenants
          ≡ true)
        × (((deactivate_tenant id actor w).1.db.users ≡ w.db.users)
            × ((deactivate_tenant id actor w).1.db.refresh_tokens ≡ w.db.refresh_tokens))
  unfolding deactivate_tenant Base.update Base.find_one
  deactivate_tenant-ok id actor w d h =
      elim (Option-cases (env.find_one (λ x. x.id == id) w.db.tenants)) [
        | inl n ↦ ground arith
        | inr (t, f) ↦
            elim (Saved-cases
              (env.save tenants.key (record t { is_active = false }) w.db.tenants)) [
                | inr (e, v) ↦ ground arith
                | inl (rows, v) ↦ ground (
                  arith,
                  found_passes (λ x. x.id == id) w.db.tenants t,
                  env.any_save tenants.key (record t { is_active = false }) w.db.tenants rows
                      (λ x. x.id == id && not x.is_active),
                )
              ]
      ]

  -- The user has the id and the tenant that were asked for, and the token is for that user.
  abbrev pub issued_for : ImpersonateDto → Text → Text × ℕ → UserEntity → Bool
  issued_for dto admin r u =
      u.id == dto.user_id
      && u.tenant_id == dto.tenant_id
      && r.0 == env.sign (impersonation_claims u admin) r.1

  -- An impersonation gives a token for a row of the table of users that has the id and the tenant
  -- that were asked for; its claims are those of that row, with the administrator named in them. The
  -- tables stay as they are.
  pub impersonate-ok :
      (dto : ImpersonateDto) (admin : Text) (w : World) (r : Text × ℕ)
      → (impersonate dto admin w).0 ≡ ok r
      → (any (issued_for dto admin r) w.db.users ≡ true) × ((impersonate dto admin w).1.db ≡ w.db)
  unfolding impersonate
  impersonate-ok dto admin w r h =
      elim (Option-cases
        (env.find_one (λ u. u.id == dto.user_id && u.tenant_id == dto.tenant_id) w.db.users)) [
          | inl n ↦ ground arith
          | inr (u, f) ↦ (
            found_there (λ x. x.id == dto.user_id && x.tenant_id == dto.tenant_id)
                (issued_for dto admin r) w.db.users u f
                (ground (
                  arith,
                  found_passes (λ x. x.id == dto.user_id && x.tenant_id == dto.tenant_id) w.db.users
                      u f,
                  ==_refl r.0,
                )),
            ground arith,
          )
        ]
