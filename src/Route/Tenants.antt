-- ===== src/Route/Tenants.antt =====
-- src/modules/tenant/tenant.controller.ts and src/modules/super-admin/super-admin.controller.ts. The
-- table of audit logs is an argument of the routes that search it.
use generic_iam.Prelude.{
  ℕ, Text, lit, Bool, true, ◌&&◌, not, Option, none, some, List, [], ◌∷◌, ◌==◌, same_text,
}
use generic_iam.Entities.{UserEntity, TenantEntity}
use generic_iam.Constants.{IdentityType, user, super_admin}
use generic_iam.Permissions.{tenant_read, tenant_write, audit_read}
use generic_iam.Errors.{plain, forbidden}
use generic_iam.Env.{Env, JwtPayload}
use generic_iam.App.{App, Done, tenants, find_and_count, pure, raise_if, ◌>>=◌, ◌>>◌}
use generic_iam.Guards.{Request, is_super_admin}
use generic_iam.Rbac.Role.{Paginated}
use generic_iam.Base
use generic_iam.Tenant.{
  CreateTenantDto, UpdateTenantDto, ImpersonateDto, create_tenant_with_admin, update_tenant,
  deactivate_tenant, impersonate, get_tenants, get_tenant_users,
}
use generic_iam.Json.{Json}
use generic_iam.Audit.{AuditLogEntity}
use generic_iam.Audit.Query
use generic_iam.Audit.Query.{AuditQueryDto, query_logs}
use generic_iam.Route.{Route, Nest, plain_route, serve, current_user, uuid_param}

abbrev guarded_for : List IdentityType → Option (List Text) → Route
guarded_for types permissions = record plain_route {
  identity_types = some types;
  guarded = true;
  permissions = permissions;
}

-- `@IdentityTypes(SUPER_ADMIN)` on a route of TenantController.
abbrev pub super_admin_route : Route
super_admin_route = guarded_for (super_admin ∷ []) none

abbrev pub tenant_route : Text → Route
tenant_route p = guarded_for (super_admin ∷ user ∷ []) (some (p ∷ []))

-- SuperAdminController has no @UseGuards.
abbrev pub unguarded_super_admin : Route
unguarded_super_admin = record plain_route { identity_types = some (super_admin ∷ []) }

module _ ⦃env : Env⦄ (nest : Nest) where
  -- The interceptor has opened the transaction of the request.
  unfoldable pub create : Request → CreateTenantDto → App TenantEntity
  unfolding serve
  create r dto =
      serve super_admin_route r (λ q. current_user q (λ u. create_tenant_with_admin true dto u.sub))

  -- `findAll({ skip, take })`
  unfoldable pub find_all_tenants : Request → ℕ → ℕ → App (List TenantEntity)
  unfolding serve
  find_all_tenants r page limit =
      serve super_admin_route r
        (λ q. do found ← find_and_count tenants (λ t. true) page limit; pure (found.0))

  unfoldable pub find_one : Request → App TenantEntity
  unfolding serve Base.find_one
  find_one r =
      serve (tenant_route tenant_read) r
        (λ q. do id ← uuid_param nest (lit "id") q; Base.find_one tenants (λ t. t.id == id))

  abbrev pub update_handler : UpdateTenantDto → Request → App TenantEntity
  update_handler dto q = do
    id ← uuid_param nest (lit "id") q
    current_user q (λ u. update_tenant id dto u.sub)

  unfoldable pub update : Request → UpdateTenantDto → App TenantEntity
  unfolding serve
  update r dto = serve (tenant_route tenant_write) r (update_handler dto)

  unfoldable pub remove : Request → App Done
  unfolding serve
  remove r =
      serve super_admin_route r (λ q. do
        id ← uuid_param nest (lit "id") q
        current_user q (λ u. deactivate_tenant id u.sub))

  -- `user.identity_type !== SUPER_ADMIN && user.tenant_id !== id`
  abbrev is_foreign : JwtPayload → Text → Bool
  is_foreign u id = not (is_super_admin u) && not (same_text u.tenant_id (some id))

  -- `query.tenant_id = id` comes after the check.
  abbrev pub get_audit_logs_handler :
      (Json → Option Text)
      → List AuditLogEntity
      → AuditQueryDto
      → Request
      → App (Paginated AuditLogEntity)
  get_audit_logs_handler as_text rows query q = do
    id ← uuid_param nest (lit "id") q
    current_user q (λ u. do
      raise_if (is_foreign u id) (forbidden (plain "Cannot access audit logs of another tenant"))
      pure (query_logs as_text (record query { tenant_id = some id }) rows))

  unfoldable pub get_audit_logs :
      (Json → Option Text)
      → List AuditLogEntity
      → Request
      → AuditQueryDto
      → App (Paginated AuditLogEntity)
  unfolding serve query_logs
  get_audit_logs as_text rows r query =
      serve (tenant_route audit_read) r (get_audit_logs_handler as_text rows query)

  abbrev pub start_impersonation_handler : ImpersonateDto → Request → App (Text × ℕ)
  start_impersonation_handler dto q = current_user q (λ u. impersonate dto u.sub)

  unfoldable pub start_impersonation : Request → ImpersonateDto → App (Text × ℕ)
  unfolding serve
  start_impersonation r dto = serve unguarded_super_admin r (start_impersonation_handler dto)

  unfoldable pub list_tenants : Request → App (List TenantEntity)
  unfolding serve
  list_tenants r = serve unguarded_super_admin r (λ q. get_tenants)

  unfoldable pub list_tenant_users : Request → App (List UserEntity)
  unfolding serve
  list_tenant_users r =
      serve unguarded_super_admin r (λ q. do id ← uuid_param nest (lit "id") q; get_tenant_users id)

  unfoldable pub search_audit_logs :
      (Json → Option Text)
      → List AuditLogEntity
      → Request
      → AuditQueryDto
      → App (Paginated AuditLogEntity)
  unfolding serve Query.get_audit_logs
  search_audit_logs as_text rows r query =
      serve unguarded_super_admin r (λ q. pure (Query.get_audit_logs as_text query rows))
