-- ===== src/Route/Outcomes.antt =====
-- What an answered request to the routes of src/modules/rbac, src/modules/user, src/modules/tenant
-- and src/modules/super-admin says about its caller.
use generic_iam.Prelude.{
  implies, ℕ, ◌≤◌, Text, lit, ◌≡◌, refl, Bool, true, false, ◌&&◌, Option, some, List, [], any, all,
  arith, is_empty, if◌then◌else◌, ◌==◌, ==_eq, inl, inr, Bool-cases, length, same_text,
}
use generic_iam.Entities.{PermissionEntity}
use generic_iam.Permissions.{role_assign, tenant_write, audit_read}
use generic_iam.Errors.{ok, err, plain, forbidden}
use generic_iam.Env.{Env, CacheStore, JwtPayload}
use generic_iam.App.{World, Done}
use generic_iam.Rbac.Override.Reads.{effective_in}
use generic_iam.Rbac.Assignment.{UpdateUserRolesDto, items}
use generic_iam.Rbac.Assignment.Laws.{is_member, may_assign}
use generic_iam.Rbac.Assignment.Update.{update_user_roles-visible}
use generic_iam.Authorization.Plain.{Coherent}
use generic_iam.Guards.{Request, is_super_admin, tenant_text}
use generic_iam.Guards.Laws.{ArePlain, grants}
use generic_iam.Route.{Nest}
use generic_iam.Route.Laws.{Comes, serve_lem, serve-covered, serve_parts, accepts-super_admin}
use generic_iam.Route.Roles
use generic_iam.Route.Roles.{demanding}
use generic_iam.Tenant.{ImpersonateDto, impersonation_claims, UpdateTenantDto, update_tenant}
use generic_iam.Tenant.Laws.{impersonate-ok}
use generic_iam.Route.Tenants
use generic_iam.Route.Tenants.{
  tenant_route, unguarded_super_admin, get_audit_logs_handler, update_handler, start_impersonation,
  start_impersonation_handler,
}
use generic_iam.Rbac.Role.{Paginated}
use generic_iam.Json.{Json}
use generic_iam.Audit.{AuditLogEntity}
use generic_iam.Audit.Query.{AuditQueryDto, query_logs, query_logs-tenant}
use generic_iam.Sdk.Laws.{token_of}

module _ ⦃env : Env⦄ (nest : Nest) (u : JwtPayload) (ps : List PermissionEntity) (a : ArePlain u)
    (r : Request) (w : World) (h : Coherent w)
    (e : effective_in w.db w.now u.sub (tenant_text u) ≡ ok ps) where
  -- `PATCH /users/:userId/roles` by an ordinary user of a tenant, with a cache that agrees with the
  -- tables: if it is answered, then the caller's permissions in effect cover role.assign, the target
  -- is a user of the caller's tenant, and that tenant may see each role that was added.
  pub update_user_roles-permitted :
      (dto : UpdateUserRolesDto) (tenant target : Text) (d : Done)
      → Comes u (demanding role_assign) r
      → u.tenant_id ≡ some tenant
      → r.params (lit "userId") ≡ some target
      → (Roles.update_user_roles nest r dto w).0 ≡ ok d
      → (grants u ps a role_assign
          && any (is_member target tenant) w.db.users
          && all (λ item. any (may_assign item.role_id tenant) w.db.roles) (items dto.add))
        ≡ true
  unfolding Roles.update_user_roles any all
  update_user_roles-permitted dto tenant target d k t p o =
      let (g, (c, o', s, hc)) =
        serve-covered u ps a (demanding role_assign) (Roles.update_user_roles_handler nest dto) d
          role_assign [] r w refl refl refl refl k h e (refl, tt) o in
      elim (Bool-cases (nest.is_uuid target)) [
        | inr bad ↦ ground arith
        | inl uuid ↦
            ground
              (arith, update_user_roles-visible target tenant u.sub dto (record w { cache = c }) d)
      ]

  -- `GET /tenants/:id/audit-logs` by an ordinary user of a tenant, with a cache that agrees with the
  -- tables and an id that is not empty: if it is answered, then the caller's permissions in effect
  -- cover audit.read and the id is that of the caller's tenant; the rows shown are rows of the table
  -- that belong to that tenant, and they are at most as many as the limit that the answer states.
  pub get_audit_logs-own :
      (as_text : Json → Option Text) (rows : List AuditLogEntity) (query : AuditQueryDto)
      (tenant id : Text) (page : Paginated AuditLogEntity) (q : AuditLogEntity → Bool)
      → Comes u (tenant_route audit_read) r
      → u.tenant_id ≡ some tenant
      → r.params (lit "id") ≡ some id
      → is_empty id ≡ false
      → (Tenants.get_audit_logs nest as_text rows r query w).0 ≡ ok page
      → ((grants u ps a audit_read && tenant == id) ≡ true)
        × (implies (any q page.items) (any (λ l. q l && same_text l.tenant_id (some tenant)) rows)
            ≡ true)
        × (length page.items ≤ page.limit)
  unfolding Tenants.get_audit_logs all any
  get_audit_logs-own as_text rows query tenant id page q k t p n o =
      let (g, (c, o', s, hc)) =
        serve-covered u ps a (tenant_route audit_read)
          (get_audit_logs_handler nest as_text rows query) page audit_read [] r w refl refl refl
          refl k h e (refl, tt) o in
      let asked = record query { tenant_id = some id } in
      let shown : (query_logs as_text asked rows ≡ page) × ((tenant == id) ≡ true) =
        elim (Bool-cases (nest.is_uuid id)) [
          | inr bad ↦ ground arith
          | inl good ↦ elim (Bool-cases (tenant == id)) [
            | inr bad ↦ ground (arith, k.ordinary)
            | inl same ↦ ground (arith, k.ordinary)
          ]
        ] in
      let (sound, short) = query_logs-tenant as_text asked id rows q refl n in
      (
        ground (arith, shown),
        ground (arith, sound, ==_eq tenant id, shown),
        ground (arith, short, shown),
      )

  -- `PATCH /tenants/:id` by an ordinary user, with a cache that agrees with the tables and an id that
  -- is a uuid: it updates the tenant that the path names if the caller's permissions in effect cover
  -- tenant.write, and is refused if not. That holds whatever the tenant
  -- of the caller's token is.
  pub update-any_tenant :
      (dto : UpdateTenantDto) (id : Text)
      → Comes u (tenant_route tenant_write) r
      → r.params (lit "id") ≡ some id
      → nest.is_uuid id ≡ true
      → (c : CacheStore) × (Tenants.update nest r dto w ≡ (
          if grants u ps a tenant_write
          then update_tenant id dto u.sub (record w { cache = c })
          else (err (forbidden (plain "Insufficient permissions")), record w { cache = c })))
  unfolding Tenants.update all any
  update-any_tenant dto id k p i =
      let (c, s, hc) =
        serve_lem u ps a (tenant_route tenant_write) (update_handler nest dto) tenant_write [] r w
          refl refl refl refl k h e (refl, tt) in
      (c, ground (arith, s))

module _ ⦃env : Env⦄ (nest : Nest) where
  -- `POST /super-admin/impersonate`, if it is answered: the request carries a token that verifies as
  -- some super admin's; some row of the table of users has the id and the tenant that were asked
  -- for, and the token that comes back is signed for the claims of that row and names that super
  -- admin; the tables stay as they are.
  pub start_impersonation-super_admin :
      (dto : ImpersonateDto) (r : Request) (w : World) (o : Text × ℕ)
      → (start_impersonation nest r dto w).0 ≡ ok o
      → ((u : JwtPayload) × (env.verify (token_of r) ≡ some u)
          × (is_super_admin u ≡ true)
          × (any
                (λ x.
                  x.id == dto.user_id
                  && x.tenant_id == dto.tenant_id
                  && o.0 == env.sign (impersonation_claims x u.sub) o.1)
                w.db.users
              ≡ true))
        × ((start_impersonation nest r dto w).1.db ≡ w.db)
  unfolding start_impersonation
  start_impersonation-super_admin dto r w o h =
      let (u, auth, (b, w', g, s)) =
        serve_parts unguarded_super_admin (start_impersonation_handler nest dto) r w o refl h in
      let same : w' ≡ w = ground arith in
      let (found, kept) = impersonate-ok dto u.sub w' o (ground (arith, s, h)) in
      (
        (u, auth.verified, accepts-super_admin u auth.accepted, ground (arith, found, same)),
        ground (arith, s, kept, same),
      )
