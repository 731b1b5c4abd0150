-- ===== src/Rls.antt =====
-- The row-level security of src/database/migrations/1780599504679-EnableRLS.ts and
-- 1780643029000-FixAclRlsPolicy.ts: which rows a statement sees when the setting
-- app.current_tenant_id names a tenant. The tables tenants, super_admins, refresh_tokens and
-- permissions have no policy.
pub mod Laws
use generic_iam.Prelude.{
  Text, ◌==◌, Bool, ◌||◌, Option, none, some, map, has, select, same_text, is_some, not,
}
use generic_iam.Entities.{
  Db, UserEntity, RoleEntity, UserRoleEntity, RolePermissionEntity, ResourceAclEntity,
  UserPermissionOverrideEntity,
}
use generic_iam.App.{App, World}
use generic_iam.Audit.{AuditLogEntity}

-- The policy on users, user_roles, resource_acls and user_permission_overrides.
abbrev pub of_tenant : Text → Text → Bool
of_tenant current tenant = tenant == current

-- The policy on roles.
abbrev pub role_policy : Text → RoleEntity → Bool
role_policy current r = r.is_system || same_text r.tenant_id (some current)

-- The policy on role_permissions: `role_id IN (SELECT id FROM roles WHERE ...)`.
abbrev pub link_policy : Text → Db → RolePermissionEntity → Bool
link_policy current db rp = has (map (λ r. r.id) (select (role_policy current) db.roles)) rp.role_id

-- The policy on audit_logs: a row without a tenant is seen by all.
abbrev pub audit_policy : Text → AuditLogEntity → Bool
audit_policy current a = same_text a.tenant_id (some current) || not (is_some a.tenant_id)

-- The database as a statement of the tenant sees it.
unfoldable pub seen_by : Text → Db → Db
seen_by current db = record db {
  users = select (λ u. of_tenant current u.tenant_id) db.users;
  roles = select (role_policy current) db.roles;
  user_roles = select (λ ur. of_tenant current ur.tenant_id) db.user_roles;
  role_permissions = select (link_policy current db) db.role_permissions;
  overrides = select (λ o. of_tenant current o.tenant_id) db.overrides;
  acls = select (λ a. of_tenant current a.tenant_id) db.acls;
}

abbrev pub world_seen_by : Text → World → World
world_seen_by current w = record w { db = seen_by current w.db }
