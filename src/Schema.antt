-- ===== src/Schema.antt =====
-- The foreign keys of src/database/migrations/1780599496976-InitialSchema.ts: a row goes with the row
-- that it refers to (ON DELETE CASCADE), and a user whose manager goes has none (ON DELETE SET NULL).
-- Roles refer to no tenant.
pub mod Laws
use generic_iam.Prelude.{
  Text, Bool, true, ◌&&◌, ◌||◌, not, Option, none, some, List, any, map, select, ◌==◌,
  if◌then◌else◌,
}
use generic_iam.Entities.{
  Db, UserEntity, RefreshTokenEntity, UserRoleEntity, RolePermissionEntity,
  UserPermissionOverrideEntity, ResourceAclEntity,
}

abbrev pub has_tenant : Db → Text → Bool
has_tenant db id = any (λ t. t.id == id) db.tenants

-- A user that stays: its tenant does.
abbrev pub user_refers : Db → UserEntity → Bool
user_refers db u = has_tenant db u.tenant_id

abbrev pub has_user : Db → Text → Bool
has_user db id = any (λ u. u.id == id && user_refers db u) db.users

abbrev pub has_role : Db → Text → Bool
has_role db id = any (λ r. r.id == id) db.roles

abbrev pub has_permission_id : Db → Text → Bool
has_permission_id db id = any (λ p. p.id == id) db.permissions

abbrev pub assignment_refers : Db → UserRoleEntity → Bool
assignment_refers db ur =
    has_tenant db ur.tenant_id && has_user db ur.user_id && has_role db ur.role_id

abbrev pub link_refers : Db → RolePermissionEntity → Bool
link_refers db rp = has_role db rp.role_id && has_permission_id db rp.permission_id

abbrev pub override_refers : Db → UserPermissionOverrideEntity → Bool
override_refers db o =
    has_tenant db o.tenant_id && has_user db o.user_id && has_permission_id db o.permission_id

abbrev pub acl_refers : Db → ResourceAclEntity → Bool
acl_refers db a = has_tenant db a.tenant_id && has_user db a.user_id

abbrev pub token_refers : Db → RefreshTokenEntity → Bool
token_refers db t = has_user db t.user_id

abbrev known_manager : Db → Option Text → Option Text
known_manager db none = none
known_manager db (some m) = if has_user db m then some m else none

abbrev settled : Db → UserEntity → UserEntity
settled db u = record u { manager_id = known_manager db u.manager_id }

-- The tables after the rows that the keys take along are gone.
unfoldable pub cascade : Db → Db
cascade db = record db {
  users = map (settled db) (select (user_refers db) db.users);
  refresh_tokens = select (token_refers db) db.refresh_tokens;
  user_roles = select (assignment_refers db) db.user_roles;
  role_permissions = select (link_refers db) db.role_permissions;
  overrides = select (override_refers db) db.overrides;
  acls = select (acl_refers db) db.acls;
}
