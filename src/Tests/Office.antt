-- ===== src/Tests/Office.antt =====
-- A small office for the tests: one tenant with two users, two roles of its own, a system role, a
-- permission, an assignment, an ACL entry, a refresh token and a super admin.
use generic_iam.Prelude.{Text, lit, true, false, none, some, [], ◌∷◌}
use generic_iam.Entities.{
  BaseEntity, BaseTenantEntity, TenantEntity, UserEntity, SuperAdminEntity, RefreshTokenEntity,
  RoleEntity, UserRoleEntity, PermissionEntity, RolePermissionEntity, ResourceAclEntity,
}
use generic_iam.Errors.{Result, ok, err}
use generic_iam.App.{World}

abbrev pub value : {A : Type 0} → A → Result A → A
value d (ok a) = a
value d (err e) = d

abbrev row : Text → BaseEntity
row i = record { id = i; created_at = 1 }

abbrev owned : Text → BaseTenantEntity
owned i = record { base = row i; tenant_id = lit "t" }

abbrev pub the_tenant : TenantEntity
the_tenant = record {
  base = row (lit "t");
  name = lit "acme";
  slug = lit "a";
  is_active = true;
  settings = lit "{}";
}

abbrev pub ann : UserEntity
ann = record {
  owner = owned (lit "u");
  email = lit "ann";
  password_hash = lit "pw";
  first_name = lit "A";
  last_name = lit "N";
  is_active = true;
  manager_id = none;
}

abbrev pub bob : UserEntity
bob = record ann { owner = owned (lit "v"); email = lit "bob"; manager_id = some (lit "u") }

abbrev pub root : SuperAdminEntity
root = record {
  base = row (lit "root");
  email = lit "root";
  password_hash = lit "pw";
  is_active = true;
}

abbrev pub the_token : RefreshTokenEntity
the_token = record {
  base = row (lit "k");
  user_id = lit "u";
  token_hash = lit "secret";
  expires_at = 2000;
}

abbrev pub own_role : RoleEntity
own_role = record {
  base = row (lit "r");
  tenant_id = some (lit "t");
  name = lit "clerk";
  description = none;
  is_system = false;
}

abbrev pub spare_role : RoleEntity
spare_role = record own_role { base = row (lit "q") }

abbrev pub system_role : RoleEntity
system_role = record {
  base = row (lit "s");
  tenant_id = none;
  name = lit "TENANT_ADMIN";
  description = none;
  is_system = true;
}

abbrev pub assignment : UserRoleEntity
assignment = record {
  owner = owned (lit "a");
  user_id = lit "u";
  role_id = lit "r";
  expires_at = some 1500;
}

abbrev pub reading : PermissionEntity
reading = record {
  base = row (lit "p");
  code = lit "doc.read";
  service = lit "doc";
  parent_id = none;
  description = none;
}

abbrev pub reading_of_role : RolePermissionEntity
reading_of_role = record { base = row (lit "l"); role_id = lit "r"; permission_id = lit "p" }

abbrev pub entry_of_bob : ResourceAclEntity
entry_of_bob = record {
  owner = owned (lit "e");
  user_id = lit "v";
  resource_type = lit "doc";
  resource_id = lit "1";
  permission = lit "doc.edit";
}

abbrev pub office : World
office = record {
  db = record {
    tenants = the_tenant ∷ [];
    users = ann ∷ bob ∷ [];
    super_admins = root ∷ [];
    refresh_tokens = the_token ∷ [];
    roles = own_role ∷ spare_role ∷ system_role ∷ [];
    user_roles = assignment ∷ [];
    permissions = reading ∷ [];
    role_permissions = reading_of_role ∷ [];
    overrides = [];
    acls = entry_of_bob ∷ [];
  };
  cache = [];
  events = [];
  now = 1000;
  drawn = 7;
}
