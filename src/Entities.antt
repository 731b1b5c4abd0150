-- ===== src/Entities.antt =====
-- The rows of the tables: src/common/base/*.entity.ts and src/modules/*/entities/*.entity.ts, and
-- the database as the lists of their rows. `updated_at`, which the database sets at every write and
-- which some answers pass on, is left out, and so are the joined objects: a join is written as a
-- search where the code makes one.
use generic_iam.Prelude.{ℕ, Text, Bool, Option, List, []}

pub record BaseEntity : Type 0 where
  pub id : Text
  pub created_at : ℕ

pub record BaseTenantEntity : Type 0 where
  pub base : BaseEntity
  pub open base use *
  pub tenant_id : Text

pub record TenantEntity : Type 0 where
  pub base : BaseEntity
  pub open base use *
  pub name : Text
  pub slug : Text
  pub is_active : Bool
  pub settings : Text

pub record UserEntity : Type 0 where
  pub owner : BaseTenantEntity
  pub open owner use *
  pub email : Text
  pub password_hash : Text
  pub first_name : Text
  pub last_name : Text
  pub is_active : Bool
  pub manager_id : Option Text

pub record SuperAdminEntity : Type 0 where
  pub base : BaseEntity
  pub open base use *
  pub email : Text
  pub password_hash : Text
  pub is_active : Bool

pub record RefreshTokenEntity : Type 0 where
  pub base : BaseEntity
  pub open base use *
  pub user_id : Text
  pub token_hash : Text
  pub expires_at : ℕ

pub record RoleEntity : Type 0 where
  pub base : BaseEntity
  pub open base use *
  pub tenant_id : Option Text
  pub name : Text
  pub description : Option Text
  pub is_system : Bool

pub record UserRoleEntity : Type 0 where
  pub owner : BaseTenantEntity
  pub open owner use *
  pub user_id : Text
  pub role_id : Text
  pub expires_at : Option ℕ

pub record PermissionEntity : Type 0 where
  pub base : BaseEntity
  pub open base use *
  pub code : Text
  pub service : Text
  pub parent_id : Option Text
  pub description : Option Text

pub record RolePermissionEntity : Type 0 where
  pub base : BaseEntity
  pub open base use *
  pub role_id : Text
  pub permission_id : Text

pub data OverrideType : Type 0 where
  grant deny : OverrideType

pub record UserPermissionOverrideEntity : Type 0 where
  pub owner : BaseTenantEntity
  pub open owner use *
  pub user_id : Text
  pub permission_id : Text
  pub override_type : OverrideType
  pub reason : Option Text

pub record ResourceAclEntity : Type 0 where
  pub owner : BaseTenantEntity
  pub open owner use *
  pub user_id : Text
  pub resource_type : Text
  pub resource_id : Text
  pub permission : Text

-- The tables that the services read and write.
pub record Db : Type 0 where
  pub tenants : List TenantEntity
  pub users : List UserEntity
  pub super_admins : List SuperAdminEntity
  pub refresh_tokens : List RefreshTokenEntity
  pub roles : List RoleEntity
  pub user_roles : List UserRoleEntity
  pub permissions : List PermissionEntity
  pub role_permissions : List RolePermissionEntity
  pub overrides : List UserPermissionOverrideEntity
  pub acls : List ResourceAclEntity

abbrev pub empty_db : Db
empty_db = record {
  tenants = [];
  users = [];
  super_admins = [];
  refresh_tokens = [];
  roles = [];
  user_roles = [];
  permissions = [];
  role_permissions = [];
  overrides = [];
  acls = [];
}
