-- ===== src/Rbac/Role.antt =====
-- src/modules/rbac/role.service.ts: the roles of a tenant, and the system roles that it may see.
pub mod Laws
use generic_iam.Prelude.{
  ℕ, Text, lit, Bool, true, false, ◌&&◌, ◌||◌, Option, none, some, List, ◌==◌, same_text, ltb,
}
use generic_iam.Entities.{RoleEntity}
use generic_iam.Constants.{iam_audit, role_created, role_updated, role_deleted, AuditEventType}
use generic_iam.Errors.{plain, not_found, bad_request, conflict}
use generic_iam.Env.{Env}
use generic_iam.Json.{Json, Fields, text, boolean, object, field, end, optional, optional_flag}
use generic_iam.App.{
  App, Done, BaseEvent, roles, user_roles, find_one, find_and_count, count, save, remove, emit,
  pure, raise, or_raise, raise_if, fresh_base, ◌>>=◌, ◌>>◌,
}
use Prim.Native.String.{String}

pub record CreateRoleDto : Type 0 where
  pub name : Text
  pub description : Option Text

-- The body of an update. It is declared as a part of `CreateRoleDto`, a type that is erased, so
-- any column may be in it.
pub record RoleUpdate : Type 0 where
  pub id : Option Text
  pub tenant_id : Option Text
  pub name : Option Text
  pub description : Option Text
  pub is_system : Option Bool

abbrev given : {A : Type 0} → Option A → A → A
given none old = old
given (some a) old = a

abbrev given_some : {A : Type 0} → Option A → Option A → Option A
given_some none old = old
given_some (some a) old = some a

-- `Object.assign(role, dto)`
unfoldable pub assign : RoleEntity → RoleUpdate → RoleEntity
assign role dto = record role {
  base = record role.base { id = given dto.id role.id };
  tenant_id = given_some dto.tenant_id role.tenant_id;
  name = given dto.name role.name;
  description = given_some dto.description role.description;
  is_system = given dto.is_system role.is_system;
}

abbrev update_fields : RoleUpdate → Fields
update_fields dto = optional "id" dto.id (
    optional "tenant_id" dto.tenant_id (
      optional "name" dto.name
        (optional "description" dto.description (optional_flag "is_system" dto.is_system end))))

-- A page of a listing, as the services return it.
pub record Paginated (A : Type 0) : Type 0 where
  pub items : List A
  pub total : ℕ
  pub page : ℕ
  pub limit : ℕ

abbrev pub role_event : AuditEventType → Text → Text → Text → Fields → BaseEvent
role_event type tenant actor id payload = record {
  event_type = type;
  tenant_id = some tenant;
  actor_id = some actor;
  resource_type = some (lit "role");
  resource_id = some id;
  user_id = none;
  payload = payload;
}

-- The rows that a tenant may see: its own, and the system roles.
unfoldable pub visible : Text → RoleEntity → Bool
visible tenant r = same_text r.tenant_id (some tenant) || r.is_system

module _ ⦃env : Env⦄ where
  unfoldable pub create_custom_role : Text → CreateRoleDto → Text → App RoleEntity
  create_custom_role tenant dto actor = do
    base ← fresh_base
    role ← save roles (record {
      base = base;
      tenant_id = some tenant;
      name = dto.name;
      description = dto.description;
      is_system = false;
    })
    emit iam_audit
        (role_event role_created tenant actor role.id (field "name" (text role.name) end))
    pure role

  -- The database orders by `created_at`.
  unfoldable pub find_all_for_tenant : Text → ℕ → ℕ → App (Paginated RoleEntity)
  unfolding visible
  find_all_for_tenant tenant page limit = do
    found ← find_and_count roles (visible tenant) page limit
    pure (record { items = found.0; total = found.1; page = page; limit = limit })

  unfoldable pub find_one_for_tenant : Text → Text → App RoleEntity
  find_one_for_tenant id tenant = do
    role ←
        find_one roles
          (λ r. (r.id == id && same_text r.tenant_id (some tenant)) || (r.id == id && r.is_system))
    or_raise role (not_found (plain "Role not found"))

  unfoldable pub find_one_by_name : Text → Option Text → App (Option RoleEntity)
  find_one_by_name name tenant =
      find_one roles (λ r. r.name == name && same_text r.tenant_id tenant)

  unfoldable pub update_custom_role : Text → Text → RoleUpdate → Text → App RoleEntity
  unfolding find_one_for_tenant assign
  update_custom_role id tenant dto actor = do
    role ← find_one_for_tenant id tenant
    raise_if role.is_system (bad_request (plain "Cannot modify system roles"))
    updated ← save roles (assign role dto)
    emit iam_audit (
        role_event role_updated tenant actor updated.id
          (field "updates" (object (update_fields dto)) end))
    pure updated

  unfoldable pub delete_custom_role : Text → Text → Text → App Done
  unfolding find_one_for_tenant
  delete_custom_role id tenant actor = do
    role ← find_one_for_tenant id tenant
    raise_if role.is_system (bad_request (plain "Cannot delete system roles"))
    assigned ← count user_roles (λ ur. ur.role_id == role.id)
    raise_if (ltb 0 assigned) (conflict (plain "Cannot delete role as it is assigned to users"))
    remove roles role
    emit iam_audit (role_event role_deleted tenant actor id (field "name" (text role.name) end))
