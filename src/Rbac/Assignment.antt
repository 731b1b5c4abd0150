-- ===== src/Rbac/Assignment.antt =====
-- src/modules/rbac/assignment.service.ts: which roles a user has, and until when.
pub mod Laws
pub mod Update
pub mod Visible
use generic_iam.Prelude.{
  ℕ, Text, lit, Bool, true, ◌&&◌, Option, none, some, List, [], ◌∷◌, ◌==◌, ltb, is_some,
}
use generic_iam.Entities.{UserRoleEntity}
use generic_iam.Constants.{
  iam_audit, iam_permission_changed, role_assigned, role_revoked, permission_changed,
  AuditEventType,
}
use generic_iam.Errors.{plain, not_found}
use generic_iam.Env.{Env}
use generic_iam.Json.{Fields, text, field, end, optional_number}
use generic_iam.App.{
  App, Done, World, BaseEvent, users, user_roles, find_one, find, save, remove, emit, pure,
  or_raise, gets, for_each, fresh_base, ◌>>=◌, ◌>>◌,
}
use generic_iam.Rbac.Role.{find_one_for_tenant}

pub record AssignRoleDto : Type 0 where
  pub role_id : Text
  pub expires_at : Option ℕ

-- Both lists may be missing, which is as an empty list to the service.
pub record UpdateUserRolesDto : Type 0 where
  pub add : Option (List AssignRoleDto)
  pub remove : Option (List Text)

abbrev pub items : {A : Type 0} → Option (List A) → List A
items none = []
items (some l) = l

abbrev pub user_event : AuditEventType → Text → Text → Text → Fields → BaseEvent
user_event type tenant actor user payload = record {
  event_type = type;
  tenant_id = some tenant;
  actor_id = some actor;
  resource_type = some (lit "user");
  resource_id = some user;
  user_id = none;
  payload = payload;
}

-- The message that makes the consumers drop what they cached for the user.
abbrev pub permission_changed_event : Text → Text → BaseEvent
permission_changed_event tenant user = record {
  event_type = permission_changed;
  tenant_id = some tenant;
  actor_id = none;
  resource_type = none;
  resource_id = none;
  user_id = some user;
  payload = end;
}

abbrev pub same_assignment : Text → Text → Text → UserRoleEntity → Bool
same_assignment user role tenant ur =
    ur.user_id == user && ur.role_id == role && ur.tenant_id == tenant

-- `expires_at IS NULL OR expires_at > now`
unfoldable pub unexpired : ℕ → Option ℕ → Bool
unexpired now none = true
unexpired now (some t) = ltb now t

module _ ⦃env : Env⦄ where
  abbrev require_user : Text → Text → App Done
  require_user user tenant = do
    found ← find_one users (λ u. u.id == user && u.tenant_id == tenant)
    or_raise found (not_found (plain "User not found in tenant"))
    pure tt

  -- An assignment that is there gets the new expiry; otherwise one is inserted.
  abbrev pub put_assignment :
      Text → Text → AssignRoleDto → Option UserRoleEntity → App UserRoleEntity
  put_assignment user tenant dto (some existing) =
      save user_roles (record existing { expires_at = dto.expires_at })
  put_assignment user tenant dto none = do
    base ← fresh_base
    save user_roles (record {
      owner = record { base = base; tenant_id = tenant };
      user_id = user;
      role_id = dto.role_id;
      expires_at = dto.expires_at;
    })

  abbrev assigned_fields : AssignRoleDto → Fields
  assigned_fields dto =
      field "role_id" (text dto.role_id) (optional_number "expires_at" dto.expires_at end)

  unfoldable pub assign_to_user : Text → Text → AssignRoleDto → Text → App UserRoleEntity
  unfolding find_one_for_tenant
  assign_to_user user tenant dto actor = do
    require_user user tenant
    find_one_for_tenant dto.role_id tenant
    existing ← find_one user_roles (same_assignment user dto.role_id tenant)
    assignment ← put_assignment user tenant dto existing
    emit iam_audit (user_event role_assigned tenant actor user (assigned_fields dto))
    emit iam_permission_changed (permission_changed_event tenant user)
    pure assignment

  -- One round of the loop over `dto.add`.
  unfoldable pub add_role : Text → Text → Text → AssignRoleDto → App Done
  unfolding find_one_for_tenant
  add_role user tenant actor item = do
    find_one_for_tenant item.role_id tenant
    existing ← find_one user_roles (same_assignment user item.role_id tenant)
    put_assignment user tenant item existing
    emit iam_audit (user_event role_assigned tenant actor user (assigned_fields item))

  abbrev revoke : Text → Text → Text → Text → Option UserRoleEntity → App Done
  revoke user tenant actor role none = pure tt
  revoke user tenant actor role (some assignment) = do
    remove user_roles assignment
    emit iam_audit (user_event role_revoked tenant actor user (field "role_id" (text role) end))

  -- One round of the loop over `dto.remove`.
  unfoldable pub remove_role : Text → Text → Text → Text → App Done
  remove_role user tenant actor role = do
    assignment ← find_one user_roles (same_assignment user role tenant)
    revoke user tenant actor role assignment

  unfoldable pub update_user_roles : Text → Text → UpdateUserRolesDto → Text → App Done
  update_user_roles user tenant dto actor = do
    require_user user tenant
    for_each (items dto.add) (add_role user tenant actor)
    for_each (items dto.remove) (remove_role user tenant actor)
    emit iam_permission_changed (permission_changed_event tenant user)

  unfoldable pub get_user_roles : Text → Text → App (List UserRoleEntity)
  unfolding unexpired
  get_user_roles user tenant = do
    now ← gets (λ w. w.now)
    find user_roles
        (λ ur. ur.user_id == user && ur.tenant_id == tenant && unexpired now ur.expires_at)
