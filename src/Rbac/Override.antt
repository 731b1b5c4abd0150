-- ===== src/Rbac/Override.antt =====
-- src/modules/rbac/override.service.ts: grants and denials of single permissions to a user, and
-- the permissions that a user has in effect.
pub mod Reads
pub mod Laws
pub mod Returns
use generic_iam.Prelude.{
  ℕ, Text, lit, Bool, true, false, ◌&&◌, not, Option, none, some, List, [], ◌∷◌, ◌++◌, ◌==◌,
  is_empty, has, any, select, map, if◌then◌else◌, length, text_or, or_text,
}
use generic_iam.Entities.{
  PermissionEntity, UserPermissionOverrideEntity, OverrideType, grant, deny, UserRoleEntity,
}
use generic_iam.Constants.{
  iam_audit, iam_permission_changed, permission_override_added, permission_override_removed,
}
use generic_iam.Errors.{plain, not_found, type_error}
use generic_iam.Env.{Env}
use generic_iam.Json.{Fields, text, field, end}
use generic_iam.App.{
  App, Done, World, BaseEvent, overrides, permissions, role_permissions, find_one, find, save,
  remove, emit, pure, raise, or_raise, gets, fresh_base, ◌>>=◌, ◌>>◌,
}
use generic_iam.Rbac.Assignment.{user_event, permission_changed_event, get_user_roles}

pub record CreateOverrideDto : Type 0 where
  pub permission_id : Text
  pub override_type : OverrideType
  pub reason : Option Text

abbrev pub is_grant : OverrideType → Bool
is_grant grant = true
is_grant deny = false

abbrev same_type : OverrideType → OverrideType → Bool
same_type grant grant = true
same_type grant deny = false
same_type deny grant = false
same_type deny deny = true

abbrev type_name : OverrideType → Text
type_name grant = lit "GRANT"
type_name deny = lit "DENY"

-- `effective.set(p.id, p)` on the values of a Map in insertion order
unfoldable pub map_set : PermissionEntity → List PermissionEntity → List PermissionEntity
map_set p [] = p ∷ []
map_set p (q ∷ qs) = if q.id == p.id then p ∷ qs else q ∷ map_set p qs

-- The loop over `allGranted`.
unfoldable pub effective_loop :
    List Text → List PermissionEntity → List PermissionEntity → List PermissionEntity
effective_loop denied effective [] = effective
effective_loop denied effective (p ∷ ps) =
    effective_loop denied (if has denied p.id then effective else map_set p effective) ps

module _ ⦃env : Env⦄ where
  abbrev emit_override_event : Text → Text → Text → Text → CreateOverrideDto → App Done
  emit_override_event user tenant actor action dto = do
    emit iam_audit (
        user_event permission_override_added tenant actor user (
          field "permission_id" (text dto.permission_id)
            (field "type" (text (type_name dto.override_type)) (field "action" (text action) end))))
    emit iam_permission_changed (permission_changed_event tenant user)

  abbrev change_override :
      Text
      → Text
      → Text
      → CreateOverrideDto
      → UserPermissionOverrideEntity
      → App UserPermissionOverrideEntity
  change_override user tenant actor dto existing = do
    let updated = record existing {
      override_type = dto.override_type;
      reason = some (text_or dto.reason []);
    }
    save overrides updated
    emit_override_event user tenant actor (lit "updated") dto
    pure updated

  abbrev put_override :
      Text
      → Text
      → Text
      → CreateOverrideDto
      → Option UserPermissionOverrideEntity
      → App UserPermissionOverrideEntity
  put_override user tenant actor dto (some existing) =
      if same_type existing.override_type dto.override_type
      then pure existing
      else change_override user tenant actor dto existing
  put_override user tenant actor dto none = do
    base ← fresh_base
    saved ← save overrides (record {
      owner = record { base = base; tenant_id = tenant };
      user_id = user;
      permission_id = dto.permission_id;
      override_type = dto.override_type;
      reason = some (text_or dto.reason []);
    })
    emit_override_event user tenant actor (lit "added") dto
    pure saved

  unfoldable pub add_override :
      Text → Text → CreateOverrideDto → Text → App UserPermissionOverrideEntity
  add_override user tenant dto actor = do
    permission ← find_one permissions (λ p. p.id == dto.permission_id)
    or_raise permission (not_found (plain "Permission not found"))
    existing ←
        find_one overrides
          (λ o. o.user_id == user && o.permission_id == dto.permission_id && o.tenant_id == tenant)
    put_override user tenant actor dto existing

  abbrev drop_override : Text → Text → Text → Option UserPermissionOverrideEntity → App Done
  drop_override user tenant actor none = pure tt
  drop_override user tenant actor (some o) = do
    remove overrides o
    emit iam_audit (
        user_event permission_override_removed tenant actor user
          (field "permission_id" (text o.permission_id) end))
    emit iam_permission_changed (permission_changed_event tenant user)

  unfoldable pub remove_override : Text → Text → Text → Text → App Done
  remove_override id user tenant actor = do
    o ← find_one overrides (λ o. o.id == id && o.user_id == user && o.tenant_id == tenant)
    drop_override user tenant actor o

  unfoldable pub get_overrides_for_user : Text → Text → App (List UserPermissionOverrideEntity)
  get_overrides_for_user user tenant =
      find overrides (λ o. o.user_id == user && o.tenant_id == tenant)

  -- The permissions of the roles: none are asked for if there is no role.
  unfoldable pub role_permissions_of : List Text → App (List PermissionEntity)
  role_permissions_of [] = pure []
  role_permissions_of (role ∷ roles) = do
    links ← gets (λ w. w.db.role_permissions)
    find permissions
        (λ p. any (λ rp. rp.permission_id == p.id && has (role ∷ roles) rp.role_id) links)

  -- `o.permission`, joined by the query: without a row, the loop below reads a field of null.
  unfoldable pub joined_permissions :
      List UserPermissionOverrideEntity → App (List PermissionEntity)
  joined_permissions [] = pure []
  joined_permissions (o ∷ os) = do
    found ← find_one permissions (λ p. p.id == o.permission_id)
    p ← or_raise found type_error
    ps ← joined_permissions os
    pure (p ∷ ps)

  unfoldable pub get_effective_permissions : Text → Text → App (List PermissionEntity)
  unfolding get_overrides_for_user
  get_effective_permissions user tenant = do
    active ← get_user_roles user tenant
    role_perms ← role_permissions_of (map (λ ur. ur.role_id) active)
    found ← get_overrides_for_user user tenant
    grants ← joined_permissions (select (λ o. is_grant o.override_type) found)
    let denied = map (λ o. o.permission_id) (select (λ o. not (is_grant o.override_type)) found)
    pure (effective_loop denied [] (role_perms ++ grants))
