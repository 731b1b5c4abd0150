-- ===== src/Rbac/Permission.antt =====
-- src/modules/rbac/permission.service.ts: which permissions a role holds.
pub mod Laws
use generic_iam.Prelude.{
  ℕ, Text, lit, Bool, true, false, ◌&&◌, ◌||◌, Option, none, some, List, [], ◌∷◌, ◌==◌, any, leb,
  eqb, if◌then◌else◌,
}
use generic_iam.Entities.{PermissionEntity, RolePermissionEntity}
use generic_iam.Constants.{
  iam_audit, iam_permission_changed, permission_changed, permission_added_to_role,
  permission_removed_from_role,
}
use generic_iam.Errors.{plain, bad_request}
use generic_iam.Env.{Env}
use generic_iam.Json.{Fields, text, field, end}
use generic_iam.App.{
  App, Done, World, BaseEvent, permissions, role_permissions, find_one, find, save, remove, emit,
  pure, gets, raise_if, for_each, fresh_base, ◌>>=◌, ◌>>◌,
}
use generic_iam.Rbac.Role.{find_one_for_tenant, role_event}
use generic_iam.Rbac.Assignment.{items}

pub record UpdateRolePermissionsDto : Type 0 where
  pub add : Option (List Text)
  pub remove : Option (List Text)

-- The regular expression for uuids, a test for each character.
abbrev is_digit : ℕ → Bool
is_digit c = leb b'0' c && leb c b'9'

abbrev is_hex : ℕ → Bool
is_hex c = is_digit c || (leb b'a' c && leb c b'f') || (leb b'A' c && leb c b'F')

abbrev is_version : ℕ → Bool
is_version c = leb b'1' c && leb c b'5'

abbrev is_variant : ℕ → Bool
is_variant c = eqb c b'8' || eqb c b'9' || eqb c b'a' || eqb c b'b' || eqb c b'A' || eqb c b'B'

abbrev is_dash : ℕ → Bool
is_dash c = eqb c b'-'

abbrev hex4 : List (ℕ → Bool) → List (ℕ → Bool)
hex4 rest = is_hex ∷ is_hex ∷ is_hex ∷ is_hex ∷ rest

abbrev hex3 : List (ℕ → Bool) → List (ℕ → Bool)
hex3 rest = is_hex ∷ is_hex ∷ is_hex ∷ rest

abbrev uuid_pattern : List (ℕ → Bool)
uuid_pattern = hex4 (
    hex4 (
      is_dash
      ∷ hex4 (
          is_dash
          ∷ is_version
          ∷ hex3 (is_dash ∷ is_variant ∷ hex3 (is_dash ∷ hex4 (hex4 (hex4 [])))))))

unfoldable pub matches : List (ℕ → Bool) → Text → Bool
matches [] [] = true
matches [] (c ∷ s) = false
matches (p ∷ ps) [] = false
matches (p ∷ ps) (c ∷ s) = p c && matches ps s

unfoldable pub is_uuid : Text → Bool
is_uuid = matches uuid_pattern

-- The condition of the query for one entry of the list: `isUuid ? { id } : { code: id }`.
unfoldable pub names : PermissionEntity → Text → Bool
names p id = if is_uuid id then p.id == id else p.code == id

module _ ⦃env : Env⦄ where
  unfoldable pub find_all_global : App (List PermissionEntity)
  find_all_global = find permissions (λ p. true)

  abbrev pub link : Text → PermissionEntity → RolePermissionEntity → Bool
  link role p rp = rp.role_id == role && rp.permission_id == p.id

  abbrev add_missing :
      Text → Text → Text → PermissionEntity → Option RolePermissionEntity → App Done
  add_missing role tenant actor p (some existing) = pure tt
  add_missing role tenant actor p none = do
    base ← fresh_base
    save role_permissions (record { base = base; role_id = role; permission_id = p.id })
    emit iam_audit (
        role_event permission_added_to_role tenant actor role
          (field "permission_id" (text p.id) end))

  -- One round of the loop that adds.
  unfoldable pub add_permission : Text → Text → Text → PermissionEntity → App Done
  add_permission role tenant actor p = do
    existing ← find_one role_permissions (link role p)
    add_missing role tenant actor p existing

  abbrev drop_existing :
      Text → Text → Text → PermissionEntity → Option RolePermissionEntity → App Done
  drop_existing role tenant actor p none = pure tt
  drop_existing role tenant actor p (some mapping) = do
    remove role_permissions mapping
    emit iam_audit (
        role_event permission_removed_from_role tenant actor role
          (field "permission_id" (text p.id) end))

  -- One round of the loop that removes.
  unfoldable pub remove_permission : Text → Text → Text → PermissionEntity → App Done
  remove_permission role tenant actor p = do
    mapping ← find_one role_permissions (link role p)
    drop_existing role tenant actor p mapping

  -- No query is made for an empty list.
  abbrev named : List Text → App (List PermissionEntity)
  named [] = pure []
  named (id ∷ ids) = find permissions (λ p. any (names p) (id ∷ ids))

  abbrev role_changed_event : Text → Text → Text → BaseEvent
  role_changed_event tenant actor role = record {
    event_type = permission_changed;
    tenant_id = some tenant;
    actor_id = some actor;
    resource_type = none;
    resource_id = none;
    user_id = none;
    payload = field "role_id" (text role) end;
  }

  unfoldable pub update_role_permissions : Text → Text → UpdateRolePermissionsDto → Text → App Done
  unfolding find_one_for_tenant
  update_role_permissions role_id tenant dto actor = do
    role ← find_one_for_tenant role_id tenant
    raise_if role.is_system (bad_request (plain "Cannot modify permissions of system roles"))
    added ← named (items dto.add)
    for_each added (add_permission role_id tenant actor)
    removed ← named (items dto.remove)
    for_each removed (remove_permission role_id tenant actor)
    emit iam_permission_changed (role_changed_event tenant actor role_id)
