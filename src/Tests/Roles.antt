-- ===== src/Tests/Roles.antt =====
-- The theorems on roles, assignments, permissions of roles and ACL entries at concrete inputs.
use generic_iam.Prelude.{lit, ◌≡◌, refl, Bool, true, none, some, [], ◌∷◌, ◌==◌, any, first, select}
use generic_iam.Entities.{RoleEntity, UserRoleEntity, ResourceAclEntity}
use generic_iam.App.{World}
use generic_iam.Sample.{sample_env}
use generic_iam.Tests.Office.{value, office, own_role, assignment}
use generic_iam.Rbac.Role.{
  RoleUpdate, update_custom_role, delete_custom_role, find_one_for_tenant, assign,
}
use generic_iam.Rbac.Role.Laws.{update_custom_role-assigns}
use generic_iam.Rbac.Assignment.{AssignRoleDto, UpdateUserRolesDto, assign_to_user}

abbrev renaming : RoleUpdate
renaming = record {
  id = none;
  tenant_id = none;
  name = some (lit "boss");
  description = none;
  is_system = none;
}

abbrev renamed : RoleEntity
renamed = record own_role { name = lit "boss" }

abbrev taking_over : RoleUpdate
taking_over = record renaming { tenant_id = some (lit "other"); is_system = some true }

abbrev taken : RoleEntity
taken = record renamed { tenant_id = some (lit "other"); is_system = true }

abbrev after_deletion : World
after_deletion = (delete_custom_role (lit "q") (lit "t") (lit "x") office).1

abbrev named_clerk : RoleEntity → Bool
named_clerk r = r.name == lit "clerk"

abbrev clerk_forever : AssignRoleDto
clerk_forever = record { role_id = lit "r"; expires_at = none }

abbrev clerk_to_add : UpdateUserRolesDto
clerk_to_add = record { add = some (clerk_forever ∷ []); remove = none }

abbrev of_bob : UserRoleEntity
of_bob = value assignment (assign_to_user (lit "v") (lit "t") clerk_forever (lit "x") office).0

abbrev of_clerk : UserRoleEntity → Bool
of_clerk a = a.role_id == lit "r"

abbrev of_bob_entry : ResourceAclEntity → Bool
of_bob_entry a = a.user_id == lit "v"

update_custom_role-assigns_example :
    (taken.tenant_id ≡ some (lit "other")) × (taken.is_system ≡ true)
unfolding update_custom_role find_one_for_tenant assign first select any ◌==◌
update_custom_role-assigns_example =
    update_custom_role-assigns (lit "r") (lit "t") (lit "other") (lit "x") taking_over office taken
      refl refl refl
