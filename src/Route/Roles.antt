-- ===== src/Route/Roles.antt =====
-- src/modules/rbac/role.controller.ts, assignment.controller.ts and permission.controller.ts: the
-- routes on roles, on the roles and overrides of a user, and on the permissions of a role. `Done` is
-- the answer `{ success: true }`.
use generic_iam.Prelude.{ℕ, Text, lit, Option, none, some, List, [], ◌∷◌, true}
use generic_iam.Entities.{
  RoleEntity, UserRoleEntity, PermissionEntity, UserPermissionOverrideEntity,
}
use generic_iam.Permissions.{role_read, role_write, role_assign}
use generic_iam.Env.{Env}
use generic_iam.App.{App, Done, ◌>>=◌}
use generic_iam.Guards.{Request}
use generic_iam.Rbac.Role.{
  CreateRoleDto, RoleUpdate, Paginated, create_custom_role, find_all_for_tenant,
  find_one_for_tenant, update_custom_role, delete_custom_role,
}
use generic_iam.Rbac.Assignment
use generic_iam.Rbac.Assignment.{UpdateUserRolesDto}
use generic_iam.Rbac.Override
use generic_iam.Rbac.Override.{CreateOverrideDto}
use generic_iam.Rbac.Permission.{UpdateRolePermissionsDto, find_all_global, update_role_permissions}
use generic_iam.Route.{Route, Nest, plain_route, serve, current_user, own_tenant, uuid_param}

-- A guarded route that demands one permission.
abbrev pub demanding : Text → Route
demanding p = record plain_route { guarded = true; permissions = some (p ∷ []) }

-- The same, for a user who is not the one the route is about.
abbrev pub demanding_of_others : Text → Route
demanding_of_others p = record (demanding p) { allow_self = some (lit "userId") }

-- `page ? parseInt(page, 10) : undefined`, with the default of the service; what parseInt makes of
-- the text is the argument.
abbrev number_or : Option ℕ → ℕ → ℕ
number_or none d = d
number_or (some n) d = n

module _ ⦃env : Env⦄ (nest : Nest) where
  unfoldable pub create_role : Request → CreateRoleDto → App RoleEntity
  unfolding serve
  create_role r dto =
      serve (demanding role_write) r
        (λ q. current_user q (λ u. own_tenant nest u (λ t. create_custom_role t dto u.sub)))

  unfoldable pub get_roles : Request → Option ℕ → Option ℕ → App (Paginated RoleEntity)
  unfolding serve
  get_roles r page limit = serve (demanding role_read) r (λ q.
      current_user q (λ u.
        own_tenant nest u (λ t. find_all_for_tenant t (number_or page 1) (number_or limit 20))))

  unfoldable pub get_role : Request → App RoleEntity
  unfolding serve
  get_role r = serve (demanding role_read) r (λ q. do
    id ← uuid_param nest (lit "id") q
    current_user q (λ u. own_tenant nest u (λ t. find_one_for_tenant id t)))

  unfoldable pub update_role : Request → RoleUpdate → App RoleEntity
  unfolding serve
  update_role r dto = serve (demanding role_write) r (λ q. do
    id ← uuid_param nest (lit "id") q
    current_user q (λ u. own_tenant nest u (λ t. update_custom_role id t dto u.sub)))

  unfoldable pub delete_role : Request → App Done
  unfolding serve
  delete_role r = serve (demanding role_write) r (λ q. do
    id ← uuid_param nest (lit "id") q
    current_user q (λ u. own_tenant nest u (λ t. delete_custom_role id t u.sub)))

  abbrev pub update_user_roles_handler : UpdateUserRolesDto → Request → App Done
  update_user_roles_handler dto q = do
    target ← uuid_param nest (lit "userId") q
    current_user q (λ u. own_tenant nest u (λ t. Assignment.update_user_roles target t dto u.sub))

  unfoldable pub update_user_roles : Request → UpdateUserRolesDto → App Done
  unfolding serve
  update_user_roles r dto = serve (demanding role_assign) r (update_user_roles_handler dto)

  unfoldable pub get_user_roles : Request → App (List UserRoleEntity)
  unfolding serve
  get_user_roles r = serve (demanding_of_others role_read) r (λ q. do
    target ← uuid_param nest (lit "userId") q
    current_user q (λ u. own_tenant nest u (λ t. Assignment.get_user_roles target t)))

  unfoldable pub add_override : Request → CreateOverrideDto → App UserPermissionOverrideEntity
  unfolding serve
  add_override r dto = serve (demanding role_assign) r (λ q. do
    target ← uuid_param nest (lit "userId") q
    current_user q (λ u. own_tenant nest u (λ t. Override.add_override target t dto u.sub)))

  unfoldable pub get_overrides : Request → App (List UserPermissionOverrideEntity)
  unfolding serve
  get_overrides r = serve (demanding_of_others role_read) r (λ q. do
    target ← uuid_param nest (lit "userId") q
    current_user q (λ u. own_tenant nest u (λ t. Override.get_overrides_for_user target t)))

  unfoldable pub remove_override : Request → App Done
  unfolding serve
  remove_override r = serve (demanding role_assign) r (λ q. do
    target ← uuid_param nest (lit "userId") q
    id ← uuid_param nest (lit "overrideId") q
    current_user q (λ u. own_tenant nest u (λ t. Override.remove_override id target t u.sub)))

  unfoldable pub get_effective_permissions : Request → App (List PermissionEntity)
  unfolding serve
  get_effective_permissions r = serve (demanding_of_others role_read) r (λ q. do
    target ← uuid_param nest (lit "userId") q
    current_user q (λ u. own_tenant nest u (λ t. Override.get_effective_permissions target t)))

  unfoldable pub get_system_permissions : Request → App (List PermissionEntity)
  unfolding serve
  get_system_permissions r = serve (demanding role_read) r (λ q. find_all_global)

  unfoldable pub assign_permissions : Request → UpdateRolePermissionsDto → App Done
  unfolding serve
  assign_permissions r dto = serve (demanding role_write) r (λ q. do
    id ← uuid_param nest (lit "id") q
    current_user q (λ u. own_tenant nest u (λ t. update_role_permissions id t dto u.sub)))
