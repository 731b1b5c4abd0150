-- ===== src/Route/Accounts.antt =====
-- src/modules/user/user.controller.ts. `Done` is the answer `{ success: true }`.
use generic_iam.Prelude.{
  ℕ, Text, lit, Bool, true, not, Option, none, some, List, [], ◌∷◌, map, ◌==◌, same_text,
  if◌then◌else◌,
}
use generic_iam.Entities.{UserEntity}
use generic_iam.Constants.{IdentityType, user, super_admin}
use generic_iam.Permissions.{user_read, user_write}
use generic_iam.Errors.{Message, plain, forbidden, not_found}
use generic_iam.Env.{Env, JwtPayload}
use generic_iam.App.{App, Done, users, pure, gets, raise_if, ◌>>=◌, ◌>>◌}
use generic_iam.Guards.{Request, tenant_text}
use generic_iam.Authorization.{CheckAuthzDto, check}
use generic_iam.Rbac.Role.{Paginated}
use generic_iam.Base
use generic_iam.User.{CreateUserDto, UpdateUserDto, create_user, update_user, set_activation, level}
use generic_iam.Route.{Route, Nest, plain_route, serve, current_user, own_tenant, uuid_param}

-- UserResponseDto: a user without the hash of the password; `updated_at` is left out.
pub record UserResponseDto : Type 0 where
  pub id : Text
  pub tenant_id : Text
  pub email : Text
  pub first_name : Text
  pub last_name : Text
  pub is_active : Bool
  pub manager_id : Option Text
  pub created_at : ℕ

abbrev pub response : UserEntity → UserResponseDto
response u = record {
  id = u.id;
  tenant_id = u.tenant_id;
  email = u.email;
  first_name = u.first_name;
  last_name = u.last_name;
  is_active = u.is_active;
  manager_id = u.manager_id;
  created_at = u.created_at;
}

abbrev pub guarded_for : List IdentityType → Option (List Text) → Route
guarded_for types permissions = record plain_route {
  identity_types = some types;
  guarded = true;
  permissions = permissions;
}

-- The routes of UserController.
abbrev pub user_route : Option (List Text) → Route
user_route = guarded_for (user ∷ super_admin ∷ [])

abbrev permission_of : Text → Text → Text → CheckAuthzDto
permission_of subject tenant p = record {
  user_id = subject;
  tenant_id = tenant;
  permission = p;
  resource_type = none;
  resource_id = none;
}

module _ ⦃env : Env⦄ where
  unfoldable pub find_all_handler : ℕ → ℕ → Request → App (Paginated UserResponseDto)
  unfolding Base.find_paginated
  find_all_handler page limit q = do
    result ← Base.find_paginated users (λ u. true) page limit
    pure (record {
      items = map response result.items;
      total = result.total;
      page = page;
      limit = limit;
    })

module _ ⦃env : Env⦄ (nest : Nest) where
  unfoldable pub create : Request → CreateUserDto → App UserResponseDto
  unfolding serve
  create r dto = serve (user_route (some (user_write ∷ []))) r (λ q.
      current_user q
        (λ u. do created ← create_user (tenant_text u) dto u.sub; pure (response created)))

  -- findAll: no condition on the tenant is made here.
  unfoldable pub find_all : Request → ℕ → ℕ → App (Paginated UserResponseDto)
  unfolding serve find_all_handler
  find_all r page limit = serve (user_route (some (user_read ∷ []))) r (find_all_handler page limit)

  -- `if (user.sub !== id)`: another user's record needs the permission.
  abbrev pub unless_self : JwtPayload → Text → Text → Message → App Done
  unless_self u id p refusal =
      if u.sub == id
      then pure tt
      else own_tenant nest u (λ t. do
        authz ← check (permission_of u.sub t p)
        raise_if (not authz.allowed) (forbidden refusal))

  abbrev find_user : Text → JwtPayload → App UserResponseDto
  find_user id u = do
    unless_self u id user_read (plain "Insufficient permissions")
    target ← Base.find_one users (λ r. r.id == id)
    raise_if (not (same_text (some target.tenant_id) u.tenant_id)) (not_found (plain "Not found"))
    pure (response target)

  abbrev pub find_one_handler : Request → App UserResponseDto
  find_one_handler q = do id ← uuid_param nest (lit "id") q; current_user q (find_user id)

  unfoldable pub find_one : Request → App UserResponseDto
  unfolding serve Base.find_one
  find_one r = serve (user_route none) r find_one_handler

  abbrev pub update_handler : UpdateUserDto → Request → App UserResponseDto
  update_handler dto q = do
    id ← uuid_param nest (lit "id") q
    current_user q (λ u. do
      unless_self u id user_write (plain "Insufficient permissions to update other users")
      updated ← update_user id dto (tenant_text u) u.sub
      pure (response updated))

  unfoldable pub update : Request → UpdateUserDto → App UserResponseDto
  unfolding serve
  update r dto = serve (user_route none) r (update_handler dto)

  unfoldable pub update_status : Request → Bool → App Done
  unfolding serve
  update_status r active = serve (user_route (some (user_write ∷ []))) r (λ q. do
    id ← uuid_param nest (lit "id") q
    current_user q (λ u. set_activation id (tenant_text u) active u.sub))

  -- getHierarchy: the rows of each level.
  unfoldable pub get_hierarchy : Request → App (ℕ → List UserEntity)
  unfolding serve
  get_hierarchy r = serve (user_route (some (user_read ∷ []))) r (λ q. do
    id ← uuid_param nest (lit "id") q
    current_user q (λ u. gets (λ w. level w.db.users (tenant_text u) id)))
