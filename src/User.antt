-- ===== src/User.antt =====
-- src/modules/user/user.service.ts: the users of a tenant, and the reporting hierarchy.
pub mod Laws
pub mod Hierarchy
use generic_iam.Prelude.{
  ℕ, zero, suc, Text, Bool, true, false, ◌&&◌, not, Option, none, some, List, [], ◌∷◌, ◌++◌, ◌==◌,
  is_some, truthy, text_or, same_text, select, any, map, if◌then◌else◌, lit,
}
use generic_iam.Entities.{UserEntity, RoleEntity}
use generic_iam.Constants.{
  iam_audit, iam_user_changed, user_created, user_updated, user_activated, user_deactivated, member,
  role_name, AuditEventType,
}
use generic_iam.Errors.{plain, bad_request}
use generic_iam.Env.{Env}
use generic_iam.Json.{Fields, text, field, object, end, optional, optional_flag}
use generic_iam.App.{
  App, Done, World, BaseEvent, users, refresh_tokens, find_one, save, delete, emit, pure, raise_if,
  when, fresh_base, gets, ◌>>=◌, ◌>>◌,
}
use generic_iam.Base
use generic_iam.Auth.{hash_password}
use generic_iam.Rbac.Role.{find_one_by_name}
use generic_iam.Rbac.Assignment.{AssignRoleDto, assign_to_user, user_event}

pub record CreateUserDto : Type 0 where
  pub email : Text
  pub password : Text
  pub first_name : Text
  pub last_name : Text
  pub manager_id : Option Text
  pub role_id : Option Text

-- `UpdateUserDto`: all of `CreateUserDto` but the password, and `is_active`. `role_id` is assigned to
-- no column.
pub record UpdateUserDto : Type 0 where
  pub email : Option Text
  pub first_name : Option Text
  pub last_name : Option Text
  pub manager_id : Option Text
  pub role_id : Option Text
  pub is_active : Option Bool

abbrev given : {A : Type 0} → Option A → A → A
given none old = old
given (some a) old = a

abbrev given_some : {A : Type 0} → Option A → Option A → Option A
given_some none old = old
given_some (some a) old = some a

-- `Object.assign(user, dto)`
unfoldable pub assign : UserEntity → UpdateUserDto → UserEntity
assign u dto = record u {
  email = given dto.email u.email;
  first_name = given dto.first_name u.first_name;
  last_name = given dto.last_name u.last_name;
  is_active = given dto.is_active u.is_active;
  manager_id = given_some dto.manager_id u.manager_id;
}

abbrev update_fields : UpdateUserDto → Fields
update_fields dto = optional "email" dto.email (
    optional "first_name" dto.first_name (
      optional "last_name" dto.last_name (
        optional "manager_id" dto.manager_id
          (optional "role_id" dto.role_id (optional_flag "is_active" dto.is_active end)))))

abbrev activation_type : Bool → AuditEventType
activation_type true = user_activated
activation_type false = user_deactivated

-- The message that makes the consumers drop what they cached for the user.
abbrev user_changed_event : AuditEventType → Text → Text → BaseEvent
user_changed_event type tenant id = record {
  event_type = type;
  tenant_id = some tenant;
  actor_id = none;
  resource_type = none;
  resource_id = none;
  user_id = some id;
  payload = end;
}

module _ ⦃env : Env⦄ where
  -- The role of the request, or the default role if there is one.
  abbrev role_to_assign : Option Text → App (Option Text)
  role_to_assign none = default_role
    where
      id_of : Option RoleEntity → Option Text
      id_of none = none
      id_of (some r) = some r.id

      default_role : App (Option Text)
      default_role = do found ← find_one_by_name (role_name member) none; pure (id_of found)
  role_to_assign (some id) = pure (some id)

  abbrev assign_role : Text → Text → Text → Option Text → App Done
  assign_role user tenant actor none = pure tt
  assign_role user tenant actor (some role) = do
    assign_to_user user tenant (record { role_id = role; expires_at = none }) actor
    pure tt

  unfoldable pub create_user : Text → CreateUserDto → Text → App UserEntity
  create_user tenant dto actor = do
    existing ← find_one users (λ u. u.tenant_id == tenant && u.email == dto.email)
    raise_if (is_some existing) (bad_request (plain "User with email already exists in tenant"))
    hashed ← hash_password dto.password
    base ← fresh_base
    saved ← save users (record {
      owner = record { base = base; tenant_id = tenant };
      email = dto.email;
      password_hash = hashed;
      first_name = dto.first_name;
      last_name = dto.last_name;
      is_active = true;
      manager_id = dto.manager_id;
    })
    role ← role_to_assign dto.role_id
    assign_role saved.id tenant actor role
    emit iam_audit (
        user_event user_created tenant actor saved.id
          (field "email" (text saved.email) (optional "assigned_role_id" role end)))
    pure saved

  unfoldable pub update_user : Text → UpdateUserDto → Text → Text → App UserEntity
  unfolding Base.find_one assign
  update_user id dto tenant actor = do
    user ← Base.find_one users (λ u. u.id == id)
    raise_if (not (user.tenant_id == tenant)) (bad_request (plain "Invalid tenant"))
    updated ← save users (assign user dto)
    emit iam_audit
        (user_event user_updated tenant actor id (field "updates" (object (update_fields dto)) end))
    pure updated

  unfoldable pub set_activation : Text → Text → Bool → Text → App Done
  unfolding Base.find_one
  set_activation id tenant active actor = do
    user ← Base.find_one users (λ u. u.id == id)
    raise_if (not (user.tenant_id == tenant)) (bad_request (plain "Invalid tenant"))
    save users (record user { is_active = active })
    when (not active) (delete refresh_tokens (λ t. t.user_id == id))
    emit iam_user_changed (user_changed_event (activation_type active) tenant id)
    emit iam_audit (user_event (activation_type active) tenant actor id end)

-- The recursive query of getHierarchy: the rows of a level are the users of the tenant whose
-- manager is among the rows of the level above, once for each such row (UNION ALL).
unfoldable pub subordinates_of : List UserEntity → Text → UserEntity → List UserEntity
subordinates_of table tenant s =
    select (λ u. same_text u.manager_id (some s.id) && u.tenant_id == tenant) table

unfoldable pub next_level : List UserEntity → Text → List UserEntity → List UserEntity
next_level table tenant [] = []
next_level table tenant (s ∷ ss) = subordinates_of table tenant s ++ next_level table tenant ss

unfoldable pub level : List UserEntity → Text → Text → ℕ → List UserEntity
level table tenant user zero = select (λ u. u.id == user && u.tenant_id == tenant) table
level table tenant user (suc n) = next_level table tenant (level table tenant user n)
