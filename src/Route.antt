-- ===== src/Route.antt =====
-- How a request reaches a handler of a controller: the global guards of src/common/common.module.ts,
-- the guards of the controller, then the handler. A route's decorators are a record.
pub mod Laws
pub mod Outcomes
pub mod Profiles
pub mod Roles
pub mod Accounts
pub mod Tenants
pub mod Public
use generic_iam.Prelude.{Text, lit, Bool, true, false, Option, none, some, List}
use generic_iam.Constants.{IdentityType}
use generic_iam.Errors.{Result, ok, err, plain, bad_request, type_error}
use generic_iam.Env.{Env, JwtPayload}
use generic_iam.App.{App, raise, pure, ◌>>=◌, ◌>>◌}
use generic_iam.Guards.{Request, AclMetadata, permission_guard, acl_guard, identity_type_guard}
use generic_iam.Sdk.{jwt_auth_guard}

-- What the decorators of a handler and its class say. `guarded` routes have
-- `@UseGuards(IamPermissionGuard, IamAclGuard)`.
pub record Route : Type 0 where
  pub is_public : Bool
  pub identity_types : Option (List IdentityType)
  pub guarded : Bool
  pub permissions : Option (List Text)
  pub allow_self : Option Text
  pub acl : Option AclMetadata

-- A route without decorators.
abbrev pub plain_route : Route
plain_route = record {
  is_public = false;
  identity_types = none;
  guarded = false;
  permissions = none;
  allow_self = none;
  acl = none;
}

-- What Nest and TypeORM decide: which texts ParseUUIDPipe lets pass, and what a service answers that
-- is called with an undefined tenant, as a handler does for a super admin's claims.
pub record Nest : Type 1 where
  pub is_uuid : Text → Bool
  pub undefined_tenant : {A : Type 0} → App A

abbrev pub of_result : {A : Type 0} → Result A → App A
of_result r w = (r, w)

-- `@CurrentUser() user`, of which the handler reads a field.
abbrev pub current_user : {A : Type 0} → Request → (JwtPayload → App A) → App A
current_user r k = elim r.user [ none ↦ raise type_error | some u ↦ k u ]

module _ (nest : Nest) where
  -- `user.tenant_id as string`
  abbrev pub own_tenant : {A : Type 0} → JwtPayload → (Text → App A) → App A
  own_tenant u k = elim u.tenant_id [ none ↦ nest.undefined_tenant | some t ↦ k t ]

  abbrev parse_uuid : Bool → Text → App Text
  parse_uuid true t = pure t
  parse_uuid false t = raise (bad_request (plain "Validation failed (uuid is expected)"))

  -- `@Param(name, ParseUUIDPipe)`; every route that reads a parameter has it in its path.
  abbrev pub uuid_param : Text → Request → App Text
  uuid_param name r = elim (r.params name) [
    | none ↦ raise (bad_request (plain "Validation failed (uuid is expected)"))
    | some t ↦ parse_uuid (nest.is_uuid t) t
  ]

module _ ⦃env : Env⦄ where
  -- The guards of the controller, in the order of @UseGuards.
  abbrev pub class_guards : Route → Request → App Bool
  class_guards route r = elim route.guarded [
    | false ↦ pure true
    | true ↦
        (permission_guard route.is_public route.permissions route.allow_self r
          >> acl_guard route.acl r)
  ]

  -- JwtAuthGuard, IdentityTypeGuard, the guards of the controller, the handler.
  unfoldable pub serve : {A : Type 0} → Route → Request → (Request → App A) → App A
  serve route r handler = do
    user ← of_result (jwt_auth_guard env.verify route.is_public r)
    let request = record r { user = user }
    of_result (identity_type_guard route.identity_types request)
    class_guards route request
    handler request
