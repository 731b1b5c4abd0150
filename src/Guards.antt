-- ===== src/Guards.antt =====
-- The guards: src/common/guards of the service, and packages/iam-sdk/src/guards. What the
-- decorators of a route say is an argument; a guard returns `true` or throws.
pub mod Laws
use generic_iam.Prelude.{
  ℕ, Text, lit, Bool, true, false, ◌&&◌, ◌||◌, not, Option, none, some, List, [], ◌∷◌, ◌==◌, truthy,
  text_or, any, all, map, is_empty, starts_with, if◌then◌else◌, is_some, has,
}
use generic_iam.Constants.{IdentityType, user, super_admin, impersonation, identity_name}
use generic_iam.Errors.{Exception, Result, ok, err, plain, about, forbidden, unauthorized}
use generic_iam.Env.{Env, JwtPayload}
use generic_iam.App.{App, Done, pure, raise, raise_if, ◌>>=◌, ◌>>◌}
use generic_iam.Authorization.{CheckAuthzDto, AuthzDecision, check, check_batch}

-- What a guard reads of a request.
pub record Request : Type 0 where
  pub user : Option JwtPayload
  pub params : Text → Option Text
  pub authorization : Option Text

pub record AclMetadata : Type 0 where
  pub resource : Text
  pub action : Text
  pub param_key : Option Text

abbrev pub is_super_admin : JwtPayload → Bool
is_super_admin u = u.identity_type == identity_name super_admin

-- The route lets a user act on the user itself: `selfParam` names the parameter with the id.
abbrev pub is_self : Option Text → Request → JwtPayload → Bool
is_self none r u = false
is_self (some []) r u = false
is_self (some (c ∷ cs)) r u = truthy (r.params (c ∷ cs)) && text_or (r.params (c ∷ cs)) [] == u.sub

abbrev required_of : Option (List Text) → List Text
required_of none = []
required_of (some l) = l

-- The tokens that the service signs for users name their tenant; the guard of the SDK does not check
-- it. For claims without one the code goes on with `undefined`, here with the empty text.
abbrev pub tenant_text : JwtPayload → Text
tenant_text u = text_or u.tenant_id []

abbrev pub permission_dto : JwtPayload → Text → CheckAuthzDto
permission_dto u p = record {
  user_id = u.sub;
  tenant_id = tenant_text u;
  permission = p;
  resource_type = none;
  resource_id = none;
}

abbrev pub resource_dto : JwtPayload → AclMetadata → Text → CheckAuthzDto
resource_dto u meta id = record {
  user_id = u.sub;
  tenant_id = tenant_text u;
  permission = meta.action;
  resource_type = some meta.resource;
  resource_id = some id;
}

module _ ⦃env : Env⦄ where
  abbrev check_required : JwtPayload → List Text → App Bool
  check_required u required = do
    results ← check_batch (map (permission_dto u) required)
    raise_if (not (all (λ r. r.allowed) results)) (forbidden (plain "Insufficient permissions"))
    pure true

  abbrev require_permissions : Option Text → Request → List Text → JwtPayload → App Bool
  require_permissions self_param r required u =
      if is_super_admin u
      then pure true
      else if is_self self_param r u
      then pure true
      else check_required u required

  abbrev authenticated : {A : Type 0} → Option JwtPayload → (JwtPayload → App A) → App A
  authenticated none k = raise (forbidden (plain "Authentication required"))
  authenticated (some u) k = k u

  abbrev with_required : Option Text → Request → List Text → App Bool
  with_required self_param r [] = pure true
  with_required self_param r (p ∷ ps) =
      authenticated r.user (require_permissions self_param r (p ∷ ps))

  -- IamPermissionGuard.canActivate
  unfoldable pub permission_guard : Bool → Option (List Text) → Option Text → Request → App Bool
  permission_guard true required self_param r = pure true
  permission_guard false required self_param r = with_required self_param r (required_of required)

  abbrev check_resource : JwtPayload → AclMetadata → Text → App Bool
  check_resource u meta [] = raise (forbidden (plain "Resource ID not found in request"))
  check_resource u meta (c ∷ cs) = do
    result ← check (resource_dto u meta (c ∷ cs))
    raise_if (not result.allowed) (forbidden (plain "Insufficient resource ACL"))
    pure true

  abbrev require_resource : Request → AclMetadata → JwtPayload → App Bool
  require_resource r meta u =
      if is_super_admin u
      then pure true
      else check_resource u meta (text_or (r.params (text_or meta.param_key (lit "id"))) [])

  -- IamAclGuard.canActivate
  unfoldable pub acl_guard : Option AclMetadata → Request → App Bool
  acl_guard none r = pure true
  acl_guard (some meta) r = authenticated r.user (require_resource r meta)

abbrev pub allowed_type : List IdentityType → Text → Bool
allowed_type types t = any (λ i. identity_name i == t) types

abbrev identified : List IdentityType → Option JwtPayload → Result Bool
identified types none = err (forbidden (plain "No identity type found"))
identified types (some u) =
    if is_empty u.identity_type
    then err (forbidden (plain "No identity type found"))
    else if allowed_type types u.identity_type
    then ok true
    else err (forbidden (about "Identity type " u.identity_type " not allowed"))

-- IdentityTypeGuard.canActivate
unfoldable pub identity_type_guard : Option (List IdentityType) → Request → Result Bool
identity_type_guard none r = ok true
identity_type_guard (some []) r = ok true
identity_type_guard (some (t ∷ ts)) r = identified (t ∷ ts) r.user
