-- ===== src/Sdk.antt =====
-- packages/iam-sdk/src: the client side. IamAuthzService asks the two caches and then the service;
-- the guards of the SDK ask IamAuthzService. Redis, as the SDK reads it, and HTTP are parameters.
pub mod Laws
use generic_iam.Prelude.{
  ℕ, Text, lit, Bool, true, false, ◌&&◌, ◌||◌, not, Option, none, some, List, [], ◌∷◌, ◌++◌, ◌==◌,
  truthy, text_or, is_empty, starts_with, all, if◌then◌else◌,
}
use generic_iam.Constants.{identity_name, super_admin}
use generic_iam.Errors.{Exception, Result, ok, err, plain, forbidden, unauthorized}
use generic_iam.Env.{JwtPayload, CacheValue, flag, perms}
use generic_iam.Matcher.{has_permission, split}
use generic_iam.Matcher.Laws.{head_part, tail_parts}
use generic_iam.Cache.{perms_key, authz_key}
use generic_iam.Authorization.{set_of}
use generic_iam.Guards.{Request, AclMetadata, is_super_admin, is_self, tenant_text}

-- A read of Redis: no entry, an entry, or an exception of the client or of the JSON parser.
pub data Read : Type 0 where
  absent : Read
  held : CacheValue → Read
  broken : Read

-- A reply of the service: its HTTP status is ok or not; in the body, `data.allowed` and `allowed` if
-- they are there.
pub data Reply : Type 0 where
  threw not_ok : Reply
  body : Option Bool → Option Bool → Reply

pub record Question : Type 0 where
  pub user_id : Text
  pub tenant_id : Text
  pub permission : Text
  pub resource_type : Option Text
  pub resource_id : Option Text

pub record Outside : Type 0 where
  pub read : Text → Read
  pub post : Question → Reply

abbrev is_yes : Option Bool → Bool
is_yes none = false
is_yes (some b) = b

-- `body.data?.allowed ?? body.allowed`
abbrev nullish : Option Bool → Option Bool → Option Bool
nullish none b = b
nullish (some a) b = some a

-- IamClientService.checkAuthorization: whatever goes wrong, the answer is no.
unfoldable pub allowed_by : Reply → Bool
allowed_by threw = false
allowed_by not_ok = false
allowed_by (body inner outer) = is_yes (nullish inner outer)

-- The end of the URL of the service: a slash is dropped, and `/api/v1` added once.
unfoldable pub ends_with : Text → Text → Bool
ends_with suffix [] = suffix == []
ends_with suffix (c ∷ cs) = suffix == (c ∷ cs) || ends_with suffix cs

unfoldable pub drop_slash : Text → Text
drop_slash [] = []
drop_slash (c ∷ cs) = if (c ∷ cs) == lit "/" then [] else c ∷ drop_slash cs

unfoldable pub base_url : Text → Text
base_url url = if ends_with (lit "/api/v1") url then url else drop_slash url ++ lit "/api/v1"

module _ (outside : Outside) where
  unfoldable pub check_authorization : Question → Bool
  unfolding allowed_by
  check_authorization q = allowed_by (outside.post q)

  -- `value === true`: a cached array is not.
  abbrev tier2_value : CacheValue → Bool
  tier2_value (flag b) = b
  tier2_value (perms l) = false

  -- Tier 3 asks the service.
  abbrev pub tier2 : Question → Read → Bool
  tier2 q (held v) = tier2_value v
  tier2 q absent = check_authorization q
  tier2 q broken = check_authorization q

  abbrev pub sdk_key : Question → Text
  sdk_key q =
      authz_key q.tenant_id q.user_id q.permission (text_or q.resource_type (lit "*"))
        (text_or q.resource_id (lit "*"))

  abbrev pub no_resource : Question → Bool
  no_resource q = not (truthy q.resource_type) || not (truthy q.resource_id)

  abbrev tier1 : Question → Bool → Bool
  tier1 q allowed = if allowed || no_resource q then allowed else tier2 q (outside.read (sdk_key q))

  -- A cached flag is no list: making a set of it throws, which falls through.
  abbrev on_perms : Question → Read → Bool
  on_perms q absent = tier2 q (outside.read (sdk_key q))
  on_perms q broken = tier2 q (outside.read (sdk_key q))
  on_perms q (held (flag b)) = tier2 q (outside.read (sdk_key q))
  on_perms q (held (perms l)) = tier1 q (has_permission (set_of l) q.permission)

  -- IamAuthzService.isAllowed
  unfoldable pub is_allowed : Question → Bool
  is_allowed q = on_perms q (outside.read (perms_key q.tenant_id q.user_id))

  abbrev pub permission_question : JwtPayload → Text → Question
  permission_question u p = record {
    user_id = u.sub;
    tenant_id = tenant_text u;
    permission = p;
    resource_type = none;
    resource_id = none;
  }

  abbrev authenticated : Option JwtPayload → (JwtPayload → Result Bool) → Result Bool
  authenticated none k = err (forbidden (plain "Authentication required"))
  authenticated (some u) k = k u

  -- The loop over the required permissions stops at the first that is refused.
  unfoldable pub require_each : JwtPayload → List Text → Result Bool
  require_each u [] = ok true
  require_each u (p ∷ ps) =
      if is_allowed (permission_question u p)
      then require_each u ps
      else err (forbidden (plain "Insufficient permissions"))

  abbrev require_permissions : Option Text → Request → List Text → JwtPayload → Result Bool
  require_permissions self_param r required u =
      if is_super_admin u
      then ok true
      else if is_self self_param r u
      then ok true
      else require_each u required

  -- PermissionGuard.canActivate
  unfoldable pub permission_guard : Option (List Text) → Option Text → Request → Result Bool
  permission_guard none self_param r = ok true
  permission_guard (some []) self_param r = ok true
  permission_guard (some (p ∷ ps)) self_param r =
      authenticated r.user (require_permissions self_param r (p ∷ ps))

  abbrev require_resource : AclMetadata → JwtPayload → Text → Result Bool
  require_resource meta u [] = err (forbidden (plain "Resource ID not found in request"))
  require_resource meta u (c ∷ cs) =
      if is_allowed (record {
        user_id = u.sub;
        tenant_id = tenant_text u;
        permission = meta.action;
        resource_type = some meta.resource;
        resource_id = some (c ∷ cs);
      })
      then ok true
      else err (forbidden (plain "Insufficient resource ACL"))

  -- AclGuard.canActivate
  unfoldable pub acl_guard : Option AclMetadata → Request → Result Bool
  acl_guard none r = ok true
  acl_guard (some meta) r = authenticated r.user (λ u.
      if is_super_admin u
      then ok true
      else require_resource meta u (text_or (r.params (text_or meta.param_key (lit "id"))) []))

-- JwtAuthGuard.canActivate; `verify` is the JWT library's, without a result if it throws. The user
-- of the request is what comes back.
abbrev verified : Option JwtPayload → Result (Option JwtPayload)
verified none = err (unauthorized (plain "Invalid token"))
verified (some p) =
    if is_empty p.sub then err (unauthorized (plain "Invalid token")) else ok (some p)

abbrev pub bearer : Option Text → Text
bearer none = []
bearer (some t) = t

unfoldable pub jwt_auth_guard :
    (Text → Option JwtPayload) → Bool → Request → Result (Option JwtPayload)
jwt_auth_guard verify true r = ok r.user
jwt_auth_guard verify false r =
    if starts_with (lit "Bearer ") (bearer r.authorization)
    then verified (verify (head_part (tail_parts (split b' ' (bearer r.authorization)))))
    else err (unauthorized (plain "Missing or invalid authorization header"))
