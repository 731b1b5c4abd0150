-- ===== src/Authorization.antt =====
-- src/modules/authorization/authorization.service.ts: may a user do this? First the cached
-- decision, then the cached set of permissions, then the database, and last the ACL.
pub mod Plain
pub mod Laws
pub mod Coherence
pub mod Collision
use mathlib.Core.List.{foldl}
use generic_iam.Prelude.{
  ℕ, Text, lit, Bool, true, false, ◌&&◌, not, Option, none, some, List, [], ◌∷◌, map, truthy,
  text_or, if◌then◌else◌,
}
use generic_iam.Env.{Env, CacheValue, flag}
use generic_iam.App.{App, Done, World, pure, gets, ◌>>=◌, ◌>>◌}
use generic_iam.Matcher.{has_permission, set_add}
use generic_iam.Cache.{authz_key, get, set, get_permissions, set_permissions}
use generic_iam.Rbac.Override.{get_effective_permissions}
use generic_iam.Acl
use generic_iam.Acl.{is_true}

pub record CheckAuthzDto : Type 0 where
  pub user_id : Text
  pub tenant_id : Text
  pub permission : Text
  pub resource_type : Option Text
  pub resource_id : Option Text

pub data Source : Type 0 where
  cache rbac acl none_of_them : Source

pub record AuthzDecision : Type 0 where
  pub allowed : Bool
  pub source : Source
  pub evaluated_at : ℕ

unfoldable pub decision_key : CheckAuthzDto → Text
decision_key dto =
    authz_key dto.tenant_id dto.user_id dto.permission (text_or dto.resource_type (lit "*"))
      (text_or dto.resource_id (lit "*"))

-- `new Set(codes)`
unfoldable pub set_of : List Text → List Text
set_of codes = foldl set_add [] codes

abbrev given_resource : CheckAuthzDto → Bool
given_resource dto = truthy dto.resource_type && truthy dto.resource_id

abbrev pub acl_dto : CheckAuthzDto → Acl.CreateAclDto
acl_dto dto = record {
  user_id = dto.user_id;
  resource_type = text_or dto.resource_type [];
  resource_id = text_or dto.resource_id [];
  permission = dto.permission;
}

module _ ⦃env : Env⦄ where
  abbrev hydrate : CheckAuthzDto → Option (List Text) → App (List Text)
  hydrate dto (some codes) = pure codes
  hydrate dto none = do
    effective ← get_effective_permissions dto.user_id dto.tenant_id
    let codes = set_of (map (λ p. p.code) effective)
    set_permissions dto.tenant_id dto.user_id codes
    pure codes

  -- The set of permissions, from the cache or from the database.
  unfoldable pub effective_set : CheckAuthzDto → App (List Text)
  effective_set dto = do cached ← get_permissions dto.tenant_id dto.user_id; hydrate dto cached

  -- The ACL is asked only if the permissions deny and a resource is given.
  abbrev ask_acl : CheckAuthzDto → Bool → App (Bool × Source)
  ask_acl dto false = pure (false, rbac)
  ask_acl dto true = do r ← Acl.check dto.tenant_id (acl_dto dto); pure (r.allowed, acl)

  abbrev pub or_acl : CheckAuthzDto → Bool → App (Bool × Source)
  or_acl dto true = pure (true, rbac)
  or_acl dto false = ask_acl dto (given_resource dto)

  -- The decision when none is cached, and the writing of it.
  unfoldable pub decide : CheckAuthzDto → App (Bool × Source)
  decide dto = do
    codes ← effective_set dto
    d ← or_acl dto (has_permission codes dto.permission)
    set (decision_key dto) (flag d.0) (some 300)
    pure d

  abbrev check_cached : CheckAuthzDto → ℕ → Option CacheValue → App AuthzDecision
  check_cached dto now (some v) =
      pure (record { allowed = is_true v; source = cache; evaluated_at = now })
  check_cached dto now none = do
    d ← decide dto
    pure (record { allowed = d.0; source = if d.0 then d.1 else none_of_them; evaluated_at = now })

  unfoldable pub check : CheckAuthzDto → App AuthzDecision
  check dto = do
    now ← gets (λ w. w.now)
    cached ← get (decision_key dto)
    check_cached dto now cached

  -- `Promise.all`, taken one after the other
  unfoldable pub check_batch : List CheckAuthzDto → App (List AuthzDecision)
  check_batch [] = pure []
  check_batch (dto ∷ dtos) = do d ← check dto; ds ← check_batch dtos; pure (d ∷ ds)
