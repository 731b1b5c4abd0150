-- ===== src/Guards/Laws.antt =====
-- Whom the guards of src/common/guards let through, in terms of the tables: the decorators' demands
-- against the permissions in effect and the ACL.
use generic_iam.Prelude.{
  Text, lit, ◌≡◌, refl, ap, Bool, true, false, ◌&&◌, ◌||◌, not, Option, none, some, List, [], ◌∷◌,
  any, all, map, arith, text_or, is_empty, if◌then◌else◌, ◌==◌, ◌↔◌,
}
use generic_iam.Constants.{IdentityType}
use generic_iam.Entities.{PermissionEntity}
use generic_iam.Errors.{Result, ok, err, plain, forbidden}
use generic_iam.Env.{Env, CacheStore, JwtPayload}
use generic_iam.App.{World}
use generic_iam.Matcher.{has_permission}
use generic_iam.Cache.Keys.{NoColon}
use generic_iam.Rbac.Override.Reads.{effective_in}
use generic_iam.Acl.{same_entry}
use generic_iam.Authorization.{AuthzDecision, check_batch, acl_dto}
use generic_iam.Authorization.Coherence.{IsCoherent, codes_of}
use generic_iam.Authorization.Plain.{IsPlain, Coherent}
use generic_iam.Authorization.Laws.{check_lem}
use generic_iam.Guards.{
  Request, AclMetadata, permission_guard, acl_guard, identity_type_guard, is_super_admin, is_self,
  permission_dto, resource_dto, tenant_text, allowed_type,
}

-- The claims and the permissions that are asked for hold no colon.
pub record ArePlain (u : JwtPayload) : Type 0 where
  pub tenant : NoColon (tenant_text u)
  pub user : NoColon u.sub

pub permission_dto-IsPlain :
    (u : JwtPayload) (p : Text) → ArePlain u → NoColon p → IsPlain (permission_dto u p)
unfolding any ◌==◌
permission_dto-IsPlain u p a h = record {
  tenant = a.tenant;
  user = a.user;
  permission = h;
  type = refl;
  id = refl;
  type_given = refl;
  id_given = refl;
}

abbrev pub AllPlain : List Text → Type 0
AllPlain [] = Unit {0}
AllPlain (p ∷ ps) = NoColon p × AllPlain ps

module _ ⦃env : Env⦄ (u : JwtPayload) (ps : List PermissionEntity) (a : ArePlain u) where
  abbrev pub grants : Text → Bool
  grants p = has_permission (codes_of ps) p

  -- The checks of a batch answer one by one, on the cache that the ones before left.
  check_batch_lem :
      (required : List Text) (w : World)
      → Coherent w
      → effective_in w.db w.now u.sub (tenant_text u) ≡ ok ps
      → AllPlain required
      → (ds : List AuthzDecision) × (c : CacheStore) × (check_batch
            (map (permission_dto u) required)
            w
          ≡ (ok ds, record w { cache = c }))
        × (all (λ d. d.allowed) ds ≡ all grants required)
        × IsCoherent w.db w.now c
  unfolding check_batch all
  check_batch_lem [] w h e g = ([], w.cache, refl, refl, h)
  check_batch_lem (p ∷ required) w h e g =
      let (d, c, s, b, hc) =
        check_lem (permission_dto u p) w ps h e (permission_dto-IsPlain u p a g.0) in
      let (ds, c', s', b', hc') = check_batch_lem required (record w { cache = c }) hc e g.1 in
      (d ∷ ds, c', ground (arith, s, s'), ground (arith, b, b'), hc')

  abbrev pub verdict : List Text → Result Bool
  verdict required =
      if all grants required then ok true else err (forbidden (plain "Insufficient permissions"))

  -- The permission guard for such a user leaves a cache that agrees with the tables, and nothing
  -- else is changed, whether the request passes or not.
  pub permission_guard_world :
      (p : Text) (required : List Text) (self_param : Option Text) (r : Request) (w : World)
      → r.user ≡ some u
      → is_super_admin u ≡ false
      → is_self self_param r u ≡ false
      → Coherent w
      → effective_in w.db w.now u.sub (tenant_text u) ≡ ok ps
      → AllPlain (p ∷ required)
      → (c : CacheStore) × (permission_guard false (some (p ∷ required)) self_param r w
          ≡ (verdict (p ∷ required), record w { cache = c }))
        × IsCoherent w.db w.now c
  unfolding permission_guard
  permission_guard_world p required self_param r w su ns nm h e g =
      let (ds, c, s, b, hc) = check_batch_lem (p ∷ required) w h e g in
      (c, ground (arith, s, b), hc)

  -- The permission guard, for a user who is no super admin and not the one the route is about:
  -- with a cache that agrees with the tables, effective permissions `ps` that can be computed, and
  -- no colon in the ids of the claims and in the permissions, it lets the request through exactly
  -- if `ps` covers each permission that the route demands, and else refuses it.
  pub permission_guard_lem :
      (p : Text) (required : List Text) (self_param : Option Text) (r : Request) (w : World)
      → r.user ≡ some u
      → is_super_admin u ≡ false
      → is_self self_param r u ≡ false
      → Coherent w
      → effective_in w.db w.now u.sub (tenant_text u) ≡ ok ps
      → AllPlain (p ∷ required)
      → (permission_guard false (some (p ∷ required)) self_param r w).0 ≡ (
          if all grants (p ∷ required)
          then ok true
          else err (forbidden (plain "Insufficient permissions")))
  permission_guard_lem p required self_param r w su ns nm h e g =
      let (c, s, hc) = permission_guard_world p required self_param r w su ns nm h e g in
      ap (λ o. o.0) s

  -- The ACL guard, for a user who is no super admin and a request that names the resource, whose
  -- type is not empty: with a cache that agrees with the tables, effective permissions `ps` that
  -- can be computed, and no colon or lone star in the texts of the request, it lets the request
  -- through exactly if `ps` covers the action or the ACL has an entry for the resource, and else
  -- refuses it.
  pub acl_guard_lem :
      (meta : AclMetadata) (id : Text) (r : Request) (w : World)
      → r.user ≡ some u
      → is_super_admin u ≡ false
      → r.params (text_or meta.param_key (lit "id")) ≡ some id
      → is_empty id ≡ false
      → is_empty meta.resource ≡ false
      → Coherent w
      → effective_in w.db w.now u.sub (tenant_text u) ≡ ok ps
      → IsPlain (resource_dto u meta id)
      → (acl_guard (some meta) r w).0 ≡ (
          if grants meta.action
            || any (same_entry (tenant_text u) (acl_dto (resource_dto u meta id))) w.db.acls
          then ok true
          else err (forbidden (plain "Insufficient resource ACL")))
  unfolding acl_guard
  acl_guard_lem meta [] r w su ns i n m h e g = cc
  acl_guard_lem meta (k ∷ ks) r w su ns i n m h e g =
      let (d, c, s, b, hc) = check_lem (resource_dto u meta (k ∷ ks)) w ps h e g in
      ground (arith, s, b)

module _ ⦃env : Env⦄ where
  -- A route that demands permissions or an ACL entry refuses a request without a user.
  pub guards-anonymous :
      (p : Text) (required : List Text) (self_param : Option Text) (meta : AclMetadata)
      (r : Request) (w : World)
      → r.user ≡ none
      → (permission_guard false (some (p ∷ required)) self_param r w
          ≡ (err (forbidden (plain "Authentication required")), w))
        × (acl_guard (some meta) r w ≡ (err (forbidden (plain "Authentication required")), w))
  unfolding permission_guard acl_guard
  guards-anonymous p required self_param meta r w h = (ground arith, ground arith)

-- The identity type guard lets a request through exactly if its user has an identity type that is
-- among the ones that the route allows.
pub identity_type_guard_lem :
    (t : IdentityType) (ts : List IdentityType) (r : Request) (u : JwtPayload)
    → r.user ≡ some u
    → (identity_type_guard (some (t ∷ ts)) r ≡ ok true)
      ↔ ((not (is_empty u.identity_type) && allowed_type (t ∷ ts) u.identity_type) ≡ true)
unfolding identity_type_guard
identity_type_guard_lem t ts r u h = (λ e. ground arith, λ e. ground arith)
