-- ===== src/Route/Laws.antt =====
-- Which requests reach the handler of a route, for `serve` of the parent module.
use generic_iam.Prelude.{
  Text, lit, ◌≡◌, refl, Bool, true, false, ◌&&◌, not, Option, none, some, List, [], ◌∷◌, all, arith,
  is_empty, if◌then◌else◌, ==_eq, ==_refl, sym, any, starts_with, inl, inr, Bool-cases,
  Option-cases,
}
use generic_iam.Constants.{IdentityType, super_admin, identity_name}
use generic_iam.Entities.{PermissionEntity}
use generic_iam.Errors.{ok, err, plain, forbidden, Result-cases}
use generic_iam.Env.{Env, CacheStore, JwtPayload}
use generic_iam.App.{World, App}
use generic_iam.Rbac.Override.Reads.{effective_in}
use generic_iam.Authorization.Coherence.{IsCoherent}
use generic_iam.Authorization.Plain.{Coherent}
use generic_iam.Guards.{
  Request, permission_guard, acl_guard, identity_type_guard, is_super_admin, is_self, tenant_text,
  allowed_type,
}
use generic_iam.Guards.Laws.{ArePlain, AllPlain, grants, permission_guard_world}
use generic_iam.Sdk.{jwt_auth_guard, bearer}
use generic_iam.Sdk.Laws.{token_of, jwt_auth_guard-ok}
use generic_iam.Route.{Route, serve, class_guards}

-- The request with the user that its token names.
abbrev pub as_user : JwtPayload → Request → Request
as_user u r = record r { user = some u }

module _ ⦃env : Env⦄ where
  -- The request carries a token of the user, whose identity type the route allows; the user is no
  -- super admin, and not the one that the route lets act on itself.
  pub record Comes (u : JwtPayload) (route : Route) (r : Request) : Type 0 where
    pub token : jwt_auth_guard env.verify route.is_public r ≡ ok (some u)
    pub type : identity_type_guard route.identity_types (as_user u r) ≡ ok true
    pub ordinary : is_super_admin u ≡ false
    pub of_others : is_self route.allow_self (as_user u r) u ≡ false

  -- A route that demands nothing runs its handler for such a request, on the state as it was.
  pub serve-undemanding :
      {A : Type 0} (u : JwtPayload) (route : Route) (handler : Request → App A) (r : Request)
      (w : World)
      → route.is_public ≡ false
      → route.permissions ≡ none
      → route.acl ≡ none
      → Comes u route r
      → serve route r handler w ≡ handler (as_user u r) w
  unfolding serve permission_guard acl_guard
  serve-undemanding u route handler r w np rq na k = ground (arith, k.token, k.type)

  module _ (u : JwtPayload) (ps : List PermissionEntity) (a : ArePlain u) where
    -- A guarded route that demands permissions, for a request with a token of an ordinary user whom
    -- the route does not let act on itself: with a cache that agrees with the tables, effective
    -- permissions `ps` that can be computed, and no colon in the ids of the claims and in the
    -- permissions, the handler runs exactly if `ps` covers each permission that the route demands.
    -- It runs on the tables and messages as they were, with a cache that agrees with them; a
    -- refused request changes at most the cache, which agrees with the tables.
    pub serve_lem :
        {A : Type 0} (route : Route) (handler : Request → App A) (p : Text) (required : List Text)
        (r : Request) (w : World)
        → route.is_public ≡ false
        → route.guarded ≡ true
        → route.permissions ≡ some (p ∷ required)
        → route.acl ≡ none
        → Comes u route r
        → Coherent w
        → effective_in w.db w.now u.sub (tenant_text u) ≡ ok ps
        → AllPlain (p ∷ required)
        → (c : CacheStore) × (serve route r handler w ≡ (
            if all (grants u ps a) (p ∷ required)
            then handler (as_user u r) (record w { cache = c })
            else (err (forbidden (plain "Insufficient permissions")), record w { cache = c })))
          × IsCoherent w.db w.now c
    unfolding serve acl_guard
    serve_lem route handler p required r w np gd rq na k h e g =
        let (c, s, hc) =
          permission_guard_world u ps a p required route.allow_self (as_user u r) w refl k.ordinary
            k.of_others h e g in
        (c, ground (arith, s, k.token, k.type), hc)

    -- The same from the other end: a request that such a route answers was covered by `ps`, and the
    -- answer is the handler's, on the tables and messages as they were.
    pub serve-covered :
        {A : Type 0} (route : Route) (handler : Request → App A) (x : A) (p : Text)
        (required : List Text) (r : Request) (w : World)
        → route.is_public ≡ false
        → route.guarded ≡ true
        → route.permissions ≡ some (p ∷ required)
        → route.acl ≡ none
        → Comes u route r
        → Coherent w
        → effective_in w.db w.now u.sub (tenant_text u) ≡ ok ps
        → AllPlain (p ∷ required)
        → (serve route r handler w).0 ≡ ok x
        → (all (grants u ps a) (p ∷ required) ≡ true)
          × ((c : CacheStore) × ((handler (as_user u r) (record w { cache = c })).0 ≡ ok x)
              × (serve route r handler w ≡ handler (as_user u r) (record w { cache = c }))
              × IsCoherent w.db w.now c)
    serve-covered route handler x p required r w np gd rq na k h e g o =
        let (c, s, hc) = serve_lem route handler p required r w np gd rq na k h e g in
        elim (Bool-cases (all (grants u ps a) (p ∷ required))) [
          | inl all_there ↦ (all_there, (c, ground arith, ground arith, hc))
          | inr missing ↦ ground arith
        ]

-- Whose tokens the decorator lets in; a list without types lets all in.
abbrev pub accepts : Option (List IdentityType) → JwtPayload → Bool
accepts none u = true
accepts (some []) u = true
accepts (some (t ∷ ts)) u = not (is_empty u.identity_type) && allowed_type (t ∷ ts) u.identity_type

accepts_lem :
    (types : Option (List IdentityType)) (u : JwtPayload) (r : Request) (b : Bool)
    → identity_type_guard types (as_user u r) ≡ ok b
    → accepts types u ≡ true
unfolding identity_type_guard
accepts_lem none u r b h = refl
accepts_lem (some []) u r b h = refl
accepts_lem (some (t ∷ ts)) u r b h = ground arith

pub accepts-super_admin :
    (u : JwtPayload) → accepts (some (super_admin ∷ [])) u ≡ true → is_super_admin u ≡ true
unfolding any
accepts-super_admin u h =
    let same : identity_name super_admin ≡ u.identity_type =
      ==_eq (identity_name super_admin) u.identity_type (ground arith) in
    rw (sym same) (==_refl (identity_name super_admin))

module _ ⦃env : Env⦄ where
  -- The request carries a token that verifies as the user's, and the route takes its identity type.
  pub record Authenticated (u : JwtPayload) (route : Route) (r : Request) : Type 0 where
    pub bearer : starts_with (lit "Bearer ") (bearer r.authorization) ≡ true
    pub verified : env.verify (token_of r) ≡ some u
    pub named : is_empty u.sub ≡ false
    pub accepted : accepts route.identity_types u ≡ true

  jwt_auth_guard-verified :
      (r : Request) (c : Option JwtPayload)
      → jwt_auth_guard env.verify false r ≡ ok c
      → (u : JwtPayload) × (c ≡ some u)
        × (env.verify (token_of r) ≡ some u)
        × (is_empty u.sub ≡ false)
        × (starts_with (lit "Bearer ") (bearer r.authorization) ≡ true)
  unfolding jwt_auth_guard
  jwt_auth_guard-verified r c h =
      let (b, (p, (e, n))) = jwt_auth_guard-ok env.verify r c h in
      elim (Option-cases (env.verify (token_of r))) [
        | inl m ↦ ground arith
        | inr (q, v) ↦ (q, ground arith, v, ground arith, b)
      ]

  -- A request that a route answers, where the route is not public: it is authenticated, the guards
  -- let it through, and the answer is what the handler makes of the state that they left.
  pub serve_parts :
      {A : Type 0} (route : Route) (handler : Request → App A) (r : Request) (w : World) (a : A)
      → route.is_public ≡ false
      → (serve route r handler w).0 ≡ ok a
      → (u : JwtPayload) × Authenticated u route r
        × ((b : Bool) × (w' : World) × (class_guards route (as_user u r) w ≡ (ok b, w'))
            × (serve route r handler w ≡ handler (as_user u r) w'))
  unfolding serve
  serve_parts route handler r w a np h = elim (Result-cases (jwt_auth_guard env.verify false r)) [
    | inr (x, e) ↦ ground arith
    | inl (c, e) ↦
        let (u, named, v, n, b) = jwt_auth_guard-verified r c e in
        elim (Result-cases (identity_type_guard route.identity_types (as_user u r))) [
          | inr (x, f) ↦ ground arith
          | inl (t, f) ↦ elim (Result-cases (class_guards route (as_user u r) w).0) [
            | inr (x, g) ↦ ground arith
            | inl (t', g) ↦ (
              u,
              record {
                bearer = b;
                verified = v;
                named = n;
                accepted = accepts_lem route.identity_types u r t f;
              },
              (t', (class_guards route (as_user u r) w).1, ground arith, ground arith),
            )
          ]
        ]
  ]
