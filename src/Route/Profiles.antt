-- ===== src/Route/Profiles.antt =====
-- The routes of src/modules/user/user.controller.ts on one user: the user's own record, or another's.
use generic_iam.Prelude.{
  Text, lit, ◌≡◌, refl, true, ◌&&◌, ◌||◌, none, some, List, [], ◌∷◌, any, arith, if◌then◌else◌,
  ◌==◌, ==_eq, inl, inr, Bool-cases, Option-cases,
}
use generic_iam.Entities.{PermissionEntity}
use generic_iam.Permissions.{user_read}
use generic_iam.Errors.{Message, ok, err, plain, forbidden}
use generic_iam.Env.{Env, CacheStore, JwtPayload}
use generic_iam.App.{World}
use generic_iam.Rows.{found_passes}
use generic_iam.Base
use generic_iam.Rbac.Override.Reads.{effective_in}
use generic_iam.Authorization.Plain.{Coherent}
use generic_iam.Authorization.Laws.{check_lem}
use generic_iam.Cache.Keys.{NoColon}
use generic_iam.Guards.{Request, tenant_text, permission_dto}
use generic_iam.Guards.Laws.{ArePlain, grants, permission_dto-IsPlain}
use generic_iam.Route.{Nest}
use generic_iam.Route.Laws.{Comes, serve-undemanding}
use generic_iam.Route.Accounts
use generic_iam.Route.Accounts.{UserResponseDto, user_route, unless_self, find_one_handler}

tenant_text_of : (u : JwtPayload) (t : Text) → u.tenant_id ≡ some t → tenant_text u ≡ t
tenant_text_of u [] h = ground arith
tenant_text_of u (c ∷ cs) h = ground arith

module _ ⦃env : Env⦄ (nest : Nest) (u : JwtPayload) (ps : List PermissionEntity) (a : ArePlain u)
    (r : Request) (w : World) (h : Coherent w)
    (e : effective_in w.db w.now u.sub (tenant_text u) ≡ ok ps) where
  -- The test that the handlers make themselves.
  unless_self_lem :
      (id tenant p : Text) (refusal : Message)
      → u.tenant_id ≡ some tenant
      → NoColon p
      → (c : CacheStore) × (unless_self nest u id p refusal w ≡ (
          if (u.sub == id || grants u ps a p)
          then (ok tt, record w { cache = c })
          else (err (forbidden refusal), record w { cache = c })))
  unless_self_lem id tenant p refusal t n =
      let (d, c, s, b, hc) =
        check_lem (permission_dto u p) w ps h e (permission_dto-IsPlain u p a n) in
      elim (Bool-cases (u.sub == id)) [
        | inl self ↦ (w.cache, ground arith)
        | inr other ↦ (c, ground (arith, s, b, t, tenant_text_of u tenant t))
      ]

  -- `GET /users/:id` by an ordinary user of a tenant, with a cache that agrees with the tables: if it
  -- is answered, then with the record that has the id of the path, which belongs to the caller's
  -- tenant; and the caller is that user, or the caller's permissions in effect cover user.read.
  pub find_one-own :
      (tenant id : Text) (x : UserResponseDto)
      → Comes u (user_route none) r
      → u.tenant_id ≡ some tenant
      → r.params (lit "id") ≡ some id
      → (Accounts.find_one nest r w).0 ≡ ok x
      → ((x.id == id && x.tenant_id == tenant) && (u.sub == id || grants u ps a user_read)) ≡ true
  unfolding Accounts.find_one Base.find_one any
  find_one-own tenant id x k t p o =
      let s = serve-undemanding u (user_route none) (find_one_handler nest) r w refl refl refl k in
      let (c, g) = unless_self_lem id tenant user_read (plain "Insufficient permissions") t refl in
      elim (Bool-cases (nest.is_uuid id)) [
        | inr bad ↦ ground (arith, s)
        | inl good ↦ elim (Option-cases (env.find_one (λ v. v.id == id) w.db.users)) [
          | inl m ↦ ground (arith, s, g)
          | inr (v, f) ↦
              ground (
                arith,
                s,
                g,
                found_passes (λ v. v.id == id) w.db.users v f,
                ==_eq v.tenant_id tenant,
              )
        ]
      ]
