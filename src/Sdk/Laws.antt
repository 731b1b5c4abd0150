-- ===== src/Sdk/Laws.antt =====
-- Laws of the client of packages/iam-sdk/src: its answers and its guards.
use generic_iam.Prelude.{
  Text, lit, ◌≡◌, refl, Bool, true, false, ◌||◌, Option, some, List, [], ◌∷◌, arith, is_empty,
  if◌then◌else◌, all, starts_with, Bool-cases, inl, inr, ◌⊎◌, ◌≢◌, Option-cases,
}
use generic_iam.Errors.{ok, err, plain, forbidden}
use generic_iam.Env.{JwtPayload, CacheValue, flag, perms}
use generic_iam.Matcher.{has_permission, split}
use generic_iam.Matcher.Laws.{head_part, tail_parts}
use generic_iam.Cache.{perms_key}
use generic_iam.Authorization.{set_of}
use generic_iam.Guards.{Request, is_super_admin, is_self}
use generic_iam.Sdk.{
  Read, absent, held, broken, threw, Question, Outside, allowed_by, check_authorization, is_allowed,
  require_each, permission_guard, permission_question, no_resource, sdk_key, jwt_auth_guard, bearer,
  tier2,
}

Read-cases : (r : Read) → (r ≡ absent) ⊎ ((r ≡ broken) ⊎ ((v : CacheValue) × (r ≡ held v)))
Read-cases absent = inl refl
Read-cases broken = inr (inl refl)
Read-cases (held v) = inr (inr (v, refl))

-- Nothing is known: neither cache can be read, and the service does not answer with an ok status.
abbrev pub IsDown : Outside → Type 0
IsDown outside =
    ((k : Text) → outside.read k ≡ broken) × ((q : Question) → (outside.post q ≡ threw))

module _ (outside : Outside) where
  -- Without the caches and the service, nothing is allowed.
  pub is_allowed-down : (q : Question) → IsDown outside → is_allowed outside q ≡ false
  unfolding is_allowed check_authorization allowed_by
  is_allowed-down q h =
      ground (arith, h.0 (perms_key q.tenant_id q.user_id), h.0 (sdk_key outside q), h.1 q)

  -- What each reply says about the truth: with `truth` as the service's answer, the cached sets and
  -- decisions that can be read agree with it.
  pub record Agrees (truth : Question → Bool) (q : Question) : Type 0 where
    pub service : allowed_by (outside.post q) ≡ truth q
    pub decision : (b : Bool) → outside.read (sdk_key outside q) ≡ held (flag b) → b ≡ truth q
    pub set :
        (l : List Text)
        → outside.read (perms_key q.tenant_id q.user_id) ≡ held (perms l)
        → (has_permission (set_of l) q.permission ≡ true → truth q ≡ true)
          × (no_resource outside q ≡ true → truth q ≡ has_permission (set_of l) q.permission)
    pub no_list : (l : List Text) → outside.read (sdk_key outside q) ≢ held (perms l)

  second_tier :
      (truth : Question → Bool) (q : Question)
      → Agrees truth q
      → tier2 outside q (outside.read (sdk_key outside q)) ≡ truth q
  unfolding check_authorization
  second_tier truth q a = elim (Read-cases (outside.read (sdk_key outside q))) [
    | inl e ↦ ground (arith, a.service)
    | inr (inl e) ↦ ground (arith, a.service)
    | inr (inr (flag b, e)) ↦ ground (arith, a.decision b)
    | inr (inr (perms l, e)) ↦ absurd (a.no_list l e)
  ]

  -- If the service answers the truth, and so does whatever decision or set of permissions the
  -- caches hold for the question, then the client answers the truth too, whichever of them it
  -- could read.
  pub is_allowed-Agrees :
      (truth : Question → Bool) (q : Question) → Agrees truth q → is_allowed outside q ≡ truth q
  unfolding is_allowed check_authorization
  is_allowed-Agrees truth q a = elim (Read-cases (outside.read (perms_key q.tenant_id q.user_id))) [
    | inl e ↦ ground (arith, second_tier truth q a)
    | inr (inl e) ↦ ground (arith, second_tier truth q a)
    | inr (inr (flag b, e)) ↦ ground (arith, second_tier truth q a)
    | inr (inr (perms l, e)) ↦ ground (arith, second_tier truth q a, a.set l)
  ]

  -- The loop over the demanded permissions: all of them must be allowed.
  pub require_each_lem :
      (u : JwtPayload) (required : List Text)
      → require_each outside u required ≡ (
          if all (λ p. is_allowed outside (permission_question outside u p)) required
          then ok true
          else err (forbidden (plain "Insufficient permissions")))
  unfolding require_each all
  require_each_lem u [] = refl
  require_each_lem u (p ∷ required) = ground (arith, require_each_lem u required)

  -- The guard for permissions lets a request through exactly if its user is a super admin, or the
  -- one the route is about, or is allowed every permission that the route demands.
  pub permission_guard_lem :
      (p : Text) (required : List Text) (self_param : Option Text) (r : Request) (u : JwtPayload)
      → r.user ≡ some u
      → permission_guard outside (some (p ∷ required)) self_param r ≡ (
          if is_super_admin u
            || is_self self_param r u
            || all (λ q. is_allowed outside (permission_question outside u q)) (p ∷ required)
          then ok true
          else err (forbidden (plain "Insufficient permissions")))
  unfolding permission_guard
  permission_guard_lem p required self_param r u h =
      ground (arith, require_each_lem u (p ∷ required))

abbrev pub token_of : Request → Text
token_of r = head_part (tail_parts (split b' ' (bearer r.authorization)))

-- A token is asked of every route that is not public: a header that is not of a bearer is refused,
-- and so is a token that does not verify or whose claims name nobody.
pub jwt_auth_guard-ok :
    (verify : Text → Option JwtPayload) (r : Request) (c : Option JwtPayload)
    → jwt_auth_guard verify false r ≡ ok c
    → (starts_with (lit "Bearer ") (bearer r.authorization) ≡ true)
      × ((p : JwtPayload) × ((c ≡ some p) × (is_empty p.sub ≡ false)))
unfolding jwt_auth_guard
jwt_auth_guard-ok verify r c h =
    elim (Bool-cases (starts_with (lit "Bearer ") (bearer r.authorization))) [
      | inl b ↦ elim (Option-cases (verify (token_of r))) [
        | inl n ↦ ground arith
        | inr (p, e) ↦ (b, (p, (ground arith, ground arith)))
      ]
      | inr b ↦ ground arith
    ]
