-- ===== src/Authorization/Collision.antt =====
-- When two requests share one cached decision of src/modules/authorization/authorization.service.ts,
-- whose key joins the parts of a request by colons.
use generic_iam.Prelude.{
  Text, lit, ◌≡◌, ap, ◌∙◌, false, some, [], ◌∷◌, ◌++◌, is_empty, arith, Option-cases, inl, inr,
  Option, Bool, ℕ, refl, text_or, ◌*◌,
}
use generic_iam.Errors.{ok, Result-cases}
use generic_iam.Env.{Env, CacheStore, CacheValue, flag}
use generic_iam.App.{World}
use generic_iam.Matcher.{has_permission}
use generic_iam.Acl.{is_true}
use generic_iam.Cache.Keys.{authz_key_collision}
use generic_iam.Authorization.{
  CheckAuthzDto, AuthzDecision, Source, cache, decision_key, check, decide, effective_set, or_acl,
}

-- A request about a resource.
abbrev pub about_resource : Text → Text → Text → Text → Option Text → CheckAuthzDto
about_resource tenant user permission type id = record {
  user_id = user;
  tenant_id = tenant;
  permission = permission;
  resource_type = some type;
  resource_id = id;
}

-- The two requests have one key.
same_key :
    (tenant user permission rest type : Text) (id : Option Text)
    → is_empty type ≡ false
    → decision_key (about_resource tenant user (permission ++ (lit ":" ++ rest)) type id)
      ≡ decision_key (about_resource tenant user permission (rest ++ (lit ":" ++ type)) id)
unfolding decision_key
same_key tenant user permission rest [] id n = cc
same_key tenant user permission [] (c ∷ cs) id n =
    authz_key_collision tenant user permission [] (c ∷ cs) (text_or id (lit "*"))
same_key tenant user permission (r ∷ rest) (c ∷ cs) id n =
    authz_key_collision tenant user permission (r ∷ rest) (c ∷ cs) (text_or id (lit "*"))

module _ ⦃env : Env⦄ where
  -- A decision that was made is the last value that is stored under its key.
  decide-stores :
      (dto : CheckAuthzDto) (w : World) (d : Bool × Source)
      → (decide dto w).0 ≡ ok d
      → (ttl : ℕ) × (c : CacheStore) × ((decide dto w).1.cache
          ≡ env.cache_set (decision_key dto) (flag d.0) ttl c)
  unfolding decide
  decide-stores dto w d h =
      let first = effective_set dto w in
      elim (Result-cases first.0) [
        | inr (e, f) ↦ ground arith
        | inl (codes, f) ↦
            let second = or_acl dto (has_permission codes dto.permission) first.1 in
            elim (Result-cases second.0) [
              | inr (e, g) ↦ ground arith
              | inl (x, g) ↦ (300 * 1000, second.1.cache, ground arith)
            ]
      ]

  -- What is cached for a request after it was answered is the answer.
  check-stores :
      (dto : CheckAuthzDto) (w : World) (d : AuthzDecision) (v : CacheValue)
      → (check dto w).0 ≡ ok d
      → env.cache_get (decision_key dto) (check dto w).1.cache ≡ some v
      → is_true v ≡ d.allowed
  unfolding check
  check-stores dto w d v h k = elim (Option-cases (env.cache_get (decision_key dto) w.cache)) [
    | inr (x, c) ↦ ground arith
    | inl n ↦ elim (Result-cases (decide dto w).0) [
      | inr (e, f) ↦ ground arith
      | inl (x, f) ↦
          let (ttl, c, s) = decide-stores dto w x f in
          ground (arith, env.get_set_same (decision_key dto) (flag x.0) v ttl c)
    ]
  ]

  check-cached :
      (dto : CheckAuthzDto) (w : World) (v : CacheValue)
      → env.cache_get (decision_key dto) w.cache ≡ some v
      → (check dto w).0 ≡ ok (record { allowed = is_true v; source = cache; evaluated_at = w.now })
  unfolding check
  check-cached dto w v k = ground arith

  -- With a colon inside a permission, the answer to one request is given to another: once the request
  -- for the permission `permission:rest` on resources of a type has been answered, the request of the
  -- same user for `permission` on the type `rest:type`, and the same id, gets that answer, as long as
  -- the decision stays in the cache; whatever the tables say of the second request.
  pub check-collides :
      (tenant user permission rest type : Text) (id : Option Text) (w : World) (d : AuthzDecision)
      (v : CacheValue)
      → is_empty type ≡ false
      → (check (about_resource tenant user (permission ++ (lit ":" ++ rest)) type id) w).0 ≡ ok d
      → env.cache_get
          (decision_key (about_resource tenant user permission (rest ++ (lit ":" ++ type)) id))
          (check (about_resource tenant user (permission ++ (lit ":" ++ rest)) type id) w).1.cache
        ≡ some v
      → (e : AuthzDecision) × ((check
            (about_resource tenant user permission (rest ++ (lit ":" ++ type)) id)
            (check (about_resource tenant user (permission ++ (lit ":" ++ rest)) type id) w).1).0
          ≡ ok e)
        × (e.allowed ≡ d.allowed)
        × (e.source ≡ cache)
  check-collides tenant user permission rest type id w d v n h k =
      let a = about_resource tenant user (permission ++ (lit ":" ++ rest)) type id in
      let b = about_resource tenant user permission (rest ++ (lit ":" ++ type)) id in
      let same = same_key tenant user permission rest type id n in
      let stored =
        check-stores a w d v h (ap (λ key. env.cache_get key (check a w).1.cache) same ∙ k) in
      (
        record { allowed = is_true v; source = cache; evaluated_at = (check a w).1.now },
        check-cached b (check a w).1 v k,
        stored,
        refl,
      )
