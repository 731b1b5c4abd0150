-- ===== src/Cache/Invalidation.antt =====
-- What is left in the cache after each invalidation, key by key.
use generic_iam.Prelude.{
  Text, lit, ◌≡◌, refl, true, ◌||◌, none, List, [], ◌∷◌, ◌++◌, ◌==◌, has, any, starts_with, arith,
  Option-cases, Bool-cases, inl, inr, if◌then◌else◌,
}
use generic_iam.Env.{Env, CacheStore}
use generic_iam.App.{World}
use generic_iam.Cache.{
  perms_key, user_prefix, tenant_prefix, delete_keys, invalidate_user_permission_cache,
  invalidate_tenant_permission_cache,
}

module _ ⦃env : Env⦄ where
  pub get-del :
      (j k : Text) (c : CacheStore)
      → env.cache_get j (env.cache_del k c) ≡ (if k == j then none else env.cache_get j c)
  get-del j k c = elim (Bool-cases (k == j)) [
    | inr other ↦ rw other (env.get_del_ne j k c other)
    | inl same ↦ rw same (elim (Option-cases (env.cache_get j (env.cache_del k c))) [
      | inl gone ↦ gone
      | inr (x, e) ↦ ground (arith, env.get_del j k x c e)
    ])
  ]

  get-delete_keys :
      (j : Text) (keys : List Text) (c : CacheStore)
      → env.cache_get j (delete_keys keys c) ≡ (if has keys j then none else env.cache_get j c)
  unfolding has any
  get-delete_keys j [] c = refl
  get-delete_keys j (k ∷ keys) c =
      ground (arith, get-delete_keys j keys (env.cache_del k c), get-del j k c)

  -- A scan deletes exactly the keys with the prefix.
  get-scanned :
      (j prefix : Text) (c : CacheStore)
      → env.literal prefix ≡ true
      → env.cache_get j (delete_keys (env.cache_scan (prefix ++ lit "*") c) c)
        ≡ (if starts_with prefix j then none else env.cache_get j c)
  get-scanned j prefix c h = elim (Option-cases (env.cache_get j c)) [
    | inl gone ↦ ground (arith, get-delete_keys j (env.cache_scan (prefix ++ lit "*") c) c)
    | inr (x, e) ↦ ground (
      arith,
      get-delete_keys j (env.cache_scan (prefix ++ lit "*") c) c,
      env.scan_prefix prefix j x c h e,
      env.scan_only prefix j c h,
    )
  ]

  -- After the invalidation for a user, the set of permissions of the user is gone, and so is every
  -- decision for the user, whatever the permission and the resource; every other key is as before.
  pub get-invalidate_user_permission_cache :
      (tenant user j : Text) (w : World)
      → env.literal (user_prefix tenant user) ≡ true
      → env.cache_get j (invalidate_user_permission_cache tenant user w).1.cache ≡ (
          if perms_key tenant user == j || starts_with (user_prefix tenant user) j
          then none
          else env.cache_get j w.cache)
  unfolding invalidate_user_permission_cache
  get-invalidate_user_permission_cache tenant user j w h =
      let c = env.cache_del (perms_key tenant user) w.cache in
      ground (
        arith,
        get-scanned j (user_prefix tenant user) c h,
        get-del j (perms_key tenant user) w.cache,
      )

  -- After the invalidation for a tenant, no set of permissions and no decision of the tenant is
  -- left; every other key is as before.
  pub get-invalidate_tenant_permission_cache :
      (tenant j : Text) (w : World)
      → env.literal (tenant_prefix (lit "perms:") tenant) ≡ true
      → env.literal (tenant_prefix (lit "authz:") tenant) ≡ true
      → env.cache_get j (invalidate_tenant_permission_cache tenant w).1.cache ≡ (
          if starts_with (tenant_prefix (lit "perms:") tenant) j
            || starts_with (tenant_prefix (lit "authz:") tenant) j
          then none
          else env.cache_get j w.cache)
  unfolding invalidate_tenant_permission_cache
  get-invalidate_tenant_permission_cache tenant j w h k =
      let p = tenant_prefix (lit "perms:") tenant in
      let a = tenant_prefix (lit "authz:") tenant in
      let c = delete_keys (env.cache_scan (p ++ lit "*") w.cache) w.cache in
      ground (arith, get-scanned j a c k, get-scanned j p w.cache h)
