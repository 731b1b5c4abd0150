-- ===== src/Cache.antt =====
-- src/cache/cache.service.ts: the keys, the cached permission sets, and the invalidation. The
-- decisions are read and written by the services through `get` and `set`.
pub mod Keys
pub mod Invalidation
use mathlib.Core.List.{foldl}
use generic_iam.Prelude.{
  ℕ, ◌*◌, Text, lit, Bool, true, false, Option, none, some, List, [], ◌∷◌, ◌++◌,
}
use generic_iam.Errors.{type_error, ok}
use generic_iam.Env.{Env, CacheStore, CacheValue, flag, perms}
use generic_iam.App.{App, Done, World, pure, raise, gets, ◌>>=◌, ◌>>◌}

-- `perms:{tenantId}:{userId}`
unfoldable pub perms_key : Text → Text → Text
perms_key tenant user = lit "perms:" ++ (tenant ++ (lit ":" ++ user))

-- `acl:{tenantId}:{userId}:{resourceType}:{resourceId}:{permission}`
unfoldable pub acl_key : Text → Text → Text → Text → Text → Text
acl_key tenant user type id permission =
    lit "acl:"
    ++ (tenant
        ++ (lit ":"
            ++ (user ++ (lit ":" ++ (type ++ (lit ":" ++ (id ++ (lit ":" ++ permission))))))))

-- `authz:{tenantId}:{userId}:{permission}:{resourceType}:{resourceId}`
unfoldable pub authz_key : Text → Text → Text → Text → Text → Text
authz_key tenant user permission type id =
    lit "authz:"
    ++ (tenant
        ++ (lit ":"
            ++ (user ++ (lit ":" ++ (permission ++ (lit ":" ++ (type ++ (lit ":" ++ id))))))))

-- What the scans look for, without the `*` at the end.
unfoldable pub user_prefix : Text → Text → Text
user_prefix tenant user = lit "authz:" ++ (tenant ++ (lit ":" ++ (user ++ lit ":")))

unfoldable pub tenant_prefix : Text → Text → Text
tenant_prefix kind tenant = kind ++ (tenant ++ lit ":")

abbrev or_default : Option ℕ → ℕ → ℕ
or_default none d = d
or_default (some n) d = n

module _ ⦃env : Env⦄ where
  -- `redis.ttlMs`, five minutes by default
  abbrev pub ttl_ms : ℕ
  ttl_ms = or_default env.cache_ttl_ms 300000

  abbrev pub get : Text → App (Option CacheValue)
  get key w = (ok (env.cache_get key w.cache), w)

  abbrev set_cache : Text → CacheValue → ℕ → World → World
  set_cache key v ttl w = record w { cache = env.cache_set key v ttl w.cache }

  abbrev pub set : Text → CacheValue → Option ℕ → App Done
  set key v none w = (ok tt, set_cache key v ttl_ms w)
  set key v (some seconds) w = (ok tt, set_cache key v (seconds * 1000) w)

  -- An array is made a set; a cached `true` is no array, and a `false` counts as missing.
  abbrev as_permissions : Option CacheValue → App (Option (List Text))
  as_permissions none = pure none
  as_permissions (some (perms l)) = pure (some l)
  as_permissions (some (flag true)) = raise type_error
  as_permissions (some (flag false)) = pure none

  unfoldable pub get_permissions : Text → Text → App (Option (List Text))
  get_permissions tenant user = do cached ← get (perms_key tenant user); as_permissions cached

  unfoldable pub set_permissions : Text → Text → List Text → App Done
  set_permissions tenant user codes w =
      (ok tt, set_cache (perms_key tenant user) (perms codes) ttl_ms w)

  abbrev delete_keys : List Text → CacheStore → CacheStore
  delete_keys keys c = foldl (λ c k. env.cache_del k c) c keys

  unfoldable pub scan_and_delete : Text → App Done
  scan_and_delete pattern w =
      (ok tt, record w { cache = delete_keys (env.cache_scan pattern w.cache) w.cache })

  abbrev del : Text → App Done
  del key w = (ok tt, record w { cache = env.cache_del key w.cache })

  unfoldable pub invalidate_acl_cache : Text → Text → Text → Text → Text → App Done
  invalidate_acl_cache tenant user type id permission = del (acl_key tenant user type id permission)

  unfoldable pub invalidate_user_permission_cache : Text → Text → App Done
  unfolding scan_and_delete
  invalidate_user_permission_cache tenant user = do
    del (perms_key tenant user)
    scan_and_delete (user_prefix tenant user ++ lit "*")

  unfoldable pub invalidate_tenant_permission_cache : Text → App Done
  unfolding scan_and_delete
  invalidate_tenant_permission_cache tenant = do
    scan_and_delete (tenant_prefix (lit "perms:") tenant ++ lit "*")
    scan_and_delete (tenant_prefix (lit "authz:") tenant ++ lit "*")

  unfoldable pub invalidate_authz_decision : Text → Text → Text → Text → Text → App Done
  invalidate_authz_decision tenant user permission type id =
      del (authz_key tenant user permission type id)
