-- ===== src/Event/Effects.antt =====
-- What the messages about changes, handled by src/event/event.consumer.ts, do to the cache.
use generic_iam.Prelude.{
  ℕ, Text, lit, ◌≡◌, Bool, true, false, ◌&&◌, some, [], ◌∷◌, ◌==◌, ==_eq, ==_refl, is_empty, arith,
  ◌∙◌, starts_with,
}
use generic_iam.Entities.{Db}
use generic_iam.Env.{Env, CacheStore, CacheValue}
use generic_iam.App.{World}
use generic_iam.Cache.{
  perms_key, acl_key, authz_key, user_prefix, tenant_prefix, invalidate_user_permission_cache,
  invalidate_tenant_permission_cache,
}
use generic_iam.Cache.Keys.{user_prefix_self, tenant_perms_prefix_self, tenant_authz_prefix_self}
use generic_iam.Cache.Invalidation.{
  get-invalidate_user_permission_cache, get-invalidate_tenant_permission_cache,
}
use generic_iam.Rbac.Override.Reads.{effective_in}
use generic_iam.Acl.{is_true}
use generic_iam.Authorization.Coherence.{Decides, HoldsSet, IsCoherent}
use generic_iam.Event.{PermissionChangedEvent, handle_permission_changed}

module _ ⦃env : Env⦄ where
  -- The tables differ at most in what they give the users that `changed` names; the ACL is the same.
  pub record SameElsewhere (changed : Text → Text → Bool) (now : ℕ) (db db' : Db) : Type 0 where
    pub effective :
        (t u : Text) → changed t u ≡ false → effective_in db' now u t ≡ effective_in db now u t
    pub acls : db'.acls ≡ db.acls

  module _ (changed : Text → Text → Bool) (now : ℕ) (db db' : Db)
      (s : SameElsewhere changed now db db') where
    Decides-elsewhere :
        (t u p y i : Text) (b : Bool)
        → changed t u ≡ false
        → Decides db now t u p y i b
        → Decides db' now t u p y i b
    Decides-elsewhere t u p y i b h d = record {
      effective = d.effective;
      computed = s.effective t u h ∙ d.computed;
      decided = rw s.acls d.decided;
    }

    HoldsSet-elsewhere :
        (t u : Text) (v : CacheValue)
        → changed t u ≡ false
        → HoldsSet db now t u v
        → HoldsSet db' now t u v
    HoldsSet-elsewhere t u v h d = record {
      effective = d.effective;
      computed = s.effective t u h ∙ d.computed;
      held = d.held;
    }

    -- If nothing is left in the cache about the users that changed, and what is left was there
    -- before, the cache agrees with the changed tables.
    pub IsCoherent-elsewhere :
        (c c' : CacheStore)
        → IsCoherent db now c
        → ((j : Text) (v : CacheValue) → env.cache_get j c' ≡ some v → env.cache_get j c ≡ some v)
        → ((t u p y i : Text) (v : CacheValue)
            → env.cache_get (authz_key t u p y i) c' ≡ some v
            → changed t u ≡ false)
        → ((t u : Text) (v : CacheValue)
            → env.cache_get (perms_key t u) c' ≡ some v
            → changed t u ≡ false)
        → IsCoherent db' now c'
    IsCoherent-elsewhere c c' h kept authz perms = record {
      decisions = λ t u p y i v ht hu hp hy e.
          Decides-elsewhere t u p y i (is_true v) (authz t u p y i v e)
            (h.decisions t u p y i v ht hu hp hy (kept (authz_key t u p y i) v e));
      sets = λ t u v ht e.
          HoldsSet-elsewhere t u v (perms t u v e) (h.sets t u v ht (kept (perms_key t u) v e));
      entries = λ t u y i p v ht hu hy hi e.
          rw s.acls (h.entries t u y i p v ht hu hy hi (kept (acl_key t u y i p) v e));
    }

  abbrev pub is_user : Text → Text → Text → Text → Bool
  is_user tenant user t u = t == tenant && u == user

  decision_of_user :
      (tenant user t u p y i : Text)
      → is_user tenant user t u ≡ true
      → starts_with (user_prefix tenant user) (authz_key t u p y i) ≡ true
  decision_of_user tenant user t u p y i h =
      ground (arith, ==_eq t tenant, ==_eq u user, user_prefix_self t u p y i)

  set_of_user :
      (tenant user t u : Text)
      → is_user tenant user t u ≡ true
      → (perms_key tenant user == perms_key t u) ≡ true
  set_of_user tenant user t u h =
      ground (arith, ==_eq t tenant, ==_eq u user, ==_refl (perms_key t u))

  decision_of_tenant :
      (tenant t u p y i : Text)
      → (t == tenant) ≡ true
      → starts_with (tenant_prefix (lit "authz:") tenant) (authz_key t u p y i) ≡ true
  decision_of_tenant tenant t u p y i h =
      ground (arith, ==_eq t tenant, tenant_authz_prefix_self t u p y i)

  set_of_tenant :
      (tenant t u : Text)
      → (t == tenant) ≡ true
      → starts_with (tenant_prefix (lit "perms:") tenant) (perms_key t u) ≡ true
  set_of_tenant tenant t u h = ground (arith, ==_eq t tenant, tenant_perms_prefix_self t u)

  -- The invalidation for a user leaves a cache that agrees with the tables after a change that
  -- concerns this user only, if it agreed with those before.
  pub invalidate_user-IsCoherent :
      (tenant user : Text) (w : World) (db' : Db)
      → env.literal (user_prefix tenant user) ≡ true
      → IsCoherent w.db w.now w.cache
      → SameElsewhere (is_user tenant user) w.now w.db db'
      → IsCoherent db' w.now (invalidate_user_permission_cache tenant user w).1.cache
  invalidate_user-IsCoherent tenant user w db' l h s =
      IsCoherent-elsewhere (is_user tenant user) w.now w.db db' s w.cache
        (invalidate_user_permission_cache tenant user w).1.cache h
        (λ j v e. ground (arith, get-invalidate_user_permission_cache tenant user j w l))
        (λ t u p y i v e. ground (
          arith,
          get-invalidate_user_permission_cache tenant user (authz_key t u p y i) w l,
          decision_of_user tenant user t u p y i,
        ))
        (λ t u v e. ground (
          arith,
          get-invalidate_user_permission_cache tenant user (perms_key t u) w l,
          set_of_user tenant user t u,
        ))

  -- The invalidation for a tenant leaves a cache that agrees with the tables after a change that
  -- concerns users of this tenant only, if it agreed with those before; the key prefixes must be
  -- literal for the store's globs.
  pub invalidate_tenant-IsCoherent :
      (tenant : Text) (w : World) (db' : Db)
      → env.literal (tenant_prefix (lit "perms:") tenant) ≡ true
      → env.literal (tenant_prefix (lit "authz:") tenant) ≡ true
      → IsCoherent w.db w.now w.cache
      → SameElsewhere (λ t u. t == tenant) w.now w.db db'
      → IsCoherent db' w.now (invalidate_tenant_permission_cache tenant w).1.cache
  invalidate_tenant-IsCoherent tenant w db' l m h s =
      IsCoherent-elsewhere (λ t u. t == tenant) w.now w.db db' s w.cache
        (invalidate_tenant_permission_cache tenant w).1.cache h
        (λ j v e. ground (arith, get-invalidate_tenant_permission_cache tenant j w l m))
        (λ t u p y i v e. ground (
          arith,
          get-invalidate_tenant_permission_cache tenant (authz_key t u p y i) w l m,
          decision_of_tenant tenant t u p y i,
        ))
        (λ t u v e. ground (
          arith,
          get-invalidate_tenant_permission_cache tenant (perms_key t u) w l m,
          set_of_tenant tenant t u,
        ))

  -- Handling a message of `iam.permission.changed` that names a tenant and a user leaves a cache
  -- that agrees with the tables after the change, if it agreed with those before and the change
  -- concerns this user only; the key prefixes must be literal for the store's globs.
  pub handle_permission_changed-IsCoherent :
      (tenant user : Text) (message : PermissionChangedEvent) (w : World) (db' : Db)
      → message.tenant_id ≡ some tenant
      → message.user_id ≡ some user
      → is_empty tenant ≡ false
      → is_empty user ≡ false
      → env.literal (user_prefix tenant user) ≡ true
      → IsCoherent w.db w.now w.cache
      → SameElsewhere (is_user tenant user) w.now w.db db'
      → IsCoherent db' w.now (handle_permission_changed message w).1.cache
  unfolding handle_permission_changed
  handle_permission_changed-IsCoherent [] user message w db' t u n m l h s = cc
  handle_permission_changed-IsCoherent (c ∷ cs) [] message w db' t u n m l h s = cc
  handle_permission_changed-IsCoherent (c ∷ cs) (d ∷ ds) message w db' t u n m l h s =
      rw t (rw u (invalidate_user-IsCoherent (c ∷ cs) (d ∷ ds) w db' l h s))
