-- ===== src/Event/Entries.antt =====
-- What the message about a changed entry of the ACL, handled by src/event/event.consumer.ts, does to
-- the cache.
use generic_iam.Prelude.{
  ℕ, Text, ◌≡◌, refl, sym, ◌∙◌, Bool, true, false, ◌&&◌, not, some, [], ◌∷◌, ◌==◌, ==_eq, ==_refl,
  is_empty, any, arith, truthy, text_or,
}
use generic_iam.Entities.{Db}
use generic_iam.Errors.{ok}
use generic_iam.Env.{Env, CacheStore, CacheValue}
use generic_iam.App.{World}
use generic_iam.Cache.{
  perms_key, acl_key, authz_key, invalidate_acl_cache, invalidate_authz_decision,
}
use generic_iam.Cache.Invalidation.{get-del}
use generic_iam.Rbac.Override.Reads.{effective_in}
use generic_iam.Acl.{CreateAclDto, same_entry}
use generic_iam.Authorization.Coherence.{IsCoherent, entry}
use generic_iam.Event.{AclChangedEvent, handle_acl_changed}

-- The five texts are those of the entry.
abbrev pub is_entry : Text → CreateAclDto → Text → Text → Text → Text → Text → Bool
is_entry tenant e t u y i p =
    t == tenant && u == e.user_id && y == e.resource_type && i == e.resource_id && p == e.permission

-- The message that announces a change of the entry.
abbrev pub announcement : Text → CreateAclDto → AclChangedEvent
announcement tenant e = record {
  tenant_id = some tenant;
  user_id = some e.user_id;
  resource_type = some e.resource_type;
  resource_id = some e.resource_id;
  payload_permission = some e.permission;
}

-- No text of the entry is empty.
abbrev pub is_filled : Text → CreateAclDto → Bool
is_filled tenant e =
    not (is_empty tenant)
    && not (is_empty e.user_id)
    && not (is_empty e.resource_type)
    && not (is_empty e.resource_id)
    && not (is_empty e.permission)

truthy-some : (t : Text) → truthy (some t) ≡ not (is_empty t)
truthy-some [] = refl
truthy-some (c ∷ cs) = refl

text_or-some : (t : Text) → text_or (some t) [] ≡ t
text_or-some [] = refl
text_or-some (c ∷ cs) = refl

-- The key of a cached decision, or entry, tells whether it is about the entry.
decision_key_of :
    (tenant : Text) (e : CreateAclDto) (t u p y i : Text)
    → is_entry tenant e t u y i p ≡ true
    → (authz_key tenant e.user_id e.permission e.resource_type e.resource_id == authz_key t u p y i)
      ≡ true
decision_key_of tenant e t u p y i h = ground (
  arith,
  ==_eq t tenant,
  ==_eq u e.user_id,
  ==_eq p e.permission,
  ==_eq y e.resource_type,
  ==_eq i e.resource_id,
  ==_refl (authz_key t u p y i),
)

entry_key_of :
    (tenant : Text) (e : CreateAclDto) (t u y i p : Text)
    → is_entry tenant e t u y i p ≡ true
    → (acl_key tenant e.user_id e.resource_type e.resource_id e.permission == acl_key t u y i p)
      ≡ true
entry_key_of tenant e t u y i p h = ground (
  arith,
  ==_eq t tenant,
  ==_eq u e.user_id,
  ==_eq p e.permission,
  ==_eq y e.resource_type,
  ==_eq i e.resource_id,
  ==_refl (acl_key t u y i p),
)

module _ ⦃env : Env⦄ where
  -- The tables differ at most in whether the ACL has the entry.
  pub record SameButEntry (tenant : Text) (e : CreateAclDto) (now : ℕ) (db db' : Db) : Type 0 where
    pub effective : (t u : Text) → effective_in db' now u t ≡ effective_in db now u t
    pub others :
        (t u y i p : Text)
        → is_entry tenant e t u y i p ≡ false
        → any (same_entry t (entry u y i p)) db'.acls ≡ any (same_entry t (entry u y i p)) db.acls

  abbrev pub forgotten : Text → CreateAclDto → CacheStore → CacheStore
  forgotten tenant e c =
      env.cache_del (authz_key tenant e.user_id e.permission e.resource_type e.resource_id)
        (env.cache_del (acl_key tenant e.user_id e.resource_type e.resource_id e.permission) c)

  pub handle_acl_changed_eq :
      (tenant : Text) (e : CreateAclDto) (w : World)
      → is_filled tenant e ≡ true
      → handle_acl_changed (announcement tenant e) w
        ≡ (ok tt, record w { cache = forgotten tenant e w.cache })
  unfolding handle_acl_changed invalidate_acl_cache invalidate_authz_decision
  handle_acl_changed_eq tenant e w h = ground (
    arith,
    h,
    truthy-some tenant,
    text_or-some tenant,
    truthy-some e.user_id,
    text_or-some e.user_id,
    truthy-some e.resource_type,
    text_or-some e.resource_type,
    truthy-some e.resource_id,
    text_or-some e.resource_id,
    truthy-some e.permission,
    text_or-some e.permission,
  )

  get-forgotten :
      (tenant : Text) (e : CreateAclDto) (j : Text) (v : CacheValue) (c : CacheStore)
      → env.cache_get j (forgotten tenant e c) ≡ some v
      → (env.cache_get j c ≡ some v)
        × ((acl_key tenant e.user_id e.resource_type e.resource_id e.permission == j) ≡ false)
        × ((authz_key tenant e.user_id e.permission e.resource_type e.resource_id == j) ≡ false)
  get-forgotten tenant e j v c h = ground (
    arith,
    get-del j (authz_key tenant e.user_id e.permission e.resource_type e.resource_id)
        (env.cache_del (acl_key tenant e.user_id e.resource_type e.resource_id e.permission) c),
    get-del j (acl_key tenant e.user_id e.resource_type e.resource_id e.permission) c,
  )

  -- Handling the message about an entry, none of whose texts is empty, leaves a cache that agrees
  -- with the tables after the change, if it agreed with those before and the change concerns this
  -- entry only.
  pub handle_acl_changed-IsCoherent :
      (tenant : Text) (e : CreateAclDto) (w : World) (db' : Db)
      → is_filled tenant e ≡ true
      → IsCoherent w.db w.now w.cache
      → SameButEntry tenant e w.now w.db db'
      → IsCoherent db' w.now (handle_acl_changed (announcement tenant e) w).1.cache
  handle_acl_changed-IsCoherent tenant e w db' f h s =
      rw (handle_acl_changed_eq tenant e w f) (record {
        decisions = λ t u p y i v ht hu hp hy k.
            let (old, a, b) = get-forgotten tenant e (authz_key t u p y i) v w.cache k in
            let d = h.decisions t u p y i v ht hu hp hy old in
            let o = s.others t u y i p (ground (arith, decision_key_of tenant e t u p y i)) in
            record {
              effective = d.effective;
              computed = s.effective t u ∙ d.computed;
              decided = rw o d.decided;
            };
        sets = λ t u v ht k.
            let (old, a, b) = get-forgotten tenant e (perms_key t u) v w.cache k in
            let d = h.sets t u v ht old in
            record {
              effective = d.effective;
              computed = s.effective t u ∙ d.computed;
              held = d.held;
            };
        entries = λ t u y i p v ht hu hy hi k.
            let (old, a, b) = get-forgotten tenant e (acl_key t u y i p) v w.cache k in
            let o = s.others t u y i p (ground (arith, entry_key_of tenant e t u y i p)) in
            h.entries t u y i p v ht hu hy hi old ∙ sym o;
      })
