-- ===== src/Authorization/Coherence.antt =====
-- A cache that agrees with the database. The parts of a key that hold no colon are told apart; the
-- text `*` stands for a resource that is not given.
use generic_iam.Prelude.{
  ℕ, Text, lit, ◌≡◌, ap, Bool, ◌&&◌, ◌||◌, not, some, List, ◌==◌, any, ◌∙◌, sym, map, inl, inr,
}
use mathlib.Core.Path.{subst}
use generic_iam.Entities.{Db, PermissionEntity}
use generic_iam.Errors.{ok}
use generic_iam.Env.{Env, CacheStore, CacheValue, flag, perms}
use generic_iam.Matcher.{has_permission}
use generic_iam.Cache.{perms_key, acl_key, authz_key}
use generic_iam.Cache.Keys.{
  NoColon, perms_key-injective, authz_key-injective, acl_key-injective, authz_key-ne-perms_key,
  authz_key-ne-acl_key, perms_key-ne-acl_key,
}
use generic_iam.Rbac.Override.Reads.{effective_in}
use generic_iam.Acl.{CreateAclDto, same_entry, is_true}
use generic_iam.Authorization.{set_of}

abbrev pub codes_of : List PermissionEntity → List Text
codes_of ps = set_of (map (λ p. p.code) ps)

abbrev pub entry : Text → Text → Text → Text → CreateAclDto
entry user type id permission = record {
  user_id = user;
  resource_type = type;
  resource_id = id;
  permission = permission;
}

abbrev pub is_star : Text → Bool
is_star t = t == lit "*"

module _ ⦃env : Env⦄ where
  -- The decision that the tables give: by the permissions in effect, or by an entry of the ACL if
  -- both parts of a resource are given.
  pub record Decides (db : Db) (now : ℕ) (tenant user permission type id : Text) (b : Bool)
      : Type 0 where
    pub effective : List PermissionEntity
    pub computed : effective_in db now user tenant ≡ ok effective
    pub decided : b ≡ (
        has_permission (codes_of effective) permission
        || ((not (is_star type) && not (is_star id))
            && any (same_entry tenant (entry user type id permission)) db.acls))

  pub record HoldsSet (db : Db) (now : ℕ) (tenant user : Text) (v : CacheValue) : Type 0 where
    pub effective : List PermissionEntity
    pub computed : effective_in db now user tenant ≡ ok effective
    pub held : v ≡ perms (codes_of effective)

  pub record IsCoherent (db : Db) (now : ℕ) (c : CacheStore) : Type 0 where
    pub decisions :
        (t u p y i : Text) (v : CacheValue)
        → NoColon t
        → NoColon u
        → NoColon p
        → NoColon y
        → env.cache_get (authz_key t u p y i) c ≡ some v
        → Decides db now t u p y i (is_true v)
    pub sets :
        (t u : Text) (v : CacheValue)
        → NoColon t
        → env.cache_get (perms_key t u) c ≡ some v
        → HoldsSet db now t u v
    pub entries :
        (t u y i p : Text) (v : CacheValue)
        → NoColon t
        → NoColon u
        → NoColon y
        → NoColon i
        → env.cache_get (acl_key t u y i p) c ≡ some v
        → is_true v ≡ any (same_entry t (entry u y i p)) db.acls

  -- A decision for the same texts is the same decision.
  same-Decides :
      (db : Db) (now : ℕ) (t u p y i t' u' p' y' i' : Text) (b b' : Bool)
      → (t ≡ t') × (u ≡ u') × (p ≡ p') × (y ≡ y') × (i ≡ i')
      → b ≡ b'
      → Decides db now t u p y i b
      → Decides db now t' u' p' y' i' b'
  same-Decides db now t u p y i t' u' p' y' i' b b' (et, eu, ep, ey, ei) eb d =
      subst (λ x. Decides db now x u' p' y' i' b') et
        (subst (λ x. Decides db now t x p' y' i' b') eu
          (subst (λ x. Decides db now t u x y' i' b') ep
            (subst (λ x. Decides db now t u p x i' b') ey
              (subst (λ x. Decides db now t u p y x b') ei
                (subst (λ x. Decides db now t u p y i x) eb d)))))

  same_entries :
      (db : Db) (t u y i p t' u' y' i' p' : Text) (b b' : Bool)
      → (t ≡ t') × (u ≡ u') × (y ≡ y') × (i ≡ i') × (p ≡ p')
      → b ≡ b'
      → b ≡ any (same_entry t (entry u y i p)) db.acls
      → b' ≡ any (same_entry t' (entry u' y' i' p')) db.acls
  same_entries db t u y i p t' u' y' i' p' b b' (et, eu, ey, ei, ep) eb d =
      subst (λ x. b' ≡ any (same_entry x (entry u' y' i' p')) db.acls) et
        (subst (λ x. b' ≡ any (same_entry t (entry x y' i' p')) db.acls) eu
          (subst (λ x. b' ≡ any (same_entry t (entry u x i' p')) db.acls) ey
            (subst (λ x. b' ≡ any (same_entry t (entry u y x p')) db.acls) ei
              (subst (λ x. b' ≡ any (same_entry t (entry u y i x)) db.acls) ep (sym eb ∙ d)))))

  module _ (db : Db) (now ttl : ℕ) (c : CacheStore) (h : IsCoherent db now c) where
    pub set_decision-IsCoherent :
        (t u p y i : Text) (b : Bool)
        → NoColon t
        → NoColon u
        → NoColon p
        → NoColon y
        → Decides db now t u p y i b
        → IsCoherent db now (env.cache_set (authz_key t u p y i) (flag b) ttl c)
    set_decision-IsCoherent t u p y i b ht hu hp hy d = record {
      decisions = λ t' u' p' y' i' v ht' hu' hp' hy' e.
          elim (env.get_set (authz_key t' u' p' y' i') (authz_key t u p y i) (flag b) v ttl c e) [
            | inl (same, ev) ↦
                same-Decides db now t u p y i t' u' p' y' i' b (is_true v)
                  (authz_key-injective t u p y i t' u' p' y' i' ht ht' hu hu' hp hp' hy hy' same)
                  (ap is_true ev) d
            | inr old ↦ h.decisions t' u' p' y' i' v ht' hu' hp' hy' old
          ];
      sets = λ t' u' v ht' e.
          elim (env.get_set (perms_key t' u') (authz_key t u p y i) (flag b) v ttl c e) [
            | inl (same, ev) ↦ absurd (authz_key-ne-perms_key t u p y i t' u' same)
            | inr old ↦ h.sets t' u' v ht' old
          ];
      entries = λ t' u' y' i' p' v ht' hu' hy' hi' e.
          elim (env.get_set (acl_key t' u' y' i' p') (authz_key t u p y i) (flag b) v ttl c e) [
            | inl (same, ev) ↦ absurd (authz_key-ne-acl_key t u p y i t' u' y' i' p' same)
            | inr old ↦ h.entries t' u' y' i' p' v ht' hu' hy' hi' old
          ];
    }

    pub set_permissions-IsCoherent :
        (t u : Text) (v : CacheValue)
        → NoColon t
        → HoldsSet db now t u v
        → IsCoherent db now (env.cache_set (perms_key t u) v ttl c)
    set_permissions-IsCoherent t u x ht d = record {
      decisions = λ t' u' p' y' i' v ht' hu' hp' hy' e.
          elim (env.get_set (authz_key t' u' p' y' i') (perms_key t u) x v ttl c e) [
            | inl (same, ev) ↦ absurd (authz_key-ne-perms_key t' u' p' y' i' t u (sym same))
            | inr old ↦ h.decisions t' u' p' y' i' v ht' hu' hp' hy' old
          ];
      sets = λ t' u' v ht' e. elim (env.get_set (perms_key t' u') (perms_key t u) x v ttl c e) [
        | inl (same, ev) ↦
            let inj = perms_key-injective t u t' u' ht ht' same in
            subst (λ z. HoldsSet db now z u' v) inj.0
              (subst (λ z. HoldsSet db now t z v) inj.1 (subst (λ z. HoldsSet db now t u z) ev d))
        | inr old ↦ h.sets t' u' v ht' old
      ];
      entries = λ t' u' y' i' p' v ht' hu' hy' hi' e.
          elim (env.get_set (acl_key t' u' y' i' p') (perms_key t u) x v ttl c e) [
            | inl (same, ev) ↦ absurd (perms_key-ne-acl_key t u t' u' y' i' p' same)
            | inr old ↦ h.entries t' u' y' i' p' v ht' hu' hy' hi' old
          ];
    }

    pub set_entry-IsCoherent :
        (t u y i p : Text) (b : Bool)
        → NoColon t
        → NoColon u
        → NoColon y
        → NoColon i
        → b ≡ any (same_entry t (entry u y i p)) db.acls
        → IsCoherent db now (env.cache_set (acl_key t u y i p) (flag b) ttl c)
    set_entry-IsCoherent t u y i p b ht hu hy hi d = record {
      decisions = λ t' u' p' y' i' v ht' hu' hp' hy' e.
          elim (env.get_set (authz_key t' u' p' y' i') (acl_key t u y i p) (flag b) v ttl c e) [
            | inl (same, ev) ↦ absurd (authz_key-ne-acl_key t' u' p' y' i' t u y i p (sym same))
            | inr old ↦ h.decisions t' u' p' y' i' v ht' hu' hp' hy' old
          ];
      sets = λ t' u' v ht' e.
          elim (env.get_set (perms_key t' u') (acl_key t u y i p) (flag b) v ttl c e) [
            | inl (same, ev) ↦ absurd (perms_key-ne-acl_key t' u' t u y i p (sym same))
            | inr old ↦ h.sets t' u' v ht' old
          ];
      entries = λ t' u' y' i' p' v ht' hu' hy' hi' e.
          elim (env.get_set (acl_key t' u' y' i' p') (acl_key t u y i p) (flag b) v ttl c e) [
            | inl (same, ev) ↦
                same_entries db t u y i p t' u' y' i' p' b (is_true v)
                  (acl_key-injective t u y i p t' u' y' i' p' ht ht' hu hu' hy hy' hi hi' same)
                  (ap is_true ev) d
            | inr old ↦ h.entries t' u' y' i' p' v ht' hu' hy' hi' old
          ];
    }
