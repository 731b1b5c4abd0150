-- ===== src/Authorization/Laws.antt =====
-- Laws of AuthorizationService.check of src/modules/authorization/authorization.service.ts: its
-- answers against the tables, and the cache that it leaves.
use mathlib.Core.Path.{subst, ap₂}
use generic_iam.Prelude.{
  Text, lit, ◌≡◌, refl, Bool, true, false, ◌&&◌, ◌||◌, not, some, List, [], any, if◌then◌else◌,
  arith, ◌∙◌, sym, truthy, text_or, inl, inr, Option-cases, Bool-cases, &&-true,
}
use generic_iam.Entities.{PermissionEntity}
use generic_iam.Errors.{ok}
use generic_iam.Env.{Env, CacheStore, CacheValue, flag, perms}
use generic_iam.App.{World}
use generic_iam.Matcher.{has_permission}
use generic_iam.Cache.{perms_key, get_permissions, set_permissions, ttl_ms}
use generic_iam.Cache.Keys.{NoColon}
use generic_iam.Rbac.Override.Reads.{effective_in, get_effective_permissions_eq}
use generic_iam.Acl.{same_entry, is_true}
use generic_iam.Authorization.{
  CheckAuthzDto, AuthzDecision, Source, rbac, acl, cache, none_of_them, decision_key, acl_dto,
  given_resource, effective_set, decide, check,
}
use generic_iam.Authorization.Coherence.{
  Decides, IsCoherent, codes_of, entry, is_star, set_decision-IsCoherent,
  set_permissions-IsCoherent,
}
use generic_iam.Authorization.Plain.{IsPlain, Coherent, text_or_given, acl_check_lem}

module _ ⦃env : Env⦄ where
  module _ (dto : CheckAuthzDto) (w : World) (ps : List PermissionEntity) (h : Coherent w)
      (computed : effective_in w.db w.now dto.user_id dto.tenant_id ≡ ok ps)
      (plain : IsPlain dto) where
    same_effective :
        (qs : List PermissionEntity)
        → effective_in w.db w.now dto.user_id dto.tenant_id ≡ ok qs
        → qs ≡ ps
    same_effective qs e = cc (e, computed)

    effective_set_lem :
        (c : CacheStore) × (effective_set dto w ≡ (ok (codes_of ps), record w { cache = c }))
        × IsCoherent w.db w.now c
    unfolding effective_set get_permissions set_permissions
    effective_set_lem =
        elim (Option-cases (env.cache_get (perms_key dto.tenant_id dto.user_id) w.cache)) [
          | inl miss ↦ (
            env.cache_set (perms_key dto.tenant_id dto.user_id) (perms (codes_of ps)) ttl_ms
                w.cache,
            ground (arith, get_effective_permissions_eq dto.user_id dto.tenant_id w),
            set_permissions-IsCoherent w.db w.now ttl_ms w.cache h dto.tenant_id dto.user_id
                (perms (codes_of ps)) plain.tenant
                (record { effective = ps; computed = computed; held = refl }),
          )
          | inr (v, e) ↦
              let s = h.sets dto.tenant_id dto.user_id v plain.tenant e in
              (w.cache, ground (arith, s.held, same_effective s.effective s.computed), h)
        ]

    abbrev type_text : Text
    type_text = text_or dto.resource_type (lit "*")

    abbrev id_text : Text
    id_text = text_or dto.resource_id (lit "*")

    -- What the tables say.
    abbrev pub answer : Bool
    answer =
        has_permission (codes_of ps) dto.permission
        || (given_resource dto && any (same_entry dto.tenant_id (acl_dto dto)) w.db.acls)

    -- The request's own entry is the one that its key stands for.
    acl_of_texts :
        truthy dto.resource_type ≡ true
        → truthy dto.resource_id ≡ true
        → any (same_entry dto.tenant_id (acl_dto dto)) w.db.acls
          ≡ any
              (same_entry dto.tenant_id (entry dto.user_id type_text id_text dto.permission))
              w.db.acls
    acl_of_texts a b =
        ap₂ (λ y i. any (same_entry dto.tenant_id (entry dto.user_id y i dto.permission)) w.db.acls)
          (text_or_given dto.resource_type (lit "*") a) (text_or_given dto.resource_id (lit "*") b)

    abbrev answer_by_texts : Bool
    answer_by_texts =
        has_permission (codes_of ps) dto.permission
        || ((not (is_star type_text) && not (is_star id_text))
            && any (same_entry dto.tenant_id (entry dto.user_id type_text id_text dto.permission))
                w.db.acls)

    answer_of_texts : answer ≡ answer_by_texts
    answer_of_texts = ground (arith, plain.type_given, plain.id_given, acl_of_texts)

    -- A decision that the tables give is that answer.
    Decides-unique :
        (b : Bool)
        → Decides w.db w.now dto.tenant_id dto.user_id dto.permission type_text id_text b
        → b ≡ answer
    Decides-unique b d =
        subst
          (λ qs. b ≡ (
            has_permission (codes_of qs) dto.permission
            || ((not (is_star type_text) && not (is_star id_text))
                && any
                    (same_entry dto.tenant_id (entry dto.user_id type_text id_text dto.permission))
                    w.db.acls)))
          (same_effective d.effective d.computed) d.decided
        ∙ sym answer_of_texts

    answer-Decides :
        Decides w.db w.now dto.tenant_id dto.user_id dto.permission type_text id_text answer
    answer-Decides = record { effective = ps; computed = computed; decided = answer_of_texts }

    store-IsCoherent :
        (b : Bool) (c : CacheStore)
        → b ≡ answer
        → IsCoherent w.db w.now c
        → IsCoherent w.db w.now (env.cache_set (decision_key dto) (flag b) 300000 c)
    unfolding decision_key
    store-IsCoherent b c e hc =
        set_decision-IsCoherent w.db w.now 300000 c hc dto.tenant_id dto.user_id dto.permission
          type_text id_text b plain.tenant plain.user plain.permission plain.type
          (subst
            (λ x. Decides w.db w.now dto.tenant_id dto.user_id dto.permission type_text id_text x)
            (sym e) answer-Decides)

    abbrev Decided : Type 0
    Decided =
        (d : Bool × Source) × (c : CacheStore) × (decide dto w ≡ (ok d, record w { cache = c }))
        × (d.0 ≡ answer)
        × IsCoherent w.db w.now c

    -- The permissions deny and a resource is given: the ACL decides.
    decide_by_acl :
        has_permission (codes_of ps) dto.permission ≡ false → given_resource dto ≡ true → Decided
    unfolding decide
    decide_by_acl denied given =
        let g = &&-true (truthy dto.resource_type) (truthy dto.resource_id) given in
        let (c, e, hc) = effective_set_lem in
        let plain_type : NoColon (text_or dto.resource_type []) =
          rw (text_or_given dto.resource_type (lit "*") g.0) plain.type in
        let plain_id : NoColon (text_or dto.resource_id []) =
          rw (text_or_given dto.resource_id (lit "*") g.1) plain.id in
        let (r, c', e', a, hc') =
          acl_check_lem dto.tenant_id (acl_dto dto) (record w { cache = c }) plain.tenant plain.user
            plain_type plain_id hc in
        let same : r.allowed ≡ answer = ground (arith, denied, given, a) in
        (
          (r.allowed, acl),
          env.cache_set (decision_key dto) (flag r.allowed) 300000 c',
          ground (arith, e, e', denied, given),
          same,
          store-IsCoherent r.allowed c' same hc',
        )

    decide_lem : Decided
    unfolding decide
    decide_lem =
        let (c, e, hc) = effective_set_lem in
        elim (Bool-cases (has_permission (codes_of ps) dto.permission)) [
          | inl allowed ↦ (
            (true, rbac),
            env.cache_set (decision_key dto) (flag true) 300000 c,
            ground (arith, e, allowed),
            ground (arith, allowed),
            store-IsCoherent true c (ground (arith, allowed)) hc,
          )
          | inr denied ↦ elim (Bool-cases (given_resource dto)) [
            | inl given ↦ decide_by_acl denied given
            | inr missing ↦ (
              (false, rbac),
              env.cache_set (decision_key dto) (flag false) 300000 c,
              ground (arith, e, denied, missing),
              ground (arith, denied, missing),
              store-IsCoherent false c (ground (arith, denied, missing)) hc,
            )
          ]
        ]

    -- On a cache that agrees with the tables, and for effective permissions `ps` that can be
    -- computed, a check of a plain request returns, and allows exactly if `ps` covers the request
    -- or, where both parts of a resource are given, the ACL has an entry for it; whichever of the
    -- tiers answered, the tables are left alone and the cache still agrees with them.
    pub check_lem :
        (d : AuthzDecision) × (c : CacheStore) × (check dto w ≡ (ok d, record w { cache = c }))
        × (d.allowed ≡ answer)
        × IsCoherent w.db w.now c
    unfolding check decision_key
    check_lem = elim (Option-cases (env.cache_get (decision_key dto) w.cache)) [
      | inl miss ↦
          let (d, c, e, a, hc) = decide_lem in
          (
            record {
              allowed = d.0;
              source = if d.0 then d.1 else none_of_them;
              evaluated_at = w.now;
            },
            c,
            ground (arith, e, miss),
            a,
            hc,
          )
      | inr (v, hit) ↦ (
        record { allowed = is_true v; source = cache; evaluated_at = w.now },
        w.cache,
        ground (arith, hit),
        Decides-unique (is_true v) (cached_decision v hit),
        h,
      )
    ]
      where
        cached_decision :
            (v : CacheValue)
            → env.cache_get (decision_key dto) w.cache ≡ some v
            → Decides w.db w.now dto.tenant_id dto.user_id dto.permission type_text id_text
                (is_true v)
        cached_decision v hit =
            h.decisions dto.tenant_id dto.user_id dto.permission type_text id_text v plain.tenant
              plain.user plain.permission plain.type hit
