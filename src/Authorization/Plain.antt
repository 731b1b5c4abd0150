-- ===== src/Authorization/Plain.antt =====
-- Requests whose texts their keys tell apart, and AclService.check on a cache that agrees with the
-- tables, as src/modules/authorization/authorization.service.ts calls it.
use generic_iam.Prelude.{
  Text, lit, ◌≡◌, refl, true, false, not, Option, none, some, [], ◌∷◌, any, arith, truthy, text_or,
  ltb, inl, inr, Option-cases,
}
use generic_iam.Entities.{Db}
use generic_iam.Errors.{ok}
use generic_iam.Env.{Env, CacheStore, flag}
use generic_iam.App.{World}
use generic_iam.Cache.{acl_key}
use generic_iam.Cache.Keys.{NoColon}
use generic_iam.Acl
use generic_iam.Acl.{AclDecision, CreateAclDto, same_entry, is_true}
use generic_iam.Authorization.{CheckAuthzDto}
use generic_iam.Authorization.Coherence.{IsCoherent, is_star, set_entry-IsCoherent}

-- A request whose texts are told apart by their key: no part holds the separator, and `*` does not
-- name a resource.
pub record IsPlain (dto : CheckAuthzDto) : Type 0 where
  pub tenant : NoColon dto.tenant_id
  pub user : NoColon dto.user_id
  pub permission : NoColon dto.permission
  pub type : NoColon (text_or dto.resource_type (lit "*"))
  pub id : NoColon (text_or dto.resource_id (lit "*"))
  pub type_given : is_star (text_or dto.resource_type (lit "*")) ≡ not (truthy dto.resource_type)
  pub id_given : is_star (text_or dto.resource_id (lit "*")) ≡ not (truthy dto.resource_id)

pub text_or_given : (o : Option Text) (d : Text) → truthy o ≡ true → text_or o [] ≡ text_or o d
text_or_given none d h = cc
text_or_given (some []) d h = cc
text_or_given (some (c ∷ t)) d h = refl

module _ ⦃env : Env⦄ where
  abbrev pub Coherent : World → Type 0
  Coherent w = IsCoherent w.db w.now w.cache

  count_any :
      (t : Text) (dto : CreateAclDto) (db : Db)
      → ltb 0 (env.count (same_entry t dto) db.acls) ≡ any (same_entry t dto) db.acls
  count_any t dto db = ground (arith, env.count_pos (same_entry t dto) db.acls)

  -- AclService.check answers whether there is an entry for the user, the resource and the
  -- permission, from the cache or from the table.
  pub acl_check_lem :
      (t : Text) (dto : CreateAclDto) (w : World)
      → NoColon t
      → NoColon dto.user_id
      → NoColon dto.resource_type
      → NoColon dto.resource_id
      → Coherent w
      → (d : AclDecision) × (c : CacheStore) × (Acl.check t dto w ≡ (ok d, record w { cache = c }))
        × (d.allowed ≡ any (same_entry t dto) w.db.acls)
        × IsCoherent w.db w.now c
  unfolding Acl.check
  acl_check_lem t dto w ht hu hy hi h =
      let key = acl_key t dto.user_id dto.resource_type dto.resource_id dto.permission in
      let found = ltb 0 (env.count (same_entry t dto) w.db.acls) in
      elim (Option-cases (env.cache_get key w.cache)) [
        | inl miss ↦ (
          record { allowed = found; from_cache = false },
          env.cache_set key (flag found) 300000 w.cache,
          ground arith,
          count_any t dto w.db,
          set_entry-IsCoherent w.db w.now 300000 w.cache h t dto.user_id dto.resource_type
              dto.resource_id dto.permission found ht hu hy hi (count_any t dto w.db),
        )
        | inr (v, e) ↦ (
          record { allowed = is_true v; from_cache = true },
          w.cache,
          ground arith,
          h.entries t dto.user_id dto.resource_type dto.resource_id dto.permission v ht hu hy hi e,
          h,
        )
      ]
