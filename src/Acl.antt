-- ===== src/Acl.antt =====
-- src/modules/acl/acl.service.ts: permissions of a user on a single resource.
pub mod Laws
use generic_iam.Prelude.{
  ℕ, Text, lit, Bool, true, false, ◌&&◌, Option, none, some, List, [], ◌∷◌, ◌==◌, ltb, truthy,
  text_or,
}
use generic_iam.Entities.{ResourceAclEntity}
use generic_iam.Constants.{iam_audit, iam_acl_changed, acl_created, acl_deleted, AuditEventType}
use generic_iam.Errors.{
  Exception, Result, ok, err, plain, about, not_found, query_failed, foreign_key_violation,
  on_tenant_id, on_user_id,
}
use generic_iam.Env.{Env, CacheValue, flag, perms}
use generic_iam.Json.{Fields, text, field, end}
use generic_iam.App.{
  App, Done, World, BaseEvent, acls, find_one, find_and_count, count, save, remove, emit, pure,
  raise, or_raise, fresh_base, ◌>>=◌, ◌>>◌,
}
use generic_iam.Cache.{acl_key, get, set}
use generic_iam.Rbac.Role.{Paginated}

pub record CreateAclDto : Type 0 where
  pub user_id : Text
  pub resource_type : Text
  pub resource_id : Text
  pub permission : Text

abbrev pub CheckAclDto : Type 0
CheckAclDto = CreateAclDto

pub record AclQueryDto : Type 0 where
  pub user_id : Option Text
  pub resource_type : Option Text
  pub resource_id : Option Text
  pub page : Option ℕ
  pub limit : Option ℕ

pub record AclDecision : Type 0 where
  pub allowed : Bool
  pub from_cache : Bool

abbrev pub same_entry : Text → CreateAclDto → ResourceAclEntity → Bool
same_entry tenant dto a =
    a.tenant_id == tenant
    && a.user_id == dto.user_id
    && a.resource_type == dto.resource_type
    && a.resource_id == dto.resource_id
    && a.permission == dto.permission

-- A change is announced to the caches, and to the audit log.
abbrev pub changed_event : AuditEventType → Text → ResourceAclEntity → BaseEvent
changed_event type tenant a = record {
  event_type = type;
  tenant_id = some tenant;
  actor_id = none;
  resource_type = some a.resource_type;
  resource_id = some a.resource_id;
  user_id = some a.user_id;
  payload = field "permission" (text a.permission) end;
}

abbrev pub audit_event : AuditEventType → Text → Text → ResourceAclEntity → BaseEvent
audit_event type tenant actor a = record {
  event_type = type;
  tenant_id = some tenant;
  actor_id = some actor;
  resource_type = some a.resource_type;
  resource_id = some a.resource_id;
  user_id = none;
  payload = field "user_id" (text a.user_id) (field "permission" (text a.permission) end);
}

-- The `catch` around the insertion: a foreign key that fails names what is missing.
abbrev explain : Text → CreateAclDto → Exception → Exception
explain tenant dto (query_failed (foreign_key_violation on_tenant_id)) =
    not_found (about "Tenant with ID " tenant " not found")
explain tenant dto (query_failed (foreign_key_violation on_user_id)) =
    not_found (about "User with ID " dto.user_id " not found")
explain tenant dto e = e

abbrev catching : {A : Type 0} → (Exception → Exception) → App A → App A
catching f m w = let (r, w') = m w in elim r [ ok a ↦ (ok a, w') | err e ↦ (err (f e), w') ]

abbrev pub same_if_given : Option Text → Text → Bool
same_if_given none actual = true
same_if_given (some []) actual = true
same_if_given (some (c ∷ cs)) actual = actual == c ∷ cs

abbrev pub or_number : Option ℕ → ℕ → ℕ
or_number none d = d
or_number (some n) d = n

-- What a cached value says; an array counts as true.
abbrev pub is_true : CacheValue → Bool
is_true (flag b) = b
is_true (perms l) = true

module _ ⦃env : Env⦄ where
  abbrev put_acl : Text → CreateAclDto → Text → Option ResourceAclEntity → App ResourceAclEntity
  put_acl tenant dto actor (some existing) = pure existing
  put_acl tenant dto actor none = do
    base ← fresh_base
    saved ← catching (explain tenant dto) (
        save acls (record {
          owner = record { base = base; tenant_id = tenant };
          user_id = dto.user_id;
          resource_type = dto.resource_type;
          resource_id = dto.resource_id;
          permission = dto.permission;
        }))
    emit iam_acl_changed (changed_event acl_created tenant saved)
    emit iam_audit (audit_event acl_created tenant actor saved)
    pure saved

  unfoldable pub create_acl : Text → CreateAclDto → Text → App ResourceAclEntity
  create_acl tenant dto actor = do
    existing ← find_one acls (same_entry tenant dto)
    put_acl tenant dto actor existing

  -- The conditions on what the query leaves out are not made.
  unfoldable pub find_all_acls : Text → AclQueryDto → App (Paginated ResourceAclEntity)
  find_all_acls tenant query = do
    let page = or_number query.page 1
    let limit = or_number query.limit 20
    found ←
        find_and_count acls
          (λ a.
            a.tenant_id == tenant
            && same_if_given query.user_id a.user_id
            && same_if_given query.resource_type a.resource_type
            && same_if_given query.resource_id a.resource_id)
          page limit
    pure (record { items = found.0; total = found.1; page = page; limit = limit })

  unfoldable pub delete_acl : Text → Text → Text → App Done
  delete_acl id tenant actor = do
    found ← find_one acls (λ a. a.id == id && a.tenant_id == tenant)
    acl ← or_raise found (not_found (plain "ACL not found"))
    remove acls acl
    emit iam_acl_changed (changed_event acl_deleted tenant acl)
    emit iam_audit (audit_event acl_deleted tenant actor acl)

  abbrev check_cached : Text → CheckAclDto → Text → Option CacheValue → App AclDecision
  check_cached tenant dto key (some v) = pure (record { allowed = is_true v; from_cache = true })
  check_cached tenant dto key none = do
    found ← count acls (same_entry tenant dto)
    let allowed = ltb 0 found
    set key (flag allowed) (some 300)
    pure (record { allowed = allowed; from_cache = false })

  unfoldable pub check : Text → CheckAclDto → App AclDecision
  check tenant dto = do
    let key = acl_key tenant dto.user_id dto.resource_type dto.resource_id dto.permission
    cached ← get key
    check_cached tenant dto key cached
