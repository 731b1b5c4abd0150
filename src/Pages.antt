-- ===== src/Pages.antt =====
-- The pages of roles and of ACL entries, from findAllForTenant of src/modules/rbac/role.service.ts and
-- findAllAcls of src/modules/acl/acl.service.ts.
use generic_iam.Prelude.{
  refl, Option, none, some, [], ◌∷◌, ◌||◌, ltb, same_text, is_empty, text_or, implies, implies_lem,
  ℕ, ◌-◌, ◌*◌, ◌≤◌, Text, ◌≡◌, Bool, true, ◌&&◌, any, any_mono, length, ◌==◌, arith,
}
use generic_iam.Entities.{RoleEntity, ResourceAclEntity}
use generic_iam.Errors.{ok}
use generic_iam.Env.{Env}
use generic_iam.App.{World}
use generic_iam.Rbac.Role.{Paginated, find_all_for_tenant, visible}
use generic_iam.Acl.{AclQueryDto, find_all_acls, same_if_given, or_number}

-- The value is the one that is asked for, or none is asked for.
abbrev pub has_value : Option Text → Text → Bool
has_value asked value = is_empty (text_or asked []) || value == text_or asked []

value_lem : (o : Option Text) (t : Text) → same_if_given o t ≡ true → has_value o t ≡ true
value_lem none t h = refl
value_lem (some []) t h = refl
value_lem (some (c ∷ cs)) t h = h

module _ ⦃env : Env⦄ where
  -- A page of roles that a tenant is shown holds at most as many as the limit that was asked for, and
  -- only roles of the table that are the tenant's own or system roles; the total is above
  -- zero if the table has such a role.
  pub find_all_for_tenant-visible :
      (tenant : Text) (page limit : ℕ) (w : World) (shown : Paginated RoleEntity)
      (q : RoleEntity → Bool)
      → (find_all_for_tenant tenant page limit w).0 ≡ ok shown
      → (length shown.items ≤ limit)
        × (implies
              (any q shown.items)
              (any (λ r. q r && (same_text r.tenant_id (some tenant) || r.is_system)) w.db.roles)
            ≡ true)
        × (implies
              (any (λ r. same_text r.tenant_id (some tenant) || r.is_system) w.db.roles)
              (ltb 0 shown.total)
            ≡ true)
  unfolding find_all_for_tenant visible
  find_all_for_tenant-visible tenant page limit w shown q h =
      let skip = (page - 1) * limit in
      let same : env.page (visible tenant) skip limit w.db.roles ≡ shown.items = ground arith in
      (
        rw (← same) (env.page_within (visible tenant) skip limit w.db.roles),
        implies_lem (any q shown.items) (any (λ r. q r && visible tenant r) w.db.roles)
            (λ k. env.any_page (visible tenant) q skip limit w.db.roles (rw (← same) at k)),
        implies_lem (any (visible tenant) w.db.roles) (ltb 0 shown.total)
            (λ k. ground (arith, env.count_pos (visible tenant) w.db.roles)),
      )

  -- A page of ACL entries that a tenant is shown holds at most as many as the limit that the answer
  -- states, and only entries of the table that belong to the tenant and have the user, the type and
  -- the id of the resource that the query names, as far as it names them.
  pub find_all_acls-own :
      (tenant : Text) (query : AclQueryDto) (w : World) (shown : Paginated ResourceAclEntity)
      (q : ResourceAclEntity → Bool)
      → (find_all_acls tenant query w).0 ≡ ok shown
      → (length shown.items ≤ shown.limit)
        × (implies (any q shown.items) (
              any
                (λ a.
                  q a
                  && (a.tenant_id == tenant
                      && has_value query.user_id a.user_id
                      && has_value query.resource_type a.resource_type
                      && has_value query.resource_id a.resource_id))
                w.db.acls)
            ≡ true)
  unfolding find_all_acls
  find_all_acls-own tenant query w shown q h =
      let limit = or_number query.limit 20 in
      let skip = (or_number query.page 1 - 1) * limit in
      let asked : ResourceAclEntity → Bool = λ a.
        a.tenant_id == tenant
        && same_if_given query.user_id a.user_id
        && same_if_given query.resource_type a.resource_type
        && same_if_given query.resource_id a.resource_id in
      let own : ResourceAclEntity → Bool = λ a.
        q a
        && (a.tenant_id == tenant
            && has_value query.user_id a.user_id
            && has_value query.resource_type a.resource_type
            && has_value query.resource_id a.resource_id) in
      let same : env.page asked skip limit w.db.acls ≡ shown.items = ground arith in
      let bound : limit ≡ shown.limit = ground arith in
      (
        rw (← same, ← bound) (env.page_within asked skip limit w.db.acls),
        implies_lem (any q shown.items) (any own w.db.acls) (λ k.
            any_mono (λ a. q a && asked a) own w.db.acls
              (λ a m. ground (
                arith,
                value_lem query.user_id a.user_id,
                value_lem query.resource_type a.resource_type,
                value_lem query.resource_id a.resource_id,
              ))
              (env.any_page asked q skip limit w.db.acls (rw (← same) at k))),
      )
