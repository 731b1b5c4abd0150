-- ===== src/Rls/Laws.antt =====
-- Row-level security against the services: what they read of the rows that a tenant sees.
use generic_iam.Prelude.{
  implies, implies_lem, ℕ, ◌-◌, ◌*◌, ◌≤◌, length, length-map, Text, ◌≡◌, Bool, true, ◌&&◌, List,
  map, arith, ◌==◌, ==_eq, has, any, any-witness, any-select, any-map, any_ext, any_mono, select,
  sym, ◌∙◌,
}
use generic_iam.Entities.{Db, UserRoleEntity, RolePermissionEntity, OverrideType}
use generic_iam.Env.{Env}
use generic_iam.Rbac.Override.{is_grant}
use generic_iam.Rbac.Override.Reads.{is_active, is_deny}
use generic_iam.Rbac.Override.Laws.{role_gives, override_names, entitled}
use generic_iam.Rbac.Role.{visible}
use generic_iam.Rbac.Assignment.Laws.{may_assign}
use generic_iam.Rbac.Assignment.Visible.{is_stray, assigns_visible}
use generic_iam.Errors.{ok}
use generic_iam.App.{World}
use generic_iam.Guards.{Request}
use generic_iam.Base
use generic_iam.Rbac.Role.{Paginated}
use generic_iam.Route.Accounts.{UserResponseDto, response, find_all_handler}
use generic_iam.Rls.{world_seen_by, of_tenant, role_policy, link_policy, seen_by}

link_policy_lem :
    (tenant : Text) (db : Db) (rp : RolePermissionEntity)
    → link_policy tenant db rp ≡ any (may_assign rp.role_id tenant) db.roles
unfolding has visible
link_policy_lem tenant db rp =
    any-map (λ r. r.id) (λ x. x == rp.role_id) (select (role_policy tenant) db.roles)
    ∙ any-select (role_policy tenant) (λ r. r.id == rp.role_id) db.roles
    ∙ any_ext (λ r. r.id == rp.role_id && role_policy tenant r) (may_assign rp.role_id tenant)
        db.roles (λ r. ground arith)

module _ ⦃env : Env⦄ where
  holds-seen :
      (user tenant : Text) (now : ℕ) (rows : List UserRoleEntity) (role : Text)
      → any
          (λ ur. ur.role_id == role && is_active user tenant now ur)
          (select (λ ur. of_tenant tenant ur.tenant_id) rows)
        ≡ any (λ ur. ur.role_id == role && is_active user tenant now ur) rows
  holds-seen user tenant now rows role =
      any-select (λ ur. of_tenant tenant ur.tenant_id)
        (λ ur. ur.role_id == role && is_active user tenant now ur) rows
      ∙ any_ext
          (λ ur.
            (ur.role_id == role && is_active user tenant now ur) && of_tenant tenant ur.tenant_id)
          (λ ur. ur.role_id == role && is_active user tenant now ur) rows (λ ur. ground arith)

  -- A link to a role that the user holds is seen.
  held_seen :
      (user tenant : Text) (now : ℕ) (db : Db) (rp : RolePermissionEntity)
      → assigns_visible tenant db ≡ true
      → any (λ ur. ur.role_id == rp.role_id && is_active user tenant now ur) db.user_roles ≡ true
      → link_policy tenant db rp ≡ true
  held_seen user tenant now db rp h k =
      let (ur, held, seen) =
        any-witness (λ ur. ur.role_id == rp.role_id && is_active user tenant now ur)
          (is_stray tenant db.roles) db.user_roles k (ground arith) in
      let same : ur.role_id ≡ rp.role_id = ==_eq ur.role_id rp.role_id (ground arith) in
      let there : any (may_assign ur.role_id tenant) db.roles ≡ true = ground arith in
      link_policy_lem tenant db rp ∙ rw same at there

  module _ (user tenant : Text) (now : ℕ) (db : Db) where
    links-seen :
        (i : Text)
        → assigns_visible tenant db ≡ true
        → any
            (λ rp.
              rp.permission_id == i
              && any
                  (λ ur. ur.role_id == rp.role_id && is_active user tenant now ur)
                  (select (λ ur. of_tenant tenant ur.tenant_id) db.user_roles))
            (select (link_policy tenant db) db.role_permissions)
          ≡ any
              (λ rp.
                rp.permission_id == i
                && any
                    (λ ur. ur.role_id == rp.role_id && is_active user tenant now ur)
                    db.user_roles)
              db.role_permissions
    links-seen i h =
        any-select (link_policy tenant db)
          (λ rp.
            rp.permission_id == i
            && any (λ ur. ur.role_id == rp.role_id && is_active user tenant now ur)
                (select (λ ur. of_tenant tenant ur.tenant_id) db.user_roles))
          db.role_permissions
        ∙ any_ext
            (λ rp.
              (rp.permission_id == i
                && any (λ ur. ur.role_id == rp.role_id && is_active user tenant now ur)
                    (select (λ ur. of_tenant tenant ur.tenant_id) db.user_roles))
              && link_policy tenant db rp)
            (λ rp.
              rp.permission_id == i
              && any (λ ur. ur.role_id == rp.role_id && is_active user tenant now ur) db.user_roles)
            db.role_permissions
            (λ rp. ground (
              arith,
              holds-seen user tenant now db.user_roles rp.role_id,
              held_seen user tenant now db rp h,
            ))

    role_gives-seen :
        (i : Text)
        → assigns_visible tenant db ≡ true
        → role_gives user tenant now (seen_by tenant db) i ≡ role_gives user tenant now db i
    unfolding seen_by
    role_gives-seen i h =
        any_ext
          (λ p.
            p.id == i
            && any
                (λ rp.
                  rp.permission_id == p.id
                  && any (λ ur. ur.role_id == rp.role_id && is_active user tenant now ur)
                      (select (λ ur. of_tenant tenant ur.tenant_id) db.user_roles))
                (select (link_policy tenant db) db.role_permissions))
          (λ p.
            p.id == i
            && any
                (λ rp.
                  rp.permission_id == p.id
                  && any (λ ur. ur.role_id == rp.role_id && is_active user tenant now ur)
                      db.user_roles)
                db.role_permissions)
          db.permissions (λ p. ground (arith, links-seen p.id h))

    override_names-seen :
        (kind : OverrideType → Bool) (i : Text)
        → override_names kind user tenant (seen_by tenant db) i
          ≡ override_names kind user tenant db i
    unfolding seen_by
    override_names-seen kind i =
        any-select (λ o. of_tenant tenant o.tenant_id)
          (λ o.
            (o.permission_id == i && kind o.override_type)
            && (o.user_id == user && o.tenant_id == tenant))
          db.overrides
        ∙ any_ext
            (λ o.
              ((o.permission_id == i && kind o.override_type)
                && (o.user_id == user && o.tenant_id == tenant))
              && of_tenant tenant o.tenant_id)
            (λ o.
              (o.permission_id == i && kind o.override_type)
              && (o.user_id == user && o.tenant_id == tenant))
            db.overrides (λ o. ground arith)

    -- Row-level security takes no right from a user and gives none: where each assignment of the
    -- tenant is to a role that the tenant may see, the permissions that the tables entitle a user of
    -- the tenant to are the same in the rows that the tenant sees as in all rows.
    pub entitled-seen :
        (i : Text)
        → assigns_visible tenant db ≡ true
        → entitled user tenant now (seen_by tenant db) i ≡ entitled user tenant now db i
    entitled-seen i h =
        ground (
          arith,
          role_gives-seen i h,
          override_names-seen is_grant i,
          override_names-seen is_deny i,
        )

module _ ⦃env : Env⦄ where
  -- `GET /users` makes no condition on the tenant. Under row-level security it still lists users of
  -- the tenant only: each user that the handler shows of the rows that a tenant sees is a user of
  -- that tenant in the table, and at most `limit` are shown.
  pub find_all-isolated :
      (tenant : Text) (page limit : ℕ) (r : Request) (w : World) (q : UserResponseDto → Bool)
      (shown : Paginated UserResponseDto)
      → (find_all_handler page limit r (world_seen_by tenant w)).0 ≡ ok shown
      → (implies (any q shown.items) (any (λ u. q (response u) && u.tenant_id == tenant) w.db.users)
          ≡ true)
        × (length shown.items ≤ limit)
  unfolding find_all_handler Base.find_paginated seen_by
  find_all-isolated tenant page limit r w q shown h =
      let rows = select (λ u. of_tenant tenant u.tenant_id) w.db.users in
      let found = env.page (λ u. true) ((page - 1) * limit) limit rows in
      let same : map response found ≡ shown.items = ground arith in
      let listed : any q shown.items ≡ any (λ u. q (response u)) found =
        rw (← same) (any-map response q found) in
      (
        implies_lem (any q shown.items)
            (any (λ u. q (response u) && u.tenant_id == tenant) w.db.users)
            (λ x.
              any_mono (λ u. ((q (response u) && true) && of_tenant tenant u.tenant_id))
                (λ u. q (response u) && u.tenant_id == tenant) w.db.users (λ u z. ground arith)
                (sym (
                    any-select (λ u. of_tenant tenant u.tenant_id) (λ u. q (response u) && true)
                      w.db.users)
                  ∙ env.any_page (λ u. true) (λ u. q (response u)) ((page - 1) * limit) limit rows
                      (sym listed ∙ x))),
        rw (← same) (
            rw (length-map response found)
              (env.page_within (λ u. true) ((page - 1) * limit) limit rows)),
      )
