-- ===== src/Tenant/Creation.antt =====
-- What createTenantWithAdmin of src/modules/tenant/tenant.service.ts leaves in the tables.
use generic_iam.Prelude.{
  ◌+◌, List, none, some, lit, Text, ◌≡◌, true, false, ◌&&◌, ◌||◌, not, Bool, ◌==◌, ==_refl, any,
  arith, Option-cases, Bool-cases, inl, inr,
}
use generic_iam.Entities.{TenantEntity, UserEntity, RoleEntity, UserRoleEntity}
use generic_iam.Errors.{ok, Result-cases}
use generic_iam.Env.{Env, Saved-cases, saved}
use generic_iam.App.{World, tenants, users, user_roles}
use generic_iam.Constants.{tenant_admin, role_name}
use generic_iam.Rows.{found_passes, found_there}
use generic_iam.Tenant.{CreateTenantDto, given, create_tenant_with_admin, create_in_transaction}

module _ ⦃env : Env⦄ where
  abbrev taken : CreateTenantDto → TenantEntity → Bool
  taken dto x = x.name == dto.name || x.slug == dto.slug

  -- The system role that administrators of tenants get.
  abbrev is_admin_role : RoleEntity → Bool
  is_admin_role r = r.name == role_name tenant_admin && r.is_system

  abbrev new_tenant : CreateTenantDto → World → TenantEntity
  new_tenant dto w = record {
    base = record { id = env.uuid w.drawn; created_at = w.now };
    name = dto.name;
    slug = dto.slug;
    is_active = true;
    settings = given dto.settings (lit "{}");
  }

  abbrev new_admin : CreateTenantDto → World → UserEntity
  new_admin dto w = record {
    owner = record {
      base = record { id = env.uuid (w.drawn + 1 + 1); created_at = w.now };
      tenant_id = env.uuid w.drawn;
    };
    email = dto.admin.email;
    password_hash = env.bcrypt_hash (w.drawn + 1) dto.admin.password 12;
    first_name = dto.admin.first_name;
    last_name = dto.admin.last_name;
    is_active = true;
    manager_id = none;
  }

  abbrev new_assignment : RoleEntity → World → UserRoleEntity
  new_assignment r w = record {
    owner = record {
      base = record { id = env.uuid (w.drawn + 1 + 1 + 1); created_at = w.now };
      tenant_id = env.uuid w.drawn;
    };
    user_id = env.uuid (w.drawn + 1 + 1);
    role_id = r.id;
    expires_at = none;
  }

  -- The user belongs to the tenant, has the address, and can log in with the password; and the user
  -- is assigned the administrators' role in that tenant, unless the table has no such role.
  abbrev pub administers :
      Text → CreateTenantDto → List RoleEntity → List UserRoleEntity → UserEntity → Bool
  administers tenant dto rs urs u =
      u.tenant_id == tenant
      && u.email == dto.admin.email
      && u.is_active
      && env.bcrypt_compare dto.admin.password u.password_hash
      && (not (any (λ r. r.name == role_name tenant_admin && r.is_system) rs)
          || any
              (λ ur.
                ur.tenant_id == tenant
                && ur.user_id == u.id
                && any
                    (λ r. r.id == ur.role_id && (r.name == role_name tenant_admin && r.is_system))
                    rs)
              urs)

  admin_made :
      (dto : CreateTenantDto) (w : World) (rows : List UserEntity) (urs : List UserRoleEntity)
      → env.save users.key (new_admin dto w) w.db.users ≡ saved rows
      → (not (any is_admin_role w.db.roles)
          || any
              (λ ur.
                ur.tenant_id == env.uuid w.drawn
                && ur.user_id == env.uuid (w.drawn + 1 + 1)
                && any (λ r. r.id == ur.role_id && is_admin_role r) w.db.roles)
              urs)
        ≡ true
      → any (administers (env.uuid w.drawn) dto w.db.roles urs) rows ≡ true
  admin_made dto w rows urs s assigned = ground (
    arith,
    env.any_save users.key (new_admin dto w) w.db.users rows
        (administers (env.uuid w.drawn) dto w.db.roles urs) s,
    ==_refl (env.uuid w.drawn),
    ==_refl dto.admin.email,
    env.compare_hash (w.drawn + 1) dto.admin.password 12,
    assigned,
  )

  assignment_made :
      (r : RoleEntity) (w : World) (urs : List UserRoleEntity)
      → env.find_one is_admin_role w.db.roles ≡ some r
      → env.save user_roles.key (new_assignment r w) w.db.user_roles ≡ saved urs
      → any
          (λ ur.
            ur.tenant_id == env.uuid w.drawn
            && ur.user_id == env.uuid (w.drawn + 1 + 1)
            && any (λ r. r.id == ur.role_id && is_admin_role r) w.db.roles)
          urs
        ≡ true
  assignment_made r w urs f s = ground (
    arith,
    env.any_save user_roles.key (new_assignment r w) w.db.user_roles urs
        (λ ur.
          ur.tenant_id == env.uuid w.drawn
          && ur.user_id == env.uuid (w.drawn + 1 + 1)
          && any (λ r. r.id == ur.role_id && is_admin_role r) w.db.roles)
        s,
    ==_refl (env.uuid w.drawn),
    ==_refl (env.uuid (w.drawn + 1 + 1)),
    found_there is_admin_role (λ x. x.id == r.id && is_admin_role x) w.db.roles r f
        (ground (arith, found_passes is_admin_role w.db.roles r f, ==_refl r.id)),
  )

  tenant_made :
      (dto : CreateTenantDto) (w : World) (rows : List TenantEntity)
      → env.save tenants.key (new_tenant dto w) w.db.tenants ≡ saved rows
      → any
          (λ x. x.id == env.uuid w.drawn && x.name == dto.name && x.slug == dto.slug && x.is_active)
          rows
        ≡ true
  tenant_made dto w rows s = ground (
    arith,
    env.any_save tenants.key (new_tenant dto w) w.db.tenants rows
        (λ x. x.id == env.uuid w.drawn && x.name == dto.name && x.slug == dto.slug && x.is_active)
        s,
    ==_refl (env.uuid w.drawn),
    ==_refl dto.name,
    ==_refl dto.slug,
  )

  -- What the operation of the transaction leaves when it returns a tenant.
  record IsCreated (dto : CreateTenantDto) (t : TenantEntity) (w w' : World) : Type 0 where
    pub fresh : any (λ x. x.name == dto.name || x.slug == dto.slug) w.db.tenants ≡ false
    pub tenant :
        any
          (λ x. x.id == t.id && x.name == dto.name && x.slug == dto.slug && x.is_active)
          w'.db.tenants
        ≡ true
    pub admin : any (administers t.id dto w.db.roles w'.db.user_roles) w'.db.users ≡ true

  created :
      (dto : CreateTenantDto) (w : World) (p : TenantEntity × UserEntity)
      → (create_in_transaction dto w).0 ≡ ok p
      → IsCreated dto p.0 w (create_in_transaction dto w).1
  unfolding create_in_transaction
  created dto w p h = elim (Option-cases (env.find_one (taken dto) w.db.tenants)) [
    | inr (x, f) ↦ ground arith
    | inl n ↦ elim (Saved-cases (env.save tenants.key (new_tenant dto w) w.db.tenants)) [
      | inr (e, v) ↦ ground arith
      | inl (ts, v) ↦ elim (Saved-cases (env.save users.key (new_admin dto w) w.db.users)) [
        | inr (e, s) ↦ ground arith
        | inl (us, s) ↦ elim (Option-cases (env.find_one is_admin_role w.db.roles)) [
          | inl g ↦ record {
            fresh = env.find_one_none (taken dto) w.db.tenants n;
            tenant = ground (arith, tenant_made dto w ts v);
            admin = ground (
              arith,
              admin_made dto w us w.db.user_roles s,
              env.find_one_none is_admin_role w.db.roles g,
            );
          }
          | inr (r, g) ↦
              elim (Saved-cases (env.save user_roles.key (new_assignment r w) w.db.user_roles)) [
                | inr (e, q) ↦ ground arith
                | inl (urs, q) ↦ record {
                  fresh = env.find_one_none (taken dto) w.db.tenants n;
                  tenant = ground (arith, tenant_made dto w ts v);
                  admin = ground (arith, admin_made dto w us urs s, assignment_made r w urs g q);
                }
              ]
        ]
      ]
    ]
  ]

  -- A creation that succeeds, whether it joined the transaction of the request or not: no tenant had
  -- the name or the slug; the table has an active tenant with the id that comes back, the name and
  -- the slug; and an active user of that tenant has the address, a hash that the password matches,
  -- and an assignment in that tenant to the system role of tenants' administrators, unless the table
  -- has no such role.
  pub create_tenant_with_admin-ok :
      (joined : Bool) (dto : CreateTenantDto) (actor : Text) (w : World) (t : TenantEntity)
      → (create_tenant_with_admin joined dto actor w).0 ≡ ok t
      → (any (λ x. x.name == dto.name || x.slug == dto.slug) w.db.tenants ≡ false)
        × (any
              (λ x. x.id == t.id && x.name == dto.name && x.slug == dto.slug && x.is_active)
              (create_tenant_with_admin joined dto actor w).1.db.tenants
            ≡ true)
        × (any
              (administers t.id dto w.db.roles
                (create_tenant_with_admin joined dto actor w).1.db.user_roles)
              (create_tenant_with_admin joined dto actor w).1.db.users
            ≡ true)
  unfolding create_tenant_with_admin
  create_tenant_with_admin-ok joined dto actor w t h =
      elim (Result-cases (create_in_transaction dto w).0) [
        | inr (e, f) ↦ elim (Bool-cases joined) [ inl j ↦ ground arith | inr j ↦ ground arith ]
        | inl (p, f) ↦
            let c = created dto w p f in
            elim (Bool-cases joined) [
              | inl j ↦ (c.fresh, ground (arith, c.tenant), ground (arith, c.admin))
              | inr j ↦ (c.fresh, ground (arith, c.tenant), ground (arith, c.admin))
            ]
      ]
