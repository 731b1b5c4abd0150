-- ===== src/Tenant.antt =====
-- src/modules/tenant/tenant.service.ts: tenants with their first administrator; and the operations
-- of the super admin in src/modules/super-admin/super-admin.service.ts.
pub mod Creation
pub mod Laws
use generic_iam.Prelude.{
  ℕ, Text, Bool, true, false, ◌&&◌, ◌||◌, Option, none, some, List, [], ◌∷◌, ◌==◌, is_some, lit,
  same_text,
}
use generic_iam.Entities.{TenantEntity, UserEntity, RoleEntity}
use generic_iam.Constants.{
  iam_audit, tenant_created, tenant_updated, tenant_deactivated, impersonation_started,
  tenant_admin, role_name, AuditEventType, identity_name, impersonation,
}
use generic_iam.Errors.{plain, bad_request, not_found, ok, err}
use generic_iam.Env.{Env, JwtPayload}
use generic_iam.Json.{Fields, text, field, object, end, optional}
use generic_iam.App.{
  App, Done, World, BaseEvent, tenants, users, roles, user_roles, find_one, find, save, emit, pure,
  raise_if, or_raise, fresh_base, ◌>>=◌, ◌>>◌,
}
use generic_iam.Base
use generic_iam.Auth.{hash_password}
use generic_iam.Rbac.Assignment.{user_event}

pub record AdminUserDto : Type 0 where
  pub email : Text
  pub password : Text
  pub first_name : Text
  pub last_name : Text

-- `settings` is the serialised object.
pub record CreateTenantDto : Type 0 where
  pub name : Text
  pub slug : Text
  pub settings : Option Text
  pub admin : AdminUserDto

pub record UpdateTenantDto : Type 0 where
  pub name : Option Text
  pub slug : Option Text
  pub settings : Option Text

abbrev pub given : {A : Type 0} → Option A → A → A
given none old = old
given (some a) old = a

unfoldable pub merge : UpdateTenantDto → TenantEntity → TenantEntity
merge dto t = record t {
  name = given dto.name t.name;
  slug = given dto.slug t.slug;
  settings = given dto.settings t.settings;
}

abbrev tenant_event : AuditEventType → Text → Text → Fields → BaseEvent
tenant_event type actor id payload = record {
  event_type = type;
  tenant_id = some id;
  actor_id = some actor;
  resource_type = some (lit "tenant");
  resource_id = some id;
  user_id = none;
  payload = payload;
}

module _ ⦃env : Env⦄ where
  abbrev assign_admin : TenantEntity → UserEntity → Option RoleEntity → App Done
  assign_admin t u none = pure tt
  assign_admin t u (some role) = do
    base ← fresh_base
    save user_roles (record {
      owner = record { base = base; tenant_id = t.id };
      user_id = u.id;
      role_id = role.id;
      expires_at = none;
    })
    pure tt

  -- What createTenantWithAdmin does inside its transaction.
  unfoldable pub create_in_transaction : CreateTenantDto → App (TenantEntity × UserEntity)
  create_in_transaction dto = do
    existing ← find_one tenants (λ t. t.name == dto.name || t.slug == dto.slug)
    raise_if (is_some existing) (bad_request (plain "Tenant with same name or slug already exists"))
    base ← fresh_base
    tenant ← save tenants (record {
      base = base;
      name = dto.name;
      slug = dto.slug;
      is_active = true;
      settings = given dto.settings (lit "{}");
    })
    hashed ← hash_password dto.admin.password
    user_base ← fresh_base
    user ← save users (record {
      owner = record { base = user_base; tenant_id = tenant.id };
      email = dto.admin.email;
      password_hash = hashed;
      first_name = dto.admin.first_name;
      last_name = dto.admin.last_name;
      is_active = true;
      manager_id = none;
    })
    role ← find_one roles (λ r. r.name == role_name tenant_admin && r.is_system)
    assign_admin tenant user role
    pure (tenant, user)

  -- `runInTransaction`: if the request has a transaction, the operation joins it, and what it wrote
  -- stays until the interceptor rolls back; else a transaction of its own takes the tables back if
  -- it throws. What was drawn stays drawn.
  abbrev pub in_transaction : {A : Type 0} → Bool → App A → App A
  in_transaction true m w = m w
  in_transaction false m w =
      let (r, w') = m w in elim r [ ok a ↦ (ok a, w') | err e ↦ (err e, record w' { db = w.db }) ]

  -- `joined` says whether the request has a transaction (`request.entityManager`).
  unfoldable pub create_tenant_with_admin : Bool → CreateTenantDto → Text → App TenantEntity
  unfolding create_in_transaction
  create_tenant_with_admin joined dto actor = do
    saved ← in_transaction joined (create_in_transaction dto)
    emit iam_audit (
        tenant_event tenant_created actor saved.0.id
          (field "tenant_name" (text saved.0.name) (field "admin_email" (text saved.1.email) end)))
    pure saved.0

  unfoldable pub update_tenant : Text → UpdateTenantDto → Text → App TenantEntity
  unfolding Base.update merge
  update_tenant id dto actor = do
    tenant ← Base.update tenants id (merge dto)
    emit iam_audit (
        tenant_event tenant_updated actor tenant.id (
          field "updates"
            (object (
              optional "name" dto.name
                (optional "slug" dto.slug (optional "settings" dto.settings end))))
            end))
    pure tenant

  unfoldable pub deactivate_tenant : Text → Text → App Done
  unfolding Base.update
  deactivate_tenant id actor = do
    Base.update tenants id (λ t. record t { is_active = false })
    emit iam_audit (tenant_event tenant_deactivated actor id end)

pub record ImpersonateDto : Type 0 where
  pub user_id : Text
  pub tenant_id : Text
  pub reason : Text

-- `configService.get('jwt.impersonationTtl', 1800)`
abbrev number_or : Option ℕ → ℕ → ℕ
number_or none d = d
number_or (some n) d = n

abbrev pub impersonation_claims : UserEntity → Text → JwtPayload
impersonation_claims u admin = record {
  sub = u.id;
  email = some u.email;
  tenant_id = some u.tenant_id;
  identity_type = identity_name impersonation;
  impersonator_id = some admin;
}

module _ ⦃env : Env⦄ where
  unfoldable pub impersonate : ImpersonateDto → Text → App (Text × ℕ)
  impersonate dto admin = do
    found ← find_one users (λ u. u.id == dto.user_id && u.tenant_id == dto.tenant_id)
    target ← or_raise found (not_found (plain "Target user not found"))
    emit iam_audit (
        user_event impersonation_started dto.tenant_id admin dto.user_id
          (field "reason" (text dto.reason) end))
    pure (
      env.sign (impersonation_claims target admin) (number_or env.impersonation_ttl 1800),
      number_or env.impersonation_ttl 1800,
    )

  unfoldable pub get_tenants : App (List TenantEntity)
  get_tenants = find tenants (λ t. true)

  unfoldable pub get_tenant_users : Text → App (List UserEntity)
  get_tenant_users tenant = find users (λ u. u.tenant_id == tenant)
