-- ===== src/Seed/Roles.antt =====
-- src/database/seeds/system-roles.seed.ts: the system roles, and the permissions that each is linked
-- to. A pattern that ends in `.*` stands for the permissions whose code begins with the rest of it.
use generic_iam.Prelude.{
  Text, lit, Bool, true, ◌&&◌, not, Option, none, some, List, [], ◌∷◌, ◌++◌, ◌==◌, first, select,
  starts_with, is_some, if◌then◌else◌,
}
use generic_iam.Entities.{PermissionEntity, RoleEntity}
use generic_iam.Env.{Env}
use generic_iam.App.{
  App, Done, permissions, roles, role_permissions, fresh_base, find_one, find, save, pure, for_each,
  ◌>>=◌, ◌>>◌,
}
use generic_iam.Sdk.{ends_with}
use generic_iam.Seed.{unless_there, seed_system_permissions, seed_super_admin}

pub record RoleSeed : Type 0 where
  pub name : Text
  pub description : Text
  pub permissions : List Text

abbrev pub auditor : RoleSeed
auditor = record {
  name = lit "Auditor";
  description = lit "Read-only access to audit logs and reports";
  permissions =
      lit "audit.read"
      ∷ lit "report.read"
      ∷ lit "expense.*"
      ∷ lit "payroll.read"
      ∷ lit "invoice.read"
      ∷ [];
}

abbrev pub roles_data : List RoleSeed
roles_data =
    record {
      name = lit "Super Admin";
      description = lit "System-wide super administrator";
      permissions = lit "*.*" ∷ [];
    }
    ∷ record {
      name = lit "Tenant Admin";
      description = lit "Full access to tenant resources";
      permissions =
          lit "user.*"
          ∷ lit "role.*"
          ∷ lit "acl.*"
          ∷ lit "expense.*"
          ∷ lit "payroll.*"
          ∷ lit "invoice.*"
          ∷ lit "report.*"
          ∷ lit "workflow.*"
          ∷ [];
    }
    ∷ auditor
    ∷ record {
      name = lit "Employee";
      description = lit "Basic employee access";
      permissions =
          lit "expense.expenses.read" ∷ lit "expense.expenses.create" ∷ lit "payroll.read" ∷ [];
    }
    ∷ record {
      name = lit "Manager";
      description = lit "Managerial access for approvals";
      permissions =
          lit "expense.expenses.read"
          ∷ lit "expense.approvals.claims.approve"
          ∷ lit "payroll.read"
          ∷ lit "report.read"
          ∷ [];
    }
    ∷ record {
      name = lit "Billing Manager";
      description = lit "Access to invoices and billing";
      permissions =
          lit "invoice.read"
          ∷ lit "invoice.write"
          ∷ lit "invoice.approve"
          ∷ lit "report.read"
          ∷ lit "report.export"
          ∷ [];
    }
    ∷ []

-- `p.replace('.*', '')`: the first occurrence goes.
unfoldable pub prefix_of : Text → Text
prefix_of [] = []
prefix_of (x ∷ []) = x ∷ []
prefix_of (x ∷ y ∷ t) =
    let rest = prefix_of (y ∷ t) in if (x ∷ y ∷ []) == lit ".*" then t else x ∷ rest

abbrev option_list : {A : Type 0} → Option A → List A
option_list none = []
option_list (some a) = a ∷ []

-- The permissions that one pattern stands for.
unfoldable pub matching : List PermissionEntity → Text → List PermissionEntity
unfolding prefix_of
matching all p =
    if ends_with (lit ".*") p
    then select (λ ap. starts_with (prefix_of p) ap.code) all
    else option_list (first (λ ap. ap.code == p) all)

unfoldable pub permissions_to_assign : List PermissionEntity → List Text → List PermissionEntity
permissions_to_assign all [] = []
permissions_to_assign all (p ∷ ps) = matching all p ++ permissions_to_assign all ps

module _ ⦃env : Env⦄ where
  abbrev new_role : RoleSeed → App RoleEntity
  new_role def = do
    base ← fresh_base
    save roles (record {
      base = base;
      tenant_id = none;
      name = def.name;
      description = some def.description;
      is_system = true;
    })

  abbrev pub is_seeded : RoleSeed → RoleEntity → Bool
  is_seeded def r = r.name == def.name && r.is_system && not (is_some r.tenant_id)

  abbrev existing_or_new : RoleSeed → Option RoleEntity → App RoleEntity
  existing_or_new def none = new_role def
  existing_or_new def (some r) = pure r

  abbrev new_link : Text → PermissionEntity → App Done
  new_link role perm = do
    base ← fresh_base
    save role_permissions (record { base = base; role_id = role; permission_id = perm.id })
    pure tt

  -- One round of the loop over the permissions of a role.
  unfoldable pub seed_link : Text → PermissionEntity → App Done
  seed_link role perm = do
    existing ← find_one role_permissions (λ rp. rp.role_id == role && rp.permission_id == perm.id)
    unless_there existing (new_link role perm)

  -- One round of the loop over the roles.
  unfoldable pub seed_role : List PermissionEntity → RoleSeed → App Done
  unfolding permissions_to_assign
  seed_role all def = do
    found ← find_one roles (is_seeded def)
    role ← existing_or_new def found
    for_each (permissions_to_assign all def.permissions) (seed_link role.id)

  unfoldable pub seed_roles : App Done
  seed_roles = do all ← find permissions (λ p. true); for_each roles_data (seed_role all)

  -- bootstrap of src/database/seeds/seed.runner.ts.
  unfoldable pub bootstrap : Option Text → Option Text → App Done
  unfolding seed_system_permissions seed_super_admin seed_roles
  bootstrap email password = do seed_system_permissions; seed_roles; seed_super_admin email password
