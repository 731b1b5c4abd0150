-- ===== src/Tests/Routes.antt =====
-- The theorems on routes at concrete inputs.
use generic_iam.Prelude.{
  ℕ, ◌≤◌, Text, lit, ◌≡◌, refl, Bool, true, ◌&&◌, ◌||◌, Option, none, some, List, [], ◌∷◌, ◌==◌,
  any, all, select, same_text, has, if◌then◌else◌, ap, sym, starts_with, implies, length, first,
}
use generic_iam.Entities.{PermissionEntity, RoleEntity, ResourceAclEntity}
use generic_iam.Permissions.{role_read, role_assign, audit_read, tenant_write, user_read}
use generic_iam.Errors.{ok, err, plain, forbidden}
use generic_iam.Env.{CacheStore, JwtPayload}
use generic_iam.App.{World, raise, for_each, App}
use generic_iam.Json.{Json, end}
use generic_iam.Sample.{sample_env, lookup}
use generic_iam.Tests.Office.{office, reading, bob}
use generic_iam.Tests.Access.{claims_of_ann, plain_ann}
use generic_iam.Cache.{get_permissions, set_permissions, perms_key, authz_key}
use generic_iam.Matcher.{set_add, has_permission, any_wildcard, split, wildcard}
use generic_iam.Rbac.Role.{Paginated, find_one_for_tenant}
use generic_iam.Rbac.Assignment
use generic_iam.Rbac.Assignment.{UpdateUserRolesDto, items, get_user_roles, unexpired, add_role}
use generic_iam.Rbac.Assignment.Laws.{is_member, may_assign}
use generic_iam.Rbac.Override.{
  get_effective_permissions, get_overrides_for_user, role_permissions_of, joined_permissions,
  effective_loop, map_set,
}
use generic_iam.Rbac.Override.Reads.{effective_in, get_effective_permissions_eq}
use generic_iam.Rbac.Permission.{find_all_global}
use generic_iam.Authorization.{check, check_batch, decide, effective_set, decision_key, set_of}
use generic_iam.Authorization.Coherence.{IsCoherent}
use generic_iam.Authorization.Plain.{Coherent}
use generic_iam.Guards.{Request, permission_guard, acl_guard, identity_type_guard, is_super_admin}
use generic_iam.Guards.Laws.{grants}
use generic_iam.Sdk.{jwt_auth_guard}
use generic_iam.Sdk.Laws.{token_of}
use generic_iam.Base
use generic_iam.Base.{find_paginated}
use generic_iam.Tenant.{
  UpdateTenantDto, ImpersonateDto, impersonate, impersonation_claims, update_tenant,
}
use generic_iam.Audit.{AuditLogEntity}
use generic_iam.Audit.Query.{AuditQueryDto, query_logs, matches_query}
use generic_iam.Json.{value_of}
use generic_iam.Route.{Nest, serve}
use generic_iam.Route.Laws.{as_user, Comes, serve_lem}
use generic_iam.Route.Outcomes.{
  update_user_roles-permitted, get_audit_logs-own, update-any_tenant,
  start_impersonation-super_admin,
}
use generic_iam.Route.Profiles.{find_one-own}
use generic_iam.Route.Roles
use generic_iam.Route.Roles.{demanding}
use generic_iam.Route.Accounts
use generic_iam.Route.Accounts.{UserResponseDto, response, user_route, find_all_handler}
use generic_iam.Route.Tenants
use generic_iam.Route.Tenants.{tenant_route, start_impersonation}

-- Every text counts as a uuid, and an undefined tenant ends a request.
abbrev sample_nest : Nest
sample_nest = record { is_uuid = λ t. true; undefined_tenant = raise (forbidden (plain "")) }

-- The office, where the clerk's role gives all permissions.
abbrev anything : PermissionEntity
anything = record reading { code = lit "*.*" }

abbrev hall : World
hall = record office { db = record office.db { permissions = anything ∷ [] } }

cold_hall : Coherent hall
unfolding lookup
cold_hall = record {
  decisions = λ t u p y i v a b c d e. cc;
  sets = λ t u v a e. cc;
  entries = λ t u y i p v a b c d e. cc;
}

effective_hall : effective_in hall.db hall.now (lit "u") (lit "t") ≡ ok (anything ∷ [])
unfolding get_effective_permissions get_overrides_for_user role_permissions_of joined_permissions
    effective_loop map_set get_user_roles unexpired select any has ◌==◌
effective_hall = ap (λ r. r.0) (sym (get_effective_permissions_eq (lit "u") (lit "t") hall))

-- Ann's token, and one text for each parameter of the path.
abbrev pub request_for : Text → Request
request_for id = record {
  user = none;
  params = λ k. some id;
  authorization = some (lit "Bearer u");
}

abbrev request_of_root : Request
request_of_root = record {
  user = none;
  params = λ k. none;
  authorization = some (lit "Bearer root");
}

Comes-reading : Comes claims_of_ann (demanding role_read) (request_for (lit "v"))
unfolding jwt_auth_guard identity_type_guard starts_with split any ◌==◌
Comes-reading = record { token = refl; type = refl; ordinary = refl; of_others = refl }

Comes-assigning : Comes claims_of_ann (demanding role_assign) (request_for (lit "v"))
unfolding jwt_auth_guard identity_type_guard starts_with split any ◌==◌
Comes-assigning = record { token = refl; type = refl; ordinary = refl; of_others = refl }

Comes-user : Comes claims_of_ann (user_route none) (request_for (lit "v"))
unfolding jwt_auth_guard identity_type_guard starts_with split any ◌==◌
Comes-user = record { token = refl; type = refl; ordinary = refl; of_others = refl }

Comes-auditing : Comes claims_of_ann (tenant_route audit_read) (request_for (lit "t"))
unfolding jwt_auth_guard identity_type_guard starts_with split any ◌==◌
Comes-auditing = record { token = refl; type = refl; ordinary = refl; of_others = refl }

Comes-writing : Comes claims_of_ann (tenant_route tenant_write) (request_for (lit "other"))
unfolding jwt_auth_guard identity_type_guard starts_with split any ◌==◌
Comes-writing = record { token = refl; type = refl; ordinary = refl; of_others = refl }

abbrev every_permission : Request → App (List PermissionEntity)
every_permission q = find_all_global

abbrev any_log : AuditLogEntity → Bool
any_log l = true

abbrev pub any_user : UserResponseDto → Bool
any_user x = true

abbrev pub is_system_role : RoleEntity → Bool
is_system_role r = r.is_system

abbrev pub any_entry : ResourceAclEntity → Bool
any_entry a = true

abbrev pub add_spare : UpdateUserRolesDto
add_spare = record {
  add = some (record { role_id = lit "q"; expires_at = none } ∷ []);
  remove = none;
}

assigned : (Roles.update_user_roles sample_nest (request_for (lit "v")) add_spare hall).0 ≡ ok tt
unfolding Roles.update_user_roles Assignment.update_user_roles add_role for_each find_one_for_tenant
    serve jwt_auth_guard identity_type_guard permission_guard acl_guard check_batch check decide
    effective_set decision_key set_of get_permissions set_permissions get_effective_permissions
    get_overrides_for_user role_permissions_of joined_permissions effective_loop map_set
    get_user_roles unexpired select any all has ◌==◌ starts_with split has_permission any_wildcard
    wildcard lookup first perms_key authz_key set_add
assigned = refl

found : (Accounts.find_one sample_nest (request_for (lit "v")) hall).0 ≡ ok (response bob)
unfolding Accounts.find_one Base.find_one serve jwt_auth_guard identity_type_guard permission_guard
    acl_guard check_batch check decide effective_set decision_key set_of get_permissions
    set_permissions get_effective_permissions get_overrides_for_user role_permissions_of
    joined_permissions effective_loop map_set get_user_roles unexpired select any all has ◌==◌
    starts_with split has_permission any_wildcard wildcard lookup first perms_key authz_key set_add
found = refl

abbrev no_text : Json → Option Text
no_text j = none

abbrev log : AuditLogEntity
log = record {
  id = lit "l";
  created_at = 5;
  event_type = lit "ROLE_CREATED";
  tenant_id = some (lit "t");
  actor_id = none;
  actor_type = lit "user";
  type_of_resource = none;
  id_of_resource = none;
  metadata = end;
  changes = none;
}

abbrev all_logs : AuditQueryDto
all_logs = record {
  tenant_id = none;
  actor_id = none;
  event_type = none;
  resource_type = none;
  date_from = none;
  date_to = none;
  correlation_id = none;
  page = none;
  limit = none;
}

abbrev log_page : Paginated AuditLogEntity
log_page = record { items = log ∷ []; total = 1; page = 1; limit = 100 }

logged :
    (Tenants.get_audit_logs sample_nest no_text (log ∷ []) (request_for (lit "t")) all_logs hall).0
    ≡ ok log_page
unfolding Tenants.get_audit_logs query_logs matches_query value_of serve jwt_auth_guard
    identity_type_guard permission_guard acl_guard check_batch check decide effective_set
    decision_key set_of get_permissions set_permissions get_effective_permissions
    get_overrides_for_user role_permissions_of joined_permissions effective_loop map_set
    get_user_roles unexpired select any all has ◌==◌ starts_with split has_permission any_wildcard
    wildcard lookup first perms_key authz_key set_add
logged = refl

abbrev rename : UpdateTenantDto
rename = record { name = some (lit "n"); slug = none; settings = none }

abbrev as_ann : ImpersonateDto
as_ann = record { user_id = lit "u"; tenant_id = lit "t"; reason = lit "help" }

abbrev ann_access : Text × ℕ
ann_access = (lit "u", 1800)

started : (start_impersonation sample_nest request_of_root as_ann office).0 ≡ ok ann_access
unfolding start_impersonation serve impersonate jwt_auth_guard identity_type_guard starts_with split
    any ◌==◌ first
started = refl

serve_lem_example :
    (c : CacheStore) × (serve (demanding role_read) (request_for (lit "v")) every_permission hall
      ≡ (if all (grants claims_of_ann (anything ∷ []) plain_ann) (role_read ∷ [])
          then every_permission
              (as_user claims_of_ann (request_for (lit "v")))
              (record hall { cache = c })
          else (err (forbidden (plain "Insufficient permissions")), record hall { cache = c })))
    × IsCoherent hall.db hall.now c
unfolding any
serve_lem_example =
    serve_lem claims_of_ann (anything ∷ []) plain_ann (demanding role_read) every_permission
      role_read [] (request_for (lit "v")) hall refl refl refl refl Comes-reading cold_hall
      effective_hall (refl, tt)

update_user_roles-permitted_example :
    (grants claims_of_ann (anything ∷ []) plain_ann role_assign
      && any (is_member (lit "v") (lit "t")) hall.db.users
      && all (λ item. any (may_assign item.role_id (lit "t")) hall.db.roles) (items add_spare.add))
    ≡ true
update_user_roles-permitted_example =
    update_user_roles-permitted sample_nest claims_of_ann (anything ∷ []) plain_ann
      (request_for (lit "v")) hall cold_hall effective_hall add_spare (lit "t") (lit "v") tt
      Comes-assigning refl refl assigned

find_one-own_example :
    (((response bob).id == (lit "v") && (response bob).tenant_id == (lit "t"))
      && (claims_of_ann.sub == (lit "v")
          || grants claims_of_ann (anything ∷ []) plain_ann user_read))
    ≡ true
find_one-own_example =
    find_one-own sample_nest claims_of_ann (anything ∷ []) plain_ann (request_for (lit "v")) hall
      cold_hall effective_hall (lit "t") (lit "v") (response bob) Comes-user refl refl found

get_audit_logs-own_example :
    ((grants claims_of_ann (anything ∷ []) plain_ann audit_read && (lit "t") == (lit "t")) ≡ true)
    × (implies
          (any any_log log_page.items)
          (any (λ l. any_log l && same_text l.tenant_id (some (lit "t"))) (log ∷ []))
        ≡ true)
    × (length log_page.items ≤ log_page.limit)
get_audit_logs-own_example =
    get_audit_logs-own sample_nest claims_of_ann (anything ∷ []) plain_ann (request_for (lit "t"))
      hall cold_hall effective_hall no_text (log ∷ []) all_logs (lit "t") (lit "t") log_page any_log
      Comes-auditing refl refl refl logged

update-any_tenant_example :
    (c : CacheStore) × (Tenants.update sample_nest (request_for (lit "other")) rename hall ≡ (
      if grants claims_of_ann (anything ∷ []) plain_ann tenant_write
      then update_tenant (lit "other") rename claims_of_ann.sub (record hall { cache = c })
      else (err (forbidden (plain "Insufficient permissions")), record hall { cache = c })))
update-any_tenant_example =
    update-any_tenant sample_nest claims_of_ann (anything ∷ []) plain_ann
      (request_for (lit "other")) hall cold_hall effective_hall rename (lit "other") Comes-writing
      refl refl

start_impersonation-super_admin_example :
    ((u : JwtPayload) × (sample_env.verify (token_of request_of_root) ≡ some u)
      × (is_super_admin u ≡ true)
      × (any
            (λ x.
              x.id == as_ann.user_id
              && x.tenant_id == as_ann.tenant_id
              && ann_access.0 == sample_env.sign (impersonation_claims x u.sub) ann_access.1)
            office.db.users
          ≡ true))
    × ((start_impersonation sample_nest request_of_root as_ann office).1.db ≡ office.db)
start_impersonation-super_admin_example =
    start_impersonation-super_admin sample_nest as_ann request_of_root office ann_access started
