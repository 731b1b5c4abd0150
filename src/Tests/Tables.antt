-- ===== src/Tests/Tables.antt =====
-- The theorems on row-level security, foreign keys, seeds, pages, messages and tokens at concrete
-- inputs.
use generic_iam.Prelude.{
  ◌≤◌, ◌||◌, ltb, same_text, Text, lit, ◌≡◌, refl, true, false, ◌&&◌, none, some, List, [], ◌∷◌,
  ◌++◌, ◌==◌, any, all, select, starts_with, implies, length, arith, first,
}
use generic_iam.Entities.{PermissionEntity, RoleEntity, ResourceAclEntity}
use generic_iam.Errors.{ok}
use generic_iam.App.{World, Emitted, for_each}
use generic_iam.Sample.{sample_env, empty_world}
use generic_iam.Tests.Office.{office, reading, ann, bob, own_role, spare_role, entry_of_bob}
use generic_iam.Tests.Access.{cold}
use generic_iam.Rbac.Role.{
  Paginated, visible, find_all_for_tenant, find_one_for_tenant, delete_custom_role,
}
use generic_iam.Schema.{cascade}
use generic_iam.Schema.Laws.{delete_custom_role-entitled}
use generic_iam.Rbac.Assignment
use generic_iam.Rbac.Assignment.{UpdateUserRolesDto, items, get_user_roles, unexpired, add_role}
use generic_iam.Rbac.Assignment.Visible.{assigns_visible, update_user_roles-assigns_visible}
use generic_iam.Rbac.Override.Laws.{entitled}
use generic_iam.Acl.{CreateAclDto, AclQueryDto, create_acl, find_all_acls}
use generic_iam.Authorization.Coherence.{IsCoherent}
use generic_iam.Sdk.{ends_with}
use generic_iam.Base.{find_paginated}
use generic_iam.Auth.{TokenResponseDto, generate_tokens, refresh}
use generic_iam.Auth.Issued.{Takes, refresh-generated}
use generic_iam.Event.{receive}
use generic_iam.Event.Creation.{create_acl-announced}
use generic_iam.Seed.{seed_permission, seed_permissions, seed_super_admin}
use generic_iam.Seed.Laws.{Distinct, Unused, has_code, seed_permissions-twice}
use generic_iam.Seed.Roles.{
  auditor, is_seeded, permissions_to_assign, seed_link, seed_role, matching,
}
use generic_iam.Seed.Links.{UnusedLinks, is_linked, seed_role-ok, auditor-expense}
use generic_iam.Seed.Login.{seed_super_admin-login}
use generic_iam.Auth.{login}
use generic_iam.Pages.{has_value, find_all_for_tenant-visible, find_all_acls-own}
use generic_iam.Rls.{seen_by}
use generic_iam.Rls.Laws.{entitled-seen, find_all-isolated}
use generic_iam.Route.Accounts.{UserResponseDto, response, find_all_handler}
use generic_iam.Tests.Routes.{request_for, add_spare, any_user, is_system_role, any_entry}

abbrev two_users : Paginated UserResponseDto
two_users = record { items = response ann ∷ response bob ∷ []; total = 2; page = 1; limit = 10 }

abbrev new_edit : CreateAclDto
new_edit = record {
  user_id = lit "u";
  resource_type = lit "doc";
  resource_id = lit "1";
  permission = lit "doc.edit";
}

abbrev edit_row : ResourceAclEntity
edit_row = record {
  owner = record { base = record { id = 7 ∷ []; created_at = 1000 }; tenant_id = lit "t" };
  user_id = lit "u";
  resource_type = lit "doc";
  resource_id = lit "1";
  permission = lit "doc.edit";
}

created : (create_acl (lit "t") new_edit (lit "u") office).0 ≡ ok edit_row
unfolding create_acl first ◌==◌
created = refl

abbrev ann_tokens : TokenResponseDto
ann_tokens = record {
  access_token = lit "u";
  refresh_token = lit "u." ++ (7 ∷ []);
  token_type = lit "Bearer";
  expires_in = 900;
}

takes : Takes
takes t rows = (_, refl)

issued : (generate_tokens ann office).0 ≡ ok ann_tokens
unfolding generate_tokens
issued = refl

abbrev two_codes : List Text
two_codes = lit "doc.read" ∷ lit "doc.write" ∷ []

distinct : Distinct
unfolding ◌==◌
distinct m n = ground arith

unused : Unused empty_world
unfolding any
unused n = refl

unused_links : UnusedLinks empty_world
unfolding any
unused_links n = refl

seeded : (seed_permissions two_codes empty_world).0 ≡ ok tt
unfolding seed_permissions for_each seed_permission first select ◌==◌
seeded = refl

role_seeded : (seed_role (reading ∷ []) auditor empty_world).0 ≡ ok tt
unfolding seed_role for_each permissions_to_assign matching ends_with starts_with first select ◌==◌
role_seeded = refl

abbrev paying : PermissionEntity
paying = record reading { code = lit "expense.claims.create" }

expense_seeded : (seed_role (paying ∷ []) auditor empty_world).0 ≡ ok tt
unfolding seed_role seed_link for_each permissions_to_assign matching ends_with starts_with first
    select ◌==◌
expense_seeded = refl

admin_seeded : (seed_super_admin (some (lit "e")) (some (lit "s")) empty_world).0 ≡ ok tt
unfolding seed_super_admin first
admin_seeded = refl

abbrev deleted : World
deleted = (delete_custom_role (lit "q") (lit "t") (lit "u") office).1

deletes : delete_custom_role (lit "q") (lit "t") (lit "u") office ≡ (ok tt, deleted)
unfolding delete_custom_role find_one_for_tenant first select ◌==◌
deletes = refl

abbrev role_page : Paginated RoleEntity
role_page = record { items = own_role ∷ spare_role ∷ []; total = 3; page = 1; limit = 2 }

abbrev acls_of_bob : AclQueryDto
acls_of_bob = record {
  user_id = some (lit "v");
  resource_type = none;
  resource_id = none;
  page = none;
  limit = none;
}

abbrev acl_page : Paginated ResourceAclEntity
acl_page = record { items = entry_of_bob ∷ []; total = 1; page = 1; limit = 20 }

entitled-seen_example :
    entitled (lit "u") (lit "t") 1000 (seen_by (lit "t") office.db) (lit "p")
    ≡ entitled (lit "u") (lit "t") 1000 office.db (lit "p")
unfolding any visible ◌==◌
entitled-seen_example = entitled-seen (lit "u") (lit "t") 1000 office.db (lit "p") refl

find_all-isolated_example :
    (implies
        (any any_user two_users.items)
        (any (λ u. any_user (response u) && u.tenant_id == (lit "t")) office.db.users)
      ≡ true)
    × (length two_users.items ≤ 10)
unfolding find_all_handler find_paginated seen_by select ◌==◌
find_all-isolated_example =
    find_all-isolated (lit "t") 1 10 (request_for (lit "v")) office any_user two_users refl

update_user_roles-assigns_visible_example :
    assigns_visible
      (lit "t")
      (Assignment.update_user_roles (lit "v") (lit "t") add_spare (lit "u") office).1.db
    ≡ true
unfolding any visible ◌==◌
update_user_roles-assigns_visible_example =
    update_user_roles-assigns_visible (lit "t") (lit "v") (lit "t") (lit "u") add_spare office refl

create_acl-announced_example :
    (sent : List Emitted) × ((create_acl (lit "t") new_edit (lit "u") office).1.events
      ≡ office.events ++ sent)
    × IsCoherent
        (create_acl (lit "t") new_edit (lit "u") office).1.db
        office.now
        (receive sent (create_acl (lit "t") new_edit (lit "u") office).1).cache
unfolding any ◌==◌
create_acl-announced_example =
    create_acl-announced (lit "t") (lit "u") new_edit office edit_row refl refl refl cold created

refresh-generated_example :
    (t' : TokenResponseDto) × ((refresh ann_tokens.refresh_token (generate_tokens ann office).1).0
      ≡ ok t')
unfolding any ◌==◌
refresh-generated_example = refresh-generated ann office ann_tokens takes refl refl refl refl issued

seed_permissions-twice_example :
    (all (λ c. has_code c (seed_permissions two_codes empty_world).1.db) two_codes ≡ true)
    × (implies
          (has_code (lit "doc.read") empty_world.db)
          (has_code (lit "doc.read") (seed_permissions two_codes empty_world).1.db)
        ≡ true)
    × (seed_permissions two_codes (seed_permissions two_codes empty_world).1
        ≡ (ok tt, (seed_permissions two_codes empty_world).1))
seed_permissions-twice_example =
    seed_permissions-twice two_codes empty_world tt (lit "doc.read") distinct unused seeded

seed_role-ok_example :
    (role : RoleEntity) × ((any
          (λ r. is_seeded auditor r && r.id == role.id)
          (seed_role (reading ∷ []) auditor empty_world).1.db.roles
        && all
            (λ p. is_linked role.id p (seed_role (reading ∷ []) auditor empty_world).1.db)
            (permissions_to_assign (reading ∷ []) auditor.permissions))
      ≡ true)
seed_role-ok_example =
    seed_role-ok (reading ∷ []) auditor empty_world tt distinct unused_links role_seeded

auditor-expense_example :
    (role : RoleEntity) × ((any
          (λ r. is_seeded auditor r && r.id == role.id)
          (seed_role (paying ∷ []) auditor empty_world).1.db.roles
        && all
            (λ p.
              implies
                (starts_with (lit "expense") p.code)
                (is_linked role.id p (seed_role (paying ∷ []) auditor empty_world).1.db))
            (paying ∷ []))
      ≡ true)
auditor-expense_example =
    auditor-expense (paying ∷ []) empty_world tt distinct unused_links expense_seeded

seed_super_admin-login_example :
    (t : TokenResponseDto) × ((login
        (record { email = lit "e"; password = lit "s" })
        (seed_super_admin (some (lit "e")) (some (lit "s")) empty_world).1).0
      ≡ ok t)
unfolding any
seed_super_admin-login_example =
    seed_super_admin-login (lit "e") (lit "s") empty_world tt refl refl admin_seeded

delete_custom_role-entitled_example :
    (entitled (lit "u") (lit "t") 1000 (cascade deleted.db) (lit "p")
      ≡ entitled (lit "u") (lit "t") 1000 office.db (lit "p"))
    × (any (λ r. r.id == (lit "q")) (cascade deleted.db).roles ≡ false)
unfolding any ◌==◌
delete_custom_role-entitled_example =
    delete_custom_role-entitled (lit "q") (lit "t") (lit "u") office deleted (lit "u") (lit "t")
      1000 (lit "p") refl deletes

find_all_for_tenant-visible_example :
    (length role_page.items ≤ 2)
    × (implies (any is_system_role role_page.items) (
          any
            (λ r. is_system_role r && (same_text r.tenant_id (some (lit "t")) || r.is_system))
            office.db.roles)
        ≡ true)
    × (implies
          (any (λ r. same_text r.tenant_id (some (lit "t")) || r.is_system) office.db.roles)
          (ltb 0 role_page.total)
        ≡ true)
unfolding find_all_for_tenant select visible ◌==◌
find_all_for_tenant-visible_example =
    find_all_for_tenant-visible (lit "t") 1 2 office role_page is_system_role refl

find_all_acls-own_example :
    (length acl_page.items ≤ acl_page.limit)
    × (implies (any any_entry acl_page.items) (
          any
            (λ a.
              any_entry a
              && (a.tenant_id == (lit "t")
                  && has_value acls_of_bob.user_id a.user_id
                  && has_value acls_of_bob.resource_type a.resource_type
                  && has_value acls_of_bob.resource_id a.resource_id))
            office.db.acls)
        ≡ true)
unfolding find_all_acls select ◌==◌
find_all_acls-own_example = find_all_acls-own (lit "t") acls_of_bob office acl_page any_entry refl
