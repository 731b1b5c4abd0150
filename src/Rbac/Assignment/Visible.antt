-- ===== src/Rbac/Assignment/Visible.antt =====
-- The assignments of src/modules/rbac/assignment.service.ts against the roles that a tenant may see.
use generic_iam.Prelude.{
  Text, ◌≡◌, refl, Bool, true, false, ◌&&◌, not, Option, none, some, List, any, any_mono, arith,
  ◌==◌, ==_eq, ==_refl, Bool-cases, Option-cases, inl, inr,
}
use generic_iam.Entities.{Db, UserRoleEntity, RoleEntity}
use generic_iam.Errors.{Result-cases}
use generic_iam.Env.{Env, Saved-cases, saved}
use generic_iam.App.{World, user_roles, for_each}
use generic_iam.Rows.{found_passes}
use generic_iam.Loops.{for_each-preserves}
use generic_iam.Rbac.Role.{find_one_for_tenant}
use generic_iam.Rbac.Assignment.{
  AssignRoleDto, UpdateUserRolesDto, same_assignment, put_assignment, add_role, remove_role,
  update_user_roles, items,
}
use generic_iam.Rbac.Assignment.Laws.{is_member, may_assign, role_test, role_there, row_of, present}

-- An assignment of the tenant to a role that the tenant may not see.
abbrev pub is_stray : Text → List RoleEntity → UserRoleEntity → Bool
is_stray tenant roles ur = ur.tenant_id == tenant && not (any (may_assign ur.role_id tenant) roles)

-- Each assignment of the tenant is to a role that the tenant may see.
abbrev pub assigns_visible : Text → Db → Bool
assigns_visible tenant db = not (any (is_stray tenant db.roles) db.user_roles)

not_stray :
    (t tenant role : Text) (roles : List RoleEntity) (ur : UserRoleEntity)
    → any (may_assign role tenant) roles ≡ true
    → (ur.role_id == role) ≡ true
    → (ur.tenant_id == tenant) ≡ true
    → is_stray t roles ur ≡ false
not_stray t tenant role roles ur h r s = elim (Bool-cases (ur.tenant_id == t)) [
  | inr other ↦ ground arith
  | inl same ↦
      let there : any (may_assign ur.role_id ur.tenant_id) roles ≡ true =
        rw (==_eq ur.role_id role r, ==_eq ur.tenant_id tenant s) h in
      let seen : any (may_assign ur.role_id t) roles ≡ true =
        rw (==_eq ur.tenant_id t same) at there in
      ground arith
]

module _ ⦃env : Env⦄ where
  save-visible :
      (t : Text) (roles : List RoleEntity) (r : UserRoleEntity) (rows rows' : List UserRoleEntity)
      → is_stray t roles r ≡ false
      → any (is_stray t roles) rows ≡ false
      → env.save user_roles.key r rows ≡ saved rows'
      → any (is_stray t roles) rows' ≡ false
  save-visible t roles r rows rows' n h s = ground (
    arith,
    env.any_save user_roles.key r rows rows' (is_stray t roles) s,
    any_mono (λ x. is_stray t roles x && not (user_roles.key x == user_roles.key r))
        (is_stray t roles) rows (λ x k. ground arith),
  )

  put_assignment-visible :
      (t user tenant : Text) (dto : AssignRoleDto) (o : Option UserRoleEntity) (w : World)
      → any (may_assign dto.role_id tenant) w.db.roles ≡ true
      → ((a : UserRoleEntity) → o ≡ some a → same_assignment user dto.role_id tenant a ≡ true)
      → assigns_visible t w.db ≡ true
      → assigns_visible t (put_assignment user tenant dto o w).1.db ≡ true
  put_assignment-visible t user tenant dto none w m f h =
      let row = row_of user tenant dto none w in
      elim (Saved-cases (env.save user_roles.key row w.db.user_roles)) [
        | inr (e, v) ↦ ground arith
        | inl (rows, v) ↦ ground (
          arith,
          save-visible t w.db.roles row w.db.user_roles rows
              (not_stray t tenant dto.role_id w.db.roles row m (==_refl dto.role_id)
                (==_refl tenant))
              (ground arith) v,
        )
      ]
  put_assignment-visible t user tenant dto (some a) w m f h =
      let row = row_of user tenant dto (some a) w in
      elim (Saved-cases (env.save user_roles.key row w.db.user_roles)) [
        | inr (e, v) ↦ ground arith
        | inl (rows, v) ↦ ground (
          arith,
          save-visible t w.db.roles row w.db.user_roles rows
              (not_stray t tenant dto.role_id w.db.roles row m (ground (arith, f a refl))
                (ground (arith, f a refl)))
              (ground arith) v,
        )
      ]

  add_role-visible_assigns :
      (t user tenant actor : Text) (item : AssignRoleDto) (w : World)
      → assigns_visible t w.db ≡ true
      → assigns_visible t (add_role user tenant actor item w).1.db ≡ true
  unfolding add_role find_one_for_tenant
  add_role-visible_assigns t user tenant actor item w h =
      elim (Option-cases (env.find_one (role_test item.role_id tenant) w.db.roles)) [
        | inl n ↦ ground arith
        | inr (r, f) ↦ ground (
          arith,
          put_assignment-visible t user tenant item (present user tenant item w) w
              (role_there item.role_id tenant w r f)
              (λ a e. found_passes (same_assignment user item.role_id tenant) w.db.user_roles a e)
              h,
        )
      ]

  remove_role-visible_assigns :
      (t user tenant actor role : Text) (w : World)
      → assigns_visible t w.db ≡ true
      → assigns_visible t (remove_role user tenant actor role w).1.db ≡ true
  unfolding remove_role
  remove_role-visible_assigns t user tenant actor role w h =
      elim (Option-cases (env.find_one (same_assignment user role tenant) w.db.user_roles)) [
        | inl n ↦ ground arith
        | inr (a, f) ↦ ground (
          arith,
          env.any_delete (λ s. user_roles.key s == user_roles.key a) (is_stray t w.db.roles)
              w.db.user_roles,
          any_mono (λ x. is_stray t w.db.roles x && not (user_roles.key x == user_roles.key a))
              (is_stray t w.db.roles) w.db.user_roles (λ x k. ground arith),
        )
      ]

  -- An update of a user's roles, whether it succeeds or fails on the way, preserves for every tenant
  -- that each of its assignments is to a role that it may see.
  pub update_user_roles-assigns_visible :
      (t user tenant actor : Text) (dto : UpdateUserRolesDto) (w : World)
      → assigns_visible t w.db ≡ true
      → assigns_visible t (update_user_roles user tenant dto actor w).1.db ≡ true
  unfolding update_user_roles
  update_user_roles-assigns_visible t user tenant actor dto w h =
      let inv : World → Bool = λ v. assigns_visible t v.db in
      let added =
        for_each-preserves (add_role user tenant actor) inv
          (λ x v. add_role-visible_assigns t user tenant actor x v) (items dto.add) w h in
      let w' = (for_each (items dto.add) (add_role user tenant actor) w).1 in
      let removed =
        for_each-preserves (remove_role user tenant actor) inv
          (λ x v. remove_role-visible_assigns t user tenant actor x v) (items dto.remove) w'
          added in
      elim (Option-cases (env.find_one (is_member user tenant) w.db.users)) [
        | inl n ↦ ground arith
        | inr (u, m) ↦
            elim (Result-cases (for_each (items dto.add) (add_role user tenant actor) w).0) [
              | inr (x, e) ↦ ground (arith, added)
              | inl (d, e) ↦
                  elim (Result-cases
                    (for_each (items dto.remove) (remove_role user tenant actor) w').0) [
                      | inl (d', e') ↦ ground (arith, removed)
                      | inr (x, e') ↦ ground (arith, removed)
                    ]
            ]
      ]
