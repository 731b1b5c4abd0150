-- ===== src/Rbac/Assignment/Update.antt =====
-- The update of a user's roles in src/modules/rbac/assignment.service.ts as a whole: two loops, with
-- the message that the user's permissions changed at the end.
use generic_iam.Prelude.{Text, ◌≡◌, true, ◌&&◌, any, all, arith, Option-cases, inl, inr}
use generic_iam.Entities.{Db}
use generic_iam.Errors.{Result, ok, Result-cases}
use generic_iam.Env.{Env}
use generic_iam.App.{Done, World, for_each}
use generic_iam.Rows.{found_passes, found_there}
use generic_iam.Loops.{for_each-keeps, for_each-all}
use generic_iam.Rbac.Assignment.{
  UpdateUserRolesDto, update_user_roles, add_role, remove_role, items,
}
use generic_iam.Rbac.Assignment.Laws.{
  is_member, may_assign, but_assignments, add_role-Keeps, remove_role-Keeps, add_role-visible,
}

module _ ⦃env : Env⦄ where
  abbrev view : World → Db
  view w = but_assignments w.db

  abbrev add_all : Text → Text → Text → UpdateUserRolesDto → World → Result Done × World
  add_all user tenant actor dto w = for_each (items dto.add) (add_role user tenant actor) w

  kept_add :
      (user tenant actor : Text) (dto : UpdateUserRolesDto) (w : World)
      → view (add_all user tenant actor dto w).1 ≡ view w
  kept_add user tenant actor dto w =
      for_each-keeps view (add_role user tenant actor) (add_role-Keeps user tenant actor)
        (items dto.add) w

  kept_remove :
      (user tenant actor : Text) (dto : UpdateUserRolesDto) (w : World)
      → view (for_each (items dto.remove) (remove_role user tenant actor) w).1 ≡ view w
  kept_remove user tenant actor dto w =
      for_each-keeps view (remove_role user tenant actor) (remove_role-Keeps user tenant actor)
        (items dto.remove) w

  all_visible :
      (user tenant actor : Text) (dto : UpdateUserRolesDto) (w : World) (d : Done)
      → (add_all user tenant actor dto w).0 ≡ ok d
      → all (λ item. any (may_assign item.role_id tenant) w.db.roles) (items dto.add) ≡ true
  all_visible user tenant actor dto w d h =
      for_each-all view (add_role user tenant actor) (add_role-Keeps user tenant actor)
        (λ item db. any (may_assign item.role_id tenant) db.roles)
        (add_role-visible user tenant actor) (items dto.add) w d h

  -- Whether it succeeds or fails on the way, an update changes no table but the assignments.
  pub update_user_roles-Keeps :
      (user tenant actor : Text) (dto : UpdateUserRolesDto) (w : World)
      → but_assignments (update_user_roles user tenant dto actor w).1.db ≡ but_assignments w.db
  unfolding update_user_roles
  update_user_roles-Keeps user tenant actor dto w =
      elim (Option-cases (env.find_one (is_member user tenant) w.db.users)) [
        | inl n ↦ ground arith
        | inr (u, m) ↦ elim (Result-cases (add_all user tenant actor dto w).0) [
          | inl (d, e) ↦
              elim (Result-cases
                (for_each (items dto.remove) (remove_role user tenant actor)
                  (add_all user tenant actor dto w).1).0) [
                    | inl (d', e') ↦ ground (
                      arith,
                      kept_add user tenant actor dto w,
                      kept_remove user tenant actor dto (add_all user tenant actor dto w).1,
                    )
                    | inr (x, e') ↦ ground (
                      arith,
                      kept_add user tenant actor dto w,
                      kept_remove user tenant actor dto (add_all user tenant actor dto w).1,
                    )
                  ]
          | inr (x, e) ↦ ground (arith, kept_add user tenant actor dto w)
        ]
      ]

  -- An update that succeeds was for a user of the tenant, and the tenant may see each role that was
  -- added: its own, or a system role.
  pub update_user_roles-visible :
      (user tenant actor : Text) (dto : UpdateUserRolesDto) (w : World) (d : Done)
      → (update_user_roles user tenant dto actor w).0 ≡ ok d
      → (any (is_member user tenant) w.db.users
          && all (λ item. any (may_assign item.role_id tenant) w.db.roles) (items dto.add))
        ≡ true
  unfolding update_user_roles
  update_user_roles-visible user tenant actor dto w d h =
      elim (Option-cases (env.find_one (is_member user tenant) w.db.users)) [
        | inl n ↦ ground arith
        | inr (u, m) ↦ elim (Result-cases (add_all user tenant actor dto w).0) [
          | inl (d', e) ↦ ground (
            arith,
            found_passes (is_member user tenant) w.db.users u,
            found_there (is_member user tenant) (is_member user tenant) w.db.users u,
            all_visible user tenant actor dto w d',
          )
          | inr (x, e) ↦ ground arith
        ]
      ]
