-- ===== src/Rbac/Assignment/Laws.antt =====
-- Laws of the assignment of roles in src/modules/rbac/assignment.service.ts, and of the purge in
-- src/modules/rbac/rbac.scheduler.ts.
use generic_iam.Prelude.{
  Text, ◌≡◌, refl, Bool, true, false, ◌&&◌, ◌||◌, Option, none, some, List, [], ◌==◌, ==_refl, any,
  arith, Option-cases, inl, inr, ℕ, same_text,
}
use generic_iam.Entities.{Db, UserEntity, RoleEntity, UserRoleEntity}
use generic_iam.Errors.{Exception, ok, err}
use generic_iam.Env.{Env, Saved-cases}
use generic_iam.App.{Done, World, user_roles}
use generic_iam.Rows.{found_passes, found_there, any_delete-outside}
use generic_iam.Rbac.Role.{visible, find_one_for_tenant}
use generic_iam.Rbac.Assignment.{
  AssignRoleDto, assign_to_user, add_role, remove_role, get_user_roles, same_assignment,
  put_assignment, unexpired,
}
use generic_iam.Rbac.Scheduler.{purge_expired_roles, has_expired}

abbrev pub is_member : Text → Text → UserEntity → Bool
is_member user tenant u = u.id == user && u.tenant_id == tenant

abbrev pub may_assign : Text → Text → RoleEntity → Bool
may_assign role tenant r = r.id == role && visible tenant r

-- The tables without the assignments.
abbrev pub but_assignments : Db → Db
but_assignments db = record db { user_roles = [] }

module _ ⦃env : Env⦄ where
  -- What a step may change: the assignments, and the messages and numbers drawn.
  abbrev Keeps : World → World → Type 0
  Keeps w w' = but_assignments w'.db ≡ but_assignments w.db

  abbrev new_assignment : Text → Text → AssignRoleDto → World → UserRoleEntity
  new_assignment user tenant dto w = record {
    owner = record {
      base = record { id = env.uuid w.drawn; created_at = w.now };
      tenant_id = tenant;
    };
    user_id = user;
    role_id = dto.role_id;
    expires_at = dto.expires_at;
  }

  abbrev pub row_of : Text → Text → AssignRoleDto → Option UserRoleEntity → World → UserRoleEntity
  row_of user tenant dto none w = new_assignment user tenant dto w
  row_of user tenant dto (some a) w = record a { expires_at = dto.expires_at }

  put_assignment-ok :
      (user tenant : Text) (dto : AssignRoleDto) (o : Option UserRoleEntity) (w : World)
      (r : UserRoleEntity)
      → ((a : UserRoleEntity) → o ≡ some a → same_assignment user dto.role_id tenant a ≡ true)
      → (put_assignment user tenant dto o w).0 ≡ ok r
      → (any
            (same_assignment user dto.role_id tenant)
            (put_assignment user tenant dto o w).1.db.user_roles
          ≡ true)
        × (r.expires_at ≡ dto.expires_at)
  put_assignment-ok user tenant dto none w r f h =
      elim (Saved-cases
        (env.save user_roles.key (new_assignment user tenant dto w) w.db.user_roles)) [
          | inl (rows, v) ↦ ground (
            arith,
            env.any_save user_roles.key (new_assignment user tenant dto w) w.db.user_roles rows
                (same_assignment user dto.role_id tenant),
            ==_refl user,
            ==_refl tenant,
            ==_refl dto.role_id,
          )
          | inr (e, v) ↦ ground arith
        ]
  put_assignment-ok user tenant dto (some a) w r f h =
      elim (Saved-cases
        (env.save user_roles.key (row_of user tenant dto (some a) w) w.db.user_roles)) [
          | inl (rows, v) ↦ ground (
            arith,
            env.any_save user_roles.key (row_of user tenant dto (some a) w) w.db.user_roles rows
                (same_assignment user dto.role_id tenant),
            f a refl,
          )
          | inr (e, v) ↦ ground arith
        ]

  put_assignment-err :
      (user tenant : Text) (dto : AssignRoleDto) (o : Option UserRoleEntity) (w : World)
      (e : Exception)
      → (put_assignment user tenant dto o w).0 ≡ err e
      → ((put_assignment user tenant dto o w).1.db ≡ w.db)
        × ((put_assignment user tenant dto o w).1.events ≡ w.events)
  put_assignment-err user tenant dto none w e h = ground arith
  put_assignment-err user tenant dto (some a) w e h = ground arith

  put_assignment-Keeps :
      (user tenant : Text) (dto : AssignRoleDto) (o : Option UserRoleEntity) (w : World)
      → Keeps w (put_assignment user tenant dto o w).1
  put_assignment-Keeps user tenant dto none w = ground arith
  put_assignment-Keeps user tenant dto (some a) w = ground arith

  abbrev pub role_test : Text → Text → RoleEntity → Bool
  role_test role tenant r =
      (r.id == role && same_text r.tenant_id (some tenant)) || (r.id == role && r.is_system)

  pub role_there :
      (role tenant : Text) (w : World) (r : RoleEntity)
      → env.find_one (role_test role tenant) w.db.roles ≡ some r
      → any (may_assign role tenant) w.db.roles ≡ true
  unfolding visible
  role_there role tenant w r h = ground (
    arith,
    found_passes (role_test role tenant) w.db.roles r,
    found_there (role_test role tenant) (may_assign role tenant) w.db.roles r,
  )

  pub add_role-Keeps :
      (user tenant actor : Text) (item : AssignRoleDto) (w : World)
      → Keeps w (add_role user tenant actor item w).1
  unfolding add_role find_one_for_tenant
  add_role-Keeps user tenant actor item w =
      elim (Option-cases (env.find_one (role_test item.role_id tenant) w.db.roles)) [
        | inl n ↦ ground arith
        | inr (r, f) ↦ ground (
          arith,
          put_assignment-Keeps user tenant item
              (env.find_one (same_assignment user item.role_id tenant) w.db.user_roles) w,
        )
      ]

  pub remove_role-Keeps :
      (user tenant actor role : Text) (w : World) → Keeps w (remove_role user tenant actor role w).1
  unfolding remove_role
  remove_role-Keeps user tenant actor role w = ground arith

  -- Adding a role succeeds only for a role that the tenant may see.
  pub add_role-visible :
      (user tenant actor : Text) (item : AssignRoleDto) (w : World) (d : Done)
      → (add_role user tenant actor item w).0 ≡ ok d
      → any (may_assign item.role_id tenant) w.db.roles ≡ true
  unfolding add_role find_one_for_tenant
  add_role-visible user tenant actor item w d h =
      elim (Option-cases (env.find_one (role_test item.role_id tenant) w.db.roles)) [
        | inl n ↦ ground arith
        | inr (r, f) ↦ role_there item.role_id tenant w r f
      ]

  abbrev pub present : Text → Text → AssignRoleDto → World → Option UserRoleEntity
  present user tenant dto w = env.find_one (same_assignment user dto.role_id tenant) w.db.user_roles

  -- If the assignment succeeds, the user is in the tenant, the tenant may see the role, the table
  -- holds the user's assignment of it, and the one that comes back has the expiry that was asked
  -- for.
  pub assign_to_user-ok :
      (user tenant actor : Text) (dto : AssignRoleDto) (w : World) (r : UserRoleEntity)
      → (assign_to_user user tenant dto actor w).0 ≡ ok r
      → ((any (is_member user tenant) w.db.users && any (may_assign dto.role_id tenant) w.db.roles)
          ≡ true)
        × ((any
                (same_assignment user dto.role_id tenant)
                (assign_to_user user tenant dto actor w).1.db.user_roles
              ≡ true)
            × (r.expires_at ≡ dto.expires_at))
  unfolding assign_to_user find_one_for_tenant
  assign_to_user-ok user tenant actor dto w r h =
      elim (Option-cases (env.find_one (is_member user tenant) w.db.users)) [
        | inl n ↦ ground arith
        | inr (u, m) ↦
            elim (Option-cases (env.find_one (role_test dto.role_id tenant) w.db.roles)) [
              | inl n ↦ ground arith
              | inr (q, f) ↦ ground (
                arith,
                found_passes (is_member user tenant) w.db.users u,
                found_there (is_member user tenant) (is_member user tenant) w.db.users u,
                role_there dto.role_id tenant w q,
                put_assignment-ok user tenant dto (present user tenant dto w) w r (λ a e.
                    found_passes (same_assignment user dto.role_id tenant) w.db.user_roles a e),
              )
            ]
      ]

  -- If the assignment of a role to a user fails, the tables and the messages are as before.
  pub assign_to_user-err :
      (user tenant actor : Text) (dto : AssignRoleDto) (w : World) (e : Exception)
      → (assign_to_user user tenant dto actor w).0 ≡ err e
      → ((assign_to_user user tenant dto actor w).1.db ≡ w.db)
        × ((assign_to_user user tenant dto actor w).1.events ≡ w.events)
  unfolding assign_to_user find_one_for_tenant
  assign_to_user-err user tenant actor dto w e h =
      elim (Option-cases (env.find_one (is_member user tenant) w.db.users)) [
        | inl n ↦ ground arith
        | inr (u, m) ↦
            elim (Option-cases (env.find_one (role_test dto.role_id tenant) w.db.roles)) [
              | inl n ↦ ground arith
              | inr (q, f) ↦
                  ground (arith, put_assignment-err user tenant dto (present user tenant dto w) w e)
            ]
      ]

  abbrev in_effect : Text → Text → ℕ → UserRoleEntity → Bool
  in_effect user tenant now ur =
      ur.user_id == user && ur.tenant_id == tenant && unexpired now ur.expires_at

  not_expired : (now : ℕ) (e : Option ℕ) → unexpired now e ≡ true → has_expired now e ≡ false
  unfolding unexpired has_expired
  not_expired now none h = refl
  not_expired now (some t) h = ground arith

  -- The purge takes no assignment that is in effect: the roles of every user read the same before
  -- and after it.
  pub purge-get_user_roles :
      (user tenant : Text) (w : World) (q : UserRoleEntity → Bool)
      (before after : List UserRoleEntity)
      → (get_user_roles user tenant w).0 ≡ ok before
      → (get_user_roles user tenant (purge_expired_roles w).1).0 ≡ ok after
      → any q after ≡ any q before
  unfolding get_user_roles purge_expired_roles
  purge-get_user_roles user tenant w q before after b a = ground (
    arith,
    env.any_find (in_effect user tenant w.now) q w.db.user_roles,
    env.any_find (in_effect user tenant w.now) q
        (env.delete (λ ur. has_expired w.now ur.expires_at) w.db.user_roles),
    any_delete-outside (λ ur. has_expired w.now ur.expires_at)
        (λ ur. q ur && in_effect user tenant w.now ur) w.db.user_roles
        (λ ur e. not_expired w.now ur.expires_at (ground arith)),
  )
