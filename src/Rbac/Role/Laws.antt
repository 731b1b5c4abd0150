-- ===== src/Rbac/Role/Laws.antt =====
-- What src/modules/rbac/role.service.ts refuses, and what it leaves of the tables.
use generic_iam.Prelude.{
  Text, ◌≡◌, Bool, true, false, ◌&&◌, ◌||◌, not, none, some, ◌==◌, ==_eq, any, same_text, arith,
  Option-cases, inl, inr, ap, ◌∙◌,
}
use generic_iam.Entities.{RoleEntity}
use generic_iam.Errors.{Exception, ok, err, plain, bad_request, conflict}
use generic_iam.Env.{Env, Saved-cases}
use generic_iam.App.{World, roles}
use generic_iam.Rows.{found_passes, found_there, any_delete-inside, any_delete-outside}
use generic_iam.Rbac.Role.{
  RoleUpdate, visible, assign, find_one_for_tenant, update_custom_role, delete_custom_role,
}

abbrev is_row : Text → Text → RoleEntity → Bool
is_row id tenant r =
    (r.id == id && same_text r.tenant_id (some tenant)) || (r.id == id && r.is_system)

module _ ⦃env : Env⦄ where
  -- A role that is found has the id that was asked for, and the tenant may see it: it is the
  -- tenant's, or a system role. Reading changes nothing.
  pub find_one_for_tenant_lem :
      (id tenant : Text) (w : World) (r : RoleEntity)
      → (find_one_for_tenant id tenant w).0 ≡ ok r
      → (((r.id == id) ≡ true) × (visible tenant r ≡ true))
        × ((find_one_for_tenant id tenant w).1 ≡ w)
  unfolding find_one_for_tenant visible
  find_one_for_tenant_lem id tenant w r h =
      elim (Option-cases (env.find_one (is_row id tenant) w.db.roles)) [
        | inl e ↦ ground arith
        | inr (s, e) ↦ ground (arith, env.find_one_some (is_row id tenant) (λ q. true) w.db.roles s)
      ]

  -- An update of a system role is refused, whatever is in it: nothing is written, cached or
  -- emitted.
  pub update_custom_role-system :
      (id tenant actor : Text) (dto : RoleUpdate) (w : World) (r : RoleEntity)
      → (find_one_for_tenant id tenant w).0 ≡ ok r
      → r.is_system ≡ true
      → update_custom_role id tenant dto actor w
        ≡ (err (bad_request (plain "Cannot modify system roles")), w)
  unfolding find_one_for_tenant update_custom_role
  update_custom_role-system id tenant actor dto w r h s =
      elim (Option-cases (env.find_one (is_row id tenant) w.db.roles)) [
        | inl e ↦ ground arith
        | inr (q, e) ↦ ground arith
      ]

  -- An update that is refused, for whatever reason, leaves the tables and the messages as they were.
  pub update_custom_role-error :
      (id tenant actor : Text) (dto : RoleUpdate) (w : World) (e : Exception)
      → (update_custom_role id tenant dto actor w).0 ≡ err e
      → ((update_custom_role id tenant dto actor w).1.db ≡ w.db)
        × ((update_custom_role id tenant dto actor w).1.events ≡ w.events)
  unfolding find_one_for_tenant update_custom_role
  update_custom_role-error id tenant actor dto w e h =
      elim (Option-cases (env.find_one (is_row id tenant) w.db.roles)) [
        | inl n ↦ ground arith
        | inr (q, s) ↦ ground arith
      ]

  -- If the body of an update that succeeds sets none of the columns `id`, `tenant_id` and
  -- `is_system`, the role that comes back has the id that was asked for, is the tenant's and no
  -- system role, and the table holds a role with that id that is no system role.
  pub update_custom_role-keeps :
      (id tenant actor : Text) (dto : RoleUpdate) (w : World) (r : RoleEntity)
      → dto.id ≡ none
      → dto.tenant_id ≡ none
      → dto.is_system ≡ none
      → (update_custom_role id tenant dto actor w).0 ≡ ok r
      → (((r.id == id) ≡ true) × (same_text r.tenant_id (some tenant) ≡ true))
        × ((r.is_system ≡ false)
            × (any
                  (λ s. s.id == id && not s.is_system)
                  (update_custom_role id tenant dto actor w).1.db.roles
                ≡ true))
  unfolding find_one_for_tenant update_custom_role assign
  update_custom_role-keeps id tenant actor dto w r a b c h =
      elim (Option-cases (env.find_one (is_row id tenant) w.db.roles)) [
        | inl n ↦ ground arith
        | inr (q, s) ↦ elim (Saved-cases (env.save roles.key (assign q dto) w.db.roles)) [
          | inl (rows, v) ↦ ground (
            arith,
            env.find_one_some (is_row id tenant) (λ x. true) w.db.roles q,
            env.any_save roles.key (assign q dto) w.db.roles rows
                (λ x. x.id == id && not x.is_system),
          )
          | inr (e, v) ↦ ground arith
        ]
      ]

  -- An update that succeeds and whose body names another tenant and sets `is_system` gives back a
  -- system role of that tenant.
  pub update_custom_role-assigns :
      (id tenant other actor : Text) (dto : RoleUpdate) (w : World) (r : RoleEntity)
      → dto.tenant_id ≡ some other
      → dto.is_system ≡ some true
      → (update_custom_role id tenant dto actor w).0 ≡ ok r
      → (r.tenant_id ≡ some other) × (r.is_system ≡ true)
  unfolding find_one_for_tenant update_custom_role assign
  update_custom_role-assigns id tenant other actor dto w r a b h =
      elim (Option-cases (env.find_one (is_row id tenant) w.db.roles)) [
        | inl n ↦ ground arith
        | inr (q, s) ↦ ground arith
      ]

  -- A role is deleted only if it is the tenant's, is no system role, and no assignment refers to
  -- it, in whatever tenant. Afterwards no role has its id, and the other roles are as before.
  pub delete_custom_role_lem :
      (id tenant actor : Text) (w w' : World) (p : RoleEntity → Bool)
      → delete_custom_role id tenant actor w ≡ (ok tt, w')
      → ((any (λ r. r.id == id && same_text r.tenant_id (some tenant) && not r.is_system) w.db.roles
            ≡ true)
          × (any (λ a. a.role_id == id) w.db.user_roles ≡ false))
        × ((any (λ r. r.id == id) w'.db.roles ≡ false)
            × (any (λ r. p r && not (r.id == id)) w'.db.roles
                ≡ any (λ r. p r && not (r.id == id)) w.db.roles))
  unfolding find_one_for_tenant delete_custom_role
  delete_custom_role_lem id tenant actor w w' p h =
      elim (Option-cases (env.find_one (is_row id tenant) w.db.roles)) [
        | inl n ↦ ground arith
        | inr (q, s) ↦ ground (
          arith,
          found_passes (is_row id tenant) w.db.roles q,
          found_there (is_row id tenant)
              (λ r. r.id == id && same_text r.tenant_id (some tenant) && not r.is_system) w.db.roles
              q,
          ==_eq q.id id,
          env.count_pos (λ u. u.role_id == id) w.db.user_roles,
          any_delete-inside (λ r. r.id == id) (λ r. r.id == id) w.db.roles (λ r e. e),
          any_delete-outside (λ r. r.id == id) (λ r. p r && not (r.id == id)) w.db.roles
              (λ r e. ground arith),
        )
      ]

  -- A deletion changes no other table.
  pub delete_custom_role-db :
      (id tenant actor : Text) (w w' : World)
      → delete_custom_role id tenant actor w ≡ (ok tt, w')
      → w'.db ≡ record w.db { roles = env.delete (λ r. r.id == id) w.db.roles }
  unfolding find_one_for_tenant delete_custom_role
  delete_custom_role-db id tenant actor w w' h =
      elim (Option-cases (env.find_one (is_row id tenant) w.db.roles)) [
        | inl n ↦ ground arith
        | inr (q, s) ↦
            let same : q.id ≡ id =
              ==_eq q.id id (ground (arith, found_passes (is_row id tenant) w.db.roles q s)) in
            let path : w'.db ≡ record w.db { roles = env.delete (λ r. r.id == q.id) w.db.roles } =
              ground arith in
            path ∙ ap (λ j. record w.db { roles = env.delete (λ r. r.id == j) w.db.roles }) same
      ]

  -- Deleting a role that an assignment refers to is refused, and nothing changes.
  pub delete_custom_role-assigned :
      (id tenant actor : Text) (w : World) (r : RoleEntity)
      → (find_one_for_tenant id tenant w).0 ≡ ok r
      → r.is_system ≡ false
      → any (λ a. a.role_id == id) w.db.user_roles ≡ true
      → delete_custom_role id tenant actor w
        ≡ (err (conflict (plain "Cannot delete role as it is assigned to users")), w)
  unfolding find_one_for_tenant delete_custom_role
  delete_custom_role-assigned id tenant actor w r f s a =
      elim (Option-cases (env.find_one (is_row id tenant) w.db.roles)) [
        | inl n ↦ ground arith
        | inr (q, e) ↦ ground (
          arith,
          env.find_one_some (is_row id tenant) (λ x. true) w.db.roles q,
          ==_eq q.id id,
          env.count_pos (λ u. u.role_id == id) w.db.user_roles,
        )
      ]
