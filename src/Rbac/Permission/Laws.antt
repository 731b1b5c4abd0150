-- ===== src/Rbac/Permission/Laws.antt =====
-- Laws of the permissions of a role in src/modules/rbac/permission.service.ts.
use generic_iam.Prelude.{
  Text, ◌≡◌, true, ◌&&◌, ◌||◌, some, ◌==◌, ==_refl, any, arith, Option-cases, inl, inr, same_text,
}
use generic_iam.Entities.{PermissionEntity, RolePermissionEntity, RoleEntity}
use generic_iam.Errors.{ok, err, plain, bad_request}
use generic_iam.Env.{Env, Saved-cases}
use generic_iam.App.{World, Done, role_permissions}
use generic_iam.Rows.{found_passes, found_there}
use generic_iam.Rbac.Role.{find_one_for_tenant}
use generic_iam.Rbac.Permission.{
  UpdateRolePermissionsDto, add_permission, update_role_permissions, link,
}

module _ ⦃env : Env⦄ where
  -- The permissions of a system role are not changed for any tenant: the request is refused, and
  -- nothing is written or emitted.
  pub update_role_permissions-system :
      (role tenant actor : Text) (dto : UpdateRolePermissionsDto) (w : World) (r : RoleEntity)
      → (find_one_for_tenant role tenant w).0 ≡ ok r
      → r.is_system ≡ true
      → update_role_permissions role tenant dto actor w
        ≡ (err (bad_request (plain "Cannot modify permissions of system roles")), w)
  unfolding update_role_permissions find_one_for_tenant
  update_role_permissions-system role tenant actor dto w r h s =
      elim (Option-cases (
        env.find_one
          (λ x.
            (x.id == role && same_text x.tenant_id (some tenant)) || (x.id == role && x.is_system))
          w.db.roles)) [ inl n ↦ ground arith | inr (x, f) ↦ ground arith ]

  abbrev new_link : Text → PermissionEntity → World → RolePermissionEntity
  new_link role p w = record {
    base = record { id = env.uuid w.drawn; created_at = w.now };
    role_id = role;
    permission_id = p.id;
  }

  linked :
      (role tenant actor : Text) (p : PermissionEntity) (w : World) (d : Done)
      → (add_permission role tenant actor p w).0 ≡ ok d
      → any (link role p) (add_permission role tenant actor p w).1.db.role_permissions ≡ true
  unfolding add_permission
  linked role tenant actor p w d h =
      elim (Option-cases (env.find_one (link role p) w.db.role_permissions)) [
        | inr (l, f) ↦ ground (
          arith,
          found_passes (link role p) w.db.role_permissions l,
          found_there (link role p) (link role p) w.db.role_permissions l,
        )
        | inl n ↦
            elim (Saved-cases
              (env.save role_permissions.key (new_link role p w) w.db.role_permissions)) [
                | inl (rows, s) ↦ ground (
                  arith,
                  env.any_save role_permissions.key (new_link role p w) w.db.role_permissions rows
                      (link role p),
                  ==_refl role,
                  ==_refl p.id,
                )
                | inr (x, s) ↦ ground arith
              ]
      ]

  unchanged :
      (role tenant actor : Text) (p : PermissionEntity) (w : World)
      → any (link role p) w.db.role_permissions ≡ true
      → (add_permission role tenant actor p w).1 ≡ w
  unfolding add_permission
  unchanged role tenant actor p w h =
      elim (Option-cases (env.find_one (link role p) w.db.role_permissions)) [
        | inl n ↦ ground (arith, env.find_one_none (link role p) w.db.role_permissions n)
        | inr (l, f) ↦ ground arith
      ]

  -- After a round of adding that succeeds the role holds the permission, and a second round for the
  -- same permission changes nothing.
  pub add_permission_lem :
      (role tenant actor : Text) (p : PermissionEntity) (w : World) (d : Done)
      → (add_permission role tenant actor p w).0 ≡ ok d
      → (any (link role p) (add_permission role tenant actor p w).1.db.role_permissions ≡ true)
        × ((add_permission role tenant actor p (add_permission role tenant actor p w).1).1
            ≡ (add_permission role tenant actor p w).1)
  add_permission_lem role tenant actor p w d h =
      let held = linked role tenant actor p w d h in
      (held, unchanged role tenant actor p (add_permission role tenant actor p w).1 held)
