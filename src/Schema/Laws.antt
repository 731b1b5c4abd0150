-- ===== src/Schema/Laws.antt =====
-- What the cascade of the foreign keys takes along when a role is deleted.
use generic_iam.Prelude.{
  ℕ, Text, ◌≡◌, refl, Bool, true, false, ◌&&◌, ◌||◌, not, List, [], ◌∷◌, ◌==◌, ==_eq, any, any_ext,
  any_mono, any_without, any-select, select, arith, ◌∙◌, Bool-cases, inl, inr,
}
use generic_iam.Entities.{Db, RolePermissionEntity, OverrideType}
use generic_iam.Errors.{ok}
use generic_iam.Env.{Env}
use generic_iam.App.{World}
use generic_iam.Rbac.Role.{delete_custom_role}
use generic_iam.Rbac.Role.Laws.{delete_custom_role_lem, delete_custom_role-db}
use generic_iam.Rbac.Override.{is_grant}
use generic_iam.Rbac.Override.Reads.{is_active, is_deny}
use generic_iam.Rbac.Override.Laws.{role_gives, override_names, entitled}
use generic_iam.Schema.{has_role, assignment_refers, link_refers, override_refers, cascade}

-- Every assignment, link and override refers to rows that are there.
abbrev pub is_integral : Db → Bool
is_integral db =
    not (any (λ ur. not (assignment_refers db ur)) db.user_roles)
    && not (any (λ rp. not (link_refers db rp)) db.role_permissions)
    && not (any (λ o. not (override_refers db o)) db.overrides)

any-or :
    {A : Type 0} (p q : A → Bool) (xs : List A) → any (λ x. p x || q x) xs ≡ (any p xs || any q xs)
unfolding any
any-or p q [] = refl
any-or p q (x ∷ xs) = ground (arith, any-or p q xs)

-- Where all members pass a test, selecting by it changes no search.
any-selected :
    {A : Type 0} (p test : A → Bool) (xs : List A)
    → any (λ x. not (test x)) xs ≡ false
    → any p (select test xs) ≡ any p xs
any-selected p test xs h =
    any-select test p xs
    ∙ any_ext (λ x. p x && test x) (λ x. p x && not (not (test x))) xs (λ x. ground arith)
    ∙ any_without p (λ x. not (test x)) xs h

module _ ⦃env : Env⦄ (db : Db) (id : Text) where
  -- The tables without the role, before the cascade.
  abbrev pub without_role : Db
  without_role = record db { roles = env.delete (λ r. r.id == id) db.roles }

  has_role-other :
      (role : Text) → (role == id) ≡ false → has_role without_role role ≡ has_role db role
  has_role-other role n =
      env.any_delete (λ r. r.id == id) (λ r. r.id == role) db.roles
      ∙ any_ext (λ r. r.id == role && not (r.id == id)) (λ r. r.id == role) db.roles
          (λ r. ground (arith, ==_eq r.id role))

  module _ (integral : is_integral db ≡ true)
      (free : any (λ ur. ur.role_id == id) db.user_roles ≡ false) where
    assignments-stay : any (λ ur. not (assignment_refers without_role ur)) db.user_roles ≡ false
    assignments-stay = ground (
      arith,
      integral,
      free,
      any-or (λ ur. not (assignment_refers db ur)) (λ ur. ur.role_id == id) db.user_roles,
      any_mono (λ ur. not (assignment_refers without_role ur))
          (λ ur. not (assignment_refers db ur) || ur.role_id == id) db.user_roles
          (λ ur k. ground (arith, has_role-other ur.role_id)),
    )

    -- A link to the role gives nobody anything, since no assignment is to it.
    gives_by : Text → Text → ℕ → Text → RolePermissionEntity → Bool
    gives_by user tenant now i rp =
        rp.permission_id == i
        && any (λ ur. ur.role_id == rp.role_id && is_active user tenant now ur) db.user_roles

    gives_by-stays :
        (user tenant : Text) (now : ℕ) (i : Text) (rp : RolePermissionEntity)
        → (gives_by user tenant now i rp && link_refers without_role rp)
          ≡ (gives_by user tenant now i rp && not (not (link_refers db rp)))
    unfolding gives_by
    gives_by-stays user tenant now i rp = elim (Bool-cases (rp.role_id == id)) [
      | inr other ↦ ground (arith, has_role-other rp.role_id other)
      | inl same ↦ ground (
        arith,
        free,
        same,
        ==_eq rp.role_id id,
        any_mono (λ ur. ur.role_id == rp.role_id && is_active user tenant now ur)
            (λ ur. ur.role_id == id) db.user_roles
            (λ ur k. ground (arith, ==_eq ur.role_id rp.role_id, same, ==_eq rp.role_id id)),
      )
    ]

    links-stay :
        (user tenant : Text) (now : ℕ) (i : Text)
        → any (gives_by user tenant now i) (select (link_refers without_role) db.role_permissions)
          ≡ any (gives_by user tenant now i) db.role_permissions
    links-stay user tenant now i =
        any-select (link_refers without_role) (gives_by user tenant now i) db.role_permissions
        ∙ any_ext (λ rp. gives_by user tenant now i rp && link_refers without_role rp)
            (λ rp. gives_by user tenant now i rp && not (not (link_refers db rp)))
            db.role_permissions (gives_by-stays user tenant now i)
        ∙ any_without (gives_by user tenant now i) (λ rp. not (link_refers db rp))
            db.role_permissions (ground (arith, integral))

    role_gives-stays :
        (user tenant : Text) (now : ℕ) (i : Text)
        → role_gives user tenant now (cascade without_role) i ≡ role_gives user tenant now db i
    unfolding cascade gives_by
    role_gives-stays user tenant now i =
        any_ext
          (λ p.
            p.id == i
            && any
                (λ rp.
                  rp.permission_id == p.id
                  && any (λ ur. ur.role_id == rp.role_id && is_active user tenant now ur)
                      (select (assignment_refers without_role) db.user_roles))
                (select (link_refers without_role) db.role_permissions))
          (λ p. p.id == i && any (gives_by user tenant now p.id) db.role_permissions) db.permissions
          (λ p. ground (
            arith,
            links-stay user tenant now p.id,
            any_ext
                (λ rp.
                  rp.permission_id == p.id
                  && any (λ ur. ur.role_id == rp.role_id && is_active user tenant now ur)
                      (select (assignment_refers without_role) db.user_roles))
                (gives_by user tenant now p.id)
                (select (link_refers without_role) db.role_permissions)
                (λ rp. ground (
                  arith,
                  any-selected (λ ur. ur.role_id == rp.role_id && is_active user tenant now ur)
                      (assignment_refers without_role) db.user_roles assignments-stay,
                )),
          ))

    override_names-stay :
        (kind : OverrideType → Bool) (user tenant i : Text)
        → override_names kind user tenant (cascade without_role) i
          ≡ override_names kind user tenant db i
    unfolding cascade
    override_names-stay kind user tenant i =
        any-selected
          (λ o.
            (o.permission_id == i && kind o.override_type)
            && (o.user_id == user && o.tenant_id == tenant))
          (override_refers without_role) db.overrides (ground (arith, integral))

    entitled-stays :
        (user tenant : Text) (now : ℕ) (i : Text)
        → entitled user tenant now (cascade without_role) i ≡ entitled user tenant now db i
    entitled-stays user tenant now i = ground (
      arith,
      role_gives-stays user tenant now i,
      override_names-stay is_grant user tenant i,
      override_names-stay is_deny user tenant i,
    )

module _ ⦃env : Env⦄ where
  -- Deleting a custom role, together with what the foreign keys take along, takes no right from
  -- anybody: where every assignment, link and override refers to rows that are there, a deletion
  -- that succeeds leaves each user of each tenant entitled to the same permissions, and no role has
  -- the id.
  pub delete_custom_role-entitled :
      (id tenant actor : Text) (w w' : World) (user t : Text) (now : ℕ) (i : Text)
      → is_integral w.db ≡ true
      → delete_custom_role id tenant actor w ≡ (ok tt, w')
      → (entitled user t now (cascade w'.db) i ≡ entitled user t now w.db i)
        × (any (λ r. r.id == id) (cascade w'.db).roles ≡ false)
  unfolding cascade
  delete_custom_role-entitled id tenant actor w w' user t now i g h =
      let ((own, free), (gone, others)) =
        delete_custom_role_lem id tenant actor w w' (λ r. true) h in
      let db : w'.db ≡ without_role w.db id = delete_custom_role-db id tenant actor w w' h in
      (rw db (entitled-stays w.db id g free user t now i), gone)
