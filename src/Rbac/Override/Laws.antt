-- ===== src/Rbac/Override/Laws.antt =====
-- What getEffectivePermissions returns, in terms of the rows of the tables.
use generic_iam.Prelude.{
  ℕ, Text, ◌≡◌, refl, ap, Bool, true, false, ◌&&◌, ◌||◌, not, some, List, [], ◌∷◌, ◌++◌, ◌==◌,
  ==_eq, has, any, any-append, any-select, any-map, any_never, map, arith, ◌∙◌, sym, Option-cases,
  inl, inr,
}
use generic_iam.Entities.{PermissionEntity, UserPermissionOverrideEntity, Db, OverrideType}
use generic_iam.Errors.{ok, Result-cases}
use generic_iam.Env.{Env}
use generic_iam.App.{World}
use generic_iam.Rbac.Override.{is_grant, map_set, effective_loop, get_effective_permissions}
use generic_iam.Rbac.Override.Reads.{
  is_active, is_deny, role_permissions_in, joined_in, roles_in, overrides_in, effective_in,
  get_effective_permissions_eq,
}

abbrev pub has_id : Text → PermissionEntity → Bool
has_id i p = p.id == i

has_id-map_set :
    (i : Text) (p : PermissionEntity) (qs : List PermissionEntity)
    → any (has_id i) (map_set p qs) ≡ (has_id i p || any (has_id i) qs)
unfolding any map_set
has_id-map_set i p [] = refl
has_id-map_set i p (q ∷ qs) = ground (arith, has_id-map_set i p qs, ==_eq q.id p.id)

has_id-effective_loop :
    (i : Text) (denied : List Text) (effective ps : List PermissionEntity)
    → any (has_id i) (effective_loop denied effective ps)
      ≡ (any (has_id i) effective || (any (has_id i) ps && not (has denied i)))
unfolding any effective_loop
has_id-effective_loop i denied effective [] = ground arith
has_id-effective_loop i denied effective (p ∷ ps) = ground (
  arith,
  has_id-effective_loop i denied effective ps,
  has_id-effective_loop i denied (map_set p effective) ps,
  has_id-map_set i p effective,
  ==_eq p.id i,
)

module _ ⦃env : Env⦄ where
  -- A role that the user holds gives the permission with the id `i`.
  abbrev pub role_gives : Text → Text → ℕ → Db → Text → Bool
  role_gives user tenant now db i =
      any
        (λ p.
          p.id == i
          && any
              (λ rp.
                rp.permission_id == p.id
                && any (λ ur. ur.role_id == rp.role_id && is_active user tenant now ur)
                    db.user_roles)
              db.role_permissions)
        db.permissions

  -- A grant or a denial names the permission.
  abbrev pub override_names : (OverrideType → Bool) → Text → Text → Db → Text → Bool
  override_names kind user tenant db i =
      any
        (λ o.
          (o.permission_id == i && kind o.override_type)
          && (o.user_id == user && o.tenant_id == tenant))
        db.overrides

  -- The permission of a joined row is the one that the row names.
  has_id-joined :
      (db : Db) (o : UserPermissionOverrideEntity) (p : PermissionEntity) (i : Text)
      → env.find_one (λ p. p.id == o.permission_id) db.permissions ≡ some p
      → (p.id == i) ≡ (o.permission_id == i)
  has_id-joined db o p i e =
      let found =
        env.find_one_some (λ p. p.id == o.permission_id) (λ p. true) db.permissions p e refl in
      ap (λ t. t == i) (==_eq p.id o.permission_id found.0)

  has_id-joined_in :
      (db : Db) (os : List UserPermissionOverrideEntity) (ps : List PermissionEntity) (i : Text)
      → joined_in db os ≡ ok ps
      → any (has_id i) ps ≡ any (λ o. o.permission_id == i) os
  unfolding joined_in any
  has_id-joined_in db [] ps i h = ground arith
  has_id-joined_in db (o ∷ os) ps i h =
      elim (Option-cases (env.find_one (λ p. p.id == o.permission_id) db.permissions)) [
        | inl missing ↦ ground arith
        | inr (p, e) ↦ elim (Result-cases (joined_in db os)) [
          | inl (rest, r) ↦
              ground (arith, has_id-joined_in db os rest i r, has_id-joined db o p i e)
          | inr (x, r) ↦ ground arith
        ]
      ]

  any-role_permissions_in :
      (db : Db) (roles : List Text) (i : Text)
      → any (has_id i) (role_permissions_in db roles)
        ≡ any
            (λ p.
              p.id == i
              && any (λ rp. rp.permission_id == p.id && has roles rp.role_id) db.role_permissions)
            db.permissions
  unfolding role_permissions_in any has
  any-role_permissions_in db [] i = sym (
      any_never
        (λ p.
          p.id == i
          && any (λ rp. rp.permission_id == p.id && has [] rp.role_id) db.role_permissions)
        db.permissions (λ p. ground (arith, no_link p)))
    where
      no_link :
          (p : PermissionEntity)
          → any (λ rp. rp.permission_id == p.id && has [] rp.role_id) db.role_permissions ≡ false
      no_link p =
          any_never (λ rp. rp.permission_id == p.id && has [] rp.role_id) db.role_permissions
            (λ rp. ground arith)
  any-role_permissions_in db (r ∷ rs) i =
      env.any_find
        (λ p. any (λ rp. rp.permission_id == p.id && has (r ∷ rs) rp.role_id) db.role_permissions)
        (has_id i) db.permissions

  has-active_roles :
      (user tenant : Text) (now : ℕ) (db : Db) (role : Text)
      → has (map (λ ur. ur.role_id) (env.find (is_active user tenant now) db.user_roles)) role
        ≡ any (λ ur. ur.role_id == role && is_active user tenant now ur) db.user_roles
  unfolding has
  has-active_roles user tenant now db role =
      any-map (λ ur. ur.role_id) (λ x. x == role)
        (env.find (is_active user tenant now) db.user_roles)
      ∙ env.any_find (is_active user tenant now) (λ ur. ur.role_id == role) db.user_roles

  override_names_lem :
      (kind : OverrideType → Bool) (user tenant : Text) (db : Db) (i : Text)
      → any (λ o. o.permission_id == i) (overrides_in kind db user tenant)
        ≡ override_names kind user tenant db i
  override_names_lem kind user tenant db i =
      any-select (λ o. kind o.override_type) (λ o. o.permission_id == i)
        (env.find (λ o. o.user_id == user && o.tenant_id == tenant) db.overrides)
      ∙ env.any_find (λ o. o.user_id == user && o.tenant_id == tenant)
          (λ o. o.permission_id == i && kind o.override_type) db.overrides

  role_gives_lem :
      (user tenant : Text) (now : ℕ) (db : Db) (i : Text)
      → any (has_id i) (role_permissions_in db (roles_in db now user tenant))
        ≡ role_gives user tenant now db i
  role_gives_lem user tenant now db i =
      rw (any-role_permissions_in db (roles_in db now user tenant) i) (simp has-active_roles)

  denied_lem :
      (user tenant : Text) (db : Db) (i : Text)
      → has (map (λ o. o.permission_id) (overrides_in is_deny db user tenant)) i
        ≡ override_names is_deny user tenant db i
  unfolding has
  denied_lem user tenant db i =
      any-map (λ o. o.permission_id) (λ x. x == i) (overrides_in is_deny db user tenant)
      ∙ override_names_lem is_deny user tenant db i

  -- The permissions that a user should have.
  abbrev pub entitled : Text → Text → ℕ → Db → Text → Bool
  entitled user tenant now db i =
      (role_gives user tenant now db i || override_names is_grant user tenant db i)
      && not (override_names is_deny user tenant db i)

  has_id-effective_in :
      (user tenant : Text) (now : ℕ) (db : Db) (ps : List PermissionEntity) (i : Text)
      → effective_in db now user tenant ≡ ok ps
      → any (has_id i) ps ≡ entitled user tenant now db i
  unfolding effective_in any
  has_id-effective_in user tenant now db ps i h =
      elim (Result-cases (joined_in db (overrides_in is_grant db user tenant))) [
        | inr (x, e) ↦ ground arith
        | inl (grants, e) ↦
            let rp = role_permissions_in db (roles_in db now user tenant) in
            let denied =
              map (λ (o : UserPermissionOverrideEntity). o.permission_id)
                (overrides_in is_deny db user tenant) in
            ground (
              arith,
              has_id-effective_loop i denied [] (rp ++ grants),
              any-append (has_id i) rp grants,
              role_gives_lem user tenant now db i,
              denied_lem user tenant db i,
              has_id-joined_in db (overrides_in is_grant db user tenant) grants i e,
              override_names_lem is_grant user tenant db i,
            )
      ]

  -- What a user may do by roles and overrides: after a call that returns, a permission is listed
  -- exactly when a role that the user holds now gives it or a grant names it, and no denial does.
  pub get_effective_permissions_lem :
      (user tenant : Text) (w w' : World) (ps : List PermissionEntity) (i : Text)
      → get_effective_permissions user tenant w ≡ (ok ps, w')
      → (w' ≡ w) × (any (has_id i) ps ≡ entitled user tenant w.now w.db i)
  get_effective_permissions_lem user tenant w w' ps i h =
      let e = sym (get_effective_permissions_eq user tenant w) ∙ h in
      (ap (λ r. r.1) (sym e), has_id-effective_in user tenant w.now w.db ps i (ap (λ r. r.0) e))
