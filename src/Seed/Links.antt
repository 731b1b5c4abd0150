-- ===== src/Seed/Links.antt =====
-- What the seeding of src/database/seeds/system-roles.seed.ts links to the system roles.
use generic_iam.Prelude.{
  ℕ, suc, ◌+◌, Text, lit, ◌≡◌, ap, ◌∙◌, Bool, true, false, ◌&&◌, ◌||◌, none, some, List, [], ◌∷◌,
  ◌++◌, ◌==◌, ==_refl, any, all, implies, refl, Bool-cases, all-append, any_without, arith, select,
  starts_with, Option-cases, inl, inr,
}
use generic_iam.Entities.{Db, PermissionEntity, RoleEntity, RolePermissionEntity}
use generic_iam.Errors.{ok}
use generic_iam.Env.{Env, Saved-cases, saved}
use generic_iam.Rows.{found_there, found_passes}
use generic_iam.Loops.{Reaches, for_each-Reaches, for_each-keeps}
use generic_iam.App.{World, Done, roles, role_permissions, for_each}
use generic_iam.Sdk.{ends_with}
use generic_iam.Seed.Laws.{Distinct}
use generic_iam.Seed.Roles.{
  RoleSeed, auditor, is_seeded, matching, prefix_of, permissions_to_assign, seed_link, seed_role,
}

abbrev pub is_linked : Text → PermissionEntity → Db → Bool
is_linked role p db = any (λ rp. rp.role_id == role && rp.permission_id == p.id) db.role_permissions

-- What holds of all that the list stands for holds of all that one of its patterns stands for.
all-permissions_to_assign :
    (rows : List PermissionEntity) (ps qs : List Text) (p : Text) (f : PermissionEntity → Bool)
    → all f (permissions_to_assign rows (ps ++ p ∷ qs)) ≡ true
    → all f (matching rows p) ≡ true
unfolding permissions_to_assign
all-permissions_to_assign rows [] qs p f h =
    ground (arith, all-append f (matching rows p) (permissions_to_assign rows qs))
all-permissions_to_assign rows (r ∷ ps) qs p f h = ground (
  arith,
  all-append f (matching rows r) (permissions_to_assign rows (ps ++ p ∷ qs)),
  all-permissions_to_assign rows ps qs p f,
)

all-select :
    {A : Type 0} (g f : A → Bool) (rows : List A)
    → all f (select g rows) ≡ true
    → all (λ p. implies (g p) (f p)) rows ≡ true
unfolding all select
all-select g f [] h = refl
all-select g f (r ∷ rows) h = elim (Bool-cases (g r)) [
  | inl chosen ↦ ground (arith, all-select g f rows)
  | inr left ↦ ground (arith, all-select g f rows)
]

-- What holds of all that the role "Auditor" is given holds of all permissions of the tree "expense".
auditor_matching :
    (rows : List PermissionEntity) (f : PermissionEntity → Bool)
    → all f (permissions_to_assign rows auditor.permissions) ≡ true
    → all (λ p. implies (starts_with (lit "expense") p.code) (f p)) rows ≡ true
unfolding matching prefix_of ends_with starts_with ◌==◌
auditor_matching rows f h =
    all-select (λ p. starts_with (lit "expense") p.code) f rows
      (all-permissions_to_assign rows (lit "audit.read" ∷ lit "report.read" ∷ [])
        (lit "payroll.read" ∷ lit "invoice.read" ∷ []) (lit "expense.*") f h)

module _ ⦃env : Env⦄ where
  -- No link has an id that will be drawn.
  abbrev pub UnusedLinks : World → Type 0
  UnusedLinks w = (n : ℕ) → any (λ l. l.id == env.uuid (w.drawn + n)) w.db.role_permissions ≡ false

  abbrev link_row : Text → PermissionEntity → World → RolePermissionEntity
  link_row role p w = record {
    base = record { id = env.uuid w.drawn; created_at = w.now };
    role_id = role;
    permission_id = p.id;
  }

  abbrev linked_after : List RolePermissionEntity → World → World
  linked_after rows w = record w {
    db = record w.db { role_permissions = rows };
    drawn = w.drawn + 1;
  }

  abbrev linked : Text → PermissionEntity → World → Bool
  linked role p w = is_linked role p w.db

  abbrev same_link : Text → PermissionEntity → RolePermissionEntity → Bool
  same_link role p rp = rp.role_id == role && rp.permission_id == p.id

  link_inserted :
      (role : Text) (p : PermissionEntity) (w : World) (rows : List RolePermissionEntity)
      → Distinct
      → UnusedLinks w
      → env.save role_permissions.key (link_row role p w) w.db.role_permissions ≡ saved rows
      → Reaches (seed_link role) (linked role) UnusedLinks p w (linked_after rows w)
  link_inserted role p w rows d u s =
      let fresh : any (λ l. l.id == env.uuid w.drawn) w.db.role_permissions ≡ false =
        (let e : w.drawn + 0 ≡ w.drawn = omega arith in rw e at (u 0)) in
      let reads = (λ (q : RolePermissionEntity → Bool).
        env.any_save role_permissions.key (link_row role p w) w.db.role_permissions rows q s
        ∙ ap (λ b. q (link_row role p w) || b)
            (any_without q (λ l. l.id == env.uuid w.drawn) w.db.role_permissions fresh)) in
      record {
        inv = λ n.
            let e : w.drawn + suc n ≡ w.drawn + 1 + n = omega arith in
            reads (λ l. l.id == env.uuid (w.drawn + 1 + n))
            ∙ ground (arith, rw e at (d w.drawn n), rw e at (u (suc n)));
        made = reads (same_link role p) ∙ ground (arith, ==_refl role, ==_refl p.id);
        kept = λ y k. reads (same_link role y) ∙ ground arith;
      }

  seed_link-ok :
      (role : Text) (p : PermissionEntity) (w : World) (d : Done)
      → Distinct
      → UnusedLinks w
      → (seed_link role p w).0 ≡ ok d
      → Reaches (seed_link role) (linked role) UnusedLinks p w (seed_link role p w).1
  unfolding seed_link
  seed_link-ok role p w d ds u h =
      elim (Option-cases (env.find_one (same_link role p) w.db.role_permissions)) [
        | inr (l, f) ↦
            let stays : (seed_link role p w).1 ≡ w = ground arith in
            rw stays (record {
              inv = u;
              made =
                  found_there (same_link role p) (same_link role p) w.db.role_permissions l f
                    (found_passes (same_link role p) w.db.role_permissions l f);
              kept = λ y k. k;
            })
        | inl n ↦
            elim (Saved-cases
              (env.save role_permissions.key (link_row role p w) w.db.role_permissions)) [
                | inr (e, v) ↦ ground arith
                | inl (rows, v) ↦
                    let moves : (seed_link role p w).1 ≡ linked_after rows w = ground arith in
                    rw moves (link_inserted role p w rows ds u v)
              ]
      ]

  seed_link-roles :
      (role : Text) (p : PermissionEntity) (w : World)
      → (seed_link role p w).1.db.roles ≡ w.db.roles
  unfolding seed_link
  seed_link-roles role p w =
      elim (Option-cases (env.find_one (same_link role p) w.db.role_permissions)) [
        | inr (l, f) ↦ ground arith
        | inl n ↦
            elim (Saved-cases
              (env.save role_permissions.key (link_row role p w) w.db.role_permissions)) [
                | inr (e, v) ↦ ground arith
                | inl (rows, v) ↦ ground arith
              ]
      ]

  -- The links of a role, from the state in which the role is in the table.
  links-ok :
      (def : RoleSeed) (role : RoleEntity) (ps : List PermissionEntity) (w : World) (d : Done)
      → Distinct
      → UnusedLinks w
      → any (λ r. is_seeded def r && r.id == role.id) w.db.roles ≡ true
      → (for_each ps (seed_link role.id) w).0 ≡ ok d
      → (any
            (λ r. is_seeded def r && r.id == role.id)
            (for_each ps (seed_link role.id) w).1.db.roles
          && all (λ p. is_linked role.id p (for_each ps (seed_link role.id) w).1.db) ps)
        ≡ true
  links-ok def role ps w d ds u h o =
      let (made, kept) =
        for_each-Reaches (seed_link role.id) (linked role.id) UnusedLinks
          (λ p v d' i. seed_link-ok role.id p v d' ds i) ps w d u o in
      let same =
        for_each-keeps (λ v. v.db.roles) (seed_link role.id) (seed_link-roles role.id) ps w in
      ground (arith, made, same, h)

  abbrev role_row : RoleSeed → World → RoleEntity
  role_row def w = record {
    base = record { id = env.uuid w.drawn; created_at = w.now };
    tenant_id = none;
    name = def.name;
    description = some def.description;
    is_system = true;
  }

  abbrev role_after : List RoleEntity → World → World
  role_after rows w = record w { db = record w.db { roles = rows }; drawn = w.drawn + 1 }

  -- Seeding a system role, where the ids that the database draws differ from each other and from
  -- those of the links: a run that ends leaves a system role with the name, of no tenant, in the
  -- table, and links it to each permission that its patterns stand for.
  pub seed_role-ok :
      (rows : List PermissionEntity) (def : RoleSeed) (w : World) (d : Done)
      → Distinct
      → UnusedLinks w
      → (seed_role rows def w).0 ≡ ok d
      → (role : RoleEntity) × ((any
              (λ r. is_seeded def r && r.id == role.id)
              (seed_role rows def w).1.db.roles
            && all
                (λ p. is_linked role.id p (seed_role rows def w).1.db)
                (permissions_to_assign rows def.permissions))
          ≡ true)
  unfolding seed_role
  seed_role-ok rows def w d ds u h =
      let ps = permissions_to_assign rows def.permissions in
      elim (Option-cases (env.find_one (is_seeded def) w.db.roles)) [
        | inr (r, f) ↦
            let there : any (λ x. is_seeded def x && x.id == r.id) w.db.roles ≡ true =
              found_there (is_seeded def) (λ x. is_seeded def x && x.id == r.id) w.db.roles r f
                (ground (arith, found_passes (is_seeded def) w.db.roles r f, ==_refl r.id)) in
            (r, ground (arith, links-ok def r ps w d ds u there))
        | inl n ↦ elim (Saved-cases (env.save roles.key (role_row def w) w.db.roles)) [
          | inr (e, v) ↦ ground arith
          | inl (rs, v) ↦
              let new = role_row def w in
              let there : any (λ x. is_seeded def x && x.id == new.id) rs ≡ true = ground (
                arith,
                env.any_save roles.key new w.db.roles rs (λ x. is_seeded def x && x.id == new.id) v,
                ==_refl def.name,
                ==_refl new.id,
              ) in
              let shifted : UnusedLinks (role_after rs w) = (λ k.
                let e : w.drawn + suc k ≡ w.drawn + 1 + k = omega arith in rw e at (u (suc k))) in
              (new, ground (arith, links-ok def new ps (role_after rs w) d ds shifted there))
        ]
      ]

  -- Seeding the role "Auditor", where the ids that the database draws differ from each other and
  -- from those of the links: a run that ends leaves a system role with the name, of no tenant, in the
  -- table, and links it to every permission of the list whose code begins with "expense", whatever
  -- action the code ends in.
  pub auditor-expense :
      (rows : List PermissionEntity) (w : World) (d : Done)
      → Distinct
      → UnusedLinks w
      → (seed_role rows auditor w).0 ≡ ok d
      → (role : RoleEntity) × ((any
              (λ r. is_seeded auditor r && r.id == role.id)
              (seed_role rows auditor w).1.db.roles
            && all
                (λ p.
                  implies
                    (starts_with (lit "expense") p.code)
                    (is_linked role.id p (seed_role rows auditor w).1.db))
                rows)
          ≡ true)
  auditor-expense rows w d ds u h =
      let (role, both) = seed_role-ok rows auditor w d ds u h in
      let linked : PermissionEntity → Bool =
        λ p. is_linked role.id p (seed_role rows auditor w).1.db in
      (role, ground (arith, both, auditor_matching rows linked))
