-- ===== src/Seed/Laws.antt =====
-- What the seeding of src/database/seeds/system-permissions.seed.ts and super-admin.seed.ts leaves in
-- the tables, and what a second run does.
use generic_iam.Prelude.{
  implies, implies_lem, ℕ, suc, ◌+◌, Text, lit, ◌≡◌, ap, ◌∙◌, Bool, true, false, ◌||◌, none, some,
  List, ◌++◌, ◌==◌, ==_refl, any, all, any_without, arith, Option-cases, inl, inr,
}
use generic_iam.Entities.{Db, PermissionEntity}
use generic_iam.Errors.{ok}
use generic_iam.Env.{Env, Saved-cases, saved}
use generic_iam.Rows.{found_there, found_passes}
use generic_iam.Loops.{Reaches, for_each-Reaches, for_each-idle}
use generic_iam.App.{World, Done, permissions}
use generic_iam.Seed.{seed_permission, seed_permissions, service_of}

abbrev pub has_code : Text → Db → Bool
has_code code db = any (λ p. p.code == code) db.permissions

module _ ⦃env : Env⦄ where
  -- The ids that the database will draw differ from each other.
  abbrev pub Distinct : Type 0
  Distinct = (m n : ℕ) → (env.uuid m == env.uuid (m + suc n)) ≡ false

  -- No row of the table has an id that will be drawn.
  abbrev pub Unused : World → Type 0
  Unused w = (n : ℕ) → any (λ p. p.id == env.uuid (w.drawn + n)) w.db.permissions ≡ false

  abbrev row : Text → World → PermissionEntity
  row code w = record {
    base = record { id = env.uuid w.drawn; created_at = w.now };
    code = code;
    service = service_of code;
    parent_id = none;
    description = some (lit "Allow access for " ++ code);
  }

  abbrev there : Text → World → Bool
  there code w = has_code code w.db

  abbrev after : List PermissionEntity → World → World
  after rows w = record w { db = record w.db { permissions = rows }; drawn = w.drawn + 1 }

  Unused-shifted :
      (w : World)
      → Unused w
      → (n : ℕ) → any (λ p. p.id == env.uuid (w.drawn + 1 + n)) w.db.permissions ≡ false
  Unused-shifted w u n =
      let e : w.drawn + suc n ≡ w.drawn + 1 + n = omega arith in rw e at (u (suc n))

  other_id :
      (w : World) → Distinct → (n : ℕ) → (env.uuid w.drawn == env.uuid (w.drawn + 1 + n)) ≡ false
  other_id w d n = let e : w.drawn + suc n ≡ w.drawn + 1 + n = omega arith in rw e at (d w.drawn n)

  inserted :
      (code : Text) (w : World) (rows : List PermissionEntity)
      → Distinct
      → Unused w
      → env.save permissions.key (row code w) w.db.permissions ≡ saved rows
      → Reaches seed_permission there Unused code w (after rows w)
  inserted code w rows d u s =
      let fresh : any (λ p. p.id == env.uuid w.drawn) w.db.permissions ≡ false =
        (let e : w.drawn + 0 ≡ w.drawn = omega arith in rw e at (u 0)) in
      let reads = (λ (q : PermissionEntity → Bool).
        env.any_save permissions.key (row code w) w.db.permissions rows q s
        ∙ ap (λ b. q (row code w) || b)
            (any_without q (λ p. p.id == env.uuid w.drawn) w.db.permissions fresh)) in
      record {
        inv = λ n.
            reads (λ p. p.id == env.uuid (w.drawn + 1 + n))
            ∙ ground (arith, other_id w d n, Unused-shifted w u n);
        made = reads (λ p. p.code == code) ∙ ground (arith, ==_refl code);
        kept = λ c k. reads (λ p. p.code == c) ∙ ground arith;
      }

  seed_permission-ok :
      (code : Text) (w : World) (d : Done)
      → Distinct
      → Unused w
      → (seed_permission code w).0 ≡ ok d
      → Reaches seed_permission there Unused code w (seed_permission code w).1
  unfolding seed_permission
  seed_permission-ok code w d ds u h =
      elim (Option-cases (env.find_one (λ p. p.code == code) w.db.permissions)) [
        | inr (p, f) ↦
            let stays : (seed_permission code w).1 ≡ w = ground arith in
            rw stays (record {
              inv = u;
              made =
                  found_there (λ p. p.code == code) (λ p. p.code == code) w.db.permissions p f
                    (found_passes (λ p. p.code == code) w.db.permissions p f);
              kept = λ c k. k;
            })
        | inl n ↦ elim (Saved-cases (env.save permissions.key (row code w) w.db.permissions)) [
          | inr (e, v) ↦ ground arith
          | inl (rows, v) ↦
              let moves : (seed_permission code w).1 ≡ after rows w = ground arith in
              rw moves (inserted code w rows ds u v)
        ]
      ]

  seed_permission-again :
      (code : Text) (w : World) → has_code code w.db ≡ true → seed_permission code w ≡ (ok tt, w)
  unfolding seed_permission
  seed_permission-again code w h =
      elim (Option-cases (env.find_one (λ p. p.code == code) w.db.permissions)) [
        | inl n ↦ ground (arith, env.find_one_none (λ p. p.code == code) w.db.permissions n)
        | inr (p, f) ↦ ground arith
      ]

  -- Seeding the permissions, where the ids that the database draws differ from each other and from
  -- those in the table: a run that ends leaves each code of the list in the table and loses none that
  -- was there, and a second run ends too and changes nothing.
  pub seed_permissions-twice :
      (codes : List Text) (w : World) (d : Done) (code : Text)
      → Distinct
      → Unused w
      → (seed_permissions codes w).0 ≡ ok d
      → (all (λ c. has_code c (seed_permissions codes w).1.db) codes ≡ true)
        × (implies (has_code code w.db) (has_code code (seed_permissions codes w).1.db) ≡ true)
        × (seed_permissions codes (seed_permissions codes w).1
            ≡ (ok tt, (seed_permissions codes w).1))
  unfolding seed_permissions
  seed_permissions-twice codes w d code ds u h =
      let (made, kept) =
        for_each-Reaches seed_permission there Unused (λ c v d' i. seed_permission-ok c v d' ds i)
          codes w d u h in
      (
        made,
        implies_lem (has_code code w.db) (has_code code (seed_permissions codes w).1.db)
            (kept code),
        for_each-idle seed_permission there Unused seed_permission-again codes
            (seed_permissions codes w).1 made,
      )
