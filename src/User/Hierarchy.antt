-- ===== src/User/Hierarchy.antt =====
-- The levels of the recursive query of getHierarchy in src/modules/user/user.service.ts.
use generic_iam.Prelude.{
  ℕ, zero, suc, ◌<◌, Text, ◌≡◌, refl, Bool, true, false, ◌&&◌, ◌||◌, List, [], ◌∷◌, ◌==◌, some,
  same_text, any, any-append, any-select, arith, select, any_mono, ltb, leb, not,
}
use generic_iam.Entities.{UserEntity}
use generic_iam.User.{subordinates_of, next_level, level}

abbrev reports_to : Text → UserEntity → UserEntity → Bool
reports_to tenant s u = same_text u.manager_id (some s.id) && u.tenant_id == tenant

-- A group in which everyone manages someone of the group, as it is with a cycle of managers.
abbrev pub IsClosed : List UserEntity → Text → (UserEntity → Bool) → Type 0
IsClosed table tenant group =
    (s : UserEntity) → group s ≡ true → any (λ u. group u && reports_to tenant s u) table ≡ true

next_level-closed :
    (table : List UserEntity) (tenant : Text) (group : UserEntity → Bool) (ss : List UserEntity)
    → IsClosed table tenant group
    → any group ss ≡ true
    → any group (next_level table tenant ss) ≡ true
unfolding any next_level subordinates_of
next_level-closed table tenant group [] c h = cc
next_level-closed table tenant group (s ∷ ss) c h = ground (
  arith,
  any-append group (select (reports_to tenant s) table) (next_level table tenant ss),
  any-select (reports_to tenant s) group table,
  c s,
  next_level-closed table tenant group ss c,
)

-- If the first level of a user's hierarchy has a member of a group in which everyone manages
-- someone of the group, as in a cycle of managers, then every level has a member of the group: the
-- query never runs out of rows.
pub level-closed :
    (table : List UserEntity) (tenant user : Text) (group : UserEntity → Bool) (n : ℕ)
    → IsClosed table tenant group
    → any group (level table tenant user zero) ≡ true
    → any group (level table tenant user n) ≡ true
unfolding level
level-closed table tenant user group zero c h = h
level-closed table tenant user group (suc n) c h =
    next_level-closed table tenant group (level table tenant user n) c
      (level-closed table tenant user group n c h)

-- The rows of the table pass the test.
abbrev pub AreRows : (UserEntity → Bool) → List UserEntity → Type 0
AreRows row table = any (λ u. not (row u)) table ≡ false

-- Among those who pass the test of a row, everyone stands at a depth below the bound, and deeper than
-- the manager.
abbrev pub IsRanked : (UserEntity → Bool) → Text → (UserEntity → ℕ) → ℕ → Type 0
IsRanked row tenant depth bound =
    (s u : UserEntity)
    → (row s && row u) ≡ true
    → reports_to tenant s u ≡ true
    → (depth s < depth u) × (depth u < bound)

module _ (row : UserEntity → Bool) (table : List UserEntity) (tenant : Text)
    (depth : UserEntity → ℕ) (bound : ℕ) (rows : AreRows row table)
    (ranked : IsRanked row tenant depth bound) where
  -- Not among the rows and depths that the level `n` can have.
  abbrev misplaced : ℕ → UserEntity → Bool
  misplaced n u = not (row u) || (ltb (depth u) n || (ltb 0 n && leb bound (depth u)))

  report_placed :
      (n : ℕ) (s u : UserEntity)
      → misplaced n s ≡ false
      → (misplaced (suc n) u && reports_to tenant s u) ≡ true
      → not (row u) ≡ true
  report_placed n s u h e = ground (arith, ranked s u)

  reports_placed :
      (n : ℕ) (s : UserEntity)
      → misplaced n s ≡ false
      → any (λ u. misplaced (suc n) u && reports_to tenant s u) table ≡ false
  reports_placed n s h = ground (
    arith,
    rows,
    any_mono (λ u. misplaced (suc n) u && reports_to tenant s u) (λ u. not (row u)) table
        (λ u. report_placed n s u h),
  )

  next_level-placed :
      (n : ℕ) (ss : List UserEntity)
      → any (misplaced n) ss ≡ false
      → any (misplaced (suc n)) (next_level table tenant ss) ≡ false
  unfolding any next_level subordinates_of
  next_level-placed n [] h = refl
  next_level-placed n (s ∷ ss) h = ground (
    arith,
    any-append (misplaced (suc n)) (select (reports_to tenant s) table)
        (next_level table tenant ss),
    any-select (reports_to tenant s) (misplaced (suc n)) table,
    reports_placed n s (ground (arith, h)),
    next_level-placed n ss,
  )

  level-placed : (user : Text) (n : ℕ) → any (misplaced n) (level table tenant user n) ≡ false
  unfolding level
  level-placed user zero = ground (
    arith,
    rows,
    any-select (λ u. u.id == user && u.tenant_id == tenant) (misplaced zero) table,
    any_mono (λ u. misplaced zero u && (u.id == user && u.tenant_id == tenant)) (λ u. not (row u))
        table (λ u e. ground arith),
  )
  level-placed user (suc n) = next_level-placed n (level table tenant user n) (level-placed user n)

no_row :
    (p : UserEntity → Bool) (xs : List UserEntity)
    → ((u : UserEntity) → p u ≡ true)
    → any p xs ≡ false
    → xs ≡ []
unfolding any
no_row p [] h e = refl
no_row p (x ∷ xs) h e = ground (arith, h x)

-- If the rows of the table have depths below a bound that grow along every report, so that nobody is
-- above themselves, then no row is left at the level of that bound: the query ends.
pub level-ranked :
    (row : UserEntity → Bool) (table : List UserEntity) (tenant user : Text)
    (depth : UserEntity → ℕ) (bound : ℕ)
    → AreRows row table
    → IsRanked row tenant depth (suc bound)
    → level table tenant user (suc bound) ≡ []
level-ranked row table tenant user depth bound rows ranked =
    no_row (misplaced row table tenant depth (suc bound) rows ranked (suc bound))
      (level table tenant user (suc bound)) (λ u. ground arith)
      (level-placed row table tenant depth (suc bound) rows ranked user (suc bound))
