-- ===== src/Matcher/Tests.antt =====
-- The cases of packages/iam-sdk/src/utils/permission-matcher.util.spec.ts and of the other
-- matcher's, and the theorems at concrete inputs.
use generic_iam.Prelude.{
  Text, lit, ◌≡◌, refl, true, false, List, [], ◌∷◌, has, ◌↔◌, ◌==◌, starts_with,
}
use generic_iam.Matcher.{has_permission, split, any_wildcard, wildcard, extend}
use generic_iam.Matcher.Granted.{Granted, has_permission_iff}

abbrev expense_all : List Text
expense_all = lit "expense.*" ∷ []

subtree : has_permission expense_all (lit "expense.claims.read") ≡ true
unfolding has_permission split any_wildcard has ◌==◌ wildcard extend
subtree = refl

other_resource : has_permission expense_all (lit "payroll.read") ≡ false
unfolding has_permission split any_wildcard has ◌==◌ wildcard extend
other_resource = refl

-- The prefix itself is not below the prefix.
prefix_itself : has_permission expense_all (lit "expense") ≡ false
unfolding has_permission split any_wildcard has ◌==◌ wildcard extend
prefix_itself = refl

has_permission_iff_example :
    (has_permission expense_all (lit "expense.claims") ≡ true)
    ↔ Granted expense_all (lit "expense.claims")
unfolding starts_with
has_permission_iff_example = has_permission_iff expense_all (lit "expense.claims") refl
