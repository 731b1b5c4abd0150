-- ===== src/Matcher.antt =====
-- packages/iam-sdk/src/utils/permission-matcher.util.ts: which permissions a set of permission
-- codes gives. `Server` is the other matcher, of src/common/utils.
pub mod Laws
pub mod Granted
pub mod Server
pub mod Tests
use mathlib.Core.List.{foldl}
use generic_iam.Prelude.{
  ℕ, Text, lit, Bool, true, false, not, ◌||◌, List, [], ◌∷◌, ◌++◌, ◌==◌, eqb, if◌then◌else◌, has,
  select,
}

-- `set.add(p)` and `set.delete(p)`
unfoldable pub set_add : List Text → Text → List Text
set_add s p = if has s p then s else s ++ p ∷ []

unfoldable pub set_delete : List Text → Text → List Text
set_delete s p = select (λ x. not (x == p)) s

unfoldable pub compute_effective_permissions : List Text → List Text → List Text → List Text
compute_effective_permissions role_permissions user_grants user_denies =
    foldl set_delete (foldl set_add role_permissions user_grants) user_denies

-- A character in front of the first part.
abbrev cons_first : ℕ → List Text → List Text
cons_first x [] = (x ∷ []) ∷ []
cons_first x (p ∷ ps) = (x ∷ p) ∷ ps

-- `text.split(c)`
unfoldable pub split : ℕ → Text → List Text
split c [] = [] ∷ []
split c (x ∷ xs) = let rest = split c xs in if eqb x c then [] ∷ rest else cons_first x rest

-- `current ? `${current}.*` : '*'`
unfoldable pub wildcard : Text → Text
wildcard [] = lit "*"
wildcard (c ∷ cs) = (c ∷ cs) ++ lit ".*"

-- `current ? `${current}.${part}` : part`
unfoldable pub extend : Text → Text → Text
extend [] part = part
extend (c ∷ cs) part = (c ∷ cs) ++ lit "." ++ part

-- The loop over the parts.
unfoldable pub any_wildcard : List Text → Text → List Text → Bool
any_wildcard set current [] = false
any_wildcard set current (part ∷ parts) =
    has set (wildcard current) || any_wildcard set (extend current part) parts

unfoldable pub has_permission : List Text → Text → Bool
has_permission set required =
    if has set (lit "*.*")
    then true
    else if any_wildcard set [] (split b'.' required)
    then true
    else has set required
