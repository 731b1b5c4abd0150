-- ===== src/Matcher/Server.antt =====
-- src/common/utils/permission-matcher.util.ts: the matcher over codes `resource:action`.
-- `computeEffectivePermissions` there is that of the SDK, word for word.
use generic_iam.Prelude.{
  ℕ, Text, lit, ◌≡◌, refl, Bool, true, false, ◌||◌, List, [], ◌∷◌, ◌++◌, eqb, any, has, arith,
  if◌then◌else◌,
}
use generic_iam.Matcher.{split, cons_first}
use generic_iam.Matcher.Laws.{head_part}

-- `const [resource] = required.split(':')`
pub resource_of : Text → Text
resource_of required = head_part (split b':' required)

pub has_permission : List Text → Text → Bool
has_permission effective_permissions required =
    if has effective_permissions required
    then true
    else if has effective_permissions (lit "*:*")
    then true
    else if has effective_permissions (resource_of required ++ lit ":*")
    then true
    else false

-- A character before the separator joins the first part.
head_part_cons : (c : ℕ) (ps : List Text) → head_part (cons_first c ps) ≡ c ∷ head_part ps
head_part_cons c [] = refl
head_part_cons c (p ∷ ps) = refl

resource_of-append :
    (resource action : Text)
    → any (λ c. eqb c b':') resource ≡ false
    → resource_of (resource ++ lit ":" ++ action) ≡ resource
unfolding resource_of split any
resource_of-append [] action h = refl
resource_of-append (c ∷ resource) action h = ground (
  arith,
  resource_of-append resource action,
  head_part_cons c (split b':' (resource ++ lit ":" ++ action)),
)

-- A set gives `resource:action` exactly when it holds that code, `*:*`, or `resource:*`.
pub has_permission_eq :
    (set : List Text) (resource action : Text)
    → any (λ c. eqb c b':') resource ≡ false
    → has_permission set (resource ++ lit ":" ++ action) ≡ (
        has set (resource ++ lit ":" ++ action)
        || has set (lit "*:*")
        || has set (resource ++ lit ":*"))
unfolding has_permission
has_permission_eq set resource action h = ground (arith, resource_of-append resource action h)
