-- ===== src/Matcher/Granted.antt =====
-- What the two functions of the matcher decide.
use mathlib.Core.List.{foldl}
use generic_iam.Prelude.{
  ℕ, Text, lit, ◌≡◌, refl, ap, ◌≢◌, true, false, not, ◌&&◌, ◌||◌, List, [], ◌∷◌, ◌++◌, has,
  starts_with, arith, append_assoc, Bool-cases, inl, inr, ◌↔◌, sym, ◌∙◌,
}
use generic_iam.Matcher.{
  compute_effective_permissions, split, extend, wildcard, any_wildcard, has_permission, set_add,
}
use generic_iam.Matcher.Laws.{
  has-foldl-set_add, has-foldl-set_delete, join, head_part, tail_parts, split_parts, join-split,
  join-cons_first, split-append, prefix_after, prefix_after-join, any_wildcard_hit,
  any_wildcard_found,
}

-- A code is effective exactly when a role or a grant gives it and no denial names it: a denial
-- wins over both.
pub has-compute_effective_permissions :
    (role_permissions user_grants user_denies : List Text) (code : Text)
    → has (compute_effective_permissions role_permissions user_grants user_denies) code
      ≡ ((has role_permissions code || has user_grants code) && not (has user_denies code))
unfolding compute_effective_permissions
has-compute_effective_permissions rs gs ds code =
    ground (arith, has-foldl-set_delete (foldl set_add rs gs) ds code, has-foldl-set_add rs gs code)

-- How a set of codes can give the permission `required`.
pub data Granted (set : List Text) (required : Text) : Type 0 where
  everything : has set (lit "*.*") ≡ true → Granted set required
  star : has set (lit "*") ≡ true → Granted set required
  exact : has set required ≡ true → Granted set required
  -- the code `prefix.*`, where `required` goes on below the prefix
  below :
      (prefix rest : Text)
      → prefix ≢ []
      → required ≡ prefix ++ lit "." ++ rest
      → has set (prefix ++ lit ".*") ≡ true
      → Granted set required

wildcard_of : (q : Text) → q ≢ [] → wildcard q ≡ q ++ lit ".*"
unfolding wildcard
wildcard_of [] h = absurd (h refl)
wildcard_of (c ∷ q) h = refl

prefix_after_first :
    (c : ℕ) (p : Text) (ps : List Text) → prefix_after (c ∷ p) ps ≡ c ∷ join (p ∷ ps)
prefix_after_first c p [] = refl
prefix_after_first c p (q ∷ qs) = prefix_after-join c p q qs

-- The parts of a prefix build the prefix up again, unless it begins with a dot.
prefix_after-split :
    (q : Text) → starts_with (lit ".") q ≡ false → prefix_after [] (split b'.' q) ≡ q
unfolding split starts_with extend
prefix_after-split [] h = refl
prefix_after-split (c ∷ q) h =
    let p = head_part (split b'.' q) in
    let ps = tail_parts (split b'.' q) in
    ground (arith, split_parts q, prefix_after_first c p ps, join-split q)

join-append :
    (p : Text) (ps : List Text) (q : Text) (qs : List Text)
    → join ((p ∷ ps) ++ q ∷ qs) ≡ join (p ∷ ps) ++ lit "." ++ join (q ∷ qs)
join-append p [] q qs = refl
join-append p (r ∷ ps) q qs = rw (join-append r ps q qs) (simp append_assoc)

starts_with_dot : (q s : Text) → q ≢ [] → starts_with (lit ".") (q ++ s) ≡ starts_with (lit ".") q
unfolding starts_with
starts_with_dot [] s h = absurd (h refl)
starts_with_dot (c ∷ q) s h = refl

-- A wildcard that the loop comes by is `*`, or that of a prefix of the permission.
found-Granted :
    (set : List Text) (required : Text) (ps : List Text) (q : Text) (qs : List Text)
    → required ≡ join (ps ++ q ∷ qs)
    → starts_with (lit ".") required ≡ false
    → has set (wildcard (prefix_after [] ps)) ≡ true
    → Granted set required
unfolding wildcard extend starts_with
found-Granted set required [] q qs e d h = star h
found-Granted set required ([] ∷ []) q qs e d h = star h
found-Granted set required ([] ∷ r ∷ ps) q qs e d h = ground arith
found-Granted set required ((c ∷ p) ∷ ps) q qs e d h =
    below (c ∷ join (p ∷ ps)) (join (q ∷ qs)) (λ x. cc)
      (e
        ∙ join-append (c ∷ p) ps q qs
        ∙ ap (λ t. t ++ lit "." ++ join (q ∷ qs)) (join-cons_first c p ps))
      (rw (prefix_after_first c p ps) at h)

wildcards-Granted :
    (set : List Text) (required : Text)
    → any_wildcard set [] (split b'.' required) ≡ true
    → starts_with (lit ".") required ≡ false
    → Granted set required
wildcards-Granted set required h d =
    let (ps, q, qs, e, hit) = any_wildcard_found set [] (split b'.' required) h in
    found-Granted set required ps q qs (sym (join-split required) ∙ ap join e) d hit

below-any_wildcard :
    (set : List Text) (required prefix rest : Text)
    → starts_with (lit ".") required ≡ false
    → prefix ≢ []
    → required ≡ prefix ++ lit "." ++ rest
    → has set (prefix ++ lit ".*") ≡ true
    → any_wildcard set [] (split b'.' required) ≡ true
below-any_wildcard set required prefix rest d ne e h =
    rw (e, split-append prefix rest, split_parts rest)
      (any_wildcard_hit set [] (split b'.' prefix) (head_part (split b'.' rest))
        (tail_parts (split b'.' rest))
        (rw
          (
            prefix_after-split prefix (
                ground (
                  arith,
                  starts_with_dot prefix (lit "." ++ rest) ne,
                  append_assoc prefix (lit ".") rest,
                )),
            wildcard_of prefix ne,
          )
          h))

-- For a permission that does not begin with a dot, the matcher says yes exactly when the set holds
-- `*.*`, `*`, the permission itself, or `p.*` for a prefix `p` that the permission goes on below.
pub has_permission_iff :
    (set : List Text) (required : Text)
    → starts_with (lit ".") required ≡ false
    → (has_permission set required ≡ true) ↔ Granted set required
unfolding has_permission wildcard
has_permission_iff set required d = (decide, of_granted)
  where
    decide : has_permission set required ≡ true → Granted set required
    decide h = elim (Bool-cases (has set (lit "*.*"))) [
      | inl all ↦ everything all
      | inr no_all ↦ elim (Bool-cases (any_wildcard set [] (split b'.' required))) [
        | inl hit ↦ wildcards-Granted set required hit d
        | inr no_wildcard ↦ exact (ground arith)
      ]
    ]

    of_granted : Granted set required → has_permission set required ≡ true
    of_granted (everything h) = ground arith
    of_granted (star h) = ground (
      arith,
      split_parts required,
      any_wildcard_hit set [] [] (head_part (split b'.' required))
          (tail_parts (split b'.' required)) h,
    )
    of_granted (exact h) = ground arith
    of_granted (below prefix rest ne e h) =
        ground (arith, below-any_wildcard set required prefix rest d ne e h)

any_wildcard_mono :
    (set more : List Text) (current : Text) (parts : List Text)
    → ((code : Text) → has set code ≡ true → has more code ≡ true)
    → any_wildcard set current parts ≡ true
    → any_wildcard more current parts ≡ true
unfolding any_wildcard
any_wildcard_mono set more current [] h e = e
any_wildcard_mono set more current (p ∷ ps) h e =
    ground (arith, h (wildcard current), any_wildcard_mono set more (extend current p) ps h)

-- More codes never take a permission away.
pub has_permission_mono :
    (set more : List Text) (required : Text)
    → ((code : Text) → has set code ≡ true → has more code ≡ true)
    → has_permission set required ≡ true
    → has_permission more required ≡ true
unfolding has_permission
has_permission_mono set more required h e =
    ground (arith, h (lit "*.*"), h required, any_wildcard_mono set more [] (split b'.' required) h)
