-- ===== src/Matcher/Laws.antt =====
-- The parts of the matcher: sets of texts, splitting and joining, and the loop over the parts.
use mathlib.Core.List.{foldl}
use generic_iam.Prelude.{
  ℕ, Text, lit, ◌≡◌, refl, ap, true, not, ◌&&◌, ◌||◌, List, [], ◌∷◌, ◌++◌, ◌==◌, ==_eq, ==_refl,
  has, any, any-append, arith, append_assoc, Bool-cases, inl, inr, sym, select,
}
use generic_iam.Matcher.{set_add, set_delete, split, extend, wildcard, any_wildcard}

pub has-set_add : (s : List Text) (p q : Text) → has (set_add s p) q ≡ (has s q || p == q)
unfolding set_add has any
has-set_add s p q = ground (arith, any-append (λ x. x == q) s (p ∷ []), has_of_eq s p q)
  where
    has_of_eq :
        (s : List Text) (p q : Text) → (p == q) ≡ true → any (λ x. x == q) s ≡ any (λ x. x == p) s
    has_of_eq s p q h = ap (λ t. any (λ x. x == t) s) (sym (==_eq p q h))

pub has-set_delete :
    (s : List Text) (p q : Text) → has (set_delete s p) q ≡ (has s q && not (p == q))
unfolding set_delete has any select
has-set_delete [] p q = refl
has-set_delete (x ∷ s) p q =
    ground (arith, has-set_delete s p q, ==_eq x p, ==_eq x q, ==_eq p q, ==_refl x)

pub has-foldl-set_add :
    (s ps : List Text) (q : Text) → has (foldl set_add s ps) q ≡ (has s q || has ps q)
unfolding has any
has-foldl-set_add s [] q = ground arith
has-foldl-set_add s (p ∷ ps) q =
    ground (arith, has-foldl-set_add (set_add s p) ps q, has-set_add s p q)

pub has-foldl-set_delete :
    (s ps : List Text) (q : Text) → has (foldl set_delete s ps) q ≡ (has s q && not (has ps q))
unfolding has any
has-foldl-set_delete s [] q = ground arith
has-foldl-set_delete s (p ∷ ps) q =
    ground (arith, has-foldl-set_delete (set_delete s p) ps q, has-set_delete s p q)

-- `parts.join('.')`
abbrev pub join : List Text → Text
join [] = []
join (p ∷ []) = p
join (p ∷ q ∷ ps) = p ++ lit "." ++ join (q ∷ ps)

-- The first part of a split, and the others.
abbrev pub head_part : List Text → Text
head_part [] = []
head_part (p ∷ ps) = p

abbrev pub tail_parts : List Text → List Text
tail_parts [] = []
tail_parts (p ∷ ps) = ps

pub split_parts : (s : Text) → split b'.' s ≡ head_part (split b'.' s) ∷ tail_parts (split b'.' s)
unfolding split
split_parts [] = refl
split_parts (x ∷ s) = ground (arith, split_parts s)

pub join-cons_first : (x : ℕ) (p : Text) (ps : List Text) → join ((x ∷ p) ∷ ps) ≡ x ∷ join (p ∷ ps)
join-cons_first x p [] = refl
join-cons_first x p (q ∷ ps) = refl

-- Joining the parts gives the text back.
pub join-split : (s : Text) → join (split b'.' s) ≡ s
unfolding split
join-split [] = refl
join-split (x ∷ s) = ground (
  arith,
  join-split s,
  split_parts s,
  join-cons_first x (head_part (split b'.' s)) (tail_parts (split b'.' s)),
)

-- A text that is cut at a dot splits into the parts of its two sides.
pub split-append : (s t : Text) → split b'.' (s ++ lit "." ++ t) ≡ split b'.' s ++ split b'.' t
unfolding split
split-append [] t = refl
split-append (x ∷ s) t = ground (arith, split-append s t, split_parts s)

-- The prefix that the loop has built after some parts.
abbrev pub prefix_after : Text → List Text → Text
prefix_after current parts = foldl extend current parts

pub prefix_after-join :
    (c : ℕ) (cs p : Text) (ps : List Text)
    → prefix_after (c ∷ cs) (p ∷ ps) ≡ (c ∷ cs) ++ lit "." ++ join (p ∷ ps)
unfolding extend
prefix_after-join c cs p [] = refl
prefix_after-join c cs p (q ∷ ps) =
    rw (prefix_after-join c ((cs ++ lit ".") ++ p) q ps) (simp append_assoc)

-- The loop finds the wildcard of a prefix that it comes by.
pub any_wildcard_hit :
    (set : List Text) (current : Text) (ps : List Text) (q : Text) (qs : List Text)
    → has set (wildcard (prefix_after current ps)) ≡ true
    → any_wildcard set current (ps ++ q ∷ qs) ≡ true
unfolding any_wildcard
any_wildcard_hit set current [] q qs h = ground arith
any_wildcard_hit set current (p ∷ ps) q qs h =
    ground (arith, any_wildcard_hit set (extend current p) ps q qs h)

-- What the loop finds is the wildcard of such a prefix.
pub any_wildcard_found :
    (set : List Text) (current : Text) (parts : List Text)
    → any_wildcard set current parts ≡ true
    → (ps : List Text) × (q : Text) × (qs : List Text) × (parts ≡ ps ++ q ∷ qs)
      × (has set (wildcard (prefix_after current ps)) ≡ true)
unfolding any_wildcard
any_wildcard_found set current [] h = cc
any_wildcard_found set current (p ∷ ps) h = elim (Bool-cases (has set (wildcard current))) [
  | inl hit ↦ ([], p, ps, refl, hit)
  | inr miss ↦
      let r = any_wildcard_found set (extend current p) ps (ground arith) in
      (p ∷ r.0, r.1, r.2, ap (λ l. p ∷ l) r.3, r.4)
]
