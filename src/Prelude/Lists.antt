-- ===== src/Prelude/Lists.antt =====
-- Lists measured by native numbers, and Boolean searches through lists.
use Prim.Native.Nat.{ℕ, zero, suc}
use mathlib.Core.Path.{◌≡◌, refl}
use mathlib.Core.Logic.{inl, inr}
use mathlib.Core.Bool.{Bool, true, false, not, ◌&&◌, ◌||◌}
use mathlib.Core.Option.{Option, none, some}
use mathlib.Core.List.{List, [], ◌∷◌, ◌++◌, map}
use native.Mathlib.Omega.{arith}
use generic_iam.Prelude.Tests.{if◌then◌else◌, Bool-cases}
use generic_iam.Prelude.Texts.{Text, ◌==◌}

module _ {ℓ} {A : Type ℓ} where
  abbrev pub length : List A → ℕ
  length [] = 0
  length (x ∷ xs) = suc (length xs)

  abbrev pub take : ℕ → List A → List A
  take zero xs = []
  take (suc n) [] = []
  take (suc n) (x ∷ xs) = x ∷ take n xs

  abbrev pub drop : ℕ → List A → List A
  drop zero xs = xs
  drop (suc n) [] = []
  drop (suc n) (x ∷ xs) = drop n xs

  -- Does some member pass the test?
  unfoldable pub any : (A → Bool) → List A → Bool
  any p [] = false
  any p (x ∷ xs) = p x || any p xs

  -- Do all the members pass the test?
  unfoldable pub all : (A → Bool) → List A → Bool
  all p [] = true
  all p (x ∷ xs) = p x && all p xs

  -- The members that pass the test (the library's `filter` takes a decision).
  unfoldable pub select : (A → Bool) → List A → List A
  select p [] = []
  select p (x ∷ xs) = let rest = select p xs in if p x then x ∷ rest else rest

  -- The first member that passes the test.
  unfoldable pub first : (A → Bool) → List A → Option A
  first p [] = none
  first p (x ∷ xs) = if p x then some x else first p xs

  pub all-append : (f : A → Bool) (xs ys : List A) → all f (xs ++ ys) ≡ (all f xs && all f ys)
  unfolding all
  all-append f [] ys = refl
  all-append f (x ∷ xs) ys = ground (arith, all-append f xs ys)

  pub any-append : (p : A → Bool) (xs ys : List A) → any p (xs ++ ys) ≡ (any p xs || any p ys)
  unfolding any
  any-append p [] ys = refl
  any-append p (x ∷ xs) ys = ground (arith, any-append p xs ys)

  pub any-select : (p q : A → Bool) (xs : List A) → any q (select p xs) ≡ any (λ x. q x && p x) xs
  unfolding any select
  any-select p q [] = refl
  any-select p q (x ∷ xs) = ground (arith, any-select p q xs)

  pub any_mono :
      (p q : A → Bool) (xs : List A)
      → ((x : A) → p x ≡ true → q x ≡ true)
      → any p xs ≡ true
      → any q xs ≡ true
  unfolding any
  any_mono p q [] h e = e
  any_mono p q (x ∷ xs) h e = ground (arith, h x, any_mono p q xs h)

  pub first-some :
      (p q : A → Bool) (xs : List A) (r : A)
      → first p xs ≡ some r
      → q r ≡ true
      → (p r ≡ true) × (any q xs ≡ true)
  unfolding any first
  first-some p q [] r h k = cc
  first-some p q (x ∷ xs) r h k = ground (arith, first-some p q xs r)

  pub first-none : (p : A → Bool) (xs : List A) → first p xs ≡ none → any p xs ≡ false
  unfolding any first
  first-none p [] h = refl
  first-none p (x ∷ xs) h = ground (arith, first-none p xs)

-- `set.has(t)`
unfoldable pub has : List Text → Text → Bool
unfolding any
has s t = any (λ x. x == t) s

module _ {ℓ} {A : Type ℓ} where
  pub any_ext : (p q : A → Bool) (xs : List A) → ((x : A) → p x ≡ q x) → any p xs ≡ any q xs
  unfolding any
  any_ext p q [] h = refl
  any_ext p q (x ∷ xs) h = ground (arith, h x, any_ext p q xs h)

  pub any_never : (p : A → Bool) (xs : List A) → ((x : A) → p x ≡ false) → any p xs ≡ false
  unfolding any
  any_never p [] h = refl
  any_never p (x ∷ xs) h = ground (arith, h x, any_never p xs h)

  pub any-map :
      {B : Type 0} (f : A → B) (p : B → Bool) (xs : List A)
      → any p (map f xs) ≡ any (λ x. p (f x)) xs
  unfolding any
  any-map f p [] = refl
  any-map f p (x ∷ xs) = ground (arith, any-map f p xs)

  -- A member that passes one test, where none passes the other.
  pub any-witness :
      (p q : A → Bool) (xs : List A)
      → any p xs ≡ true
      → any q xs ≡ false
      → (x : A) × (p x ≡ true) × (q x ≡ false)
  unfolding any
  any-witness p q [] h k = cc
  any-witness p q (x ∷ xs) h k = elim (Bool-cases (p x)) [
    | inl passes ↦ (x, passes, ground arith)
    | inr fails ↦ any-witness p q xs (ground arith) (ground arith)
  ]

  pub length-map : {B : Type 0} (f : A → B) (xs : List A) → length (map f xs) ≡ length xs
  length-map f [] = refl
  length-map f (x ∷ xs) = ground (arith, length-map f xs)

  -- Leaving out what no member is loses no member.
  pub any_without :
      (p q : A → Bool) (xs : List A) → any q xs ≡ false → any (λ x. p x && not (q x)) xs ≡ any p xs
  unfolding any
  any_without p q [] h = refl
  any_without p q (x ∷ xs) h = ground (arith, any_without p q xs)
