-- ===== src/Prelude/Texts.antt =====
-- Texts as lists of character codes: the program builds keys, and splits permissions, by
-- characters. A literal is written `lit "..."`; all the literals of the program are ASCII.
use Prim.Native.Nat.{ℕ}
use Prim.Native.Char.{code}
use Prim.Native.String.{String}
use mathlib.Core.Path.{◌≡◌, refl}
use mathlib.Core.Logic.{◌↔◌}
use mathlib.Core.Bool.{Bool, true, false, ◌&&◌}
use mathlib.Core.Option.{Option, none, some}
use mathlib.Core.List.{List, [], ◌∷◌, ◌++◌}
use native.Mathlib.Omega.{arith}
use generic_iam.Prelude.Tests.{eqb}

abbrev pub Text : Type 0
Text = List ℕ

abbrev pub lit : String → Text
lit String.[] = []
lit (String.◌∷◌ c s) = code c ∷ lit s

infix 50 ◌==◌
unfoldable pub ◌==◌ : Text → Text → Bool
[] == [] = true
[] == (y ∷ ys) = false
(x ∷ xs) == [] = false
(x ∷ xs) == (y ∷ ys) = eqb x y && (xs == ys)

pub ==_refl : (s : Text) → (s == s) ≡ true
unfolding ◌==◌
==_refl [] = refl
==_refl (x ∷ xs) = ground (arith, ==_refl xs)

pub ==_eq : (s t : Text) → (s == t) ≡ true → s ≡ t
unfolding ◌==◌
==_eq [] [] h = refl
==_eq [] (y ∷ ys) h = cc
==_eq (x ∷ xs) [] h = cc
==_eq (x ∷ xs) (y ∷ ys) h = ground (arith, ==_eq xs ys)

pub ==_iff : (s t : Text) → ((s == t) ≡ true) ↔ (s ≡ t)
==_iff s t = (==_eq s t, λ p. ==_of_eq s t p)
  where
    ==_of_eq : (s t : Text) → s ≡ t → (s == t) ≡ true
    ==_of_eq s t p = cc (p, ==_refl s)

-- Is the text empty? An empty text is falsy in the source.
abbrev pub is_empty : Text → Bool
is_empty [] = true
is_empty (x ∷ xs) = false

-- `x || fallback` on a text, and on a text that may be missing.
abbrev pub or_text : Text → Text → Text
or_text [] d = d
or_text (x ∷ xs) d = x ∷ xs

abbrev pub truthy : Option Text → Bool
truthy none = false
truthy (some []) = false
truthy (some (x ∷ xs)) = true

abbrev pub text_or : Option Text → Text → Text
text_or none d = d
text_or (some []) d = d
text_or (some (x ∷ xs)) d = x ∷ xs

-- Equality of texts that may be missing.
abbrev pub same_text : Option Text → Option Text → Bool
same_text none none = true
same_text none (some b) = false
same_text (some a) none = false
same_text (some a) (some b) = a == b

unfoldable pub starts_with : Text → Text → Bool
starts_with [] s = true
starts_with (x ∷ xs) [] = false
starts_with (x ∷ xs) (y ∷ ys) = eqb x y && starts_with xs ys

pub starts_with-append : (p s : Text) → starts_with p (p ++ s) ≡ true
unfolding starts_with
starts_with-append [] s = refl
starts_with-append (x ∷ xs) s = ground (arith, starts_with-append xs s)

pub starts_with_parts : (p s : Text) → starts_with p s ≡ true → (r : Text) × (s ≡ p ++ r)
unfolding starts_with
starts_with_parts [] s h = (s, refl)
starts_with_parts (x ∷ xs) [] h = cc
starts_with_parts (x ∷ xs) (y ∷ ys) h =
    let (r, e) = starts_with_parts xs ys (ground arith) in (r, ground arith)
