-- ===== src/Loops.antt =====
-- Loops over a list in the services: `for_each` stops at the first exception.
use generic_iam.Prelude.{◌≡◌, refl, Bool, true, List, [], ◌∷◌, all, arith, inl, inr}
use generic_iam.Errors.{ok, Result-cases}
use generic_iam.App.{App, Done, World, for_each}

module _ {A B : Type 0} (view : World → B) (body : A → App Done)
    (keeps : (x : A) (w : World) → view (body x w).1 ≡ view w) where
  -- What every round keeps, the loop keeps, whether it ends or stops.
  pub for_each-keeps : (xs : List A) (w : World) → view (for_each xs body w).1 ≡ view w
  unfolding for_each
  for_each-keeps [] w = refl
  for_each-keeps (x ∷ xs) w = elim (Result-cases (body x w).0) [
    | inl (d, e) ↦ ground (arith, for_each-keeps xs (body x w).1, keeps x w)
    | inr (x', e) ↦ ground (arith, keeps x w)
  ]

  -- A loop that ends has passed every test that each round makes on the view.
  pub for_each-all :
      (test : A → B → Bool)
      → ((x : A) (w : World) (d : Done) → (body x w).0 ≡ ok d → test x (view w) ≡ true)
      → (xs : List A) (w : World) (d : Done) → (for_each xs body w).0 ≡ ok d
      → all (λ x. test x (view w)) xs ≡ true
  unfolding for_each all
  for_each-all test passes [] w d h = refl
  for_each-all test passes (x ∷ xs) w d h = elim (Result-cases (body x w).0) [
    | inl (d', e) ↦
        ground (arith, for_each-all test passes xs (body x w).1 d, passes x w d', keeps x w)
    | inr (x', e) ↦ ground arith
  ]

module _ {A : Type 0} (body : A → App Done) where
  -- What holds before a loop holds after it, if each round preserves it, ending or not.
  pub for_each-preserves :
      (inv : World → Bool)
      → ((x : A) (w : World) → inv w ≡ true → inv (body x w).1 ≡ true)
      → (xs : List A) (w : World) → inv w ≡ true
      → inv (for_each xs body w).1 ≡ true
  unfolding for_each
  for_each-preserves inv step [] w h = h
  for_each-preserves inv step (x ∷ xs) w h = elim (Result-cases (body x w).0) [
    | inl (d, e) ↦ ground (arith, for_each-preserves inv step xs (body x w).1, step x w h)
    | inr (x', e) ↦ ground (arith, step x w h)
  ]

-- A loop each of whose rounds, if it ends, makes the test of its item true and unmakes no test.
module _ {A : Type 0} (body : A → App Done) (there : A → World → Bool) (Inv : World → Type 0) where
  pub record Reaches (x : A) (w w' : World) : Type 0 where
    pub inv : Inv w'
    pub made : there x w' ≡ true
    pub kept : (y : A) → there y w ≡ true → there y w' ≡ true

  pub for_each-Reaches :
      ((x : A) (w : World) (d : Done) → Inv w → (body x w).0 ≡ ok d → Reaches x w (body x w).1)
      → (xs : List A) (w : World) (d : Done) → Inv w
      → (for_each xs body w).0 ≡ ok d
      → (all (λ x. there x (for_each xs body w).1) xs ≡ true)
        × ((y : A) → there y w ≡ true → there y (for_each xs body w).1 ≡ true)
  unfolding for_each all
  for_each-Reaches step [] w d i h = (refl, λ y k. k)
  for_each-Reaches step (x ∷ xs) w d i h = elim (Result-cases (body x w).0) [
    | inr (e, f) ↦ ground arith
    | inl (d', f) ↦
        let k = step x w d' i f in
        let (later, kept) = for_each-Reaches step xs (body x w).1 d k.inv (ground arith) in
        (ground (arith, later, kept x, k.made), λ y t. ground (arith, kept y, k.kept y))
  ]

  -- A loop none of whose rounds has anything to do changes nothing.
  pub for_each-idle :
      ((x : A) (w : World) → there x w ≡ true → body x w ≡ (ok tt, w))
      → (xs : List A) (w : World) → all (λ x. there x w) xs ≡ true
      → for_each xs body w ≡ (ok tt, w)
  unfolding for_each all
  for_each-idle idle [] w h = refl
  for_each-idle idle (x ∷ xs) w h = ground (arith, idle x w, for_each-idle idle xs w)
