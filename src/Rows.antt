-- ===== src/Rows.antt =====
-- What follows from the documented facts about the repositories, for the rows of any table.
use generic_iam.Prelude.{
  ◌≡◌, Bool, true, false, ◌&&◌, not, List, any, any_never, any_ext, arith, some, ◌∙◌,
}
use generic_iam.Env.{Env}

module _ ⦃env : Env⦄ {A : Type 0} where
  pub any_delete-inside :
      (p q : A → Bool) (rows : List A)
      → ((r : A) → q r ≡ true → p r ≡ true)
      → any q (env.delete p rows) ≡ false
  any_delete-inside p q rows h =
      env.any_delete p q rows ∙ any_never (λ r. q r && not (p r)) rows (λ r. ground (arith, h r))

  pub any_delete-outside :
      (p q : A → Bool) (rows : List A)
      → ((r : A) → q r ≡ true → p r ≡ false)
      → any q (env.delete p rows) ≡ any q rows
  any_delete-outside p q rows h =
      env.any_delete p q rows ∙ any_ext (λ r. q r && not (p r)) q rows (λ r. ground (arith, h r))

  -- The row that a query finds passes its test.
  pub found_passes :
      (p : A → Bool) (rows : List A) (r : A) → env.find_one p rows ≡ some r → p r ≡ true
  found_passes p rows r h = ground (arith, env.find_one_some p (λ x. true) rows r)

  -- The row that a query finds is in the table.
  pub found_there :
      (p q : A → Bool) (rows : List A) (r : A)
      → env.find_one p rows ≡ some r
      → q r ≡ true
      → any q rows ≡ true
  found_there p q rows r h e = ground (arith, env.find_one_some p q rows r)
