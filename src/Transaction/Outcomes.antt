-- ===== src/Transaction/Outcomes.antt =====
-- How a transaction ends: the calls that the runner sees on each path of
-- src/common/utils/transaction.util.ts and of the interceptor.
use generic_iam.Prelude.{
  Text, lit, ◌≡◌, refl, true, false, none, some, List, [], ◌∷◌, ◌++◌, starts_with, is_empty, arith,
  Option-cases, ◌⊎◌, inl, inr,
}
use generic_iam.Errors.{Exception, ok, err, Result-cases}
use generic_iam.Env.{JwtPayload}
use generic_iam.Transaction.{
  Call, connect, start, commit, rollback, release, set_role_tenant, reset_role, set_tenant, Runner,
  Run, run_in_transaction, intercept, is_super_admin,
}

module _ {A : Type 0} (runner : Runner) where
  -- A transaction that is already open is joined: the runner sees the calls of the operation only,
  -- and the operation's result is the result.
  pub run_in_transaction-joined :
      (operation : Run A) (t : List Call) → run_in_transaction runner true operation t ≡ operation t
  unfolding run_in_transaction
  run_in_transaction-joined operation t = refl

  -- If no call fails and the operation returns, its calls stand between connecting and starting,
  -- and committing and releasing.
  pub run_in_transaction-commit :
      (operation : Run A) (t done : List Call) (a : A)
      → ((s : List Call) (c : Call) → runner.fails s c ≡ none)
      → operation ((t ++ connect ∷ []) ++ start ∷ []) ≡ (ok a, done)
      → run_in_transaction runner false operation t ≡ (ok a, (done ++ commit ∷ []) ++ release ∷ [])
  unfolding run_in_transaction
  run_in_transaction-commit operation t done a n h = ground (
    arith,
    n t connect,
    n (t ++ connect ∷ []) start,
    n done commit,
    n (done ++ commit ∷ []) release,
  )

  -- If no call fails but the operation does, the work is rolled back, the runner released and the
  -- error passed on; nothing is committed.
  pub run_in_transaction-rollback :
      (operation : Run A) (t done : List Call) (e : Exception)
      → ((s : List Call) (c : Call) → runner.fails s c ≡ none)
      → operation ((t ++ connect ∷ []) ++ start ∷ []) ≡ (err e, done)
      → run_in_transaction runner false operation t
        ≡ (err e, (done ++ rollback ∷ []) ++ release ∷ [])
  unfolding run_in_transaction
  run_in_transaction-rollback operation t done e n h = ground (
    arith,
    n t connect,
    n (t ++ connect ∷ []) start,
    n done rollback,
    n (done ++ rollback ∷ []) release,
  )

  -- If the operation returns and the commit fails, and no other call does, the work is rolled
  -- back, the runner released and the error of the commit passed on.
  pub run_in_transaction-commit_fails :
      (operation : Run A) (t done : List Call) (a : A) (e : Exception)
      → runner.fails t connect ≡ none
      → runner.fails (t ++ connect ∷ []) start ≡ none
      → operation ((t ++ connect ∷ []) ++ start ∷ []) ≡ (ok a, done)
      → runner.fails done commit ≡ some e
      → runner.fails (done ++ commit ∷ []) rollback ≡ none
      → runner.fails ((done ++ commit ∷ []) ++ rollback ∷ []) release ≡ none
      → run_in_transaction runner false operation t
        ≡ (err e, ((done ++ commit ∷ []) ++ rollback ∷ []) ++ release ∷ [])
  unfolding run_in_transaction
  run_in_transaction-commit_fails operation t done a e c s h m r l = ground arith

  -- Where no transaction is joined, and connecting and starting succeed: whichever calls fail after
  -- that, the release is the last call; and before it either the operation returned and its commit
  -- succeeded, or the whole fails and a rollback was called.
  pub run_in_transaction-ends :
      (operation : Run A) (t : List Call)
      → runner.fails t connect ≡ none
      → runner.fails (t ++ connect ∷ []) start ≡ none
      → ((a : A) × (done : List Call) × (operation ((t ++ connect ∷ []) ++ start ∷ [])
            ≡ (ok a, done))
          × (runner.fails done commit ≡ none)
          × ((run_in_transaction runner false operation t).1
              ≡ (done ++ commit ∷ []) ++ release ∷ []))
        ⊎ ((e : Exception) × (s : List Call) × (run_in_transaction runner false operation t
              ≡ (err e, (s ++ rollback ∷ []) ++ release ∷ [])))
  unfolding run_in_transaction
  run_in_transaction-ends operation t c s =
      let before = (t ++ connect ∷ []) ++ start ∷ [] in
      let done = (operation before).1 in
      elim (Result-cases (operation before).0) [
        | inl (a, o) ↦ elim (Option-cases (runner.fails done commit)) [
          | inl n ↦ inl (a, done, ground arith, n, ground arith)
          | inr (e, m) ↦ elim (Result-cases (run_in_transaction runner false operation t).0) [
            | inl (b, q) ↦ ground arith
            | inr (x, q) ↦ inr (x, done ++ commit ∷ [], ground arith)
          ]
        ]
        | inr (e, o) ↦ elim (Result-cases (run_in_transaction runner false operation t).0) [
          | inl (b, q) ↦ ground arith
          | inr (x, q) ↦ inr (x, done, ground arith)
        ]
      ]

  -- A request of a user of a tenant, outside of the health checks, runs with the tenant's database
  -- role and the tenant's id set, in one transaction that is committed if the handler returns;
  -- then the role is reset and the runner is given back. No call fails, and the handler leaves the
  -- transaction open and the runner held.
  pub intercept-tenant :
      (url tenant : Text) (user : JwtPayload) (next : Run A) (t done : List Call) (a : A)
      → ((s : List Call) (c : Call) → runner.fails s c ≡ none)
      → runner.is_active done ≡ true
      → runner.is_released (done ++ commit ∷ []) ≡ false
      → starts_with (lit "/health") url ≡ false
      → is_super_admin runner (some user) ≡ false
      → user.tenant_id ≡ some tenant
      → is_empty tenant ≡ false
      → next
          ((((t ++ connect ∷ []) ++ start ∷ []) ++ set_role_tenant ∷ []) ++ set_tenant tenant ∷ [])
        ≡ (ok a, done)
      → intercept runner url (some user) next t
        ≡ (ok a, ((done ++ commit ∷ []) ++ reset_role ∷ []) ++ release ∷ [])
  unfolding intercept
  intercept-tenant url [] user next t done a n o r p q v i h = cc
  intercept-tenant url (c ∷ cs) user next t done a n o r p q v i h = ground (
    arith,
    n t connect,
    n (t ++ connect ∷ []) start,
    n ((t ++ connect ∷ []) ++ start ∷ []) set_role_tenant,
    n (((t ++ connect ∷ []) ++ start ∷ []) ++ set_role_tenant ∷ []) (set_tenant (c ∷ cs)),
    n done commit,
    n (done ++ commit ∷ []) reset_role,
    n ((done ++ commit ∷ []) ++ reset_role ∷ []) release,
  )

  -- If the handler of a request of a user of a tenant fails, outside of the health checks, its
  -- work is rolled back, the role reset, the runner given back and the error passed on. No call
  -- fails, and the handler leaves the transaction open and the runner held.
  pub intercept-tenant_fails :
      (url tenant : Text) (user : JwtPayload) (next : Run A) (t done : List Call) (e : Exception)
      → ((s : List Call) (c : Call) → runner.fails s c ≡ none)
      → runner.is_active done ≡ true
      → runner.is_released (done ++ rollback ∷ []) ≡ false
      → starts_with (lit "/health") url ≡ false
      → is_super_admin runner (some user) ≡ false
      → user.tenant_id ≡ some tenant
      → is_empty tenant ≡ false
      → next
          ((((t ++ connect ∷ []) ++ start ∷ []) ++ set_role_tenant ∷ []) ++ set_tenant tenant ∷ [])
        ≡ (err e, done)
      → intercept runner url (some user) next t
        ≡ (err e, ((done ++ rollback ∷ []) ++ reset_role ∷ []) ++ release ∷ [])
  unfolding intercept
  intercept-tenant_fails url [] user next t done e n o r p q v i h = cc
  intercept-tenant_fails url (c ∷ cs) user next t done e n o r p q v i h = ground (
    arith,
    n t connect,
    n (t ++ connect ∷ []) start,
    n ((t ++ connect ∷ []) ++ start ∷ []) set_role_tenant,
    n (((t ++ connect ∷ []) ++ start ∷ []) ++ set_role_tenant ∷ []) (set_tenant (c ∷ cs)),
    n done rollback,
    n (done ++ rollback ∷ []) reset_role,
    n ((done ++ rollback ∷ []) ++ reset_role ∷ []) release,
  )
