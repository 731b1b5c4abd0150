-- ===== src/Tests/Plumbing.antt =====
-- The theorems on transactions, the audit log, the envelopes and the cache's keys at concrete inputs.
use generic_iam.Prelude.{
  ℕ, Text, lit, ◌≡◌, refl, Bool, true, false, Option, none, some, List, [], ◌∷◌, ◌++◌, ◌==◌, length,
  starts_with, ◌⊎◌,
}
use generic_iam.Errors.{Exception, Result, ok, err, plain, conflict}
use generic_iam.Env.{JwtPayload}
use generic_iam.Json.{end}
use generic_iam.Transaction.{
  Call, connect, start, commit, rollback, release, set_role_tenant, set_tenant, reset_role, work,
  Runner, Run, Done, run_in_transaction, intercept,
}
use generic_iam.Transaction.Outcomes.{
  run_in_transaction-rollback, run_in_transaction-ends, intercept-tenant, intercept-tenant_fails,
}
use generic_iam.Audit.{AuditEventPayload, AuditLogEntity, AuditLog, entities, deliver}
use generic_iam.Audit.Laws.{concatenated, deliver_lem}

abbrev problem : Exception
problem = conflict (plain "Problem")

abbrev healthy : Runner
healthy = record { fails = λ t c. none; is_active = λ t. true; is_released = λ t. false }

abbrev at_commit : Call → Option Exception
at_commit commit = some problem
at_commit c = none

abbrev no_commit : Runner
no_commit = record healthy { fails = λ t c. at_commit c }

abbrev succeeding : Run Done
succeeding t = (ok tt, t ++ work ∷ [])

abbrev failing : Run Done
failing t = (err problem, t ++ work ∷ [])

abbrev someone : JwtPayload
someone = record {
  sub = lit "u";
  email = none;
  tenant_id = some (lit "t");
  identity_type = lit "USER";
  impersonator_id = none;
}

abbrev number : ℕ → Text
number n = n ∷ []

abbrev never : List AuditLogEntity → Bool
never rows = false

abbrev always : List AuditLogEntity → Bool
always rows = true

abbrev event : AuditEventPayload
event = record {
  event_type = lit "LOGIN";
  tenant_id = none;
  actor_id = none;
  user_id = none;
  resource_type = none;
  resource_id = none;
  correlation_id = none;
  payload = end;
  changes = none;
}

abbrev two_batches : List (List AuditEventPayload)
two_batches = (event ∷ event ∷ []) ∷ [] ∷ (event ∷ []) ∷ []

abbrev empty_log : AuditLog
empty_log = record { rows = []; lost = 0 }

abbrev refused : Result Text
refused = err problem

run_in_transaction-rollback_example :
    run_in_transaction healthy false failing []
    ≡ (err problem, ((connect ∷ start ∷ work ∷ []) ++ rollback ∷ []) ++ release ∷ [])
run_in_transaction-rollback_example =
    run_in_transaction-rollback healthy failing [] (connect ∷ start ∷ work ∷ []) problem
      (λ s c. refl) refl

run_in_transaction-ends_example :
    ((a : Done) × (done : List Call) × (succeeding (([] ++ connect ∷ []) ++ start ∷ [])
        ≡ (ok a, done))
      × (no_commit.fails done commit ≡ none)
      × ((run_in_transaction no_commit false succeeding []).1
          ≡ (done ++ commit ∷ []) ++ release ∷ []))
    ⊎ ((e : Exception) × (s : List Call) × (run_in_transaction no_commit false succeeding []
          ≡ (err e, (s ++ rollback ∷ []) ++ release ∷ [])))
run_in_transaction-ends_example = run_in_transaction-ends no_commit succeeding [] refl refl

intercept-tenant_example : intercept healthy (lit "/users") (some someone) succeeding [] ≡ (
  ok tt,
  (((connect ∷ start ∷ set_role_tenant ∷ set_tenant (lit "t") ∷ work ∷ []) ++ commit ∷ [])
        ++ reset_role ∷ [])
      ++ release ∷ [],
)
unfolding starts_with ◌==◌
intercept-tenant_example =
    intercept-tenant healthy (lit "/users") (lit "t") someone succeeding []
      (connect ∷ start ∷ set_role_tenant ∷ set_tenant (lit "t") ∷ work ∷ []) tt (λ s c. refl) refl
      refl refl refl refl refl refl

intercept-tenant_fails_example : intercept healthy (lit "/users") (some someone) failing [] ≡ (
  err problem,
  (((connect ∷ start ∷ set_role_tenant ∷ set_tenant (lit "t") ∷ work ∷ []) ++ rollback ∷ [])
        ++ reset_role ∷ [])
      ++ release ∷ [],
)
unfolding starts_with ◌==◌
intercept-tenant_fails_example =
    intercept-tenant_fails healthy (lit "/users") (lit "t") someone failing []
      (connect ∷ start ∷ set_role_tenant ∷ set_tenant (lit "t") ∷ work ∷ []) problem (λ s c. refl)
      refl refl refl refl refl refl refl

deliver_lem_example :
    ((deliver number never 5 two_batches empty_log).rows
      ≡ empty_log.rows
        ++ entities number never 5 (length empty_log.rows) (concatenated two_batches))
    × ((deliver number never 5 two_batches empty_log).lost ≡ empty_log.lost)
deliver_lem_example = deliver_lem number never 5 two_batches empty_log (λ rows. refl)
