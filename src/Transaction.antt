-- ===== src/Transaction.antt =====
-- Transactions: src/common/utils/transaction.util.ts (and the one of the SDK), and the interceptor
-- src/common/interceptors/tenant-transaction.interceptor.ts, as the calls that they make of the
-- query runner. The runner is a parameter: it says which call fails, and whether it has an open
-- transaction or has been released.
pub mod Outcomes
use generic_iam.Prelude.{
  Text, lit, Bool, true, false, ◌&&◌, not, Option, none, some, List, [], ◌∷◌, ◌++◌, starts_with,
  truthy, text_or, if◌then◌else◌, ◌==◌,
}
use generic_iam.Constants.{identity_name, super_admin}
use generic_iam.Errors.{Exception, Result, ok, err}
use generic_iam.Env.{JwtPayload}

-- A call of the query runner; `work` stands for what the caller's function does with it.
pub data Call : Type 0 where
  connect start commit rollback release set_role_tenant set_role_superadmin reset_role : Call
  set_tenant : Text → Call
  work : Call

pub record Runner : Type 0 where
  pub fails : List Call → Call → Option Exception
  pub is_active : List Call → Bool
  pub is_released : List Call → Bool

abbrev pub Done : Type 0
Done = Unit {0}

-- The calls made so far, and the result.
abbrev pub Run : Type 0 → Type 0
Run A = List Call → Result A × List Call

infixl 5 ◌>>=◌ ◌>>◌
abbrev pub ◌>>=◌ : {A B : Type 0} → Run A → (A → Run B) → Run B
◌>>=◌ m f t = let (r, t') = m t in elim r [ ok a ↦ f a t' | err e ↦ (err e, t') ]

abbrev pub ◌>>◌ : {A B : Type 0} → Run A → Run B → Run B
m >> k = m >>= λ _. k

abbrev pub pure : {A : Type 0} → A → Run A
pure a t = (ok a, t)

abbrev pub raise : {A : Type 0} → Exception → Run A
raise e t = (err e, t)

abbrev pub catch : {A : Type 0} → Run A → (Exception → Run A) → Run A
catch m h t = let (r, t') = m t in elim r [ ok a ↦ (ok a, t') | err e ↦ h e t' ]

-- `try { m } finally { f }`: an exception of the last part replaces the result.
abbrev pub finally : {A : Type 0} → Run A → Run Done → Run A
finally m f t =
    let (r, t') = m t in let (q, t'') = f t' in elim q [ ok d ↦ (r, t'') | err e ↦ (err e, t'') ]

-- An exception of the second part is dropped.
abbrev pub finally_ignoring : {A : Type 0} → Run A → Run Done → Run A
finally_ignoring m f t = let (r, t') = m t in let (q, t'') = f t' in (r, t'')

abbrev pub outcome : Option Exception → Result Done
outcome none = ok tt
outcome (some e) = err e

module _ (runner : Runner) where
  abbrev pub call : Call → Run Done
  call c t = (outcome (runner.fails t c), t ++ c ∷ [])

  abbrev attempt : {A : Type 0} → Run A → Run A
  attempt operation =
      catch (do result ← operation; call commit; pure result) (λ e. do call rollback; raise e)

  -- A transaction that is already open is joined: its owner commits or rolls back.
  unfoldable pub run_in_transaction : {A : Type 0} → Bool → Run A → Run A
  run_in_transaction joined operation =
      if joined
      then operation
      else (do call connect; call start; finally (attempt operation) (call release))

  abbrev if_active : Call → Run Done
  if_active c t = if runner.is_active t then call c t else (ok tt, t)

  -- `RESET ROLE` and the release, each with its errors dropped
  abbrev give_back : Run Done
  give_back t =
      if runner.is_released t
      then (ok tt, t)
      else (let (r, t') = call reset_role t in call release t')

  abbrev set_config : Bool → Option Text → Run Done
  set_config true tenant = call set_role_superadmin
  set_config false none = pure tt
  set_config false (some []) = pure tt
  set_config false (some (c ∷ cs)) = do call set_role_tenant; call (set_tenant (c ∷ cs))

  abbrev handled : {A : Type 0} → Run A → Run A
  handled next =
      finally_ignoring
        (catch (do value ← next; if_active commit; pure value)
          (λ e. do if_active rollback; raise e))
        give_back

  abbrev is_super_admin : Option JwtPayload → Bool
  is_super_admin none = false
  is_super_admin (some user) = user.identity_type == identity_name super_admin

  abbrev tenant_of : Option JwtPayload → Option Text
  tenant_of none = none
  tenant_of (some user) = user.tenant_id

  unfoldable pub intercept : {A : Type 0} → Text → Option JwtPayload → Run A → Run A
  intercept url user next = if starts_with (lit "/health") url then next else (do
    call connect
    call start
    set_config (is_super_admin user) (tenant_of user)
    handled next)
