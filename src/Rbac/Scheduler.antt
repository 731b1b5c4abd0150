-- ===== src/Rbac/Scheduler.antt =====
-- src/modules/rbac/rbac.scheduler.ts: the hourly purge of assignments that have expired.
use generic_iam.Prelude.{ℕ, Bool, false, Option, none, some, ltb}
use generic_iam.Env.{Env}
use generic_iam.App.{App, Done, user_roles, delete, gets, ◌>>=◌}

-- `expires_at IS NOT NULL AND expires_at < now`
unfoldable pub has_expired : ℕ → Option ℕ → Bool
has_expired now none = false
has_expired now (some t) = ltb t now

module _ ⦃env : Env⦄ where
  unfoldable pub purge_expired_roles : App Done
  unfolding has_expired
  purge_expired_roles = do
    now ← gets (λ w. w.now)
    delete user_roles (λ ur. has_expired now ur.expires_at)
