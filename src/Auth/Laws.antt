-- ===== src/Auth/Laws.antt =====
-- Laws of login, logout and the check of claims in src/modules/auth.
use generic_iam.Prelude.{
  Text, ◌≡◌, Bool, true, false, ◌&&◌, ◌||◌, not, ◌==◌, any, arith, Option-cases, inl, inr, is_empty,
  truthy, or_text,
}
use generic_iam.Entities.{UserEntity, SuperAdminEntity, RefreshTokenEntity}
use generic_iam.Errors.{Exception, ok, err}
use generic_iam.Constants.{super_admin, identity_name, user}
use generic_iam.Env.{Env, JwtPayload}
use generic_iam.App.{World}
use generic_iam.Rows.{found_passes, found_there, any_delete-inside, any_delete-outside}
use generic_iam.Auth.{
  LoginDto, TokenResponseDto, login, logout, validate, generate_tokens, generate_super_admin_tokens,
}

-- A user with this address and password who may log in, and the same for super admins.
abbrev pub may_log_in : ⦃env : Env⦄ → LoginDto → UserEntity → Bool
may_log_in ⦃env⦄ dto u =
    u.email == dto.email && (u.is_active && env.bcrypt_compare dto.password u.password_hash)

abbrev pub admin_may_log_in : ⦃env : Env⦄ → LoginDto → SuperAdminEntity → Bool
admin_may_log_in ⦃env⦄ dto a =
    a.email == dto.email && (a.is_active && env.bcrypt_compare dto.password a.password_hash)

module _ ⦃env : Env⦄ where
  -- Tokens are given only for the address and the password of an active user or an active super
  -- admin.
  pub login-ok :
      (dto : LoginDto) (w : World) (r : TokenResponseDto)
      → (login dto w).0 ≡ ok r
      → (any (may_log_in dto) w.db.users || any (admin_may_log_in dto) w.db.super_admins) ≡ true
  unfolding login generate_tokens generate_super_admin_tokens
  login-ok dto w r h = elim (Option-cases (env.find_one (λ u. u.email == dto.email) w.db.users)) [
    | inl n ↦ elim (Option-cases (env.find_one (λ a. a.email == dto.email) w.db.super_admins)) [
      | inl m ↦ ground arith
      | inr (a, m) ↦ ground (
        arith,
        found_passes (λ b. b.email == dto.email) w.db.super_admins a,
        found_there (λ b. b.email == dto.email) (admin_may_log_in dto) w.db.super_admins a,
      )
    ]
    | inr (u, n) ↦ ground (
      arith,
      found_passes (λ b. b.email == dto.email) w.db.users u,
      found_there (λ b. b.email == dto.email) (may_log_in dto) w.db.users u,
    )
  ]

  -- A login that fails leaves all the tables as they were.
  pub login-err :
      (dto : LoginDto) (w : World) (e : Exception)
      → (login dto w).0 ≡ err e
      → (login dto w).1.db ≡ w.db
  unfolding login generate_tokens generate_super_admin_tokens
  login-err dto w e h = elim (Option-cases (env.find_one (λ u. u.email == dto.email) w.db.users)) [
    | inl n ↦ elim (Option-cases (env.find_one (λ a. a.email == dto.email) w.db.super_admins)) [
      | inl m ↦ ground arith
      | inr (a, m) ↦ ground arith
    ]
    | inr (u, n) ↦ ground arith
  ]

  -- After a logout the user has no refresh token, and the tokens of the others are as before.
  pub logout_lem :
      (id tenant : Text) (w : World) (q : RefreshTokenEntity → Bool)
      → (any (λ t. t.user_id == id) (logout id tenant w).1.db.refresh_tokens ≡ false)
        × (any (λ t. q t && not (t.user_id == id)) (logout id tenant w).1.db.refresh_tokens
            ≡ any (λ t. q t && not (t.user_id == id)) w.db.refresh_tokens)
  unfolding logout
  logout_lem id tenant w q = (
    any_delete-inside (λ t. t.user_id == id) (λ t. t.user_id == id) w.db.refresh_tokens (λ t e. e),
    any_delete-outside (λ t. t.user_id == id) (λ t. q t && not (t.user_id == id))
        w.db.refresh_tokens (λ t e. ground arith),
  )

-- Claims that are let through name a subject, and a tenant unless they are a super admin's; they
-- come back as they are, a missing identity type as that of a user.
pub validate_lem :
    (p c : JwtPayload)
    → validate p ≡ ok c
    → ((is_empty p.sub ≡ false)
        × ((c.identity_type == identity_name super_admin || truthy c.tenant_id) ≡ true))
      × ((c.sub ≡ p.sub)
          × ((c.tenant_id ≡ p.tenant_id)
              × (c.identity_type ≡ or_text p.identity_type (identity_name user))))
unfolding validate
validate_lem p c h = ground arith
