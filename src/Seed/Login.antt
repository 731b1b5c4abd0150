-- ===== src/Seed/Login.antt =====
-- The super admin of src/database/seeds/super-admin.seed.ts, logging in by src/modules/auth/auth.service.ts.
use generic_iam.Prelude.{
  Text, lit, ◌≡◌, ◌+◌, Bool, true, false, ◌&&◌, not, some, ◌++◌, any, any_mono, ◌==◌, ==_refl,
  arith, Option-cases, inl, inr,
}
use generic_iam.Entities.{SuperAdminEntity}
use generic_iam.Errors.{ok}
use generic_iam.Env.{Env, Saved-cases}
use generic_iam.App.{World, Done, super_admins}
use generic_iam.Rows.{found_there, found_passes}
use generic_iam.Auth.{
  TokenResponseDto, login, generate_super_admin_tokens, token_response, super_admin_claims,
  access_seconds,
}
use generic_iam.Seed.{seed_super_admin}

module _ ⦃env : Env⦄ where
  abbrev admin_row : Text → Text → World → SuperAdminEntity
  admin_row email password w = record {
    base = record { id = env.uuid (w.drawn + 1); created_at = w.now };
    email = email;
    password_hash = env.bcrypt_hash w.drawn password 10;
    is_active = true;
  }

  -- A super admin with the address who could not log in with the password.
  abbrev is_locked : Text → Text → SuperAdminEntity → Bool
  is_locked email password a =
      a.email == email && not (a.is_active && env.bcrypt_compare password a.password_hash)

  abbrev admin_tokens : SuperAdminEntity → World → TokenResponseDto
  admin_tokens a w =
      token_response (env.sign (super_admin_claims a) access_seconds)
        (a.id ++ (lit "." ++ env.random_hex w.drawn)) access_seconds

  login-super_admin :
      (email password : Text) (w : World)
      → any (λ u. u.email == email) w.db.users ≡ false
      → any (λ a. a.email == email) w.db.super_admins ≡ true
      → any (is_locked email password) w.db.super_admins ≡ false
      → (t : TokenResponseDto) × ((login (record { email = email; password = password }) w).0
          ≡ ok t)
  unfolding login generate_super_admin_tokens
  login-super_admin email password w n h k =
      elim (Option-cases (env.find_one (λ u. u.email == email) w.db.users)) [
        | inr (u, f) ↦ ground (
          arith,
          found_passes (λ x. x.email == email) w.db.users u f,
          found_there (λ x. x.email == email) (λ x. x.email == email) w.db.users u f,
        )
        | inl missing ↦
            elim (Option-cases (env.find_one (λ a. a.email == email) w.db.super_admins)) [
              | inl m ↦
                  ground (arith, env.find_one_none (λ a. a.email == email) w.db.super_admins m)
              | inr (a, f) ↦
                  let passes = found_passes (λ x. x.email == email) w.db.super_admins a f in
                  let free : (a.is_active && env.bcrypt_compare password a.password_hash) ≡ true =
                    ground (
                      arith,
                      k,
                      passes,
                      found_there (λ x. x.email == email) (is_locked email password)
                          w.db.super_admins a f,
                    ) in
                  (admin_tokens a w, ground (arith, free))
            ]
      ]

  -- The super admin that the seeding creates, where no user and no super admin has the address yet,
  -- can log in with the address and the password that were configured: the login gives tokens.
  pub seed_super_admin-login :
      (email password : Text) (w : World) (d : Done)
      → any (λ u. u.email == email) w.db.users ≡ false
      → any (λ a. a.email == email) w.db.super_admins ≡ false
      → (seed_super_admin (some email) (some password) w).0 ≡ ok d
      → (t : TokenResponseDto) × ((login
            (record { email = email; password = password })
            (seed_super_admin (some email) (some password) w).1).0
          ≡ ok t)
  unfolding seed_super_admin
  seed_super_admin-login email password w d n m h =
      elim (Option-cases (env.find_one (λ a. a.email == email) w.db.super_admins)) [
        | inr (a, f) ↦ ground (
          arith,
          found_passes (λ x. x.email == email) w.db.super_admins a f,
          found_there (λ x. x.email == email) (λ x. x.email == email) w.db.super_admins a f,
        )
        | inl missing ↦
            elim (Saved-cases
              (env.save super_admins.key (admin_row email password w) w.db.super_admins)) [
                | inr (e, v) ↦ ground arith
                | inl (rows, v) ↦
                    let reads = (λ (q : SuperAdminEntity → Bool).
                      env.any_save super_admins.key (admin_row email password w) w.db.super_admins
                        rows q v) in
                    let w' = (seed_super_admin (some email) (some password) w).1 in
                    login-super_admin email password w' (ground (arith, n))
                      (ground (arith, reads (λ a. a.email == email), ==_refl email))
                      (ground (
                        arith,
                        m,
                        reads (is_locked email password),
                        env.compare_hash w.drawn password 10,
                        any_mono
                            (λ s.
                              is_locked email password s
                              && not (s.id == (admin_row email password w).id))
                            (λ a. a.email == email) w.db.super_admins (λ x k. ground arith),
                      ))
              ]
      ]
