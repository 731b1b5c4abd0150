-- ===== src/Auth/Refresh.antt =====
-- Laws of the rotation of refresh tokens in src/modules/auth/auth.service.ts.
use generic_iam.Prelude.{
  Text, ◌≡◌, refl, Bool, true, false, ◌&&◌, not, some, ◌==◌, ==_eq, any, any_ext, any_never, Option,
  ◌+◌, ◌*◌, arith, Option-cases, inl, inr, ltb, ℕ, List, [], ◌∷◌, first, first-some,
}
use generic_iam.Entities.{UserEntity, RefreshTokenEntity}
use generic_iam.Errors.{ok}
use generic_iam.Env.{Env, Saved-cases}
use generic_iam.App.{World, refresh_tokens}
use generic_iam.Matcher.{split}
use generic_iam.Matcher.Laws.{head_part, tail_parts}
use generic_iam.Rows.{found_passes, found_there, any_delete-inside}
use generic_iam.Auth.{TokenResponseDto, refresh, nonempty_parts, generate_tokens, refresh_seconds}

-- The two parts of a refresh token: the user's id, and the secret.
abbrev pub user_part : Text → Text
user_part token = head_part (split b'.' token)

abbrev pub secret_part : Text → Text
secret_part token = head_part (tail_parts (split b'.' token))

abbrev pub usable : ⦃env : Env⦄ → ℕ → Text → Text → RefreshTokenEntity → Bool
usable ⦃env⦄ now id secret t =
    (t.user_id == id && env.bcrypt_compare secret t.token_hash) && not (ltb t.expires_at now)

abbrev pub active_user : Text → UserEntity → Bool
active_user id u = u.id == id && u.is_active

module _ ⦃env : Env⦄ where
  abbrev pub of_secret : Text → RefreshTokenEntity → Bool
  of_secret secret t = env.bcrypt_compare secret t.token_hash

  abbrev pub candidates : World → Text → List RefreshTokenEntity
  candidates w id = env.find (λ t. t.user_id == id) w.db.refresh_tokens

  any_and :
      {A : Type 0} (p q : A → Bool) (xs : List A)
      → any p xs ≡ false
      → any (λ x. p x && q x) xs ≡ false
  unfolding any
  any_and p q [] h = refl
  any_and p q (x ∷ xs) h = ground (arith, any_and p q xs)

  -- The token that is taken: it passes the comparison and is a row of the user's.
  pub taken :
      (id secret : Text) (w : World) (q : RefreshTokenEntity → Bool) (t : RefreshTokenEntity)
      → first (of_secret secret) (candidates w id) ≡ some t
      → q t ≡ true
      → (of_secret secret t ≡ true) × (any (λ r. q r && r.user_id == id) w.db.refresh_tokens ≡ true)
  taken id secret w q t h e = ground (
    arith,
    first-some (of_secret secret) q (candidates w id) t,
    env.any_find (λ r. r.user_id == id) q w.db.refresh_tokens,
  )

  pub taken_user :
      (id secret : Text) (w : World) (t : RefreshTokenEntity)
      → first (of_secret secret) (candidates w id) ≡ some t
      → (t.user_id == id) ≡ true
  taken_user id secret w t h = ground (
    arith,
    taken id secret w (λ r. not (r.user_id == id)) t,
    any_never (λ r. not (r.user_id == id) && r.user_id == id) w.db.refresh_tokens
        (λ r. ground arith),
  )

  taken_usable :
      (id secret : Text) (w : World) (t : RefreshTokenEntity)
      → first (of_secret secret) (candidates w id) ≡ some t
      → ltb t.expires_at w.now ≡ false
      → any (usable w.now id secret) w.db.refresh_tokens ≡ true
  taken_usable id secret w t h e = ground (
    arith,
    taken id secret w (λ r. of_secret secret r && not (ltb r.expires_at w.now)) t,
    taken id secret w (λ r. true) t,
    any_ext (λ r. (of_secret secret r && not (ltb r.expires_at w.now)) && r.user_id == id)
        (usable w.now id secret) w.db.refresh_tokens (λ r. ground arith),
  )

  parts-ok :
      (id secret : Text) (w : World) (r : TokenResponseDto)
      → (nonempty_parts id secret w).0 ≡ ok r
      → (any (usable w.now id secret) w.db.refresh_tokens && any (active_user id) w.db.users) ≡ true
  unfolding generate_tokens
  parts-ok [] secret w r h = cc
  parts-ok (c ∷ cs) [] w r h = cc
  parts-ok (c ∷ cs) (d ∷ ds) w r h =
      elim (Option-cases (first (of_secret (d ∷ ds)) (candidates w (c ∷ cs)))) [
        | inl n ↦ ground arith
        | inr (t, s) ↦ elim (Option-cases (env.find_one (λ u. u.id == t.user_id) w.db.users)) [
          | inl m ↦ ground arith
          | inr (u, m) ↦ ground (
            arith,
            taken_usable (c ∷ cs) (d ∷ ds) w t,
            taken_user (c ∷ cs) (d ∷ ds) w t,
            ==_eq t.user_id (c ∷ cs),
            found_passes (λ v. v.id == t.user_id) w.db.users u,
            found_there (λ v. v.id == t.user_id) (active_user (c ∷ cs)) w.db.users u,
          )
        ]
      ]

  -- New tokens are given only for a refresh token whose first part is the id of an active user and
  -- whose second part matches the hash of a row of that user that has not expired.
  pub refresh-ok :
      (token : Text) (w : World) (r : TokenResponseDto)
      → (refresh token w).0 ≡ ok r
      → (any (usable w.now (user_part token) (secret_part token)) w.db.refresh_tokens
          && any (active_user (user_part token)) w.db.users)
        ≡ true
  unfolding refresh
  refresh-ok token w r h = parts-ok (user_part token) (secret_part token) w r h

  -- The row that a refresh token matches first.
  abbrev pub used_row : Text → World → Option RefreshTokenEntity
  used_row token w = first (of_secret (secret_part token)) (candidates w (user_part token))

  -- The row that is stored for new tokens.
  abbrev pub new_row : UserEntity → World → RefreshTokenEntity
  new_row u w = record {
    base = record { id = env.uuid (w.drawn + 1 + 1); created_at = w.now };
    user_id = u.id;
    token_hash = env.bcrypt_hash (w.drawn + 1) (env.random_hex w.drawn) 12;
    expires_at = w.now + refresh_seconds * 1000;
  }

  generate_tokens-keeps :
      (u : UserEntity) (w : World) (k : Text)
      → (env.uuid (w.drawn + 1 + 1) == k) ≡ false
      → any (λ x. x.id == k) w.db.refresh_tokens ≡ false
      → any (λ x. x.id == k) (generate_tokens u w).1.db.refresh_tokens ≡ false
  unfolding generate_tokens
  generate_tokens-keeps u w k f h =
      elim (Saved-cases (env.save refresh_tokens.key (new_row u w) w.db.refresh_tokens)) [
        | inl (rows, v) ↦ ground (
          arith,
          env.any_save refresh_tokens.key (new_row u w) w.db.refresh_tokens rows (λ x. x.id == k),
          any_and (λ x. x.id == k) (λ x. not (x.id == env.uuid (w.drawn + 1 + 1)))
              w.db.refresh_tokens,
        )
        | inr (e, v) ↦ ground arith
      ]

  -- The world after the row of a token was removed.
  abbrev pub without : RefreshTokenEntity → World → World
  without t w = record w {
    db = record w.db { refresh_tokens = env.delete (λ x. x.id == t.id) w.db.refresh_tokens };
  }

  parts_used :
      (id secret : Text) (w : World) (t : RefreshTokenEntity) (r : TokenResponseDto)
      → first (of_secret secret) (candidates w id) ≡ some t
      → (env.uuid (w.drawn + 1 + 1) == t.id) ≡ false
      → (nonempty_parts id secret w).0 ≡ ok r
      → any (λ x. x.id == t.id) (nonempty_parts id secret w).1.db.refresh_tokens ≡ false
  parts_used [] secret w t r s f h = cc
  parts_used (c ∷ cs) [] w t r s f h = cc
  parts_used (c ∷ cs) (d ∷ ds) w t r s f h =
      elim (Option-cases (env.find_one (λ u. u.id == t.user_id) w.db.users)) [
        | inl m ↦ ground arith
        | inr (u, m) ↦ ground (
          arith,
          generate_tokens-keeps u (without t w) t.id f (
              any_delete-inside (λ x. x.id == t.id) (λ x. x.id == t.id) w.db.refresh_tokens
                (λ x e. e)),
        )
      ]

  -- A refresh token is used up: once new tokens were given for it, the row that it matched first
  -- is gone, provided that the id of the new row is not the old one's.
  pub refresh_once :
      (token : Text) (w : World) (t : RefreshTokenEntity) (r : TokenResponseDto)
      → used_row token w ≡ some t
      → (env.uuid (w.drawn + 1 + 1) == t.id) ≡ false
      → (refresh token w).0 ≡ ok r
      → any (λ x. x.id == t.id) (refresh token w).1.db.refresh_tokens ≡ false
  unfolding refresh
  refresh_once token w t r s f h = parts_used (user_part token) (secret_part token) w t r s f h
