-- ===== src/Auth/Issued.antt =====
-- A refresh token that generateTokens of src/modules/auth/auth.service.ts gave out, presented to
-- refresh of the same file.
use generic_iam.Prelude.{
  ◌+◌, Text, lit, ◌≡◌, refl, ap, ◌∙◌, Bool, true, false, ◌&&◌, not, List, [], ◌∷◌, ◌++◌, ◌==◌,
  ==_eq, ==_refl, any, any_mono, first, first-none, is_empty, arith, eqb, ltb, Option-cases, inl,
  inr,
}
use generic_iam.Entities.{UserEntity, RefreshTokenEntity}
use generic_iam.Errors.{ok}
use generic_iam.Env.{Env, saved}
use generic_iam.App.{World, refresh_tokens}
use generic_iam.Matcher.{split}
use generic_iam.Matcher.Laws.{head_part, tail_parts}
use generic_iam.Rows.{found_passes, found_there}
use generic_iam.Auth.{
  TokenResponseDto, refresh, nonempty_parts, generate_tokens, token_response, user_claims,
  access_seconds,
}
use generic_iam.Auth.Refresh.{
  user_part, secret_part, of_secret, candidates, new_row, without, taken, taken_user,
}

abbrev pub no_dot : Text → Bool
no_dot t = not (any (λ c. eqb c b'.') t)

split-none : (s : Text) → no_dot s ≡ true → split b'.' s ≡ s ∷ []
unfolding split any
split-none [] h = refl
split-none (x ∷ s) h = ground (arith, split-none s)

split-append : (t s : Text) → no_dot t ≡ true → split b'.' (t ++ (b'.' ∷ s)) ≡ t ∷ split b'.' s
unfolding split any
split-append [] s h = ground arith
split-append (x ∷ t) s h = ground (arith, split-append t s)

parts-token :
    (id secret : Text)
    → no_dot id ≡ true
    → no_dot secret ≡ true
    → (user_part (id ++ (lit "." ++ secret)) ≡ id)
      × (secret_part (id ++ (lit "." ++ secret)) ≡ secret)
parts-token id secret h k =
    let e : split b'.' (id ++ (b'.' ∷ secret)) ≡ id ∷ secret ∷ [] =
      split-append id secret h ∙ ap (λ l. id ∷ l) (split-none secret k) in
    (ap head_part e, ap (λ l. head_part (tail_parts l)) e)

module _ ⦃env : Env⦄ where
  -- The database takes each row of a token.
  abbrev pub Takes : Type 0
  Takes =
      (t : RefreshTokenEntity) (rows : List RefreshTokenEntity)
      → (rows' : List RefreshTokenEntity) × (env.save refresh_tokens.key t rows ≡ saved rows')

  abbrev tokens : UserEntity → World → TokenResponseDto
  tokens u w =
      token_response (env.sign (user_claims u) access_seconds)
        (u.id ++ (lit "." ++ env.random_hex w.drawn)) access_seconds

  generate_tokens-returns :
      (u : UserEntity) (w : World)
      → Takes
      → (rows : List RefreshTokenEntity) × ((generate_tokens u w).0 ≡ ok (tokens u w))
        × ((generate_tokens u w).1.db ≡ record w.db { refresh_tokens = rows })
        × ((generate_tokens u w).1.now ≡ w.now)
        × (env.save refresh_tokens.key (new_row u w) w.db.refresh_tokens ≡ saved rows)
  unfolding generate_tokens
  generate_tokens-returns u w h =
      let (rows, s) = h (new_row u w) w.db.refresh_tokens in
      (rows, ground (arith, s), ground (arith, s), ground (arith, s), s)

  -- What `refresh` needs of the tables, for the two parts of a token: some row of the user matches
  -- the secret and none that matches it has expired; the user is there, and active.
  record Accepted (id secret : Text) (w : World) : Type 0 where
    matched : any (λ t. of_secret secret t && t.user_id == id) w.db.refresh_tokens ≡ true
    live :
        any
          (λ t. (of_secret secret t && ltb t.expires_at w.now) && t.user_id == id)
          w.db.refresh_tokens
        ≡ false
    known : any (λ u. u.id == id) w.db.users ≡ true
    active : any (λ u. u.id == id && not u.is_active) w.db.users ≡ false

  parts-Accepted :
      (id secret : Text) (w : World)
      → Takes
      → is_empty id ≡ false
      → is_empty secret ≡ false
      → Accepted id secret w
      → (r : TokenResponseDto) × ((nonempty_parts id secret w).0 ≡ ok r)
  parts-Accepted [] secret w h n m a = cc
  parts-Accepted (c ∷ cs) [] w h n m a = cc
  parts-Accepted (c ∷ cs) (d ∷ ds) w h n m a =
      elim (Option-cases (first (of_secret (d ∷ ds)) (candidates w (c ∷ cs)))) [
        | inl missing ↦ ground (
          arith,
          a.matched,
          first-none (of_secret (d ∷ ds)) (candidates w (c ∷ cs)) missing,
          env.any_find (λ t. t.user_id == c ∷ cs) (of_secret (d ∷ ds)) w.db.refresh_tokens,
        )
        | inr (t, s) ↦
            let same : t.user_id ≡ c ∷ cs =
              ==_eq t.user_id (c ∷ cs) (taken_user (c ∷ cs) (d ∷ ds) w t s) in
            let fresh : ltb t.expires_at w.now ≡ false = ground (
              arith,
              a.live,
              taken (c ∷ cs) (d ∷ ds) w (λ r. of_secret (d ∷ ds) r && ltb r.expires_at w.now) t s,
              taken (c ∷ cs) (d ∷ ds) w (λ r. true) t s,
            ) in
            elim (Option-cases (env.find_one (λ u. u.id == t.user_id) w.db.users)) [
              | inl m ↦
                  ground
                    (arith, a.known, same, env.find_one_none (λ u. u.id == t.user_id) w.db.users m)
              | inr (u, f) ↦
                  let (rows, k, db, now, saves) = generate_tokens-returns u (without t w) h in
                  let active : u.is_active ≡ true = ground (
                    arith,
                    a.active,
                    same,
                    found_passes (λ v. v.id == t.user_id) w.db.users u f,
                    found_there (λ v. v.id == t.user_id) (λ v. v.id == c ∷ cs && not v.is_active)
                        w.db.users u f,
                  ) in
                  (tokens u (without t w), ground (arith, s, fresh, f, active, k))
            ]
      ]

  -- What a row that was just stored makes true.
  issued-Accepted :
      (u : UserEntity) (w w' : World) (rows : List RefreshTokenEntity)
      → w'.db ≡ record w.db { refresh_tokens = rows }
      → w'.now ≡ w.now
      → env.save refresh_tokens.key (new_row u w) w.db.refresh_tokens ≡ saved rows
      → (any (λ v. v.id == u.id) w.db.users
          && not (any (λ v. v.id == u.id && not v.is_active) w.db.users))
        ≡ true
      → any (λ r. of_secret (env.random_hex w.drawn) r && r.user_id == u.id) w.db.refresh_tokens
        ≡ false
      → Accepted u.id (env.random_hex w.drawn) w'
  issued-Accepted u w w' rows db now saves a o =
      let secret = env.random_hex w.drawn in
      let expired : RefreshTokenEntity → Bool =
        λ t. (of_secret secret t && ltb t.expires_at w.now) && t.user_id == u.id in
      let matches : RefreshTokenEntity → Bool = λ t. of_secret secret t && t.user_id == u.id in
      let new = new_row u w in
      let late : ltb new.expires_at w.now ≡ false = ground arith in
      record {
        matched = ground (
          arith,
          db,
          env.any_save refresh_tokens.key new w.db.refresh_tokens rows matches saves,
          env.compare_hash (w.drawn + 1) secret 12,
          ==_refl u.id,
        );
        live =
            rw (db, now)
              (env.any_save refresh_tokens.key new w.db.refresh_tokens rows expired saves
                ∙ ground (
                  arith,
                  late,
                  o,
                  any_mono (λ t. expired t && not (t.id == new.id)) matches w.db.refresh_tokens
                      (λ t k. ground arith),
                ));
        known = ground (arith, db, a);
        active = ground (arith, db, a);
      }

  -- A refresh token that was given out for a user is accepted when it comes back at once, and new
  -- tokens are given for it: where the database takes each row, the user is in the table and no row
  -- with that id is inactive, the id of the user and the secret are not empty and hold no dot, and
  -- no earlier row of the user matches the secret.
  pub refresh-generated :
      (u : UserEntity) (w : World) (t : TokenResponseDto)
      → Takes
      → (not (is_empty u.id) && no_dot u.id) ≡ true
      → (not (is_empty (env.random_hex w.drawn)) && no_dot (env.random_hex w.drawn)) ≡ true
      → (any (λ v. v.id == u.id) w.db.users
          && not (any (λ v. v.id == u.id && not v.is_active) w.db.users))
        ≡ true
      → any (λ r. of_secret (env.random_hex w.drawn) r && r.user_id == u.id) w.db.refresh_tokens
        ≡ false
      → (generate_tokens u w).0 ≡ ok t
      → (t' : TokenResponseDto) × ((refresh t.refresh_token (generate_tokens u w).1).0 ≡ ok t')
  unfolding refresh
  refresh-generated u w t h i s a o e =
      let w' = (generate_tokens u w).1 in
      let (rows, k, db, now, saves) = generate_tokens-returns u w h in
      let (first_part, second_part) =
        parts-token u.id (env.random_hex w.drawn) (ground arith) (ground arith) in
      let (t', r) =
        parts-Accepted u.id (env.random_hex w.drawn) w' h (ground arith) (ground arith)
          (issued-Accepted u w w' rows db now saves a o) in
      let same : tokens u w ≡ t = ground (arith, k, e) in
      (t', rw (← same, first_part, second_part) r)
