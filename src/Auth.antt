-- ===== src/Auth.antt =====
-- src/modules/auth/auth.service.ts: login, the rotation of refresh tokens, logout; and the check
-- of a token's claims in src/modules/auth/strategies/jwt.strategy.ts.
pub mod Laws
pub mod Refresh
pub mod Issued
pub mod Profile
use generic_iam.Prelude.{
  ℕ, zero, suc, ◌+◌, ◌*◌, Text, lit, Bool, true, false, ◌&&◌, not, Option, none, some, List, [],
  ◌∷◌, ◌++◌, ◌==◌, ltb, truthy, is_empty, first, if◌then◌else◌, or_text,
}
use generic_iam.Entities.{UserEntity, SuperAdminEntity, RefreshTokenEntity}
use generic_iam.Constants.{
  iam_audit, auth_login_failed, auth_login_success, auth_token_refreshed, auth_logout,
  identity_name, user, super_admin, AuditEventType,
}
use generic_iam.Errors.{plain, unauthorized, bad_request, Result, ok, err}
use generic_iam.Env.{Env, JwtPayload}
use generic_iam.Json.{Fields, text, field, end}
use generic_iam.App.{
  App, Done, World, BaseEvent, users, super_admins, refresh_tokens, find_one, find, save, remove,
  delete, emit, pure, raise, or_raise, raise_if, gets, fresh_base, ◌>>=◌, ◌>>◌,
}
use generic_iam.Matcher.{split}
use generic_iam.Matcher.Laws.{head_part, tail_parts}
use generic_iam.Rbac.Assignment.{user_event}
use Prim.Native.String.{String}

pub record LoginDto : Type 0 where
  pub email : Text
  pub password : Text

pub record TokenResponseDto : Type 0 where
  pub access_token : Text
  pub refresh_token : Text
  pub token_type : Text
  pub expires_in : ℕ

-- Who logs in: a user of a tenant, or a super admin.
pub data Account : Type 0 where
  of_user : UserEntity → Account
  of_super_admin : SuperAdminEntity → Account

abbrev pub hash_of : Account → Text
hash_of (of_user u) = u.password_hash
hash_of (of_super_admin a) = a.password_hash

abbrev pub active_account : Account → Bool
active_account (of_user u) = u.is_active
active_account (of_super_admin a) = a.is_active

abbrev login_failed : Text → Text → BaseEvent
login_failed email reason = record {
  event_type = auth_login_failed;
  tenant_id = none;
  actor_id = none;
  resource_type = none;
  resource_id = none;
  user_id = none;
  payload = field "email" (text email) (field "reason" (text reason) end);
}

abbrev login_success : Text → Account → BaseEvent
login_success email (of_user u) =
    user_event auth_login_success u.tenant_id u.id u.id (field "email" (text email) end)
login_success email (of_super_admin a) = record {
  event_type = auth_login_success;
  tenant_id = none;
  actor_id = some a.id;
  resource_type = some (lit "super_admin");
  resource_id = some a.id;
  user_id = none;
  payload = field "email" (text email) end;
}

-- `configService.get(...) || d`: a zero counts as missing.
abbrev pub ttl_or : Option ℕ → ℕ → ℕ
ttl_or none d = d
ttl_or (some zero) d = d
ttl_or (some (suc n)) d = suc n

abbrev pub token_response : Text → Text → ℕ → TokenResponseDto
token_response access refresh ttl = record {
  access_token = access;
  refresh_token = refresh;
  token_type = lit "Bearer";
  expires_in = ttl;
}

abbrev pub user_claims : UserEntity → JwtPayload
user_claims u = record {
  sub = u.id;
  email = some u.email;
  tenant_id = some u.tenant_id;
  identity_type = identity_name user;
  impersonator_id = none;
}

abbrev pub super_admin_claims : SuperAdminEntity → JwtPayload
super_admin_claims a = record {
  sub = a.id;
  email = some a.email;
  tenant_id = none;
  identity_type = identity_name super_admin;
  impersonator_id = none;
}

module _ ⦃env : Env⦄ where
  -- `crypto.randomBytes(40).toString('hex')`, and a salt for bcrypt
  abbrev random_token : App Text
  random_token w = (ok (env.random_hex w.drawn), record w { drawn = w.drawn + 1 })

  -- `hashPassword` of src/common/utils/password.util.ts, with 12 rounds
  abbrev pub hash_password : Text → App Text
  hash_password secret w =
      (ok (env.bcrypt_hash w.drawn secret 12), record w { drawn = w.drawn + 1 })

  abbrev pub access_seconds : ℕ
  access_seconds = ttl_or env.access_ttl 900

  abbrev pub refresh_seconds : ℕ
  refresh_seconds = ttl_or env.refresh_ttl 604800

  unfoldable pub generate_tokens : UserEntity → App TokenResponseDto
  generate_tokens u = do
    secret ← random_token
    hashed ← hash_password secret
    now ← gets (λ w. w.now)
    base ← fresh_base
    save refresh_tokens (record {
      base = base;
      user_id = u.id;
      token_hash = hashed;
      expires_at = now + refresh_seconds * 1000;
    })
    pure (
        token_response (env.sign (user_claims u) access_seconds) (u.id ++ (lit "." ++ secret))
          access_seconds)

  -- Nothing is stored for a super admin: the token will match no row.
  unfoldable pub generate_super_admin_tokens : SuperAdminEntity → App TokenResponseDto
  generate_super_admin_tokens a = do
    secret ← random_token
    pure (
        token_response (env.sign (super_admin_claims a) access_seconds)
          (a.id ++ (lit "." ++ secret)) access_seconds)

  abbrev fail_login : {A : Type 0} → Text → Text → String → App A
  fail_login email reason message = do
    emit iam_audit (login_failed email reason)
    raise (unauthorized (plain message))

  -- The first user with the address, whatever its tenant; failing that a super admin.
  abbrev account_of : Text → Option UserEntity → App Account
  account_of email (some u) = pure (of_user u)
  account_of email none = do
    found ← find_one super_admins (λ a. a.email == email)
    super_admin_or_fail email found
    where
      super_admin_or_fail : Text → Option SuperAdminEntity → App Account
      super_admin_or_fail email none = fail_login email (lit "User not found") "Invalid credentials"
      super_admin_or_fail email (some a) = pure (of_super_admin a)

  abbrev require_active : Text → Account → App Done
  require_active email (of_user u) =
      if u.is_active
      then pure tt
      else fail_login email (lit "User inactive") "User account is inactive"
  require_active email (of_super_admin a) =
      if a.is_active
      then pure tt
      else fail_login email (lit "SuperAdmin inactive") "SuperAdmin account is inactive"

  abbrev generate : Account → App TokenResponseDto
  generate (of_user u) = generate_tokens u
  generate (of_super_admin a) = generate_super_admin_tokens a

  unfoldable pub login : LoginDto → App TokenResponseDto
  unfolding generate_tokens generate_super_admin_tokens
  login dto = do
    found ← find_one users (λ u. u.email == dto.email)
    account ← account_of dto.email found
    require_active dto.email account
    if env.bcrypt_compare dto.password (hash_of account)
        then pure tt
        else fail_login dto.email (lit "Invalid password") "Invalid credentials"
    tokens ← generate account
    emit iam_audit (login_success dto.email account)
    pure tokens

  -- The user of a token that matches and has not expired, after which the token is used up.
  abbrev live_user : Option UserEntity → App UserEntity
  live_user none = raise (unauthorized (plain "User inactive or deleted"))
  live_user (some u) =
      if u.is_active then pure u else raise (unauthorized (plain "User inactive or deleted"))

  abbrev refuse_expired : RefreshTokenEntity → ℕ → App Done
  refuse_expired token now =
      if ltb token.expires_at now
      then (do remove refresh_tokens token; raise (unauthorized (plain "Refresh token expired")))
      else pure tt

  abbrev refresh_with : Text → Text → App TokenResponseDto
  refresh_with prefix actual = do
    tokens ← find refresh_tokens (λ t. t.user_id == prefix)
    token ←
        or_raise (first (λ t. env.bcrypt_compare actual t.token_hash) tokens)
          (unauthorized (plain "Invalid refresh token"))
    now ← gets (λ w. w.now)
    refuse_expired token now
    found ← find_one users (λ u. u.id == token.user_id)
    u ← live_user found
    remove refresh_tokens token
    response ← generate_tokens u
    emit iam_audit (user_event auth_token_refreshed u.tenant_id u.id u.id end)
    pure response

  abbrev pub nonempty_parts : Text → Text → App TokenResponseDto
  nonempty_parts [] actual = raise (unauthorized (plain "Invalid refresh token format"))
  nonempty_parts (c ∷ cs) [] = raise (unauthorized (plain "Invalid refresh token format"))
  nonempty_parts (c ∷ cs) (d ∷ ds) = refresh_with (c ∷ cs) (d ∷ ds)

  -- `const [userIdPrefix, actualToken] = dto.refresh_token.split('.')`
  unfoldable pub refresh : Text → App TokenResponseDto
  unfolding generate_tokens
  refresh token =
      nonempty_parts (head_part (split b'.' token)) (head_part (tail_parts (split b'.' token)))

  unfoldable pub logout : Text → Text → App Done
  logout user_id tenant = do
    delete refresh_tokens (λ t. t.user_id == user_id)
    emit iam_audit (user_event auth_logout tenant user_id user_id end)

-- JwtStrategy.validate: the identity type of the claims, or USER; a tenant is needed for all but
-- super admins.
unfoldable pub validate : JwtPayload → Result JwtPayload
validate p =
    if is_empty p.sub
    then err (unauthorized (plain "Unauthorized"))
    else if not (or_text p.identity_type (identity_name user) == identity_name super_admin)
        && not (truthy p.tenant_id)
    then err (unauthorized (plain "Missing tenant context"))
    else ok (record p { identity_type = or_text p.identity_type (identity_name user) })
