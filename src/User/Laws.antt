-- ===== src/User/Laws.antt =====
-- What the operations on users in src/modules/user/user.service.ts refuse, and what they write.
use generic_iam.Prelude.{
  Text, ◌≡◌, Bool, true, false, ◌&&◌, not, Option, some, ◌==◌, ==_refl, any, arith, Option-cases,
  inl, inr,
}
use generic_iam.Entities.{UserEntity, RefreshTokenEntity}
use generic_iam.Errors.{ok, err, plain, bad_request}
use generic_iam.Env.{Env, Saved-cases}
use generic_iam.App.{World, Done, users}
use generic_iam.Rows.{found_passes, found_there, any_delete-inside, any_delete-outside}
use generic_iam.User.{
  CreateUserDto, UpdateUserDto, create_user, update_user, set_activation, assign,
}
use generic_iam.Base

module _ ⦃env : Env⦄ where
  abbrev stored : Text → World → Option UserEntity
  stored id w = env.find_one (λ u. u.id == id) w.db.users

  -- A user of another tenant can neither be changed nor switched on or off: both are refused, and
  -- nothing is written or emitted.
  pub other_tenant-refused :
      (id tenant actor : Text) (dto : UpdateUserDto) (active : Bool) (w : World) (u : UserEntity)
      → env.find_one (λ x. x.id == id) w.db.users ≡ some u
      → (u.tenant_id == tenant) ≡ false
      → (update_user id dto tenant actor w ≡ (err (bad_request (plain "Invalid tenant")), w))
        × (set_activation id tenant active actor w
            ≡ (err (bad_request (plain "Invalid tenant")), w))
  unfolding update_user set_activation Base.find_one
  other_tenant-refused id tenant actor dto active w u f n = (ground arith, ground arith)

  -- Switching a user off that succeeds leaves no refresh token of the user, and a row of the tenant
  -- that says that the user is inactive; the refresh tokens of the others stay.
  pub set_activation-off :
      (id tenant actor : Text) (w : World) (d : Done) (q : RefreshTokenEntity → Bool)
      → (set_activation id tenant false actor w).0 ≡ ok d
      → ((any (λ t. t.user_id == id) (set_activation id tenant false actor w).1.db.refresh_tokens
            ≡ false)
          × (any
                (λ t. q t && not (t.user_id == id))
                (set_activation id tenant false actor w).1.db.refresh_tokens
              ≡ any (λ t. q t && not (t.user_id == id)) w.db.refresh_tokens))
        × (any
              (λ u. u.id == id && u.tenant_id == tenant && not u.is_active)
              (set_activation id tenant false actor w).1.db.users
            ≡ true)
  unfolding set_activation Base.find_one
  set_activation-off id tenant actor w d q h =
      elim (Option-cases (env.find_one (λ x. x.id == id) w.db.users)) [
        | inl n ↦ ground arith
        | inr (u, f) ↦
            elim (Saved-cases (env.save users.key (record u { is_active = false }) w.db.users)) [
              | inr (e, v) ↦ ground arith
              | inl (rows, v) ↦ ground (
                arith,
                found_passes (λ x. x.id == id) w.db.users u,
                env.any_save users.key (record u { is_active = false }) w.db.users rows
                    (λ x. x.id == id && x.tenant_id == tenant && not x.is_active),
                any_delete-inside (λ t. t.user_id == id) (λ t. t.user_id == id) w.db.refresh_tokens
                    (λ t e. e),
                any_delete-outside (λ t. t.user_id == id) (λ t. q t && not (t.user_id == id))
                    w.db.refresh_tokens (λ t e. ground arith),
              )
            ]
      ]

  -- A user is never created with an address that is taken in the tenant: if there is such a user,
  -- the request is refused and nothing changes.
  pub create_user-taken :
      (tenant actor : Text) (dto : CreateUserDto) (w : World)
      → any (λ u. u.tenant_id == tenant && u.email == dto.email) w.db.users ≡ true
      → create_user tenant dto actor w
        ≡ (err (bad_request (plain "User with email already exists in tenant")), w)
  unfolding create_user
  create_user-taken tenant actor dto w h =
      elim (Option-cases
        (env.find_one (λ u. u.tenant_id == tenant && u.email == dto.email) w.db.users)) [
          | inl n ↦ ground (
            arith,
            env.find_one_none (λ u. u.tenant_id == tenant && u.email == dto.email) w.db.users n,
          )
          | inr (u, f) ↦ ground arith
        ]

  -- An update that succeeds gives back a user of the tenant with the id that was asked for and the
  -- password hash of a user with that id from before: it neither moves a user nor sets a password.
  pub update_user-ok :
      (id tenant actor : Text) (dto : UpdateUserDto) (w : World) (r : UserEntity)
      → (update_user id dto tenant actor w).0 ≡ ok r
      → (((r.id == id) ≡ true) × ((r.tenant_id == tenant) ≡ true))
        × (any (λ u. u.id == id && u.password_hash == r.password_hash) w.db.users ≡ true)
  unfolding update_user Base.find_one assign
  update_user-ok id tenant actor dto w r h =
      elim (Option-cases (env.find_one (λ x. x.id == id) w.db.users)) [
        | inl n ↦ ground arith
        | inr (u, f) ↦ ground (
          arith,
          found_passes (λ x. x.id == id) w.db.users u,
          found_there (λ x. x.id == id) (λ x. x.id == id && x.password_hash == r.password_hash)
              w.db.users u,
          ==_refl u.password_hash,
        )
      ]
