-- ===== src/Tests/Accounts.antt =====
-- The theorems on logins, users, tenants and the hierarchy at concrete inputs.
use generic_iam.Prelude.{
  ℕ, Text, lit, ◌≡◌, refl, Bool, true, false, ◌&&◌, ◌||◌, not, Option, none, some, [], ◌∷◌, ◌==◌,
  any, first, select, arith, ==_eq, Option-cases, inl, inr,
}
use generic_iam.Entities.{UserEntity, RefreshTokenEntity, TenantEntity}
use generic_iam.Env.{JwtPayload}
use generic_iam.Sample.{sample_env}
use generic_iam.Tests.Office.{value, office, ann, bob, the_token}
use generic_iam.Matcher.{split}
use generic_iam.Base
use generic_iam.Auth.{
  LoginDto, TokenResponseDto, login, refresh, generate_tokens, generate_super_admin_tokens,
}
use generic_iam.Auth.Laws.{may_log_in, admin_may_log_in, login-ok}
use generic_iam.Auth.Refresh.{usable, active_user, user_part, secret_part, refresh-ok, refresh_once}
use generic_iam.User.{UpdateUserDto, set_activation, level}
use generic_iam.User.Laws.{set_activation-off}
use generic_iam.User.Hierarchy.{IsRanked, IsClosed, level-ranked, level-closed}
use generic_iam.Tenant.{
  CreateTenantDto, create_tenant_with_admin, create_in_transaction, deactivate_tenant,
  ImpersonateDto,
}
use generic_iam.Tenant.Creation.{administers, create_tenant_with_admin-ok}
use generic_iam.Tenant.Laws.{deactivate_tenant-ok}

abbrev credentials : LoginDto
credentials = record { email = lit "ann"; password = lit "pw" }

abbrev no_tokens : TokenResponseDto
no_tokens = record { access_token = []; refresh_token = []; token_type = []; expires_in = 0 }

abbrev tokens_of_ann : TokenResponseDto
tokens_of_ann = value no_tokens (login credentials office).0

abbrev any_token : RefreshTokenEntity → Bool
any_token t = true

abbrev claims : JwtPayload
claims = record {
  sub = lit "u";
  email = none;
  tenant_id = some (lit "t");
  identity_type = lit "USER";
  impersonator_id = none;
}

abbrev presented : Text
presented = lit "u.secret"

abbrev rotated : TokenResponseDto
rotated = value no_tokens (refresh presented office).0

abbrev no_change : UpdateUserDto
no_change = record {
  email = none;
  first_name = none;
  last_name = none;
  manager_id = none;
  role_id = none;
  is_active = none;
}

abbrev new_shop : CreateTenantDto
new_shop = record {
  name = lit "shop";
  slug = lit "s";
  settings = none;
  admin = record { email = lit "x"; password = lit "x"; first_name = []; last_name = [] };
}

abbrev shop : TenantEntity
shop = record {
  base = record { id = 7 ∷ []; created_at = 1000 };
  name = lit "shop";
  slug = lit "s";
  is_active = true;
  settings = lit "{}";
}

abbrev as_ann : ImpersonateDto
as_ann = record { user_id = lit "u"; tenant_id = lit "t"; reason = lit "help" }

abbrev token_as_ann : Text × ℕ
token_as_ann = (lit "u", 1800)

-- Ann stands at the top; whoever has a manager stands below.
abbrev below : Option Text → ℕ
below none = 0
below (some m) = 1

abbrev depth : UserEntity → ℕ
depth u = below u.manager_id

abbrev own_manager : UserEntity
own_manager = record ann { manager_id = some (lit "u") }

abbrev everyone : UserEntity → Bool
everyone u = u.id == lit "u"

closed : IsClosed (own_manager ∷ []) (lit "t") everyone
unfolding any ◌==◌
closed s h = ground (arith, ==_eq s.id (lit "u"))

abbrev same_manager : Option Text → Option Text → Bool
same_manager none none = true
same_manager none (some m) = false
same_manager (some m) none = false
same_manager (some m) (some n) = m == n

-- Ann's row and Bob's row.
abbrev a_row : UserEntity → Bool
a_row u =
    (u.id == lit "u" && same_manager u.manager_id none)
    || (u.id == lit "v" && same_manager u.manager_id (some (lit "u")))

u-ne-v : (lit "u" == lit "v") ≡ false
unfolding ◌==◌
u-ne-v = refl

ranked : IsRanked a_row (lit "t") depth 2
ranked s u h r = elim (Option-cases s.manager_id) [
  | inl n ↦ elim (Option-cases u.manager_id) [ inl m ↦ ground arith | inr (k, m) ↦ ground arith ]
  | inr (l, n) ↦ elim (Option-cases u.manager_id) [
    | inl m ↦ ground arith
    | inr (k, m) ↦ ground (
      arith,
      ==_eq k s.id,
      ==_eq k (lit "u"),
      ==_eq s.id (lit "v"),
      ==_eq s.id (lit "u"),
      ==_eq (lit "u") (lit "v"),
      u-ne-v,
    )
  ]
]

login-ok_example :
    (any (may_log_in credentials) office.db.users
      || any (admin_may_log_in credentials) office.db.super_admins)
    ≡ true
unfolding login generate_tokens generate_super_admin_tokens first select any ◌==◌
login-ok_example = login-ok credentials office tokens_of_ann refl

refresh-ok_example :
    (any (usable office.now (user_part presented) (secret_part presented)) office.db.refresh_tokens
      && any (active_user (user_part presented)) office.db.users)
    ≡ true
unfolding refresh split generate_tokens generate_super_admin_tokens first select any ◌==◌
refresh-ok_example = refresh-ok presented office rotated refl

refresh_once_example :
    any (λ x. x.id == the_token.id) (refresh presented office).1.db.refresh_tokens ≡ false
unfolding refresh split generate_tokens generate_super_admin_tokens first select any ◌==◌
refresh_once_example = refresh_once presented office the_token rotated refl refl refl

set_activation-off_example :
    ((any
          (λ t. t.user_id == (lit "u"))
          (set_activation (lit "u") (lit "t") false (lit "x") office).1.db.refresh_tokens
        ≡ false)
      × (any
            (λ t. any_token t && not (t.user_id == (lit "u")))
            (set_activation (lit "u") (lit "t") false (lit "x") office).1.db.refresh_tokens
          ≡ any (λ t. any_token t && not (t.user_id == (lit "u"))) office.db.refresh_tokens))
    × (any
          (λ u. u.id == (lit "u") && u.tenant_id == (lit "t") && not u.is_active)
          (set_activation (lit "u") (lit "t") false (lit "x") office).1.db.users
        ≡ true)
unfolding set_activation Base.find_one first select any ◌==◌
set_activation-off_example =
    set_activation-off (lit "u") (lit "t") (lit "x") office tt any_token refl

create_tenant_with_admin-ok_example :
    (any (λ x. x.name == new_shop.name || x.slug == new_shop.slug) office.db.tenants ≡ false)
    × (any
          (λ x.
            x.id == shop.id && x.name == new_shop.name && x.slug == new_shop.slug && x.is_active)
          (create_tenant_with_admin true new_shop (lit "x") office).1.db.tenants
        ≡ true)
    × (any
          (administers shop.id new_shop office.db.roles
            (create_tenant_with_admin true new_shop (lit "x") office).1.db.user_roles)
          (create_tenant_with_admin true new_shop (lit "x") office).1.db.users
        ≡ true)
unfolding create_tenant_with_admin create_in_transaction first ◌==◌
create_tenant_with_admin-ok_example =
    create_tenant_with_admin-ok true new_shop (lit "x") office shop refl

deactivate_tenant-ok_example :
    (any
        (λ t. t.id == (lit "t") && not t.is_active)
        (deactivate_tenant (lit "t") (lit "x") office).1.db.tenants
      ≡ true)
    × (((deactivate_tenant (lit "t") (lit "x") office).1.db.users ≡ office.db.users)
        × ((deactivate_tenant (lit "t") (lit "x") office).1.db.refresh_tokens
            ≡ office.db.refresh_tokens))
unfolding deactivate_tenant Base.update Base.find_one first select any ◌==◌
deactivate_tenant-ok_example = deactivate_tenant-ok (lit "t") (lit "x") office tt refl

level-ranked_example : level (ann ∷ bob ∷ []) (lit "t") (lit "u") (2) ≡ []
unfolding any ◌==◌
level-ranked_example = level-ranked a_row (ann ∷ bob ∷ []) (lit "t") (lit "u") depth 1 refl ranked

level-closed_example : any everyone (level (own_manager ∷ []) (lit "t") (lit "u") 5) ≡ true
unfolding level select any ◌==◌
level-closed_example = level-closed (own_manager ∷ []) (lit "t") (lit "u") everyone 5 closed refl
