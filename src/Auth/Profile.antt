-- ===== src/Auth/Profile.antt =====
-- getMe of src/modules/auth/auth.service.ts: the profile of a user, or of a super admin.
use generic_iam.Prelude.{ℕ, Text, lit, Bool, Option, none, some, ◌==◌}
use generic_iam.Entities.{UserEntity, SuperAdminEntity}
use generic_iam.Constants.{identity_name, user, super_admin}
use generic_iam.Errors.{plain, bad_request}
use generic_iam.Env.{Env}
use generic_iam.App.{App, users, super_admins, find_one, pure, or_raise, ◌>>=◌}

-- What `GET /auth/me` shows, but for `updated_at`.
pub record Profile : Type 0 where
  pub id : Text
  pub email : Text
  pub first_name : Text
  pub last_name : Text
  pub tenant_id : Option Text
  pub is_active : Bool
  pub manager_id : Option Text
  pub created_at : ℕ
  pub identity_type : Text

abbrev user_profile : UserEntity → Profile
user_profile u = record {
  id = u.id;
  email = u.email;
  first_name = u.first_name;
  last_name = u.last_name;
  tenant_id = some u.tenant_id;
  is_active = u.is_active;
  manager_id = u.manager_id;
  created_at = u.created_at;
  identity_type = identity_name user;
}

abbrev super_admin_profile : SuperAdminEntity → Profile
super_admin_profile a = record {
  id = a.id;
  email = a.email;
  first_name = lit "Super";
  last_name = lit "Admin";
  tenant_id = none;
  is_active = a.is_active;
  manager_id = none;
  created_at = a.created_at;
  identity_type = identity_name super_admin;
}

module _ ⦃env : Env⦄ where
  abbrev profile_of : Text → Option UserEntity → App Profile
  profile_of id (some u) = pure (user_profile u)
  profile_of id none = do
    found ← find_one super_admins (λ a. a.id == id)
    a ← or_raise found (bad_request (plain "User not found"))
    pure (super_admin_profile a)

  unfoldable pub get_me : Text → App Profile
  get_me id = do found ← find_one users (λ u. u.id == id); profile_of id found
