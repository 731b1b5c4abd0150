-- ===== src/Seed.antt =====
-- src/database/seeds: the permissions, the system roles with their permissions, and the super admin
-- that the database starts with. What the environment variables say is an argument.
pub mod Laws
pub mod Roles
pub mod Links
pub mod Login
use generic_iam.Prelude.{
  ◌+◌, Text, lit, ◌++◌, true, Option, none, some, List, [], ◌∷◌, ◌==◌, if◌then◌else◌,
}
use generic_iam.Permissions.{Permissions, done, leaf, group, system_permissions}
use generic_iam.Entities.{PermissionEntity, SuperAdminEntity}
use generic_iam.Errors.{ok}
use generic_iam.Env.{Env}
use generic_iam.App.{
  App, Done, permissions, super_admins, fresh_base, find_one, save, pure, for_each, ◌>>=◌, ◌>>◌,
}
use generic_iam.Matcher.{split}
use generic_iam.Matcher.Laws.{head_part}

-- extractPermissions: the codes of an object, those of the inner objects in their place.
unfoldable pub extract_permissions : Permissions → List Text
extract_permissions done = []
extract_permissions (leaf code rest) = code ∷ extract_permissions rest
extract_permissions (group inner rest) = extract_permissions inner ++ extract_permissions rest

abbrev pub service_of : Text → Text
service_of code = if code == lit "*.*" then lit "*" else head_part (split b'.' code)

module _ ⦃env : Env⦄ where
  abbrev pub new_permission : Text → App Done
  new_permission code = do
    base ← fresh_base
    save permissions (record {
      base = base;
      code = code;
      service = service_of code;
      parent_id = none;
      description = some (lit "Allow access for " ++ code);
    })
    pure tt

  abbrev pub unless_there : {A : Type 0} → Option A → App Done → App Done
  unless_there none m = m
  unless_there (some a) m = pure tt

  -- One round of the loop over the codes.
  unfoldable pub seed_permission : Text → App Done
  seed_permission code = do
    existing ← find_one permissions (λ p. p.code == code)
    unless_there existing (new_permission code)

  unfoldable pub seed_permissions : List Text → App Done
  seed_permissions codes = for_each codes seed_permission

  -- The run of the script, on the codes of SYSTEM_PERMISSIONS.
  unfoldable pub seed_system_permissions : App Done
  unfolding extract_permissions
  seed_system_permissions = seed_permissions (extract_permissions system_permissions)

  -- `bcrypt.hash(password, 10)`
  abbrev hash_10 : Text → App Text
  hash_10 secret w = (ok (env.bcrypt_hash w.drawn secret 10), record w { drawn = w.drawn + 1 })

  abbrev new_super_admin : Text → Text → App Done
  new_super_admin email password = do
    hashed ← hash_10 password
    base ← fresh_base
    save super_admins
        (record { base = base; email = email; password_hash = hashed; is_active = true })
    pure tt

  -- `process.env.SUPER_ADMIN_EMAIL ?? 'superadmin@example.com'`
  abbrev or_default : Option Text → Text → Text
  or_default none d = d
  or_default (some t) d = t

  unfoldable pub seed_super_admin : Option Text → Option Text → App Done
  seed_super_admin email password = do
    let address = or_default email (lit "superadmin@example.com")
    existing ← find_one super_admins (λ a. a.email == address)
    unless_there existing
        (new_super_admin address (or_default password (lit "SuperSecretPassword123!")))
