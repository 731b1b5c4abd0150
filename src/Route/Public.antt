-- ===== src/Route/Public.antt =====
-- src/modules/auth/auth.controller.ts, src/modules/authorization/authorization.controller.ts and
-- src/modules/acl/acl.controller.ts: the public routes, and those on the caller and on ACL entries.
use generic_iam.Prelude.{Text, lit, true, List}
use generic_iam.Entities.{ResourceAclEntity}
use generic_iam.Permissions.{acl_all}
use generic_iam.Env.{Env}
use generic_iam.App.{App, Done, ◌>>=◌}
use generic_iam.Guards.{Request}
use generic_iam.Rbac.Role.{Paginated}
use generic_iam.Acl
use generic_iam.Acl.{CreateAclDto, CheckAclDto, AclQueryDto, AclDecision}
use generic_iam.Authorization
use generic_iam.Authorization.{CheckAuthzDto, AuthzDecision}
use generic_iam.Auth
use generic_iam.Auth.{LoginDto, TokenResponseDto}
use generic_iam.Auth.Profile
use generic_iam.Auth.Profile.{Profile}
use generic_iam.Route.{Route, Nest, plain_route, serve, current_user, own_tenant, uuid_param}
use generic_iam.Route.Roles.{demanding}

abbrev public_route : Route
public_route = record plain_route { is_public = true }

abbrev guarded_route : Route
guarded_route = record plain_route { guarded = true }

module _ ⦃env : Env⦄ (nest : Nest) where
  unfoldable pub login : Request → LoginDto → App TokenResponseDto
  unfolding serve
  login r dto = serve public_route r (λ q. Auth.login dto)

  unfoldable pub refresh : Request → Text → App TokenResponseDto
  unfolding serve
  refresh r token = serve public_route r (λ q. Auth.refresh token)

  unfoldable pub logout : Request → App Done
  unfolding serve
  logout r = serve plain_route r (λ q. current_user q (λ u. own_tenant nest u (Auth.logout u.sub)))

  unfoldable pub get_me : Request → App Profile
  unfolding serve
  get_me r = serve plain_route r (λ q. current_user q (λ u. Profile.get_me u.sub))

  unfoldable pub check : Request → CheckAuthzDto → App AuthzDecision
  unfolding serve
  check r dto = serve public_route r (λ q. Authorization.check dto)

  unfoldable pub check_batch : Request → List CheckAuthzDto → App (List AuthzDecision)
  unfolding serve
  check_batch r checks = serve public_route r (λ q. Authorization.check_batch checks)

  unfoldable pub create_acl : Request → CreateAclDto → App ResourceAclEntity
  unfolding serve
  create_acl r dto =
      serve (demanding acl_all) r
        (λ q. current_user q (λ u. own_tenant nest u (λ t. Acl.create_acl t dto u.sub)))

  unfoldable pub get_acls : Request → AclQueryDto → App (Paginated ResourceAclEntity)
  unfolding serve
  get_acls r query =
      serve (demanding acl_all) r
        (λ q. current_user q (λ u. own_tenant nest u (λ t. Acl.find_all_acls t query)))

  unfoldable pub delete_acl : Request → App Done
  unfolding serve
  delete_acl r = serve (demanding acl_all) r (λ q. do
    id ← uuid_param nest (lit "id") q
    current_user q (λ u. own_tenant nest u (λ t. Acl.delete_acl id t u.sub)))

  -- checkAcl demands no permission.
  unfoldable pub check_acl : Request → CheckAclDto → App AclDecision
  unfolding serve
  check_acl r dto =
      serve guarded_route r (λ q. current_user q (λ u. own_tenant nest u (λ t. Acl.check t dto)))
