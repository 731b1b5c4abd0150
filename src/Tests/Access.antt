-- ===== src/Tests/Access.antt =====
-- The theorems on decisions at concrete inputs: checks, guards, effective permissions, messages and the
-- client.
use generic_iam.Prelude.{
  Text, lit, ◌≡◌, refl, Bool, true, false, ◌||◌, Option, none, some, List, [], ◌∷◌, ◌==◌, any,
  select, has, if◌then◌else◌, arith, ap, sym, ==_eq, ==_refl,
}
use generic_iam.Entities.{Db, PermissionEntity}
use generic_iam.Errors.{ok, err, plain, forbidden}
use generic_iam.Env.{CacheStore, JwtPayload, flag}
use generic_iam.App.{World}
use generic_iam.Sample.{sample_env, lookup}
use generic_iam.Tests.Office.{office, reading, assignment}
use generic_iam.Rbac.Assignment.{get_user_roles, unexpired}
use generic_iam.Rbac.Override.{
  get_effective_permissions, get_overrides_for_user, role_permissions_of, joined_permissions,
  effective_loop, map_set,
}
use generic_iam.Rbac.Override.Reads.{
  effective_in, is_active, joined_in, role_permissions_in, get_effective_permissions_eq,
}
use generic_iam.Rbac.Override.Laws.{entitled, has_id, get_effective_permissions_lem}
use generic_iam.Rbac.Override.Returns.{get_effective_permissions-returns}
use generic_iam.Acl.{same_entry}
use generic_iam.Authorization.{
  CheckAuthzDto, AuthzDecision, cache, none_of_them, check, decide, effective_set, decision_key,
  set_of, acl_dto,
}
use generic_iam.Authorization.Collision.{about_resource, check-collides}
use generic_iam.Cache.{get_permissions, set_permissions, acl_key, perms_key, authz_key}
use generic_iam.Matcher
use generic_iam.Matcher.{has_permission}
use generic_iam.Acl
use generic_iam.Authorization.Coherence.{IsCoherent}
use generic_iam.Authorization.Plain.{IsPlain, Coherent}
use generic_iam.Authorization.Laws.{answer, check_lem}
use generic_iam.Guards.{Request, AclMetadata, acl_guard, tenant_text, resource_dto}
use generic_iam.Guards.Laws.{ArePlain, grants, acl_guard_lem}
use generic_iam.Event.{PermissionChangedEvent, handle_permission_changed}
use generic_iam.Event.Effects.{SameElsewhere, is_user, handle_permission_changed-IsCoherent}
use generic_iam.Sdk.{Outside, Question, absent, body, is_allowed, allowed_by}
use generic_iam.Sdk.Laws.{Agrees, is_allowed-Agrees}

-- Nothing is cached.
pub cold : Coherent office
unfolding lookup
cold = record {
  decisions = λ t u p y i v a b c d e. cc;
  sets = λ t u v a e. cc;
  entries = λ t u y i p v a b c d e. cc;
}

abbrev pub claims_of : Text → JwtPayload
claims_of id = record {
  sub = id;
  email = none;
  tenant_id = some (lit "t");
  identity_type = lit "USER";
  impersonator_id = none;
}

abbrev pub claims_of_ann : JwtPayload
claims_of_ann = claims_of (lit "u")

abbrev claims_of_bob : JwtPayload
claims_of_bob = claims_of (lit "v")

abbrev params_of : Text → Option Text
params_of k = some (lit "1")

abbrev request_of_ann : Request
request_of_ann = record { user = some claims_of_ann; params = params_of; authorization = none }

abbrev request_of_bob : Request
request_of_bob = record request_of_ann { user = some claims_of_bob }

abbrev edit_of_doc : AclMetadata
edit_of_doc = record { resource = lit "doc"; action = lit "doc.edit"; param_key = none }

abbrev bob_edits : CheckAuthzDto
bob_edits = resource_dto claims_of_bob edit_of_doc (lit "1")

pub plain_ann : ArePlain claims_of_ann
unfolding any
plain_ann = record { tenant = refl; user = refl }

plain_bob : ArePlain claims_of_bob
unfolding any
plain_bob = record { tenant = refl; user = refl }

plain_edit : IsPlain bob_edits
unfolding any ◌==◌
plain_edit = record {
  tenant = refl;
  user = refl;
  permission = refl;
  type = refl;
  id = refl;
  type_given = refl;
  id_given = refl;
}

pub effective_ann : effective_in office.db office.now (lit "u") (lit "t") ≡ ok (reading ∷ [])
unfolding get_effective_permissions get_overrides_for_user role_permissions_of joined_permissions
    effective_loop map_set get_user_roles unexpired select any has ◌==◌
effective_ann = ap (λ r. r.0) (sym (get_effective_permissions_eq (lit "u") (lit "t") office))

effective_bob : effective_in office.db office.now (lit "v") (lit "t") ≡ ok []
unfolding get_effective_permissions get_overrides_for_user role_permissions_of joined_permissions
    effective_loop map_set get_user_roles unexpired select any has ◌==◌
effective_bob = ap (λ r. r.0) (sym (get_effective_permissions_eq (lit "v") (lit "t") office))

abbrev ann_changed : PermissionChangedEvent
ann_changed = record {
  tenant_id = some (lit "t");
  user_id = some (lit "u");
  payload_tenant_id = none;
  payload_user_id = none;
}

-- The decision on a request of Ann's and her permissions are cached, and then she loses her role.
abbrev ann_edits : CheckAuthzDto
ann_edits = resource_dto claims_of_ann edit_of_doc (lit "1")

plain_ann_edits : IsPlain ann_edits
unfolding any ◌==◌
plain_ann_edits = record {
  tenant = refl;
  user = refl;
  permission = refl;
  type = refl;
  id = refl;
  type_given = refl;
  id_given = refl;
}

abbrev warmed : World
warmed = record office { cache = (check ann_edits office).1.cache }

warm : Coherent warmed
warm =
    let (d, c, e, decided, coherent) =
      check_lem ann_edits office (reading ∷ []) cold effective_ann plain_ann_edits in
    let same : (check ann_edits office).1.cache ≡ c = ap (λ r. r.1.cache) e in rw same coherent

abbrev dismissed : Db
dismissed = record office.db { user_roles = [] }

assigned_elsewhere :
    (t u : Text)
    → is_user (lit "t") (lit "u") t u ≡ false
    → select (is_active u t 1000) (assignment ∷ []) ≡ []
unfolding select
assigned_elsewhere t u h =
    ground (arith, ==_eq (lit "u") u, ==_eq (lit "t") t, ==_refl u, ==_refl t)

same_but_ann : SameElsewhere (is_user (lit "t") (lit "u")) office.now office.db dismissed
unfolding effective_in select joined_in role_permissions_in
same_but_ann = record { effective = λ t u h. rw (assigned_elsewhere t u h) refl; acls = refl }

-- A service that allows everything, and caches that are empty.
abbrev answering : Outside
answering = record { read = λ k. absent; post = λ q. body (some true) none }

abbrev always : Question → Bool
always q = true

abbrev question : Question
question = record {
  user_id = lit "u";
  tenant_id = lit "t";
  permission = lit "doc.read";
  resource_type = none;
  resource_id = none;
}

agreeing : Agrees answering always question
unfolding allowed_by
agreeing = record {
  service = refl;
  decision = λ b e. cc;
  set = λ l e. (λ h. refl, λ h. cc);
  no_list = λ l e. cc;
}

check_lem_example :
    (d : AuthzDecision) × (c : CacheStore) × (check bob_edits office
      ≡ (ok d, record office { cache = c }))
    × (d.allowed ≡ answer bob_edits office [] cold effective_bob plain_edit)
    × IsCoherent office.db office.now c
check_lem_example = check_lem bob_edits office [] cold effective_bob plain_edit

acl_guard_lem_example : (acl_guard (some edit_of_doc) request_of_bob office).0 ≡ (
    if (grants claims_of_bob [] plain_bob) edit_of_doc.action
      || any
          (same_entry
            (tenant_text claims_of_bob)
            (acl_dto (resource_dto claims_of_bob edit_of_doc (lit "1"))))
          office.db.acls
    then ok true
    else err (forbidden (plain "Insufficient resource ACL")))
unfolding ◌==◌
acl_guard_lem_example =
    acl_guard_lem claims_of_bob [] plain_bob edit_of_doc (lit "1") request_of_bob office refl refl
      refl refl refl cold effective_bob plain_edit

get_effective_permissions_lem_example :
    (office ≡ office)
    × (any (has_id (lit "p")) (reading ∷ [])
        ≡ entitled (lit "u") (lit "t") office.now office.db (lit "p"))
unfolding get_effective_permissions get_overrides_for_user role_permissions_of joined_permissions
    effective_loop map_set get_user_roles unexpired select any has ◌==◌
get_effective_permissions_lem_example =
    get_effective_permissions_lem (lit "u") (lit "t") office office (reading ∷ []) (lit "p") refl

handle_permission_changed-IsCoherent_example :
    IsCoherent dismissed warmed.now (handle_permission_changed ann_changed warmed).1.cache
handle_permission_changed-IsCoherent_example =
    handle_permission_changed-IsCoherent (lit "t") (lit "u") ann_changed warmed dismissed refl refl
      refl refl refl warm same_but_ann

is_allowed-Agrees_example : is_allowed answering question ≡ always question
is_allowed-Agrees_example = is_allowed-Agrees answering always question agreeing

get_effective_permissions-returns_example :
    (ps : List PermissionEntity) × ((get_effective_permissions (lit "u") (lit "t") office
        ≡ (ok ps, office))
      × ((i : Text) → any (has_id i) ps ≡ entitled (lit "u") (lit "t") office.now office.db i))
unfolding any
get_effective_permissions-returns_example =
    get_effective_permissions-returns (lit "u") (lit "t") office refl

-- Two requests of one user: for `doc:edit` on a memo, and for `doc` on an `edit:memo`.
abbrev edits_memo : CheckAuthzDto
edits_memo = about_resource (lit "t") (lit "u") (lit "doc:edit") (lit "memo") (some (lit "1"))

abbrev uses_edit_memo : CheckAuthzDto
uses_edit_memo = about_resource (lit "t") (lit "u") (lit "doc") (lit "edit:memo") (some (lit "1"))

abbrev no_edit : AuthzDecision
no_edit = record { allowed = false; source = none_of_them; evaluated_at = 1000 }

edit_refused : (check edits_memo office).0 ≡ ok no_edit
unfolding check decide effective_set get_permissions set_permissions get_effective_permissions
    get_user_roles get_overrides_for_user role_permissions_of joined_permissions effective_loop
    has_permission decision_key acl_key perms_key authz_key set_of lookup select ◌==◌ Acl.check has
    map_set Matcher.set_add Matcher.any_wildcard Matcher.split Matcher.wildcard
edit_refused = refl

check-collides_example :
    (e : AuthzDecision) × ((check uses_edit_memo (check edits_memo office).1).0 ≡ ok e)
    × (e.allowed ≡ no_edit.allowed)
    × (e.source ≡ cache)
unfolding check decide effective_set get_permissions set_permissions get_effective_permissions
    get_user_roles get_overrides_for_user role_permissions_of joined_permissions effective_loop
    has_permission decision_key acl_key perms_key authz_key set_of lookup select ◌==◌ Acl.check has
    map_set Matcher.set_add Matcher.any_wildcard Matcher.split Matcher.wildcard
check-collides_example =
    check-collides (lit "t") (lit "u") (lit "doc") (lit "edit") (lit "memo") (some (lit "1")) office
      no_edit (flag false) refl edit_refused refl
