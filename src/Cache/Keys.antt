-- ===== src/Cache/Keys.antt =====
-- When two cache keys are the same, and which keys the scans of the invalidation find. Tenant and
-- user ids hold no colon; a permission or the type of a resource may.
use generic_iam.Prelude.{
  Text, lit, ◌≡◌, true, false, [], ◌∷◌, ◌++◌, any, eqb, starts_with, starts_with-append, arith,
  append_assoc,
}
use generic_iam.Cache.{perms_key, acl_key, authz_key, user_prefix, tenant_prefix}

-- The text holds no colon.
abbrev pub NoColon : Text → Type 0
NoColon t = any (λ c. eqb c b':') t ≡ false

-- Two texts that are cut at their first colon.
pub cut_eq :
    (a b x y : Text)
    → NoColon a
    → NoColon b
    → a ++ (lit ":" ++ x) ≡ b ++ (lit ":" ++ y)
    → (a ≡ b) × (x ≡ y)
unfolding any
cut_eq [] [] x y ha hb e = ground arith
cut_eq [] (d ∷ b) x y ha hb e = ground arith
cut_eq (c ∷ a) [] x y ha hb e = ground arith
cut_eq (c ∷ a) (d ∷ b) x y ha hb e = ground (arith, cut_eq a b x y)

pub starts_with_cut :
    (a b x y : Text)
    → NoColon a
    → NoColon b
    → starts_with (a ++ (lit ":" ++ x)) (b ++ (lit ":" ++ y)) ≡ true
    → (a ≡ b) × (starts_with x y ≡ true)
unfolding any starts_with
starts_with_cut [] [] x y ha hb e = ground arith
starts_with_cut [] (d ∷ b) x y ha hb e = ground arith
starts_with_cut (c ∷ a) [] x y ha hb e = ground arith
starts_with_cut (c ∷ a) (d ∷ b) x y ha hb e = ground (arith, starts_with_cut a b x y)

pub drop_prefix : (p x y : Text) → p ++ x ≡ p ++ y → x ≡ y
drop_prefix [] x y e = e
drop_prefix (c ∷ p) x y e = drop_prefix p x y (ground arith)

-- A key of permissions belongs to one user of one tenant.
pub perms_key-injective :
    (tenant user tenant' user' : Text)
    → NoColon tenant
    → NoColon tenant'
    → perms_key tenant user ≡ perms_key tenant' user'
    → (tenant ≡ tenant') × (user ≡ user')
unfolding perms_key
perms_key-injective t u t' u' ht ht' e = cut_eq t t' u u' ht ht' (drop_prefix (lit "perms:") _ _ e)

-- Decisions for the same key are for the same tenant and user, and agree in the joined text of the
-- permission and the resource.
pub authz_key-injective :
    (tenant user permission type id tenant' user' permission' type' id' : Text)
    → NoColon tenant
    → NoColon tenant'
    → NoColon user
    → NoColon user'
    → NoColon permission
    → NoColon permission'
    → NoColon type
    → NoColon type'
    → authz_key tenant user permission type id ≡ authz_key tenant' user' permission' type' id'
    → (tenant ≡ tenant') × (user ≡ user') × (permission ≡ permission') × (type ≡ type') × (id ≡ id')
unfolding authz_key
authz_key-injective t u p y i t' u' p' y' i' ht ht' hu hu' hp hp' hy hy' e =
    let a = cut_eq t t' _ _ ht ht' (drop_prefix (lit "authz:") _ _ e) in
    let b = cut_eq u u' _ _ hu hu' a.1 in
    let c = cut_eq p p' _ _ hp hp' b.1 in
    let d = cut_eq y y' _ _ hy hy' c.1 in (a.0, b.0, c.0, d.0, d.1)

pub acl_key-injective :
    (tenant user type id permission tenant' user' type' id' permission' : Text)
    → NoColon tenant
    → NoColon tenant'
    → NoColon user
    → NoColon user'
    → NoColon type
    → NoColon type'
    → NoColon id
    → NoColon id'
    → acl_key tenant user type id permission ≡ acl_key tenant' user' type' id' permission'
    → (tenant ≡ tenant') × (user ≡ user') × (type ≡ type') × (id ≡ id') × (permission ≡ permission')
unfolding acl_key
acl_key-injective t u y i p t' u' y' i' p' ht ht' hu hu' hy hy' hi hi' e =
    let a = cut_eq t t' _ _ ht ht' (drop_prefix (lit "acl:") _ _ e) in
    let b = cut_eq u u' _ _ hu hu' a.1 in
    let c = cut_eq y y' _ _ hy hy' b.1 in
    let d = cut_eq i i' _ _ hi hi' c.1 in (a.0, b.0, c.0, d.0, d.1)

-- With a colon inside a permission, the keys of two requests are the same text.
pub authz_key_collision :
    (tenant user permission rest type id : Text)
    → authz_key tenant user (permission ++ (lit ":" ++ rest)) type id
      ≡ authz_key tenant user permission (rest ++ (lit ":" ++ type)) id
unfolding authz_key
authz_key_collision tenant user permission rest type id = simp append_assoc

-- The scan for a user finds the decisions for that user in that tenant, and no others.
pub user_prefix_lem :
    (tenant user tenant' user' permission type id : Text)
    → NoColon tenant
    → NoColon tenant'
    → NoColon user
    → NoColon user'
    → starts_with (user_prefix tenant user) (authz_key tenant' user' permission type id) ≡ true
    → (tenant ≡ tenant') × (user ≡ user')
unfolding user_prefix authz_key starts_with
user_prefix_lem t u t' u' p y i ht ht' hu hu' e =
    let a = starts_with_cut t t' _ _ ht ht' e in
    let b = starts_with_cut u u' [] _ hu hu' a.1 in (a.0, b.0)

pub user_prefix_self :
    (tenant user permission type id : Text)
    → starts_with (user_prefix tenant user) (authz_key tenant user permission type id) ≡ true
unfolding user_prefix authz_key
user_prefix_self t u p y i =
    let whole : authz_key t u p y i ≡ user_prefix t u ++ (p ++ (lit ":" ++ (y ++ (lit ":" ++ i)))) =
      simp append_assoc in
    rw whole (starts_with-append (user_prefix t u) (p ++ (lit ":" ++ (y ++ (lit ":" ++ i)))))

-- The scans for a tenant find the sets of permissions and the decisions of that tenant alone.
pub tenant_perms_prefix :
    (tenant tenant' user : Text)
    → NoColon tenant
    → NoColon tenant'
    → starts_with (tenant_prefix (lit "perms:") tenant) (perms_key tenant' user) ≡ true
    → tenant ≡ tenant'
unfolding tenant_prefix perms_key starts_with
tenant_perms_prefix t t' u ht ht' e = (starts_with_cut t t' [] u ht ht' e).0

pub tenant_authz_prefix :
    (tenant tenant' user permission type id : Text)
    → NoColon tenant
    → NoColon tenant'
    → starts_with (tenant_prefix (lit "authz:") tenant) (authz_key tenant' user permission type id)
      ≡ true
    → tenant ≡ tenant'
unfolding tenant_prefix authz_key starts_with
tenant_authz_prefix t t' u p y i ht ht' e = (starts_with_cut t t' [] _ ht ht' e).0

pub tenant_perms_prefix_self :
    (tenant user : Text)
    → starts_with (tenant_prefix (lit "perms:") tenant) (perms_key tenant user) ≡ true
unfolding tenant_prefix perms_key
tenant_perms_prefix_self t u =
    let whole : perms_key t u ≡ tenant_prefix (lit "perms:") t ++ u = simp append_assoc in
    rw whole (starts_with-append (tenant_prefix (lit "perms:") t) u)

pub tenant_authz_prefix_self :
    (tenant user permission type id : Text)
    → starts_with (tenant_prefix (lit "authz:") tenant) (authz_key tenant user permission type id)
      ≡ true
unfolding tenant_prefix authz_key
tenant_authz_prefix_self t u p y i =
    let rest = u ++ (lit ":" ++ (p ++ (lit ":" ++ (y ++ (lit ":" ++ i))))) in
    let whole : authz_key t u p y i ≡ tenant_prefix (lit "authz:") t ++ rest = simp append_assoc in
    rw whole (starts_with-append (tenant_prefix (lit "authz:") t) rest)

-- Keys of two kinds are never the same.
pub authz_key-ne-perms_key : (t u p y i t' u' : Text) → ¬ (authz_key t u p y i ≡ perms_key t' u')
unfolding authz_key perms_key
authz_key-ne-perms_key t u p y i t' u' e = ground arith

pub authz_key-ne-acl_key :
    (t u p y i t' u' y' i' p' : Text) → ¬ (authz_key t u p y i ≡ acl_key t' u' y' i' p')
unfolding authz_key acl_key
authz_key-ne-acl_key t u p y i t' u' y' i' p' e = ground arith

pub perms_key-ne-acl_key : (t u t' u' y i p : Text) → ¬ (perms_key t u ≡ acl_key t' u' y i p)
unfolding perms_key acl_key
perms_key-ne-acl_key t u t' u' y i p e = ground arith
