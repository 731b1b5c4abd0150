-- ===== src/Sample.antt =====
-- A concrete environment for the tests: tables and caches as lists, searched from the front. It
-- shows that the facts that `Env` states can hold together.
use generic_iam.Prelude.{
  ℕ, ◌≡◌, refl, ◌⊎◌, inl, inr, ◌≤◌, Text, lit, Bool, true, false, ◌&&◌, ◌||◌, not, Option, none,
  some, List, [], ◌∷◌, ◌++◌, ◌==◌, ==_eq, ==_refl, Bool-cases, any, any-append, any-select, select,
  first, first-some, first-none, starts_with, has, length, take, drop, arith, if◌then◌else◌, suc,
  zero,
}
use generic_iam.Env.{Env, JwtPayload, CacheStore, CacheValue, Saved, saved}
use generic_iam.Entities.{empty_db}
use generic_iam.App.{World}

abbrev pub count_rows : {A : Type 0} → (A → Bool) → List A → ℕ
count_rows p rows = length (select p rows)

abbrev pub page_rows : {A : Type 0} → (A → Bool) → ℕ → ℕ → List A → List A
page_rows p skip limit rows = take limit (drop skip (select p rows))

abbrev pub delete_rows : {A : Type 0} → (A → Bool) → List A → List A
delete_rows p rows = select (λ r. not (p r)) rows

abbrev pub save_row : {A : Type 0} → (A → Text) → A → List A → Saved A
save_row key r rows = saved (delete_rows (λ s. key s == key r) rows ++ r ∷ [])

pub count_rows_lem :
    {A : Type 0} (p : A → Bool) (rows : List A)
    → (count_rows p rows ≡ 0 → any p rows ≡ false) × (any p rows ≡ false → count_rows p rows ≡ 0)
unfolding any select
count_rows_lem p [] = (λ h. refl, λ h. refl)
count_rows_lem p (r ∷ rows) = ground (arith, count_rows_lem p rows)

length-take : {A : Type 0} (n : ℕ) (xs : List A) → length (take n xs) ≤ n
length-take zero xs = omega arith
length-take (suc n) [] = omega arith
length-take (suc n) (x ∷ xs) = omega (arith, length-take n xs)

any-take :
    {A : Type 0} (q : A → Bool) (n : ℕ) (xs : List A) → any q (take n xs) ≡ true → any q xs ≡ true
unfolding any
any-take q zero xs h = ground arith
any-take q (suc n) [] h = ground arith
any-take q (suc n) (x ∷ xs) h = ground (arith, any-take q n xs)

any-drop :
    {A : Type 0} (q : A → Bool) (n : ℕ) (xs : List A) → any q (drop n xs) ≡ true → any q xs ≡ true
unfolding any
any-drop q zero xs h = h
any-drop q (suc n) [] h = h
any-drop q (suc n) (x ∷ xs) h = ground (arith, any-drop q n xs)

pub page_rows_lem :
    {A : Type 0} (p q : A → Bool) (skip limit : ℕ) (rows : List A)
    → any q (page_rows p skip limit rows) ≡ true
    → any (λ r. q r && p r) rows ≡ true
page_rows_lem p q skip limit rows h =
    rw (any-select p q rows) at
      (any-drop q skip (select p rows) (any-take q limit (drop skip (select p rows)) h))

pub page_length :
    {A : Type 0} (p : A → Bool) (skip limit : ℕ) (rows : List A)
    → length (page_rows p skip limit rows) ≤ limit
page_length p skip limit rows = length-take limit (drop skip (select p rows))

pub delete_rows_lem :
    {A : Type 0} (p q : A → Bool) (rows : List A)
    → any q (delete_rows p rows) ≡ any (λ r. q r && not (p r)) rows
delete_rows_lem p q rows = any-select (λ r. not (p r)) q rows

pub find_rows_lem :
    {A : Type 0} (p q : A → Bool) (rows : List A)
    → any q (select p rows) ≡ any (λ r. q r && p r) rows
find_rows_lem p q rows = any-select p q rows

pub save_row_lem :
    {A : Type 0} (key : A → Text) (r : A) (rows rows' : List A) (q : A → Bool)
    → save_row key r rows ≡ saved rows'
    → any q rows' ≡ (q r || any (λ s. q s && not (key s == key r)) rows)
unfolding any
save_row_lem key r rows rows' q h = ground (
  arith,
  any-append q (delete_rows (λ s. key s == key r) rows) (r ∷ []),
  delete_rows_lem (λ s. key s == key r) q rows,
)

unfoldable pub lookup : Text → CacheStore → Option CacheValue
lookup j [] = none
lookup j ((k, v) ∷ c) = if k == j then some v else lookup j c

unfoldable pub drop_key : Text → CacheStore → CacheStore
drop_key k [] = []
drop_key k ((l, v) ∷ c) = let rest = drop_key k c in if l == k then rest else (l, v) ∷ rest

-- The pattern without its last character.
unfoldable pub init : Text → Text
init [] = []
init (c ∷ []) = []
init (c ∷ d ∷ cs) = c ∷ init (d ∷ cs)

unfoldable pub keys_with : Text → CacheStore → List Text
keys_with p [] = []
keys_with p ((k, v) ∷ c) = let rest = keys_with p c in if starts_with p k then k ∷ rest else rest

init-append : (p : Text) → init (p ++ lit "*") ≡ p
unfolding init
init-append [] = refl
init-append (c ∷ []) = refl
init-append (c ∷ d ∷ p) = ground (arith, init-append (d ∷ p))

pub lookup-set_same :
    (k : Text) (v x : CacheValue) (ttl : ℕ) (c : CacheStore)
    → lookup k ((k, v) ∷ c) ≡ some x
    → v ≡ x
unfolding lookup
lookup-set_same k v x ttl c h = ground (arith, ==_refl k)

pub lookup-set :
    (j k : Text) (v x : CacheValue) (ttl : ℕ) (c : CacheStore)
    → lookup j ((k, v) ∷ c) ≡ some x
    → ((k ≡ j) × (v ≡ x)) ⊎ (lookup j c ≡ some x)
unfolding lookup
lookup-set j k v x ttl c h = elim (Bool-cases (k == j)) [
  | inl same ↦ inl (==_eq k j same, ground arith)
  | inr other ↦ inr (ground arith)
]

pub lookup-drop_key_ne :
    (j k : Text) (c : CacheStore) → (k == j) ≡ false → lookup j (drop_key k c) ≡ lookup j c
unfolding lookup drop_key
lookup-drop_key_ne j k [] h = refl
lookup-drop_key_ne j k ((l, v) ∷ c) h =
    ground (arith, lookup-drop_key_ne j k c h, ==_eq l k, ==_eq l j)

pub lookup-drop_key :
    (j k : Text) (x : CacheValue) (c : CacheStore)
    → lookup j (drop_key k c) ≡ some x
    → ((k == j) ≡ false) × (lookup j c ≡ some x)
unfolding lookup drop_key
lookup-drop_key j k x [] h = cc
lookup-drop_key j k x ((l, v) ∷ c) h =
    ground (arith, lookup-drop_key j k x c, ==_eq l k, ==_eq l j, ==_eq k j, ==_refl j)

scan_found :
    (p j : Text) (x : CacheValue) (c : CacheStore)
    → lookup j c ≡ some x
    → starts_with p j ≡ true
    → has (keys_with p c) j ≡ true
unfolding lookup keys_with has any
scan_found p j x [] h s = cc
scan_found p j x ((k, v) ∷ c) h s = ground (arith, scan_found p j x c, ==_eq k j)

scan_sound : (p j : Text) (c : CacheStore) → has (keys_with p c) j ≡ true → starts_with p j ≡ true
unfolding keys_with has any
scan_sound p j [] h = cc
scan_sound p j ((k, v) ∷ c) h = ground (arith, scan_sound p j c, ==_eq k j)

pub scan_prefix_lem :
    (p j : Text) (x : CacheValue) (c : CacheStore)
    → ◌≡◌ {A = Bool} true true
    → lookup j c ≡ some x
    → starts_with p j ≡ true
    → has (keys_with (init (p ++ lit "*")) c) j ≡ true
scan_prefix_lem p j x c l h s = rw (init-append p) (scan_found p j x c h s)

pub scan_only_lem :
    (p j : Text) (c : CacheStore)
    → ◌≡◌ {A = Bool} true true
    → has (keys_with (init (p ++ lit "*")) c) j ≡ true
    → starts_with p j ≡ true
scan_only_lem p j c l h = scan_sound p j c (rw (init-append p) at h)

pub compare_lem : (salt : ℕ) (secret : Text) (rounds : ℕ) → (secret == secret) ≡ true
compare_lem salt secret rounds = ==_refl secret

abbrev sample_claims : Text → JwtPayload
sample_claims token = record {
  sub = token;
  email = none;
  tenant_id = some (lit "t");
  identity_type = if token == lit "root" then lit "SUPER_ADMIN" else lit "USER";
  impersonator_id = none;
}

-- The hash of the sample keeps the text, a token is the subject of its claims, `root` is a super admin's, and a number makes a
-- text of one character.
instance abbrev pub sample_env : Env
sample_env = record {
  find_one = first;
  find = select;
  count = count_rows;
  page = page_rows;
  save = save_row;
  delete = delete_rows;
  find_one_some = first-some;
  find_one_none = first-none;
  any_find = find_rows_lem;
  count_pos = count_rows_lem;
  page_within = page_length;
  any_page = page_rows_lem;
  any_save = save_row_lem;
  any_delete = delete_rows_lem;
  cache_get = lookup;
  cache_set = λ k v ttl c. (k, v) ∷ c;
  cache_del = drop_key;
  cache_scan = λ p c. keys_with (init p) c;
  get_set = lookup-set;
  get_set_same = lookup-set_same;
  get_del = lookup-drop_key;
  get_del_ne = lookup-drop_key_ne;
  literal = λ p. true;
  scan_prefix = scan_prefix_lem;
  scan_only = scan_only_lem;
  bcrypt_hash = λ salt secret rounds. secret;
  bcrypt_compare = λ secret hash. secret == hash;
  compare_hash = compare_lem;
  sign = λ claims ttl. claims.sub;
  verify = λ token. some (sample_claims token);
  uuid = λ n. n ∷ [];
  random_hex = λ n. n ∷ [];
  access_ttl = none;
  refresh_ttl = none;
  impersonation_ttl = none;
  cache_ttl_ms = none;
}

abbrev pub empty_world : World
empty_world = record { db = empty_db; cache = []; events = []; now = 1000; drawn = 7 }
