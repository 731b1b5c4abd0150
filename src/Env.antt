-- ===== src/Env.antt =====
-- What the program calls and does not contain: TypeORM's repositories over PostgreSQL, the cache
-- store behind cache-manager with Redis' SCAN, bcrypt, the JWT library, uuid and crypto, and the
-- configuration. Each is an operation with the documented facts that the program relies on.
use generic_iam.Prelude.{
  ℕ, ◌≡◌, refl, ◌⊎◌, inl, inr, ◌≤◌, Text, lit, Bool, true, false, ◌&&◌, ◌||◌, not, Option, none,
  some, List, ◌++◌, ◌==◌, any, starts_with, has, length,
}
use generic_iam.Errors.{QueryError}

-- A cached value: a decision, or a set of permissions (stored as an array).
pub data CacheValue : Type 0 where
  flag : Bool → CacheValue
  perms : List Text → CacheValue

abbrev pub CacheStore : Type 0
CacheStore = List (Text × CacheValue)

-- `repository.save(r)`: the new rows, or the error of the database.
pub data Saved (A : Type 0) : Type 0 where
  saved : List A → Saved A
  failed : QueryError → Saved A

-- The claims of a token.
pub record JwtPayload : Type 0 where
  pub sub : Text
  pub email : Option Text
  pub tenant_id : Option Text
  pub identity_type : Text
  pub impersonator_id : Option Text

pub Saved-cases :
    {A : Type 0} (s : Saved A)
    → ((rows : List A) × (s ≡ saved rows)) ⊎ ((e : QueryError) × (s ≡ failed e))
Saved-cases (saved rows) = inl (rows, refl)
Saved-cases (failed e) = inr (e, refl)

-- A text is `literal` when Redis' glob patterns see no operator in it, as in a uuid: all but `*`,
-- `?`, `[`, `]` and the backslash.
pub record Env : Type 1 where
  -- `repository.findOne`, `find`, `count`, a page of `findAndCount`, `save` and `delete`
  pub find_one : {A : Type 0} → (A → Bool) → List A → Option A
  pub find : {A : Type 0} → (A → Bool) → List A → List A
  pub count : {A : Type 0} → (A → Bool) → List A → ℕ
  pub page : {A : Type 0} → (A → Bool) → ℕ → ℕ → List A → List A
  pub save : {A : Type 0} → (A → Text) → A → List A → Saved A
  pub delete : {A : Type 0} → (A → Bool) → List A → List A
  pub find_one_some :
      {A : Type 0} (p q : A → Bool) (rows : List A) (r : A)
      → find_one p rows ≡ some r
      → q r ≡ true
      → (p r ≡ true) × (any q rows ≡ true)
  pub find_one_none :
      {A : Type 0} (p : A → Bool) (rows : List A) → find_one p rows ≡ none → any p rows ≡ false
  pub any_find :
      {A : Type 0} (p q : A → Bool) (rows : List A)
      → any q (find p rows) ≡ any (λ r. q r && p r) rows
  pub count_pos :
      {A : Type 0} (p : A → Bool) (rows : List A)
      → (count p rows ≡ 0 → any p rows ≡ false) × (any p rows ≡ false → count p rows ≡ 0)
  pub page_within :
      {A : Type 0} (p : A → Bool) (skip limit : ℕ) (rows : List A)
      → length (page p skip limit rows) ≤ limit
  pub any_page :
      {A : Type 0} (p q : A → Bool) (skip limit : ℕ) (rows : List A)
      → any q (page p skip limit rows) ≡ true
      → any (λ r. q r && p r) rows ≡ true
  pub any_save :
      {A : Type 0} (key : A → Text) (r : A) (rows rows' : List A) (q : A → Bool)
      → save key r rows ≡ saved rows'
      → any q rows' ≡ (q r || any (λ s. q s && not (key s == key r)) rows)
  pub any_delete :
      {A : Type 0} (p q : A → Bool) (rows : List A)
      → any q (delete p rows) ≡ any (λ r. q r && not (p r)) rows
  -- the cache: an entry may also vanish at any time, so the facts go one way
  pub cache_get : Text → CacheStore → Option CacheValue
  pub cache_set : Text → CacheValue → ℕ → CacheStore → CacheStore
  pub cache_del : Text → CacheStore → CacheStore
  pub cache_scan : Text → CacheStore → List Text
  pub get_set :
      (j k : Text) (v x : CacheValue) (ttl : ℕ) (c : CacheStore)
      → cache_get j (cache_set k v ttl c) ≡ some x
      → ((k ≡ j) × (v ≡ x)) ⊎ (cache_get j c ≡ some x)
  -- a value that was set replaces the one before
  pub get_set_same :
      (k : Text) (v x : CacheValue) (ttl : ℕ) (c : CacheStore)
      → cache_get k (cache_set k v ttl c) ≡ some x
      → v ≡ x
  pub get_del :
      (j k : Text) (x : CacheValue) (c : CacheStore)
      → cache_get j (cache_del k c) ≡ some x
      → ((k == j) ≡ false) × (cache_get j c ≡ some x)
  -- deleting touches no other key
  pub get_del_ne :
      (j k : Text) (c : CacheStore) → (k == j) ≡ false → cache_get j (cache_del k c) ≡ cache_get j c
  -- MATCH p* finds the keys that are there and begin with p, where p holds no operator
  pub literal : Text → Bool
  pub scan_prefix :
      (p j : Text) (x : CacheValue) (c : CacheStore)
      → literal p ≡ true
      → cache_get j c ≡ some x
      → starts_with p j ≡ true
      → has (cache_scan (p ++ lit "*") c) j ≡ true
  pub scan_only :
      (p j : Text) (c : CacheStore)
      → literal p ≡ true
      → has (cache_scan (p ++ lit "*") c) j ≡ true
      → starts_with p j ≡ true
  -- bcrypt: hash (salt, plain text, rounds), and the comparison
  pub bcrypt_hash : ℕ → Text → ℕ → Text
  pub bcrypt_compare : Text → Text → Bool
  pub compare_hash :
      (salt : ℕ) (plain : Text) (rounds : ℕ)
      → bcrypt_compare plain (bcrypt_hash salt plain rounds) ≡ true
  -- jwtService.sign and jwt.verify; uuid, and crypto.randomBytes in hexadecimal
  pub sign : JwtPayload → ℕ → Text
  pub verify : Text → Option JwtPayload
  pub uuid : ℕ → Text
  pub random_hex : ℕ → Text
  -- configuration
  pub access_ttl : Option ℕ
  pub refresh_ttl : Option ℕ
  pub impersonation_ttl : Option ℕ
  pub cache_ttl_ms : Option ℕ
