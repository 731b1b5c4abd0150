-- ===== src/App.antt =====
-- What a request works on, and the monad of the services: the state comes back beside an exception
-- too, since what was written or emitted before a `throw` stays. `emit` is EventProducer.emit of
-- src/event/event.producer.ts; the repositories are those of the tables in `Db`.
use generic_iam.Prelude.{
  ℕ, ◌+◌, ◌-◌, ◌*◌, Text, lit, Bool, true, false, ◌&&◌, not, ltb, if◌then◌else◌, Option, none, some,
  List, [], ◌∷◌, ◌++◌, ◌==◌,
}
use generic_iam.Entities
use generic_iam.Entities.{Db, BaseEntity}
use generic_iam.Constants.{Topic, AuditEventType}
use generic_iam.Errors.{Exception, query_failed, negative_offset, Result, ok, err}
use generic_iam.Env.{Env, CacheStore, Saved, saved, failed}
use generic_iam.Json.{Fields}

pub record BaseEvent : Type 0 where
  pub event_type : AuditEventType
  pub tenant_id : Option Text
  pub actor_id : Option Text
  pub resource_type : Option Text
  pub resource_id : Option Text
  pub user_id : Option Text
  pub payload : Fields

-- A message as the Kafka client is given it.
pub record Emitted : Type 0 where
  pub topic : Topic
  pub key : Text
  pub event_id : Text
  pub timestamp : ℕ
  pub event : BaseEvent

-- The database as the request's transaction sees it, the cache, the messages emitted so far, the
-- clock in milliseconds, and the number of random values drawn.
pub record World : Type 0 where
  pub db : Db
  pub cache : CacheStore
  pub events : List Emitted
  pub now : ℕ
  pub drawn : ℕ

abbrev pub App : Type 0 → Type 0
App A = World → Result A × World

abbrev pub Done : Type 0
Done = Unit {0}

module _ {A : Type 0} where
  abbrev pub pure : A → App A
  pure a w = (ok a, w)

  abbrev pub raise : Exception → App A
  raise e w = (err e, w)

  -- `if (!found) throw e`
  abbrev pub or_raise : Option A → Exception → App A
  or_raise none e = raise e
  or_raise (some a) e = pure a

abbrev pub gets : {A : Type 0} → (World → A) → App A
gets f w = (ok (f w), w)

infixl 5 ◌>>=◌ ◌>>◌
abbrev pub ◌>>=◌ : {A B : Type 0} → App A → (A → App B) → App B
◌>>=◌ m f w = let (r, w') = m w in elim r [ ok a ↦ f a w' | err e ↦ (err e, w') ]

abbrev pub ◌>>◌ : {A B : Type 0} → App A → App B → App B
m >> k = m >>= λ _. k

-- `if (c) throw e`
abbrev pub raise_if : Bool → Exception → App Done
raise_if true e w = (err e, w)
raise_if false e w = (ok tt, w)

-- `if (c) { m }`
abbrev pub when : Bool → App Done → App Done
when true m w = m w
when false m w = (ok tt, w)

-- `for (const x of xs) { body }`
unfoldable pub for_each : {A : Type 0} → List A → (A → App Done) → App Done
for_each [] body w = (ok tt, w)
for_each (x ∷ xs) body w =
    let (r, w') = body x w in elim r [ ok a ↦ for_each xs body w' | err e ↦ (err e, w') ]

-- A table as the repository of its entity.
pub record Repository (A : Type 0) : Type 0 where
  pub rows : Db → List A
  pub put : List A → Db → Db
  pub key : A → Text

abbrev pub tenants : Repository Entities.TenantEntity
tenants = record { rows = λ d. d.tenants; put = λ l d. record d { tenants = l }; key = λ r. r.id }

abbrev pub users : Repository Entities.UserEntity
users = record { rows = λ d. d.users; put = λ l d. record d { users = l }; key = λ r. r.id }

abbrev pub super_admins : Repository Entities.SuperAdminEntity
super_admins = record {
  rows = λ d. d.super_admins;
  put = λ l d. record d { super_admins = l };
  key = λ r. r.id;
}

abbrev pub refresh_tokens : Repository Entities.RefreshTokenEntity
refresh_tokens = record {
  rows = λ d. d.refresh_tokens;
  put = λ l d. record d { refresh_tokens = l };
  key = λ r. r.id;
}

abbrev pub roles : Repository Entities.RoleEntity
roles = record { rows = λ d. d.roles; put = λ l d. record d { roles = l }; key = λ r. r.id }

abbrev pub user_roles : Repository Entities.UserRoleEntity
user_roles = record {
  rows = λ d. d.user_roles;
  put = λ l d. record d { user_roles = l };
  key = λ r. r.id;
}

abbrev pub permissions : Repository Entities.PermissionEntity
permissions = record {
  rows = λ d. d.permissions;
  put = λ l d. record d { permissions = l };
  key = λ r. r.id;
}

abbrev pub role_permissions : Repository Entities.RolePermissionEntity
role_permissions = record {
  rows = λ d. d.role_permissions;
  put = λ l d. record d { role_permissions = l };
  key = λ r. r.id;
}

abbrev pub overrides : Repository Entities.UserPermissionOverrideEntity
overrides = record {
  rows = λ d. d.overrides;
  put = λ l d. record d { overrides = l };
  key = λ r. r.id;
}

abbrev pub acls : Repository Entities.ResourceAclEntity
acls = record { rows = λ d. d.acls; put = λ l d. record d { acls = l }; key = λ r. r.id }

module _ ⦃env : Env⦄ {A : Type 0} (repo : Repository A) where
  abbrev pub find_one : (A → Bool) → App (Option A)
  find_one p w = (ok (env.find_one p (repo.rows w.db)), w)

  abbrev pub find : (A → Bool) → App (List A)
  find p w = (ok (env.find p (repo.rows w.db)), w)

  abbrev pub count : (A → Bool) → App ℕ
  count p w = (ok (env.count p (repo.rows w.db)), w)

  -- `findAndCount({ where, skip: (page - 1) * limit, take: limit })`: for page zero the offset is
  -- negative, which the database rejects.
  abbrev pub find_and_count : (A → Bool) → ℕ → ℕ → App (List A × ℕ)
  find_and_count p page limit w =
      if not (ltb 0 page) && ltb 0 limit then (err (query_failed negative_offset), w) else (
        ok (env.page p ((page - 1) * limit) limit (repo.rows w.db), env.count p (repo.rows w.db)),
        w,
      )

  abbrev save_result : A → World → Saved A → Result A × World
  save_result r w (saved rows) = (ok r, record w { db = repo.put rows w.db })
  save_result r w (failed e) = (err (query_failed e), w)

  abbrev pub save : A → App A
  save r w = save_result r w (env.save repo.key r (repo.rows w.db))

  abbrev pub delete : (A → Bool) → App Done
  delete p w = (ok tt, record w { db = repo.put (env.delete p (repo.rows w.db)) w.db })

  -- `remove(entity)` deletes by the primary key
  abbrev pub remove : A → App Done
  remove r = delete (λ s. repo.key s == repo.key r)

module _ ⦃env : Env⦄ where
  -- What the database fills in when a row is inserted.
  abbrev pub fresh_base : App BaseEntity
  fresh_base w =
      (ok (record { id = env.uuid w.drawn; created_at = w.now }), record w { drawn = w.drawn + 1 })

  abbrev or_system : Option Text → Text
  or_system none = lit "system"
  or_system (some t) = t

  abbrev or_actor : Option Text → Option Text → Text
  or_actor none none = lit "unknown"
  or_actor none (some a) = a
  or_actor (some u) a = u

  pub event_key : BaseEvent → Text
  event_key e = or_system e.tenant_id ++ lit ":" ++ or_actor e.user_id e.actor_id

  abbrev pub message : Topic → BaseEvent → World → Emitted
  message t e w = record {
    topic = t;
    key = event_key e;
    event_id = env.uuid w.drawn;
    timestamp = w.now;
    event = e;
  }

  abbrev pub emit : Topic → BaseEvent → App Done
  emit t e w = (ok tt, record w { events = w.events ++ message t e w ∷ []; drawn = w.drawn + 1 })
