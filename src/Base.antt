-- ===== src/Base.antt =====
-- src/common/base/base.service.ts, for the entity of any repository.
use generic_iam.Prelude.{ℕ, Text, Bool, List, ◌==◌}
use generic_iam.Errors.{plain, not_found}
use generic_iam.Env.{Env}
use generic_iam.App.{
  App, Done, Repository, find, find_and_count, save, remove, pure, or_raise, ◌>>=◌, ◌>>◌,
}
use generic_iam.App
use generic_iam.Rbac.Role.{Paginated}

module _ ⦃env : Env⦄ {A : Type 0} (repo : Repository A) where
  unfoldable pub find_all : (A → Bool) → App (List A)
  find_all options = find repo options

  unfoldable pub find_paginated : (A → Bool) → ℕ → ℕ → App (Paginated A)
  find_paginated options page limit = do
    found ← find_and_count repo options page limit
    pure (record { items = found.0; total = found.1; page = page; limit = limit })

  unfoldable pub find_one : (A → Bool) → App A
  find_one options = do
    entity ← App.find_one repo options
    or_raise entity (not_found (plain "Entity not found"))

  -- `create(dto)` builds the entity, which is then saved.
  unfoldable pub create : A → App A
  create entity = save repo entity

  -- `merge` is the change that the caller's dto makes to the entity.
  unfoldable pub update : Text → (A → A) → App A
  unfolding find_one
  update id merge = do entity ← find_one (λ r. repo.key r == id); save repo (merge entity)

  unfoldable pub remove_by_id : Text → App Done
  unfolding find_one
  remove_by_id id = do entity ← find_one (λ r. repo.key r == id); remove repo entity
