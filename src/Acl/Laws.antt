-- ===== src/Acl/Laws.antt =====
-- Laws of the entries of the ACL in src/modules/acl/acl.service.ts.
use generic_iam.Prelude.{
  Text, ◌≡◌, Bool, true, false, ◌&&◌, not, ◌==◌, ==_eq, ==_refl, any, arith, Option-cases, inl, inr,
}
use generic_iam.Entities.{ResourceAclEntity}
use generic_iam.Errors.{ok}
use generic_iam.Env.{Env, Saved-cases}
use generic_iam.App.{World, Done, acls}
use generic_iam.Rows.{found_passes, found_there, any_delete-inside, any_delete-outside}
use generic_iam.Acl.{CreateAclDto, same_entry, create_acl, delete_acl}

module _ ⦃env : Env⦄ where
  abbrev pub new_entry : Text → CreateAclDto → World → ResourceAclEntity
  new_entry tenant dto w = record {
    owner = record {
      base = record { id = env.uuid w.drawn; created_at = w.now };
      tenant_id = tenant;
    };
    user_id = dto.user_id;
    resource_type = dto.resource_type;
    resource_id = dto.resource_id;
    permission = dto.permission;
  }

  -- After a creation that succeeds the ACL has the entry that was asked for.
  pub create_acl-ok :
      (tenant actor : Text) (dto : CreateAclDto) (w : World) (r : ResourceAclEntity)
      → (create_acl tenant dto actor w).0 ≡ ok r
      → any (same_entry tenant dto) (create_acl tenant dto actor w).1.db.acls ≡ true
  unfolding create_acl
  create_acl-ok tenant actor dto w r h =
      elim (Option-cases (env.find_one (same_entry tenant dto) w.db.acls)) [
        | inr (a, f) ↦ ground (
          arith,
          found_passes (same_entry tenant dto) w.db.acls a,
          found_there (same_entry tenant dto) (same_entry tenant dto) w.db.acls a,
        )
        | inl n ↦ elim (Saved-cases (env.save acls.key (new_entry tenant dto w) w.db.acls)) [
          | inl (rows, v) ↦ ground (
            arith,
            env.any_save acls.key (new_entry tenant dto w) w.db.acls rows (same_entry tenant dto),
            ==_refl tenant,
            ==_refl dto.user_id,
            ==_refl dto.resource_type,
            ==_refl dto.resource_id,
            ==_refl dto.permission,
          )
          | inr (e, v) ↦ ground arith
        ]
      ]

  -- Creating an entry that is there changes nothing: it comes back as it is, and no message is sent.
  pub create_acl-again :
      (tenant actor : Text) (dto : CreateAclDto) (w : World)
      → any (same_entry tenant dto) w.db.acls ≡ true
      → (create_acl tenant dto actor w).1 ≡ w
  unfolding create_acl
  create_acl-again tenant actor dto w h =
      elim (Option-cases (env.find_one (same_entry tenant dto) w.db.acls)) [
        | inl n ↦ ground (arith, env.find_one_none (same_entry tenant dto) w.db.acls n)
        | inr (a, f) ↦ ground arith
      ]

  -- A deletion succeeds only for an entry of the tenant; then no entry has its id, and the others
  -- are as before.
  pub delete_acl_lem :
      (id tenant actor : Text) (w : World) (d : Done) (q : ResourceAclEntity → Bool)
      → (delete_acl id tenant actor w).0 ≡ ok d
      → (any (λ a. a.id == id && a.tenant_id == tenant) w.db.acls ≡ true)
        × ((any (λ a. a.id == id) (delete_acl id tenant actor w).1.db.acls ≡ false)
            × (any (λ a. q a && not (a.id == id)) (delete_acl id tenant actor w).1.db.acls
                ≡ any (λ a. q a && not (a.id == id)) w.db.acls))
  unfolding delete_acl
  delete_acl_lem id tenant actor w d q h =
      elim (Option-cases (env.find_one (λ a. a.id == id && a.tenant_id == tenant) w.db.acls)) [
        | inl n ↦ ground arith
        | inr (a, f) ↦ ground (
          arith,
          found_passes (λ x. x.id == id && x.tenant_id == tenant) w.db.acls a,
          found_there (λ x. x.id == id && x.tenant_id == tenant)
              (λ x. x.id == id && x.tenant_id == tenant) w.db.acls a,
          ==_eq a.id id,
          any_delete-inside (λ x. x.id == id) (λ x. x.id == id) w.db.acls (λ x e. e),
          any_delete-outside (λ x. x.id == id) (λ x. q x && not (x.id == id)) w.db.acls
              (λ x e. ground arith),
        )
      ]
