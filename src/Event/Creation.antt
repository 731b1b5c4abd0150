-- ===== src/Event/Creation.antt =====
-- The creation of an entry in src/modules/acl/acl.service.ts, and the handling of its message in
-- src/event/event.consumer.ts.
use generic_iam.Prelude.{
  Text, ◌≡◌, refl, ◌∙◌, true, false, List, [], ◌∷◌, ◌+◌, ◌++◌, ◌==◌, ==_eq, ==_refl, any,
  any_without, arith, Option-cases, append_assoc, inl, inr,
}
use generic_iam.Entities.{Db, ResourceAclEntity}
use generic_iam.Errors.{ok}
use generic_iam.Rows.{found_passes, found_there}
use generic_iam.Env.{Env, Saved-cases, saved}
use generic_iam.App.{World, Emitted, message, acls}
use generic_iam.Constants.{iam_audit, iam_acl_changed, acl_created}
use generic_iam.Json.{value_of}
use generic_iam.Rbac.Override.Reads.{effective_in-acls}
use generic_iam.Acl.{CreateAclDto, same_entry, create_acl, changed_event, audit_event}
use generic_iam.Acl.Laws.{new_entry}
use generic_iam.Authorization.Coherence.{IsCoherent, entry}
use generic_iam.Event.{handle_acl_changed, on_message, receive}
use generic_iam.Event.Entries.{
  is_entry, is_filled, announcement, SameButEntry, forgotten, handle_acl_changed_eq,
  handle_acl_changed-IsCoherent,
}

module _ ⦃env : Env⦄ where
  -- Inserting a row with a fresh id changes the answers about its entry only.
  inserted-SameButEntry :
      (tenant : Text) (dto : CreateAclDto) (w : World) (rows : List ResourceAclEntity)
      → any (λ a. a.id == env.uuid w.drawn) w.db.acls ≡ false
      → env.save acls.key (new_entry tenant dto w) w.db.acls ≡ saved rows
      → SameButEntry tenant dto w.now w.db (record w.db { acls = rows })
  inserted-SameButEntry tenant dto w rows fresh s = record {
    effective = λ t u. effective_in-acls w.db rows w.now u t;
    others = λ t u y i p n. ground (
      arith,
      env.any_save acls.key (new_entry tenant dto w) w.db.acls rows (same_entry t (entry u y i p))
          s,
      any_without (same_entry t (entry u y i p)) (λ a. a.id == env.uuid w.drawn) w.db.acls fresh,
      not_new tenant dto w t u y i p n,
    );
  }
    where
      not_new :
          (tenant : Text) (dto : CreateAclDto) (w : World) (t u y i p : Text)
          → is_entry tenant dto t u y i p ≡ false
          → same_entry t (entry u y i p) (new_entry tenant dto w) ≡ false
      not_new tenant dto w t u y i p n = ground (
        arith,
        ==_eq tenant t,
        ==_eq dto.user_id u,
        ==_eq dto.resource_type y,
        ==_eq dto.resource_id i,
        ==_eq dto.permission p,
        ==_refl t,
        ==_refl u,
        ==_refl y,
        ==_refl i,
        ==_refl p,
      )

  -- What a creation sends.
  abbrev sent_by : Text → Text → ResourceAclEntity → World → List Emitted
  sent_by tenant actor a w =
      message iam_acl_changed (changed_event acl_created tenant a)
        (record w { drawn = w.drawn + 1 })
      ∷ message iam_audit (audit_event acl_created tenant actor a)
          (record w { drawn = w.drawn + 1 + 1 })
      ∷ []

  -- The consumer handles the first of the messages, and passes over the second.
  received :
      (tenant actor : Text) (dto : CreateAclDto) (w w' : World)
      → receive (sent_by tenant actor (new_entry tenant dto w) w) w'
        ≡ (handle_acl_changed (announcement tenant dto) w').1
  unfolding receive on_message value_of ◌==◌
  received tenant actor dto w w' = refl

  -- The message is handled in a later state of the same cache.
  handled :
      (tenant : Text) (e : CreateAclDto) (w' w : World) (db' : Db)
      → is_filled tenant e ≡ true
      → w'.db ≡ db'
      → w'.cache ≡ w.cache
      → IsCoherent db' w.now (forgotten tenant e w.cache)
      → IsCoherent w'.db w.now (handle_acl_changed (announcement tenant e) w').1.cache
  handled tenant e w' w db' f s k h = rw (handle_acl_changed_eq tenant e w' f, s, k) h

  -- Creating an entry that is not there, with a fresh id and no empty text, if it succeeds: once the
  -- consumer has received the messages that the creation sent, the cache agrees with the new tables,
  -- provided that it agreed with the old ones. A refusal that was cached for the entry is forgotten.
  pub create_acl-announced :
      (tenant actor : Text) (dto : CreateAclDto) (w : World) (r : ResourceAclEntity)
      → is_filled tenant dto ≡ true
      → any (λ a. a.id == env.uuid w.drawn) w.db.acls ≡ false
      → any (same_entry tenant dto) w.db.acls ≡ false
      → IsCoherent w.db w.now w.cache
      → (create_acl tenant dto actor w).0 ≡ ok r
      → (sent : List Emitted) × ((create_acl tenant dto actor w).1.events ≡ w.events ++ sent)
        × IsCoherent
            (create_acl tenant dto actor w).1.db
            w.now
            (receive sent (create_acl tenant dto actor w).1).cache
  unfolding create_acl
  create_acl-announced tenant actor dto w r f fresh new h o =
      elim (Option-cases (env.find_one (same_entry tenant dto) w.db.acls)) [
        | inr (a, g) ↦ ground (
          arith,
          found_passes (same_entry tenant dto) w.db.acls a,
          found_there (same_entry tenant dto) (same_entry tenant dto) w.db.acls a,
        )
        | inl n ↦ elim (Saved-cases (env.save acls.key (new_entry tenant dto w) w.db.acls)) [
          | inr (e, v) ↦ ground arith
          | inl (rows, v) ↦
              let w' = (create_acl tenant dto actor w).1 in
              let c : IsCoherent (record w.db { acls = rows }) w.now
                  (forgotten tenant dto w.cache) =
                rw (handle_acl_changed_eq tenant dto w f) at (
                  handle_acl_changed-IsCoherent tenant dto w (record w.db { acls = rows }) f h
                    (inserted-SameButEntry tenant dto w rows fresh v)) in
              let first =
                message iam_acl_changed (changed_event acl_created tenant (new_entry tenant dto w))
                  (record w { drawn = w.drawn + 1 }) in
              let second =
                message iam_audit (audit_event acl_created tenant actor (new_entry tenant dto w))
                  (record w { drawn = w.drawn + 1 + 1 }) in
              let grown : w'.events ≡ (w.events ++ first ∷ []) ++ second ∷ [] = ground arith in
              (
                sent_by tenant actor (new_entry tenant dto w) w,
                grown ∙ append_assoc w.events (first ∷ []) (second ∷ []),
                rw (received tenant actor dto w w') (
                    handled tenant dto w' w (record w.db { acls = rows }) f (ground arith)
                      (ground arith) c),
              )
        ]
      ]
