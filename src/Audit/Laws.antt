-- ===== src/Audit/Laws.antt =====
-- Laws of the audit log of src/modules/audit/audit.service.ts.
use generic_iam.Prelude.{
  ℕ, suc, ◌+◌, Text, ◌≡◌, refl, Bool, false, List, [], ◌∷◌, ◌++◌, append_assoc, append-nil, length,
  arith, ap, ◌∙◌, sym,
}
use generic_iam.Audit.{
  AuditEventPayload, AuditLogEntity, AuditLog, entity_of, entities, flush_batch, deliver,
}

abbrev pub concatenated : List (List AuditEventPayload) → List AuditEventPayload
concatenated [] = []
concatenated (b ∷ bs) = b ++ concatenated bs

length-append : {A : Type 0} (xs ys : List A) → length (xs ++ ys) ≡ length xs + length ys
length-append [] ys = omega arith
length-append (x ∷ xs) ys = omega (arith, length-append xs ys)

plus_zero : (n : ℕ) → n ≡ n + 0
plus_zero n = omega arith

plus_suc : (n m : ℕ) → suc n + m ≡ n + suc m
plus_suc n m = omega arith

module _ (uuid : ℕ → Text) (fails : List AuditLogEntity → Bool) (now : ℕ) where
  length-entities :
      (n : ℕ) (es : List AuditEventPayload) → length (entities uuid fails now n es) ≡ length es
  unfolding entities
  length-entities n [] = refl
  length-entities n (e ∷ es) = omega (arith, length-entities (suc n) es)

  entities-append :
      (n : ℕ) (xs ys : List AuditEventPayload)
      → entities uuid fails now n (xs ++ ys)
        ≡ entities uuid fails now n xs ++ entities uuid fails now (n + length xs) ys
  unfolding entities
  entities-append n [] ys = ap (λ m. entities uuid fails now m ys) (plus_zero n)
  entities-append n (x ∷ xs) ys =
      ap (λ l. entity_of (uuid n) now x ∷ l)
        (entities-append (suc n) xs ys
          ∙ ap (λ m. entities uuid fails now (suc n) xs ++ entities uuid fails now m ys)
              (plus_suc n (length xs)))

  -- The log after a batch that was inserted.
  abbrev after : List AuditEventPayload → AuditLog → AuditLog
  after batch log = record log {
    rows = log.rows ++ entities uuid fails now (length log.rows) batch;
  }

  flush_batch-accounts :
      (batch : List AuditEventPayload) (log : AuditLog)
      → length (flush_batch uuid fails now batch log).rows
          + (flush_batch uuid fails now batch log).lost
        ≡ (length log.rows + log.lost) + length batch
  unfolding flush_batch
  flush_batch-accounts batch log = ground (
    arith,
    length-append log.rows (entities uuid fails now (length log.rows) batch),
    length-entities (length log.rows) batch,
  )

  -- If no insertion fails, the table gets the rows of all the events in their order, however they
  -- were cut into batches, and nothing is lost.
  pub deliver_lem :
      (batches : List (List AuditEventPayload)) (log : AuditLog)
      → ((rows : List AuditLogEntity) → fails rows ≡ false)
      → ((deliver uuid fails now batches log).rows
          ≡ log.rows ++ entities uuid fails now (length log.rows) (concatenated batches))
        × ((deliver uuid fails now batches log).lost ≡ log.lost)
  unfolding deliver flush_batch entities
  deliver_lem [] log h = (sym (append-nil log.rows), refl)
  deliver_lem ([] ∷ batches) log h = deliver_lem batches log h
  deliver_lem ((e ∷ es) ∷ batches) log h = ground (
    arith,
    deliver_lem batches (after (e ∷ es) log) h,
    h (entities uuid fails now (length log.rows) (e ∷ es)),
    entities-append (length log.rows) (e ∷ es) (concatenated batches),
    append_assoc log.rows (entities uuid fails now (length log.rows) (e ∷ es))
        (entities uuid fails now (length log.rows + length (e ∷ es)) (concatenated batches)),
    length-append log.rows (entities uuid fails now (length log.rows) (e ∷ es)),
    length-entities (length log.rows) (e ∷ es),
  )

  -- Whichever insertions fail, each event that was delivered is one more row or one more lost event.
  pub deliver-accounts :
      (batches : List (List AuditEventPayload)) (log : AuditLog)
      → length (deliver uuid fails now batches log).rows + (deliver uuid fails now batches log).lost
        ≡ (length log.rows + log.lost) + length (concatenated batches)
  unfolding deliver
  deliver-accounts [] log = omega arith
  deliver-accounts ([] ∷ batches) log = deliver-accounts batches log
  deliver-accounts ((e ∷ es) ∷ batches) log = ground (
    arith,
    deliver-accounts batches (flush_batch uuid fails now (e ∷ es) log),
    flush_batch-accounts (e ∷ es) log,
    length-append (e ∷ es) (concatenated batches),
  )
