-- ===== src/Audit.antt =====
-- src/modules/audit/audit.service.ts: events are pushed into a subject, come back as batches, and
-- each batch is written to the table by one insertion. Where rxjs cuts the stream of events into
-- batches is not the program's: the batches are any cutting of the events.
pub mod Laws
pub mod Query
use generic_iam.Prelude.{
  ℕ, suc, ◌+◌, Text, lit, Bool, true, false, ◌&&◌, Option, none, some, List, [], ◌∷◌, ◌++◌, length,
  leb, truthy, text_or, or_text, same_text, if◌then◌else◌,
}
use generic_iam.Json.{Json, Fields, text, field, optional}

pub record AuditEventPayload : Type 0 where
  pub event_type : Text
  pub tenant_id : Option Text
  pub actor_id : Option Text
  pub user_id : Option Text
  pub resource_type : Option Text
  pub resource_id : Option Text
  pub correlation_id : Option Text
  pub payload : Fields
  pub changes : Option Json

pub record AuditLogEntity : Type 0 where
  pub id : Text
  pub created_at : ℕ
  pub event_type : Text
  pub tenant_id : Option Text
  pub actor_id : Option Text
  pub actor_type : Text
  pub type_of_resource : Option Text
  pub id_of_resource : Option Text
  pub metadata : Fields
  pub changes : Option Json

abbrev actor_type_of : Option Text → Text
actor_type_of u = if truthy u then lit "user" else lit "system"

-- The row for an event; the fields of the payload come after the correlation id.
unfoldable pub entity_of : Text → ℕ → AuditEventPayload → AuditLogEntity
entity_of id now e = record {
  id = id;
  created_at = now;
  event_type = or_text e.event_type (lit "UNKNOWN");
  tenant_id = e.tenant_id;
  actor_id = e.actor_id;
  actor_type = actor_type_of e.user_id;
  type_of_resource = e.resource_type;
  id_of_resource = e.resource_id;
  metadata = optional "correlation_id" e.correlation_id e.payload;
  changes = e.changes;
}

-- The table, and how many events were lost: a batch whose insertion fails is logged and dropped.
pub record AuditLog : Type 0 where
  pub rows : List AuditLogEntity
  pub lost : ℕ

module _ (uuid : ℕ → Text) (insert_fails : List AuditLogEntity → Bool) (now : ℕ) where
  unfoldable pub entities : ℕ → List AuditEventPayload → List AuditLogEntity
  unfolding entity_of
  entities n [] = []
  entities n (e ∷ es) = entity_of (uuid n) now e ∷ entities (suc n) es

  -- One statement inserts the batch: all of it, or nothing.
  unfoldable pub flush_batch : List AuditEventPayload → AuditLog → AuditLog
  flush_batch batch log =
      let new = entities (length log.rows) batch in
      if insert_fails new
      then record log { lost = log.lost + length batch }
      else record log { rows = log.rows ++ new }

  -- The pipe: an empty batch is filtered out.
  abbrev emit_batch : List AuditEventPayload → AuditLog → AuditLog
  emit_batch [] log = log
  emit_batch (e ∷ es) log = flush_batch (e ∷ es) log

  -- The subscription, batch after batch.
  unfoldable pub deliver : List (List AuditEventPayload) → AuditLog → AuditLog
  unfolding flush_batch
  deliver [] log = log
  deliver (batch ∷ batches) log = deliver batches (emit_batch batch log)
