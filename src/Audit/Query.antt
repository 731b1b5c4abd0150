-- ===== src/Audit/Query.antt =====
-- queryLogs of src/modules/audit/audit.service.ts and getAuditLogs of
-- src/modules/super-admin/super-admin.service.ts: the search in the table of audit logs. What the
-- operator ->> of the database makes of a value is a parameter.
use generic_iam.Prelude.{
  implies, implies_lem, ℕ, zero, suc, ◌-◌, ◌*◌, ◌≡◌, ◌∷◌, [], Text, lit, Bool, true, false, ◌&&◌,
  ◌||◌, not, Option, none, some, List, any, length, ◌≤◌, same_text, truthy, is_empty, any_mono, leb,
  arith,
}
use generic_iam.Json.{Json, value_of}
use generic_iam.Env.{Env}
use generic_iam.Rbac.Role.{Paginated}
use generic_iam.Audit.{AuditLogEntity}

-- Dates are instants here, as the database reads them.
pub record AuditQueryDto : Type 0 where
  pub tenant_id : Option Text
  pub actor_id : Option Text
  pub event_type : Option Text
  pub resource_type : Option Text
  pub date_from : Option ℕ
  pub date_to : Option ℕ
  pub correlation_id : Option Text
  pub page : Option ℕ
  pub limit : Option ℕ

-- `query.page || 1` on a number: zero is falsy. The fields of the DTO are numbers here, as their type
-- says; it has no `@Type`, so that a request brings texts, of which `0` would be truthy.
abbrev or_default : Option ℕ → ℕ → ℕ
or_default none d = d
or_default (some zero) d = d
or_default (some (suc n)) d = suc n

-- `if (asked) qb.andWhere('column = :asked')`; a column that is NULL equals nothing.
abbrev same_if_asked : Option Text → Option Text → Bool
same_if_asked asked column = not (truthy asked) || same_text column asked

abbrev from_if_asked : Option ℕ → ℕ → Bool
from_if_asked none t = true
from_if_asked (some d) t = leb d t

abbrev to_if_asked : Option ℕ → ℕ → Bool
to_if_asked none t = true
to_if_asked (some d) t = leb t d

module _ (as_text : Json → Option Text) where
  abbrev text_of : Option Json → Option Text
  text_of none = none
  text_of (some v) = as_text v

  -- The conditions that the query builder collects.
  unfoldable pub matches_query : AuditQueryDto → AuditLogEntity → Bool
  unfolding value_of
  matches_query query a =
      same_if_asked query.tenant_id a.tenant_id
      && same_if_asked query.actor_id a.actor_id
      && same_if_asked query.event_type (some a.event_type)
      && same_if_asked query.resource_type a.type_of_resource
      && same_if_asked query.correlation_id (text_of (value_of (lit "correlation_id") a.metadata))
      && from_if_asked query.date_from a.created_at
      && to_if_asked query.date_to a.created_at

  matches_tenant :
      (query : AuditQueryDto) (tenant : Text) (a : AuditLogEntity) (b : Bool)
      → query.tenant_id ≡ some tenant
      → is_empty tenant ≡ false
      → (b && matches_query query a) ≡ true
      → (b && same_text a.tenant_id (some tenant)) ≡ true
  unfolding matches_query
  matches_tenant query [] a b t h m = cc
  matches_tenant query (c ∷ cs) a b t h m = ground arith

  module _ ⦃env : Env⦄ where
    -- The database orders by `created_at`.
    unfoldable pub query_logs : AuditQueryDto → List AuditLogEntity → Paginated AuditLogEntity
    unfolding matches_query
    query_logs query rows =
        let page = or_default query.page 1 in
        let limit = or_default query.limit 100 in
        record {
          items = env.page (matches_query query) ((page - 1) * limit) limit rows;
          total = env.count (matches_query query) rows;
          page = page;
          limit = limit;
        }

    -- SuperAdminService.getAuditLogs
    unfoldable pub get_audit_logs : AuditQueryDto → List AuditLogEntity → Paginated AuditLogEntity
    unfolding query_logs
    get_audit_logs filters rows = query_logs filters rows

    -- A query for a tenant, whose id is not empty, answers with rows of the table that belong to
    -- that tenant only, and with at most as many as it says its limit is.
    pub query_logs-tenant :
        (query : AuditQueryDto) (tenant : Text) (rows : List AuditLogEntity)
        (q : AuditLogEntity → Bool)
        → query.tenant_id ≡ some tenant
        → is_empty tenant ≡ false
        → (implies
              (any q (query_logs query rows).items)
              (any (λ a. q a && same_text a.tenant_id (some tenant)) rows)
            ≡ true)
          × (length (query_logs query rows).items ≤ (query_logs query rows).limit)
    unfolding query_logs
    query_logs-tenant query tenant rows q t h =
        let limit = or_default query.limit 100 in
        let skip = (or_default query.page 1 - 1) * limit in
        (
          implies_lem (any q (env.page (matches_query query) skip limit rows))
              (any (λ a. q a && same_text a.tenant_id (some tenant)) rows)
              (λ e.
                any_mono (λ a. q a && matches_query query a)
                  (λ a. q a && same_text a.tenant_id (some tenant)) rows
                  (λ a m. matches_tenant query tenant a (q a) t h m)
                  (env.any_page (matches_query query) q skip limit rows e)),
          env.page_within (matches_query query) skip limit rows,
        )
