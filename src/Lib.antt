-- ===== src/Lib.antt =====
-- The identity and access management service (src/) with its SDK (packages/iam-sdk/src/).
--
-- A request passes the guards, runs in a transaction that the interceptor opens, and calls a service.
-- The services read and write tables through repositories, emit messages to Kafka, and cache what
-- they decide; the messages of a change make the consumers drop what was cached. The SDK asks the
-- same caches from other programs, and the service where they do not know.
--
-- Shared: Prelude (texts as lists of characters, Boolean searches), Entities (the rows, from
-- src/**/*.entity.ts), Constants (src/common/constants), Errors (Nest's exceptions and those of the
-- database), Json (payloads), App (the state of a request and the monad of the services; emit is
-- EventProducer.emit of src/event/event.producer.ts), Rows and Loops (lemmas), Sample and Tests (an
-- environment, a small office, and the theorems at concrete inputs).
-- Env holds what the program calls and does not contain: TypeORM's repositories over PostgreSQL, the
-- cache store with Redis' SCAN, bcrypt, the JWT library, uuid and crypto, the configuration. Each is
-- an operation with documented facts; Sample shows that they can hold together.
--
-- Matcher: computeEffectivePermissions and hasPermission of
--   packages/iam-sdk/src/utils/permission-matcher.util.ts; Matcher.Server: hasPermission of
--   src/common/utils/permission-matcher.util.ts.
-- Rbac.Role, Rbac.Assignment, Rbac.Override, Rbac.Permission, Rbac.Scheduler: the services of
--   src/modules/rbac, a function for each method in snake_case (updateUserRoles is
--   update_user_roles, with add_role and remove_role for a round of its loops).
-- Cache: src/cache/cache.service.ts, and the keys of the services. Event: src/event/event.consumer.ts;
--   receive hands messages that were sent to its handlers, in their order.
-- Acl: src/modules/acl/acl.service.ts. Authorization: src/modules/authorization;
--   Collision: two requests that share a key.
-- Route: how a request passes the guards of src/common/common.module.ts and reaches a handler; its
--   children are the controllers: Roles (src/modules/rbac), Accounts (src/modules/user), Tenants
--   (src/modules/tenant and src/modules/super-admin), Public (src/modules/auth, authorization, acl).
--   A route's decorators are a record. Laws, Outcomes and Profiles are about them.
-- Permissions: packages/iam-sdk/src/constants/system-permissions.constant.ts.
-- Rls: the policies of src/database/migrations/1780599504679-EnableRLS.ts. Seed: src/database/seeds.
-- Schema: the foreign keys of src/database/migrations/1780599496976-InitialSchema.ts.
-- Pages: the bounds of the lists that roles and ACL entries are answered in.
-- Guards: src/common/guards, and the identity type guard of packages/iam-sdk/src/guards.
-- Transaction: src/common/utils/transaction.util.ts and the interceptor
--   src/common/interceptors/tenant-transaction.interceptor.ts, as the calls that the runner sees.
-- Auth: src/modules/auth. Base: src/common/base/base.service.ts. User: src/modules/user.
-- Tenant: src/modules/tenant and src/modules/super-admin. Audit: src/modules/audit; Audit.Query: queryLogs.
-- Http: the filter and the envelopes of src/common. Sdk: packages/iam-sdk/src.
--
-- A service is a function from the state of a request (tables, cache, messages, clock, numbers drawn)
-- to a result and the state after; what was written or emitted before an exception stays in that
-- state, and it is the transaction that takes the tables back. Loops are recursion on the list that
-- is looped over, so no fuel is needed; the recursive query of the hierarchy is its levels one by one.
-- Dates are milliseconds. Promises of Promise.all are taken one after the other.
--
-- A handler of a tenant's data takes the tenant from the claims; what a service does that is called
-- with an undefined tenant, as for a super admin, is a parameter, and so are the texts that
-- ParseUUIDPipe lets pass. The guards run before the transaction of the interceptor.
--
-- Not modelled: validation (metadata for class-validator), configuration and modules, the columns
-- that the migrations make, roles and grants of the database, the base controller (no controller
-- extends it), health, logging, the buffer of rxjs before the audit log, `updated_at`, and that a
-- number of a query which no pipe converts arrives as a text. A delete of the services
-- leaves the rows that a foreign key takes along; Schema.cascade takes them.
pub mod Prelude
pub mod Entities
pub mod Constants
pub mod Errors
pub mod Env
pub mod Json
pub mod App
pub mod Rows
pub mod Permissions
pub mod Route
pub mod Rls
pub mod Pages
pub mod Schema
pub mod Seed
pub mod Loops
pub mod Matcher
pub mod Rbac
pub mod Cache
pub mod Event
pub mod Acl
pub mod Authorization
pub mod Transaction
pub mod Guards
pub mod Auth
pub mod Base
pub mod User
pub mod Tenant
pub mod Sdk
pub mod Audit
pub mod Http
pub mod Sample
pub mod Tests
