-- ===== src/Lib.antt =====
-- Clinks is a multi-tenant platform: a Go server (server/) with an authentication service, access
-- control for tenants, administration services, a worker that mails invitations, PostgreSQL stores
-- and RPC handlers, and web front ends. This library models the server's services and proves what
-- makes them correct.
--
-- How the files correspond to the code (paths from the repository's root):
-- Text and its children: Go strings as bytes, Go's UTF-8 decoder, strings.TrimSpace, ToLower, ToUpper
--   and Cut. Case tables beyond ASCII are a parameter.
-- Runtime: what the source calls and is a parameter here (net/mail, SHA-256, base64, case tables).
-- Errors, Exec: server/errors.go with wrapped and joined errors; methods as actions on the state of
--   everything behind the interfaces. An action returns that state beside an error too.
-- Validation, Email, Localization, Permission, Pagination: server/validation.go, email.go,
--   localization.go, permission.go, pagination.go and the filters of user.go, invitation_filter.go
--   and audit.go.
-- Domain: the records of server/tenant.go, role.go, user.go, membership.go, authentication.go,
--   invitation.go, audit.go and localization.go.
-- Stores: the interfaces of server/*_store.go and auth_crypto.go; the services are proved for every
--   implementation of them.
-- Auth: server/auth.go; its children Credentials, Invitations and External are auth_credentials.go,
--   auth_invitation.go and auth_external.go, with the proofs in Sessions, Login, Refusal, Accept and
--   Invite.
-- TenantAccess: server/tenant_access.go, with the proofs in Guard and Roles.
-- Outbox and Outbox.Settle: server/postgres/outbox.go over the table outbox_jobs, with the statements
--   of postgres/invitations.go and postgres/invitation_administration.go that write to it. The SQL is
--   written out as functions on lists of rows; row visibility under the policies of the tenants is
--   not. Leases, Claims, Holders, Life and Delay have the proofs.
-- Worker: server/worker.go, with the proof in Handled.
-- Sql: the statements and transactions that the stores share (server/postgres/pool.go), with lemmas in
--   Rows; Exec.Hoare has rules for what an action achieves where it succeeds.
-- Tables: the tables of server/migrations/000001_schema.sql that the stores of users, memberships and
--   invitations share, as records of lists. Members is server/postgres/memberships.go (proofs in
--   Administrators and Kept), Users is postgres/users.go and external_identities.go, Joining and
--   Invitations are postgres/invitations.go (proofs in Active, Frame, Settled, Acceptance, Spent and
--   Once), Invitations.Expiry is AnonymizeExpiredInvitations of postgres/outbox.go. The insertion of
--   an audit event (postgres/audit.go) checks its foreign keys. What uuid.NewV7 answers is an
--   argument; the clock of the database is part of the tables. Roles is postgres/roles.go
--   (proofs in Leads, Kept and Deleted), Tenants is postgres/tenants.go, tenant_provisioner.go and the
--   default roles of roles.go (proofs in Defaults and Owned).
-- Administration: server/tenant_admin.go, invitation_admin.go, users.go and audit_log.go, with the proof
--   in Names over the store of tenants; Sql.Trimmed compares strings.TrimSpace with btrim.
-- Catalog: translations. Bundle is server/translations.go, Product is
--   server/localization/product_catalog.go, Translator is server/localization/translator.go, Admin is
--   server/localization_admin.go; Store and Languages are server/postgres/localization.go. ByKey has Go
--   maps as lists of entries; Merge, Product.Agreement and the children of Store (Order, Selected,
--   Saved, Shown, Default) have the proofs.
-- RateLimit: server/web/rate_limit.go, with the proofs in History (against a plain history), Window
--   and Wait.
--
-- Bounds: times are nanoseconds since the zero time.Time and, like session versions and revisions,
-- do not wrap; an int that a caller may pass negative is an integer. Every loop is a recursion over a
-- list, so no fuel is used. A session of a service is one call after another: calls that run
-- concurrently meet only in the stores and in the limiter, whose mutex makes its methods atomic.
--
-- Not modelled: context cancellation other than through the errors of the stores; statements of
-- PostgreSQL that fail for other reasons than the constraints written out, and the visibility of rows
-- under the policies of the tenants; the pages of every list in the stores, and the creation of an
-- invitation there; the timers of the worker; the RPC handlers, cryptography, mail and the front ends.
pub mod Prelude
pub mod Text
pub mod Errors
pub mod Exec
pub mod Validation
pub mod Worker
pub mod Domain
pub mod Permission
pub mod RateLimit
pub mod Runtime
pub mod Email
pub mod Localization
pub mod Sql
pub mod Tables
pub mod Catalog
pub mod Outbox
pub mod Pagination
pub mod Stores
pub mod Auth
pub mod TenantAccess
pub mod Administration
