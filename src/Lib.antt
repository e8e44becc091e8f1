-- ===== src/Lib.antt =====
-- The operations API of OssPilot: an HTTP server in Go over PostgreSQL, an S3 store and the API of
-- the tenants. Operators sign in (internal/auth), platform administrators manage them
-- (internal/users) and the storage regions (internal/regions), a worker expires objects by rules
-- (internal/lifecycle), and the handlers write to an audit log (internal/audit).
--
-- Parts and files:
-- Common: lists over native numbers, Boolean tests, decimal numbers, texts as Go trims them.
-- Action: a method that changes state and may return early keeps its state beside the error.
-- Database: the tables behind pgx; every statement, begin and commit may fail by a list of faults.
-- Http: internal/httpx/httpx.go, the answers of a handler and its early exits.
-- Schema: migrations/*.sql, the tables that the modelled code reads and writes.
-- Crypto: bcrypt and golang-jwt as a record of functions with the laws that their documentation
--   states; Crypto.Toy is a record that meets them.
-- Audit: internal/audit/store.go, `Record`, `Write` and `Insert`, and merge.go in Audit.Merge;
--   Audit.Actor has the calls of `Write` by the handlers.
-- Stats: `topByUsed` and `parsePeriod` of internal/stats/period.go, and `Tenants` of store.go in
--   Stats.Rows.
-- Auth: internal/auth/handler.go, jwt.go, password.go (Auth, Auth.Token, Auth.Session) and store.go
--   (Auth.Accounts); `login`, `me`, `change_password`, `require_user`, `require_admin` are the
--   functions of the same names in Go.
-- Users: internal/users/handler.go, with role.go in Users.Roles and store.go in Users.Accounts;
--   Users.Requests has sequences of requests by any callers.
-- Regions: internal/regions/handler.go, with store.go in Regions.Rows.
-- Buckets: internal/buckets/handler.go, with `register` in Buckets.Register, store.go in Buckets.Rows,
--   name.go in Buckets.Names, s3.go in Buckets.Policies, and the S3 client of the settings in
--   Buckets.Live. Buckets.Valid and Buckets.Register.Valid are about the stored names, and
--   Buckets.Valid.Counts about an import.
-- Rgw: internal/rgw/client.go over the AWS SDK.
-- Settings: internal/settings/handler.go (Settings, Settings.Valid, Settings.Public, Settings.Fields),
--   with store.go in Settings.Rows. Settings.Values is the map from keys to values that the rows stand
--   for; Settings.Effect, Put and Saving show `put` against it.
-- TenantRbac: internal/tenantrbac/handler.go, with remap.go in TenantRbac.Remap.
-- Access: internal/access/handler.go and remap.go. FileLocks: internal/filelocks/handler.go.
-- Project: internal/project/client.go, with the calls that only read in Project.Reads and
--   Project.Usage.
--   Project.World is the state of the handlers that call it: the database, and a tenant API behind
--   the parameter `Network`, which stands for net/http.
-- Accounts: internal/accounts/handler.go, with store.go in Accounts.Rows.
-- Grants: internal/grants/ids.go, with store.go in Grants.Rows and handler.go in Grants.Requests.
-- Lifecycle: internal/lifecycle/runner.go (Lifecycle.Runner and Lifecycle.Run), validate.go
--   (Lifecycle.Rules), store.go (Lifecycle.Rows) and handler.go (Lifecycle.Requests).
-- Alerts: internal/alerts/handler.go (Alerts, Alerts.Changes), with store.go in Alerts.Rows (rules
--   and channels) and Alerts.Events, validate.go in Alerts.Valid, dispatch.go in Alerts.Dispatch, and
--   evaluate.go in Alerts.Evaluate (firing, resolving and projecting) and Alerts.Run (`Run`, with its
--   parts in Numbers, Usage, Rates and Rules). Alerts.Keeps, Statuses, Unique, Sending and Firing are
--   about the stored events, Alerts.Bounds about the pages that are answered; Alerts.Run.Usage.Capacity
--   and Quiet are about one evaluation of the buckets, by what Alerts.Firing.Subjects and Unseen say
--   of one bucket; Alerts.Course has requests and evaluations in any order.
-- Ceph: the GET of internal/ceph/client.go and the error rate of parse.go, which Alerts.Run reads.
--
-- Action.Keeps has the rules for invariants of actions and Action.Triple those for what an action
-- does before it returns or stops; Database, Http and Project.World add the rules of their parts.
--
-- The handlers that need an operator take the one that `require_admin` admitted as an argument, so
-- Auth and the handlers meet in the record `User`. All share one state, the tables and the faults.
-- A request is a record with its decoded body (none where the JSON is invalid), the time and the
-- salt that the code reads from outside.
--
-- Bounds: the loops over pages in internal/lifecycle run on fuel; fuel above the rank of the first
-- page is enough where each truncated listing lowers the rank. All other recursion is structural.
-- Ids are natural numbers from 1 below 2 ^ 63, and times are seconds.
--
-- Not modelled: the encoding of JSON, the formats of times, the log, the configuration and the
-- wiring in cmd/api; concurrent requests inside one handler; the filters and exports of the audit
-- log; the reading calls of internal/project/client.go for statistics, the S3 worker of
-- internal/lifecycle; the handlers of internal/ceph and what only they parse; the counts and the
-- answers of internal/stats; the commands in cmd/ceph-mgmt, cmd/migrate and cmd/reset-password.
-- Floating-point numbers are a type with the operations that the code uses, without laws. The AWS
-- SDK, net/http, encoding/json, `strings.ToLower` and the order of texts in the database are
-- parameters.
pub mod Common
pub mod Action
pub mod Database
pub mod Http
pub mod Schema
pub mod Crypto
pub mod Audit
pub mod Auth
pub mod Users
pub mod Regions
pub mod Buckets
pub mod Project
pub mod Accounts
pub mod Lifecycle
pub mod Stats
pub mod Grants
pub mod Alerts
pub mod Settings
pub mod TenantRbac
pub mod FileLocks
pub mod Access
pub mod Rgw
pub mod Ceph
