-- ===== src/Lib.antt =====
-- Pulse CRM: a model of the core of the CRM's server (backend/app), and its correctness.
--
-- The server is a FastAPI application over one SQL database. A request handler or a worker opens a
-- session, reads rows, checks conditions, writes rows and commits; an exception rolls everything
-- back. So a table is a list of rows, a handler is a function from the tables it touches to
-- `Result`, the exceptions are values of `Error`, and the tables after it come only with `ok`.
-- Queries are the Boolean conditions of Prelude/Table (`select`, `find?`, `count`, `update`,
-- `delete`). Keys are numbers, and a new key is an argument; times are numbers (of seconds, and in
-- Webhooks and Purchases of microseconds), and the clock's reading is an argument.
--
-- The parts, and their files:
-- - Jobs: the background job queue of backend/app/services/jobs.py. Jobs has the rows, enqueue_job
--   and claim_jobs; Jobs/Acknowledge complete_job and fail_job; Jobs/Recovery
--   recover_expired_leases; Jobs/Supervisor and Jobs/Supervisor/Rounds the JobSupervisor, one
--   round of each of its loops at a time. The proofs are in Jobs/Order, Invariant, Claim, Enqueue,
--   Fencing and Expired, and in Jobs/Supervisor/Capacity and Health. Rows that other transactions
--   lock (FOR UPDATE SKIP LOCKED) are a predicate. How a handler ends, and whether the database
--   answers, are arguments.
-- - Operations: the administrators' retries of backend/app/integrations/operations_api.py;
--   Operations/Queue has what other files write to the queue: the retry of a message
--   (backend/app/integrations/api.py), the cancellation of queued jobs (backend/app/api/crm.py), the
--   cleanup of finished ones (backend/app/integrations/runtime.py) and the jobs of an import
--   (backend/app/integrations/admin_api.py and amocrm_live.py). Operations/Steps has the transactions
--   of jobs.py as a step relation, Operations/Reach these and the others in any order, and
--   Operations/Done what those of jobs.py leave alone.
-- - Access: backend/app/services/access.py, the conditions on deals, tasks, contacts and companies
--   and on the target of a notification; Access/Visible says what they mean.
-- - Events: backend/app/services/events.py, the rows that every change appends to the audit trail,
--   the outbox and the realtime stream. Consents, Pipelines, Users and DataAccess write them.
-- - DataAccess: backend/app/services/data_access.py, the budget of continued list pages.
-- - Users: update_user of backend/app/api/auth.py, by which members get their roles. The memberships
--   that other requests committed between the checks and the UPDATE are an argument. Owners and
--   Updated have the proofs.
-- - Consents: the grant and the revocation of backend/app/integrations/consents_api.py. The rows that
--   concurrent requests commit before the insertion are an argument. The e-mail validator and the
--   Unicode case folding belong to libraries, and are parameters.
-- - Pipelines: the pipelines and stages of backend/app/api/crm.py: References has the checks of the
--   tables that refer to them, Stages and Deletion the handlers, Positions, Placed and Kept the proofs.
--   The pipelines that others committed since delete_pipeline counted them are an argument.
-- - Deals: the move of a deal to a stage in backend/app/api/crm.py, and the fields that the stage
--   requires (Required). The deals that other requests committed between the reading and the
--   UPDATE are an argument. Moved, Transition, Again and Enforced have the proofs. Schedule has the
--   synchronization of the next purchase with the deal's date, over Purchases, and Aligned its proof.
-- - Forms: backend/app/integrations/forms.py, the submissions of public forms; Fields has the
--   validation of the declared fields, Limited the rate limit and Accepted the submissions.
-- - Messaging: backend/app/integrations/messaging.py, the reply to a deal's customer; Routed says
--   which conversation it takes, and Routes what the query returns.
-- - Imports: backend/app/integrations/amo.py, the pages of an import from amoCRM. Imports has the
--   job and its states, Apply the application of a page; Pages what a page should do, as one pass
--   over the ledger of known entities; Applied and Again that it does; Lifecycle the states of the
--   import. The writer of the CRM's rows is a parameter.
-- - Notifications: backend/app/integrations/notifications.py, a message that is queued once for its
--   key. Template reads and renders the texts, RoundTrip is about what is read of a text; Once and
--   Consented are about queue_notification, the second together with Consents.
-- - Purchases: backend/app/integrations/purchases.py, the next purchase of a deal, its task and its
--   reminder; Linked has the invariant and Ensured the runs of the scheduler.
-- - Webhooks: backend/app/integrations/webhooks.py, the signature of a request (Signed) and the
--   acceptance of an event (Inbound, Once). The digests and the reading of numbers are parameters.
-- - Models: rows of backend/app/models.py that several parts read. Prelude: shared types and lemmas.
-- The Tests modules run the definitions and the theorems on small data.
--
-- All recursion is structural on lists, so there is no fuel. A row has the columns that the modelled
-- code reads or writes; the schemas' validation of a request comes before the handlers and is an
-- assumption where a statement needs it. A join of two tables by a foreign key is two look-ups. A
-- handler that locks the rows on which its checks rest is one step; where it does not, the rows that
-- others have committed meanwhile are an argument (Consents, Deals, Users, delete_pipeline).
--
-- Not modelled: the creation and change of deals, tasks and contacts in backend/app/api/crm.py, the
-- live client of amoCRM, the spreadsheets, the handling of inbound events and the job handlers of
-- backend/app/integrations, sessions and login, and all that is network, cryptography, configuration
-- or presentation (frontend, backend/alembic, scripts).
pub mod Prelude
pub mod Jobs
pub mod Models
pub mod Notifications
pub mod Deals
pub mod Forms
pub mod Messaging
pub mod Purchases
pub mod Webhooks
pub mod Imports
pub mod Access
pub mod Consents
pub mod Events
pub mod Users
pub mod DataAccess
pub mod Operations
pub mod Pipelines
