-- ===== src/Lib.antt =====
-- PlaiFlow is a Go service (api/) in which the members of an organization share tasks, documents that
-- are read by OCR and reviewed by people, and exports that workers make. Every command is one
-- transaction of Postgres: internal/postgres reads rows, decides in Go, writes rows and commits; the
-- workers of internal/worker and of other machines take their work from tables. This library models
-- commands as functions from a store, which is a record of tables, to the store that they commit or
-- the error with which they roll back, and proves what sequences of commands keep.
--
-- Sql          the SQL of internal/postgres on a table as the list of its rows: UPDATE, DELETE and
--              SELECT with a WHERE clause, RowsAffected, and a transaction's end (`Tx`)
-- Jobs         internal/job/model.go, and the tables of internal/postgres/jobs.go
-- Jobs/Queue   ClaimJobs: the sweep of exhausted jobs, the selection, the loop over the candidates
-- Jobs/Leases  HeartbeatJob, FailJob, retryJitter
-- Jobs/Exports CompleteExport and artifactByJob, with the hexadecimal text of a hash
-- Tenant       internal/tenant/tenant.go, and the mutations of internal/postgres/tenant.go with the
--              SQL function transfer_organization_ownership of migrations/000002_phase1_auth_tenants;
--              Tenant/Inviting has the invitations and the LINE groups
-- Tasks        internal/work/work.go, and CreateTask of internal/postgres/work.go; Tasks/Update has
--              UpdateTask, and Tasks/Watching SetWatcher with the trigger on task_watchers
-- Reviews      internal/extraction/review.go, and SaveReview of internal/postgres/extraction.go;
--              Reviews/Drafts has SaveDraft (review_drafts.go) and ReturnReview (review_return.go)
-- Inbound      internal/inbound/inbound.go, the queue of LINE events in internal/postgres/store.go
--              and the loop of internal/worker/worker.go
-- Accounting   Suggest of internal/accounting/suggestion.go; Accounting/Books has the categories of
--              internal/postgres/accounting.go, Accounting/Books/Rules the rules,
--              Accounting/Books/Approving its Approve, and
--              Accounting/Books/Ops all its commands
-- Columns      spreadsheetColumn of internal/work/work.go, columnName and cellColumn of
--              internal/business/spreadsheet.go
-- Deliveries   the deliveries of internal/worker/work.go and internal/postgres/work_worker.go
-- Contacts     internal/business/business.go, and exportRecord of internal/business/spreadsheet.go
-- Auth         the tables of internal/postgres/auth.go, with the records of internal/auth;
--              Auth/Sessions has the sessions, Auth/Accounts the transactions on identities, and
--              Auth/Ops all of them as commands; Auth/Service, Auth/Callback, Auth/Serving and
--              Auth/Paths have the handlers of internal/auth/service.go
-- Auth/Vault   the register of tokens that the table of sessions implements (an abstraction, no code)
-- Catalog      the plans of internal/plan/catalog.go and its gate
-- Base         numbers, lists, text; Samples has the runs on concrete inputs
--
-- (The paths of Go files are below api/, and the names of files are those of the repository.) The
-- components meet in their tables: Tasks, Reviews and Accounting decide by the roles of Tenant,
-- Reviews tells the assignees of Tasks, Accounting approves over the reviews of Reviews, and the
-- handlers of Auth call the transactions of its tables. The functions keep the order of the code's
-- guards, so that the error is the one of the first that fails. A handler of Auth runs its
-- transactions with no other between them; the theorems on sequences of transactions (Auth/Ops,
-- Accounting/Books/Ops) hold for every interleaving.
--
-- Times are numbers of nanoseconds, lengths of leases too; in Auth they are seconds. Ids, hashes and
-- dates are strings. Text that the code inspects is the list of the code points of valid UTF-8. An
-- integer of the code that is never negative where it is used is a natural number; the column of a
-- cell, which can be, is an integer that wraps at 64 bits. Loops over rows are structural; the loop
-- that names a column runs on fuel, the index and two, which the round trip shows to be enough.
--
-- Parameters stand for what is not code of the repository: SHA-256, the values drawn for a claim or a
-- login, the readings of the clock in a request, the parser of URLs, the functions of Go's strings and
-- unicode and of Postgres on spaces and case, the order of ids, the rows that other transactions hold
-- locked (FOR UPDATE SKIP LOCKED), what a column of type timestamptz gives back of the times of an
-- artifact (other times are kept whole), what the sender to LINE and the OAuth providers answer, and the CHECK
-- constraints and casts of a table (`accepts`). Two transactions on the same rows run one after the
-- other, since they lock the rows.
--
-- Not modelled: failures of the database and of the connection; row-level security; triggers other
-- than the one on task_watchers, so that the removal of a member does not clear their tasks here,
-- and the owner of an organization is kept without the trigger that refuses its loss; the assignment
-- of review tasks (review_assign.go), which reassigns a task and leaves its watchers as they are; the rows that
-- commands only read back for their answer; lists, pages and exports of rows; the wire formats of
-- HTTP and the exchanges with the OAuth providers, cryptography, object storage, the virus scanner,
-- LINE and Drive clients; the web client and the OCR workers, which are not Go.
pub mod Base
pub mod Sql
pub mod Columns
pub mod Accounting
pub mod Auth
pub mod Jobs
pub mod Tenant
pub mod Tasks
pub mod Reviews
pub mod Inbound
pub mod Catalog
pub mod Contacts
pub mod Deliveries
mod Samples
