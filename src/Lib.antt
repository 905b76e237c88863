-- ===== src/Lib.antt =====
-- A verification library of the platform for ethics reports: who may do what with a case, how a
-- case moves through the council's workflow, and what is recorded of it.
--
-- The parts, and the files that model them:
--   Shared: the enumerations and the error codes of packages/shared/src.
--   Policy: clearances (Clearance), the permissions of roles (Permissions), the attribute rules
--     of packages/policy/src/abac-rules.ts (Abac), the filters that
--     apps/api/src/authorization/policy-scope.service.ts makes of them (Scope), and the visible
--     fields of a case (Fields).
--   Storage: the tables behind the database client. A table is a parameter (Table.Table) of which
--     only the documented meaning of creating and updating rows is used; a list of rows meets it.
--   Audit: apps/api/src/audit. The search for forbidden metadata keys (Metadata), the event tables
--     (Events) and `publish` (Publisher); the verification of the hash chain (Chain) and the job
--     apps/worker/src/jobs/audit-outbox-dispatch.job.ts (Spread, Dispatch).
--   Decision: apps/api/src/modules/decision/decision.service.ts. Whether a round of votes is
--     unanimous (Unanimity), the rows and events of a vote (Requests), and `castVote`,
--     `createSilentAcceptanceVote` and `advanceToDecisionDraftIfUnanimous` (Voting).
--   Documents: the grants of access to documents
--     (apps/api/src/modules/document/document-access.service.ts), with the enumerations and the
--     rows (Records) and the operations of the service (Access).
--   Workflow: apps/api/src/modules/case-management/transition. The transition map (Map), the
--     patterns of ids and blank texts (Text), the validators (Validators), the permission that the
--     map's roles have (Permitted), the records of a transition (Records) and the transition
--     service (Engine).
--   Cases: the opening of a case for a report (Opening), `createCaseFromReport` of
--     apps/api/src/modules/case-management/case.service.ts.
--   Tasks: apps/api/src/modules/task. The catalogue of the tasks that a transition creates and of
--     the commands that complete them (Catalog), the rows (Records), the creation of tasks and the
--     side effects of a transition (Creation), the checks and rows of a request (Requests), and
--     `completeTask` and `delegateTask` (Service).
--   Sla: the phase of a deadline (packages/shared/src/sla), the business calendar
--     (apps/api/src/modules/task/sla/business-calendar.util.ts) and the calculator of deadlines
--     (apps/api/src/modules/task/sla/sla-calculator.service.ts).
--   MakerChecker: apps/api/src/modules/admin/maker-checker.
--   Notifications: the notifications inside the application and the cursors of their list
--     (apps/api/src/modules/notification, Pagination and InApp).
--   Auth: the counting of failed logins (apps/api/src/modules/auth/login-attempt.service.ts).
--   Examples: runs of the definitions, and the theorems at concrete inputs.
--
-- `Engine.execute` is `execute` and `Engine.execute_in_transaction` is `executeInTransaction`. The
-- state is a World: the tables of cases, transitions, users, votes and of the audit outbox, and
-- `rest`, which is what the side effects of a transition write. Those are the port
-- `TransitionSideEffectPort` of the source, here the parameter SideEffects. An operation returns
-- its result with the next World, or throws an error code; an error carries no World, since its
-- transaction is rolled back. The advisory lock of the source lets one transaction at a time
-- work on a case; `execute` gets the database that its reads before the lock see and the one
-- that its transaction sees, so that two competing requests are two calls that share the first.
-- The time and the new ids are the argument Fresh.
--
-- A case begins with `Cases.Opening.create_case_from_report`, which works on a World and the table of
-- reports; `Workflow.Engine.Reachable.Step` is one such opening or one transition. The change of a
-- case's confidentiality is no step.
--
-- `Tasks.Records.all_tables` makes the tables of the tasks what the side effects write:
-- `Tasks.Creation.transition_side_effects` is `TransitionSideEffects.apply`, with the grants and
-- the notifications as ports, and `Tasks.Service` runs `execute_in_transaction` inside its own
-- transaction as the source does. The dispatch job works on a Queue, the outbox and the log of
-- audit events; what becomes of the transaction of each row is an argument, so that several workers
-- are sequences of steps (Audit.Dispatch.Steps).
--
-- `Documents.Access` works on the list of the grants' rows, in the order of their creation, which
-- is also the order in which its queries find them; it can stand behind the port of the grants.
--
-- `Notifications.InApp` works on the rows in the order of its query, the newest first. A client that
-- reads page after page is Notifications.InApp.Paging.follow, on fuel: one page for each row, and
-- one, is enough.
--
-- Recursion is on lists and on JSON values, but for the loop over the days of the business
-- calendar, which runs on fuel; Sla.Calendar.Due says how much is enough. A date is its time in
-- milliseconds, a day of the calendar its number since 1970; version counters are natural numbers.
-- The fuel of Sla.Calculator is that of the span of the calendar which is read.
--
-- Not modelled: the change of a case's confidentiality, the lists of cases, tasks and votes, the
-- worker's other jobs, the administration's requests for approval, sessions, the upload and
-- download of documents, e-mail, the public intake forms, and the web application. The error
-- messages for users, the HTTP statuses and logging are left out.
pub mod Audit
pub mod Auth
pub mod Cases
pub mod Decision
pub mod Documents
pub mod Examples
pub mod MakerChecker
pub mod Notifications
pub mod Policy
pub mod Prelude
pub mod Shared
pub mod Sla
pub mod Storage
pub mod Tasks
pub mod Workflow
