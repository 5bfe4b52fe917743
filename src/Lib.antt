-- ===== src/Lib.antt =====
-- ScopeIs, a team management system: a verification library for its server modules.
--
-- The program is a Next.js server over PostgreSQL. Each module under src/modules has a service that
-- checks an actor against a policy, reads and writes tables in one database transaction, writes an
-- audit event and inserts notifications. The models are in these files:
--
-- - Base: Boolean tests (Tests), list functions (Lists), errors and transactions (Results), texts as
--   lists of UTF-16 code units (Strings), integers (Int), joins, orders and pages of queries (Queries)
--   and what their rows are (Members), and tables whose rows are kept apart by an index (Apart).
-- - Tables: the rows of src/db/schema that the reports and scheduling share.
-- - Shared: src/shared/types/foundation.ts and src/shared/errors/app-error.ts.
-- - Authorization: src/modules/authorization, with role capabilities (Capabilities), scope on clients,
--   projects and locations (Operational), and the scope that reports resolve (Resolved).
-- - Employees: src/modules/employees/employee-policy.ts.
-- - Audit: src/modules/audit/audit-service.ts; Audit/Actions and Audit/Presentation are the table and
--   the functions of presentation.ts, and Audit/Shown is about what the history may show.
-- - Dates: the Gregorian calendar of dates in UTC, with Dates/Calendar for its order and
--   Dates/Civil for the date of a day number.
-- - Leave: src/modules/leave. DateRules is date-rules.ts, Repository the queries and rows, Service
--   is service.ts with submit, cancel, decide and set_allowance (`updateAllowance`). Rules is about
--   working days, Applied about what one operation has done, Rows about the table of requests,
--   Guarantees and Allowance about every operation; Preview is vacation-preview.ts. A
--   step relation, Leave/Guarantees.Step, runs the operations one after the other; what cancel and decide have read before their transaction
--   may be any earlier or later tables.
-- - Reporting: src/modules/reporting. Contracts and Definitions are definitions.ts, Windows is
--   date-rules.ts, Requests is validation.ts with `resolveRequest`; Filters, Queries, Records and
--   Snapshots are repositories.ts; Cells, Builders, Summaries and Service are service.ts; Exports is
--   export-service.ts and Csv is csv.ts. Csv/Reader is a reader of RFC 4180 to compare with. The
--   other files hold theorems: Registry, Bounds, Accepted and Defaults on requests, Scoped and Counts
--   on queries, Shapes on rows and columns, Complete and Unchanged on requests and pages, Exported on
--   exports. The collation of the database
--   (`name_before`), the rows of the audit history and the writer of audit events are parameters;
--   Service's `current_actor` reads the tables with the queries of
--   src/server/repositories/foundation-repository.ts.
-- - Scheduling: src/modules/scheduling. Repository is repositories.ts, Checks the guards of
--   service.ts, Service its changes of periods and assignments (`plan_period` is `createPeriod`,
--   `move_assignment` is `updateAssignment`), Publication its `publish` and `createRevision`,
--   Replacement its `applyReplacementEffect`. Fitness
--   says what the checks establish, Rivals and Publications what a publication guarantees;
--   Planned, Replaced, Replacing, Lifecycle and Stages compare the operations with the stages that a period goes through.
-- - Navigation: src/modules/navigation/navigation.ts.
-- - Tickets: src/modules/tickets. Types and Repository hold the rows of src/db/schema and the queries
--   of repositories.ts; Policy is policy.ts; Validation is validation.ts; Access, Notify and Commands
--   are service.ts: the current actor, the context in which an actor sees a ticket, notifications,
--   and one function for each action of `command` (Commands/Containers and Commands/Changes).
--   Commands/Applied and Commands/Contained say what a successful action has done, Rows how an
--   update changes the ticket table, Guarantees what holds of every command, Claims what a command
--   does not read, and Notify/Laws who is notified.
--
-- A transaction is a function from the tables to a result with the new tables, or an error; an error
-- rolls the tables back. The tables are lists of rows. The clock, the ids that the database generates
-- and the setting for mock sign-in are arguments. Ids are numbers, since the code only compares them;
-- timestamps are numbers of milliseconds; a text is the list of its code units. The database's locks,
-- the zod schemas' parsing and the rendering of pages are not modelled: a transaction runs alone, and
-- a command arrives in the shape that its schema hands on. Years run from 1000 to 9999, as the code's
-- text comparisons need: below 1000 the code writes the first day of a year without padding, which the
-- model does not. A number in an audit event's metadata is a natural number: no modelled operation
-- writes a negative, fractional or null value. The loops over days and years are recursions on the number of days
-- and years that the code's bounds leave; the date of a day number is looked for in at most n / 365
-- years and 11 months, which is proved to be enough.
--
-- Not modelled: the reporting dashboard and index, the labels and notes beside a report's rows,
-- the workspace reads, the timetable of scheduling, coverage, accounts,
-- sign-in, evidence and files, the employee service, operations, capabilities, maps, outsourcing, notes,
-- discussions, notifications, the migration scripts, and the pages.
pub mod Base
pub mod Shared
pub mod Authorization
pub mod Employees
pub mod Audit
pub mod Dates
pub mod Leave
pub mod Scheduling
pub mod Tables
pub mod Reporting
pub mod Tickets
pub mod Navigation
