-- ===== src/Lib.antt =====
-- VNP DBMS backend: a NestJS service over a MongoDB database by way of Prisma, here modelled in part.
--
-- The parts and how they interact:
-- - Common: results and exceptions, handlers with a state, and the lemmas on lists and options that the
--   parts share. Common/Prisma.antt is the database client (@prisma/client), which is not part of
--   the repository: a record of its operations with their documented laws, a parameter of all that
--   queries a table. Which of several matching documents findFirst returns is left open.
--   A handler is a function from the state to a result and a state: what was written
--   before an exception stays written.
-- - Permission: src/common/interfaces/permission.interface.ts (Types), src/common/utils/permission.util.ts
--   (Util), src/common/services/permission.service.ts (Service), src/common/guards/permission.guard.ts
--   (Guard), src/common/utils/project-context.util.ts and src/common/guards/project-role.guard.ts
--   (Project). getModulePermission is Service.get_module_permission over the enum and
--   Util.get_module_permission over texts. Checks, Actions, Roles and Guards hold the proofs.
-- - Parallel: the class ParallelProcessor of src/common/utils/parallel-processor.util.ts. A loop over
--   an index takes fuel; `suc (length items)` rounds are enough for a step of at least 1. A
--   processor is a function to an outcome (a value, null, or an exception). The text that
--   processWithWorkers is given is compiled in the main thread or in a worker, which have other globals,
--   so what it does is two functions. Whether a worker thread dies over a chunk is a parameter,
--   since node's threads are not part of the repository; a text that does not compile is not modelled.
-- - ProjectRole: src/modules/user-project-role (Store is the repository, Service the service), with
--   the query of src/modules/project-role/project-role.repository.ts that it uses. Its
--   administrators are those of Permission/Util.antt. `run` dispatches the calls that change the table.
-- - Auth: src/modules/auth (Store is auth.repository.ts and the tables, the others auth.service.ts:
--   Session the tokens, Login the one-time passwords, Invite the invitations, Admin
--   createSuperAdmin). External.antt holds what packages and servers do: bcrypt, the tokens'
--   signer, the comparison of emails in the database, the mail server, and the configuration.
--   New ids, texts drawn at random, bcrypt's salt and the present time (milliseconds) are arguments.
--   Queries of users include the role, which the schema requires: the tables are taken to hold the role of
--   every user, since the client throws for one whose role is missing.
-- - Invitation: src/modules/user-invitation (Store is the repository and the tables, Service the service).
--   A write that breaks the unique key of email and status in prisma/schema.prisma is refused
--   with an exception. Accept, Granted and Roles are about an acceptance, Keys and Runs about the unique keys, and
--   Answered about invitations that are no longer pending. bcrypt's hash and the mail server are parameters. toLowerCase is modelled
--   on ASCII letters, and setDate as seven times 24 hours.
-- - Settings: the six ordered lists of src/modules (priority, billing-type, frequency, processor,
--   service-type, currency). Their services are the same code over different tables; Service is
--   that code, over a record of what differs, and Services the six. A table of each has the
--   columns that the code uses, and Schema compares them with the relations of prisma/schema.prisma: the service
--   of the currencies leaves one out. Orders are natural numbers, and requests that ask for another
--   number are not modelled. A transaction is one write.
-- - Dates: src/common/utils/parser-job-date.util.ts (ParserJob) and
--   src/common/services/run-date-calculator.service.ts (RunDate). Civil and Text are what the
--   language's Date does in UTC: a day is the number of days since a year before all that a Date
--   can hold, and a text the list of its code units. How the engine reads a text that is no date of
--   the calendar in the form YYYY-MM-DD is a parameter, and RangeErrors are `none`. The
--   search for a run date has the 365 rounds of the source. Order compares texts as the language does.
-- - Jobs: bulkCreateParserJobs (Window is the dates of one job, Service the rest) and
--   updateHistoricalAndRunDate (Complete) of src/modules/external-api/external-recurring-jobs.service.ts.
--   They use Dates. The answer of the parser backend is a parameter, and what is posted to it is
--   kept in the state.
-- - UserRole: src/modules/user-role. It takes the order of a moved role from Settings and who may list the
--   roles from Permission. The permissions of a role are a list, and what an update makes of them is
--   part of the request.
--
-- Not modelled: joined documents that a query includes for display, the dates created_at and
-- updated_at, the wording of mails and some interpolated parts of messages, console output; controllers,
-- request validation, cookies and dependency injection; the counts that lists attach to their items and
-- the search of the currencies; the retrieval jobs and the relays to the scraper backend; and the other
-- modules of src/modules (project roles, users, portfolios, properties, files), which are queries, spreadsheets and framework glue for the most part or are left for later.
pub mod Common
pub mod Permission
pub mod Parallel
pub mod ProjectRole
pub mod Auth
pub mod Invitation
pub mod Settings
pub mod Dates
pub mod Jobs
pub mod UserRole
