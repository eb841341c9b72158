-- ===== src/Lib.antt =====
-- Training evaluations: a verification library for the evaluation module of APAG_BE
-- (projects/src/modules/training-evaluations), a NestJS service in which students score their own
-- conduct for a semester, and class leaders, advisors, faculties and the training department review,
-- hand on and finalize the forms.
--
-- Parts, and the code that each is about (paths from projects/src/modules/training-evaluations where
-- no other root is given):
--   Prelude: the libraries' names, Boolean tests on native numbers, lists with their predicates.
--   Http: the exceptions that a request ends in; a command is a function into `Result`.
--   Policy/Access: domain/evaluation-access.policy.ts, who may do what. Policy/Transition:
--     domain/evaluation-transition.ts, the edges of a form's life. Policy/Deadline:
--     domain/evaluation-deadline.policy.ts, until when each level may act. These are pure.
--   Score: domain/score-calculator.ts and constants/score-points.constant.ts, with the requests of
--     dto/update-*-score.dto.ts.
--   Database/Rows, Database/Write: the tables (projects/prisma/schema/schema.prisma) as lists of rows,
--     and application/evaluation-concurrency.ts, in which `writeEvaluation` updates the row that has
--     both an id and a version, and increments the version (`write_evaluation`).
--     notifications/create-notification-once.ts is `create_notification_once`.
--   Services: application/evaluation-*.service.ts. Submit has create and submit, Forward the three
--     batches that hand forms on, Scoring the drafts, sections and class scores, Review the
--     confirmations and reviews, Finalize the final decisions and reopening, Query the checks of
--     access; Semesters and SemesterAdmin have projects/src/modules/semesters/admin-semesters.service.ts
--     (the locks of forms, and `create`, `update`, `toggleActive` around them), Evidences the links of
--     projects/src/modules/evidences/evidences.service.ts, and Keyed the two commands below.
--   Idempotency: projects/src/common/idempotency/idempotent-operation.ts. Values has the values that an
--     operation takes and returns and the tree that a receipt saves, Canonical the text that is hashed,
--     Operation `idempotentOperation` on the tables with their receipts. Services/Keyed runs `submit`
--     and `finalize` through it, Retrying a request any number of times.
--   Auth: TokenStore is projects/src/modules/auth/jwt/auth-token-store.ts, which tokens are revoked;
--     Sessions is auth.service.ts beside it, with the writes of projects/src/modules/users.
--   Reports: projects/src/modules/reports/helpers/report-aggregation.helper.ts, the figures of reports
--     (Aggregation), from groups that the database counts, each `Map` as its entries.
--   Database/Audit, Database/Evolution, Database/Commit and History: the invariant of the tables, how
--     commands may change them, and runs of commands. `Valid` is the invariant, `Stepped` what one
--     command may do, `Grows` what any number of them may do, `Command` all commands as one relation,
--     and `Run` any interleaving of their checks and transactions. History/Semesters is about the table
--     of semesters. `Tests` has concrete tables.
--
-- How the services use the policies: a command reads rows, asks the policies, and then writes in a
-- transaction. In the model it is a pair `…_check`, on the tables at the time of the reads, and
-- `…_write`, on the tables when the transaction runs; other commands may have committed in between. A
-- thrown exception rolls the transaction back, so `err` carries no tables. `linkUrl`, `remove` and a
-- `confirmReview` with scores read in their transactions and are one function each, on one state of
-- the tables: a commit to the form between such a read and the conditional write makes that write
-- fail. A transaction is atomic once it runs: the row lock of its first conditional write orders it
-- against others on the same form.
--
-- Conventions: a UUID is the number that it writes, of which equality and, for the order in which
-- batches write, `localeCompare` on standard lower-case texts are used; a date is its milliseconds
-- since 1970, and Vietnam is seven hours ahead of UTC; numbers are natural, as the validators of the
-- requests demand, and versions do not overflow. Texts are Strings or names of the templates that make
-- them. What the validators enforce (at most three activities, a base score up to 25, a reward up to
-- 2) is a hypothesis named Admissible. The digest of a notification's key is a parameter, and so are
-- the time and the id of a new row (`Env`); of a receipt, SHA-256, the texts of dates and of ids, and
-- the response that a form is mapped to. The column of a receipt keeps the saved tree; that jsonb may
-- reorder the entries of an object is left out, and so is an effect after the commit that throws. An
-- operation under a key runs at one state: the advisory lock admits one of its scope at a time, and
-- what others commit while it works is the subject of History. All functions are total by
-- structural recursion; the digits of a number alone take fuel, of which its successor is enough
-- (Idempotency/Digits). The test of a batch's transitions, which the source makes after its check for
-- an empty batch and before its transaction, stands in the check. An average is in tenths, computed
-- exactly, where the source divides in floating point.
--
-- Not modelled: the projections of rows to responses, listings and their paging, lockedAt, lockedBy
-- and updatedAt, caches, realtime events after the commit (their notifications are returned), the
-- notifications that a semester is opened or closed, the parsing of the texts of dates, and the
-- other modules of the server (the administration of users, classes and faculties, profiles, mail,
-- and of reports the queries and rendering), which do not write forms. Of authentication, the mail
-- of a forgotten password and the guards are left out. Of the operations that take a key, `submit`
-- and `finalize` are composed with receipts; the others differ in their work, their input and their
-- check of a replay.
mod Prelude
pub mod Http
pub mod Policy
pub mod Score
pub mod Database
pub mod Services
pub mod History
pub mod Idempotency
pub mod Auth
pub mod Reports
pub mod Tests
