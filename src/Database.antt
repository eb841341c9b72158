-- ===== src/Database.antt =====
-- The tables that the evaluation services read and write (projects/prisma/schema/schema.prisma), as
-- lists of rows, and the writes that all commands share (application/evaluation-concurrency.ts).
pub mod Rows
pub mod Write
pub mod Laws
pub mod Audit
pub mod Evolution
pub mod Commit
pub mod Conflicts
pub mod Notices
