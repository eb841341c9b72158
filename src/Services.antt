-- ===== src/Services.antt =====
-- The application services of training evaluations (modules/training-evaluations/application). A
-- command is two functions: `…_check` reads the tables and decides, `…_write` is its transaction.
-- Other requests may commit between the two, so a property speaks of two states of the tables.
pub mod Query
pub mod Submit
pub mod Forward
pub mod Scoring
pub mod Review
pub mod Finalize
pub mod Semesters
pub mod SemesterAdmin
pub mod Keyed
pub mod Evidences
