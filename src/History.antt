-- ===== src/History.antt =====
-- Commands as steps between states of the tables, and what holds after any number of them.
pub mod Submitting
pub mod Finalizing
pub mod Reviewing
pub mod Scoring
pub mod Forwarding
pub mod Batches
pub mod FinalizingBatches
pub mod ClassScores
pub mod Confirming
pub mod Creating
pub mod Locking
pub mod Commands
pub mod Runs
pub mod Succeeding
pub mod Evidencing
pub mod HandingOn
pub mod FinalizingMany
pub mod Semesters
