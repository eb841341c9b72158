-- ===== src/History/Semesters.antt =====
-- modules/semesters: what the administration of semesters keeps.
pub mod Closing
pub mod Terms
pub mod Writing
pub mod Administering
pub mod Stepping
pub mod Opening
pub mod Calendar
pub mod Rescheduling
pub mod Keeping
pub mod Scheduling
