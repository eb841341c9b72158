-- ===== src/Policy.antt =====
-- The pure policies of training evaluations (modules/training-evaluations/domain): who may act,
-- which status may follow which, and until when.
pub mod Access
pub mod Transition
pub mod Deadline
