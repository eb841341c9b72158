-- ===== src/Tests.antt =====
-- Concrete tables, and what the theorems say of them.
mod Data
mod Histories
mod Checks
mod Scores
mod Batches
mod Receipts
mod SemesterPlans
mod Tokens
mod Figures
