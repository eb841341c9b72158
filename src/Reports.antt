-- ===== src/Reports.antt =====
-- modules/reports: the figures of the reports.
pub mod Aggregation
pub mod Totals
