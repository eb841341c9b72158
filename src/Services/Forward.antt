-- ===== src/Services/Forward.antt =====
-- application/evaluation-submit.service.ts: handing the forms of a class or of a faculty on to the
-- next level, all of them in one transaction.
pub mod Plan
pub mod ToAdvisor
pub mod ToFaculty
pub mod ToTrainingDepartment
