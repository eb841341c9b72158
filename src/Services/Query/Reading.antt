-- ===== src/Services/Query/Reading.antt =====
-- Which forms a reader gets.
use apag_be.Prelude.{some}
use apag_be.Policy.Access.{EvaluationActor, EvaluationAccessFacts}
use apag_be.Database.Rows.{EvaluationForm, Db}
use apag_be.Services.Query.{
  is_assigned, assigned_faculty, assigned_id, assigned_available, faculty_of_class,
}

-- What the tables say of a reader and a form.
abbrev pub stored_facts : EvaluationActor → EvaluationForm → Db → EvaluationAccessFacts
stored_facts actor f db = record {
  student_id = some f.student_id;
  assigned_to_class = some (is_assigned actor.role actor.id f.class_id db);
  faculty_id = faculty_of_class f.class_id db;
  assigned_faculty_id = assigned_id (assigned_faculty actor.id db);
  faculty_available = some (assigned_available (assigned_faculty actor.id db));
}
