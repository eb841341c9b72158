-- ===== src/Services/Submit.antt =====
-- application/evaluation-submit.service.ts: creating a form and handing it in.
use apag_be.Prelude.{
  ℕ, ◌+◌, Bool, false, not, ◌&&◌, ◌||◌, Option, none, some, List, [], ◌∷◌, ◌++◌, ◌==◌, any,
  update_where,
}
use apag_be.Http.{
  Result, ok, err, conflict, bad_request, Message, form_not_found, semester_not_found, needs_class,
  form_exists, academic_year_invalid, no_permission, require, ◌>>=◌, ◌>>◌,
}
use apag_be.Policy.Access.{
  student, EvaluationActor, edit, assert_evaluation_access, assert_role, can_edit,
}
use apag_be.Policy.Transition.{draft, submit, target, assert_transition, assert_not_locked}
use apag_be.Policy.Deadline.{EvaluationDeadlines, assert_within_deadline}
use apag_be.Score.{ScoreResult, calculate_score_result}
use apag_be.Database.Rows.{
  EvaluationForm, FormCriteriaScore, Notification, SemesterNo, semester_1, semester_2, ClassStudent,
  Db, Env, find_by, form_deadlines, form_facts,
}
use apag_be.Database.Write.{
  snapshot_of, write_evaluation_and_read, assert_expected_evaluation_version, or_not_found,
}

-- A form as a command read it, with the deadlines of its semester.
pub record Seen : Type 0 where
  pub form : EvaluationForm
  pub deadlines : EvaluationDeadlines

abbrev pub see : Db → EvaluationForm → Seen
see db form = record { form = form; deadlines = form_deadlines db form }

-- What a command returns, the notifications to emit after the commit, and the tables.
pub record Committed (A : Type 0) : Type 0 where
  pub response : A
  pub emitted : List Notification
  pub db : Db

pub data TrainingEvaluationSemester : Type 0 where
  hk1 hk2 summer : TrainingEvaluationSemester

-- helpers/semester.helper.ts
unfoldable pub to_semester_no : TrainingEvaluationSemester → SemesterNo
to_semester_no hk1 = semester_1
to_semester_no hk2 = semester_2
to_semester_no TrainingEvaluationSemester.summer = SemesterNo.summer

abbrev pub semester_index : SemesterNo → ℕ
semester_index semester_1 = 0
semester_index semester_2 = 1
semester_index SemesterNo.summer = 2

-- "YYYY-YYYY": the request is let in only in this form, so both parts are numbers.
pub record AcademicYear : Type 0 where
  pub start_year : ℕ
  pub end_year : ℕ

unfoldable pub parse_academic_year_start : AcademicYear → Result ℕ
parse_academic_year_start y = do
  require (y.end_year == y.start_year + 1) (bad_request academic_year_invalid)
  ok y.start_year

pub record CreateTrainingEvaluationDto : Type 0 where
  pub semester : TrainingEvaluationSemester
  pub academic_year : AcademicYear

abbrev or_bad_request {ℓ} : {A : Type ℓ} → Message → Option A → Result A
or_bad_request m none = err (bad_request m)
or_bad_request m (some a) = ok a

-- The unique constraint on student and semester.
abbrev pub of_student_semester : ℕ → ℕ → EvaluationForm → Bool
of_student_semester student_id semester_id f =
    f.student_id == student_id && f.semester_id == semester_id

abbrev pub new_form : ℕ → ℕ → ℕ → ℕ → EvaluationForm
new_form id student_id class_id semester_id = record {
  id = id;
  version = 0;
  student_id = student_id;
  class_id = class_id;
  semester_id = semester_id;
  status = draft;
  student_score = some 0;
  class_score = none;
  final_score = none;
  rank = none;
  note = none;
  scores = record {
    study_score = 0;
    discipline_score = 0;
    activity_score = 0;
    community_score = 0;
    role_score = 0;
  };
  discipline_base_score = 25;
  study_data = none;
  discipline_data = none;
  activity_data = none;
  community_data = none;
  role_data = none;
  class_leader_reviewed_by = none;
  class_leader_reviewed_at = none;
  class_reviewed_by = none;
  class_reviewed_at = none;
  admin_finalized_by = none;
  admin_finalized_at = none;
  submitted_at = none;
  is_locked = false;
}

-- The class and the semester of the form to create.
pub record Enrolment : Type 0 where
  pub class_id : ℕ
  pub semester_id : ℕ

unfoldable pub create_check : EvaluationActor → CreateTrainingEvaluationDto → Db → Result Enrolment
create_check actor dto db = do
  assert_role edit actor none
  year ← parse_academic_year_start dto.academic_year
  semester ← or_not_found semester_not_found (
      find_by
        (λ s.
          s.year == year
          && semester_index s.semester == semester_index (to_semester_no dto.semester))
        db.semesters)
  current_class ←
      or_bad_request needs_class
        (find_by (λ (c : ClassStudent). c.student_id == actor.id) db.class_students)
  require (not (any (of_student_semester actor.id semester.id) db.forms)) (conflict form_exists)
  ok (record { class_id = current_class.class_id; semester_id = semester.id })

-- P2002 covers both unique keys of the table.
unfoldable pub create_write :
    Env → EvaluationActor → Enrolment → Db → Result (Committed EvaluationForm)
create_write env actor e db = do
  require
      (not (any (λ f. of_student_semester actor.id e.semester_id f || f.id == env.new_id) db.forms))
      (conflict form_exists)
  let form = new_form env.new_id actor.id e.class_id e.semester_id
  ok (record { response = form; emitted = []; db = record db { forms = db.forms ++ form ∷ [] } })

-- `formCriteriaScore.updateMany({ where: { formId }, data: { classScore: null, note: null } })`
abbrev pub reset_criteria : ℕ → List FormCriteriaScore → List FormCriteriaScore
reset_criteria form_id =
    update_where (λ s. s.form_id == form_id) (λ s. record s { class_score = none; note = none })

abbrev pub submitted_form : ℕ → ScoreResult → EvaluationForm → EvaluationForm
submitted_form now result f = record f {
  status = target submit;
  submitted_at = some now;
  student_score = some result.total_score;
  rank = some result.rank;
  class_score = none;
  final_score = none;
  class_leader_reviewed_by = none;
  class_leader_reviewed_at = none;
  class_reviewed_by = none;
  class_reviewed_at = none;
  admin_finalized_by = none;
  admin_finalized_at = none;
}

-- `where: { id, studentId: userId }`
abbrev pub owned : ℕ → ℕ → EvaluationForm → Bool
owned id student_id f = f.id == id && f.student_id == student_id

unfoldable pub submit_check : EvaluationActor → ℕ → Option ℕ → Db → Result Seen
submit_check actor id expected_version db = do
  assert_role edit actor none
  current ← or_not_found form_not_found (find_by (owned id actor.id) db.forms)
  assert_evaluation_access (can_edit actor (form_facts current)) no_permission
  assert_expected_evaluation_version (snapshot_of current) expected_version
  assert_not_locked current.is_locked
  assert_transition current.status (target submit)
  ok (see db current)

unfoldable pub submit_write : Env → Seen → Db → Result (Committed EvaluationForm)
submit_write env seen db = do
  assert_within_deadline student seen.deadlines env.now
  (row, written) ←
      write_evaluation_and_read (snapshot_of seen.form)
        (submitted_form env.now (calculate_score_result seen.form.scores)) db
  ok (record {
    response = row;
    emitted = [];
    db = record written { criteria_scores = reset_criteria seen.form.id written.criteria_scores };
  })

-- With no other request in between.
unfoldable pub submit_command :
    Env → EvaluationActor → ℕ → Option ℕ → Db → Result (Committed EvaluationForm)
submit_command env actor id expected_version db = do
  seen ← submit_check actor id expected_version db
  submit_write env seen db
