-- ===== src/Services/Forward/ToTrainingDepartment.antt =====
-- application/evaluation-submit.service.ts: the faculty hands its forms on to the training department.
use apag_be.Prelude.{
  ℕ, Bool, not, ◌&&◌, Option, none, some, [], ◌∷◌, ◌==◌, is_some, length, where_rows, count_where,
  ltb, if◌then◌else◌,
}
use apag_be.Http.{
  Message, Result, ok, conflict, bad_request, class_not_found, needs_training_department,
  nothing_to_forward, forms_without_class_score, require, ◌>>=◌, ◌>>◌,
}
use apag_be.Policy.Access.{faculty, EvaluationActor, assert_role, EvaluationCapability}
use apag_be.Policy.Transition.{
  draft, submitted, class_leader_approved, class_approved, faculty_approved, finalized, rejected,
  status_eq, faculty_approval, target,
}
use apag_be.Policy.Deadline.{assert_within_deadline}
use apag_be.Database.Rows.{EvaluationForm, faculty_forwarded, Db, Env, find_by}
use apag_be.Database.Write.{for_each, sort_by_id, or_not_found}
use apag_be.Services.Query.{require_faculty_assignment, faculty_of_class}
use apag_be.Services.Submit.{Committed}
use apag_be.Services.Forward.Plan.{
  of_class, in_faculty, SubmitFacultyDto, find_submission_semester, training_department_users,
  has_status, Plan, ForwardResponse, assert_all, respond, forward_form, unscored,
}

-- `whereBase`
abbrev pub of_faculty : ℕ → ℕ → Option ℕ → Db → EvaluationForm → Bool
of_faculty faculty_id semester_id class_id db f =
    f.semester_id == semester_id
    && of_class class_id f
    && in_faculty (faculty_of_class f.class_id db) faculty_id

abbrev pub ready_for_training_department : EvaluationForm → Bool
ready_for_training_department f =
    status_eq f.status class_approved && is_some f.class_score && not f.is_locked

-- The class named in the request must be one of the faculty.
abbrev pub check_class : Option ℕ → ℕ → Db → Result (Unit {0})
check_class none faculty_id db = ok tt
check_class (some class_id) faculty_id db = do
  _ ← or_not_found class_not_found (
      find_by
        (λ c.
          c.id == class_id
          && not (is_some c.deleted_at)
          && in_faculty (faculty_of_class c.id db) faculty_id)
        db.classes)
  ok tt

abbrev missing_faculty_score : (EvaluationForm → Bool) → Db → ℕ
missing_faculty_score where_base db =
    count_where (λ f. where_base f && unscored class_approved f) db.forms

abbrev pub department_refusal : (EvaluationForm → Bool) → Db → Message
department_refusal where_base db =
    if ltb 0 (missing_faculty_score where_base db)
    then forms_without_class_score
    else nothing_to_forward

unfoldable pub faculty_to_training_department_check :
    EvaluationActor → ℕ → SubmitFacultyDto → Db → Result Plan
faculty_to_training_department_check reviewer faculty_id dto db = do
  assert_role EvaluationCapability.approve_faculty reviewer (some faculty)
  owner ← require_faculty_assignment reviewer faculty_id db
  check_class dto.class_id faculty_id db
  let users = training_department_users db
  require (not (length users == 0)) (bad_request needs_training_department)
  semester ← find_submission_semester dto.semester_id db
  let where_base = of_faculty faculty_id semester.id dto.class_id db
  let eligible = where_rows (λ f. where_base f && ready_for_training_department f) db.forms
  require (not (length eligible == 0)) (conflict (department_refusal where_base db))
  assert_all (target faculty_approval) eligible
  ok (record {
    eligible = eligible;
    recipients = users;
    deadlines = semester.deadlines;
    code = owner.code;
    faculty_code = owner.code;
    total_forms = count_where where_base db.forms;
    missing_class_score_count = missing_faculty_score where_base db;
    missing_confirmation_count = 0;
    already_forwarded_count =
        count_where (λ f. where_base f && has_status (faculty_approved ∷ finalized ∷ []) f)
          db.forms;
    not_ready_count =
        count_where
          (λ f.
            where_base f
            && has_status (draft ∷ submitted ∷ class_leader_approved ∷ rejected ∷ []) f)
          db.forms;
  })

unfoldable pub faculty_to_training_department_write :
    Env → Plan → Db → Result (Committed ForwardResponse)
faculty_to_training_department_write env plan db = do
  assert_within_deadline faculty plan.deadlines env.now
  written ← for_each (forward_form faculty_approval) (sort_by_id plan.eligible) db
  let count = length plan.eligible
  ok (respond env plan count (faculty_forwarded plan.code count) (target faculty_approval) written)
