-- ===== src/Services/Forward/ToFaculty.antt =====
-- application/evaluation-submit.service.ts: the advisor hands the class on to the faculty.
use apag_be.Prelude.{
  ℕ, Bool, not, ◌&&◌, Option, none, some, [], ◌∷◌, ◌==◌, is_some, length, where_rows, count_where,
  ltb, if◌then◌else◌,
}
use apag_be.Http.{
  Message, Result, ok, bad_request, class_not_found, needs_faculty_user, nothing_to_forward,
  unconfirmed_forms, forms_without_class_score, require, ◌>>=◌, ◌>>◌,
}
use apag_be.Policy.Access.{advisor, EvaluationActor, assert_role, EvaluationCapability}
use apag_be.Policy.Transition.{
  draft, submitted, class_leader_approved, class_approved, faculty_approved, finalized, rejected,
  status_eq, advisor_approval, target,
}
use apag_be.Policy.Deadline.{assert_within_deadline}
use apag_be.Score.{calculate_classification}
use apag_be.Database.Rows.{EvaluationForm, class_forwarded_to_faculty, Faculty, Db, Env, find_by}
use apag_be.Database.Write.{snapshot_of, write_evaluation, for_each, sort_by_id, or_not_found}
use apag_be.Services.Query.{ClassAction, assert_class_access, faculty_of_class}
use apag_be.Services.Submit.{Committed}
use apag_be.Services.Forward.Plan.{
  guard_batch, find_class, SubmitClassDto, find_submission_semester, active_faculty_users, in_class,
  has_status, Plan, ForwardResponse, respond, unscored,
}

-- A form that the advisor has scored and confirmed.
abbrev pub ready_for_faculty : EvaluationForm → Bool
ready_for_faculty f =
    status_eq f.status class_leader_approved
    && is_some f.class_score
    && is_some f.class_reviewed_at
    && not f.is_locked

abbrev unconfirmed_by_advisor : EvaluationForm → Bool
unconfirmed_by_advisor f =
    status_eq f.status class_leader_approved
    && is_some f.class_score
    && not (is_some f.class_reviewed_at)
    && not f.is_locked

abbrev pub class_faculty : ℕ → Db → Option Faculty
class_faculty class_id db = elim (faculty_of_class class_id db) [
  | none ↦ none
  | some id ↦ find_by (λ f. f.id == id) db.faculties
]

abbrev missing_class_score : (EvaluationForm → Bool) → Db → ℕ
missing_class_score target_where db =
    count_where (λ f. target_where f && unscored class_leader_approved f) db.forms

abbrev missing_advisor_confirmation : (EvaluationForm → Bool) → Db → ℕ
missing_advisor_confirmation target_where db =
    count_where (λ f. target_where f && unconfirmed_by_advisor f) db.forms

abbrev pub faculty_refusal : (EvaluationForm → Bool) → Db → Message
faculty_refusal target_where db =
    if ltb 0 (missing_class_score target_where db)
    then forms_without_class_score
    else (if ltb 0 (missing_advisor_confirmation target_where db)
        then unconfirmed_forms
        else nothing_to_forward)

unfoldable pub class_to_faculty_check : EvaluationActor → ℕ → SubmitClassDto → Db → Result Plan
class_to_faculty_check reviewer class_id dto db = do
  assert_role EvaluationCapability.submit_class reviewer (some advisor)
  class_record ← or_not_found class_not_found (find_class class_id db)
  owner ← or_not_found class_not_found (class_faculty class_id db)
  assert_class_access reviewer class_id ClassAction.submit_class (some advisor) db
  let users = active_faculty_users owner.id db
  require (not (length users == 0)) (bad_request needs_faculty_user)
  semester ← find_submission_semester dto.semester_id db
  let target_where = in_class class_id semester.id dto.evaluation_ids
  let eligible = where_rows (λ f. target_where f && ready_for_faculty f) db.forms
  guard_batch dto eligible (faculty_refusal target_where db) (target advisor_approval)
  ok (record {
    eligible = eligible;
    recipients = users;
    deadlines = semester.deadlines;
    code = class_record.code;
    faculty_code = owner.code;
    total_forms = count_where target_where db.forms;
    missing_class_score_count = missing_class_score target_where db;
    missing_confirmation_count = missing_advisor_confirmation target_where db;
    already_forwarded_count =
        count_where
          (λ f. target_where f && has_status (class_approved ∷ faculty_approved ∷ finalized ∷ []) f)
          db.forms;
    not_ready_count =
        count_where (λ f. target_where f && has_status (draft ∷ submitted ∷ rejected ∷ []) f)
          db.forms;
  })

abbrev pub ranked_form : ℕ → EvaluationForm → EvaluationForm
ranked_form score f = record f {
  status = target advisor_approval;
  rank = some (calculate_classification score);
}

-- A form with no class score is skipped.
abbrev pub forward_scored : Option ℕ → EvaluationForm → Db → Result Db
forward_scored none form db = ok db
forward_scored (some score) form db = do
  (_, next) ← write_evaluation (snapshot_of form) (ranked_form score) db
  ok next

unfoldable pub forward_scored_form : EvaluationForm → Db → Result Db
forward_scored_form form db = forward_scored form.class_score form db

unfoldable pub class_to_faculty_write : Env → Plan → Db → Result (Committed ForwardResponse)
class_to_faculty_write env plan db = do
  assert_within_deadline advisor plan.deadlines env.now
  written ← for_each forward_scored_form (sort_by_id plan.eligible) db
  let count = count_where (λ f. is_some f.class_score) (sort_by_id plan.eligible)
  ok (
      respond env plan count (class_forwarded_to_faculty plan.code count plan.faculty_code)
        (target advisor_approval) written)
