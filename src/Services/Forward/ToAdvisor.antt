-- ===== src/Services/Forward/ToAdvisor.antt =====
-- application/evaluation-submit.service.ts: the class leader hands the class on to the advisor.
use apag_be.Prelude.{
  ℕ, Bool, not, ◌&&◌, some, [], ◌∷◌, ◌==◌, is_some, length, where_rows, count_where, ltb,
  if◌then◌else◌,
}
use apag_be.Http.{
  Message, Result, ok, bad_request, class_not_found, needs_advisor, nothing_to_forward,
  unconfirmed_forms, require, ◌>>=◌, ◌>>◌,
}
use apag_be.Policy.Access.{class_leader, EvaluationActor, assert_role, EvaluationCapability}
use apag_be.Policy.Transition.{
  draft, submitted, class_leader_approved, class_approved, faculty_approved, finalized, rejected,
  status_eq, class_leader_approval, target,
}
use apag_be.Policy.Deadline.{assert_within_deadline}
use apag_be.Database.Rows.{EvaluationForm, class_forwarded_to_advisor, Db, Env}
use apag_be.Database.Write.{for_each, sort_by_id, or_not_found}
use apag_be.Services.Query.{ClassAction, assert_class_access}
use apag_be.Services.Submit.{Committed}
use apag_be.Services.Forward.Plan.{
  guard_batch, find_class, SubmitClassDto, find_submission_semester, active_advisors, in_class,
  has_status, Plan, ForwardResponse, respond, forward_form,
}

-- A submitted form that the class leader has confirmed.
abbrev pub ready_for_advisor : EvaluationForm → Bool
ready_for_advisor f =
    status_eq f.status submitted && is_some f.class_leader_reviewed_at && not f.is_locked

abbrev unconfirmed_by_leader : EvaluationForm → Bool
unconfirmed_by_leader f =
    status_eq f.status submitted && not (is_some f.class_leader_reviewed_at) && not f.is_locked

abbrev missing_leader_confirmation : (EvaluationForm → Bool) → Db → ℕ
missing_leader_confirmation target_where db =
    count_where (λ f. target_where f && unconfirmed_by_leader f) db.forms

abbrev pub advisor_refusal : (EvaluationForm → Bool) → Db → Message
advisor_refusal target_where db =
    if ltb 0 (missing_leader_confirmation target_where db)
    then unconfirmed_forms
    else nothing_to_forward

unfoldable pub class_to_advisor_check : EvaluationActor → ℕ → SubmitClassDto → Db → Result Plan
class_to_advisor_check reviewer class_id dto db = do
  assert_role EvaluationCapability.submit_class reviewer (some class_leader)
  class_record ← or_not_found class_not_found (find_class class_id db)
  assert_class_access reviewer class_id ClassAction.submit_class (some class_leader) db
  let advisors = active_advisors class_id db
  require (not (length advisors == 0)) (bad_request needs_advisor)
  semester ← find_submission_semester dto.semester_id db
  let target_where = in_class class_id semester.id dto.evaluation_ids
  let eligible = where_rows (λ f. target_where f && ready_for_advisor f) db.forms
  guard_batch dto eligible (advisor_refusal target_where db) (target class_leader_approval)
  ok (record {
    eligible = eligible;
    recipients = advisors;
    deadlines = semester.deadlines;
    code = class_record.code;
    faculty_code = "";
    total_forms = count_where target_where db.forms;
    missing_class_score_count = 0;
    missing_confirmation_count = missing_leader_confirmation target_where db;
    already_forwarded_count =
        count_where
          (λ f.
            target_where f
            && has_status
                (class_leader_approved ∷ class_approved ∷ faculty_approved ∷ finalized ∷ []) f)
          db.forms;
    not_ready_count =
        count_where (λ f. target_where f && has_status (draft ∷ rejected ∷ []) f) db.forms;
  })

unfoldable pub class_to_advisor_write : Env → Plan → Db → Result (Committed ForwardResponse)
class_to_advisor_write env plan db = do
  assert_within_deadline class_leader plan.deadlines env.now
  written ← for_each (forward_form class_leader_approval) (sort_by_id plan.eligible) db
  let count = length plan.eligible
  ok (
      respond env plan count (class_forwarded_to_advisor plan.code count)
        (target class_leader_approval) written)
