-- ===== src/Services/Review.antt =====
-- application/evaluation-review.service.ts: confirming, approving and returning single forms.
use apag_be.Prelude.{ℕ, ◌+◌, true, false, Option, none, some, List, [], ◌∷◌, String}
use apag_be.Http.{
  Result, ok, err, bad_request, forbidden, conflict, form_not_found, no_class_score,
  class_score_required, role_cannot_confirm, ◌>>=◌, ◌>>◌,
}
use apag_be.Policy.Access.{
  UserRole, admin, class_leader, advisor, EvaluationActor, assert_role, EvaluationCapability,
  can_finalize,
}
use apag_be.Policy.Transition.{
  FormStatus, NotePrefix, ReviewStageConfig, Transition, target, assert_transition,
  assert_not_locked, assert_review_scores_editable, resolve_review_stage,
}
use apag_be.Policy.Deadline.{assert_within_deadline}
use apag_be.Score.{calculate_classification}
use apag_be.Database.Rows.{
  EvaluationForm, returned, Notification, form_returned, evaluation_rejected, Db, Env, find_form,
}
use apag_be.Database.Write.{
  snapshot_of, write_evaluation_and_read, assert_expected_evaluation_version,
  create_notification_once, or_not_found,
}
use apag_be.Services.Query.{ClassAction, assert_class_access}
use apag_be.Services.Submit.{Seen, see, Committed, reset_criteria}
use apag_be.Services.Scoring.Review.{ReviewScoreItemDto, review_scores}
use apag_be.Services.Finalize.{commit_form, finalize_reviewed_check, finalize_write}

pub record ConfirmReviewDto : Type 0 where
  pub expected_version : Option ℕ
  pub scores : List ReviewScoreItemDto  -- empty if absent

-- `if (dto.scores?.length) await this.scores.reviewScores(…, tx)`
abbrev pub scored_first : Env → EvaluationActor → ℕ → ConfirmReviewDto → Db → Result Db
scored_first env reviewer id dto db = elim dto.scores [
  | [] ↦ ok db
  | item ∷ items ↦ do
    done ←
        review_scores env reviewer id
          (record { expected_version = dto.expected_version; scores = dto.scores }) db
    ok done.db
]

-- With scores the version was checked by `reviewScores`, and is another one by now.
abbrev pub version_checked : ConfirmReviewDto → EvaluationForm → Result (Unit {0})
version_checked dto form = elim dto.scores [
  | [] ↦ assert_expected_evaluation_version (snapshot_of form) dto.expected_version
  | item ∷ items ↦ ok tt
]

abbrev pub leader_confirmed_form : ℕ → ℕ → EvaluationForm → EvaluationForm
leader_confirmed_form reviewer_id now f = record f {
  class_leader_reviewed_by = some reviewer_id;
  class_leader_reviewed_at = some now;
}

abbrev pub advisor_confirmed_form : ℕ → ℕ → ℕ → EvaluationForm → EvaluationForm
advisor_confirmed_form reviewer_id now score f = record f {
  rank = some (calculate_classification score);
  class_reviewed_by = some reviewer_id;
  class_reviewed_at = some now;
}

abbrev pub confirmed_form : UserRole → ℕ → ℕ → ℕ → EvaluationForm → EvaluationForm
confirmed_form class_leader reviewer_id now score = leader_confirmed_form reviewer_id now
confirmed_form _ reviewer_id now score = advisor_confirmed_form reviewer_id now score

abbrev pub may_confirm : UserRole → FormStatus → Result (Unit {0})
may_confirm class_leader status = assert_review_scores_editable class_leader status
may_confirm advisor status = assert_review_scores_editable advisor status
may_confirm _ status = err (forbidden role_cannot_confirm)

abbrev pub or_unscored : Option ℕ → Result ℕ
or_unscored none = err (conflict no_class_score)
or_unscored (some s) = ok s

-- The form as the transaction reads it after the scores, with its class score.
pub record Confirmation : Type 0 where
  pub seen : Seen
  pub score : ℕ

unfoldable pub confirm_check :
    Env → EvaluationActor → ℕ → ConfirmReviewDto → Db → Result Confirmation
confirm_check env reviewer id dto db = do
  form ← or_not_found form_not_found (find_form id db)
  assert_class_access reviewer form.class_id ClassAction.review none db
  version_checked dto form
  assert_not_locked form.is_locked
  score ← or_unscored form.class_score
  assert_within_deadline reviewer.role (see db form).deadlines env.now
  may_confirm reviewer.role form.status
  ok (record { seen = see db form; score = score })

unfoldable pub confirm_write :
    Env → EvaluationActor → Confirmation → Db → Result (Committed EvaluationForm)
confirm_write env reviewer c db = do
  (row, next) ←
      write_evaluation_and_read (snapshot_of c.seen.form)
        (confirmed_form reviewer.role reviewer.id env.now c.score) db
  ok (record { response = row; emitted = []; db = next })

unfoldable pub confirm_review :
    Env → EvaluationActor → ℕ → ConfirmReviewDto → Db → Result (Committed EvaluationForm)
confirm_review env reviewer id dto db = do
  assert_role EvaluationCapability.review reviewer none
  scored ← scored_first env reviewer id dto db
  c ← confirm_check env reviewer id dto scored
  confirm_write env reviewer c scored

pub data ReviewAction : Type 0 where
  approve reject : ReviewAction

pub record ReviewDto : Type 0 where
  pub action : ReviewAction
  pub class_score : Option ℕ
  pub comment : Option String
  pub expected_version : Option ℕ

-- What `review` has decided to do to the form.
pub data Decision : Type 0 where
  returning : NotePrefix → Decision
  finalizing : ℕ → Decision
  approving : FormStatus → Option ℕ → Decision

pub record Reviewed : Type 0 where
  pub seen : Seen
  pub decision : Decision

abbrev pub review_access : EvaluationActor → EvaluationForm → Db → Result (Unit {0})
review_access reviewer form db =
    let otherwise = assert_class_access reviewer form.class_id ClassAction.review none db in
    elim (can_finalize reviewer) [ true ↦ ok tt | false ↦ otherwise ]

abbrev advisor_score : Option ℕ → Result ℕ
advisor_score none = err (bad_request class_score_required)
advisor_score (some s) = ok s

abbrev pub approval :
    UserRole → EvaluationActor → ReviewDto → ReviewStageConfig → Seen → Result Decision
approval admin reviewer dto stage seen = do
  d ← finalize_reviewed_check reviewer seen
  ok (finalizing d.final_score)
approval advisor reviewer dto stage seen = do
  score ← advisor_score dto.class_score
  ok (approving stage.next_approved_status (some score))
approval _ reviewer dto stage seen = ok (approving stage.next_approved_status none)

abbrev pub decide :
    ReviewAction → EvaluationActor → ReviewDto → ReviewStageConfig → Seen → Result Decision
decide ReviewAction.reject reviewer dto stage seen = do
  assert_transition seen.form.status (target Transition.reject)
  ok (returning stage.note_prefix)
decide approve reviewer dto stage seen = approval reviewer.role reviewer dto stage seen

unfoldable pub review_check : EvaluationActor → ℕ → ReviewDto → Db → Result Reviewed
review_check reviewer id dto db = do
  assert_role EvaluationCapability.review_decision reviewer none
  form ← or_not_found form_not_found (find_form id db)
  review_access reviewer form db
  assert_expected_evaluation_version (snapshot_of form) dto.expected_version
  stage ← resolve_review_stage reviewer.role form.status
  decision ← decide dto.action reviewer dto stage (see db form)
  ok (record { seen = see db form; decision = decision })

abbrev pub returned_form : NotePrefix → Option String → EvaluationForm → EvaluationForm
returned_form prefix comment f = record f {
  status = target Transition.reject;
  note = some (returned prefix comment);
  class_score = none;
  final_score = none;
  class_leader_reviewed_by = none;
  class_leader_reviewed_at = none;
  class_reviewed_by = none;
  class_reviewed_at = none;
  admin_finalized_by = none;
  admin_finalized_at = none;
}

abbrev emitted_of : Option Notification → List Notification
emitted_of none = []
emitted_of (some n) = n ∷ []

-- The transaction of a return to the student.
unfoldable pub return_write :
    Env → EvaluationActor → ReviewDto → NotePrefix → Seen → Db → Result (Committed EvaluationForm)
return_write env reviewer dto prefix seen db = do
  assert_within_deadline reviewer.role seen.deadlines env.now
  (row, next) ←
      write_evaluation_and_read (snapshot_of seen.form) (returned_form prefix dto.comment) db
  let (created, table) =
      create_notification_once env seen.form.student_id (form_returned dto.comment)
        (evaluation_rejected seen.form.id (seen.form.version + 1)) next.notifications
  ok (record {
    response = row;
    emitted = emitted_of created;
    db = record next {
      criteria_scores = reset_criteria seen.form.id next.criteria_scores;
      notifications = table;
    };
  })

abbrev pub approved_form : ℕ → ℕ → FormStatus → Option ℕ → EvaluationForm → EvaluationForm
approved_form reviewer_id now status none f = record (leader_confirmed_form reviewer_id now f) {
  status = status;
}
approved_form reviewer_id now status (some score) f =
    record (advisor_confirmed_form reviewer_id now score f) {
      status = status;
      class_score = some score;
    }

abbrev pub decision_write :
    Decision → Env → EvaluationActor → ReviewDto → Seen → Db → Result (Committed EvaluationForm)
decision_write (returning prefix) env reviewer dto seen db =
    return_write env reviewer dto prefix seen db
decision_write (finalizing score) env reviewer dto seen db =
    finalize_write env reviewer.id (record { seen = seen; final_score = score }) db
decision_write (approving status score) env reviewer dto seen db =
    commit_form (assert_within_deadline reviewer.role seen.deadlines env.now) seen.form
      (approved_form reviewer.id env.now status score) db

unfoldable pub review_write :
    Env → EvaluationActor → ReviewDto → Reviewed → Db → Result (Committed EvaluationForm)
review_write env reviewer dto r db = decision_write r.decision env reviewer dto r.seen db

-- `returnToStudent`: a review that rejects, with the reason as its comment.
abbrev pub return_dto : String → Option ℕ → ReviewDto
return_dto reason expected_version = record {
  action = ReviewAction.reject;
  class_score = none;
  comment = some reason;
  expected_version = expected_version;
}
