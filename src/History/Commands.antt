-- ===== src/History/Commands.antt =====
-- Every command as one relation: its check has read the state `s`, and its transaction has taken the
-- state `b` to `c`. Between the two other commands may have committed.
use apag_be.Prelude.{ℕ, ◌≡◌, Option, List}
use apag_be.Http.{ok}
use apag_be.Policy.Access.{EvaluationActor}
use apag_be.Database.Rows.{EvaluationForm, Db, Env}
use apag_be.Database.Evolution.{Kind, workflow, reopening, Valid, Grows, Stepped}
use apag_be.Services.Submit.{
  Seen, Committed, Enrolment, submit_check, submit_write, CreateTrainingEvaluationDto, create_check,
  create_write,
}
use apag_be.Services.Forward.Plan.{Plan, SubmitClassDto, SubmitFacultyDto, ForwardResponse}
use apag_be.Services.Forward.ToAdvisor.{class_to_advisor_check, class_to_advisor_write}
use apag_be.Services.Forward.ToFaculty.{class_to_faculty_check, class_to_faculty_write}
use apag_be.Services.Forward.ToTrainingDepartment.{
  faculty_to_training_department_check, faculty_to_training_department_write,
}
use apag_be.Services.Scoring.{draft_check, UpdateDraftDto, update_draft_check, update_draft_write}
use apag_be.Services.Scoring.Review.{
  ReviewScoresDto, ScorePlan, review_scores_check, review_scores_write,
}
use apag_be.Services.Review.{
  ConfirmReviewDto, Confirmation, confirm_check, confirm_write, confirm_review, ReviewDto, Reviewed,
  review_check, review_write,
}
use apag_be.Services.Finalize.{
  Decided, FinalizeEvaluationDto, finalize_check, finalize_write, reopen_check, reopen_write,
  BulkFinalizeDto, bulk_finalize_check, FinalizeByFilterDto, finalize_by_filter_check, Batch,
  FinalizeBatchResult, finalize_batch_write,
}
use apag_be.Services.Evidences.{LinkEvidenceUrlDto, EvidenceResponse, link_url, remove}
use apag_be.History.Evidencing.{link_url-Stepped, remove-Stepped}
use apag_be.Services.Semesters.{
  lock_evaluation_forms_by_semester_ids, unlock_evaluation_forms_by_semester_ids,
}
use apag_be.History.Submitting.{submit_check-Submittable, submit_write-Stepped}
use apag_be.History.Creating.{create-Stepped}
use apag_be.History.Scoring.{draft_check-Draft, update_draft-Stepped}
use apag_be.History.Scoring.Sections.{
  SectionDto, Admissible, update_section, update_section-Stepped,
}
use apag_be.History.ClassScores.{review_scores-Stepped}
use apag_be.History.Confirming.{confirm_review-Stepped, confirm_write-Stepped}
use apag_be.History.Reviewing.{review-Stepped}
use apag_be.History.Forwarding.Checks.{
  class_to_advisor-Stepped, class_to_faculty-Stepped, faculty_to_training_department-Stepped,
}
use apag_be.History.Finalizing.{finalize_check-Finalizable, finalize_write-Stepped, reopen-Stepped}
use apag_be.History.FinalizingBatches.{bulk_finalize-Stepped, finalize_by_filter-Stepped}
use apag_be.History.Semesters.Administering.{SemesterCommand}
use apag_be.History.Semesters.Stepping.{SemesterCommand-Stepped}
use apag_be.History.Locking.{lock-Stepped, unlock-Stepped}

-- A command of a kind that succeeded.
pub data Command (env : Env) (actor : EvaluationActor) (s b : Db) : Kind → Db → Type 0 where
  creates :
      (dto : CreateTrainingEvaluationDto) (e : Enrolment) (out : Committed EvaluationForm)
      → create_check actor dto s ≡ ok e
      → create_write env actor e b ≡ ok out
      → Command env actor s b workflow out.db
  submits :
      (id : ℕ) (expected : Option ℕ) (seen : Seen) (out : Committed EvaluationForm)
      → submit_check actor id expected s ≡ ok seen
      → submit_write env seen b ≡ ok out
      → Command env actor s b workflow out.db
  updates_draft :
      (id : ℕ) (dto : UpdateDraftDto) (f : EvaluationForm) (out : Committed EvaluationForm)
      → update_draft_check actor id dto s ≡ ok f
      → update_draft_write actor dto f b ≡ ok out
      → Command env actor s b workflow out.db
  scores_section :
      (id : ℕ) (expected : Option ℕ) (d : SectionDto) (f : EvaluationForm)
      (out : Committed EvaluationForm)
      → Admissible d
      → draft_check actor id expected s ≡ ok f
      → update_section d f b ≡ ok out
      → Command env actor s b workflow out.db
  scores_class :
      (id : ℕ) (dto : ReviewScoresDto) (plan : ScorePlan) (out : Committed EvaluationForm)
      → review_scores_check actor id dto s ≡ ok plan
      → review_scores_write env actor.role plan b ≡ ok out
      → Command env actor s b workflow out.db
  confirms :
      (id : ℕ) (dto : ConfirmReviewDto) (out : Committed EvaluationForm)
      → confirm_review env actor id dto b ≡ ok out
      → Command env actor s b workflow out.db
  confirms_only :
      (id : ℕ) (dto : ConfirmReviewDto) (c : Confirmation) (out : Committed EvaluationForm)
      → confirm_check env actor id dto s ≡ ok c
      → confirm_write env actor c b ≡ ok out
      → Command env actor s b workflow out.db
  reviews :
      (id : ℕ) (dto : ReviewDto) (r : Reviewed) (out : Committed EvaluationForm)
      → review_check actor id dto s ≡ ok r
      → review_write env actor dto r b ≡ ok out
      → Command env actor s b workflow out.db
  hands_to_advisor :
      (class_id : ℕ) (dto : SubmitClassDto) (plan : Plan) (out : Committed ForwardResponse)
      → class_to_advisor_check actor class_id dto s ≡ ok plan
      → class_to_advisor_write env plan b ≡ ok out
      → Command env actor s b workflow out.db
  hands_to_faculty :
      (class_id : ℕ) (dto : SubmitClassDto) (plan : Plan) (out : Committed ForwardResponse)
      → class_to_faculty_check actor class_id dto s ≡ ok plan
      → class_to_faculty_write env plan b ≡ ok out
      → Command env actor s b workflow out.db
  hands_to_department :
      (faculty_id : ℕ) (dto : SubmitFacultyDto) (plan : Plan) (out : Committed ForwardResponse)
      → faculty_to_training_department_check actor faculty_id dto s ≡ ok plan
      → faculty_to_training_department_write env plan b ≡ ok out
      → Command env actor s b workflow out.db
  finalizes :
      (id : ℕ) (dto : FinalizeEvaluationDto) (d : Decided) (out : Committed EvaluationForm)
      → finalize_check actor id dto s ≡ ok d
      → finalize_write env actor.id d b ≡ ok out
      → Command env actor s b workflow out.db
  finalizes_many :
      (dto : BulkFinalizeDto) (batch : Batch) (out : Committed FinalizeBatchResult)
      → bulk_finalize_check actor dto s ≡ ok batch
      → finalize_batch_write env actor.id batch b ≡ ok out
      → Command env actor s b workflow out.db
  finalizes_filtered :
      (dto : FinalizeByFilterDto) (batch : Batch) (out : Committed FinalizeBatchResult)
      → finalize_by_filter_check actor dto s ≡ ok batch
      → finalize_batch_write env actor.id batch b ≡ ok out
      → Command env actor s b workflow out.db
  reopens :
      (id : ℕ) (expected : Option ℕ) (seen : Seen) (out : Committed EvaluationForm)
      → reopen_check actor id expected s ≡ ok seen
      → reopen_write env seen b ≡ ok out
      → Command env actor s b reopening out.db
  links_evidence :
      (dto : LinkEvidenceUrlDto) (out : EvidenceResponse)
      → link_url env actor dto b ≡ ok out
      → Command env actor s b workflow out.db
  removes_evidence :
      (id : ℕ) (expected : Option ℕ) (out : EvidenceResponse)
      → remove actor id expected b ≡ ok out
      → Command env actor s b workflow out.db
  administers : {c : Db} → SemesterCommand s b c → Command env actor s b workflow c
  locks :
      (ids : List ℕ) → Command env actor s b workflow (lock_evaluation_forms_by_semester_ids ids b)
  unlocks :
      (ids : List ℕ)
      → Command env actor s b workflow (unlock_evaluation_forms_by_semester_ids ids b)

-- A command that succeeds keeps valid tables valid and changes each form only as its kind allows, even
-- where others have committed between what it read and what it writes: every form stays, a changed one
-- has a higher version and the same owner, class and semester, and its status has moved along the
-- workflow, by no more edges than the versions that it has gained, with a finalized form left as it was, or, in a reopening, is a draft again.
pub Command-Stepped :
    (env : Env) (actor : EvaluationActor) (s b c : Db) (k : Kind)
    → Valid s
    → Valid b
    → Grows s b
    → Command env actor s b k c
    → Stepped k b c
Command-Stepped env actor s b c k vs v grown (creates dto e out checked h) =
    create-Stepped env actor e b out v h
Command-Stepped env actor s b c k vs v grown (submits id expected seen out checked h) =
    submit_write-Stepped env actor id s b seen out
      (submit_check-Submittable actor id expected s seen vs checked) v grown h
Command-Stepped env actor s b c k vs v grown (updates_draft id dto f out checked h) =
    update_draft-Stepped actor id dto s b f out checked vs v grown h
Command-Stepped env actor s b c k vs v grown (scores_section id expected d f out fits checked h) =
    let can = draft_check-Draft actor id expected s f vs checked in
    update_section-Stepped d f s b out fits can.edge can.found v grown h
Command-Stepped env actor s b c k vs v grown (scores_class id dto plan out checked h) =
    review_scores-Stepped env actor id dto s b plan out checked v grown h
Command-Stepped env actor s b c k vs v grown (confirms id dto out h) =
    confirm_review-Stepped env actor id dto b out v h
Command-Stepped env actor s b c k vs v grown (confirms_only id dto seen out checked h) =
    confirm_write-Stepped env actor id dto s b seen out v grown checked h
Command-Stepped env actor s b c k vs v grown (reviews id dto r out checked h) =
    review-Stepped env actor id dto s b r out checked v grown h
Command-Stepped env actor s b c k vs v grown (hands_to_advisor class_id dto plan out checked h) =
    class_to_advisor-Stepped env actor s b plan out vs v grown class_id dto checked h
Command-Stepped env actor s b c k vs v grown (hands_to_faculty class_id dto plan out checked h) =
    class_to_faculty-Stepped env actor s b plan out vs v grown class_id dto checked h
Command-Stepped env actor s b c k vs v grown
      (hands_to_department faculty_id dto plan out checked h) =
    faculty_to_training_department-Stepped env actor s b plan out vs v grown faculty_id dto checked
      h
Command-Stepped env actor s b c k vs v grown (finalizes id dto d out checked h) =
    finalize_write-Stepped env actor id dto s b d out
      (finalize_check-Finalizable actor id dto s d checked) v grown h
Command-Stepped env actor s b c k vs v grown (finalizes_many dto batch out checked h) =
    bulk_finalize-Stepped env actor s b batch out vs v grown dto checked h
Command-Stepped env actor s b c k vs v grown (finalizes_filtered dto batch out checked h) =
    finalize_by_filter-Stepped env actor s b batch out vs v grown dto checked h
Command-Stepped env actor s b c k vs v grown (reopens id expected seen out checked h) =
    reopen-Stepped env actor id expected s b seen out checked v grown h
Command-Stepped env actor s b c k vs v grown (links_evidence dto out h) =
    link_url-Stepped env actor dto b out v h
Command-Stepped env actor s b c k vs v grown (removes_evidence id expected out h) =
    remove-Stepped actor id expected b out v h
Command-Stepped env actor s b c k vs v grown (administers cmd) = SemesterCommand-Stepped s b c cmd v
Command-Stepped env actor s b c k vs v grown (locks ids) = lock-Stepped ids b v
Command-Stepped env actor s b c k vs v grown (unlocks ids) = unlock-Stepped ids b v
