-- ===== src/Tests/Checks.antt =====
-- Checks and writes on concrete tables.
use apag_be.Prelude.{
  ℕ, ◌≤◌, ◌≡◌, refl, inr, ◌⊎◌, ◌↔◌, true, false, Option, none, some, [], ◌∷◌, All,
}
use apag_be.Http.{ok, err, conflict, version_conflict}
use apag_be.Policy.Access.{
  student, admin, no_facts, assert_role, can_read, can_edit, can_finalize, faculty_evaluation_scope,
}
use apag_be.Policy.Access.Laws.{
  MayRead, can_read_iff, write_implies_read, faculty_evaluation_scope_own,
}
use apag_be.Policy.Transition.{
  FormStatus, draft, submitted, faculty_approved, finalized, can_transition, assert_transition,
  assert_not_locked, assert_editable, resolve_review_stage, ReviewStageConfig,
}
use apag_be.Policy.Transition.Graph.{
  ◌⟶◌, Awaits, Moves, submit_draft, can_transition_iff, resolve_review_stage_iff, workflow_ends,
}
use apag_be.Policy.Deadline.{EvaluationDeadlines, assert_within_deadline, deadline_for, vietnam_day}
use apag_be.Policy.Deadline.Laws.{assert_within_deadline_iff}
use apag_be.Score.{calculate_score_result}
use apag_be.Database.Rows.{
  EvaluationForm, Db, find_by, find_form, form_returned, evaluation_rejected,
}
use apag_be.Database.Write.{
  snapshot_of, next_version, write_evaluation, assert_expected_evaluation_version,
  create_notification_once, for_each, sort_by_id, assert_expected_evaluation_versions,
}
use apag_be.Database.Conflicts.{Current, write_evaluation-refused}
use apag_be.Database.Notices.{UniqueKeys, create_notification_once-idempotent}
use apag_be.Services.Submit.{Seen, see, Committed, submitted_form, submit_check, submit_command}
use apag_be.Services.Forward.Plan.{assert_all}
use apag_be.Services.Scoring.{draft_check, find_owned_for_write}
use apag_be.Services.Review.{approve, ReviewDto, Reviewed, finalizing, review_check}
use apag_be.Services.Finalize.{
  Decided, FinalizeEvaluationDto, finalize_check, finalize_reviewed_check, BulkFinalizeDto, Batch,
  bulk_finalize_check, FinalizeBatchResult, finalize_one, finalize_batch_write,
}
use apag_be.History.Submitting.{Submittable, submit_check-Submittable}
use apag_be.History.Succeeding.{submit_command-succeeds}
use apag_be.History.Scoring.{Draft, draft_check-Draft}
use apag_be.History.Reviewing.{Justified, review_check-Justified}
use apag_be.History.Finalizing.{Finalizable, finalize_check-Finalizable}
use apag_be.History.FinalizingMany.{final_row, Concluded, bulk_finalize-concludes}
use apag_be.Database.Evolution.{Grows-refl}
use apag_be.Tests.Data.{
  table_of, world, the_student, the_admin, drafted, awaiting, drafted-Audit, awaiting-Audit,
  single-Valid,
}

abbrev drafts : Db
drafts = table_of (drafted ∷ [])

abbrev waiting : Db
waiting = table_of (awaiting ∷ [])

submittable : submit_check the_student 100 none drafts ≡ ok (see drafts drafted)
unfolding submit_check assert_role can_edit assert_expected_evaluation_version assert_not_locked
    assert_transition find_by
submittable = refl

submit_check-Submittable_example : Submittable the_student 100 drafts drafted
submit_check-Submittable_example =
    submit_check-Submittable the_student 100 none drafts (see drafts drafted)
      (single-Valid drafted drafted-Audit) submittable

draft_found : find_form 100 drafts ≡ some drafted
unfolding find_by
draft_found = refl

any_version : assert_expected_evaluation_version (snapshot_of drafted) none ≡ ok tt
unfolding assert_expected_evaluation_version
any_version = refl

in_time : assert_within_deadline student (see drafts drafted).deadlines 1000 ≡ ok tt
unfolding assert_within_deadline deadline_for find_by
in_time = refl

submit_command-succeeds_example :
    (out : Committed EvaluationForm) × (submit_command world the_student 100 none drafts ≡ ok out)
    × (out.response
        ≡ next_version (submitted_form 1000 (calculate_score_result drafted.scores)) drafted)
    × (find_form 100 out.db ≡ some out.response)
    × (out.db.criteria_scores ≡ [])
submit_command-succeeds_example =
    submit_command-succeeds world the_student 100 none drafts drafted (tt, tt) refl draft_found refl
      refl submit_draft any_version in_time

editable : draft_check the_student 100 none drafts ≡ ok drafted
unfolding draft_check find_owned_for_write assert_role can_edit assert_expected_evaluation_version
    assert_not_locked assert_editable find_by
editable = refl

draft_check-Draft_example : Draft the_student 100 drafts drafted
draft_check-Draft_example =
    draft_check-Draft the_student 100 none drafts drafted (single-Valid drafted drafted-Audit)
      editable

abbrev decision : Decided
decision = record { seen = see waiting awaiting; final_score = 70 }

abbrev no_changes : FinalizeEvaluationDto
no_changes = record { expected_version = none; final_score = none }

finalizable : finalize_check the_admin 100 no_changes waiting ≡ ok decision
unfolding finalize_check can_finalize assert_expected_evaluation_version assert_not_locked
    assert_transition find_by
finalizable = refl

finalize_check-Finalizable_example : Finalizable the_admin 100 no_changes waiting decision
finalize_check-Finalizable_example =
    finalize_check-Finalizable the_admin 100 no_changes waiting decision finalizable

abbrev approval_request : ReviewDto
approval_request = record {
  action = approve;
  class_score = none;
  comment = none;
  expected_version = none;
}

abbrev review_result : Reviewed
review_result = record { seen = see waiting awaiting; decision = finalizing 70 }

reviewable : review_check the_admin 100 approval_request waiting ≡ ok review_result
unfolding review_check can_finalize assert_role assert_expected_evaluation_version
    resolve_review_stage finalize_reviewed_check assert_transition find_by
reviewable = refl

review_check-Justified_example :
    (find_form 100 waiting ≡ some awaiting) × Justified awaiting (finalizing 70)
review_check-Justified_example =
    review_check-Justified the_admin 100 approval_request waiting review_result reviewable

abbrev bulk_request : BulkFinalizeDto
bulk_request = record { ids = 100 ∷ 101 ∷ []; expected_versions = none }

abbrev bulk_result : Batch
bulk_result = record {
  forms = see waiting awaiting ∷ [];
  result = record { approved_count = 1; skipped_count = some 1 };
}

bulk_allowed : bulk_finalize_check the_admin bulk_request waiting ≡ ok bulk_result
unfolding bulk_finalize_check can_finalize assert_expected_evaluation_versions assert_all
    assert_transition sort_by_id
bulk_allowed = refl

abbrev concluded : Committed FinalizeBatchResult
concluded = record {
  response = bulk_result.result;
  emitted = [];
  db = table_of (final_row 9 1000 awaiting ∷ []);
}

bulk_written : finalize_batch_write world 9 bulk_result waiting ≡ ok concluded
unfolding finalize_batch_write for_each finalize_one assert_within_deadline deadline_for
    write_evaluation
bulk_written = refl

bulk_finalize-concludes_example :
    All (λ (seen : Seen). Concluded 9 1000 concluded.db seen.form) bulk_result.forms
bulk_finalize-concludes_example =
    bulk_finalize-concludes world the_admin bulk_request waiting waiting bulk_result concluded
      (single-Valid awaiting awaiting-Audit) (single-Valid awaiting awaiting-Audit)
      (Grows-refl waiting) bulk_allowed bulk_written

write_evaluation-refused_example :
    (write_evaluation (record { id = 100; version = 3 }) (λ f. f) drafts
      ≡ err (conflict version_conflict))
    ↔ (¬ Current (record { id = 100; version = 3 }) drafts.forms)
write_evaluation-refused_example =
    write_evaluation-refused (record { id = 100; version = 3 }) (λ f. f) drafts (tt, tt)

create_notification_once-idempotent_example :
    UniqueKeys
      (create_notification_once world 1 (form_returned none) (evaluation_rejected 100 1) []).1
    × (create_notification_once world 1
          (form_returned none)
          (evaluation_rejected 100 1)
          (create_notification_once world 1 (form_returned none) (evaluation_rejected 100 1) []).1
        ≡ (
          none,
          (create_notification_once world 1 (form_returned none) (evaluation_rejected 100 1) []).1,
        ))
create_notification_once-idempotent_example =
    create_notification_once-idempotent world 1 (form_returned none) (evaluation_rejected 100 1) []
      tt

can_transition_iff_example : (can_transition draft submitted ≡ true) ↔ (draft ⟶ submitted)
can_transition_iff_example = can_transition_iff draft submitted

resolve_review_stage_iff_example :
    (((c : ReviewStageConfig) × (resolve_review_stage admin faculty_approved ≡ ok c))
      ↔ Awaits admin faculty_approved)
    × ((c : ReviewStageConfig)
        → resolve_review_stage admin faculty_approved ≡ ok c
        → (c.required_status ≡ some faculty_approved) × (faculty_approved ⟶ c.next_approved_status))
resolve_review_stage_iff_example = resolve_review_stage_iff admin faculty_approved

workflow_ends_example :
    Moves draft finalized
    × ((draft ≡ finalized) ↔ ((t : FormStatus) → can_transition draft t ≡ false))
workflow_ends_example = workflow_ends draft

can_read_iff_example :
    (can_read the_student (record no_facts { student_id = some 1 }) ≡ true)
    ↔ MayRead student 1 (record no_facts { student_id = some 1 })
can_read_iff_example = can_read_iff the_student (record no_facts { student_id = some 1 })

admin_finalizes : can_finalize the_admin ≡ true
unfolding can_finalize
admin_finalizes = refl

write_implies_read_example : can_read the_admin no_facts ≡ true
write_implies_read_example = write_implies_read the_admin no_facts (inr (inr (inr admin_finalizes)))

abbrev own_faculty : Option ℕ
own_faculty = some 5

abbrev no_request : Option ℕ
no_request = none

faculty_evaluation_scope_own_example :
    (faculty_evaluation_scope own_faculty no_request ≡ ok 5)
    ↔ ((own_faculty ≡ some 5) × ((no_request ≡ none) ⊎ (no_request ≡ some 5)))
faculty_evaluation_scope_own_example = faculty_evaluation_scope_own own_faculty no_request 5

abbrev schedule : EvaluationDeadlines
schedule = record { student_deadline = some 5000; class_deadline = none; faculty_deadline = none }

assert_within_deadline_iff_example : (assert_within_deadline student schedule 1000 ≡ ok tt) ↔ (
    (deadline_for student schedule ≡ none)
    ⊎ ((d : ℕ) × (deadline_for student schedule ≡ some d) × (vietnam_day 1000 ≤ vietnam_day d)))
assert_within_deadline_iff_example = assert_within_deadline_iff student schedule 1000
