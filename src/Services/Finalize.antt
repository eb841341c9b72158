-- ===== src/Services/Finalize.antt =====
-- application/evaluation-finalize.service.ts: the final decision, one form or many, and reopening.
use apag_be.Prelude.{
  ℕ, ◌-◌, Bool, true, not, ◌&&◌, Option, none, some, List, [], map, ◌==◌, any, length, where_rows,
  or_else, ltb,
}
use apag_be.Http.{
  Result, ok, err, conflict, bad_request, form_not_found, no_permission, no_class_score,
  batch_too_large, batch_empty, require, ◌>>=◌, ◌>>◌,
}
use apag_be.Policy.Access.{admin, EvaluationActor, assert_evaluation_access, can_finalize}
use apag_be.Policy.Transition.{
  faculty_approved, status_eq, finalize, reopen, target, assert_transition,
  assert_reopen_transition, assert_not_locked,
}
use apag_be.Policy.Deadline.{assert_within_deadline}
use apag_be.Score.{calculate_classification}
use apag_be.Database.Rows.{EvaluationForm, Db, Env, find_form}
use apag_be.Database.Write.{
  EvaluationSnapshot, snapshot_of, write_evaluation, write_evaluation_and_read,
  assert_expected_evaluation_version, assert_expected_evaluation_versions, for_each, sort_by_id,
  or_not_found,
}
use apag_be.Services.Submit.{Seen, see, Committed}
use apag_be.Services.Query.{faculty_of_class}
use apag_be.Services.Forward.Plan.{assert_all, snapshots, of_class, in_faculty}

abbrev pub bulk_finalize_limit : ℕ
bulk_finalize_limit = 500

abbrev pub reopened_form : EvaluationForm → EvaluationForm
reopened_form f = record f {
  status = target reopen;
  submitted_at = none;
  class_score = none;
  final_score = none;
  class_leader_reviewed_by = none;
  class_leader_reviewed_at = none;
  class_reviewed_by = none;
  class_reviewed_at = none;
  admin_finalized_by = none;
  admin_finalized_at = none;
}

unfoldable pub reopen_check : EvaluationActor → ℕ → Option ℕ → Db → Result Seen
reopen_check actor id expected_version db = do
  assert_evaluation_access (can_finalize actor) no_permission
  current ← or_not_found form_not_found (find_form id db)
  assert_expected_evaluation_version (snapshot_of current) expected_version
  assert_reopen_transition current.status
  ok (see db current)

-- A transaction that checks the deadline and writes one form.
unfoldable pub commit_form :
    Result (Unit {0})
    → EvaluationForm
    → (EvaluationForm → EvaluationForm)
    → Db
    → Result (Committed EvaluationForm)
commit_form deadline form change db = do
  deadline
  (row, written) ← write_evaluation_and_read (snapshot_of form) change db
  ok (record { response = row; emitted = []; db = written })

unfoldable pub reopen_write : Env → Seen → Db → Result (Committed EvaluationForm)
reopen_write env seen =
    commit_form (assert_within_deadline admin seen.deadlines env.now) seen.form reopened_form

abbrev pub finalized_form : ℕ → ℕ → ℕ → EvaluationForm → EvaluationForm
finalized_form admin_id now final_score f = record f {
  status = target finalize;
  final_score = some final_score;
  rank = some (calculate_classification final_score);
  admin_finalized_by = some admin_id;
  admin_finalized_at = some now;
}

pub record FinalizeEvaluationDto : Type 0 where
  pub expected_version : Option ℕ
  pub final_score : Option ℕ

-- A form that was read, with the final score that it is to get.
pub record Decided : Type 0 where
  pub seen : Seen
  pub final_score : ℕ

-- `dto.finalScore ?? current.classScore`
abbrev pub coalesce : Option ℕ → Option ℕ → Option ℕ
coalesce none other = other
coalesce (some a) other = some a

abbrev pub or_conflict : Option ℕ → Result ℕ
or_conflict none = err (conflict no_class_score)
or_conflict (some s) = ok s

unfoldable pub finalize_check : EvaluationActor → ℕ → FinalizeEvaluationDto → Db → Result Decided
finalize_check actor id dto db = do
  assert_evaluation_access (can_finalize actor) no_permission
  current ← or_not_found form_not_found (find_form id db)
  assert_expected_evaluation_version (snapshot_of current) dto.expected_version
  assert_not_locked current.is_locked
  assert_transition current.status (target finalize)
  final_score ← or_conflict (coalesce dto.final_score current.class_score)
  ok (record { seen = see db current; final_score = final_score })

unfoldable pub finalize_write : Env → ℕ → Decided → Db → Result (Committed EvaluationForm)
finalize_write env admin_id d =
    commit_form (assert_within_deadline admin d.seen.deadlines env.now) d.seen.form
      (finalized_form admin_id env.now d.final_score)

-- The checks of `finalizeReviewedForm`, on a form that `review` has read.
unfoldable pub finalize_reviewed_check : EvaluationActor → Seen → Result Decided
finalize_reviewed_check actor seen = do
  assert_evaluation_access (can_finalize actor) no_permission
  assert_transition seen.form.status (target finalize)
  final_score ← or_conflict seen.form.class_score
  ok (record { seen = seen; final_score = final_score })

pub record BulkFinalizeDto : Type 0 where
  pub ids : List ℕ
  pub expected_versions : Option (List EvaluationSnapshot)

pub record FinalizeBatchResult : Type 0 where
  pub approved_count : ℕ
  pub skipped_count : Option ℕ

-- The forms of a batch as they were read, and what is answered when all are written.
pub record Batch : Type 0 where
  pub forms : List Seen
  pub result : FinalizeBatchResult

abbrev pub awaiting_decision : EvaluationForm → Bool
awaiting_decision f = status_eq f.status faculty_approved

unfoldable pub bulk_finalize_check : EvaluationActor → BulkFinalizeDto → Db → Result Batch
bulk_finalize_check actor dto db = do
  assert_evaluation_access (can_finalize actor) no_permission
  require (not (ltb bulk_finalize_limit (length dto.ids))) (bad_request batch_too_large)
  let forms = where_rows (λ f. any (λ i. i == f.id) dto.ids && awaiting_decision f) db.forms
  assert_expected_evaluation_versions (snapshots forms) dto.ids dto.expected_versions
  require (not (length forms == 0)) (bad_request batch_empty)
  assert_all (target finalize) forms
  ok (record {
    forms = map (see db) (sort_by_id forms);
    result = record {
      approved_count = length forms;
      skipped_count = some (length dto.ids - length forms);
    };
  })

pub record FinalizeByFilterDto : Type 0 where
  pub semester_id : Option ℕ
  pub faculty_id : Option ℕ
  pub class_id : Option ℕ
  pub confirm_large_action : Bool

abbrev of_semester : Option ℕ → EvaluationForm → Bool
of_semester none f = true
of_semester (some id) f = f.semester_id == id

abbrev of_faculty_filter : Option ℕ → Db → EvaluationForm → Bool
of_faculty_filter none db f = true
of_faculty_filter (some id) db f = in_faculty (faculty_of_class f.class_id db) id

abbrev pub filtered : FinalizeByFilterDto → Db → EvaluationForm → Bool
filtered dto db f =
    awaiting_decision f
    && of_semester dto.semester_id f
    && of_class dto.class_id f
    && of_faculty_filter dto.faculty_id db f

-- With no candidate the answer is an empty batch, and nothing is written.
unfoldable pub finalize_by_filter_check : EvaluationActor → FinalizeByFilterDto → Db → Result Batch
finalize_by_filter_check actor dto db = do
  assert_evaluation_access (can_finalize actor) no_permission
  let candidates = where_rows (filtered dto db) db.forms
  require (not (ltb bulk_finalize_limit (length candidates) && not dto.confirm_large_action))
      (bad_request batch_too_large)
  assert_all (target finalize) candidates
  ok (record {
    forms = map (see db) (sort_by_id candidates);
    result = record { approved_count = length candidates; skipped_count = none };
  })

-- The body of the loop of `finalizeForms`: a missing class score counts as 0.
unfoldable pub finalize_one : Env → ℕ → Seen → Db → Result Db
finalize_one env admin_id seen db = do
  assert_within_deadline admin seen.deadlines env.now
  (_, next) ←
      write_evaluation (snapshot_of seen.form)
        (finalized_form admin_id env.now (or_else seen.form.class_score 0)) db
  ok next

unfoldable pub finalize_batch_write : Env → ℕ → Batch → Db → Result (Committed FinalizeBatchResult)
finalize_batch_write env admin_id batch db = do
  written ← for_each (finalize_one env admin_id) batch.forms db
  ok (record { response = batch.result; emitted = []; db = written })
