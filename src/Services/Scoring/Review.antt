-- ===== src/Services/Scoring/Review.antt =====
-- application/evaluation-score.service.ts, reviewScores: a reviewer scores single criteria.
use apag_be.Prelude.{
  ℕ, not, ◌&&◌, Option, none, some, List, [], ◌∷◌, ◌==◌, String, is_some, or_else, ltb, sum_by,
  count_where, update_where, where_rows, if◌then◌else◌,
}
use text.Mathlib.Text.{◌==◌ as str_eq}
use apag_be.Http.{
  Result, ok, bad_request, form_not_found, criterion_not_found, score_above_maximum, require, ◌>>=◌,
  ◌>>◌,
}
use apag_be.Policy.Access.{
  UserRole, class_leader, EvaluationActor, assert_role, EvaluationCapability,
}
use apag_be.Policy.Transition.{assert_not_locked, assert_review_scores_editable}
use apag_be.Policy.Deadline.{assert_within_deadline}
use apag_be.Database.Rows.{
  EvaluationForm, FormCriteriaScore, EvaluationCriteria, Db, Env, find_by, find_form,
}
use apag_be.Database.Write.{
  EvaluationSnapshot, snapshot_of, is_current, write_evaluation, assert_evaluation_updated,
  assert_expected_evaluation_version, or_not_found,
}
use apag_be.Services.Query.{ClassAction, assert_class_access}
use apag_be.Services.Submit.{Seen, see, Committed}

pub record ReviewScoreItemDto : Type 0 where
  pub criteria_code : String
  pub class_score : ℕ
  pub reviewer_note : Option String

pub record ReviewScoresDto : Type 0 where
  pub expected_version : Option ℕ
  pub scores : List ReviewScoreItemDto

-- `criteriaByCode.get(code)`: codes are unique, and only active criteria are read.
unfoldable pub find_criterion : String → List EvaluationCriteria → Option EvaluationCriteria
find_criterion code = find_by (λ c. str_eq c.code code && c.is_active)

-- An item with the criterion that its code names.
pub record ScoredItem : Type 0 where
  pub criteria_id : ℕ
  pub class_score : ℕ
  pub note : Option String

-- The loop that validates the items; the criteria that it finds are used again when writing.
unfoldable pub resolve_items :
    List EvaluationCriteria → List ReviewScoreItemDto → Result (List ScoredItem)
resolve_items criteria [] = ok []
resolve_items criteria (item ∷ items) =
    let rest = resolve_items criteria items in
    do
      criterion ← or_not_found criterion_not_found (find_criterion item.criteria_code criteria)
      require (not (ltb criterion.max_score item.class_score)) (bad_request score_above_maximum)
      others ← rest
      ok (
          record {
            criteria_id = criterion.id;
            class_score = item.class_score;
            note = item.reviewer_note;
          }
          ∷ others)

-- The form that was read, and the items to write.
pub record ScorePlan : Type 0 where
  pub seen : Seen
  pub items : List ScoredItem

unfoldable pub review_scores_check : EvaluationActor → ℕ → ReviewScoresDto → Db → Result ScorePlan
review_scores_check reviewer id dto db = do
  assert_role EvaluationCapability.review reviewer none
  form ← or_not_found form_not_found (find_form id db)
  assert_class_access reviewer form.class_id ClassAction.review none db
  assert_expected_evaluation_version (snapshot_of form) dto.expected_version
  assert_not_locked form.is_locked
  assert_review_scores_editable reviewer.role form.status
  items ← resolve_items db.criteria dto.scores
  ok (record { seen = see db form; items = items })

-- `upsert` on the unique key (form_id, criteria_id)
unfoldable pub upsert_score : ℕ → ScoredItem → List FormCriteriaScore → List FormCriteriaScore
upsert_score form_id item [] =
    record {
      form_id = form_id;
      criteria_id = item.criteria_id;
      class_score = some item.class_score;
      note = item.note;
    }
    ∷ []
upsert_score form_id item (s ∷ ss) =
    let rest = upsert_score form_id item ss in
    if s.form_id == form_id && s.criteria_id == item.criteria_id
    then record s { class_score = some item.class_score; note = item.note } ∷ ss
    else s ∷ rest

unfoldable pub upsert_all : ℕ → List ScoredItem → List FormCriteriaScore → List FormCriteriaScore
unfolding upsert_score
upsert_all form_id [] table = table
upsert_all form_id (item ∷ items) table = upsert_all form_id items (upsert_score form_id item table)

-- The sum over the rows of the form that have a class score.
unfoldable pub class_score_of : ℕ → List FormCriteriaScore → ℕ
class_score_of form_id table =
    sum_by (λ s. or_else s.class_score 0)
      (where_rows (λ s. s.form_id == form_id && is_some s.class_score) table)

-- A new score takes back the confirmation of the level that gives it.
abbrev pub rescored_by : UserRole → ℕ → EvaluationForm → EvaluationForm
rescored_by class_leader class_score f = record f {
  class_score = some class_score;
  class_leader_reviewed_by = none;
  class_leader_reviewed_at = none;
}
rescored_by _ class_score f = record f {
  class_score = some class_score;
  class_reviewed_by = none;
  class_reviewed_at = none;
}

-- `updateMany({ where: { id, version: claimedVersion } })`, which leaves the version as claimed.
unfoldable pub finish_claim :
    EvaluationSnapshot → (EvaluationForm → EvaluationForm) → Db → Result Db
finish_claim claimed change db = do
  assert_evaluation_updated (count_where (is_current claimed) db.forms)
  ok (record db { forms = update_where (is_current claimed) change db.forms })

-- `applyScores`
unfoldable pub review_scores_write :
    Env → UserRole → ScorePlan → Db → Result (Committed EvaluationForm)
review_scores_write env role plan db = do
  let form = plan.seen.form
  assert_within_deadline role plan.seen.deadlines env.now
  (claimed_version, claimed) ← write_evaluation (snapshot_of form) (λ f. f) db
  let table = upsert_all form.id plan.items claimed.criteria_scores
  finished ←
      finish_claim (record { id = form.id; version = claimed_version })
        (rescored_by role (class_score_of form.id table))
        (record claimed { criteria_scores = table })
  row ← or_not_found form_not_found (find_form form.id finished)
  ok (record { response = row; emitted = []; db = finished })

-- With no other request in between, or on the transaction of `confirmReview`.
unfoldable pub review_scores :
    Env → EvaluationActor → ℕ → ReviewScoresDto → Db → Result (Committed EvaluationForm)
review_scores env reviewer id dto db = do
  plan ← review_scores_check reviewer id dto db
  review_scores_write env reviewer.role plan db
