-- ===== src/Services/Evidences.antt =====
-- modules/evidences/evidences.service.ts: a student links evidence to a form and removes it. Reads and
-- writes stand in one transaction; the version of the form is claimed before the evidence is written.
use apag_be.Prelude.{ℕ, Bool, not, ◌&&◌, Option, none, [], ◌∷◌, ◌++◌, String, ◌==◌, where_rows}
use apag_be.Http.{
  Result, ok, form_not_found, criterion_not_found, evidence_not_found, no_permission, ◌>>=◌, ◌>>◌,
}
use apag_be.Policy.Access.{EvaluationActor, edit, assert_role, assert_evaluation_access, can_edit}
use apag_be.Policy.Transition.{assert_not_locked, assert_editable}
use apag_be.Database.Rows.{EvaluationForm, Evidence, Db, Env, find_by, form_facts}
use apag_be.Database.Write.{
  snapshot_of, write_evaluation, assert_expected_evaluation_version, or_not_found,
}
use apag_be.Services.Submit.{owned}
use apag_be.Services.Scoring.Review.{find_criterion}

pub record LinkEvidenceUrlDto : Type 0 where
  pub evaluation_form_id : ℕ
  pub criteria_code : String
  pub image_url : String
  pub public_id : String
  pub expected_version : Option ℕ

-- The row that is created or deleted, and the version of its form.
pub record EvidenceResponse : Type 0 where
  pub evidence : Evidence
  pub evaluation_version : ℕ
  pub db : Db

unfoldable pub find_owned_editable_form : EvaluationActor → ℕ → Db → Result EvaluationForm
find_owned_editable_form actor id db = do
  assert_role edit actor none
  form ← or_not_found form_not_found (find_by (owned id actor.id) db.forms)
  assert_evaluation_access (can_edit actor (form_facts form)) no_permission
  assert_not_locked form.is_locked
  assert_editable form.status
  ok form

unfoldable pub link_url : Env → EvaluationActor → LinkEvidenceUrlDto → Db → Result EvidenceResponse
link_url env actor dto db = do
  assert_role edit actor none
  form ← find_owned_editable_form actor dto.evaluation_form_id db
  assert_expected_evaluation_version (snapshot_of form) dto.expected_version
  criterion ← or_not_found criterion_not_found (find_criterion dto.criteria_code db.criteria)
  (version, claimed) ← write_evaluation (snapshot_of form) (λ f. f) db
  let evidence : Evidence = record {
    id = env.new_id;
    student_id = actor.id;
    evaluation_form_id = form.id;
    criterion_id = criterion.id;
    image_url = dto.image_url;
    public_id = dto.public_id;
  }
  ok (record {
    evidence = evidence;
    evaluation_version = version;
    db = record claimed { evidences = claimed.evidences ++ evidence ∷ [] };
  })

abbrev pub evidence_of : ℕ → ℕ → Evidence → Bool
evidence_of id student_id e = e.id == id && e.student_id == student_id

unfoldable pub remove : EvaluationActor → ℕ → Option ℕ → Db → Result EvidenceResponse
remove actor id expected_version db = do
  assert_role edit actor none
  evidence ← or_not_found evidence_not_found (find_by (evidence_of id actor.id) db.evidences)
  form ← find_owned_editable_form actor evidence.evaluation_form_id db
  assert_expected_evaluation_version (snapshot_of form) expected_version
  (version, claimed) ← write_evaluation (snapshot_of form) (λ f. f) db
  ok (record {
    evidence = evidence;
    evaluation_version = version;
    db = record claimed { evidences = where_rows (λ e. not (e.id == id)) claimed.evidences };
  })
