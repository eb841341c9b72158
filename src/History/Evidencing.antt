-- ===== src/History/Evidencing.antt =====
-- Linking and removing evidence, as steps: of the form only the version changes.
use apag_be.Prelude.{ℕ, ◌≡◌, refl, true, false, Option, none, some, arith}
use apag_be.Http.{ok, >>=-eq-ok, >>-eq-ok, criterion_not_found, evidence_not_found}
use apag_be.Policy.Access.{EvaluationActor, edit, assert_role}
use apag_be.Policy.Transition.{submitted, can_transition, assert_not_locked, assert_editable}
use apag_be.Policy.Transition.Graph.{◌⟶◌, here, not_from_final, can_transition_iff}
use apag_be.Database.Rows.{EvaluationForm, Db, Env, find_by}
use apag_be.Database.Write.{
  snapshot_of, write_evaluation, assert_expected_evaluation_version, or_not_found,
}
use apag_be.Database.Laws.{found_by_id}
use apag_be.Database.Evolution.{workflow, Valid, Grows-refl, Stepped}
use apag_be.Database.Commit.{Sound, Stepped-forms, write-Stepped}
use apag_be.Services.Submit.{owned}
use apag_be.Services.Scoring.Review.{find_criterion}
use apag_be.Services.Evidences.{
  LinkEvidenceUrlDto, EvidenceResponse, find_owned_editable_form, link_url, evidence_of, remove,
}

owned_editable :
    (actor : EvaluationActor) (id : ℕ) (b : Db) (f : EvaluationForm)
    → find_owned_editable_form actor id b ≡ ok f
    → (find_by (owned id actor.id) b.forms ≡ some f)
      × (f.is_locked ≡ false)
      × (can_transition f.status submitted ≡ true)
unfolding find_owned_editable_form assert_not_locked assert_editable
owned_editable actor id b f h = ground arith

-- Nothing but the version changes.
claim-Sound : (f : EvaluationForm) → f.status ⟶ submitted → Sound workflow f (λ x. x)
claim-Sound f edge = record {
  keeps_id = λ x. refl;
  same_student = refl;
  same_class = refl;
  same_semester = refl;
  audit = λ a. ground arith;
  life = ((here, omega arith), λ e. absurd (not_from_final edge e));
}

claimed-Stepped :
    (actor : EvaluationActor) (id : ℕ) (b c d : Db) (f : EvaluationForm) {n : ℕ}
    → Valid b
    → find_owned_editable_form actor id b ≡ ok f
    → write_evaluation (snapshot_of f) (λ x. x) b ≡ ok (n, c)
    → d.forms ≡ c.forms
    → Stepped workflow b d
claimed-Stepped actor id b c d f v read wrote same =
    let (found, _, editable) = owned_editable actor id b f read in
    Stepped-forms
      (write-Stepped (found_by_id (owned id actor.id) b.forms {f = f} v.unique found) v
        (Grows-refl b) (claim-Sound f ((can_transition_iff f.status submitted).0 editable)) wrote)
      same

pub link_url-Stepped :
    (env : Env) (actor : EvaluationActor) (dto : LinkEvidenceUrlDto) (b : Db)
    (out : EvidenceResponse)
    → Valid b
    → link_url env actor dto b ≡ ok out
    → Stepped workflow b out.db
unfolding link_url
link_url-Stepped env actor dto b out v h =
    let (_, h1) = >>-eq-ok (assert_role edit actor none) _ h in
    let (f, read, h2) = >>=-eq-ok (find_owned_editable_form actor dto.evaluation_form_id b) _ h1 in
    let (_, h3) =
      >>-eq-ok (assert_expected_evaluation_version (snapshot_of f) dto.expected_version) _ h2 in
    let (criterion, _, h4) =
      >>=-eq-ok (or_not_found criterion_not_found (find_criterion dto.criteria_code b.criteria)) _
        h3 in
    let ((n, c), wrote, h5) = >>=-eq-ok (write_evaluation (snapshot_of f) (λ x. x) b) _ h4 in
    claimed-Stepped actor dto.evaluation_form_id b c out.db f v read wrote (ground arith)

pub remove-Stepped :
    (actor : EvaluationActor) (id : ℕ) (expected : Option ℕ) (b : Db) (out : EvidenceResponse)
    → Valid b
    → remove actor id expected b ≡ ok out
    → Stepped workflow b out.db
unfolding remove
remove-Stepped actor id expected b out v h =
    let (_, h1) = >>-eq-ok (assert_role edit actor none) _ h in
    let (e, _, h2) =
      >>=-eq-ok (or_not_found evidence_not_found (find_by (evidence_of id actor.id) b.evidences)) _
        h1 in
    let (f, read, h3) = >>=-eq-ok (find_owned_editable_form actor e.evaluation_form_id b) _ h2 in
    let (_, h4) = >>-eq-ok (assert_expected_evaluation_version (snapshot_of f) expected) _ h3 in
    let ((n, c), wrote, h5) = >>=-eq-ok (write_evaluation (snapshot_of f) (λ x. x) b) _ h4 in
    claimed-Stepped actor e.evaluation_form_id b c out.db f v read wrote (ground arith)
