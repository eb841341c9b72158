-- ===== src/History/Scoring.antt =====
-- A student's changes of a draft, as steps.
pub mod Sections
use apag_be.Prelude.{
  ℕ, ◌≤◌, ◌≡◌, refl, ◌∙◌, true, false, not, Option, none, some, arith, String, length,
}
use apag_be.Http.{Result, ok, >>=-eq-ok}
use apag_be.Policy.Access.{EvaluationActor, student, edit, assert_role}
use apag_be.Policy.Transition.{
  FormStatus, draft, rejected, submitted, submit, target, can_transition, assert_not_locked,
  assert_editable,
}
use apag_be.Policy.Transition.Graph.{
  submit_draft, submit_again, ◌⟶◌, here, can_transition_iff, not_from_final,
}
use apag_be.Score.{
  ScoreInput, calculate_score_result, UpdateStudyScoreDto, calculate_study_score,
  UpdateDisciplineScoreDto, calculate_discipline_score, UpdateActivityScoreDto,
  calculate_activity_score, UpdateCommunityScoreDto, calculate_community_score, UpdateRoleScoreDto,
  calculate_role_score,
}
use apag_be.Score.Bounds.{
  InSchema, calculate_study_score-le, calculate_discipline_score_exact,
  calculate_activity_score_exact, calculate_community_score_exact,
}
use apag_be.Score.Roles.{calculate_role_score-le}
use apag_be.Database.Rows.{EvaluationForm, Db, find_by, find_form}
use apag_be.Database.Write.{snapshot_of, next_version, write_evaluation_and_read}
use apag_be.Database.Laws.{found_by_id}
use apag_be.Database.Audit.{Audit, is_with_student}
use apag_be.Database.Evolution.{workflow, Valid, Grows, Stepped}
use apag_be.Database.Commit.{Sound, Commits, Commits-Stepped}
use apag_be.Services.Submit.{Committed, owned}
use apag_be.Services.Scoring.{
  find_owned_for_write, draft_check, UpdateDraftDto, update_draft_check, update_draft_write,
  noted_form, rescored_form, write_section, study_form, update_study_score, discipline_form,
  update_discipline_score, activity_form, update_activity_score, community_form,
  update_community_score, role_form, update_role_score,
}
use apag_be.History.Submitting.{edit_role, owned-both}

-- What the checks guarantee of the draft that they return.
pub record Draft (actor : EvaluationActor) (id : ℕ) (s : Db) (f : EvaluationForm) : Type 0 where
  pub found : find_form f.id s ≡ some f
  pub asked : f.id ≡ id
  pub by_student : actor.role ≡ student
  pub own : f.student_id ≡ actor.id
  pub unlocked : f.is_locked ≡ false
  pub edge : f.status ⟶ submitted

draft_guards :
    (actor : EvaluationActor) (id : ℕ) (expected : Option ℕ) (s : Db) (f : EvaluationForm)
    → draft_check actor id expected s ≡ ok f
    → (find_by (owned id actor.id) s.forms ≡ some f)
      × (assert_role edit actor none ≡ ok tt)
      × (f.is_locked ≡ false)
      × (can_transition f.status submitted ≡ true)
unfolding draft_check find_owned_for_write assert_not_locked assert_editable
draft_guards actor id expected s f h = ground arith

-- A change of a draft passes the check only for a student, and only for a form of their own that is
-- stored under the id of the request, is not locked, and could be submitted.
pub draft_check-Draft :
    (actor : EvaluationActor) (id : ℕ) (expected : Option ℕ) (s : Db) (f : EvaluationForm)
    → Valid s
    → draft_check actor id expected s ≡ ok f
    → Draft actor id s f
draft_check-Draft actor id expected s f v h =
    let (read, role, free, edge) = draft_guards actor id expected s f h in
    let (asked, own) = owned-both id actor.id s read in
    record {
      found = found_by_id (owned id actor.id) s.forms v.unique read;
      asked = asked;
      by_student = edit_role actor role;
      own = own;
      unlocked = free;
      edge = (can_transition_iff f.status submitted).0 edge;
    }

-- A change of a draft that touches neither its place in the workflow nor its reviews.
pub record Redrafts (f : EvaluationForm) (change : EvaluationForm → EvaluationForm) : Type 0 where
  pub keeps_id : (x : EvaluationForm) → (change x).id ≡ x.id
  pub same_student : (change f).student_id ≡ f.student_id
  pub same_class : (change f).class_id ≡ f.class_id
  pub same_semester : (change f).semester_id ≡ f.semester_id
  pub same_status : (change f).status ≡ f.status
  pub audit : is_with_student f.status ≡ true → Audit f → Audit (next_version change f)

with_student : {s : FormStatus} → s ⟶ submitted → is_with_student s ≡ true
with_student submit_draft = refl
with_student submit_again = refl

pub Redrafts-Sound :
    {f : EvaluationForm} {change : EvaluationForm → EvaluationForm}
    → f.status ⟶ submitted
    → Redrafts f change
    → Sound workflow f change
Redrafts-Sound {f} edge r = record {
  keeps_id = r.keeps_id;
  same_student = r.same_student;
  same_class = r.same_class;
  same_semester = r.same_semester;
  audit = r.audit (with_student edge);
  life = (rw r.same_status (here, omega arith), λ e. absurd (not_from_final edge e));
}

noted-Redrafts : (note : Option (Option String)) (f : EvaluationForm) → Redrafts f (noted_form note)
noted-Redrafts none f = record {
  keeps_id = λ x. refl;
  same_student = refl;
  same_class = refl;
  same_semester = refl;
  same_status = refl;
  audit = λ w a. ground arith;
}
noted-Redrafts (some text) f = record {
  keeps_id = λ x. refl;
  same_student = refl;
  same_class = refl;
  same_semester = refl;
  same_status = refl;
  audit = λ w a. ground arith;
}

pub update_draft-Stepped :
    (actor : EvaluationActor) (id : ℕ) (dto : UpdateDraftDto) (s b : Db) (f : EvaluationForm)
    (out : Committed EvaluationForm)
    → update_draft_check actor id dto s ≡ ok f
    → Valid s
    → Valid b
    → Grows s b
    → update_draft_write actor dto f b ≡ ok out
    → Stepped workflow b out.db
unfolding update_draft_check update_draft_write
update_draft-Stepped actor id dto s b f out checked valid v grown h =
    let can = draft_check-Draft actor id dto.expected_version s f valid (ground arith) in
    let ((row, c), wrote, rest) =
      >>=-eq-ok (write_evaluation_and_read (snapshot_of f) (noted_form dto.note) b) _ h in
    Commits-Stepped can.found v grown (Redrafts-Sound can.edge (noted-Redrafts dto.note f)) out
      (c, ground arith, ground arith)
