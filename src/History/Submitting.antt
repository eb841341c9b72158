-- ===== src/History/Submitting.antt =====
-- Submitting, as a step: what the check has read is still the row when the write commits.
use apag_be.Prelude.{ℕ, ◌≡◌, refl, false, Option, none, some, arith}
use apag_be.Http.{ok, >>=-eq-ok, >>-eq-ok}
use apag_be.Policy.Access.{EvaluationActor, student, edit, assert_role}
use apag_be.Policy.Transition.{submitted, submit, target, assert_transition, assert_not_locked}
use apag_be.Policy.Transition.Graph.{not_from_final, ◌⟶◌, here, along, assert_transition-⟶}
use apag_be.Policy.Deadline.{assert_within_deadline}
use apag_be.Score.{calculate_score_result}
use apag_be.Database.Rows.{EvaluationForm, Db, Env, find_by, find_form}
use apag_be.Database.Write.{snapshot_of, next_version, write_evaluation_and_read}
use apag_be.Database.Laws.{find_by-true, found_by_id}
use apag_be.Database.Audit.{Audit}
use apag_be.Database.Evolution.{workflow, Valid, Grows, Stepped}
use apag_be.Database.Commit.{Sound, Commits, Commits-Stepped}
use apag_be.Services.Submit.{Seen, Committed, owned, submitted_form, submit_check, submit_write}

-- What the check of a submission guarantees of the form that it returns.
pub record Submittable (actor : EvaluationActor) (id : ℕ) (s : Db) (f : EvaluationForm)
    : Type 0 where
  pub found : find_form f.id s ≡ some f
  pub asked : f.id ≡ id
  pub by_student : actor.role ≡ student
  pub own : f.student_id ≡ actor.id
  pub unlocked : f.is_locked ≡ false
  pub edge : f.status ⟶ submitted

pub edit_role :
    (actor : EvaluationActor) → assert_role edit actor none ≡ ok tt → actor.role ≡ student
unfolding assert_role
edit_role actor h = ground arith

submit_guards :
    (actor : EvaluationActor) (id : ℕ) (expected : Option ℕ) (s : Db) {seen : Seen}
    → submit_check actor id expected s ≡ ok seen
    → (find_by (owned id actor.id) s.forms ≡ some seen.form)
      × (assert_role edit actor none ≡ ok tt)
      × (seen.form.is_locked ≡ false)
      × (assert_transition seen.form.status (target submit) ≡ ok tt)
unfolding submit_check assert_not_locked
submit_guards actor id expected s h = ground arith

pub owned-both :
    (id user_id : ℕ) (s : Db) {f : EvaluationForm}
    → find_by (owned id user_id) s.forms ≡ some f
    → (f.id ≡ id) × (f.student_id ≡ user_id)
owned-both id user_id s {f} h =
    let both = find_by-true (owned id user_id) s.forms {x = f} h in (ground arith, ground arith)

-- A submission passes the check only for a student, and only for a form of their own that is stored
-- under the id of the request, is not locked, and may go to `submitted` by an edge of the workflow.
pub submit_check-Submittable :
    (actor : EvaluationActor) (id : ℕ) (expected : Option ℕ) (s : Db) (seen : Seen)
    → Valid s
    → submit_check actor id expected s ≡ ok seen
    → Submittable actor id s seen.form
submit_check-Submittable actor id expected s seen v h =
    let (read, role, free, edge) = submit_guards actor id expected s h in
    let (asked, own) = owned-both id actor.id s read in
    record {
      found = found_by_id (owned id actor.id) s.forms v.unique read;
      asked = asked;
      by_student = edit_role actor role;
      own = own;
      unlocked = free;
      edge = assert_transition-⟶ seen.form.status submitted edge;
    }

submitted-Audit :
    (now : ℕ) (f : EvaluationForm)
    → Audit f
    → Audit (next_version (submitted_form now (calculate_score_result f.scores)) f)
submitted-Audit now f a = ground arith

submitted-Sound :
    (now : ℕ) (f : EvaluationForm)
    → f.status ⟶ submitted
    → Sound workflow f (submitted_form now (calculate_score_result f.scores))
submitted-Sound now f edge = record {
  keeps_id = λ x. refl;
  same_student = refl;
  same_class = refl;
  same_semester = refl;
  audit = submitted-Audit now f;
  life = ((along edge here, omega arith), λ e. absurd (not_from_final edge e));
}

submit_wrote :
    (env : Env) (seen : Seen) (b : Db) (out : Committed EvaluationForm)
    → submit_write env seen b ≡ ok out
    → Commits seen.form (submitted_form env.now (calculate_score_result seen.form.scores)) b out
unfolding submit_write
submit_wrote env seen b out h =
    let (_, h1) = >>-eq-ok (assert_within_deadline student seen.deadlines env.now) _ h in
    let ((row, c), wrote, h2) =
      >>=-eq-ok
        (write_evaluation_and_read (snapshot_of seen.form)
          (submitted_form env.now (calculate_score_result seen.form.scores)) b)
        _ h1 in
    (c, ground arith, ground arith)

pub submit_write-Stepped :
    (env : Env) (actor : EvaluationActor) (id : ℕ) (s b : Db) (seen : Seen)
    (out : Committed EvaluationForm)
    → Submittable actor id s seen.form
    → Valid b
    → Grows s b
    → submit_write env seen b ≡ ok out
    → Stepped workflow b out.db
submit_write-Stepped env actor id s b seen out can v grown h =
    Commits-Stepped can.found v grown (submitted-Sound env.now seen.form can.edge) out
      (submit_wrote env seen b out h)
