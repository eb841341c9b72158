-- ===== src/History/Forwarding.antt =====
-- The three batches that hand forms on, as steps.
pub mod Checks
use apag_be.Prelude.{
  ℕ, ◌≡◌, refl, sym, subst, Bool, ◌&&◌, true, false, not, ◌==◌, Option, none, some, List, [], ◌∷◌,
  All, where_rows, length, arith, is_some, if◌then◌else◌, or_else, ltb, count_where,
}
use apag_be.Http.{
  conflict, bad_request, class_not_found, needs_advisor, needs_faculty_user,
  needs_training_department, Result, ok, ◌>>=◌, >>=-eq-ok, >>-eq-ok, require,
}
use apag_be.Policy.Access.{
  EvaluationCapability, class_leader, advisor, faculty, EvaluationActor, assert_role,
}
use apag_be.Policy.Transition.{
  advisor_approval, class_leader_approval, faculty_approval, target, submitted,
  class_leader_approved, class_approved, faculty_approved, status_eq, FormStatus,
}
use apag_be.Policy.Transition.Graph.{
  ◌⟶◌, here, along, not_from_final, leader_approves, advisor_approves, faculty_approves,
}
use apag_be.Policy.Deadline.{assert_within_deadline}
use apag_be.Database.Rows.{EvaluationForm, Db, Env, find_form}
use apag_be.Database.Write.{
  or_not_found, snapshot_of, next_version, write_evaluation, sort_by_id, for_each,
}
use apag_be.Database.Audit.{Audit}
use apag_be.Database.Evolution.{workflow, Valid, Grows, Stepped, for_each-Stepped, Stepped-refl}
use apag_be.Database.Commit.{Sound, write-Stepped, Stepped-forms}
use apag_be.Services.Query.{ClassAction, assert_class_access, require_faculty_assignment}
use apag_be.Services.Submit.{Committed}
use apag_be.Services.Forward.Plan.{
  guard_batch, assert_all, find_class, active_advisors, active_faculty_users,
  training_department_users, find_submission_semester, in_class, Plan, SubmitClassDto,
  SubmitFacultyDto, ForwardResponse, set_status, forward_form,
}
use apag_be.Services.Forward.ToAdvisor.{
  advisor_refusal, ready_for_advisor, class_to_advisor_check, class_to_advisor_write,
}
use apag_be.Services.Forward.ToFaculty.{
  forward_scored, faculty_refusal, class_faculty, ready_for_faculty, class_to_faculty_check,
  class_to_faculty_write, forward_scored_form, ranked_form,
}
use apag_be.Services.Forward.ToTrainingDepartment.{
  department_refusal, check_class, of_faculty, ready_for_training_department,
  faculty_to_training_department_check, faculty_to_training_department_write,
}
use apag_be.History.Batches.{Ready, Picked, All-Picked, written_next-Stepped}

to_advisor-Sound :
    (f : EvaluationForm)
    → ready_for_advisor f ≡ true
    → Sound workflow f (set_status (target class_leader_approval))
to_advisor-Sound f r =
    let at : f.status ≡ submitted = ground arith in
    let edge : f.status ⟶ class_leader_approved = rw at leader_approves in
    record {
      keeps_id = λ x. refl;
      same_student = refl;
      same_class = refl;
      same_semester = refl;
      audit = λ a. ground arith;
      life = ((along edge here, omega arith), λ e. absurd (not_from_final edge e));
    }

to_faculty-Sound :
    (f : EvaluationForm) (score : ℕ)
    → ready_for_faculty f ≡ true
    → Sound workflow f (ranked_form score)
to_faculty-Sound f score r =
    let at : f.status ≡ class_leader_approved = ground arith in
    let edge : f.status ⟶ class_approved = rw at advisor_approves in
    record {
      keeps_id = λ x. refl;
      same_student = refl;
      same_class = refl;
      same_semester = refl;
      audit = λ a. ground arith;
      life = ((along edge here, omega arith), λ e. absurd (not_from_final edge e));
    }

to_training_department-Sound :
    (f : EvaluationForm)
    → ready_for_training_department f ≡ true
    → Sound workflow f (set_status (target faculty_approval))
to_training_department-Sound f r =
    let at : f.status ≡ class_approved = ground arith in
    let edge : f.status ⟶ faculty_approved = rw at faculty_approves in
    record {
      keeps_id = λ x. refl;
      same_student = refl;
      same_class = refl;
      same_semester = refl;
      audit = λ a. ground arith;
      life = ((along edge here, omega arith), λ e. absurd (not_from_final edge e));
    }

pub forward_advisor-Stepped :
    (s : Db) (f : EvaluationForm) (b c : Db)
    → Ready ready_for_advisor s f
    → Valid b
    → Grows s b
    → forward_form class_leader_approval f b ≡ ok c
    → Stepped workflow b c
unfolding forward_form
forward_advisor-Stepped s f b c (found, ready) v grown h =
    written_next-Stepped f (set_status (target class_leader_approval)) c found v grown
      (to_advisor-Sound f ready) h

forward_scored-Stepped :
    (s : Db) (f : EvaluationForm) (score : Option ℕ) (b c : Db)
    → Ready ready_for_faculty s f
    → Valid b
    → Grows s b
    → forward_scored score f b ≡ ok c
    → Stepped workflow b c
forward_scored-Stepped s f none b c (found, ready) v grown h =
    subst (Stepped workflow b) (ground arith) (Stepped-refl v)
forward_scored-Stepped s f (some score) b c (found, ready) v grown h =
    written_next-Stepped f (ranked_form score) c found v grown (to_faculty-Sound f score ready) h

forward_department-Stepped :
    (s : Db) (f : EvaluationForm) (b c : Db)
    → Ready ready_for_training_department s f
    → Valid b
    → Grows s b
    → forward_form faculty_approval f b ≡ ok c
    → Stepped workflow b c
unfolding forward_form
forward_department-Stepped s f b c (found, ready) v grown h =
    written_next-Stepped f (set_status (target faculty_approval)) c found v grown
      (to_training_department-Sound f ready) h

module _ (env : Env) (s b : Db) (plan : Plan) (out : Committed ForwardResponse) (valid : Valid s)
    (v : Valid b) (grown : Grows s b) where
  pub advisor_write-Stepped :
      Picked ready_for_advisor s plan.eligible
      → class_to_advisor_write env plan b ≡ ok out
      → Stepped workflow b out.db
  unfolding class_to_advisor_write
  advisor_write-Stepped picked h =
      let (_, h1) = >>-eq-ok (assert_within_deadline class_leader plan.deadlines env.now) _ h in
      let (c, wrote, h2) =
        >>=-eq-ok (for_each (forward_form class_leader_approval) (sort_by_id plan.eligible) b) _
          h1 in
      Stepped-forms
        (for_each-Stepped (Ready ready_for_advisor s) s (forward_form class_leader_approval)
          (forward_advisor-Stepped s) (sort_by_id plan.eligible) b c
          (All-Picked ready_for_advisor s plan.eligible valid picked) v grown wrote)
        (ground arith)

  pub faculty_write-Stepped :
      Picked ready_for_faculty s plan.eligible
      → class_to_faculty_write env plan b ≡ ok out
      → Stepped workflow b out.db
  unfolding class_to_faculty_write forward_scored_form
  faculty_write-Stepped picked h =
      let (_, h1) = >>-eq-ok (assert_within_deadline advisor plan.deadlines env.now) _ h in
      let (c, wrote, h2) =
        >>=-eq-ok (for_each forward_scored_form (sort_by_id plan.eligible) b) _ h1 in
      Stepped-forms
        (for_each-Stepped (Ready ready_for_faculty s) s forward_scored_form
          (λ f. forward_scored-Stepped s f f.class_score) (sort_by_id plan.eligible) b c
          (All-Picked ready_for_faculty s plan.eligible valid picked) v grown wrote)
        (ground arith)

  pub department_write-Stepped :
      Picked ready_for_training_department s plan.eligible
      → faculty_to_training_department_write env plan b ≡ ok out
      → Stepped workflow b out.db
  unfolding faculty_to_training_department_write
  department_write-Stepped picked h =
      let (_, h1) = >>-eq-ok (assert_within_deadline faculty plan.deadlines env.now) _ h in
      let (c, wrote, h2) =
        >>=-eq-ok (for_each (forward_form faculty_approval) (sort_by_id plan.eligible) b) _ h1 in
      Stepped-forms
        (for_each-Stepped (Ready ready_for_training_department s) s (forward_form faculty_approval)
          (forward_department-Stepped s) (sort_by_id plan.eligible) b c
          (All-Picked ready_for_training_department s plan.eligible valid picked) v grown wrote)
        (ground arith)
