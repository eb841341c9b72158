-- ===== src/History/Forwarding/Checks.antt =====
-- What the checks of the three batches have picked.
use apag_be.Prelude.{ℕ, ◌≡◌, Bool, ◌&&◌, true, false, not, ◌==◌, some, where_rows, length, arith}
use apag_be.Http.{
  conflict, bad_request, class_not_found, needs_advisor, needs_faculty_user,
  needs_training_department, ok, >>=-eq-ok, >>-eq-ok, require,
}
use apag_be.Policy.Access.{
  EvaluationCapability, class_leader, advisor, faculty, EvaluationActor, assert_role,
}
use apag_be.Policy.Transition.{advisor_approval, class_leader_approval, faculty_approval, target}
use apag_be.Database.Rows.{Db, Env}
use apag_be.Database.Write.{or_not_found}
use apag_be.Database.Evolution.{workflow, Valid, Grows, Stepped}
use apag_be.Services.Query.{ClassAction, assert_class_access, require_faculty_assignment}
use apag_be.Services.Submit.{Committed}
use apag_be.Services.Forward.Plan.{
  guard_batch, assert_all, find_class, active_advisors, active_faculty_users,
  training_department_users, find_submission_semester, in_class, Plan, SubmitClassDto,
  SubmitFacultyDto, ForwardResponse,
}
use apag_be.Services.Forward.ToAdvisor.{
  advisor_refusal, ready_for_advisor, class_to_advisor_check, class_to_advisor_write,
}
use apag_be.Services.Forward.ToFaculty.{
  faculty_refusal, class_faculty, ready_for_faculty, class_to_faculty_check, class_to_faculty_write,
}
use apag_be.Services.Forward.ToTrainingDepartment.{
  department_refusal, check_class, of_faculty, ready_for_training_department,
  faculty_to_training_department_check, faculty_to_training_department_write,
}
use apag_be.History.Batches.{Picked}
use apag_be.History.Forwarding.{
  advisor_write-Stepped, faculty_write-Stepped, department_write-Stepped,
}

pub second : (a : Bool) {b : Bool} → a && b ≡ true → b ≡ true
second true h = h
second false h = cc

eligible_of : {p plan : Plan} → ok p ≡ ok plan → plan.eligible ≡ p.eligible
eligible_of h = ground arith

pub class_to_advisor_check-Picked :
    (reviewer : EvaluationActor) (class_id : ℕ) (dto : SubmitClassDto) (s : Db) (plan : Plan)
    → class_to_advisor_check reviewer class_id dto s ≡ ok plan
    → Picked ready_for_advisor s plan.eligible
unfolding class_to_advisor_check
class_to_advisor_check-Picked reviewer class_id dto s plan h =
    let (_, h1) =
      >>-eq-ok (assert_role EvaluationCapability.submit_class reviewer (some class_leader)) _ h in
    let (c, _, h2) = >>=-eq-ok (or_not_found class_not_found (find_class class_id s)) _ h1 in
    let (_, h3) =
      >>-eq-ok
        (assert_class_access reviewer class_id ClassAction.submit_class (some class_leader) s) _
        h2 in
    let (_, h4) =
      >>-eq-ok
        (require (not (length (active_advisors class_id s) == 0)) (bad_request needs_advisor)) _
        h3 in
    let (semester, _, h5) = >>=-eq-ok (find_submission_semester dto.semester_id s) _ h4 in
    let target_where = in_class class_id semester.id dto.evaluation_ids in
    let eligible = where_rows (λ f. target_where f && ready_for_advisor f) s.forms in
    let (_, last) =
      >>-eq-ok
        (guard_batch dto eligible (advisor_refusal target_where s) (target class_leader_approval)) _
        h5 in
    record {
      where_clause = λ f. in_class class_id semester.id dto.evaluation_ids f && ready_for_advisor f;
      selected = eligible_of last;
      suits = λ f both. second (in_class class_id semester.id dto.evaluation_ids f) both;
    }

class_to_faculty_check-Picked :
    (reviewer : EvaluationActor) (class_id : ℕ) (dto : SubmitClassDto) (s : Db) (plan : Plan)
    → class_to_faculty_check reviewer class_id dto s ≡ ok plan
    → Picked ready_for_faculty s plan.eligible
unfolding class_to_faculty_check
class_to_faculty_check-Picked reviewer class_id dto s plan h =
    let (_, h1) =
      >>-eq-ok (assert_role EvaluationCapability.submit_class reviewer (some advisor)) _ h in
    let (c, _, h2) = >>=-eq-ok (or_not_found class_not_found (find_class class_id s)) _ h1 in
    let (owner, _, h3) = >>=-eq-ok (or_not_found class_not_found (class_faculty class_id s)) _ h2 in
    let (_, h4) =
      >>-eq-ok (assert_class_access reviewer class_id ClassAction.submit_class (some advisor) s) _
        h3 in
    let (_, h5) =
      >>-eq-ok
        (require (not (length (active_faculty_users owner.id s) == 0))
          (bad_request needs_faculty_user))
        _ h4 in
    let (semester, _, h6) = >>=-eq-ok (find_submission_semester dto.semester_id s) _ h5 in
    let target_where = in_class class_id semester.id dto.evaluation_ids in
    let eligible = where_rows (λ f. target_where f && ready_for_faculty f) s.forms in
    let (_, last) =
      >>-eq-ok (guard_batch dto eligible (faculty_refusal target_where s) (target advisor_approval))
        _ h6 in
    record {
      where_clause = λ f. in_class class_id semester.id dto.evaluation_ids f && ready_for_faculty f;
      selected = eligible_of last;
      suits = λ f both. second (in_class class_id semester.id dto.evaluation_ids f) both;
    }

faculty_check-Picked :
    (reviewer : EvaluationActor) (faculty_id : ℕ) (dto : SubmitFacultyDto) (s : Db) (plan : Plan)
    → faculty_to_training_department_check reviewer faculty_id dto s ≡ ok plan
    → Picked ready_for_training_department s plan.eligible
unfolding faculty_to_training_department_check
faculty_check-Picked reviewer faculty_id dto s plan h =
    let (_, h1) =
      >>-eq-ok (assert_role EvaluationCapability.approve_faculty reviewer (some faculty)) _ h in
    let (owner, _, h2) = >>=-eq-ok (require_faculty_assignment reviewer faculty_id s) _ h1 in
    let (_, h3) = >>-eq-ok (check_class dto.class_id faculty_id s) _ h2 in
    let (_, h4) =
      >>-eq-ok
        (require (not (length (training_department_users s) == 0))
          (bad_request needs_training_department))
        _ h3 in
    let (semester, _, h5) = >>=-eq-ok (find_submission_semester dto.semester_id s) _ h4 in
    let where_base = of_faculty faculty_id semester.id dto.class_id s in
    let eligible = where_rows (λ f. where_base f && ready_for_training_department f) s.forms in
    let (_, h6) =
      >>-eq-ok (require (not (length eligible == 0)) (conflict (department_refusal where_base s))) _
        h5 in
    let (_, last) = >>-eq-ok (assert_all (target faculty_approval) eligible) _ h6 in
    record {
      where_clause = λ f.
          of_faculty faculty_id semester.id dto.class_id s f && ready_for_training_department f;
      selected = eligible_of last;
      suits = λ f both. second (of_faculty faculty_id semester.id dto.class_id s f) both;
    }

module _ (env : Env) (reviewer : EvaluationActor) (s b : Db) (plan : Plan)
    (out : Committed ForwardResponse) (valid : Valid s) (v : Valid b) (grown : Grows s b) where
  pub class_to_advisor-Stepped :
      (class_id : ℕ) (dto : SubmitClassDto)
      → class_to_advisor_check reviewer class_id dto s ≡ ok plan
      → class_to_advisor_write env plan b ≡ ok out
      → Stepped workflow b out.db
  class_to_advisor-Stepped class_id dto checked h =
      advisor_write-Stepped env s b plan out valid v grown
        (class_to_advisor_check-Picked reviewer class_id dto s plan checked) h

  pub class_to_faculty-Stepped :
      (class_id : ℕ) (dto : SubmitClassDto)
      → class_to_faculty_check reviewer class_id dto s ≡ ok plan
      → class_to_faculty_write env plan b ≡ ok out
      → Stepped workflow b out.db
  class_to_faculty-Stepped class_id dto checked h =
      faculty_write-Stepped env s b plan out valid v grown
        (class_to_faculty_check-Picked reviewer class_id dto s plan checked) h

  pub faculty_to_training_department-Stepped :
      (faculty_id : ℕ) (dto : SubmitFacultyDto)
      → faculty_to_training_department_check reviewer faculty_id dto s ≡ ok plan
      → faculty_to_training_department_write env plan b ≡ ok out
      → Stepped workflow b out.db
  faculty_to_training_department-Stepped faculty_id dto checked h =
      department_write-Stepped env s b plan out valid v grown
        (faculty_check-Picked reviewer faculty_id dto s plan checked) h
