-- ===== src/Tests/Batches.antt =====
-- Reading a form, and handing on a class, on concrete tables.
use apag_be.Prelude.{◌≡◌, refl, none, some, [], ◌∷◌, All}
use apag_be.Http.{ok}
use apag_be.Policy.Access.{assert_role, can_submit_class}
use apag_be.Policy.Transition.{class_leader_approved, assert_transition}
use apag_be.Policy.Deadline.{assert_within_deadline, deadline_for}
use apag_be.Database.Rows.{Db, find_by, find_form, class_forwarded_to_advisor}
use apag_be.Database.Write.{
  write_evaluation, for_each, sort_by_id, assert_expected_evaluation_versions,
}
use apag_be.Database.Evolution.{Grows-refl}
use apag_be.Services.Submit.{Committed}
use apag_be.Services.Query.{assert_class_access}
use apag_be.Services.Forward.Plan.{
  SubmitClassDto, Plan, ForwardResponse, respond, assert_all, forward_form,
  find_submission_semester, latest_semester,
}
use apag_be.Services.Forward.ToAdvisor.{class_to_advisor_check, class_to_advisor_write}
use apag_be.History.HandingOn.{handed_on, class_to_advisor-hands_on}
use apag_be.Tests.Data.{
  first_semester, table_of, world, the_leader, drafted, confirmed, confirmed-Audit, single-Valid,
}

abbrev own_form : Db
own_form = table_of (drafted ∷ [])

abbrev confirmed_class : Db
confirmed_class = table_of (confirmed ∷ [])

abbrev whole_class : SubmitClassDto
whole_class = record { semester_id = none; evaluation_ids = none; expected_versions = none }

abbrev class_plan : Plan
class_plan = record {
  eligible = confirmed ∷ [];
  recipients = 3 ∷ [];
  deadlines = first_semester.deadlines;
  code = "K1";
  faculty_code = "";
  total_forms = 1;
  missing_class_score_count = 0;
  missing_confirmation_count = 0;
  already_forwarded_count = 0;
  not_ready_count = 0;
}

abbrev class_response : Committed ForwardResponse
class_response =
    respond world class_plan 1 (class_forwarded_to_advisor "K1" 1) class_leader_approved
      (table_of (handed_on confirmed ∷ []))

class_ready : class_to_advisor_check the_leader 10 whole_class confirmed_class ≡ ok class_plan
unfolding class_to_advisor_check assert_role assert_class_access can_submit_class
    find_submission_semester latest_semester assert_expected_evaluation_versions assert_all
    assert_transition find_by
class_ready = refl

class_handed_on : class_to_advisor_write world class_plan confirmed_class ≡ ok class_response
unfolding class_to_advisor_write assert_within_deadline deadline_for for_each sort_by_id
    forward_form write_evaluation
class_handed_on = refl

class_to_advisor-hands_on_example :
    All (λ f. find_form f.id class_response.db ≡ some (handed_on f)) (sort_by_id (confirmed ∷ []))
    × (class_response.response.submitted_count ≡ 1)
class_to_advisor-hands_on_example =
    class_to_advisor-hands_on world the_leader 10 whole_class confirmed_class confirmed_class
      class_plan class_response (single-Valid confirmed confirmed-Audit)
      (single-Valid confirmed confirmed-Audit) (Grows-refl confirmed_class) class_ready
      class_handed_on
