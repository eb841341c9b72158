-- ===== src/Policy/Transition.antt =====
-- domain/evaluation-transition.ts: the table of allowed edges of a form's life, and its guards.
pub mod Graph
use apag_be.Prelude.{ℕ, Bool, true, false, not, ◌&&◌, Option, none, some, List, [], ◌∷◌, any, ◌==◌}
use apag_be.Http.{
  Result, ok, err, forbidden, conflict, Message, role_cannot_review, cannot_transition,
  not_reopenable, not_editable, locked, require, ◌>>=◌, ◌>>◌,
}
use apag_be.Policy.Access.{
  UserRole, admin, student, class_leader, advisor, faculty, training_department, role_eq,
  assert_role, review, review_decision,
}

pub data FormStatus : Type 0 where
  draft submitted class_leader_approved class_approved faculty_approved finalized rejected :
      FormStatus

abbrev status_index : FormStatus → ℕ
status_index draft = 0
status_index submitted = 1
status_index class_leader_approved = 2
status_index class_approved = 3
status_index faculty_approved = 4
status_index finalized = 5
status_index rejected = 6

abbrev pub status_eq : FormStatus → FormStatus → Bool
status_eq a b = status_index a == status_index b

-- The keys of `EVALUATION_TRANSITIONS`.
pub data Transition : Type 0 where
  submit class_leader_approval advisor_approval faculty_approval finalize reject reopen : Transition

abbrev pub from : Transition → List FormStatus
from submit = draft ∷ rejected ∷ []
from class_leader_approval = submitted ∷ []
from advisor_approval = class_leader_approved ∷ []
from faculty_approval = class_approved ∷ []
from finalize = faculty_approved ∷ []
from reject = submitted ∷ class_leader_approved ∷ faculty_approved ∷ []
from reopen =
    submitted ∷ class_leader_approved ∷ class_approved ∷ faculty_approved ∷ finalized ∷ rejected
    ∷ []

abbrev pub target : Transition → FormStatus
target submit = submitted
target class_leader_approval = class_leader_approved
target advisor_approval = class_approved
target faculty_approval = faculty_approved
target finalize = finalized
target reject = rejected
target reopen = draft

-- `Object.values(EVALUATION_TRANSITIONS)`
abbrev evaluation_transitions : List Transition
evaluation_transitions =
    submit ∷ class_leader_approval ∷ advisor_approval ∷ faculty_approval ∷ finalize ∷ reject
    ∷ reopen ∷ []

abbrev is_reopen : Transition → Bool
is_reopen reopen = true
is_reopen _ = false

unfoldable pub can_transition : FormStatus → FormStatus → Bool
can_transition current goal =
    any (λ t. not (is_reopen t) && (status_eq (target t) goal && any (status_eq current) (from t)))
      evaluation_transitions

unfoldable pub assert_transition : FormStatus → FormStatus → Result (Unit {0})
unfolding can_transition
assert_transition current goal = require (can_transition current goal) (conflict cannot_transition)

unfoldable pub assert_reopen_transition : FormStatus → Result (Unit {0})
assert_reopen_transition current =
    require (any (status_eq current) (from reopen)) (conflict not_reopenable)

-- The texts put in front of the comment of a form that is returned.
pub data NotePrefix : Type 0 where
  returned_by_class returned_by_advisor returned_by_academy : NotePrefix

-- `REVIEW_STAGES`
abbrev review_stages : UserRole → Option (Transition × NotePrefix)
review_stages class_leader = some (class_leader_approval, returned_by_class)
review_stages advisor = some (advisor_approval, returned_by_advisor)
review_stages admin = some (finalize, returned_by_academy)
review_stages _ = none

pub record ReviewStageConfig : Type 0 where
  pub required_status : Option FormStatus  -- `transition.from[0]`
  pub next_approved_status : FormStatus
  pub note_prefix : NotePrefix

abbrev head_status : List FormStatus → Option FormStatus
head_status [] = none
head_status (s ∷ ss) = some s

abbrev stage_of : Option (Transition × NotePrefix) → FormStatus → Result ReviewStageConfig
stage_of none current = err (forbidden role_cannot_review)
stage_of (some (t, prefix)) current = do
  assert_transition current (target t)
  ok (record {
    required_status = head_status (from t);
    next_approved_status = target t;
    note_prefix = prefix;
  })

unfoldable pub resolve_review_stage : UserRole → FormStatus → Result ReviewStageConfig
unfolding assert_role assert_transition
resolve_review_stage role current = do
  assert_role review_decision (record { id = 0; role = role }) none
  stage_of (review_stages role) current

unfoldable pub assert_not_locked : Bool → Result (Unit {0})
assert_not_locked is_locked = require (not is_locked) (conflict locked)

unfoldable pub assert_editable : FormStatus → Result (Unit {0})
unfolding can_transition
assert_editable status = require (can_transition status (target submit)) (conflict not_editable)

abbrev scoring_transition : UserRole → Transition
scoring_transition class_leader = class_leader_approval
scoring_transition _ = advisor_approval

unfoldable pub assert_review_scores_editable : UserRole → FormStatus → Result (Unit {0})
unfolding assert_role assert_transition
assert_review_scores_editable role status = do
  assert_role review (record { id = 0; role = role }) none
  assert_transition status (target (scoring_transition role))
