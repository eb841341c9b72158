-- ===== src/Database/Audit.antt =====
-- What holds of every stored form between two commands: what a status says of the scores, of the
-- confirmations and of the final result.
use apag_be.Prelude.{ℕ, ◌≡◌, Bool, true, false, Option, none, some, is_some}
use apag_be.Policy.Transition.{
  FormStatus, draft, class_leader_approved, class_approved, faculty_approved, finalized, rejected,
}
use apag_be.Score.{EvalRank, calculate_classification, calculate_score_result}
use apag_be.Score.Bounds.{InSchema}
use apag_be.Database.Rows.{EvaluationForm}

abbrev pub is_finalized : FormStatus → Bool
is_finalized finalized = true
is_finalized _ = false

-- Passed on by the advisor, or further.
abbrev pub past_advisor : FormStatus → Bool
past_advisor class_approved = true
past_advisor faculty_approved = true
past_advisor finalized = true
past_advisor _ = false

-- Passed on by the class leader, or further.
abbrev pub past_leader : FormStatus → Bool
past_leader class_leader_approved = true
past_leader s = past_advisor s

-- With the student.
abbrev pub is_with_student : FormStatus → Bool
is_with_student draft = true
is_with_student rejected = true
is_with_student _ = false

abbrev pub RankedBy : Option ℕ → Option EvalRank → Type 0
RankedBy none rank = Unit
RankedBy (some score) rank = rank ≡ some (calculate_classification score)

pub record Audit (f : EvaluationForm) : Type 0 where
  pub final_score_iff : is_some f.final_score ≡ is_finalized f.status
  pub finalized_at_iff : is_some f.admin_finalized_at ≡ is_finalized f.status
  pub final_rank : RankedBy f.final_score f.rank
  pub class_scored : past_advisor f.status ≡ true → is_some f.class_score ≡ true
  pub advisor_confirmed : past_advisor f.status ≡ true → is_some f.class_reviewed_at ≡ true
  pub leader_confirmed : past_leader f.status ≡ true → is_some f.class_leader_reviewed_at ≡ true
  pub no_class_score : is_with_student f.status ≡ true → f.class_score ≡ none
  pub no_leader : is_with_student f.status ≡ true → f.class_leader_reviewed_at ≡ none
  pub no_advisor : is_with_student f.status ≡ true → f.class_reviewed_at ≡ none
  pub self_score : f.student_score ≡ some (calculate_score_result f.scores).total_score
  pub in_schema : InSchema f.scores
