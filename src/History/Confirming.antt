-- ===== src/History/Confirming.antt =====
-- Confirming the scores of a form, together with new scores or without, as a step.
use apag_be.Prelude.{ℕ, ◌≡◌, refl, subst, inl, inr, false, Option, none, some, List, [], ◌∷◌, arith}
use apag_be.Http.{ok, >>=-eq-ok, >>-eq-ok}
use apag_be.Policy.Access.{
  UserRole, EvaluationActor, class_leader, advisor, assert_role, EvaluationCapability,
}
use apag_be.Policy.Transition.{assert_not_locked}
use apag_be.Policy.Transition.Graph.{here}
use apag_be.Database.Rows.{EvaluationForm, Db, Env, find_form}
use apag_be.Database.Write.{snapshot_of, write_evaluation_and_read}
use apag_be.Database.Evolution.{
  workflow, Valid, Grows, Grows-refl, Stepped, Stepped-refl, Stepped-trans,
}
use apag_be.Database.Commit.{Sound, Commits-Stepped}
use apag_be.Services.Submit.{Committed}
use apag_be.Services.Scoring.Review.{
  ReviewScoresDto, ReviewScoreItemDto, review_scores_check, review_scores,
}
use apag_be.Services.Review.{
  ConfirmReviewDto, scored_first, may_confirm, confirmed_form, Confirmation, confirm_check,
  confirm_write, confirm_review,
}
use apag_be.History.Finalizing.{found_again}
use apag_be.History.ClassScores.{Scorable, Scorable-status, not_final, review_scores-Stepped}

pub review_scores_command-Stepped :
    (env : Env) (reviewer : EvaluationActor) (id : ℕ) (dto : ReviewScoresDto) (b : Db)
    (out : Committed EvaluationForm)
    → Valid b
    → review_scores env reviewer id dto b ≡ ok out
    → Stepped workflow b out.db
unfolding review_scores
review_scores_command-Stepped env reviewer id dto b out v h =
    let (plan, checked, wrote) = >>=-eq-ok (review_scores_check reviewer id dto b) _ h in
    review_scores-Stepped env reviewer id dto b b plan out checked v (Grows-refl b) wrote

may_confirm-Scorable :
    (role : UserRole) (f : EvaluationForm) → may_confirm role f.status ≡ ok tt → Scorable role f
may_confirm-Scorable class_leader f h = Scorable-status class_leader f h
may_confirm-Scorable advisor f h = Scorable-status advisor f h
may_confirm-Scorable _ f h = absurd (ground arith)

confirm_guards :
    (env : Env) (reviewer : EvaluationActor) (id : ℕ) (dto : ConfirmReviewDto) (s : Db)
    (c : Confirmation)
    → confirm_check env reviewer id dto s ≡ ok c
    → (find_form id s ≡ some c.seen.form)
      × (c.seen.form.is_locked ≡ false)
      × (c.seen.form.class_score ≡ some c.score)
      × (may_confirm reviewer.role c.seen.form.status ≡ ok tt)
unfolding confirm_check assert_not_locked
confirm_guards env reviewer id dto s c h = ground arith

confirmed-Sound :
    (role : UserRole) (reviewer_id now score : ℕ) (f : EvaluationForm)
    → Scorable role f
    → Sound workflow f (confirmed_form role reviewer_id now score)
confirmed-Sound role reviewer_id now score f (inl (who, at)) = rw who (record {
  keeps_id = λ x. refl;
  same_student = refl;
  same_class = refl;
  same_semester = refl;
  audit = λ a. ground arith;
  life = ((here, omega arith), λ e. absurd (not_final role f (inl (who, at)) e));
})
confirmed-Sound role reviewer_id now score f (inr (who, at)) = rw who (record {
  keeps_id = λ x. refl;
  same_student = refl;
  same_class = refl;
  same_semester = refl;
  audit = λ a. ground arith;
  life = ((here, omega arith), λ e. absurd (not_final role f (inr (who, at)) e));
})

pub confirm_write-Stepped :
    (env : Env) (reviewer : EvaluationActor) (id : ℕ) (dto : ConfirmReviewDto) (s b : Db)
    (c : Confirmation) (out : Committed EvaluationForm)
    → Valid b
    → Grows s b
    → confirm_check env reviewer id dto s ≡ ok c
    → confirm_write env reviewer c b ≡ ok out
    → Stepped workflow b out.db
unfolding confirm_write
confirm_write-Stepped env reviewer id dto s b c out v grown checked h =
    let f = c.seen.form in
    let (read, _, _, may) = confirm_guards env reviewer id dto s c checked in
    let change = confirmed_form reviewer.role reviewer.id env.now c.score in
    let ((row, d), wrote, rest) =
      >>=-eq-ok (write_evaluation_and_read (snapshot_of f) change b) _ h in
    Commits-Stepped (found_again id s f read) v grown
      (confirmed-Sound reviewer.role reviewer.id env.now c.score f
        (may_confirm-Scorable reviewer.role f may))
      out (d, ground arith, ground arith)

scored_first-Stepped :
    (env : Env) (reviewer : EvaluationActor) (id : ℕ) (expected : Option ℕ)
    (scores : List ReviewScoreItemDto) (b c : Db)
    → Valid b
    → scored_first env reviewer id (record { expected_version = expected; scores = scores }) b
      ≡ ok c
    → Stepped workflow b c
scored_first-Stepped env reviewer id expected [] b c v h =
    subst (Stepped workflow b) (ground arith) (Stepped-refl v)
scored_first-Stepped env reviewer id expected (item ∷ items) b c v h =
    let dto : ReviewScoresDto = record { expected_version = expected; scores = item ∷ items } in
    let (done, wrote, rest) = >>=-eq-ok (review_scores env reviewer id dto b) _ h in
    subst (Stepped workflow b) (ground arith)
      (review_scores_command-Stepped env reviewer id dto b done v wrote)

pub confirm_review-Stepped :
    (env : Env) (reviewer : EvaluationActor) (id : ℕ) (dto : ConfirmReviewDto) (b : Db)
    (out : Committed EvaluationForm)
    → Valid b
    → confirm_review env reviewer id dto b ≡ ok out
    → Stepped workflow b out.db
unfolding confirm_review
confirm_review-Stepped env reviewer id dto b out v h =
    let (_, h1) = >>-eq-ok (assert_role EvaluationCapability.review reviewer none) _ h in
    let (scored, first, h2) = >>=-eq-ok (scored_first env reviewer id dto b) _ h1 in
    let (c, checked, wrote) = >>=-eq-ok (confirm_check env reviewer id dto scored) _ h2 in
    let st =
      scored_first-Stepped env reviewer id dto.expected_version dto.scores b scored v first in
    Stepped-trans st (
      confirm_write-Stepped env reviewer id dto scored scored c out st.valid (Grows-refl scored)
        checked wrote)
