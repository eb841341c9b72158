-- ===== src/History/Reviewing.antt =====
-- Approving and returning single forms, as steps.
use apag_be.Prelude.{String, subst, ℕ, ◌≡◌, refl, Option, none, some, arith}
use apag_be.Database.Laws.{or_not_found-eq-ok}
use apag_be.Http.{form_not_found, ok, >>=-eq-ok, >>-eq-ok}
use apag_be.Policy.Access.{EvaluationActor, assert_role, review_decision}
use apag_be.Policy.Transition.{
  FormStatus, submitted, class_leader_approved, class_approved, finalized, rejected,
  assert_transition, NotePrefix, ReviewStageConfig, resolve_review_stage,
}
use apag_be.Policy.Transition.Graph.{
  not_from_final, leader_approves, advisor_approves, ◌⟶◌, here, along, assert_transition-⟶,
}
use apag_be.Policy.Deadline.{assert_within_deadline}
use apag_be.Database.Rows.{EvaluationForm, Db, Env, find_form}
use apag_be.Database.Write.{
  snapshot_of, next_version, write_evaluation_and_read, or_not_found,
  assert_expected_evaluation_version,
}
use apag_be.Database.Audit.{Audit}
use apag_be.Database.Evolution.{workflow, Valid, Grows, Stepped}
use apag_be.Database.Commit.{Sound, Commits, Commits-Stepped}
use apag_be.Services.Submit.{Seen, see, Committed}
use apag_be.Services.Finalize.{finalize_write, finalize_reviewed_check}
use apag_be.Services.Review.{
  review_access, ReviewAction, decide, ReviewDto, Decision, returning, finalizing, approving,
  Reviewed, returned_form, approved_form, review_check, return_write, decision_write, review_write,
}
use apag_be.History.Finalizing.{commit_form-Commits, found_again, finalized-Sound}

-- What allows a decision on a form.
abbrev pub Justified : EvaluationForm → Decision → Type 0
Justified f (returning prefix) = f.status ⟶ rejected
Justified f (finalizing score) = (f.status ⟶ finalized) × (f.class_score ≡ some score)
Justified f (approving status none) = (f.status ≡ submitted) × (status ≡ class_leader_approved)
Justified f (approving status (some score)) =
    (f.status ≡ class_leader_approved) × (status ≡ class_approved)

returning_justified :
    (action : ReviewAction) (actor : EvaluationActor) (dto : ReviewDto) (stage : ReviewStageConfig)
    (seen : Seen) (prefix : NotePrefix)
    → decide action actor dto stage seen ≡ ok (returning prefix)
    → assert_transition seen.form.status rejected ≡ ok tt
unfolding finalize_reviewed_check
returning_justified action actor dto stage seen prefix h = ground arith

finalizing_justified :
    (action : ReviewAction) (actor : EvaluationActor) (dto : ReviewDto) (stage : ReviewStageConfig)
    (seen : Seen) (score : ℕ)
    → decide action actor dto stage seen ≡ ok (finalizing score)
    → (assert_transition seen.form.status finalized ≡ ok tt) × (seen.form.class_score ≡ some score)
unfolding finalize_reviewed_check
finalizing_justified action actor dto stage seen score h = ground arith

approving-Justified :
    (action : ReviewAction) (actor : EvaluationActor) (dto : ReviewDto) (stage : ReviewStageConfig)
    (seen : Seen) (status : FormStatus) (score : Option ℕ)
    → resolve_review_stage actor.role seen.form.status ≡ ok stage
    → decide action actor dto stage seen ≡ ok (approving status score)
    → Justified seen.form (approving status score)
unfolding resolve_review_stage finalize_reviewed_check
approving-Justified action actor dto stage seen status none r h = (ground arith, ground arith)
approving-Justified action actor dto stage seen status (some x) r h = (ground arith, ground arith)

decide-Justified :
    (action : ReviewAction) (actor : EvaluationActor) (dto : ReviewDto) (stage : ReviewStageConfig)
    (seen : Seen) (d : Decision)
    → resolve_review_stage actor.role seen.form.status ≡ ok stage
    → decide action actor dto stage seen ≡ ok d
    → Justified seen.form d
decide-Justified action actor dto stage seen (returning prefix) r h =
    assert_transition-⟶ _ _ (returning_justified action actor dto stage seen prefix h)
decide-Justified action actor dto stage seen (finalizing score) r h =
    let (edge, scored) = finalizing_justified action actor dto stage seen score h in
    (assert_transition-⟶ _ _ edge, scored)
decide-Justified action actor dto stage seen (approving status score) r h =
    approving-Justified action actor dto stage seen status score r h

abbrev reviewed : Seen → Decision → Reviewed
reviewed seen d = record { seen = seen; decision = d }

-- What the check has found out by the time that it decides.
abbrev Staged : EvaluationActor → ℕ → ReviewDto → Db → Reviewed → Type 0
Staged actor id dto s r =
    (find_form id s ≡ some r.seen.form)
    × ((stage : ReviewStageConfig) × (resolve_review_stage actor.role r.seen.form.status ≡ ok stage)
        × (decide dto.action actor dto stage r.seen ≡ ok r.decision))

review_guards :
    (actor : EvaluationActor) (id : ℕ) (dto : ReviewDto) (s : Db) (r : Reviewed)
    → review_check actor id dto s ≡ ok r
    → Staged actor id dto s r
unfolding review_check
review_guards actor id dto s r h =
    let (_, h1) = >>-eq-ok (assert_role review_decision actor none) _ h in
    let (f, read, h2) = >>=-eq-ok (or_not_found form_not_found (find_form id s)) _ h1 in
    let (_, h3) = >>-eq-ok (review_access actor f s) _ h2 in
    let (_, h4) =
      >>-eq-ok (assert_expected_evaluation_version (snapshot_of f) dto.expected_version) _ h3 in
    let (stage, resolved, h5) = >>=-eq-ok (resolve_review_stage actor.role f.status) _ h4 in
    let (d, decided, h6) = >>=-eq-ok (decide dto.action actor dto stage (see s f)) _ h5 in
    let same : reviewed (see s f) d ≡ r = ground arith in
    subst (Staged actor id dto s) same
      (or_not_found-eq-ok form_not_found (find_form id s) read, (stage, resolved, decided))

-- A review that passes the check is of a stored form, and decides what its status allows: a return
-- or a final decision only by an edge of the workflow, the latter with the class score as final
-- score; an approval without a score takes a submitted form to the advisor, and one with a score
-- takes a form from the advisor to the faculty.
pub review_check-Justified :
    (actor : EvaluationActor) (id : ℕ) (dto : ReviewDto) (s : Db) (r : Reviewed)
    → review_check actor id dto s ≡ ok r
    → (find_form r.seen.form.id s ≡ some r.seen.form) × Justified r.seen.form r.decision
review_check-Justified actor id dto s r h =
    let (read, (stage, resolved, decided)) = review_guards actor id dto s r h in
    (
      found_again id s r.seen.form read,
      decide-Justified dto.action actor dto stage r.seen r.decision resolved decided,
    )

returned-Audit :
    (prefix : NotePrefix) (comment : Option String) (f : EvaluationForm)
    → Audit f
    → Audit (next_version (returned_form prefix comment) f)
returned-Audit prefix comment f a = ground arith

returned-Sound :
    (prefix : NotePrefix) (comment : Option String) (f : EvaluationForm)
    → f.status ⟶ rejected
    → Sound workflow f (returned_form prefix comment)
returned-Sound prefix comment f edge = record {
  keeps_id = λ x. refl;
  same_student = refl;
  same_class = refl;
  same_semester = refl;
  audit = returned-Audit prefix comment f;
  life = ((along edge here, omega arith), λ e. absurd (not_from_final edge e));
}

approved-Audit :
    (reviewer_id now : ℕ) (status : FormStatus) (score : Option ℕ) (f : EvaluationForm)
    → Justified f (approving status score)
    → Audit f
    → Audit (next_version (approved_form reviewer_id now status score) f)
approved-Audit reviewer_id now status none f j a = ground arith
approved-Audit reviewer_id now status (some x) f j a = ground arith

approved_edge :
    (f : EvaluationForm) (status : FormStatus) (score : Option ℕ)
    → Justified f (approving status score)
    → f.status ⟶ status
approved_edge f status none (at, to) = rw (at, to) leader_approves
approved_edge f status (some x) (at, to) = rw (at, to) advisor_approves

approved-Sound :
    (reviewer_id now : ℕ) (status : FormStatus) (score : Option ℕ) (f : EvaluationForm)
    → Justified f (approving status score)
    → Sound workflow f (approved_form reviewer_id now status score)
approved-Sound reviewer_id now status none f j = record {
  keeps_id = λ x. refl;
  same_student = refl;
  same_class = refl;
  same_semester = refl;
  audit = approved-Audit reviewer_id now status none f j;
  life = (
    (along (approved_edge f status none j) here, omega arith),
    λ e. absurd (not_from_final (approved_edge f status none j) e),
  );
}
approved-Sound reviewer_id now status (some x) f j = record {
  keeps_id = λ y. refl;
  same_student = refl;
  same_class = refl;
  same_semester = refl;
  audit = approved-Audit reviewer_id now status (some x) f j;
  life = (
    (along (approved_edge f status (some x) j) here, omega arith),
    λ e. absurd (not_from_final (approved_edge f status (some x) j) e),
  );
}

return_write-Commits :
    (env : Env) (actor : EvaluationActor) (dto : ReviewDto) (prefix : NotePrefix) (seen : Seen)
    (b : Db) (out : Committed EvaluationForm)
    → return_write env actor dto prefix seen b ≡ ok out
    → Commits seen.form (returned_form prefix dto.comment) b out
unfolding return_write
return_write-Commits env actor dto prefix seen b out h =
    let (_, h1) = >>-eq-ok (assert_within_deadline actor.role seen.deadlines env.now) _ h in
    let ((row, c), wrote, h2) =
      >>=-eq-ok
        (write_evaluation_and_read (snapshot_of seen.form) (returned_form prefix dto.comment) b) _
        h1 in
    (c, ground arith, ground arith)

decision_write-Stepped :
    (env : Env) (actor : EvaluationActor) (dto : ReviewDto) (s b : Db) (d : Decision) (seen : Seen)
    (out : Committed EvaluationForm)
    → find_form seen.form.id s ≡ some seen.form
    → Justified seen.form d
    → Valid b
    → Grows s b
    → decision_write d env actor dto seen b ≡ ok out
    → Stepped workflow b out.db
unfolding finalize_write
decision_write-Stepped env actor dto s b (returning prefix) seen out found j v grown h =
    Commits-Stepped found v grown (returned-Sound prefix dto.comment seen.form j) out
      (return_write-Commits env actor dto prefix seen b out h)
decision_write-Stepped env actor dto s b (finalizing score) seen out found j v grown h =
    Commits-Stepped found v grown (finalized-Sound actor.id env.now score seen.form j.0) out
      (commit_form-Commits _ seen.form _ b out h).1
decision_write-Stepped env actor dto s b (approving status score) seen out found j v grown h =
    Commits-Stepped found v grown (approved-Sound actor.id env.now status score seen.form j) out
      (commit_form-Commits _ seen.form _ b out h).1

pub review-Stepped :
    (env : Env) (actor : EvaluationActor) (id : ℕ) (dto : ReviewDto) (s b : Db) (r : Reviewed)
    (out : Committed EvaluationForm)
    → review_check actor id dto s ≡ ok r
    → Valid b
    → Grows s b
    → review_write env actor dto r b ≡ ok out
    → Stepped workflow b out.db
unfolding review_write
review-Stepped env actor id dto s b r out checked v grown h =
    let (found, why) = review_check-Justified actor id dto s r checked in
    decision_write-Stepped env actor dto s b r.decision r.seen out found why v grown h
