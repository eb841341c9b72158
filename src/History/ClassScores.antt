-- ===== src/History/ClassScores.antt =====
-- The scores of a class, written between a claim and its end, and their confirmation, as steps.
use apag_be.Prelude.{
  ℕ, ◌+◌, ◌≡◌, refl, sym, ◌∙◌, subst, ap, ◌⊎◌, inl, inr, Bool, true, false, Option, some, arith,
  ◌==◌, ==_refl, if◌then◌else◌, count_where, update_where,
}
use apag_be.Http.{ok, >>=-eq-ok, >>-eq-ok, form_not_found}
use apag_be.Policy.Access.{UserRole, EvaluationActor, class_leader, advisor}
use apag_be.Policy.Transition.{
  submitted, class_leader_approved, finalized, assert_not_locked, assert_review_scores_editable,
}
use apag_be.Policy.Transition.Graph.{here}
use apag_be.Policy.Deadline.{assert_within_deadline}
use apag_be.Database.Rows.{EvaluationForm, Db, Env, find_form, find_by, has_id}
use apag_be.Database.Write.{
  EvaluationSnapshot, assert_evaluation_updated, snapshot_of, is_current, next_version,
  write_evaluation, or_not_found,
}
use apag_be.Database.Laws.{
  Written, IsLatest, updated-Written, write_evaluation-Written, write_evaluation-version,
}
use apag_be.Database.Audit.{Audit}
use apag_be.Database.Evolution.{
  workflow, Changed, Valid, Grows, Stepped, Grows-IsLatest, Written-Stepped,
}
use apag_be.Services.Submit.{Committed}
use apag_be.Services.Scoring.Review.{
  ReviewScoresDto, ScorePlan, review_scores_check, rescored_by, upsert_all, class_score_of,
  finish_claim, review_scores_write,
}
use apag_be.History.Finalizing.{found_again}

-- A form that waits for the scores of a reviewer.
abbrev pub Scorable : UserRole → EvaluationForm → Type 0
Scorable role f =
    ((role ≡ class_leader) × (f.status ≡ submitted))
    ⊎ ((role ≡ advisor) × (f.status ≡ class_leader_approved))

pub Scorable-status :
    (role : UserRole) (f : EvaluationForm)
    → assert_review_scores_editable role f.status ≡ ok tt
    → Scorable role f
unfolding assert_review_scores_editable
Scorable-status role f h = ground arith

review_scores_guards :
    (reviewer : EvaluationActor) (id : ℕ) (dto : ReviewScoresDto) (s : Db) (plan : ScorePlan)
    → review_scores_check reviewer id dto s ≡ ok plan
    → (find_form id s ≡ some plan.seen.form)
      × (plan.seen.form.is_locked ≡ false)
      × (assert_review_scores_editable reviewer.role plan.seen.form.status ≡ ok tt)
unfolding review_scores_check assert_not_locked
review_scores_guards reviewer id dto s plan h = ground arith

-- The form between the claim and its end.
abbrev claimed_form : EvaluationForm → EvaluationForm
claimed_form f = next_version (λ x. x) f

same_lookup : (c d : Db) → d.forms ≡ c.forms → (j : ℕ) → find_form j d ≡ find_form j c
same_lookup c d e j = ap (find_by (has_id j)) e

claimed-IsLatest :
    (f : EvaluationForm) (b c d : Db)
    → Written b c f (claimed_form f)
    → d.forms ≡ c.forms
    → IsLatest (claimed_form f) d
claimed-IsLatest f b c d w same x found newer =
    let at : find_form f.id c ≡ some (claimed_form f) =
      w.after f.id
      ∙ ap (λ t. if t then some (claimed_form f) else find_form f.id b) (==_refl f.id) in
    let seen = sym (same_lookup c d same f.id) ∙ found in ground arith

chosen :
    (t : Bool) (o p q : Option EvaluationForm)
    → (if t then o else (if t then p else q)) ≡ (if t then o else q)
chosen true o p q = refl
chosen false o p q = refl

finish_claim-forms :
    (claimed : EvaluationSnapshot) (change : EvaluationForm → EvaluationForm) (d e : Db)
    → finish_claim claimed change d ≡ ok e
    → (count_where (is_current claimed) d.forms ≡ 1)
      × (e ≡ record d { forms = update_where (is_current claimed) change d.forms })
unfolding finish_claim assert_evaluation_updated
finish_claim-forms claimed change d e h = ground arith

-- The claim and its end together are one change of the row.
claim-Written :
    (f : EvaluationForm) (change : EvaluationForm → EvaluationForm) (b c d e : Db)
    → ((x : EvaluationForm) → (change x).id ≡ x.id)
    → Written b c f (claimed_form f)
    → d.forms ≡ c.forms
    → finish_claim (snapshot_of (claimed_form f)) change d ≡ ok e
    → Written b e f (change (claimed_form f))
claim-Written f change b c d e keeps w same h =
    let (one, out) = finish_claim-forms (snapshot_of (claimed_form f)) change d e h in
    let next =
      updated-Written (claimed_form f) change d (rw same w.unique) keeps
        (claimed-IsLatest f b c d w same) one in
    record {
      before = w.before;
      after = λ j. rw out (
          next.after j
          ∙ ap (λ o. if j == f.id then some (change (claimed_form f)) else o)
              (same_lookup c d same j ∙ w.after j)
          ∙ chosen (j == f.id) (some (change (claimed_form f))) (some (claimed_form f))
              (find_form j b));
      unique = rw out next.unique;
    }

rescored-id :
    (role : UserRole) (score : ℕ) (x : EvaluationForm) → (rescored_by role score x).id ≡ x.id
rescored-id role score x = ground arith

rescored-Audit :
    (role : UserRole) (score : ℕ) (f : EvaluationForm)
    → Scorable role f
    → Audit f
    → Audit (rescored_by role score (claimed_form f))
rescored-Audit role score f (inl (who, at)) a = rw who (ground arith)
rescored-Audit role score f (inr (who, at)) a = rw who (ground arith)

pub not_final : (role : UserRole) (f : EvaluationForm) → Scorable role f → f.status ≡ finalized → ⊥
not_final role f (inl (who, at)) e = cc
not_final role f (inr (who, at)) e = cc

rescored-Changed :
    (role : UserRole) (score : ℕ) (f : EvaluationForm)
    → Scorable role f
    → Changed workflow f (rescored_by role score (claimed_form f))
rescored-Changed role score f (inl (who, at)) = rw who (record {
  newer = omega arith;
  same_id = refl;
  same_student = refl;
  same_class = refl;
  same_semester = refl;
  life = ((here, omega arith), λ e. absurd (not_final role f (inl (who, at)) e));
})
rescored-Changed role score f (inr (who, at)) = rw who (record {
  newer = omega arith;
  same_id = refl;
  same_student = refl;
  same_class = refl;
  same_semester = refl;
  life = ((here, omega arith), λ e. absurd (not_final role f (inr (who, at)) e));
})

claim_writes :
    (env : Env) (role : UserRole) (plan : ScorePlan) (b : Db) (out : Committed EvaluationForm)
    → Valid b
    → IsLatest plan.seen.form b
    → review_scores_write env role plan b ≡ ok out
    → (score : ℕ) × Written b out.db plan.seen.form
        (rescored_by role score (claimed_form plan.seen.form))
unfolding review_scores_write
claim_writes env role plan b out v latest h =
    let f = plan.seen.form in
    let (_, h1) = >>-eq-ok (assert_within_deadline role plan.seen.deadlines env.now) _ h in
    let ((n, c), wrote, h2) = >>=-eq-ok (write_evaluation (snapshot_of f) (λ x. x) b) _ h1 in
    let table = upsert_all f.id plan.items c.criteria_scores in
    let change = rescored_by role (class_score_of f.id table) in
    let (d, finished, h3) =
      >>=-eq-ok
        (finish_claim (record { id = f.id; version = n }) change
          (record c { criteria_scores = table }))
        _ h2 in
    let (row, _, h4) = >>=-eq-ok (or_not_found form_not_found (find_form f.id d)) _ h3 in
    let same : d ≡ out.db = ground arith in
    let version : n ≡ f.version + 1 = write_evaluation-version (snapshot_of f) (λ x. x) b wrote in
    (
      class_score_of f.id table,
      subst (λ x. Written b x f (change (claimed_form f))) same
          (claim-Written f change b c (record c { criteria_scores = table }) d
            (rescored-id role (class_score_of f.id table))
            (write_evaluation-Written f (λ x. x) b v.unique (λ x. refl) latest wrote) refl
            (rw⁻¹ version finished)),
    )

pub review_scores-Stepped :
    (env : Env) (reviewer : EvaluationActor) (id : ℕ) (dto : ReviewScoresDto) (s b : Db)
    (plan : ScorePlan) (out : Committed EvaluationForm)
    → review_scores_check reviewer id dto s ≡ ok plan
    → Valid b
    → Grows s b
    → review_scores_write env reviewer.role plan b ≡ ok out
    → Stepped workflow b out.db
review_scores-Stepped env reviewer id dto s b plan out checked v grown h =
    let f = plan.seen.form in
    let (read, _, editable) = review_scores_guards reviewer id dto s plan checked in
    let can = Scorable-status reviewer.role f editable in
    let (score, w) =
      claim_writes env reviewer.role plan b out v (Grows-IsLatest grown (found_again id s f read))
        h in
    Written-Stepped v w (rescored-Audit reviewer.role score f can)
      (rescored-Changed reviewer.role score f can)
