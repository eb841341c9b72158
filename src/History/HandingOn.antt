-- ===== src/History/HandingOn.antt =====
-- What a batch does to each of its forms.
use apag_be.Prelude.{
  ℕ, ◌≡◌, ◌≢◌, refl, sym, ◌∙◌, ap, subst, Bool, Bool-cases, inl, inr, true, false, ◌==◌, ==_refl,
  some, List, [], ◌∷◌, All, All-where_rows, where_rows, length, leb, arith, if◌then◌else◌,
}
use apag_be.Http.{Result, ok, >>=-eq-ok, >>-eq-ok}
use apag_be.Policy.Access.{EvaluationActor, class_leader}
use apag_be.Policy.Transition.{class_leader_approval, target}
use apag_be.Policy.Deadline.{assert_within_deadline}
use apag_be.Database.Rows.{EvaluationForm, Db, Env, find_by, has_id, find_form}
use apag_be.Database.Write.{
  snapshot_of, next_version, write_evaluation, insert_by_id, sort_by_id, for_each,
}
use apag_be.Database.Laws.{UniqueIds, Written, write_evaluation-Written}
use apag_be.Database.Evolution.{
  workflow, Valid, Grows, Grows-IsLatest, Grows-trans, Stepped, Stepped-Grows,
}
use apag_be.Services.Submit.{Committed}
use apag_be.Services.Forward.Plan.{Plan, SubmitClassDto, ForwardResponse, set_status, forward_form}
use apag_be.Services.Forward.ToAdvisor.{
  ready_for_advisor, class_to_advisor_check, class_to_advisor_write,
}
use apag_be.History.Batches.{All-sort_by_id, Ready, All-Picked, All-insert_by_id}
use apag_be.History.Forwarding.{forward_advisor-Stepped}
use apag_be.History.Forwarding.Checks.{class_to_advisor_check-Picked}

insert_by_id-UniqueIds :
    (f : EvaluationForm) (fs : List EvaluationForm)
    → All (λ x. f.id ≢ x.id) fs
    → UniqueIds fs
    → UniqueIds (insert_by_id f fs)
unfolding insert_by_id
insert_by_id-UniqueIds f [] a u = (tt, tt)
insert_by_id-UniqueIds f (g ∷ gs) a u = elim (Bool-cases (leb f.id g.id)) [
  | inl e ↦ rw e (a, u)
  | inr e ↦ rw e (
    All-insert_by_id (λ x. g.id ≢ x.id) f gs (λ same. a.0 (sym same)) u.0,
    insert_by_id-UniqueIds f gs a.1 u.1,
  )
]

pub sort_by_id-UniqueIds : (fs : List EvaluationForm) → UniqueIds fs → UniqueIds (sort_by_id fs)
unfolding sort_by_id
sort_by_id-UniqueIds [] u = tt
sort_by_id-UniqueIds (f ∷ fs) u =
    insert_by_id-UniqueIds f (sort_by_id fs) (All-sort_by_id (λ x. f.id ≢ x.id) fs u.0)
      (sort_by_id-UniqueIds fs u.1)

drop_test :
    (P : EvaluationForm → Type 0) (p : EvaluationForm → Bool) (fs : List EvaluationForm)
    → All (λ x. P x × (p x ≡ true)) fs
    → All P fs
drop_test P p [] a = tt
drop_test P p (f ∷ fs) a = (a.0.0, drop_test P p fs a.1)

pub where_rows-UniqueIds :
    (p : EvaluationForm → Bool) (fs : List EvaluationForm)
    → UniqueIds fs
    → UniqueIds (where_rows p fs)
where_rows-UniqueIds p [] u = tt
where_rows-UniqueIds p (f ∷ fs) u = elim (Bool-cases (p f)) [
  | inl e ↦ rw e (
    drop_test (λ x. f.id ≢ x.id) p (where_rows p fs) (All-where_rows (λ x. f.id ≢ x.id) p fs u.0),
    where_rows-UniqueIds p fs u.1,
  )
  | inr e ↦ rw e (where_rows-UniqueIds p fs u.1)
]

-- A loop whose body writes its own row, and no other.
module _ (P : EvaluationForm → Type 0) (s : Db) (g : EvaluationForm → EvaluationForm)
    (body : EvaluationForm → Db → Result Db)
    (writes : (f : EvaluationForm) (b c : Db)
      → P f
      → Valid b
      → Grows s b
      → body f b ≡ ok c
      → Written b c f (g f) × Stepped workflow b c) where
  untouched :
      (j : ℕ) (xs : List EvaluationForm) (b c : Db)
      → All (λ f. j ≢ f.id) xs
      → All P xs
      → Valid b
      → Grows s b
      → for_each body xs b ≡ ok c
      → find_form j c ≡ find_form j b
  unfolding for_each
  untouched j [] b c apart ps v grown h = let same : c ≡ b = ground arith in ap (find_form j) same
  untouched j (x ∷ xs) b c apart ps v grown h =
      let (d, first, others) = >>=-eq-ok (body x b) (for_each body xs) h in
      let (w, st) = writes x b d ps.0 v grown first in
      let other : j == x.id ≡ false = ground (arith, apart.0) in
      untouched j xs d c apart.1 ps.1 st.valid (Grows-trans grown (Stepped-Grows st)) others
      ∙ w.after j
      ∙ ap (λ t. if t then some (g x) else find_form j b) other

  pub written-All :
      (xs : List EvaluationForm) (b c : Db)
      → UniqueIds xs
      → All P xs
      → Valid b
      → Grows s b
      → for_each body xs b ≡ ok c
      → All (λ f. find_form f.id c ≡ some (g f)) xs
  unfolding for_each
  written-All [] b c u ps v grown h = tt
  written-All (x ∷ xs) b c u ps v grown h =
      let (d, first, others) = >>=-eq-ok (body x b) (for_each body xs) h in
      let (w, st) = writes x b d ps.0 v grown first in
      let grown' = Grows-trans grown (Stepped-Grows st) in
      (
        untouched x.id xs d c u.0 ps.1 st.valid grown' others
            ∙ w.after x.id
            ∙ ap (λ t. if t then some (g x) else find_form x.id b) (==_refl x.id),
        written-All xs d c u.1 ps.1 st.valid grown' others,
      )

abbrev pub handed_on : EvaluationForm → EvaluationForm
handed_on f = next_version (set_status (target class_leader_approval)) f

forward_writes :
    (s : Db) (f : EvaluationForm) (b c : Db)
    → Ready ready_for_advisor s f
    → Valid b
    → Grows s b
    → forward_form class_leader_approval f b ≡ ok c
    → Written b c f (handed_on f) × Stepped workflow b c
unfolding forward_form
forward_writes s f b c (found, ready) v grown h =
    let ((n, d), wrote, rest) =
      >>=-eq-ok (write_evaluation (snapshot_of f) (set_status (target class_leader_approval)) b) _
        h in
    let same : d ≡ c = ground arith in
    (
      subst (λ x. Written b x f (handed_on f)) same
          (write_evaluation-Written f (set_status (target class_leader_approval)) b v.unique
            (λ x. refl) (Grows-IsLatest grown found) wrote),
      forward_advisor-Stepped s f b c (found, ready) v grown h,
    )

handed_over :
    (env : Env) (plan : Plan) (b : Db) (out : Committed ForwardResponse)
    → class_to_advisor_write env plan b ≡ ok out
    → (c : Db) × (for_each (forward_form class_leader_approval) (sort_by_id plan.eligible) b ≡ ok c)
      × (out.db.forms ≡ c.forms)
      × (out.response.submitted_count ≡ length plan.eligible)
unfolding class_to_advisor_write
handed_over env plan b out h =
    let (_, h1) = >>-eq-ok (assert_within_deadline class_leader plan.deadlines env.now) _ h in
    let (c, wrote, h2) =
      >>=-eq-ok (for_each (forward_form class_leader_approval) (sort_by_id plan.eligible) b) _ h1 in
    (c, wrote, ground arith, ground arith)

All-found :
    (c d : Db) (fs : List EvaluationForm)
    → d.forms ≡ c.forms
    → All (λ f. find_form f.id c ≡ some (handed_on f)) fs
    → All (λ f. find_form f.id d ≡ some (handed_on f)) fs
All-found c d [] same a = tt
All-found c d (f ∷ fs) same a = (ap (find_by (has_id f.id)) same ∙ a.0, All-found c d fs same a.1)

-- When a class leader's batch, checked and written on valid tables, succeeds, every form that it picked
-- is stored as passed on to the advisor, one version later and otherwise as it was read, and the answer
-- counts these forms.
pub class_to_advisor-hands_on :
    (env : Env) (reviewer : EvaluationActor) (class_id : ℕ) (dto : SubmitClassDto) (s b : Db)
    (plan : Plan) (out : Committed ForwardResponse)
    → Valid s
    → Valid b
    → Grows s b
    → class_to_advisor_check reviewer class_id dto s ≡ ok plan
    → class_to_advisor_write env plan b ≡ ok out
    → All (λ f. find_form f.id out.db ≡ some (handed_on f)) (sort_by_id plan.eligible)
      × (out.response.submitted_count ≡ length plan.eligible)
class_to_advisor-hands_on env reviewer class_id dto s b plan out valid v grown checked h =
    let (c, wrote, same, count) = handed_over env plan b out h in
    let picked = class_to_advisor_check-Picked reviewer class_id dto s plan checked in
    let unique = sort_by_id-UniqueIds plan.eligible (
      subst UniqueIds (sym picked.selected)
        (where_rows-UniqueIds picked.where_clause s.forms valid.unique)) in
    (
      All-found c out.db (sort_by_id plan.eligible) same (
          written-All (Ready ready_for_advisor s) s handed_on (forward_form class_leader_approval)
            (forward_writes s) (sort_by_id plan.eligible) b c unique
            (All-Picked ready_for_advisor s plan.eligible valid picked) v grown wrote),
      count,
    )
