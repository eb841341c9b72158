-- ===== src/History/Succeeding.antt =====
-- Commands that nothing stands in the way of do what they are for.
use apag_be.Prelude.{
  ℕ, ◌+◌, ◌≡◌, refl, sym, ◌∙◌, ap, subst, inl, inr, Bool-cases, true, false, ◌==◌, ==_refl, Option,
  none, some, map, Bool, List, [], ◌∷◌, arith, if◌then◌else◌, update_where,
}
use apag_be.Http.{ok}
use apag_be.Policy.Access.{EvaluationActor, student, assert_role, can_edit}
use apag_be.Policy.Transition.{submitted, can_transition, assert_transition, assert_not_locked}
use apag_be.Policy.Transition.Graph.{◌⟶◌, can_transition_iff}
use apag_be.Policy.Deadline.{assert_within_deadline}
use apag_be.Score.{calculate_score_result}
use apag_be.Database.Rows.{
  EvaluationForm, FormCriteriaScore, Db, Env, find_by, has_id, find_form, form_deadlines,
}
use apag_be.Database.Write.{
  snapshot_of, is_current, next_version, write_evaluation, write_evaluation_and_read,
  assert_evaluation_updated, assert_expected_evaluation_version,
}
use apag_be.Database.Laws.{UniqueIds, IsLatest, updated-Written, find-id}
use apag_be.Database.Conflicts.{Current-count}
use apag_be.Services.Submit.{
  see, Committed, owned, submitted_form, reset_criteria, submit_check, submit_write, submit_command,
}

IsLatest-row : (f : EvaluationForm) (b : Db) → find_form f.id b ≡ some f → IsLatest f b
IsLatest-row f b found x at same = ground arith

-- A conditional write of the row as it is stored.
write_and_read-succeeds :
    (f : EvaluationForm) (change : EvaluationForm → EvaluationForm) (b : Db)
    → UniqueIds b.forms
    → ((x : EvaluationForm) → (change x).id ≡ x.id)
    → find_form f.id b ≡ some f
    → (c : Db) × (write_evaluation_and_read (snapshot_of f) change b
        ≡ ok (next_version change f, c))
      × (find_form f.id c ≡ some (next_version change f))
      × (c.criteria_scores ≡ b.criteria_scores)
unfolding write_evaluation_and_read write_evaluation assert_evaluation_updated
write_and_read-succeeds f change b u keeps found =
    let one = Current-count (snapshot_of f) b.forms u (f, found, refl) in
    let w = updated-Written f (next_version change) b u keeps (IsLatest-row f b found) one in
    let c : Db = record b {
      forms = update_where (is_current (snapshot_of f)) (next_version change) b.forms;
    } in
    let at : find_form f.id c ≡ some (next_version change f) =
      w.after f.id
      ∙ ap (λ t. if t then some (next_version change f) else find_form f.id b) (==_refl f.id) in
    (c, rw one (rw at refl), at, refl)

find-owned :
    (id user_id : ℕ) (fs : List EvaluationForm) {f : EvaluationForm}
    → find_by (has_id id) fs ≡ some f
    → f.student_id ≡ user_id
    → find_by (owned id user_id) fs ≡ some f
unfolding find_by
find-owned id user_id [] h own = cc
find-owned id user_id (x ∷ fs) {f} h own = elim (Bool-cases (x.id == id)) [
  | inl e ↦ let is : x ≡ f = ground arith in ground arith
  | inr e ↦
      let later : find_by (has_id id) fs ≡ some f = ground arith in
      ground (arith, find-owned id user_id fs {f = f} later own)
]

update_where-map :
    (p : FormCriteriaScore → Bool) (g : FormCriteriaScore → FormCriteriaScore)
    (rows : List FormCriteriaScore)
    → update_where p g rows ≡ map (λ s. if p s then g s else s) rows
update_where-map p g [] = refl
update_where-map p g (s ∷ rows) =
    ap (λ rest. (if p s then g s else s) ∷ rest) (update_where-map p g rows)

submit_check-succeeds :
    (actor : EvaluationActor) (id : ℕ) (expected : Option ℕ) (b : Db) (f : EvaluationForm)
    → actor.role ≡ student
    → find_by (owned id actor.id) b.forms ≡ some f
    → f.student_id ≡ actor.id
    → f.is_locked ≡ false
    → f.status ⟶ submitted
    → assert_expected_evaluation_version (snapshot_of f) expected ≡ ok tt
    → submit_check actor id expected b ≡ ok (see b f)
unfolding submit_check assert_role can_edit assert_not_locked assert_transition
submit_check-succeeds actor id expected b f role read own free edge version =
    let allowed : can_transition f.status submitted ≡ true =
      (can_transition_iff f.status submitted).1 edge in
    ground arith

-- Where ids are unique, a student's submission succeeds whenever the form is theirs, not locked, in a
-- draft or returned, of the expected version and within the deadline. The row is then stored with the
-- next version, as submitted now, with the total and the rank of its sections, without class and final
-- score and without a name or time of an earlier confirmation or decision, and otherwise as it was;
-- that row is the answer. The class scores and notes of its criteria, and of no others, are taken out.
pub submit_command-succeeds :
    (env : Env) (actor : EvaluationActor) (id : ℕ) (expected : Option ℕ) (b : Db)
    (f : EvaluationForm)
    → UniqueIds b.forms
    → actor.role ≡ student
    → find_form id b ≡ some f
    → f.student_id ≡ actor.id
    → f.is_locked ≡ false
    → f.status ⟶ submitted
    → assert_expected_evaluation_version (snapshot_of f) expected ≡ ok tt
    → assert_within_deadline student (form_deadlines b f) env.now ≡ ok tt
    → (out : Committed EvaluationForm) × (submit_command env actor id expected b ≡ ok out)
      × (out.response ≡ record f {
        version = f.version + 1;
        status = submitted;
        submitted_at = some env.now;
        student_score = some (calculate_score_result f.scores).total_score;
        rank = some (calculate_score_result f.scores).rank;
        class_score = none;
        final_score = none;
        class_leader_reviewed_by = none;
        class_leader_reviewed_at = none;
        class_reviewed_by = none;
        class_reviewed_at = none;
        admin_finalized_by = none;
        admin_finalized_at = none;
      })
      × (find_form id out.db ≡ some out.response)
      × (out.db.criteria_scores
          ≡ map
              (λ s. if s.form_id == id then record s { class_score = none; note = none } else s)
              b.criteria_scores)
unfolding submit_command submit_write
submit_command-succeeds env actor id expected b f u role found own free edge version in_time =
    let checked =
      submit_check-succeeds actor id expected b f role
        (find-owned id actor.id b.forms {f = f} found own) own free edge version in
    let same = find-id id b.forms {f = f} found in
    let stored : find_form f.id b ≡ some f = subst (λ i. find_form i b ≡ some f) (sym same) found in
    let (c, wrote, at, criteria) =
      write_and_read-succeeds f (submitted_form env.now (calculate_score_result f.scores)) b u
        (λ x. refl) stored in
    (
      record {
        response = next_version (submitted_form env.now (calculate_score_result f.scores)) f;
        emitted = [];
        db = record c { criteria_scores = reset_criteria f.id c.criteria_scores };
      },
      rw checked (rw in_time (rw wrote refl)),
      refl,
      subst
          (λ i.
            find_form i c
            ≡ some (next_version (submitted_form env.now (calculate_score_result f.scores)) f))
          same at,
      rw criteria (
          rw same (
            update_where-map (λ s. s.form_id == id)
              (λ s. record s { class_score = none; note = none }) b.criteria_scores)),
    )
