-- ===== src/History/Creating.antt =====
-- Creating a form, as a step: the other forms stay, and the new one is sound.
use apag_be.Prelude.{
  ℕ, ◌≡◌, ◌≢◌, refl, sym, ◌∙◌, subst, ap, ◌⊎◌, inl, inr, Bool-cases, false, ◌||◌, some, List, [],
  ◌∷◌, ◌++◌, any, arith, ◌==◌, All,
}
use apag_be.Http.{ok}
use apag_be.Policy.Access.{EvaluationActor}
use apag_be.Database.Rows.{EvaluationForm, Db, Env, find_by, has_id}
use apag_be.Database.Laws.{UniqueIds, find-id}
use apag_be.Database.Audit.{Audit}
use apag_be.Database.Evolution.{workflow, Valid, Stepped}
use apag_be.Score.{calculate_score_result}
use apag_be.Services.Submit.{Committed, Enrolment, of_student_semester, new_form, create_write}

new_form-Audit :
    (id student_id class_id semester_id : ℕ) → Audit (new_form id student_id class_id semester_id)
unfolding calculate_score_result
new_form-Audit id student_id class_id semester_id = ground arith

-- No row has the id of the new one.
absent :
    (e : Enrolment) (student_id new_id : ℕ) (fs : List EvaluationForm)
    → any (λ f. of_student_semester student_id e.semester_id f || f.id == new_id) fs ≡ false
    → All (λ f. f.id ≢ new_id) fs
absent e student_id new_id [] h = tt
absent e student_id new_id (f ∷ fs) h = (ground arith, absent e student_id new_id fs (ground arith))

find-append :
    (j : ℕ) (g : EvaluationForm) (fs : List EvaluationForm) {f : EvaluationForm}
    → find_by (has_id j) fs ≡ some f
    → find_by (has_id j) (fs ++ g ∷ []) ≡ some f
unfolding find_by
find-append j g [] h = cc
find-append j g (x ∷ fs) {f} h = elim (Bool-cases (x.id == j)) [
  | inl e ↦ ground arith
  | inr e ↦ ground (arith, find-append j g fs {f = f} (ground arith))
]

found-append :
    (j : ℕ) (g : EvaluationForm) (fs : List EvaluationForm) {f : EvaluationForm}
    → find_by (has_id j) (fs ++ g ∷ []) ≡ some f
    → (find_by (has_id j) fs ≡ some f) ⊎ (f ≡ g)
unfolding find_by
found-append j g [] {f} h = inr (ground arith)
found-append j g (x ∷ fs) {f} h = elim (Bool-cases (x.id == j)) [
  | inl e ↦ inl (ground arith)
  | inr e ↦ ground (arith, found-append j g fs {f = f} (ground arith))
]

append-UniqueIds :
    (g : EvaluationForm) (fs : List EvaluationForm)
    → UniqueIds fs
    → All (λ f. f.id ≢ g.id) fs
    → UniqueIds (fs ++ g ∷ [])
append-UniqueIds g [] u a = (tt, tt)
append-UniqueIds g (f ∷ fs) u a = (append-All g f.id fs u.0 a.0, append-UniqueIds g fs u.1 a.1)
  where
    append-All :
        (g : EvaluationForm) (id : ℕ) (fs : List EvaluationForm)
        → All (λ x. id ≢ x.id) fs
        → id ≢ g.id
        → All (λ x. id ≢ x.id) (fs ++ g ∷ [])
    append-All g id [] h k = (k, tt)
    append-All g id (x ∷ fs) h k = (h.0, append-All g id fs h.1 k)

-- The forms that the student has are of other semesters.
other_semester :
    (student_id semester_id new_id j : ℕ) (fs : List EvaluationForm) {f : EvaluationForm}
    → any (λ x. of_student_semester student_id semester_id x || x.id == new_id) fs ≡ false
    → find_by (has_id j) fs ≡ some f
    → f.student_id ≡ student_id
    → f.semester_id ≡ semester_id
    → ⊥
unfolding find_by
other_semester student_id semester_id new_id j [] h k p q = cc
other_semester student_id semester_id new_id j (x ∷ fs) {f} h k p q =
    elim (Bool-cases (x.id == j)) [
      | inl e ↦ ground arith
      | inr e ↦
          other_semester student_id semester_id new_id j fs {f = f} (ground arith) (ground arith) p
            q
    ]

module _ (new : EvaluationForm) (fs : List EvaluationForm)
    (fresh : any (λ x. of_student_semester new.student_id new.semester_id x || x.id == new.id) fs
      ≡ false)
    (unique : (i j : ℕ) (f g : EvaluationForm)
      → find_by (has_id i) fs ≡ some f
      → find_by (has_id j) fs ≡ some g
      → f.student_id ≡ g.student_id
      → f.semester_id ≡ g.semester_id
      → i ≡ j) where
  append_one_per_semester :
      (i j : ℕ) (f g : EvaluationForm)
      → find_by (has_id i) (fs ++ new ∷ []) ≡ some f
      → find_by (has_id j) (fs ++ new ∷ []) ≡ some g
      → f.student_id ≡ g.student_id
      → f.semester_id ≡ g.semester_id
      → i ≡ j
  append_one_per_semester i j f g found_f found_g student semester =
      go (found-append i new fs {f = f} found_f) (found-append j new fs {f = g} found_g)
    where
      go :
          ((find_by (has_id i) fs ≡ some f) ⊎ (f ≡ new))
          → ((find_by (has_id j) fs ≡ some g) ⊎ (g ≡ new))
          → i ≡ j
      go (inl old_f) (inl old_g) = unique i j f g old_f old_g student semester
      go (inl old_f) (inr new_g) = absurd (
          other_semester new.student_id new.semester_id new.id i fs {f = f} fresh old_f
            (ground arith) (ground arith))
      go (inr new_f) (inl old_g) = absurd (
          other_semester new.student_id new.semester_id new.id j fs {f = g} fresh old_g
            (ground arith) (ground arith))
      go (inr new_f) (inr new_g) =
          sym (find-id i (fs ++ new ∷ []) {f = f} found_f)
          ∙ ap (λ (x : EvaluationForm). x.id) (new_f ∙ sym new_g)
          ∙ find-id j (fs ++ new ∷ []) {f = g} found_g

create_wrote :
    (env : Env) (actor : EvaluationActor) (e : Enrolment) (b : Db) (out : Committed EvaluationForm)
    → create_write env actor e b ≡ ok out
    → (any (λ f. of_student_semester actor.id e.semester_id f || f.id == env.new_id) b.forms
        ≡ false)
      × (out.db.forms ≡ b.forms ++ new_form env.new_id actor.id e.class_id e.semester_id ∷ [])
unfolding create_write
create_wrote env actor e b out h = ground arith

pub create-Stepped :
    (env : Env) (actor : EvaluationActor) (e : Enrolment) (b : Db) (out : Committed EvaluationForm)
    → Valid b
    → create_write env actor e b ≡ ok out
    → Stepped workflow b out.db
create-Stepped env actor e b out v h =
    let (fresh, same) = create_wrote env actor e b out h in
    let new = new_form env.new_id actor.id e.class_id e.semester_id in
    record {
      each = λ j f found. (f, rw same (find-append j new b.forms found), inl refl);
      valid = record {
        unique =
            rw same
              (append-UniqueIds new b.forms v.unique (absent e actor.id env.new_id b.forms fresh));
        audited = λ j f found.
            elim (found-append j new b.forms
              (subst (λ fs. find_by (has_id j) fs ≡ some f) same found)) [
                | inl before ↦ v.audited j f before
                | inr is_new ↦
                    subst Audit (sym is_new)
                      (new_form-Audit env.new_id actor.id e.class_id e.semester_id)
              ];
        one_per_semester = λ i j f g found_f found_g.
            append_one_per_semester new b.forms fresh v.one_per_semester i j f g
              (subst (λ fs. find_by (has_id i) fs ≡ some f) same found_f)
              (subst (λ fs. find_by (has_id j) fs ≡ some g) same found_g);
      };
    }
