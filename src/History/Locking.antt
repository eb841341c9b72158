-- ===== src/History/Locking.antt =====
-- Locking and unlocking the forms of whole semesters, as steps.
use apag_be.Prelude.{
  ℕ, ◌≡◌, refl, sym, ◌∙◌, ap, subst, ◌⊎◌, inl, inr, Bool, Bool-cases, true, false, not, ◌&&◌, ◌==◌,
  Option, none, some, List, arith, length, update_where, if◌then◌else◌,
}
use apag_be.Policy.Transition.Graph.{here}
use apag_be.Database.Rows.{EvaluationForm, Db, find_form}
use apag_be.Database.Laws.{find-update_where, map_found, update_where-UniqueIds}
use apag_be.Database.Audit.{Audit}
use apag_be.Database.Evolution.{workflow, Changed, Valid, Stepped, Stepped-refl}
use apag_be.Services.Semesters.{
  in_semesters, locked_form, unlocked_form, lock_evaluation_forms_by_semester_ids,
  unlock_evaluation_forms_by_semester_ids,
}

mapped :
    (h : EvaluationForm → EvaluationForm) (o : Option EvaluationForm) {x : EvaluationForm}
    → map_found h o ≡ some x
    → (y : EvaluationForm) × (o ≡ some y) × (x ≡ h y)
mapped h none e = cc
mapped h (some y) e = (y, refl, ground arith)

-- An update of any rows that keeps what the audit demands of each.
module _ (b : Db) (p : EvaluationForm → Bool) (g : EvaluationForm → EvaluationForm) (v : Valid b)
    (audit : (f : EvaluationForm) → Audit f → Audit (g f))
    (changed : (f : EvaluationForm) → Changed workflow f (g f)) where
  abbrev row : EvaluationForm → EvaluationForm
  row f = if p f then g f else f

  abbrev after : Db
  after = record b { forms = update_where p g b.forms }

  seen_after : (j : ℕ) → find_form j after ≡ map_found row (find_form j b)
  seen_after j = find-update_where j p g b.forms (λ f. (changed f).same_id)

  row-Changed : (f : EvaluationForm) → (f ≡ row f) ⊎ Changed workflow f (row f)
  row-Changed f = go (p f)
    where
      go : (t : Bool) → (f ≡ (if t then g f else f)) ⊎ Changed workflow f (if t then g f else f)
      go true = inr (changed f)
      go false = inl refl

  row-Audit : (f : EvaluationForm) → Audit f → Audit (row f)
  row-Audit f a = go (p f)
    where
      go : (t : Bool) → Audit (if t then g f else f)
      go true = audit f a
      go false = a

  row_same :
      (f : EvaluationForm)
      → ((row f).student_id ≡ f.student_id) × ((row f).semester_id ≡ f.semester_id)
  row_same f = go (p f)
    where
      go :
          (t : Bool)
          → ((if t then g f else f).student_id ≡ f.student_id)
            × ((if t then g f else f).semester_id ≡ f.semester_id)
      go true = ((changed f).same_student, (changed f).same_semester)
      go false = (refl, refl)

  pub update_where-Stepped : Stepped workflow b after
  update_where-Stepped = record {
    each = λ j f found. (row f, seen_after j ∙ ap (map_found row) found, row-Changed f);
    valid = record {
      unique = update_where-UniqueIds p g b.forms (λ f. (changed f).same_id) v.unique;
      audited = λ j x found.
          let (y, at, is) = mapped row (find_form j b) {x = x} (sym (seen_after j) ∙ found) in
          subst Audit (sym is) (row-Audit y (v.audited j y at));
      one_per_semester = λ i j x x' found found' student semester.
          let (y, at, is) = mapped row (find_form i b) {x = x} (sym (seen_after i) ∙ found) in
          let (y', at', is') = mapped row (find_form j b) {x = x'} (sym (seen_after j) ∙ found') in
          let (student_y, semester_y) = row_same y in
          let (student_y', semester_y') = row_same y' in
          v.one_per_semester i j y y' at at' (ground arith) (ground arith);
    };
  }

locked-Audit : (f : EvaluationForm) → Audit f → Audit (locked_form f)
locked-Audit f a = ground arith

unlocked-Audit : (f : EvaluationForm) → Audit f → Audit (unlocked_form f)
unlocked-Audit f a = ground arith

locked-Changed : (f : EvaluationForm) → Changed workflow f (locked_form f)
locked-Changed f = record {
  newer = omega arith;
  same_id = refl;
  same_student = refl;
  same_class = refl;
  same_semester = refl;
  life = ((here, omega arith), λ e. refl);
}

unlocked-Changed : (f : EvaluationForm) → Changed workflow f (unlocked_form f)
unlocked-Changed f = record {
  newer = omega arith;
  same_id = refl;
  same_student = refl;
  same_class = refl;
  same_semester = refl;
  life = ((here, omega arith), λ e. refl);
}

pub lock-Stepped :
    (ids : List ℕ) (b : Db)
    → Valid b
    → Stepped workflow b (lock_evaluation_forms_by_semester_ids ids b)
unfolding lock_evaluation_forms_by_semester_ids
lock-Stepped ids b v = elim (Bool-cases (length ids == 0)) [
  | inl e ↦ rw e (Stepped-refl v)
  | inr e ↦ rw e (
      update_where-Stepped b (λ f. in_semesters ids f && not f.is_locked) locked_form v locked-Audit
        locked-Changed)
]

pub unlock-Stepped :
    (ids : List ℕ) (b : Db)
    → Valid b
    → Stepped workflow b (unlock_evaluation_forms_by_semester_ids ids b)
unfolding unlock_evaluation_forms_by_semester_ids
unlock-Stepped ids b v = elim (Bool-cases (length ids == 0)) [
  | inl e ↦ rw e (Stepped-refl v)
  | inr e ↦ rw e (
      update_where-Stepped b (λ f. in_semesters ids f && f.is_locked) unlocked_form v unlocked-Audit
        unlocked-Changed)
]
