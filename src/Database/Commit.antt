-- ===== src/Database/Commit.antt =====
-- A conditional write of a form that an earlier read has seen: if it succeeds, the form is still the
-- one that was seen, and the write is a step of the evolution.
use apag_be.Prelude.{ℕ, ◌≡◌, sym, ◌∙◌, ap, Option, none, some, arith}
use apag_be.Http.{◌>>=◌, ok, form_not_found, >>=-eq-ok}
use apag_be.Database.Rows.{EvaluationForm, Db, find_by, has_id, find_form}
use apag_be.Database.Write.{
  snapshot_of, next_version, write_evaluation, write_evaluation_and_read, or_not_found,
}
use apag_be.Services.Submit.{Committed}
use apag_be.Database.Laws.{write_evaluation-Written}
use apag_be.Database.Audit.{Audit}
use apag_be.Database.Evolution.{Kind, Life, Valid, Grows, Stepped, Grows-IsLatest, Written-Stepped}

-- A change of the form `f` that a command of a kind may make.
pub record Sound (k : Kind) (f : EvaluationForm) (change : EvaluationForm → EvaluationForm)
    : Type 0 where
  pub keeps_id : (x : EvaluationForm) → (change x).id ≡ x.id
  pub same_student : (change f).student_id ≡ f.student_id
  pub same_class : (change f).class_id ≡ f.class_id
  pub same_semester : (change f).semester_id ≡ f.semester_id
  pub audit : Audit f → Audit (next_version change f)
  pub life : Life k f (next_version change f)

-- A command has written one form, and has answered with the row.
abbrev pub Commits :
    EvaluationForm → (EvaluationForm → EvaluationForm) → Db → Committed EvaluationForm → Type 0
Commits f change b out =
    (c : Db) × (write_evaluation_and_read (snapshot_of f) change b ≡ ok (out.response, c))
    × (out.db.forms ≡ c.forms)

-- Only the table of forms matters to a step.
pub Stepped-forms : {k : Kind} {b c d : Db} → Stepped k b c → d.forms ≡ c.forms → Stepped k b d
Stepped-forms {k} {b} {c} {d} st e =
    let same : (j : ℕ) → find_form j d ≡ find_form j c = λ j. ap (find_by (has_id j)) e in
    record {
      each = λ j f found. let (g, at, how) = st.each j f found in (g, same j ∙ at, how);
      valid = record {
        unique = rw e st.valid.unique;
        audited = λ j f found. st.valid.audited j f (sym (same j) ∙ found);
        one_per_semester = λ i j f g found_f found_g.
            st.valid.one_per_semester i j f g (sym (same i) ∙ found_f) (sym (same j) ∙ found_g);
      };
    }

read_same :
    (o : Option EvaluationForm) (d : Db) {row : EvaluationForm} {c : Db}
    → ◌>>=◌ {B = EvaluationForm × Db} (or_not_found form_not_found o) (λ r. ok (r, d)) ≡ ok (row, c)
    → c.forms ≡ d.forms
read_same none d h = cc
read_same (some r) d h = ground arith

module _ {k : Kind} {s b : Db} {f : EvaluationForm} {change : EvaluationForm → EvaluationForm}
    (seen : find_form f.id s ≡ some f) (v : Valid b) (grown : Grows s b)
    (sound : Sound k f change) where
  pub write-Stepped :
      {n : ℕ} {c : Db} → write_evaluation (snapshot_of f) change b ≡ ok (n, c) → Stepped k b c
  write-Stepped h =
      Written-Stepped v
        (write_evaluation-Written f change b v.unique sound.keeps_id (Grows-IsLatest grown seen) h)
        sound.audit
        (record {
          newer = omega arith;
          same_id = sound.keeps_id f;
          same_student = sound.same_student;
          same_class = sound.same_class;
          same_semester = sound.same_semester;
          life = sound.life;
        })

  pub write_and_read-Stepped :
      {row : EvaluationForm} {c : Db}
      → write_evaluation_and_read (snapshot_of f) change b ≡ ok (row, c)
      → Stepped k b c
  unfolding write_evaluation_and_read
  write_and_read-Stepped h =
      let ((n, d), wrote, rest) = >>=-eq-ok (write_evaluation (snapshot_of f) change b) _ h in
      Stepped-forms (write-Stepped wrote) (read_same _ d rest)

  pub Commits-Stepped :
      (out : Committed EvaluationForm) → Commits f change b out → Stepped k b out.db
  Commits-Stepped out (c, wrote, same) = Stepped-forms (write_and_read-Stepped wrote) same
