-- ===== src/Tests/Data.antt =====
-- A semester, a class with a student, its reviewers, and forms of the student in various states.
use apag_be.Prelude.{ℕ, ◌≡◌, sym, ◌∙◌, subst, true, none, some, List, [], ◌∷◌, arith}
use apag_be.Policy.Access.{class_leader, advisor, admin, student, EvaluationActor}
use apag_be.Policy.Transition.{submitted, faculty_approved, finalized}
use apag_be.Score.{calculate_score_result, calculate_classification, EvalRank}
use apag_be.Database.Rows.{EvaluationForm, Semester, semester_1, Db, Env, find_by, find_form}
use apag_be.Database.Audit.{Audit}
use apag_be.Database.Evolution.{Valid}
use apag_be.Services.Submit.{new_form}

abbrev pub first_semester : Semester
first_semester = record {
  id = 20;
  year = 2025;
  semester = semester_1;
  start_date = 100;
  end_date = 200;
  is_active = true;
  deadlines = record { student_deadline = none; class_deadline = none; faculty_deadline = none };
}

abbrev pub table_of : List EvaluationForm → Db
table_of forms = record {
  forms = forms;
  criteria_scores = [];
  notifications = [];
  criteria = [];
  users = record { id = 3; role = advisor; phone = none; is_active = true; deleted_at = none } ∷ [];
  faculties = [];
  majors = [];
  classes = record { id = 10; code = "K1"; major_id = 30; deleted_at = none } ∷ [];
  advisor_assignments = record { user_id = 3; class_id = 10 } ∷ [];
  class_leader_assignments = record { user_id = 2; class_id = 10 } ∷ [];
  faculty_assignments = [];
  class_students = record { student_id = 1; class_id = 10 } ∷ [];
  semesters = first_semester ∷ [];
  evidences = [];
}

abbrev pub world : Env
world = record { now = 1000; new_id = 100; digest = λ user event. user }

abbrev pub the_student : EvaluationActor
the_student = record { id = 1; role = student }

abbrev pub the_leader : EvaluationActor
the_leader = record { id = 2; role = class_leader }

abbrev pub the_admin : EvaluationActor
the_admin = record { id = 9; role = admin }

abbrev pub drafted : EvaluationForm
drafted = new_form 100 1 10 20

abbrev pub confirmed : EvaluationForm
confirmed = record drafted {
  status = submitted;
  class_score = some 70;
  class_leader_reviewed_at = some 500;
}

abbrev pub awaiting : EvaluationForm
awaiting = record drafted {
  status = faculty_approved;
  class_score = some 70;
  class_leader_reviewed_at = some 500;
  class_reviewed_at = some 600;
}

abbrev pub decided : EvaluationForm
decided = record awaiting {
  status = finalized;
  final_score = some 70;
  rank = some EvalRank.fair;
  admin_finalized_at = some 700;
}

pub drafted-Audit : Audit drafted
unfolding calculate_score_result
drafted-Audit = ground arith

pub confirmed-Audit : Audit confirmed
unfolding calculate_score_result
confirmed-Audit = ground arith

pub awaiting-Audit : Audit awaiting
unfolding calculate_score_result
awaiting-Audit = ground arith

pub decided-Audit : Audit decided
unfolding calculate_score_result calculate_classification
decided-Audit = ground arith

only_row :
    (f : EvaluationForm) (j : ℕ) {x : EvaluationForm}
    → find_form j (table_of (f ∷ [])) ≡ some x
    → (x ≡ f) × (j ≡ f.id)
unfolding find_by
only_row f j {x} h = (ground arith, ground arith)

pub single-Valid : (f : EvaluationForm) → Audit f → Valid (table_of (f ∷ []))
single-Valid f a = record {
  unique = (tt, tt);
  audited = λ j x h. let (is, _) = only_row f j {x = x} h in subst Audit (sym is) a;
  one_per_semester = λ i j x y h k student semester.
      let (_, at_i) = only_row f i {x = x} h in
      let (_, at_j) = only_row f j {x = y} k in at_i ∙ sym at_j;
}

pub none-Valid : Valid (table_of [])
unfolding find_by
none-Valid = record {
  unique = tt;
  audited = λ j x h. cc;
  one_per_semester = λ i j x y h k student semester. cc;
}
