-- ===== src/Services/Semesters.antt =====
-- modules/semesters/admin-semesters.service.ts: locking the forms of semesters that are closed, and
-- unlocking those of one that is opened again.
use apag_be.Prelude.{
  ℕ, ◌+◌, Bool, true, false, not, ◌&&◌, List, ◌==◌, any, length, update_where, if◌then◌else◌,
}
use apag_be.Database.Rows.{EvaluationForm, Db}

-- `semesterId: { in: semesterIds }`
abbrev pub in_semesters : List ℕ → EvaluationForm → Bool
in_semesters semester_ids f = any (λ i. i == f.semester_id) semester_ids

abbrev pub locked_form : EvaluationForm → EvaluationForm
locked_form f = record f { version = f.version + 1; is_locked = true }

abbrev pub unlocked_form : EvaluationForm → EvaluationForm
unlocked_form f = record f { version = f.version + 1; is_locked = false }

unfoldable pub lock_evaluation_forms_by_semester_ids : List ℕ → Db → Db
lock_evaluation_forms_by_semester_ids semester_ids db =
    if length semester_ids == 0 then db else record db {
      forms =
          update_where (λ f. in_semesters semester_ids f && not f.is_locked) locked_form db.forms;
    }

unfoldable pub unlock_evaluation_forms_by_semester_ids : List ℕ → Db → Db
unlock_evaluation_forms_by_semester_ids semester_ids db =
    if length semester_ids == 0 then db else record db {
      forms = update_where (λ f. in_semesters semester_ids f && f.is_locked) unlocked_form db.forms;
    }
