-- ===== src/Tests/Histories.antt =====
-- Runs of commands on concrete tables.
use apag_be.Prelude.{ℕ, ◌≡◌, ◌≢◌, ◌↔◌, refl, none, some, [], ◌∷◌, ◌==◌, if◌then◌else◌}
use apag_be.Http.{ok, err, conflict, version_conflict}
use apag_be.Policy.Access.{assert_role, can_edit}
use apag_be.Policy.Transition.{assert_not_locked, assert_transition}
use apag_be.Policy.Deadline.{assert_within_deadline, deadline_for}
use apag_be.Score.{calculate_score_result}
use apag_be.Database.Rows.{EvaluationForm, Db, find_by, find_form}
use apag_be.Database.Write.{
  snapshot_of, next_version, write_evaluation, write_evaluation_and_read,
  assert_expected_evaluation_version,
}
use apag_be.Database.Evolution.{workflow, Walked, Valid, Grows-refl, Stepped}
use apag_be.Services.Submit.{
  see, Committed, Enrolment, CreateTrainingEvaluationDto, hk1, to_semester_no,
  parse_academic_year_start, create_check, create_write, submitted_form, submit_check, submit_write,
}
use apag_be.Services.Semesters.{lock_evaluation_forms_by_semester_ids}
use apag_be.History.Commands.{Command, creates, submits, locks, Command-Stepped}
use apag_be.History.Runs.{
  Run, begin, next, any_kind, no_reopening, Run-Valid, no_update_lost, status-moves-along,
  finalized-stays,
}
use apag_be.Tests.Data.{
  table_of, world, the_student, the_admin, drafted, decided, drafted-Audit, decided-Audit,
  single-Valid, none-Valid,
}

abbrev request : CreateTrainingEvaluationDto
request = record { semester = hk1; academic_year = record { start_year = 2025; end_year = 2026 } }

abbrev enrolment : Enrolment
enrolment = record { class_id = 10; semester_id = 20 }

abbrev created : Committed EvaluationForm
created = record { response = drafted; emitted = []; db = table_of (drafted ∷ []) }

create_allowed : create_check the_student request (table_of []) ≡ ok enrolment
unfolding create_check assert_role parse_academic_year_start to_semester_no find_by
create_allowed = refl

create_done : create_write world the_student enrolment (table_of []) ≡ ok created
unfolding create_write
create_done = refl

abbrev pub handed_in : EvaluationForm
handed_in = next_version (submitted_form 1000 (calculate_score_result drafted.scores)) drafted

abbrev pub handed_in_rows : Committed EvaluationForm
handed_in_rows = record { response = handed_in; emitted = []; db = table_of (handed_in ∷ []) }

pub submit_allowed :
    submit_check the_student 100 (some 0) (table_of (drafted ∷ []))
    ≡ ok (see (table_of (drafted ∷ [])) drafted)
unfolding submit_check assert_role can_edit assert_expected_evaluation_version assert_not_locked
    assert_transition find_by
submit_allowed = refl

pub submit_done :
    submit_write world (see (table_of (drafted ∷ [])) drafted) (table_of (drafted ∷ []))
    ≡ ok handed_in_rows
unfolding submit_write assert_within_deadline deadline_for write_evaluation_and_read
    write_evaluation find_by
submit_done = refl

created-Run : Run any_kind (table_of []) (table_of (drafted ∷ []))
created-Run =
    next (table_of []) (table_of []) (table_of (drafted ∷ [])) workflow world the_student begin
      begin refl (creates request enrolment created create_allowed create_done)

submission :
    Command world the_student
      (table_of (drafted ∷ []))
      (table_of (drafted ∷ []))
      workflow
      (table_of (handed_in ∷ []))
submission =
    submits 100 (some 0) (see (table_of (drafted ∷ [])) drafted) handed_in_rows submit_allowed
      submit_done

submitted-Run : Run no_reopening (table_of (drafted ∷ [])) (table_of (handed_in ∷ []))
submitted-Run =
    next (table_of (drafted ∷ [])) (table_of (drafted ∷ [])) (table_of (handed_in ∷ [])) workflow
      world the_student begin begin refl submission

drafted_found : find_form 100 (table_of (drafted ∷ [])) ≡ some drafted
unfolding find_by
drafted_found = refl

decided_found : find_form 100 (table_of (decided ∷ [])) ≡ some decided
unfolding find_by
decided_found = refl

lock-Run :
    Run no_reopening
      (table_of (decided ∷ []))
      (lock_evaluation_forms_by_semester_ids (20 ∷ []) (table_of (decided ∷ [])))
lock-Run =
    next (table_of (decided ∷ [])) (table_of (decided ∷ [])) _ workflow world the_admin begin begin
      refl (locks (20 ∷ []))

Run-Valid_example : Valid (table_of (drafted ∷ []))
Run-Valid_example = Run-Valid (table_of []) (table_of (drafted ∷ [])) none-Valid created-Run

-- The student has submitted the draft in another window: a write of the draft as it was is refused.
abbrev cleared_note : EvaluationForm → EvaluationForm
cleared_note f = record f { note = none }

handed_in-Run : Run any_kind (table_of (drafted ∷ [])) (table_of (handed_in ∷ []))
handed_in-Run =
    next (table_of (drafted ∷ [])) (table_of (drafted ∷ [])) (table_of (handed_in ∷ [])) workflow
      world the_student begin begin refl submission

no_update_lost_example :
    ((write_evaluation (snapshot_of drafted) cleared_note (table_of (handed_in ∷ []))
        ≡ err (conflict version_conflict))
      ↔ (find_form 100 (table_of (handed_in ∷ [])) ≢ some drafted))
    × ((n : ℕ) (d : Db)
        → write_evaluation (snapshot_of drafted) cleared_note (table_of (handed_in ∷ []))
          ≡ ok (n, d)
        → (find_form 100 (table_of (handed_in ∷ [])) ≡ some drafted)
          × ((j : ℕ)
              → find_form j d ≡ (
                  if j == 100
                  then some (record (cleared_note drafted) { version = 1 })
                  else find_form j (table_of (handed_in ∷ [])))))
no_update_lost_example =
    no_update_lost (table_of (drafted ∷ [])) (table_of (handed_in ∷ [])) drafted cleared_note
      (single-Valid drafted drafted-Audit) handed_in-Run drafted_found (λ x. refl)

second_write_refused :
    write_evaluation (snapshot_of drafted) cleared_note (table_of (handed_in ∷ []))
    ≡ err (conflict version_conflict)
unfolding write_evaluation
second_write_refused = refl

status-moves-along_example :
    (g : EvaluationForm) × (find_form 100 (table_of (handed_in ∷ [])) ≡ some g)
    × Walked drafted g
    × (g.student_id ≡ 1)
    × (g.class_id ≡ 10)
    × (g.semester_id ≡ 20)
status-moves-along_example =
    status-moves-along (table_of (drafted ∷ [])) (table_of (handed_in ∷ [])) 100 drafted
      (single-Valid drafted drafted-Audit) submitted-Run drafted_found

finalized-stays_example :
    (g : EvaluationForm) × (find_form 100
        (lock_evaluation_forms_by_semester_ids (20 ∷ []) (table_of (decided ∷ [])))
      ≡ some g)
    × (g ≡ record decided { version = g.version; is_locked = g.is_locked })
finalized-stays_example =
    finalized-stays (table_of (decided ∷ []))
      (lock_evaluation_forms_by_semester_ids (20 ∷ []) (table_of (decided ∷ []))) 100 decided
      (single-Valid decided decided-Audit) lock-Run decided_found refl

Command-Stepped_example : Stepped workflow (table_of (drafted ∷ [])) (table_of (handed_in ∷ []))
Command-Stepped_example =
    Command-Stepped world the_student (table_of (drafted ∷ [])) (table_of (drafted ∷ []))
      (table_of (handed_in ∷ [])) workflow (single-Valid drafted drafted-Audit)
      (single-Valid drafted drafted-Audit) (Grows-refl (table_of (drafted ∷ []))) submission
