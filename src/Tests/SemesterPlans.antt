-- ===== src/Tests/SemesterPlans.antt =====
-- Semesters that are opened and closed, on concrete tables.
use apag_be.Prelude.{none, some, ◌≡◌, refl, ◌≢◌, true, false, [], ◌∷◌, arith, All}
use apag_be.Http.{ok}
use apag_be.Database.Rows.{Semester, semester_2, Db, find_by}
use apag_be.Services.Semesters.{
  lock_evaluation_forms_by_semester_ids, unlock_evaluation_forms_by_semester_ids,
}
use apag_be.Services.Submit.{hk1, hk2, to_semester_no}
use apag_be.Services.SemesterAdmin.{
  DateFields, absent, null_date, day, CreateSemesterDto, UpdateSemesterDto,
  parse_optional_date_only, no_data, data_of, build_semester_data, in_order, validate_date_order,
  overlaps, validate_no_overlap, assert_unique_semester, has_evaluation_forms, find_record_by_id,
  deactivate_active_semesters_and_lock_forms,
}
use apag_be.Services.SemesterAdmin.Commands.{
  ChangedSemester, Planned, create_semester_check, insert_semester, create_semester_write,
  NextSemester, update_semester_check, updated_semester, update_row, activated, toggle_active,
}
use apag_be.History.Semesters.Terms.{Terms}
use apag_be.History.Semesters.Administering.{toggles_semester, SemesterCommand-Terms}
use apag_be.History.Semesters.Calendar.{period_of, InOrder, Calendar}
use apag_be.History.Semesters.Opening.{toggle_active-opens}
use apag_be.Tests.Data.{table_of, first_semester, drafted}

abbrev second_semester : Semester
second_semester = record first_semester {
  id = 21;
  semester = semester_2;
  start_date = 300;
  end_date = 400;
  is_active = false;
}

-- The first semester is open, with a draft in it.
abbrev two_semesters : Db
two_semesters = record (table_of (drafted ∷ [])) {
  semesters = first_semester ∷ second_semester ∷ [];
}

two_semesters-Terms : Terms (two_semesters.semesters)
two_semesters-Terms = record {
  ids = ((λ e. omega arith, tt), (tt, tt));
  terms = ((refl, tt), (tt, tt));
  one_active = (20, (λ on. refl, (λ on. cc on, tt)));
}

abbrev second_opened : ChangedSemester
second_opened = record {
  response = activated true second_semester;
  db = record two_semesters {
    forms = record drafted { version = 1; is_locked = true } ∷ [];
    semesters = record first_semester { is_active = false } ∷ activated true second_semester ∷ [];
  };
}

opens_second : toggle_active 21 true two_semesters ≡ ok second_opened
unfolding toggle_active find_record_by_id update_row deactivate_active_semesters_and_lock_forms
    lock_evaluation_forms_by_semester_ids unlock_evaluation_forms_by_semester_ids find_by
opens_second = refl

SemesterCommand-Terms_example : Terms second_opened.db.semesters
SemesterCommand-Terms_example =
    SemesterCommand-Terms two_semesters two_semesters second_opened.db
      (toggles_semester 21 true second_opened opens_second) two_semesters-Terms

toggle_active-opens_example :
    All
      (λ s. (s.is_active ≡ true → s.id ≡ 21) × (s.id ≡ 21 → s.is_active ≡ true))
      second_opened.db.semesters
    × All (λ f. f.semester_id ≡ 21 → f.is_locked ≡ false) second_opened.db.forms
    × All
        (λ s.
          s.is_active ≡ true
          → s.id ≢ 21
          → All (λ f. f.semester_id ≡ s.id → f.is_locked ≡ true) second_opened.db.forms)
        two_semesters.semesters
toggle_active-opens_example = toggle_active-opens 21 two_semesters second_opened opens_second

abbrev no_dates : DateFields
no_dates = record {
  start_date = absent;
  end_date = absent;
  student_deadline = absent;
  class_deadline = absent;
  faculty_deadline = absent;
}

-- The second semester is to end later, with a deadline for students.
abbrev longer : UpdateSemesterDto
longer = record {
  year = none;
  semester = none;
  dates = record no_dates { end_date = day 450; student_deadline = day 350 };
  is_active = none;
}

abbrev longer_plan : NextSemester
longer_plan = record {
  year = 2025;
  semester = semester_2;
  period = record { start_date = 300; end_date = 450 };
  dates = record (data_of second_semester) { end_date = some 450; student_deadline = some 350 };
}

abbrev longer_semester : Semester
longer_semester = updated_semester longer longer_plan second_semester

abbrev lengthened : ChangedSemester
lengthened = record {
  response = longer_semester;
  db = record two_semesters { semesters = first_semester ∷ longer_semester ∷ [] };
}

-- A null deadline is left out of the check, but stays in the row: the deadline of classes then lies
-- before the one of students.
abbrev null_deadline : UpdateSemesterDto
null_deadline = record longer {
  dates = record no_dates { student_deadline = null_date; class_deadline = day 320 };
}

null_deadline_out_of_order :
    (next : NextSemester) × (update_semester_check 21 null_deadline lengthened.db ≡ ok next)
    × (InOrder (updated_semester null_deadline next longer_semester) → ⊥)
unfolding update_semester_check find_record_by_id has_evaluation_forms build_semester_data
    parse_optional_date_only validate_date_order in_order validate_no_overlap find_by
null_deadline_out_of_order = (
  record longer_plan {
    dates = record longer_plan.dates { student_deadline = none; class_deadline = some 320 };
  },
  refl,
  λ e. cc e,
)

abbrev third : CreateSemesterDto
third = record {
  year = 2026;
  semester = hk1;
  dates = record no_dates { start_date = day 500; end_date = day 600 };
  is_active = none;
}

abbrev third_plan : Planned
third_plan = record {
  period = record { start_date = 500; end_date = 600 };
  dates = record no_data { start_date = some 500; end_date = some 600 };
}

-- Two requests that check before either has written: both succeed, and the semesters overlap.
overlap_by_race :
    (create_semester_check third two_semesters ≡ ok third_plan)
    × (create_semester_check (record third { semester = hk2 }) two_semesters ≡ ok third_plan)
    × (first : ChangedSemester) × (create_semester_write 22 third third_plan two_semesters
        ≡ ok first)
    × (second : ChangedSemester) × (create_semester_write 23
          (record third { semester = hk2 })
          third_plan
          first.db
        ≡ ok second)
    × (overlaps (period_of first.response) second.response ≡ true)
unfolding create_semester_check create_semester_write insert_semester build_semester_data
    to_semester_no parse_optional_date_only validate_date_order in_order validate_no_overlap
    assert_unique_semester
overlap_by_race = (refl, refl, _, refl, _, refl, refl)
