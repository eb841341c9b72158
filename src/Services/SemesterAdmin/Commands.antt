-- ===== src/Services/SemesterAdmin/Commands.antt =====
-- modules/semesters/admin-semesters.service.ts: `create`, `update` and `toggleActive`.
use apag_be.Prelude.{
  ℕ, Bool, true, false, not, ◌&&◌, ◌||◌, Option, none, some, [], ◌∷◌, ◌++◌, ◌==◌, is_some, or_else,
  any, update_where, if◌then◌else◌,
}
use apag_be.Http.{
  Result, ok, bad_request, conflict, semester_exists, nothing_to_update, semester_has_forms,
  require, ◌>>=◌, ◌>>◌,
}
use apag_be.Policy.Deadline.{EvaluationDeadlines}
use apag_be.Database.Rows.{SemesterNo, Semester, Db}
use apag_be.Services.Submit.{TrainingEvaluationSemester, to_semester_no, semester_index}
use apag_be.Services.Semesters.{
  lock_evaluation_forms_by_semester_ids, unlock_evaluation_forms_by_semester_ids,
}
use apag_be.Services.SemesterAdmin.{
  DateFields, is_given, CreateSemesterDto, UpdateSemesterDto, SemesterData, no_data, data_of,
  build_semester_data, Period, validate_date_order, validate_no_overlap, of_term,
  assert_unique_semester, has_semester_id, find_record_by_id, has_evaluation_forms,
  deactivate_active_semesters_and_lock_forms,
}

-- What the transaction of a command leaves, and the row it answers with.
pub record ChangedSemester : Type 0 where
  pub response : Semester
  pub db : Db

-- The dates of a semester to be created.
pub record Planned : Type 0 where
  pub period : Period
  pub dates : SemesterData

unfoldable pub create_semester_check : CreateSemesterDto → Db → Result Planned
create_semester_check dto db = do
  dates ← build_semester_data dto.dates no_data
  period ← validate_date_order dates
  validate_no_overlap period none db
  assert_unique_semester dto.year (to_semester_no dto.semester) none db
  ok (record { period = period; dates = dates })

abbrev deadlines : SemesterData → EvaluationDeadlines
deadlines d = record {
  student_deadline = d.student_deadline;
  class_deadline = d.class_deadline;
  faculty_deadline = d.faculty_deadline;
}

-- `isActive ?? false`
abbrev pub wants_active : Option Bool → Bool
wants_active none = false
wants_active (some b) = b

abbrev pub new_semester : ℕ → CreateSemesterDto → Planned → Semester
new_semester id dto plan = record {
  id = id;
  year = dto.year;
  semester = to_semester_no dto.semester;
  start_date = plan.period.start_date;
  end_date = plan.period.end_date;
  is_active = wants_active dto.is_active;
  deadlines = deadlines plan.dates;
}

-- The row of a transaction, inserted under the unique keys.
unfoldable pub insert_semester : Semester → Db → Result ChangedSemester
insert_semester row db = do
  require (not (any (λ s. s.id == row.id || of_term row.year row.semester s) db.semesters))
      (conflict semester_exists)
  ok (record { response = row; db = record db { semesters = db.semesters ++ row ∷ [] } })

unfoldable pub create_semester_write : ℕ → CreateSemesterDto → Planned → Db → Result ChangedSemester
unfolding insert_semester
create_semester_write new_id dto plan db =
    insert_semester (new_semester new_id dto plan) (
      if wants_active dto.is_active then deactivate_active_semesters_and_lock_forms none db else db)

-- `Object.keys(dto).length === 0`
abbrev no_dates : DateFields → Bool
no_dates d =
    not (is_given d.start_date)
    && not (is_given d.end_date)
    && not (is_given d.student_deadline)
    && not (is_given d.class_deadline)
    && not (is_given d.faculty_deadline)

abbrev pub nothing_given : UpdateSemesterDto → Bool
nothing_given dto =
    not (is_some dto.year)
    && not (is_some dto.semester)
    && no_dates dto.dates
    && not (is_some dto.is_active)

-- What a semester with forms keeps.
abbrev pub changes_term : UpdateSemesterDto → Bool
changes_term dto =
    is_some dto.year
    || is_some dto.semester
    || is_given dto.dates.start_date
    || is_given dto.dates.end_date

-- The term and the dates that the row is to have.
pub record NextSemester : Type 0 where
  pub year : ℕ
  pub semester : SemesterNo
  pub period : Period
  pub dates : SemesterData

abbrev pub next_semester_no : Option TrainingEvaluationSemester → SemesterNo → SemesterNo
next_semester_no none current = current
next_semester_no (some t) current = to_semester_no t

abbrev pub same_term : ℕ → SemesterNo → Semester → Bool
same_term year semester current =
    year == current.year && semester_index semester == semester_index current.semester

abbrev pub when : Bool → Result (Unit {0}) → Result (Unit {0})
when b guard = if b then guard else ok tt

unfoldable pub update_semester_check : ℕ → UpdateSemesterDto → Db → Result NextSemester
update_semester_check id dto db = do
  require (not (nothing_given dto)) (bad_request nothing_to_update)
  current ← find_record_by_id id db
  let year = or_else dto.year current.year
  let semester = next_semester_no dto.semester current.semester
  require (not (has_evaluation_forms id db && changes_term dto)) (bad_request semester_has_forms)
  when (not (same_term year semester current)) (assert_unique_semester year semester (some id) db)
  dates ← build_semester_data dto.dates (data_of current)
  period ← validate_date_order dates
  when (is_given dto.dates.start_date || is_given dto.dates.end_date)
      (validate_no_overlap period (some id) db)
  ok (record { year = year; semester = semester; period = period; dates = dates })

-- `...(given && { column: value })`, a value that is undefined leaving the column as it is.
abbrev pub set_deadline : Bool → Option ℕ → Option ℕ → Option ℕ
set_deadline false next now = now
set_deadline true none now = now
set_deadline true (some t) now = some t

abbrev pub set_if {ℓ} : {A : Type ℓ} → Bool → A → A → A
set_if given next now = if given then next else now

abbrev pub updated_semester : UpdateSemesterDto → NextSemester → Semester → Semester
updated_semester dto next s = record s {
  year = set_if (is_some dto.year) next.year s.year;
  semester = set_if (is_some dto.semester) next.semester s.semester;
  start_date = set_if (is_given dto.dates.start_date) next.period.start_date s.start_date;
  end_date = set_if (is_given dto.dates.end_date) next.period.end_date s.end_date;
  is_active = or_else dto.is_active s.is_active;
  deadlines = record {
    student_deadline =
        set_deadline (is_given dto.dates.student_deadline) next.dates.student_deadline
          s.deadlines.student_deadline;
    class_deadline =
        set_deadline (is_given dto.dates.class_deadline) next.dates.class_deadline
          s.deadlines.class_deadline;
    faculty_deadline =
        set_deadline (is_given dto.dates.faculty_deadline) next.dates.faculty_deadline
          s.deadlines.faculty_deadline;
  };
}

-- `semester.update({ where: { id }, data })` under the unique keys.
unfoldable pub update_row : ℕ → (Semester → Semester) → Db → Result ChangedSemester
unfolding find_record_by_id
update_row id change db = do
  current ← find_record_by_id id db
  let row = change current
  require (not (any (λ s. not (s.id == id) && of_term row.year row.semester s) db.semesters))
      (conflict semester_exists)
  ok (record {
    response = row;
    db = record db { semesters = update_where (has_semester_id id) change db.semesters };
  })

-- The semester is opened: all others are closed first.
abbrev pub open_semester : ℕ → Db → Db
open_semester id db =
    unlock_evaluation_forms_by_semester_ids (id ∷ [])
      (deactivate_active_semesters_and_lock_forms (some id) db)

abbrev pub switch_forms : Option Bool → Bool → ℕ → Db → Db
switch_forms (some true) false id db = open_semester id db
switch_forms (some false) true id db = lock_evaluation_forms_by_semester_ids (id ∷ []) db
switch_forms _ _ id db = db

unfoldable pub update_semester_write :
    ℕ → UpdateSemesterDto → NextSemester → Db → Result ChangedSemester
unfolding find_record_by_id update_row
update_semester_write id dto next db = do
  current ← find_record_by_id id db
  update_row id (updated_semester dto next) (switch_forms dto.is_active current.is_active id db)

abbrev pub activated : Bool → Semester → Semester
activated is_active s = record s { is_active = is_active }

unfoldable pub toggle_active : ℕ → Bool → Db → Result ChangedSemester
unfolding find_record_by_id update_row
toggle_active id is_active db = do
  _ ← find_record_by_id id db
  update_row id (activated is_active) (
      if is_active then open_semester id db else lock_evaluation_forms_by_semester_ids (id ∷ []) db)
