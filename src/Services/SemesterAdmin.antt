-- ===== src/Services/SemesterAdmin.antt =====
-- modules/semesters/admin-semesters.service.ts: opening, changing and closing semesters. The checks of
-- `create` and `update` read before the transaction, which takes a lock that all commands of this
-- service share.
pub mod Commands
use apag_be.Prelude.{
  ℕ, Bool, true, false, not, ◌&&◌, ◌||◌, Option, none, some, List, [], ◌∷◌, ◌++◌, map, ◌==◌,
  is_some, or_else, any, length, leb, where_rows, count_where, update_where, if◌then◌else◌,
}
use apag_be.Http.{
  Result, ok, err, bad_request, conflict, semester_not_found, semester_exists, dates_required,
  dates_overlap, dates_out_of_order, date_invalid, nothing_to_update, semester_has_forms, require,
  ◌>>=◌, ◌>>◌,
}
use apag_be.Policy.Deadline.{EvaluationDeadlines}
use apag_be.Database.Rows.{SemesterNo, Semester, Db, find_by}
use apag_be.Database.Write.{or_not_found}
use apag_be.Services.Submit.{TrainingEvaluationSemester, to_semester_no, semester_index}
use apag_be.Services.Semesters.{
  lock_evaluation_forms_by_semester_ids, unlock_evaluation_forms_by_semester_ids,
}

-- A date of a request: left out, null, a text of the right form that is no day of the calendar, or a day.
pub data DateField : Type 0 where
  absent null_date no_day : DateField
  day : ℕ → DateField

-- The five dates of both requests.
pub record DateFields : Type 0 where
  pub start_date : DateField
  pub end_date : DateField
  pub student_deadline : DateField
  pub class_deadline : DateField
  pub faculty_deadline : DateField

pub record CreateSemesterDto : Type 0 where
  pub year : ℕ
  pub semester : TrainingEvaluationSemester
  pub dates : DateFields
  pub is_active : Option Bool

pub record UpdateSemesterDto : Type 0 where
  pub year : Option ℕ
  pub semester : Option TrainingEvaluationSemester
  pub dates : DateFields
  pub is_active : Option Bool

unfoldable pub parse_optional_date_only : DateField → Result (Option ℕ)
parse_optional_date_only absent = ok none
parse_optional_date_only null_date = ok none
parse_optional_date_only no_day = err (bad_request date_invalid)
parse_optional_date_only (day t) = ok (some t)

-- `value !== undefined`
abbrev pub is_given : DateField → Bool
is_given absent = false
is_given _ = true

-- The dates of a semester, as far as they are known; a deadline is undefined or null in `none`.
pub record SemesterData : Type 0 where
  pub start_date : Option ℕ
  pub end_date : Option ℕ
  pub student_deadline : Option ℕ
  pub class_deadline : Option ℕ
  pub faculty_deadline : Option ℕ

abbrev pub no_data : SemesterData
no_data = record {
  start_date = none;
  end_date = none;
  student_deadline = none;
  class_deadline = none;
  faculty_deadline = none;
}

abbrev pub data_of : Semester → SemesterData
data_of s = record {
  start_date = some s.start_date;
  end_date = some s.end_date;
  student_deadline = s.deadlines.student_deadline;
  class_deadline = s.deadlines.class_deadline;
  faculty_deadline = s.deadlines.faculty_deadline;
}

-- `a ?? b`
abbrev pub either : Option ℕ → Option ℕ → Option ℕ
either none b = b
either (some a) b = some a

abbrev pub deadline_or : DateField → Option ℕ → Result (Option ℕ)
deadline_or absent fallback = ok fallback
deadline_or d fallback = parse_optional_date_only d

unfoldable pub build_semester_data : DateFields → SemesterData → Result SemesterData
unfolding parse_optional_date_only
build_semester_data dto fallback = do
  start_date ← parse_optional_date_only dto.start_date
  end_date ← parse_optional_date_only dto.end_date
  student_deadline ← deadline_or dto.student_deadline fallback.student_deadline
  class_deadline ← deadline_or dto.class_deadline fallback.class_deadline
  faculty_deadline ← deadline_or dto.faculty_deadline fallback.faculty_deadline
  ok (record {
    start_date = either start_date fallback.start_date;
    end_date = either end_date fallback.end_date;
    student_deadline = student_deadline;
    class_deadline = class_deadline;
    faculty_deadline = faculty_deadline;
  })

abbrev known : Option ℕ → List ℕ
known none = []
known (some t) = t ∷ []

-- The loop over neighbours.
unfoldable pub in_order : List ℕ → Bool
in_order [] = true
in_order (x ∷ []) = true
in_order (x ∷ y ∷ ys) = leb x y && in_order (y ∷ ys)

abbrev pub ordered_dates : ℕ → ℕ → SemesterData → List ℕ
ordered_dates start_date end_date d =
    start_date
    ∷ (known d.student_deadline
        ++ (known d.class_deadline ++ (known d.faculty_deadline ++ end_date ∷ [])))

abbrev pub required : Option ℕ → Result ℕ
required none = err (bad_request dates_required)
required (some t) = ok t

-- The two dates that every semester has.
pub record Period : Type 0 where
  pub start_date : ℕ
  pub end_date : ℕ

unfoldable pub validate_date_order : SemesterData → Result Period
validate_date_order d = do
  start_date ← required d.start_date
  end_date ← required d.end_date
  require (in_order (ordered_dates start_date end_date d)) (bad_request dates_out_of_order)
  ok (record { start_date = start_date; end_date = end_date })

-- `id: { not: excludeId }`
abbrev pub excluded : Option ℕ → Semester → Bool
excluded none s = false
excluded (some id) s = s.id == id

abbrev pub overlaps : Period → Semester → Bool
overlaps p s = leb s.start_date p.end_date && leb p.start_date s.end_date

unfoldable pub validate_no_overlap : Period → Option ℕ → Db → Result (Unit {0})
validate_no_overlap p exclude_id db =
    require (not (any (λ s. not (excluded exclude_id s) && overlaps p s) db.semesters))
      (bad_request dates_overlap)

-- The unique key on year and semester.
abbrev pub of_term : ℕ → SemesterNo → Semester → Bool
of_term year semester s = s.year == year && semester_index s.semester == semester_index semester

unfoldable pub assert_unique_semester : ℕ → SemesterNo → Option ℕ → Db → Result (Unit {0})
assert_unique_semester year semester exclude_id db =
    require (not (any (λ s. not (excluded exclude_id s) && of_term year semester s) db.semesters))
      (conflict semester_exists)

abbrev pub has_semester_id : ℕ → Semester → Bool
has_semester_id id s = s.id == id

unfoldable pub find_record_by_id : ℕ → Db → Result Semester
find_record_by_id id db =
    or_not_found semester_not_found (find_by (has_semester_id id) db.semesters)

unfoldable pub has_evaluation_forms : ℕ → Db → Bool
has_evaluation_forms semester_id db =
    not (count_where (λ f. f.semester_id == semester_id) db.forms == 0)

abbrev pub to_close : Option ℕ → Semester → Bool
to_close exclude_id s = s.is_active && not (excluded exclude_id s)

abbrev pub closed : Semester → Semester
closed s = record s { is_active = false }

-- `data: { isActive: false }` where `id: { in: ids }`
abbrev pub close_all : List ℕ → List Semester → List Semester
close_all ids = update_where (λ (s : Semester). any (λ i. i == s.id) ids) closed

unfoldable pub deactivate_active_semesters_and_lock_forms : Option ℕ → Db → Db
deactivate_active_semesters_and_lock_forms exclude_id db =
    let ids = map (λ (s : Semester). s.id) (where_rows (to_close exclude_id) db.semesters) in
    if length ids == 0
    then db
    else lock_evaluation_forms_by_semester_ids ids
        (record db { semesters = close_all ids db.semesters })
