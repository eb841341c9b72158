-- ===== src/History/Semesters/Rescheduling.antt =====
-- Updating and toggling a semester keep the calendar.
use apag_be.Prelude.{
  ℕ, ◌≡◌, refl, ◌∙◌, ap, subst, ◌≢◌, Bool, true, not, ◌&&◌, ◌||◌, Option, some, List, arith, All,
  All-update_where, or_else, Pairwise,
}
use apag_be.Http.{
  ok, bad_request, nothing_to_update, semester_has_forms, require, >>-eq-ok, >>=-eq-ok,
}
use apag_be.Database.Rows.{Semester, Db, find_by}
use apag_be.Services.SemesterAdmin.{
  DateField, absent, null_date, no_day, day, DateFields, is_given, parse_optional_date_only,
  deadline_or, either, UpdateSemesterDto, data_of, validate_date_order, validate_no_overlap,
  has_semester_id, find_record_by_id, closed, build_semester_data, has_evaluation_forms,
  assert_unique_semester,
}
use apag_be.Services.SemesterAdmin.Commands.{
  nothing_given, changes_term, next_semester_no, same_term, set_if, set_deadline, when,
  NextSemester, update_semester_check,
}
use apag_be.History.Semesters.Terms.{DistinctId, only_row}
use apag_be.History.Semesters.Calendar.{ClosedRows, validate_date_order-ok, closing_kept}

-- A date that the request gives, or leaves as it is.
set_if-kept :
    (d : DateField) (o : Option ℕ) (now next : ℕ)
    → parse_optional_date_only d ≡ ok o
    → either o (some now) ≡ some next
    → set_if (is_given d) next now ≡ next
unfolding parse_optional_date_only
set_if-kept absent o now next h k = ground arith
set_if-kept null_date o now next h k = refl
set_if-kept no_day o now next h k = refl
set_if-kept (day t) o now next h k = refl

set_deadline-kept :
    (d : DateField) (now next : Option ℕ)
    → deadline_or d now ≡ ok next
    → d ≢ null_date
    → set_deadline (is_given d) next now ≡ next
unfolding parse_optional_date_only
set_deadline-kept absent now next h k = ground arith
set_deadline-kept null_date now next h k = absurd (k refl)
set_deadline-kept no_day now next h k = cc h
set_deadline-kept (day t) now next h k = ground arith

-- No deadline of the request is null.
pub record NoNull (d : DateFields) : Type 0 where
  pub student : d.student_deadline ≢ null_date
  pub class : d.class_deadline ≢ null_date
  pub faculty : d.faculty_deadline ≢ null_date

-- The dates of the row once it is updated, if they are those that were checked.
pub record Scheduled (dto : UpdateSemesterDto) (next : NextSemester) (current : Semester)
    : Type 0 where
  pub starts :
      set_if (is_given dto.dates.start_date) next.period.start_date current.start_date
      ≡ next.period.start_date
  pub ends :
      set_if (is_given dto.dates.end_date) next.period.end_date current.end_date
      ≡ next.period.end_date
  pub student :
      set_deadline
        (is_given dto.dates.student_deadline)
        next.dates.student_deadline
        current.deadlines.student_deadline
      ≡ next.dates.student_deadline
  pub class :
      set_deadline
        (is_given dto.dates.class_deadline)
        next.dates.class_deadline
        current.deadlines.class_deadline
      ≡ next.dates.class_deadline
  pub faculty :
      set_deadline
        (is_given dto.dates.faculty_deadline)
        next.dates.faculty_deadline
        current.deadlines.faculty_deadline
      ≡ next.dates.faculty_deadline

pub build-Scheduled :
    (dto : UpdateSemesterDto) (next : NextSemester) (current : Semester)
    → NoNull dto.dates
    → build_semester_data dto.dates (data_of current) ≡ ok next.dates
    → validate_date_order next.dates ≡ ok next.period
    → Scheduled dto next current
unfolding build_semester_data
build-Scheduled dto next current plain built order =
    let (start, end, _) = validate_date_order-ok next.dates next.period order in
    let (a, read_a, h1) = >>=-eq-ok (parse_optional_date_only dto.dates.start_date) _ built in
    let (b, read_b, h2) = >>=-eq-ok (parse_optional_date_only dto.dates.end_date) _ h1 in
    let (x, read_x, h3) =
      >>=-eq-ok (deadline_or dto.dates.student_deadline current.deadlines.student_deadline) _ h2 in
    let (y, read_y, h4) =
      >>=-eq-ok (deadline_or dto.dates.class_deadline current.deadlines.class_deadline) _ h3 in
    let (z, read_z, h5) =
      >>=-eq-ok (deadline_or dto.dates.faculty_deadline current.deadlines.faculty_deadline) _ h4 in
    record {
      starts =
          set_if-kept dto.dates.start_date a current.start_date next.period.start_date read_a
            (ground arith);
      ends =
          set_if-kept dto.dates.end_date b current.end_date next.period.end_date read_b
            (ground arith);
      student =
          set_deadline-kept dto.dates.student_deadline current.deadlines.student_deadline
            next.dates.student_deadline (ground arith) plain.student;
      class =
          set_deadline-kept dto.dates.class_deadline current.deadlines.class_deadline
            next.dates.class_deadline (ground arith) plain.class;
      faculty =
          set_deadline-kept dto.dates.faculty_deadline current.deadlines.faculty_deadline
            next.dates.faculty_deadline (ground arith) plain.faculty;
    }

abbrev pub moves : UpdateSemesterDto → Bool
moves dto = is_given dto.dates.start_date || is_given dto.dates.end_date

-- What the check of an update has read and found.
pub update-checked :
    (id : ℕ) (dto : UpdateSemesterDto) (b : Db) (next : NextSemester)
    → update_semester_check id dto b ≡ ok next
    → (current : Semester) × (find_by (has_semester_id id) b.semesters ≡ some current)
      × (build_semester_data dto.dates (data_of current) ≡ ok next.dates)
      × (validate_date_order next.dates ≡ ok next.period)
      × (when (moves dto) (validate_no_overlap next.period (some id) b) ≡ ok tt)
unfolding update_semester_check find_record_by_id
update-checked id dto b next h =
    let (_, h1) =
      >>-eq-ok (require (not (nothing_given dto)) (bad_request nothing_to_update)) _ h in
    let (current, read, h2) = >>=-eq-ok (find_record_by_id id b) _ h1 in
    let (_, h3) =
      >>-eq-ok
        (require (not (has_evaluation_forms id b && changes_term dto))
          (bad_request semester_has_forms))
        _ h2 in
    let year = or_else dto.year current.year in
    let semester = next_semester_no dto.semester current.semester in
    let (_, h4) =
      >>-eq-ok
        (when (not (same_term year semester current))
          (assert_unique_semester year semester (some id) b))
        _ h3 in
    let (dates, built, h5) = >>=-eq-ok (build_semester_data dto.dates (data_of current)) _ h4 in
    let (period, ordered, h6) = >>=-eq-ok (validate_date_order dates) _ h5 in
    let (free, done) = >>-eq-ok (when (moves dto) (validate_no_overlap period (some id) b)) _ h6 in
    let same_dates : dates ≡ next.dates = ground arith in
    let same_period : period ≡ next.period = ground arith in
    (
      current,
      ground arith,
      subst (λ d. build_semester_data dto.dates (data_of current) ≡ ok d) same_dates built,
      subst (λ d. validate_date_order d ≡ ok next.period) same_dates
          (subst (λ q. validate_date_order dates ≡ ok q) same_period ordered),
      subst (λ q. when (moves dto) (validate_no_overlap q (some id) b) ≡ ok tt) same_period free,
    )

-- A row with the dates of another.
abbrev pub SameDates : Semester → Semester → Type 0
SameDates s t =
    (s.start_date ≡ t.start_date) × (s.end_date ≡ t.end_date) × (s.deadlines ≡ t.deadlines)

-- In tables in which rows have been closed, the row of the id has the dates that were read.
pub current_dates :
    (id : ℕ) (before after : List Semester) (current : Semester)
    → ClosedRows before after
    → Pairwise DistinctId before
    → find_by (has_semester_id id) before ≡ some current
    → All (λ s. has_semester_id id s ≡ true → SameDates s current) after
current_dates id before after current (q, is) ids found = rw is (
    All-update_where q closed (λ s. has_semester_id id s ≡ true → s ≡ current)
      (λ s. has_semester_id id s ≡ true → SameDates s current) before
      (λ s k own.
        let (same_id, start, end, deadlines) = closing_kept q s in
        let at : s ≡ current = k (rw same_id at own) in
        (
          start ∙ ap (λ (x : Semester). x.start_date) at,
          end ∙ ap (λ (x : Semester). x.end_date) at,
          deadlines ∙ ap (λ (x : Semester). x.deadlines) at,
        ))
      (only_row id before current ids found))
