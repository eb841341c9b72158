-- ===== src/History/Semesters/Keeping.antt =====
-- Every command of the administration keeps the calendar, where no other came between its check and its
-- transaction.
use apag_be.Prelude.{
  ℕ, ◌≡◌, refl, inl, inr, true, false, not, ◌&&◌, some, List, arith, Bool-cases, any, All,
  All-combine, All-update_where, any-false, Pairwise-update_where, Pairwise-replace, row_after,
}
use apag_be.Http.{ok, >>=-eq-ok}
use apag_be.Database.Rows.{Semester, Db, find_by}
use apag_be.Services.SemesterAdmin.{
  UpdateSemesterDto, closed, is_given, data_of, in_order, ordered_dates, Period, overlaps, excluded,
  validate_no_overlap, has_semester_id, find_record_by_id,
}
use apag_be.Services.SemesterAdmin.Commands.{
  ChangedSemester, NextSemester, update_semester_check, updated_semester, switch_forms,
  update_semester_write,
}
use apag_be.History.Semesters.Terms.{DistinctId, Terms}
use apag_be.History.Semesters.Writing.{update_row-guards}
use apag_be.History.Semesters.Administering.{switched-Terms}
use apag_be.History.Semesters.Calendar.{
  Disjoint, InOrder, Calendar, ClosedRows, ClosedRows-Calendar, switched-ClosedRows,
  validate_date_order-ok, overlaps_sym, closing_kept,
}
use apag_be.History.Semesters.Rescheduling.{
  NoNull, Scheduled, build-Scheduled, moves, update-checked, SameDates, current_dates,
}

module _ (id : ℕ) (dto : UpdateSemesterDto) (next : NextSemester) (current : Semester)
    (sc : Scheduled dto next current)
    (order : in_order (ordered_dates next.period.start_date next.period.end_date next.dates)
      ≡ true) where
  updated_start :
      (s : Semester)
      → SameDates s current
      → (updated_semester dto next s).start_date ≡ next.period.start_date
  updated_start s (start, _, _) = rw start sc.starts

  updated_end :
      (s : Semester)
      → SameDates s current
      → (updated_semester dto next s).end_date ≡ next.period.end_date
  updated_end s (_, end, _) = rw end sc.ends

  updated-InOrder : (s : Semester) → SameDates s current → InOrder (updated_semester dto next s)
  updated-InOrder s (start, end, deadlines) = rw start (
      rw end (
        rw (deadlines, data_of)
          (rw sc.starts (rw sc.ends (rw sc.student (rw sc.class (rw sc.faculty order)))))))

  -- The updated row is apart from all that are free of its period.
  updated_apart :
      (x y : Semester)
      → SameDates x current
      → overlaps next.period y ≡ false
      → Disjoint (updated_semester dto next x) y × Disjoint y (updated_semester dto next x)
  updated_apart x y at free =
      let there : Disjoint (updated_semester dto next x) y =
        rw (updated_start x at) (rw (updated_end x at) free) in
      (there, overlaps_sym (updated_semester dto next x) y there)

  -- An update that gives neither date leaves the period of a row.
  unmoved :
      moves dto ≡ false
      → (s : Semester)
      → let r = row_after (has_semester_id id) (updated_semester dto next) s in
        (r.start_date ≡ s.start_date) × (r.end_date ≡ s.end_date)
  unmoved still s =
      let start : is_given dto.dates.start_date ≡ false = ground arith in
      let end : is_given dto.dates.end_date ≡ false = ground arith in
      elim (Bool-cases (has_semester_id id s)) [
        | inl e ↦ rw e (rw start refl, rw end refl)
        | inr e ↦ rw e (refl, refl)
      ]

-- What the check for overlaps says of the tables of the transaction.
free_others :
    (id : ℕ) (p : Period) (b : Db) (after : List Semester)
    → validate_no_overlap p (some id) b ≡ ok tt
    → ClosedRows b.semesters after
    → All (λ s. has_semester_id id s ≡ false → overlaps p s ≡ false) after
unfolding validate_no_overlap
free_others id p b after free (q, is) =
    let none_taken : any (λ s. not (excluded (some id) s) && overlaps p s) b.semesters ≡ false =
      ground arith in
    rw is (
      All-update_where q closed (λ s. (not (excluded (some id) s) && overlaps p s) ≡ false)
        (λ s. has_semester_id id s ≡ false → overlaps p s ≡ false) b.semesters
        (λ s k other.
          let (same_id, start, end, _) = closing_kept q s in
          let here : has_semester_id id s ≡ false = rw same_id at other in
          rw start (rw end (ground (arith, k, here))))
        (any-false (λ s. not (excluded (some id) s) && overlaps p s) b.semesters none_taken))

pub update-Calendar :
    (id : ℕ) (dto : UpdateSemesterDto) (next : NextSemester) (b : Db) (out : ChangedSemester)
    → NoNull dto.dates
    → update_semester_check id dto b ≡ ok next
    → update_semester_write id dto next b ≡ ok out
    → Terms b.semesters
    → Calendar b.semesters
    → Calendar out.db.semesters
unfolding update_semester_write find_record_by_id
update-Calendar id dto next b out plain checked h t c =
    let (current, found, built, order, free) = update-checked id dto b next checked in
    let sc = build-Scheduled dto next current plain built order in
    let (_, _, in_order) = validate_date_order-ok next.dates next.period order in
    let (row, read, h1) = >>=-eq-ok (find_record_by_id id b) _ h in
    let found_row : find_by (has_semester_id id) b.semesters ≡ some row = ground arith in
    let m = switch_forms dto.is_active row.is_active id b in
    let how = switched-ClosedRows dto.is_active row.is_active id b in
    let (terms, _) = switched-Terms dto.is_active row.is_active id b row found_row refl t in
    let base = ClosedRows-Calendar b.semesters m.semesters how c in
    let known = current_dates id b.semesters m.semesters current how t.ids found in
    let change = updated_semester dto next in
    let (_, _, _, is, _) = update_row-guards id change m out h1 in
    rw is record {
      disjoint = elim (Bool-cases (moves dto)) [
        | inl e ↦
            Pairwise-replace (has_semester_id id) change DistinctId Disjoint
              (λ s.
                (has_semester_id id s ≡ true → SameDates s current)
                × (has_semester_id id s ≡ false → overlaps next.period s ≡ false))
              (λ x y apart e k. apart (ground arith))
              (λ x y kx ky e k. updated_apart id dto next current sc in_order x y (kx.0 e) (ky.1 k))
              m.semesters terms.ids
              (All-combine m.semesters (λ s k f. (k, f)) known
                (free_others id next.period b m.semesters (rw e at free) how))
              base.disjoint
        | inr e ↦
            Pairwise-update_where (has_semester_id id) change Disjoint m.semesters
              (λ x y d.
                let (x_start, x_end) = unmoved id dto next current sc in_order e x in
                let (y_start, y_end) = unmoved id dto next current sc in_order e y in
                rw x_start (rw x_end (rw y_start (rw y_end d))))
              base.disjoint
      ];
      ordered =
          All-update_where (has_semester_id id) change
            (λ s. (has_semester_id id s ≡ true → SameDates s current) × InOrder s) InOrder
            m.semesters
            (λ s k. elim (Bool-cases (has_semester_id id s)) [
              | inl e ↦ rw e (updated-InOrder id dto next current sc in_order s (k.0 e))
              | inr e ↦ rw e (k.1)
            ])
            (All-combine m.semesters (λ s k o. (k, o)) known base.ordered);
    }
