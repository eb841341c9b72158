-- ===== src/History/Semesters/Calendar.antt =====
-- The dates of semesters: no two semesters overlap, and the dates of each are in order.
use apag_be.Prelude.{
  ℕ, ◌≡◌, refl, sym, inl, inr, Bool, true, false, Option, none, some, List, [], ◌∷◌, arith,
  Bool-cases, All, All-weaken, All-append, All-update_where, any-false, update_where, Pairwise,
  Pairwise-append, Pairwise-update_where, row_after,
}
use apag_be.Http.{ok, >>-eq-ok, >>=-eq-ok}
use apag_be.Database.Rows.{Semester, Db}
use apag_be.Services.SemesterAdmin.{
  SemesterData, data_of, in_order, ordered_dates, required, Period, validate_date_order, overlaps,
  validate_no_overlap, closed, deactivate_active_semesters_and_lock_forms, CreateSemesterDto,
  no_data, build_semester_data,
}
use apag_be.Services.SemesterAdmin.Commands.{
  ChangedSemester, Planned, create_semester_check, create_semester_write, new_semester,
  wants_active, switch_forms,
}
use apag_be.History.Semesters.Closing.{
  lock-semesters, unlock-semesters, update-none, deactivate-Closing,
}
use apag_be.History.Semesters.Writing.{insert-guards}
use apag_be.History.Semesters.Administering.{cleared}

abbrev pub period_of : Semester → Period
period_of s = record { start_date = s.start_date; end_date = s.end_date }

abbrev pub Disjoint : Semester → Semester → Type 0
Disjoint s t = overlaps (period_of s) t ≡ false

abbrev pub InOrder : Semester → Type 0
InOrder s = in_order (ordered_dates s.start_date s.end_date (data_of s)) ≡ true

pub record Calendar (ss : List Semester) : Type 0 where
  pub disjoint : Pairwise Disjoint ss
  pub ordered : All InOrder ss

-- Rows that differ at most in being active.
abbrev pub ClosedRows : List Semester → List Semester → Type 0
ClosedRows before after = (q : Semester → Bool) × (after ≡ update_where q closed before)

-- What closing leaves of a row.
pub closing_kept :
    (q : Semester → Bool) (s : Semester)
    → let r = row_after q closed s in
      (r.id ≡ s.id)
      × (r.start_date ≡ s.start_date)
      × (r.end_date ≡ s.end_date)
      × (r.deadlines ≡ s.deadlines)
closing_kept q s = elim (Bool-cases (q s)) [
  | inl e ↦ rw e (refl, refl, refl, refl)
  | inr e ↦ rw e (refl, refl, refl, refl)
]

closing_dates :
    (q : Semester → Bool) (s : Semester)
    → let r = row_after q closed s in
      (r.start_date ≡ s.start_date) × (r.end_date ≡ s.end_date) × (r.deadlines ≡ s.deadlines)
closing_dates q s = elim (Bool-cases (q s)) [
  | inl e ↦ rw e (refl, refl, refl)
  | inr e ↦ rw e (refl, refl, refl)
]

pub ClosedRows-Calendar :
    (before after : List Semester) → ClosedRows before after → Calendar before → Calendar after
ClosedRows-Calendar before after (q, is) c = rw is record {
  disjoint =
      Pairwise-update_where q closed Disjoint before
        (λ x y d.
          let (x_start, x_end, _) = closing_dates q x in
          let (y_start, y_end, _) = closing_dates q y in
          rw x_start (rw x_end (rw y_start (rw y_end d))))
        c.disjoint;
  ordered =
      All-update_where q closed InOrder InOrder before
        (λ s o.
          let (start, end, deadlines) = closing_dates q s in
          rw start (rw end (rw (deadlines, data_of) o)))
        c.ordered;
}

-- Nothing that is free of a period takes it by being closed.
pub ClosedRows-free :
    (p : Period) (before after : List Semester)
    → ClosedRows before after
    → All (λ s. overlaps p s ≡ false) before
    → All (λ s. overlaps p s ≡ false) after
ClosedRows-free p before after (q, is) free = rw is (
    All-update_where q closed (λ s. overlaps p s ≡ false) (λ s. overlaps p s ≡ false) before
      (λ s o. let (start, end, _) = closing_dates q s in rw start (rw end o)) free)

pub deactivate-ClosedRows :
    (exclude_id : Option ℕ) (b : Db)
    → ClosedRows b.semesters (deactivate_active_semesters_and_lock_forms exclude_id b).semesters
deactivate-ClosedRows exclude_id b = let (q, is, _) = deactivate-Closing exclude_id b in (q, is)

pub unchanged-ClosedRows : (ss : List Semester) → ClosedRows ss ss
unchanged-ClosedRows ss = (λ s. false, sym (update-none ss))

cleared-ClosedRows : (active : Bool) (b : Db) → ClosedRows b.semesters (cleared active b).semesters
cleared-ClosedRows true b = deactivate-ClosedRows none b
cleared-ClosedRows false b = unchanged-ClosedRows b.semesters

pub switched-ClosedRows :
    (flag : Option Bool) (was : Bool) (id : ℕ) (b : Db)
    → ClosedRows b.semesters (switch_forms flag was id b).semesters
switched-ClosedRows (some true) false id b =
    rw (unlock-semesters (id ∷ []) (deactivate_active_semesters_and_lock_forms (some id) b))
      (deactivate-ClosedRows (some id) b)
switched-ClosedRows (some true) true id b = unchanged-ClosedRows b.semesters
switched-ClosedRows (some false) true id b =
    rw (lock-semesters (id ∷ []) b) (unchanged-ClosedRows b.semesters)
switched-ClosedRows (some false) false id b = unchanged-ClosedRows b.semesters
switched-ClosedRows none was id b = unchanged-ClosedRows b.semesters

pub validate_date_order-ok :
    (d : SemesterData) (p : Period)
    → validate_date_order d ≡ ok p
    → (d.start_date ≡ some p.start_date)
      × (d.end_date ≡ some p.end_date)
      × (in_order (ordered_dates p.start_date p.end_date d) ≡ true)
unfolding validate_date_order
validate_date_order-ok d p h =
    let (start, from, h1) = >>=-eq-ok (required d.start_date) _ h in
    let (end, to, h2) = >>=-eq-ok (required d.end_date) _ h1 in
    (ground arith, ground arith, ground arith)

pub overlaps_sym : (s t : Semester) → Disjoint s t → Disjoint t s
overlaps_sym s t h = ground arith

create-checked :
    (dto : CreateSemesterDto) (b : Db) (plan : Planned)
    → create_semester_check dto b ≡ ok plan
    → (validate_date_order plan.dates ≡ ok plan.period)
      × (validate_no_overlap plan.period none b ≡ ok tt)
unfolding create_semester_check
create-checked dto b plan h =
    let (dates, built, h1) = >>=-eq-ok (build_semester_data dto.dates no_data) _ h in
    let (period, ordered, h2) = >>=-eq-ok (validate_date_order dates) _ h1 in
    let (free, h3) = >>-eq-ok (validate_no_overlap period none b) _ h2 in
    (ground arith, ground arith)

pub create-Calendar :
    (new_id : ℕ) (dto : CreateSemesterDto) (plan : Planned) (b : Db) (out : ChangedSemester)
    → create_semester_check dto b ≡ ok plan
    → create_semester_write new_id dto plan b ≡ ok out
    → Calendar b.semesters
    → Calendar out.db.semesters
unfolding create_semester_write validate_no_overlap
create-Calendar new_id dto plan b out checked h c =
    let (order, free) = create-checked dto b plan checked in
    let (_, _, in_order) = validate_date_order-ok plan.dates plan.period order in
    let base = cleared (wants_active dto.is_active) b in
    let how = cleared-ClosedRows (wants_active dto.is_active) b in
    let row = new_semester new_id dto plan in
    let (_, is, _) = insert-guards row base out h in
    let base_calendar = ClosedRows-Calendar b.semesters base.semesters how c in
    let free_rows : All (λ s. overlaps plan.period s ≡ false) b.semesters =
      any-false (overlaps plan.period) b.semesters (ground arith) in
    rw is record {
      disjoint = Pairwise-append Disjoint base.semesters row base_calendar.disjoint (
          All-weaken base.semesters (λ s k. overlaps_sym row s k)
            (ClosedRows-free plan.period b.semesters base.semesters how free_rows));
      ordered = All-append InOrder base.semesters base_calendar.ordered in_order;
    }
