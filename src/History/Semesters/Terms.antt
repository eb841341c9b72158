-- ===== src/History/Semesters/Terms.antt =====
-- At most one semester is active, ids are unique, and so are year and semester.
use apag_be.Prelude.{
  ℕ, ◌≡◌, refl, ◌∙◌, ◌≢◌, inl, inr, Bool, true, false, Option, none, some, List, [], ◌∷◌, arith,
  Bool-cases, All, All-weaken, All-update_where, Pairwise, Pairwise-update_where, row_after,
}
use apag_be.Database.Rows.{Semester, find_by}
use apag_be.Services.SemesterAdmin.{excluded, of_term, to_close, closed, has_semester_id}
use apag_be.History.Semesters.Closing.{Closing}

abbrev pub DistinctId : Semester → Semester → Type 0
DistinctId s t = s.id ≢ t.id

abbrev pub DistinctTerm : Semester → Semester → Type 0
DistinctTerm s t = of_term s.year s.semester t ≡ false

-- Every active semester has this id.
abbrev pub OnlyActive : ℕ → Semester → Type 0
OnlyActive id s = s.is_active ≡ true → s.id ≡ id

pub record Terms (ss : List Semester) : Type 0 where
  pub ids : Pairwise DistinctId ss
  pub terms : Pairwise DistinctTerm ss
  pub one_active : (id : ℕ) × All (OnlyActive id) ss

pub of_term_sym : (s t : Semester) → DistinctTerm s t → DistinctTerm t s
of_term_sym s t h = ground arith

-- The row that a search by id has found is the only one of that id.
pub only_row :
    (id : ℕ) (ss : List Semester) (now : Semester)
    → Pairwise DistinctId ss
    → find_by (has_semester_id id) ss ≡ some now
    → All (λ s. has_semester_id id s ≡ true → s ≡ now) ss
unfolding find_by
only_row id [] now d h = tt
only_row id (s ∷ ss) now d h = elim (Bool-cases (has_semester_id id s)) [
  | inl e ↦
      let is : s ≡ now = ground arith in
      (λ k. is, All-weaken ss (λ t apart k. absurd (apart (ground arith))) d.0)
  | inr e ↦
      let later : find_by (has_semester_id id) ss ≡ some now = ground arith in
      (λ k. cc (k, e), only_row id ss now d.1 later)
]

-- A row that closing has passed.
closing_row :
    (q : Semester → Bool) (s : Semester)
    → let r = row_after q closed s in
      (r.id ≡ s.id)
      × (r.year ≡ s.year)
      × (r.semester ≡ s.semester)
      × (r.is_active ≡ true → (s.is_active ≡ true) × (q s ≡ false))
closing_row q s = elim (Bool-cases (q s)) [
  | inl e ↦ rw e (refl, refl, refl, λ h. cc h)
  | inr e ↦ rw e (refl, refl, refl, λ h. (h, refl))
]

excluded-id :
    (exclude_id : Option ℕ) (s t : Semester)
    → s.id ≡ t.id
    → excluded exclude_id s ≡ excluded exclude_id t
excluded-id none s t h = refl
excluded-id (some id) s t h = rw h refl

excluded-left :
    (q : Semester → Bool) (exclude_id : Option ℕ) (s : Semester)
    → (to_close exclude_id s ≡ true → q s ≡ true)
    → (row_after q closed s).is_active ≡ true
    → excluded exclude_id (row_after q closed s) ≡ true
excluded-left q exclude_id s taken h =
    let (s_id, _, _, was) = closing_row q s in
    let (active, passed) = was h in
    excluded-id exclude_id (row_after q closed s) s s_id
    ∙ elim (Bool-cases (excluded exclude_id s)) [
      | inl e ↦ e
      | inr e ↦ cc (taken (rw e (rw active refl)), passed)
    ]

-- Once the active semesters are closed, only an excluded one is active.
pub Closing-excluded :
    (exclude_id : Option ℕ) (before after : List Semester)
    → Closing exclude_id before after
    → All (λ s. s.is_active ≡ true → excluded exclude_id s ≡ true) after
Closing-excluded exclude_id before after (q, is, takes) = rw is (
    All-update_where q closed (λ s. to_close exclude_id s ≡ true → q s ≡ true)
      (λ s. s.is_active ≡ true → excluded exclude_id s ≡ true) before (excluded-left q exclude_id)
      takes)

-- The semesters once those that are active are closed.
pub Closing-Terms :
    (exclude_id : Option ℕ) (before after : List Semester)
    → Closing exclude_id before after
    → Terms before
    → Terms after
Closing-Terms exclude_id before after (q, is, takes) t =
    let (id, only) = t.one_active in
    rw is record {
      ids =
          Pairwise-update_where q closed DistinctId before
            (λ x y d.
              let (x_id, _, _, _) = closing_row q x in
              let (y_id, _, _, _) = closing_row q y in rw x_id (rw y_id d))
            t.ids;
      terms =
          Pairwise-update_where q closed DistinctTerm before
            (λ x y d.
              let (_, x_year, x_semester, _) = closing_row q x in
              let (_, y_year, y_semester, _) = closing_row q y in
              rw x_year (rw x_semester (rw y_year (rw y_semester d))))
            t.terms;
      one_active = (
        id,
        All-update_where q closed (OnlyActive id) (OnlyActive id) before
            (λ s o h. let (s_id, _, _, was) = closing_row q s in s_id ∙ o ((was h).0)) only,
      );
    }
