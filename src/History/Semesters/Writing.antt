-- ===== src/History/Semesters/Writing.antt =====
-- Inserting and updating the row of a semester.
use apag_be.Prelude.{
  sym, subst, ℕ, ◌≡◌, refl, ◌∙◌, subst, inl, inr, Bool, true, false, not, ◌&&◌, ◌||◌, ◌==◌, ==_refl,
  ==_iff, some, List, [], ◌∷◌, ◌++◌, arith, Bool-cases, any, All, All-combine, update_where,
  All-weaken, All-append, All-update_where, any-false, Pairwise-append, Pairwise-update_where,
  Pairwise-replace, row_after,
}
use apag_be.Http.{ok, >>=-eq-ok}
use apag_be.Database.Rows.{Semester, Db, find_by}
use apag_be.Services.SemesterAdmin.{of_term, has_semester_id, find_record_by_id}
use apag_be.Services.SemesterAdmin.Commands.{insert_semester, update_row, ChangedSemester}
use apag_be.History.Semesters.Terms.{
  DistinctId, DistinctTerm, OnlyActive, Terms, only_row, of_term_sym,
}

abbrev taken : Semester → Semester → Bool
taken row s = s.id == row.id || of_term row.year row.semester s

pub insert-guards :
    (row : Semester) (db : Db) (out : ChangedSemester)
    → insert_semester row db ≡ ok out
    → (any (taken row) db.semesters ≡ false)
      × (out.db ≡ record db { semesters = db.semesters ++ row ∷ [] })
      × (out.response ≡ row)
unfolding insert_semester
insert-guards row db out h = ground arith

pub insert-Terms :
    (row : Semester) (db : Db) (out : ChangedSemester)
    → insert_semester row db ≡ ok out
    → (row.is_active ≡ true → All (λ s. s.is_active ≡ true → ⊥) db.semesters)
    → Terms db.semesters
    → Terms out.db.semesters
insert-Terms row db out h alone t =
    let (free, is, _) = insert-guards row db out h in
    let free_rows = any-false (taken row) db.semesters free in
    let (id, only) = t.one_active in
    rw is record {
      ids =
          Pairwise-append DistinctId db.semesters row t.ids
            (All-weaken db.semesters (λ s k e. ground (arith, ==_refl row.id)) free_rows);
      terms =
          Pairwise-append DistinctTerm db.semesters row t.terms
            (All-weaken db.semesters (λ s k. of_term_sym row s (ground arith)) free_rows);
      one_active = elim (Bool-cases row.is_active) [
        | inl e ↦ (
          row.id,
          All-append (OnlyActive row.id) db.semesters
              (All-weaken db.semesters (λ s k active. absurd (k active)) (alone e))
              (λ active. refl),
        )
        | inr e ↦ (id, All-append (OnlyActive id) db.semesters only (λ active. cc (e, active)))
      ];
    }

-- A row of another semester with its term.
abbrev other_of_term : ℕ → Semester → Semester → Bool
other_of_term id row s = not (s.id == id) && of_term row.year row.semester s

pub update_row-guards :
    (id : ℕ) (change : Semester → Semester) (db : Db) (out : ChangedSemester)
    → update_row id change db ≡ ok out
    → (now : Semester) × (find_by (has_semester_id id) db.semesters ≡ some now)
      × (any (other_of_term id (change now)) db.semesters ≡ false)
      × (out.db ≡ record db { semesters = update_where (has_semester_id id) change db.semesters })
      × (out.response ≡ change now)
unfolding update_row find_record_by_id
update_row-guards id change db out h =
    let (now, found, rest) = >>=-eq-ok (find_record_by_id id db) _ h in
    (now, ground arith, ground arith, ground arith, ground arith)

module _ (id : ℕ) (change : Semester → Semester)
    (keeps : (s : Semester) → (change s).id ≡ s.id) where
  abbrev after : Semester → Semester
  after = row_after (has_semester_id id) change

  pub after-id : (s : Semester) → (after s).id ≡ s.id
  after-id s = elim (Bool-cases (has_semester_id id s)) [
    | inl e ↦ rw e (keeps s)
    | inr e ↦ rw e refl
  ]

  -- The updated row may be the active one.
  opened_row : (s : Semester) → OnlyActive id s → OnlyActive id (after s)
  opened_row s only h = elim (Bool-cases (has_semester_id id s)) [
    | inl e ↦ after-id s ∙ ==_iff s.id id e
    | inr e ↦ after-id s ∙ only (rw e at h)
  ]

  -- The updated row is not active.
  closed_row :
      (now : Semester) (active_id : ℕ) (s : Semester)
      → (change now).is_active ≡ false
      → OnlyActive active_id s
      → (has_semester_id id s ≡ true → s ≡ now)
      → OnlyActive active_id (after s)
  closed_row now active_id s off only is h = elim (Bool-cases (has_semester_id id s)) [
    | inl e ↦
        let on : (change s).is_active ≡ true = rw e at h in
        let on_now = subst (λ x. (change x).is_active ≡ true) (is e) on in cc (off, on_now)
    | inr e ↦ after-id s ∙ only (rw e at h)
  ]

  pub after-one_active :
      (ss : List Semester) (now : Semester) (active_id : ℕ)
      → ((change now).is_active ≡ true → All (OnlyActive id) ss)
      → All (OnlyActive active_id) ss
      → All (λ s. has_semester_id id s ≡ true → s ≡ now) ss
      → (e : ℕ) × All (OnlyActive e) (update_where (has_semester_id id) change ss)
  after-one_active ss now active_id alone only is = elim (Bool-cases (change now).is_active) [
    | inl on ↦ (
      id,
      All-update_where (has_semester_id id) change (OnlyActive id) (OnlyActive id) ss opened_row
          (alone on),
    )
    | inr off ↦ (
      active_id,
      All-update_where (has_semester_id id) change
          (λ s. OnlyActive active_id s × (has_semester_id id s ≡ true → s ≡ now))
          (OnlyActive active_id) ss (λ s o. closed_row now active_id s off o.0 o.1)
          (All-combine ss (λ s o k. (o, k)) only is),
    )
  ]

pub update_row-Terms :
    (id : ℕ) (change : Semester → Semester) (db : Db) (out : ChangedSemester)
    → update_row id change db ≡ ok out
    → ((s : Semester) → (change s).id ≡ s.id)
    → ((now : Semester)
        → find_by (has_semester_id id) db.semesters ≡ some now
        → (change now).is_active ≡ true
        → All (OnlyActive id) db.semesters)
    → Terms db.semesters
    → Terms out.db.semesters
update_row-Terms id change db out h keeps alone t =
    let (now, found, free, is, _) = update_row-guards id change db out h in
    let p = has_semester_id id in
    let free_rows = any-false (other_of_term id (change now)) db.semesters free in
    let same_row = only_row id db.semesters now t.ids found in
    let (active_id, only) = t.one_active in
    rw is record {
      ids =
          Pairwise-update_where p change DistinctId db.semesters
            (λ x y apart. rw (after-id id change keeps x) (rw (after-id id change keeps y) apart))
            t.ids;
      terms =
          Pairwise-replace p change DistinctId DistinctTerm
            (λ s.
              (has_semester_id id s ≡ true → s ≡ now)
              × (has_semester_id id s ≡ false → DistinctTerm (change now) s))
            (λ x y apart e k. apart (ground arith))
            (λ x y kx ky e k.
              let apart : DistinctTerm (change x) y =
                subst (λ z. DistinctTerm (change z) y) (sym (kx.0 e)) (ky.1 k) in
              (apart, of_term_sym (change x) y apart))
            db.semesters t.ids
            (All-combine db.semesters (λ s is free. (is, λ e. ground arith)) same_row free_rows)
            t.terms;
      one_active =
          after-one_active id change keeps db.semesters now active_id (alone now found) only
            same_row;
    }
