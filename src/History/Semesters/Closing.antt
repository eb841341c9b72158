-- ===== src/History/Semesters/Closing.antt =====
-- What closing the active semesters does to the table of semesters.
use apag_be.Prelude.{
  ℕ, ◌≡◌, refl, sym, ap, inl, inr, Bool, true, false, ◌==◌, ==_refl, Option, List, [], ◌∷◌, map,
  arith, length, Bool-cases, any, All, where_rows, update_where, All-weaken,
}
use apag_be.Database.Rows.{Semester, Db}
use apag_be.Services.Semesters.{
  lock_evaluation_forms_by_semester_ids, unlock_evaluation_forms_by_semester_ids,
}
use apag_be.Services.SemesterAdmin.{
  to_close, closed, close_all, deactivate_active_semesters_and_lock_forms,
}

pub lock-semesters :
    (ids : List ℕ) (db : Db)
    → (lock_evaluation_forms_by_semester_ids ids db).semesters ≡ db.semesters
unfolding lock_evaluation_forms_by_semester_ids
lock-semesters ids db = elim (Bool-cases (length ids == 0)) [
  | inl e ↦ rw e refl
  | inr e ↦ rw e refl
]

pub unlock-semesters :
    (ids : List ℕ) (db : Db)
    → (unlock_evaluation_forms_by_semester_ids ids db).semesters ≡ db.semesters
unfolding unlock_evaluation_forms_by_semester_ids
unlock-semesters ids db = elim (Bool-cases (length ids == 0)) [
  | inl e ↦ rw e refl
  | inr e ↦ rw e refl
]

abbrev pub selected : (Semester → Bool) → List Semester → List ℕ
selected p ss = map (λ (s : Semester). s.id) (where_rows p ss)

abbrev pub listed : List ℕ → Semester → Bool
listed ids s = any (λ i. i == s.id) ids

pub selected-listed :
    (p : Semester → Bool) (ss : List Semester)
    → All (λ s. p s ≡ true → listed (selected p ss) s ≡ true) ss
selected-listed p [] = tt
selected-listed p (s ∷ ss) = elim (Bool-cases (p s)) [
  | inl e ↦
      let ids : selected p (s ∷ ss) ≡ s.id ∷ selected p ss = rw e refl in
      (
        λ h. rw ids (ground (arith, ==_refl s.id)),
        All-weaken ss (λ x k h. rw ids (ground (arith, k h))) (selected-listed p ss),
      )
  | inr e ↦
      let ids : selected p (s ∷ ss) ≡ selected p ss = rw e refl in
      (λ h. ground arith, All-weaken ss (λ x k h. rw ids (k h)) (selected-listed p ss))
]

pub none-selected :
    (p : Semester → Bool) (ss : List Semester)
    → length (selected p ss) ≡ 0
    → All (λ s. p s ≡ true → ⊥) ss
none-selected p [] h = tt
none-selected p (s ∷ ss) h = elim (Bool-cases (p s)) [
  | inl e ↦ absurd (ground arith)
  | inr e ↦ (λ k. cc (k, e), none-selected p ss (ground arith))
]

pub update-none : (ss : List Semester) → update_where (λ s. false) closed ss ≡ ss
update-none [] = refl
update-none (s ∷ ss) = ap (λ rest. s ∷ rest) (update-none ss)

-- The rows that are closed: among them all that are active and not excluded.
abbrev pub Closing : Option ℕ → List Semester → List Semester → Type 0
Closing exclude_id before after =
    (q : Semester → Bool) × (after ≡ update_where q closed before)
    × All (λ s. to_close exclude_id s ≡ true → q s ≡ true) before

pub deactivate-Closing :
    (exclude_id : Option ℕ) (db : Db)
    → Closing exclude_id db.semesters
        (deactivate_active_semesters_and_lock_forms exclude_id db).semesters
unfolding deactivate_active_semesters_and_lock_forms
deactivate-Closing exclude_id db =
    let ids = selected (to_close exclude_id) db.semesters in
    elim (Bool-cases (length ids == 0)) [
      | inl e ↦ rw e (
        λ s. false,
        sym (update-none db.semesters),
        All-weaken db.semesters (λ s k h. absurd (k h))
            (none-selected (to_close exclude_id) db.semesters (ground arith)),
      )
      | inr e ↦ rw e (
        listed ids,
        lock-semesters ids (record db { semesters = close_all ids db.semesters }),
        selected-listed (to_close exclude_id) db.semesters,
      )
    ]
