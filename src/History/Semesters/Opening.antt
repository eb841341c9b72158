-- ===== src/History/Semesters/Opening.antt =====
-- Opening a semester: the others are closed with their forms, and its own forms are free.
use apag_be.Prelude.{
  ℕ, ◌≡◌, refl, sym, ◌∙◌, subst, ◌≢◌, inl, inr, Bool, true, false, not, ◌&&◌, ◌||◌, ◌==◌, ==_refl,
  ==_iff, Option, some, List, [], ◌∷◌, arith, length, any, Bool-cases, All, All-every, All-weaken,
  All-update_where, if◌then◌else◌, row_after,
}
use apag_be.Http.{ok, >>=-eq-ok}
use apag_be.Database.Rows.{EvaluationForm, Semester, Db}
use apag_be.Services.SemesterAdmin.{
  excluded, to_close, close_all, has_semester_id, find_record_by_id,
  deactivate_active_semesters_and_lock_forms,
}
use apag_be.Services.SemesterAdmin.Commands.{
  ChangedSemester, open_semester, activated, toggle_active,
}
use apag_be.Services.Semesters.{
  in_semesters, locked_form, unlocked_form, lock_evaluation_forms_by_semester_ids,
  unlock_evaluation_forms_by_semester_ids,
}
use apag_be.History.Semesters.Closing.{selected, selected-listed, none-selected, deactivate-Closing}
use apag_be.History.Semesters.Terms.{Closing-excluded}
use apag_be.History.Semesters.Writing.{update_row-guards}

-- The forms of a semester are locked.
abbrev LockedIn : ℕ → EvaluationForm → Type 0
LockedIn semester_id f = f.semester_id ≡ semester_id → f.is_locked ≡ true

kept_semester :
    (p : EvaluationForm → Bool) (g : EvaluationForm → EvaluationForm) (f : EvaluationForm)
    → (g f).semester_id ≡ f.semester_id
    → (row_after p g f).semester_id ≡ f.semester_id
kept_semester p g f same = elim (Bool-cases (p f)) [ inl e ↦ rw e same | inr e ↦ rw e refl ]

locked_after :
    (ids : List ℕ) (semester_id : ℕ) (f : EvaluationForm)
    → any (λ i. i == semester_id) ids ≡ true
    → LockedIn semester_id (row_after (λ f. in_semesters ids f && not f.is_locked) locked_form f)
locked_after ids semester_id f among h =
    let p : EvaluationForm → Bool = λ f. in_semesters ids f && not f.is_locked in
    let own : f.semester_id ≡ semester_id = sym (kept_semester p locked_form f refl) ∙ h in
    let here : in_semesters ids f ≡ true =
      subst (λ i. any (λ j. j == i) ids ≡ true) (sym own) among in
    go (in_semesters ids f) f.is_locked here refl
  where
    go :
        (among locked : Bool)
        → among ≡ true
        → f.is_locked ≡ locked
        → (if among && not locked then locked_form f else f).is_locked ≡ true
    go true true e is = is
    go true false e is = refl
    go false locked e is = cc e

lock-locks :
    (ids : List ℕ) (semester_id : ℕ) (db : Db)
    → any (λ i. i == semester_id) ids ≡ true
    → All (LockedIn semester_id) (lock_evaluation_forms_by_semester_ids ids db).forms
unfolding lock_evaluation_forms_by_semester_ids
lock-locks [] semester_id db among = cc among
lock-locks (i ∷ ids) semester_id db among = elim (Bool-cases (length (i ∷ ids) == 0)) [
  | inl e ↦ absurd (ground arith)
  | inr e ↦ rw e (
      All-update_where (λ f. in_semesters (i ∷ ids) f && not f.is_locked) locked_form
        (λ f. Unit {0}) (LockedIn semester_id) db.forms
        (λ f k. locked_after (i ∷ ids) semester_id f among) (All-every db.forms (λ f. tt)))
]

deactivate-locks :
    (exclude_id : Option ℕ) (b : Db)
    → All
        (λ s.
          to_close exclude_id s ≡ true
          → All (LockedIn s.id) (deactivate_active_semesters_and_lock_forms exclude_id b).forms)
        b.semesters
unfolding deactivate_active_semesters_and_lock_forms
deactivate-locks exclude_id b =
    let ids = selected (to_close exclude_id) b.semesters in
    elim (Bool-cases (length ids == 0)) [
      | inl e ↦ rw e (
          All-weaken b.semesters (λ s k h. absurd (k h))
            (none-selected (to_close exclude_id) b.semesters (ground arith)))
      | inr e ↦ rw e (
          All-weaken b.semesters
            (λ s k h.
              lock-locks ids s.id (record b { semesters = close_all ids b.semesters }) (k h))
            (selected-listed (to_close exclude_id) b.semesters))
    ]

-- The row that is activated is the active one.
activated_row :
    (id : ℕ) (s : Semester)
    → (s.is_active ≡ true → excluded (some id) s ≡ true)
    → let r = row_after (has_semester_id id) (activated true) s in
      (r.is_active ≡ true → r.id ≡ id) × (r.id ≡ id → r.is_active ≡ true)
activated_row id s only = elim (Bool-cases (has_semester_id id s)) [
  | inl e ↦ rw e (λ on. ==_iff s.id id e, λ is. refl)
  | inr e ↦ rw e (λ on. ==_iff s.id id (only on), λ is. absurd (ground arith))
]

-- Unlocking the forms of one semester.
module _ (id : ℕ) where
  abbrev to_free : EvaluationForm → Bool
  to_free f = in_semesters (id ∷ []) f && f.is_locked

  abbrev freed : EvaluationForm → EvaluationForm
  freed = row_after to_free unlocked_form

  freed-own : (f : EvaluationForm) → (freed f).semester_id ≡ id → (freed f).is_locked ≡ false
  freed-own f h =
      let own : f.semester_id ≡ id = sym (kept_semester to_free unlocked_form f refl) ∙ h in
      go (id == f.semester_id) f.is_locked (rw own (==_refl id)) refl
    where
      go :
          (among locked : Bool)
          → among ≡ true
          → f.is_locked ≡ locked
          → (if (among || false) && locked then unlocked_form f else f).is_locked ≡ false
      go true true e is = refl
      go true false e is = is
      go false locked e is = cc e

  freed-other :
      (semester_id : ℕ) (f : EvaluationForm)
      → semester_id ≢ id
      → LockedIn semester_id f
      → LockedIn semester_id (freed f)
  freed-other semester_id f differ locked h =
      let own : f.semester_id ≡ semester_id =
        sym (kept_semester to_free unlocked_form f refl) ∙ h in
      let apart : (id == f.semester_id) ≡ false = ground arith in
      go (id == f.semester_id) apart (locked own)
    where
      go :
          (among : Bool)
          → among ≡ false
          → f.is_locked ≡ true
          → (if (among || false) && f.is_locked then unlocked_form f else f).is_locked ≡ true
      go true e is = cc e
      go false e is = is

-- Where an activation succeeds, the semester is active afterwards and no other one is; its forms are not
-- locked; and the forms of every other semester that was active are locked.
pub toggle_active-opens :
    (id : ℕ) (b : Db) (out : ChangedSemester)
    → toggle_active id true b ≡ ok out
    → All
        (λ s. (s.is_active ≡ true → s.id ≡ id) × (s.id ≡ id → s.is_active ≡ true))
        out.db.semesters
      × All (λ f. f.semester_id ≡ id → f.is_locked ≡ false) out.db.forms
      × All
          (λ s.
            s.is_active ≡ true
            → s.id ≢ id
            → All (λ f. f.semester_id ≡ s.id → f.is_locked ≡ true) out.db.forms)
          b.semesters
unfolding toggle_active unlock_evaluation_forms_by_semester_ids
toggle_active-opens id b out h =
    let (_, _, h1) = >>=-eq-ok (find_record_by_id id b) _ h in
    let closed_db = deactivate_active_semesters_and_lock_forms (some id) b in
    let (_, _, _, is, _) = update_row-guards id (activated true) (open_semester id b) out h1 in
    let p : EvaluationForm → Bool = λ f. in_semesters (id ∷ []) f && f.is_locked in
    rw is (
      All-update_where (has_semester_id id) (activated true)
          (λ s. s.is_active ≡ true → excluded (some id) s ≡ true)
          (λ s. (s.is_active ≡ true → s.id ≡ id) × (s.id ≡ id → s.is_active ≡ true))
          closed_db.semesters (activated_row id)
          (Closing-excluded (some id) b.semesters closed_db.semesters
            (deactivate-Closing (some id) b)),
      All-update_where p unlocked_form (λ f. Unit {0})
          (λ f. f.semester_id ≡ id → f.is_locked ≡ false) closed_db.forms (λ f k. freed-own id f)
          (All-every closed_db.forms (λ f. tt)),
      All-weaken b.semesters
          (λ s k active differ.
            All-update_where p unlocked_form (LockedIn s.id) (LockedIn s.id) closed_db.forms
              (λ f. freed-other id s.id f differ) (k (ground arith)))
          (deactivate-locks (some id) b),
    )
