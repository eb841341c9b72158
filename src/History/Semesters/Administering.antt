-- ===== src/History/Semesters/Administering.antt =====
-- Creating, updating and toggling semesters, as steps of the tables.
use apag_be.Prelude.{
  ℕ, ◌≡◌, refl, sym, ◌∙◌, subst, inl, inr, Bool, true, false, ==_iff, Option, none, some, List, [],
  ◌∷◌, arith, Bool-cases, All, All-weaken, or_else, if◌then◌else◌,
}
use apag_be.Http.{ok, >>=-eq-ok}
use apag_be.Database.Rows.{Semester, Db, find_by}
use apag_be.Database.Laws.{find_by-true}
use apag_be.Services.SemesterAdmin.{
  excluded, CreateSemesterDto, UpdateSemesterDto, has_semester_id, find_record_by_id,
  deactivate_active_semesters_and_lock_forms,
}
use apag_be.Services.SemesterAdmin.Commands.{
  ChangedSemester, Planned, create_semester_check, wants_active, new_semester,
  create_semester_write, NextSemester, update_semester_check, updated_semester, open_semester,
  switch_forms, update_semester_write, activated, toggle_active,
}
use apag_be.Services.Semesters.{lock_evaluation_forms_by_semester_ids}
use apag_be.History.Semesters.Closing.{lock-semesters, unlock-semesters, deactivate-Closing}
use apag_be.History.Semesters.Terms.{OnlyActive, Terms, Closing-Terms, Closing-excluded}
use apag_be.History.Semesters.Writing.{insert-Terms, update_row-Terms}

-- A command of the administration that succeeded, its check on `s` and its transaction on `b`.
pub data SemesterCommand (s b : Db) : Db → Type 0 where
  creates_semester :
      (new_id : ℕ) (dto : CreateSemesterDto) (plan : Planned) (out : ChangedSemester)
      → create_semester_check dto s ≡ ok plan
      → create_semester_write new_id dto plan b ≡ ok out
      → SemesterCommand s b out.db
  updates_semester :
      (id : ℕ) (dto : UpdateSemesterDto) (next : NextSemester) (out : ChangedSemester)
      → update_semester_check id dto s ≡ ok next
      → update_semester_write id dto next b ≡ ok out
      → SemesterCommand s b out.db
  toggles_semester :
      (id : ℕ) (is_active : Bool) (out : ChangedSemester)
      → toggle_active id is_active b ≡ ok out
      → SemesterCommand s b out.db

deactivated-Terms :
    (exclude_id : Option ℕ) (b : Db)
    → Terms b.semesters
    → let ss = (deactivate_active_semesters_and_lock_forms exclude_id b).semesters in
      Terms ss × All (λ s. s.is_active ≡ true → excluded exclude_id s ≡ true) ss
deactivated-Terms exclude_id b t =
    let after = (deactivate_active_semesters_and_lock_forms exclude_id b).semesters in
    let how = deactivate-Closing exclude_id b in
    (
      Closing-Terms exclude_id b.semesters after how t,
      Closing-excluded exclude_id b.semesters after how,
    )

pub opened-Terms :
    (id : ℕ) (b : Db)
    → Terms b.semesters
    → Terms (open_semester id b).semesters × All (OnlyActive id) (open_semester id b).semesters
opened-Terms id b t =
    let (terms, only) = deactivated-Terms (some id) b t in
    rw (unlock-semesters (id ∷ []) (deactivate_active_semesters_and_lock_forms (some id) b)) (
      terms,
      All-weaken (deactivate_active_semesters_and_lock_forms (some id) b).semesters
          (λ s k active. ==_iff s.id id (k active)) only,
    )

-- The tables that a new semester is inserted into.
abbrev pub cleared : Bool → Db → Db
cleared active b = if active then deactivate_active_semesters_and_lock_forms none b else b

cleared-Terms :
    (active : Bool) (b : Db)
    → Terms b.semesters
    → Terms (cleared active b).semesters
      × (active ≡ true → All (λ s. s.is_active ≡ true → ⊥) (cleared active b).semesters)
cleared-Terms false b t = (t, λ on. cc on)
cleared-Terms true b t =
    let (terms, none_active) = deactivated-Terms none b t in
    (
      terms,
      λ on.
          All-weaken (deactivate_active_semesters_and_lock_forms none b).semesters
            (λ s k active. cc (k active)) none_active,
    )

create-Terms :
    (new_id : ℕ) (dto : CreateSemesterDto) (plan : Planned) (b : Db) (out : ChangedSemester)
    → create_semester_write new_id dto plan b ≡ ok out
    → Terms b.semesters
    → Terms out.db.semesters
unfolding create_semester_write
create-Terms new_id dto plan b out h t =
    let (terms, alone) = cleared-Terms (wants_active dto.is_active) b t in
    insert-Terms (new_semester new_id dto plan) (cleared (wants_active dto.is_active) b) out h alone
      terms

toggle-Terms :
    (id : ℕ) (is_active : Bool) (b : Db) (out : ChangedSemester)
    → toggle_active id is_active b ≡ ok out
    → Terms b.semesters
    → Terms out.db.semesters
unfolding toggle_active
toggle-Terms id true b out h t =
    let (_, _, h1) = >>=-eq-ok (find_record_by_id id b) _ h in
    let (terms, only) = opened-Terms id b t in
    update_row-Terms id (activated true) (open_semester id b) out h1 (λ s. refl)
      (λ now found on. only) terms
toggle-Terms id false b out h t =
    let (_, _, h1) = >>=-eq-ok (find_record_by_id id b) _ h in
    update_row-Terms id (activated false) (lock_evaluation_forms_by_semester_ids (id ∷ []) b) out h1
      (λ s. refl) (λ now found on. cc on) (rw (lock-semesters (id ∷ []) b) t)

All-find {κ} :
    (P : Semester → Type κ) (p : Semester → Bool) (ss : List Semester) {now : Semester}
    → find_by p ss ≡ some now
    → All P ss
    → P now
unfolding find_by
All-find P p [] h all = cc
All-find P p (s ∷ ss) {now} h all = elim (Bool-cases (p s)) [
  | inl e ↦ let is : s ≡ now = ground arith in subst P is all.0
  | inr e ↦ let later : find_by p ss ≡ some now = ground arith in All-find P p ss later all.1
]

-- The active semester is the one that is found.
active_found :
    (id : ℕ) (b : Db) (now : Semester)
    → find_by (has_semester_id id) b.semesters ≡ some now
    → now.is_active ≡ true
    → Terms b.semesters
    → All (OnlyActive id) b.semesters
active_found id b now found on t =
    let (e, only) = t.one_active in
    let at_e : now.id ≡ e =
      All-find (OnlyActive e) (has_semester_id id) b.semesters found only on in
    let at_id = ==_iff now.id id (find_by-true (has_semester_id id) b.semesters found) in
    All-weaken b.semesters (λ s k active. k active ∙ (sym at_e ∙ at_id)) only

-- The tables that an updated semester is written to.
pub switched-Terms :
    (flag : Option Bool) (was : Bool) (id : ℕ) (b : Db) (current : Semester)
    → find_by (has_semester_id id) b.semesters ≡ some current
    → was ≡ current.is_active
    → Terms b.semesters
    → let ss = (switch_forms flag was id b).semesters in
      Terms ss
      × ((now : Semester)
          → find_by (has_semester_id id) ss ≡ some now
          → or_else flag now.is_active ≡ true
          → All (OnlyActive id) ss)
switched-Terms (some true) false id b current found is t =
    let (terms, only) = opened-Terms id b t in (terms, λ now at on. only)
switched-Terms (some true) true id b current found is t =
    (t, λ now at on. active_found id b current found (sym is) t)
switched-Terms (some false) true id b current found is t =
    (rw (lock-semesters (id ∷ []) b) t, λ now at on. cc on)
switched-Terms (some false) false id b current found is t = (t, λ now at on. cc on)
switched-Terms none was id b current found is t = (t, λ now at on. active_found id b now at on t)

update-Terms :
    (id : ℕ) (dto : UpdateSemesterDto) (next : NextSemester) (b : Db) (out : ChangedSemester)
    → update_semester_write id dto next b ≡ ok out
    → Terms b.semesters
    → Terms out.db.semesters
unfolding update_semester_write find_record_by_id
update-Terms id dto next b out h t =
    let (current, read, h1) = >>=-eq-ok (find_record_by_id id b) _ h in
    let found : find_by (has_semester_id id) b.semesters ≡ some current = ground arith in
    let (terms, alone) = switched-Terms dto.is_active current.is_active id b current found refl t in
    update_row-Terms id (updated_semester dto next)
      (switch_forms dto.is_active current.is_active id b) out h1 (λ s. refl) alone terms

-- Whichever command of the administration succeeds, and whatever others have committed since its
-- checks: if before its transaction the ids of semesters were unique, their years and terms too, and
-- at most one was active, so it is afterwards. The code sees to the last by itself; the index on
-- active semesters is not needed for it.
pub SemesterCommand-Terms :
    (s b c : Db) → SemesterCommand s b c → Terms b.semesters → Terms c.semesters
SemesterCommand-Terms s b c (creates_semester new_id dto plan out checked h) t =
    create-Terms new_id dto plan b out h t
SemesterCommand-Terms s b c (updates_semester id dto next out checked h) t =
    update-Terms id dto next b out h t
SemesterCommand-Terms s b c (toggles_semester id is_active out h) t =
    toggle-Terms id is_active b out h t
