-- ===== src/History/Semesters/Stepping.antt =====
-- The administration of semesters changes forms by locking and unlocking only.
use apag_be.Prelude.{
  ℕ, ◌≡◌, inl, inr, Bool, true, false, ◌==◌, Option, none, some, List, [], ◌∷◌, map, length,
  Bool-cases, where_rows,
}
use apag_be.Http.{ok, >>=-eq-ok}
use apag_be.Database.Rows.{Semester, Db}
use apag_be.Database.Evolution.{workflow, Valid, Stepped, Stepped-refl, Stepped-trans}
use apag_be.Services.SemesterAdmin.{
  to_close, close_all, find_record_by_id, deactivate_active_semesters_and_lock_forms,
}
use apag_be.Services.SemesterAdmin.Commands.{
  ChangedSemester, wants_active, new_semester, create_semester_write, updated_semester, update_row,
  open_semester, switch_forms, update_semester_write, activated, toggle_active,
}
use apag_be.Services.Semesters.{lock_evaluation_forms_by_semester_ids}
use apag_be.History.Locking.{lock-Stepped, unlock-Stepped}
use apag_be.History.Semesters.Writing.{insert-guards, update_row-guards}
use apag_be.History.Semesters.Administering.{
  SemesterCommand, creates_semester, updates_semester, toggles_semester, cleared,
}

-- The table of semesters is no part of what a step is about.
semesters-Stepped :
    (b c : Db) (ss : List Semester)
    → Stepped workflow b c
    → Stepped workflow b (record c { semesters = ss })
semesters-Stepped b c ss st = record {
  each = st.each;
  valid = record {
    unique = st.valid.unique;
    audited = st.valid.audited;
    one_per_semester = st.valid.one_per_semester;
  };
}

deactivate-Stepped :
    (exclude_id : Option ℕ) (b : Db)
    → Valid b
    → Stepped workflow b (deactivate_active_semesters_and_lock_forms exclude_id b)
unfolding deactivate_active_semesters_and_lock_forms
deactivate-Stepped exclude_id b v =
    let ids = map (λ (s : Semester). s.id) (where_rows (to_close exclude_id) b.semesters) in
    let st = semesters-Stepped b b (close_all ids b.semesters) (Stepped-refl v) in
    elim (Bool-cases (length ids == 0)) [
      | inl e ↦ rw e (Stepped-refl v)
      | inr e ↦ rw e (
          Stepped-trans st
            (lock-Stepped ids (record b { semesters = close_all ids b.semesters }) st.valid))
    ]

open-Stepped : (id : ℕ) (b : Db) → Valid b → Stepped workflow b (open_semester id b)
open-Stepped id b v =
    let st = deactivate-Stepped (some id) b v in
    Stepped-trans st
      (unlock-Stepped (id ∷ []) (deactivate_active_semesters_and_lock_forms (some id) b) st.valid)

cleared-Stepped : (active : Bool) (b : Db) → Valid b → Stepped workflow b (cleared active b)
cleared-Stepped true b v = deactivate-Stepped none b v
cleared-Stepped false b v = Stepped-refl v

switched-Stepped :
    (flag : Option Bool) (was : Bool) (id : ℕ) (b : Db)
    → Valid b
    → Stepped workflow b (switch_forms flag was id b)
switched-Stepped (some true) false id b v = open-Stepped id b v
switched-Stepped (some true) true id b v = Stepped-refl v
switched-Stepped (some false) true id b v = lock-Stepped (id ∷ []) b v
switched-Stepped (some false) false id b v = Stepped-refl v
switched-Stepped none was id b v = Stepped-refl v

update_row-Stepped :
    (id : ℕ) (change : Semester → Semester) (b c : Db) (out : ChangedSemester)
    → update_row id change c ≡ ok out
    → Stepped workflow b c
    → Stepped workflow b out.db
update_row-Stepped id change b c out h st =
    let (_, _, _, is, _) = update_row-guards id change c out h in rw is (semesters-Stepped b c _ st)

-- Every command of the administration is a step of the forms.
pub SemesterCommand-Stepped : (s b c : Db) → SemesterCommand s b c → Valid b → Stepped workflow b c
unfolding create_semester_write update_semester_write toggle_active
SemesterCommand-Stepped s b c (creates_semester new_id dto plan out checked h) v =
    let base = cleared (wants_active dto.is_active) b in
    let (_, is, _) = insert-guards (new_semester new_id dto plan) base out h in
    rw is (semesters-Stepped b base _ (cleared-Stepped (wants_active dto.is_active) b v))
SemesterCommand-Stepped s b c (updates_semester id dto next out checked h) v =
    let (current, _, h1) = >>=-eq-ok (find_record_by_id id b) _ h in
    update_row-Stepped id (updated_semester dto next) b
      (switch_forms dto.is_active current.is_active id b) out h1
      (switched-Stepped dto.is_active current.is_active id b v)
SemesterCommand-Stepped s b c (toggles_semester id true out h) v =
    let (_, _, h1) = >>=-eq-ok (find_record_by_id id b) _ h in
    update_row-Stepped id (activated true) b (open_semester id b) out h1 (open-Stepped id b v)
SemesterCommand-Stepped s b c (toggles_semester id false out h) v =
    let (_, _, h1) = >>=-eq-ok (find_record_by_id id b) _ h in
    update_row-Stepped id (activated false) b (lock_evaluation_forms_by_semester_ids (id ∷ []) b)
      out h1 (lock-Stepped (id ∷ []) b v)
