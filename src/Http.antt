-- ===== src/Http.antt =====
-- What a request ends in: a value, or one of Nest's HTTP exceptions. An exception carries the
-- message it is thrown with, here a name for each text of the source.
use apag_be.Prelude.{◌≡◌, refl, Bool, true, false}

pub data Message : Type 0 where
  no_permission other_faculty_form faculty_unavailable class_not_assigned faculty_not_assigned
        faculty_unassigned other_faculty role_cannot_review role_cannot_confirm :
      Message
  form_not_found semester_not_found class_not_found criterion_not_found evidence_not_found : Message
  cannot_transition not_reopenable not_editable locked version_conflict selection_changed : Message
  form_exists needs_class needs_advisor needs_faculty_user needs_training_department : Message
  nothing_to_forward unconfirmed_forms forms_without_class_score no_class_score : Message
  student_deadline_passed class_deadline_passed faculty_deadline_passed : Message
  officer_fields_missing empty_draft score_above_maximum class_score_required : Message
  batch_too_large batch_empty academic_year_invalid key_invalid key_reused class_required : Message
  semester_exists dates_required dates_overlap dates_out_of_order date_invalid : Message
  nothing_to_update semester_has_forms : Message
  account_missing wrong_password account_disabled current_password_wrong same_password : Message
  refresh_invalid refresh_revoked refresh_expired refresh_used reset_invalid user_not_found :
      Message

pub data Error : Type 0 where
  bad_request : Message → Error  -- 400
  forbidden : Message → Error  -- 403
  not_found : Message → Error  -- 404
  conflict : Message → Error  -- 409
  unauthorized : Message → Error  -- 401

-- What a service method ends in.
pub data Result {ℓ} (A : Type ℓ) : Type ℓ where
  err : Error → Result A
  ok : A → Result A

-- `if (!allowed) throw reason`
abbrev pub require : Bool → Error → Result (Unit {0})
require false reason = err reason
require true reason = ok tt

infixl 5 ◌>>=◌
-- `await` of a value: an exception skips the rest.
abbrev pub ◌>>=◌ {ℓ κ} : {A : Type ℓ} {B : Type κ} → Result A → (A → Result B) → Result B
err reason >>= rest = err reason
ok value >>= rest = rest value

infixl 5 ◌>>◌
-- `await` of a guard.
abbrev pub ◌>>◌ {ℓ} : {B : Type ℓ} → Result (Unit {0}) → Result B → Result B
guard >> rest = guard >>= λ _. rest

-- A guard that let the rest run, and the rest.
pub >>-eq-ok {ℓ} :
    {B : Type ℓ} (guard : Result (Unit {0})) (rest : Result B) {answer : B}
    → (guard >> rest) ≡ ok answer
    → (guard ≡ ok tt) × (rest ≡ ok answer)
>>-eq-ok (err reason) rest done = cc
>>-eq-ok (ok tt) rest done = (refl, done)

-- What a request had computed before it went on.
pub >>=-eq-ok {ℓ κ} :
    {A : Type ℓ} {B : Type κ} (read : Result A) (rest : A → Result B) {answer : B}
    → (read >>= rest) ≡ ok answer
    → (value : A) × (read ≡ ok value) × (rest value ≡ ok answer)
>>=-eq-ok (err reason) rest done = cc
>>=-eq-ok (ok value) rest done = (value, refl, done)

pub >>=-assoc {ℓ κ μ} :
    {A : Type ℓ} {B : Type κ} {C : Type μ} (read : Result A) (f : A → Result B) (g : B → Result C)
    → (read >>= f) >>= g ≡ (read >>= λ x. f x >>= g)
>>=-assoc (err reason) f g = refl
>>=-assoc (ok value) f g = refl
