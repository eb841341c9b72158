-- ===== src/Policy/Access.antt =====
-- domain/evaluation-access.policy.ts and common/shared/enums/user-role.enum.ts. A user, a class or
-- a faculty is known by its UUID, here the number that the UUID writes; only equality is used.
pub mod Laws
use apag_be.Prelude.{
  ℕ, Bool, true, false, not, ◌&&◌, ◌||◌, Option, none, some, List, [], ◌∷◌, any, ◌==◌, is_some,
  opt_eq, if◌then◌else◌, or_else,
}
use apag_be.Http.{
  Result, ok, err, Error, forbidden, bad_request, Message, no_permission, class_required,
  faculty_unassigned, other_faculty, require, ◌>>=◌, ◌>>◌,
}

pub data UserRole : Type 0 where
  admin student class_leader advisor faculty training_department : UserRole

-- The place of a role in the enumeration, by which roles are compared.
abbrev role_index : UserRole → ℕ
role_index admin = 0
role_index student = 1
role_index class_leader = 2
role_index advisor = 3
role_index faculty = 4
role_index training_department = 5

abbrev pub role_eq : UserRole → UserRole → Bool
role_eq a b = role_index a == role_index b

pub record EvaluationActor : Type 0 where
  pub id : ℕ
  pub role : UserRole

-- A field that is absent is `none`.
pub record EvaluationAccessFacts : Type 0 where
  pub student_id : Option ℕ
  pub assigned_to_class : Option Bool
  pub faculty_id : Option ℕ
  pub assigned_faculty_id : Option ℕ
  pub faculty_available : Option Bool

abbrev pub no_facts : EvaluationAccessFacts
no_facts = record {
  student_id = none;
  assigned_to_class = none;
  faculty_id = none;
  assigned_faculty_id = none;
  faculty_available = none;
}

pub data EvaluationCapability : Type 0 where
  read edit review review_decision submit_class approve_faculty finalize : EvaluationCapability

-- `EVALUATION_ACCESS_ROLES`
abbrev pub evaluation_access_roles : EvaluationCapability → List UserRole
evaluation_access_roles read =
    student ∷ class_leader ∷ advisor ∷ faculty ∷ admin ∷ training_department ∷ []
evaluation_access_roles edit = student ∷ []
evaluation_access_roles review = class_leader ∷ advisor ∷ []
evaluation_access_roles review_decision = class_leader ∷ advisor ∷ admin ∷ []
evaluation_access_roles submit_class = class_leader ∷ advisor ∷ []
evaluation_access_roles approve_faculty = faculty ∷ []
evaluation_access_roles finalize = admin ∷ training_department ∷ []

-- `requiredRole === undefined || actor.role === requiredRole`
abbrev role_required : Option UserRole → UserRole → Bool
role_required none role = true
role_required (some required) role = role_eq role required

unfoldable pub has_role : EvaluationCapability → EvaluationActor → Option UserRole → Bool
has_role action actor required =
    any (role_eq actor.role) (evaluation_access_roles action) && role_required required actor.role

-- `asserts allowed`
abbrev pub assert_evaluation_access : Bool → Message → Result (Unit {0})
assert_evaluation_access allowed message = require allowed (forbidden message)

unfoldable pub assert_role :
    EvaluationCapability → EvaluationActor → Option UserRole → Result (Unit {0})
unfolding has_role
assert_role action actor required =
    assert_evaluation_access (has_role action actor required) no_permission

unfoldable pub can_finalize : EvaluationActor → Bool
unfolding has_role
can_finalize actor = has_role finalize actor none

-- `assigned === true`
abbrev is_true : Option Bool → Bool
is_true none = false
is_true (some b) = b

-- `available !== false`
abbrev not_false : Option Bool → Bool
not_false none = true
not_false (some b) = b

unfoldable pub can_approve_faculty : EvaluationActor → EvaluationAccessFacts → Bool
unfolding has_role
can_approve_faculty actor facts =
    has_role approve_faculty actor none
    && is_some facts.assigned_faculty_id
    && opt_eq facts.assigned_faculty_id facts.faculty_id
    && not_false facts.faculty_available

abbrev read_scope : UserRole → EvaluationActor → EvaluationAccessFacts → Bool → Bool
read_scope student actor facts by_faculty = opt_eq (some actor.id) facts.student_id
read_scope faculty actor facts by_faculty = by_faculty
read_scope _ actor facts by_faculty = is_true facts.assigned_to_class

unfoldable pub can_read : EvaluationActor → EvaluationAccessFacts → Bool
unfolding has_role can_finalize can_approve_faculty
can_read actor facts =
    if not (has_role read actor none)
    then false
    else (if can_finalize actor
        then true
        else read_scope actor.role actor facts (can_approve_faculty actor facts))

unfoldable pub can_edit : EvaluationActor → EvaluationAccessFacts → Bool
unfolding has_role
can_edit actor facts = has_role edit actor none && opt_eq (some actor.id) facts.student_id

unfoldable pub can_review : EvaluationActor → EvaluationAccessFacts → Bool
unfolding has_role
can_review actor facts = has_role review actor none && is_true facts.assigned_to_class

unfoldable pub can_submit_class : EvaluationActor → EvaluationAccessFacts → Option UserRole → Bool
unfolding has_role
can_submit_class actor facts required =
    has_role submit_class actor required && is_true facts.assigned_to_class

-- The `where` of a read: a student sees only forms of their own.
pub record ReadScope : Type 0 where
  pub id : ℕ
  pub student_id : Option ℕ

unfoldable pub evaluation_read_scope : ℕ → UserRole → ℕ → ReadScope
evaluation_read_scope user_id student id = record { id = id; student_id = some user_id }
evaluation_read_scope user_id _ id = record { id = id; student_id = none }

-- The role is checked before the faculty is read, as in the source; the actor has no id there.
unfoldable pub faculty_evaluation_scope : Option ℕ → Option ℕ → Result ℕ
unfolding can_read
faculty_evaluation_scope none requested = err (forbidden faculty_unassigned)
faculty_evaluation_scope (some assigned) requested = do
  assert_evaluation_access
      (can_read (record { id = 0; role = faculty })
        (record no_facts {
          faculty_id = some (or_else requested assigned);
          assigned_faculty_id = some assigned;
        }))
      other_faculty
  ok assigned

unfoldable pub assert_class_list_access : UserRole → Option ℕ → Result ℕ
unfolding assert_role
assert_class_list_access role class_id = do
  assert_role submit_class (record { id = 0; role = role }) none
  elim class_id [ none ↦ err (bad_request class_required) | some c ↦ ok c ]
