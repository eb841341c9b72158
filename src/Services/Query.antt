-- ===== src/Services/Query.antt =====
-- application/evaluation-query.service.ts: who is assigned to what, and who may read a form.
pub mod Reading
use apag_be.Prelude.{ℕ, Bool, true, false, not, ◌&&◌, Option, none, some, List, ◌==◌, any, is_some}
use apag_be.Http.{
  Result, ok, err, forbidden, form_not_found, no_permission, class_not_assigned,
  faculty_not_assigned, faculty_unavailable, other_faculty_form, ◌>>=◌, ◌>>◌,
}
use apag_be.Policy.Access.{
  UserRole, class_leader, advisor, faculty, EvaluationActor, EvaluationAccessFacts, no_facts,
  EvaluationCapability, assert_evaluation_access, assert_role, can_read, can_edit, can_review,
  can_submit_class, can_approve_faculty, can_finalize, ReadScope, evaluation_read_scope,
  faculty_evaluation_scope, assert_class_list_access,
}
use apag_be.Database.Rows.{
  EvaluationForm, ClassAssignment, Faculty, Db, find_by, find_form, form_facts,
}
use apag_be.Database.Write.{or_not_found}

-- The capabilities that `assertClassAccess` takes.
pub data ClassAction : Type 0 where
  read review submit_class : ClassAction

abbrev capability : ClassAction → EvaluationCapability
capability ClassAction.read = EvaluationCapability.read
capability ClassAction.review = EvaluationCapability.review
capability ClassAction.submit_class = EvaluationCapability.submit_class

abbrev listed : ℕ → ℕ → List ClassAssignment → Bool
listed user_id class_id = any (λ a. a.user_id == user_id && a.class_id == class_id)

-- Only advisors and class leaders are assigned to classes.
abbrev pub is_assigned : UserRole → ℕ → ℕ → Db → Bool
is_assigned advisor user_id class_id db = listed user_id class_id db.advisor_assignments
is_assigned class_leader user_id class_id db = listed user_id class_id db.class_leader_assignments
is_assigned _ user_id class_id db = false

abbrev class_allowed :
    ClassAction → EvaluationActor → EvaluationAccessFacts → Option UserRole → Bool
class_allowed ClassAction.read actor facts required = can_read actor facts
class_allowed ClassAction.review actor facts required = can_review actor facts
class_allowed ClassAction.submit_class actor facts required = can_submit_class actor facts required

unfoldable pub assert_class_access :
    EvaluationActor → ℕ → ClassAction → Option UserRole → Db → Result (Unit {0})
assert_class_access actor class_id action required db = do
  assert_role (capability action) actor required
  assert_evaluation_access
      (class_allowed action actor
        (record no_facts { assigned_to_class = some (is_assigned actor.role actor.id class_id db) })
        required)
      class_not_assigned

-- `action` of `assertFormAccess`
pub data FormAction : Type 0 where
  edit review : FormAction

abbrev form_capability : FormAction → EvaluationCapability
form_capability FormAction.edit = EvaluationCapability.edit
form_capability FormAction.review = EvaluationCapability.review

abbrev form_access : FormAction → EvaluationActor → EvaluationForm → Db → Result (Unit {0})
form_access FormAction.edit actor form db =
    assert_evaluation_access (can_edit actor (form_facts form)) no_permission
form_access FormAction.review actor form db =
    assert_class_access actor form.class_id ClassAction.review none db

unfoldable pub assert_form_access : EvaluationActor → ℕ → FormAction → Db → Result (Unit {0})
assert_form_access actor id action db = do
  assert_role (form_capability action) actor none
  form ← or_not_found form_not_found (find_form id db)
  form_access action actor form db

-- The faculty that a user is assigned to; the foreign key makes its row exist.
unfoldable pub assigned_faculty : ℕ → Db → Option Faculty
assigned_faculty user_id db = elim (find_by (λ a. a.user_id == user_id) db.faculty_assignments) [
  | none ↦ none
  | some a ↦ find_by (λ f. f.id == a.faculty_id) db.faculties
]

abbrev pub is_available : Faculty → Bool
is_available f = f.is_active && not (is_some f.deleted_at)

abbrev pub faculty_facts : ℕ → Faculty → EvaluationAccessFacts
faculty_facts faculty_id f = record no_facts {
  faculty_id = some faculty_id;
  assigned_faculty_id = some f.id;
  faculty_available = some (is_available f);
}

-- `assertEvaluationAccess(assignment && …)`
abbrev checked_faculty : EvaluationActor → ℕ → Option Faculty → Result Faculty
checked_faculty actor faculty_id none = err (forbidden faculty_not_assigned)
checked_faculty actor faculty_id (some f) = do
  assert_evaluation_access (can_approve_faculty actor (faculty_facts faculty_id f))
      faculty_not_assigned
  ok f

unfoldable pub require_faculty_assignment : EvaluationActor → ℕ → Db → Result Faculty
require_faculty_assignment actor faculty_id db = do
  assert_role EvaluationCapability.approve_faculty actor none
  checked_faculty actor faculty_id (assigned_faculty actor.id db)

-- `class: { major: { facultyId } }`
unfoldable pub faculty_of_class : ℕ → Db → Option ℕ
faculty_of_class class_id db = elim (find_by (λ c. c.id == class_id) db.classes) [
  | none ↦ none
  | some c ↦ elim (find_by (λ m. m.id == c.major_id) db.majors) [
    | none ↦ none
    | some m ↦ some m.faculty_id
  ]
]

abbrev student_is : Option ℕ → EvaluationForm → Bool
student_is none f = true
student_is (some s) f = f.student_id == s

abbrev in_scope : ReadScope → EvaluationForm → Bool
in_scope scope f = f.id == scope.id && student_is scope.student_id f

abbrev assigned_id : Option Faculty → Option ℕ
assigned_id none = none
assigned_id (some f) = some f.id

abbrev assigned_available : Option Faculty → Bool
assigned_available none = false
assigned_available (some f) = is_available f

-- The checks after the form was read, one for each group of roles.
abbrev read_access : UserRole → EvaluationActor → EvaluationForm → Db → Result (Unit {0})
read_access faculty actor form db =
    let assigned = assigned_faculty actor.id db in
    assert_evaluation_access
      (can_read actor (record no_facts {
        faculty_id = faculty_of_class form.class_id db;
        assigned_faculty_id = assigned_id assigned;
        faculty_available = some (assigned_available assigned);
      }))
      other_faculty_form
read_access class_leader actor form db =
    assert_class_access actor form.class_id ClassAction.read none db
read_access advisor actor form db = assert_class_access actor form.class_id ClassAction.read none db
read_access _ actor form db =
    assert_evaluation_access (can_read actor (form_facts form)) no_permission

unfoldable pub find_accessible : EvaluationActor → ℕ → Db → Result EvaluationForm
find_accessible actor id db = do
  assert_role EvaluationCapability.read actor none
  form ←
      or_not_found form_not_found
        (find_by (in_scope (evaluation_read_scope actor.id actor.role id)) db.forms)
  read_access actor.role actor form db
  ok form

abbrev list_scope_of : EvaluationActor → Option ℕ → Option Faculty → Result (Option ℕ)
list_scope_of user requested none = err (forbidden faculty_unavailable)
list_scope_of user requested (some f) = do
  assert_evaluation_access (can_read user (faculty_facts f.id f)) faculty_unavailable
  scope ← faculty_evaluation_scope (some f.id) requested
  ok (some scope)

abbrev list_scope_by_role :
    UserRole → EvaluationActor → Option ℕ → Option ℕ → Db → Result (Option ℕ)
list_scope_by_role faculty user class_id requested db =
    list_scope_of user requested (assigned_faculty user.id db)
list_scope_by_role _ user class_id requested db = do
  c ← assert_class_list_access user.role class_id
  assert_class_access user c ClassAction.read none db
  ok none

-- The faculty that a list is restricted to, if any.
unfoldable pub assert_can_list_evaluations :
    EvaluationActor → Option ℕ → Option ℕ → Db → Result (Option ℕ)
assert_can_list_evaluations user class_id requested db =
    let rest = list_scope_by_role user.role user class_id requested db in
    elim (can_finalize user) [ true ↦ ok none | false ↦ rest ]
