-- ===== src/Services/Forward/Plan.antt =====
-- application/evaluation-submit.service.ts: what the three batches have in common, namely the semester,
-- the recipients, the plan that is read before the transaction, and the notifications.
use apag_be.Prelude.{
  length, ℕ, ◌+◌, Bool, true, false, not, ◌&&◌, ◌||◌, Option, none, some, List, [], ◌∷◌, map,
  String, ◌==◌, any, is_some, where_rows, ltb, if◌then◌else◌,
}
use apag_be.Http.{Message, conflict, require, Result, ok, semester_not_found, ◌>>=◌, ◌>>◌}
use apag_be.Policy.Access.{training_department, role_eq}
use apag_be.Policy.Transition.{FormStatus, status_eq, Transition, target, assert_transition}
use apag_be.Policy.Deadline.{EvaluationDeadlines}
use apag_be.Database.Rows.{
  EvaluationForm, Notification, Content, Event, evaluation_forwarded, User, Semester, ClassRow, Db,
  Env, find_by,
}
use apag_be.Database.Write.{
  assert_expected_evaluation_versions, EvaluationSnapshot, snapshot_of, write_evaluation,
  sort_by_id, create_notification_once, or_not_found,
}
use apag_be.Services.Submit.{Committed, semester_index}

-- `semesterId`, `evaluationIds` and `expectedVersions` of the two DTOs for a class.
pub record SubmitClassDto : Type 0 where
  pub semester_id : Option ℕ
  pub evaluation_ids : Option (List ℕ)
  pub expected_versions : Option (List EvaluationSnapshot)

pub record SubmitFacultyDto : Type 0 where
  pub semester_id : Option ℕ
  pub class_id : Option ℕ

-- `orderBy: [{ year: 'desc' }, { semester: 'desc' }]`
abbrev pub is_later : Semester → Semester → Bool
is_later a b =
    ltb b.year a.year
    || a.year == b.year && ltb (semester_index b.semester) (semester_index a.semester)

abbrev pub later_of : Semester → Option Semester → Option Semester
later_of s none = some s
later_of s (some t) = if is_later t s then some t else some s

unfoldable pub latest_semester : List Semester → Option Semester
latest_semester [] = none
latest_semester (s ∷ ss) =
    let rest = latest_semester ss in if s.is_active then later_of s rest else rest

unfoldable pub find_submission_semester : Option ℕ → Db → Result Semester
unfolding latest_semester
find_submission_semester none db = or_not_found semester_not_found (latest_semester db.semesters)
find_submission_semester (some id) db =
    or_not_found semester_not_found (find_by (λ s. s.id == id) db.semesters)

-- `assignment.user.isActive && !assignment.user.deletedAt`
abbrev pub is_usable : Option User → Bool
is_usable none = false
is_usable (some u) = u.is_active && not (is_some u.deleted_at)

-- A class that is not deleted.
abbrev pub find_class : ℕ → Db → Option ClassRow
find_class class_id db =
    find_by (λ (c : ClassRow). c.id == class_id && not (is_some c.deleted_at)) db.classes

abbrev pub find_user : ℕ → Db → Option User
find_user id db = find_by (λ u. u.id == id) db.users

abbrev pub active_advisors : ℕ → Db → List ℕ
active_advisors class_id db =
    map (λ a. a.user_id)
      (where_rows (λ a. a.class_id == class_id && is_usable (find_user a.user_id db))
        db.advisor_assignments)

abbrev pub active_faculty_users : ℕ → Db → List ℕ
active_faculty_users faculty_id db =
    map (λ a. a.user_id)
      (where_rows (λ a. a.faculty_id == faculty_id && is_usable (find_user a.user_id db))
        db.faculty_assignments)

abbrev pub training_department_users : Db → List ℕ
training_department_users db =
    map (λ u. u.id)
      (where_rows
        (λ u. role_eq u.role training_department && (u.is_active && not (is_some u.deleted_at)))
        db.users)

-- `...(dto.evaluationIds && { id: { in: dto.evaluationIds } })`
abbrev pub is_selected : Option (List ℕ) → ℕ → Bool
is_selected none id = true
is_selected (some ids) id = any (λ i. i == id) ids

-- `targetWhere`
abbrev pub in_class : ℕ → ℕ → Option (List ℕ) → EvaluationForm → Bool
in_class class_id semester_id ids f =
    f.class_id == class_id && f.semester_id == semester_id && is_selected ids f.id

-- `...(dto.classId && { classId: dto.classId })`
abbrev pub of_class : Option ℕ → EvaluationForm → Bool
of_class none f = true
of_class (some class_id) f = f.class_id == class_id

abbrev pub in_faculty : Option ℕ → ℕ → Bool
in_faculty none faculty_id = false
in_faculty (some f) faculty_id = f == faculty_id

abbrev pub has_status : List FormStatus → EvaluationForm → Bool
has_status statuses f = any (status_eq f.status) statuses

-- What was read before the transaction, and the counts of the response.
pub record Plan : Type 0 where
  pub eligible : List EvaluationForm
  pub recipients : List ℕ
  pub deadlines : EvaluationDeadlines
  pub code : String
  pub faculty_code : String
  pub total_forms : ℕ
  pub missing_class_score_count : ℕ
  pub missing_confirmation_count : ℕ
  pub already_forwarded_count : ℕ
  pub not_ready_count : ℕ

pub record ForwardResponse : Type 0 where
  pub submitted_count : ℕ
  pub total_forms : ℕ
  pub not_ready_count : ℕ
  pub missing_class_score_count : ℕ
  pub missing_confirmation_count : ℕ
  pub already_forwarded_count : ℕ
  pub recipients : List ℕ

-- `for (const form of eligibleForms) assertTransition(form.status, target)`
unfoldable pub assert_all : FormStatus → List EvaluationForm → Result (Unit {0})
assert_all goal [] = ok tt
assert_all goal (f ∷ fs) = let rest = assert_all goal fs in assert_transition f.status goal >> rest

abbrev pub snapshots : List EvaluationForm → List EvaluationSnapshot
snapshots = map snapshot_of

abbrev pub or_all : Option (List ℕ) → List EvaluationForm → List ℕ
or_all none eligible = map (λ f. f.id) eligible
or_all (some ids) eligible = ids

-- The last checks of a batch for a class: the versions, then that there is something to hand on.
abbrev pub guard_batch :
    SubmitClassDto → List EvaluationForm → Message → FormStatus → Result (Unit {0})
guard_batch dto eligible refusal goal = do
  assert_expected_evaluation_versions (snapshots eligible) (or_all dto.evaluation_ids eligible)
      dto.expected_versions
  require (not (length eligible == 0)) (conflict refusal)
  assert_all goal eligible

-- One notification for each recipient, in the transaction; those that are new are emitted later.
unfoldable pub notify_all :
    Env → Content → Event → List ℕ → List Notification → List Notification × List Notification
notify_all env content event [] table = ([], table)
notify_all env content event (user ∷ users) table =
    let (created, next) = create_notification_once env user content event table in
    let (others, final) = notify_all env content event users next in
    (elim created [ none ↦ others | some n ↦ n ∷ others ], final)

-- `[...eligibleForms].sort(…).map((form) => [form.id, form.version + 1])`
abbrev pub forwarded_versions : List EvaluationForm → List (ℕ × ℕ)
forwarded_versions forms = map (λ f. (f.id, f.version + 1)) (sort_by_id forms)

abbrev pub respond : Env → Plan → ℕ → Content → FormStatus → Db → Committed ForwardResponse
respond env plan count content goal written =
    let event = evaluation_forwarded goal (forwarded_versions plan.eligible) in
    let recipients : List ℕ = if ltb 0 count then plan.recipients else [] in
    let (emitted, table) = notify_all env content event recipients written.notifications in
    record {
      response = record {
        submitted_count = count;
        total_forms = plan.total_forms;
        not_ready_count = plan.not_ready_count;
        missing_class_score_count = plan.missing_class_score_count;
        missing_confirmation_count = plan.missing_confirmation_count;
        already_forwarded_count = plan.already_forwarded_count;
        recipients = plan.recipients;
      };
      emitted = emitted;
      db = record written { notifications = table };
    }

abbrev pub set_status : FormStatus → EvaluationForm → EvaluationForm
set_status s f = record f { status = s }

-- `await writeEvaluation(tx, form, { status: transition.target })`
unfoldable pub forward_form : Transition → EvaluationForm → Db → Result Db
forward_form t form db = do
  (_, next) ← write_evaluation (snapshot_of form) (set_status (target t)) db
  ok next

abbrev pub unscored : FormStatus → EvaluationForm → Bool
unscored s f = status_eq f.status s && not (is_some f.class_score) && not f.is_locked
