-- ===== src/Database/Rows.antt =====
-- Rows and tables. Of each model of schema.prisma those columns are kept that the services read or
-- write. An id is the number that a UUID writes; a time is its milliseconds since 1970.
use apag_be.Prelude.{ℕ, Bool, true, false, Option, none, some, List, [], ◌∷◌, String, ◌==◌}
use apag_be.Policy.Access.{UserRole, EvaluationAccessFacts, no_facts}
use apag_be.Policy.Transition.{FormStatus, NotePrefix}
use apag_be.Policy.Deadline.{EvaluationDeadlines}
use apag_be.Score.{
  ScoreInput, EvalRank, StudentRoleType, PositionGroup, ScoredActivity, DisciplineViolationDto,
}
use apag_be.Score.Points.{
  RegularScoreLevel, AcademicRank, PoliticalActivityLevel, CultureSportLevel, ClubActivityLevel,
  SocialPreventionLevel, LawComplianceLevel, VolunteerActivityLevel, CommunityRelationshipLevel,
  TaskCompletionLevel, ManagementSkillLevel, SpecialAchievementLevel,
}

-- The JSON columns, `none` while they hold their default `{}`.
pub record StudyData : Type 0 where
  pub regular_score_level : RegularScoreLevel
  pub academic_rank : AcademicRank
  pub activities : List ScoredActivity

pub record DisciplineData : Type 0 where
  pub base_score : ℕ
  pub violations : List DisciplineViolationDto

pub record ActivityData : Type 0 where
  pub political_activity_level : PoliticalActivityLevel
  pub culture_sport_level : CultureSportLevel
  pub club_activity_level : ClubActivityLevel
  pub social_prevention_level : SocialPreventionLevel
  pub reward_score : ℕ

pub record CommunityData : Type 0 where
  pub law_compliance_level : LawComplianceLevel
  pub volunteer_activity_level : VolunteerActivityLevel
  pub community_relationship_level : CommunityRelationshipLevel

pub record RoleData : Type 0 where
  pub student_role_type : StudentRoleType
  pub position_group : Option PositionGroup
  pub task_completion_level : Option TaskCompletionLevel
  pub management_skill_level : Option ManagementSkillLevel
  pub normal_student_activity_score : Option ℕ
  pub special_achievement_level : Option SpecialAchievementLevel

-- `${notePrefix} ${comment}`, or a note that a student wrote.
pub data Note : Type 0 where
  written : String → Note
  returned : NotePrefix → Option String → Note

pub record EvaluationForm : Type 0 where
  pub id : ℕ
  pub version : ℕ
  pub student_id : ℕ
  pub class_id : ℕ
  pub semester_id : ℕ
  pub status : FormStatus
  pub student_score : Option ℕ
  pub class_score : Option ℕ
  pub final_score : Option ℕ
  pub rank : Option EvalRank
  pub note : Option Note
  pub scores : ScoreInput  -- the five columns study_score … role_score
  pub discipline_base_score : ℕ
  pub study_data : Option StudyData
  pub discipline_data : Option DisciplineData
  pub activity_data : Option ActivityData
  pub community_data : Option CommunityData
  pub role_data : Option RoleData
  pub class_leader_reviewed_by : Option ℕ
  pub class_leader_reviewed_at : Option ℕ
  pub class_reviewed_by : Option ℕ
  pub class_reviewed_at : Option ℕ
  pub admin_finalized_by : Option ℕ
  pub admin_finalized_at : Option ℕ
  pub submitted_at : Option ℕ
  pub is_locked : Bool

pub record FormCriteriaScore : Type 0 where
  pub form_id : ℕ
  pub criteria_id : ℕ
  pub class_score : Option ℕ
  pub note : Option String

pub record EvaluationCriteria : Type 0 where
  pub id : ℕ
  pub code : String
  pub max_score : ℕ
  pub is_active : Bool

pub record User : Type 0 where
  pub id : ℕ
  pub role : UserRole
  pub phone : Option String
  pub is_active : Bool
  pub deleted_at : Option ℕ

pub record Faculty : Type 0 where
  pub id : ℕ
  pub code : String
  pub is_active : Bool
  pub deleted_at : Option ℕ

pub record Major : Type 0 where
  pub id : ℕ
  pub faculty_id : ℕ

pub record ClassRow : Type 0 where
  pub id : ℕ
  pub code : String
  pub major_id : ℕ
  pub deleted_at : Option ℕ

-- `advisor_assignments` and `class_leader_assignments`
pub record ClassAssignment : Type 0 where
  pub user_id : ℕ
  pub class_id : ℕ

pub record FacultyAssignment : Type 0 where
  pub user_id : ℕ
  pub faculty_id : ℕ

pub record ClassStudent : Type 0 where
  pub student_id : ℕ
  pub class_id : ℕ

pub data SemesterNo : Type 0 where
  semester_1 semester_2 summer : SemesterNo

pub record Semester : Type 0 where
  pub id : ℕ
  pub year : ℕ
  pub semester : SemesterNo
  pub start_date : ℕ
  pub end_date : ℕ
  pub is_active : Bool
  pub deadlines : EvaluationDeadlines

-- The texts of the notifications, with what is put into them.
pub data Content : Type 0 where
  class_forwarded_to_advisor : String → ℕ → Content
  class_forwarded_to_faculty : String → ℕ → String → Content
  faculty_forwarded : String → ℕ → Content
  form_returned : Option String → Content

-- The business event whose digest, with the recipient, is a notification's `dedupe_key`.
pub data Event : Type 0 where
  evaluation_forwarded : FormStatus → List (ℕ × ℕ) → Event
  evaluation_rejected : ℕ → ℕ → Event

pub record Notification : Type 0 where
  pub dedupe_key : ℕ
  pub user_id : ℕ
  pub content : Content

pub record Evidence : Type 0 where
  pub id : ℕ
  pub student_id : ℕ
  pub evaluation_form_id : ℕ
  pub criterion_id : ℕ
  pub image_url : String
  pub public_id : String

pub record Db : Type 0 where
  pub forms : List EvaluationForm
  pub criteria_scores : List FormCriteriaScore
  pub notifications : List Notification
  pub criteria : List EvaluationCriteria
  pub users : List User
  pub faculties : List Faculty
  pub majors : List Major
  pub classes : List ClassRow
  pub advisor_assignments : List ClassAssignment
  pub class_leader_assignments : List ClassAssignment
  pub faculty_assignments : List FacultyAssignment
  pub class_students : List ClassStudent
  pub semesters : List Semester
  pub evidences : List Evidence

-- What a command takes from outside: the time, the id that the database gives to a new row, and
-- the digest of a recipient and an event.
pub record Env : Type 0 where
  pub now : ℕ
  pub new_id : ℕ
  pub digest : ℕ → Event → ℕ

-- `findFirst` and `findUnique`
unfoldable pub find_by {ℓ} : {A : Type ℓ} → (A → Bool) → List A → Option A
find_by p [] = none
find_by p (x ∷ xs) = let rest = find_by p xs in elim (p x) [ true ↦ some x | false ↦ rest ]

abbrev pub has_id : ℕ → EvaluationForm → Bool
has_id id f = f.id == id

abbrev pub find_form : ℕ → Db → Option EvaluationForm
find_form id db = find_by (has_id id) db.forms

abbrev no_deadlines : EvaluationDeadlines
no_deadlines = record { student_deadline = none; class_deadline = none; faculty_deadline = none }

abbrev deadlines_of : Option Semester → EvaluationDeadlines
deadlines_of none = no_deadlines
deadlines_of (some s) = s.deadlines

-- `semester: { select: evaluationDeadlineSelect }` of a form; the foreign key makes the row exist.
abbrev pub form_deadlines : Db → EvaluationForm → EvaluationDeadlines
form_deadlines db f = deadlines_of (find_by (λ s. s.id == f.semester_id) db.semesters)

-- What the policies read of a form.
abbrev pub form_facts : EvaluationForm → EvaluationAccessFacts
form_facts f = record no_facts { student_id = some f.student_id }
