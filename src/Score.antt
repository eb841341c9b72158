-- ===== src/Score.antt =====
-- domain/score-calculator.ts: the scores of the five sections, their total and its rank. All
-- numbers are whole and at least 0, as the DTOs demand, so `Math.max(0, a - b)` is `a - b` on ℕ.
pub mod Points
pub mod Bounds
pub mod Roles
use apag_be.Prelude.{
  ℕ, ◌+◌, ◌-◌, ◌*◌, min, Bool, Option, none, some, List, [], map, String, sum_by, leb, or_else,
  if◌then◌else◌,
}
use apag_be.Http.{Result, ok, err, bad_request, officer_fields_missing}
use Points.{
  RegularScoreLevel, regular_score_points, StudyActivityCode, study_activity_points, AcademicRank,
  academic_rank_points, PoliticalActivityLevel, political_activity_points, CultureSportLevel,
  culture_sport_points, ClubActivityLevel, club_activity_points, SocialPreventionLevel,
  social_prevention_points, LawComplianceLevel, law_compliance_points, VolunteerActivityLevel,
  volunteer_activity_points, CommunityRelationshipLevel, community_relationship_points,
  TaskCompletionLevel, leader_task_completion_points, member_task_completion_points,
  ManagementSkillLevel, management_skill_points, SpecialAchievementLevel,
  special_achievement_points,
}

pub record ScoreInput : Type 0 where
  pub study_score : ℕ
  pub discipline_score : ℕ
  pub activity_score : ℕ
  pub community_score : ℕ
  pub role_score : ℕ

pub data EvalRank : Type 0 where
  excellent good fair average weak poor : EvalRank

pub record ScoreResult : Type 0 where
  pub total_score : ℕ
  pub rank : EvalRank

unfoldable pub calculate_classification : ℕ → EvalRank
calculate_classification total_score =
    if leb 90 total_score
    then EvalRank.excellent
    else (if leb 80 total_score
        then EvalRank.good
        else (if leb 65 total_score
            then EvalRank.fair
            else (if leb 50 total_score
                then EvalRank.average
                else (if leb 35 total_score then EvalRank.weak else EvalRank.poor))))

unfoldable pub calculate_score_result : ScoreInput → ScoreResult
calculate_score_result scores =
    let total_score = min 100 (
      scores.study_score + scores.discipline_score + scores.activity_score + scores.community_score
      + scores.role_score) in
    record { total_score = total_score; rank = calculate_classification total_score }

pub data StudentRoleType : Type 0 where
  class_officer union_officer club_officer normal_student : StudentRoleType

pub data PositionGroup : Type 0 where
  leader_group member_group : PositionGroup

pub record UpdateRoleScoreDto : Type 0 where
  pub expected_version : Option ℕ
  pub student_role_type : StudentRoleType
  pub position_group : Option PositionGroup
  pub task_completion_level : Option TaskCompletionLevel
  pub management_skill_level : Option ManagementSkillLevel
  pub normal_student_activity_score : Option ℕ
  pub special_achievement_level : Option SpecialAchievementLevel

-- `level ? POINTS[level] : 0`
abbrev pub points_or_zero {ℓ} : {A : Type ℓ} → (A → ℕ) → Option A → ℕ
points_or_zero points none = 0
points_or_zero points (some level) = points level

abbrev pub get_officer_task_score : PositionGroup → TaskCompletionLevel → ℕ
get_officer_task_score leader_group level = leader_task_completion_points level
get_officer_task_score member_group level = member_task_completion_points level

-- The branch of officers of a class or an organisation.
abbrev officer_score :
    Option PositionGroup → Option TaskCompletionLevel → Option ManagementSkillLevel → Result ℕ
officer_score none level skill = err (bad_request officer_fields_missing)
officer_score (some group) none skill = err (bad_request officer_fields_missing)
officer_score (some group) (some level) skill =
    ok (min 10 (get_officer_task_score group level + points_or_zero management_skill_points skill))

abbrev role_score_by : StudentRoleType → UpdateRoleScoreDto → Result ℕ
role_score_by normal_student dto = ok (
    min 10 (
      or_else dto.normal_student_activity_score 0
      + points_or_zero special_achievement_points dto.special_achievement_level))
role_score_by _ dto =
    officer_score dto.position_group dto.task_completion_level dto.management_skill_level

unfoldable pub calculate_role_score : UpdateRoleScoreDto → Result ℕ
calculate_role_score dto = role_score_by dto.student_role_type dto

pub record StudyActivityDto : Type 0 where
  pub code : StudyActivityCode
  pub checked : Bool

pub record UpdateStudyScoreDto : Type 0 where
  pub expected_version : Option ℕ
  pub regular_score_level : RegularScoreLevel
  pub academic_rank : AcademicRank
  pub activities : List StudyActivityDto

pub record ScoredActivity : Type 0 where
  pub code : StudyActivityCode
  pub checked : Bool
  pub score : ℕ

abbrev scored : StudyActivityDto → ScoredActivity
scored a = record { code = a.code; checked = a.checked; score = study_activity_points a.code }

abbrev counted : ScoredActivity → ℕ
counted a = if a.checked then a.score else 0

unfoldable pub calculate_study_score : UpdateStudyScoreDto → ℕ × List ScoredActivity
calculate_study_score dto =
    let activities = map scored dto.activities in
    (
      regular_score_points dto.regular_score_level
          + sum_by counted activities
          + academic_rank_points dto.academic_rank,
      activities,
    )

pub record DisciplineViolationDto : Type 0 where
  pub code : String
  pub count : ℕ
  pub deduct_score : ℕ

pub record UpdateDisciplineScoreDto : Type 0 where
  pub expected_version : Option ℕ
  pub base_score : ℕ
  pub violations : Option (List DisciplineViolationDto)

abbrev pub deduction : DisciplineViolationDto → ℕ
deduction v = v.count * v.deduct_score

unfoldable pub calculate_discipline_score :
    UpdateDisciplineScoreDto → ℕ × List DisciplineViolationDto
calculate_discipline_score dto =
    let violations = or_else dto.violations [] in
    (dto.base_score - sum_by deduction violations, violations)

pub record UpdateActivityScoreDto : Type 0 where
  pub expected_version : Option ℕ
  pub political_activity_level : PoliticalActivityLevel
  pub culture_sport_level : CultureSportLevel
  pub club_activity_level : ClubActivityLevel
  pub social_prevention_level : SocialPreventionLevel
  pub reward_score : ℕ

unfoldable pub calculate_activity_score : UpdateActivityScoreDto → ℕ
calculate_activity_score dto = min 20 (
    political_activity_points dto.political_activity_level
    + culture_sport_points dto.culture_sport_level
    + club_activity_points dto.club_activity_level
    + social_prevention_points dto.social_prevention_level
    + dto.reward_score)

pub record UpdateCommunityScoreDto : Type 0 where
  pub expected_version : Option ℕ
  pub law_compliance_level : LawComplianceLevel
  pub volunteer_activity_level : VolunteerActivityLevel
  pub community_relationship_level : CommunityRelationshipLevel

unfoldable pub calculate_community_score : UpdateCommunityScoreDto → ℕ
calculate_community_score dto = min 25 (
    law_compliance_points dto.law_compliance_level
    + volunteer_activity_points dto.volunteer_activity_level
    + community_relationship_points dto.community_relationship_level)
