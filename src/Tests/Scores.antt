-- ===== src/Tests/Scores.antt =====
-- Scores of concrete requests.
use apag_be.Prelude.{◌+◌, ◌-◌, ◌*◌, ◌≤◌, ◌≡◌, ◌≢◌, ◌⊎◌, ◌↔◌, refl, true, none, some, [], ◌∷◌, arith}
use apag_be.Http.{ok, err, bad_request, officer_fields_missing}
use apag_be.Score.{
  EvalRank, ScoreInput, calculate_classification, calculate_score_result, UpdateStudyScoreDto,
  calculate_study_score, UpdateDisciplineScoreDto, calculate_discipline_score,
  UpdateActivityScoreDto, calculate_activity_score, UpdateCommunityScoreDto,
  calculate_community_score, UpdateRoleScoreDto, normal_student, class_officer,
  calculate_role_score, PositionGroup, leader_group, get_officer_task_score, points_or_zero,
}
use apag_be.Score.Points.{
  gte_9, scientific_award, AcademicRank, PoliticalActivityLevel, CultureSportLevel,
  ClubActivityLevel, SocialPreventionLevel, LawComplianceLevel, VolunteerActivityLevel,
  CommunityRelationshipLevel, TaskCompletionLevel, head_position, management_skill_points,
}
use apag_be.Score.Bounds.{
  InBand, InSchema, calculate_classification_iff, calculate_score_result_exact,
  calculate_study_score-le, calculate_discipline_score_deducts, calculate_activity_score_exact,
  calculate_community_score_exact,
}
use apag_be.Score.Roles.{calculate_role_score_exact, calculate_role_score_refused}

calculate_classification_iff_example :
    (calculate_classification 79 ≡ EvalRank.fair) ↔ InBand EvalRank.fair 79
calculate_classification_iff_example = calculate_classification_iff 79 EvalRank.fair

abbrev sections : ScoreInput
sections = record {
  study_score = 18;
  discipline_score = 25;
  activity_score = 15;
  community_score = 20;
  role_score = 8;
}

sections-InSchema : InSchema sections
sections-InSchema = record {
  study = omega arith;
  discipline = omega arith;
  activity = omega arith;
  community = omega arith;
  role = omega arith;
}

calculate_score_result_exact_example :
    ((calculate_score_result sections).total_score ≡ 18 + 25 + 15 + 20 + 8)
    × InBand (calculate_score_result sections).rank (18 + 25 + 15 + 20 + 8)
calculate_score_result_exact_example = calculate_score_result_exact sections sections-InSchema

abbrev study_request : UpdateStudyScoreDto
study_request = record {
  expected_version = none;
  regular_score_level = gte_9;
  academic_rank = AcademicRank.good;
  activities = record { code = scientific_award; checked = true } ∷ [];
}

calculate_study_score-le_example : (calculate_study_score study_request).0 ≤ 20
calculate_study_score-le_example = calculate_study_score-le study_request (omega arith)

abbrev discipline_request : UpdateDisciplineScoreDto
discipline_request = record {
  expected_version = none;
  base_score = 25;
  violations = some (record { code = "late"; count = 3; deduct_score = 2 } ∷ []);
}

calculate_discipline_score_deducts_example :
    ((calculate_discipline_score (record discipline_request { violations = none })).0 ≡ 25)
    × ((calculate_discipline_score (record discipline_request { violations = some [] })).0 ≡ 25)
    × ((calculate_discipline_score discipline_request).0
        ≡ (calculate_discipline_score (record discipline_request { violations = some [] })).0
          - 3 * 2)
calculate_discipline_score_deducts_example =
    calculate_discipline_score_deducts discipline_request
      (record { code = "late"; count = 3; deduct_score = 2 }) []

abbrev activity_request : UpdateActivityScoreDto
activity_request = record {
  expected_version = none;
  political_activity_level = PoliticalActivityLevel.absent_once;
  culture_sport_level = CultureSportLevel.encouraged_others;
  club_activity_level = ClubActivityLevel.active_supporter;
  social_prevention_level = SocialPreventionLevel.awareness_or_support;
  reward_score = 2;
}

activity_score_10 :
    (calculate_activity_score activity_request ≡ 3 + 2 + 2 + 1 + 2)
    × (calculate_activity_score activity_request ≤ 20)
activity_score_10 = calculate_activity_score_exact activity_request (omega arith)

abbrev community_request : UpdateCommunityScoreDto
community_request = record {
  expected_version = none;
  law_compliance_level = LawComplianceLevel.good;
  volunteer_activity_level = VolunteerActivityLevel.participated;
  community_relationship_level = CommunityRelationshipLevel.good;
}

community_score_18 :
    (calculate_community_score community_request ≡ 8 + 5 + 5)
    × (calculate_community_score community_request ≤ 25)
community_score_18 = calculate_community_score_exact community_request

abbrev normal_request : UpdateRoleScoreDto
normal_request = record {
  expected_version = none;
  student_role_type = normal_student;
  position_group = none;
  task_completion_level = none;
  management_skill_level = none;
  normal_student_activity_score = some 4;
  special_achievement_level = none;
}

normal_score : calculate_role_score normal_request ≡ ok 4
unfolding calculate_role_score
normal_score = refl

abbrev officer_request : UpdateRoleScoreDto
officer_request = record normal_request { student_role_type = class_officer }

calculate_role_score_refused_example :
    (calculate_role_score officer_request ≡ err (bad_request officer_fields_missing)) ↔ (
      (class_officer ≢ normal_student)
      × ((officer_request.position_group ≡ none) ⊎ (officer_request.task_completion_level ≡ none)))
calculate_role_score_refused_example = calculate_role_score_refused officer_request

abbrev leader_request : UpdateRoleScoreDto
leader_request = record officer_request {
  position_group = some leader_group;
  task_completion_level = some TaskCompletionLevel.excellent;
  management_skill_level = some head_position;
}

leader_score : calculate_role_score leader_request ≡ ok 10
unfolding calculate_role_score
leader_score = refl

not_normal : class_officer ≢ normal_student
not_normal = ground arith

calculate_role_score_exact_example :
    ((group : PositionGroup) × (level : TaskCompletionLevel) × (leader_request.position_group
        ≡ some group)
      × (leader_request.task_completion_level ≡ some level)
      × (10
          ≡ get_officer_task_score group level
            + points_or_zero management_skill_points leader_request.management_skill_level))
    × (10 ≤ 10)
calculate_role_score_exact_example =
    calculate_role_score_exact leader_request 10 not_normal leader_score
