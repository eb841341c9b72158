-- ===== src/Score/Points.antt =====
-- constants/score-points.constant.ts: the points of each level that a form can state. The levels are
-- those of the update-*-score DTOs, in their order.
use apag_be.Prelude.{ℕ}

pub data RegularScoreLevel : Type 0 where
  gte_9 from_7_to_under_9 from_5_to_under_7 from_4_to_under_5 from_1_to_under_4 : RegularScoreLevel

abbrev pub regular_score_points : RegularScoreLevel → ℕ
regular_score_points gte_9 = 6
regular_score_points from_7_to_under_9 = 5
regular_score_points from_5_to_under_7 = 4
regular_score_points from_4_to_under_5 = 2
regular_score_points from_1_to_under_4 = 1

pub data StudyActivityCode : Type 0 where
  academic_event_participation scientific_publication_or_contest scientific_award :
      StudyActivityCode

abbrev pub study_activity_points : StudyActivityCode → ℕ
study_activity_points academic_event_participation = 2
study_activity_points scientific_publication_or_contest = 2
study_activity_points scientific_award = 2

pub data AcademicRank : Type 0 where
  excellent good fair average weak_no_warning weak_warning_first : AcademicRank

abbrev pub academic_rank_points : AcademicRank → ℕ
academic_rank_points excellent = 8
academic_rank_points good = 7
academic_rank_points fair = 6
academic_rank_points average = 4
academic_rank_points weak_no_warning = 2
academic_rank_points weak_warning_first = 1

pub data PoliticalActivityLevel : Type 0 where
  good_participation absent_once absent_twice : PoliticalActivityLevel
  absent_more_than_twice_or_not_participated : PoliticalActivityLevel

abbrev pub political_activity_points : PoliticalActivityLevel → ℕ
political_activity_points good_participation = 5
political_activity_points absent_once = 3
political_activity_points absent_twice = 2
political_activity_points absent_more_than_twice_or_not_participated = 0

pub data CultureSportLevel : Type 0 where
  full_effective_participation effective_participation_from_half : CultureSportLevel
  encouraged_others absent_over_half not_participated : CultureSportLevel

abbrev pub culture_sport_points : CultureSportLevel → ℕ
culture_sport_points full_effective_participation = 5
culture_sport_points effective_participation_from_half = 3
culture_sport_points encouraged_others = 2
culture_sport_points absent_over_half = 1
culture_sport_points not_participated = 0

pub data ClubActivityLevel : Type 0 where
  full_effective_participation active_one_or_more active_supporter : ClubActivityLevel
  absent_over_half not_participated : ClubActivityLevel

abbrev pub club_activity_points : ClubActivityLevel → ℕ
club_activity_points full_effective_participation = 5
club_activity_points active_one_or_more = 3
club_activity_points active_supporter = 2
club_activity_points absent_over_half = 1
club_activity_points not_participated = 0

pub data SocialPreventionLevel : Type 0 where
  multiple_activities_or_reporting one_effective_activity : SocialPreventionLevel
  awareness_or_support reminded_violation : SocialPreventionLevel

abbrev pub social_prevention_points : SocialPreventionLevel → ℕ
social_prevention_points multiple_activities_or_reporting = 3
social_prevention_points one_effective_activity = 2
social_prevention_points awareness_or_support = 1
social_prevention_points reminded_violation = 0

pub data LawComplianceLevel : Type 0 where
  good_with_reward good average violated : LawComplianceLevel

abbrev pub law_compliance_points : LawComplianceLevel → ℕ
law_compliance_points good_with_reward = 10
law_compliance_points good = 8
law_compliance_points average = 5
law_compliance_points violated = 0

pub data VolunteerActivityLevel : Type 0 where
  active_with_reward active participated not_participated : VolunteerActivityLevel

abbrev pub volunteer_activity_points : VolunteerActivityLevel → ℕ
volunteer_activity_points active_with_reward = 10
volunteer_activity_points active = 8
volunteer_activity_points participated = 5
volunteer_activity_points not_participated = 0

pub data CommunityRelationshipLevel : Type 0 where
  good one_warning two_warnings : CommunityRelationshipLevel

abbrev pub community_relationship_points : CommunityRelationshipLevel → ℕ
community_relationship_points good = 5
community_relationship_points one_warning = 1
community_relationship_points two_warnings = 0

pub data TaskCompletionLevel : Type 0 where
  excellent good completed poor : TaskCompletionLevel

abbrev pub leader_task_completion_points : TaskCompletionLevel → ℕ
leader_task_completion_points excellent = 7
leader_task_completion_points good = 6
leader_task_completion_points completed = 4
leader_task_completion_points poor = 0

abbrev pub member_task_completion_points : TaskCompletionLevel → ℕ
member_task_completion_points excellent = 6
member_task_completion_points good = 5
member_task_completion_points completed = 3
member_task_completion_points poor = 0

pub data ManagementSkillLevel : Type 0 where
  head_position deputy_position member_position : ManagementSkillLevel

abbrev pub management_skill_points : ManagementSkillLevel → ℕ
management_skill_points head_position = 3
management_skill_points deputy_position = 2
management_skill_points member_position = 1

pub data SpecialAchievementLevel : Type 0 where
  school_level_or_higher faculty_level nothing_special : SpecialAchievementLevel

abbrev pub special_achievement_points : SpecialAchievementLevel → ℕ
special_achievement_points school_level_or_higher = 7
special_achievement_points faculty_level = 5
special_achievement_points nothing_special = 0
