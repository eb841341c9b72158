-- ===== src/Score/Bounds.antt =====
-- The computed scores fit the CHECK constraints of the schema, and the rank is that of the decree.
use apag_be.Prelude.{
  subst, ℕ, ◌+◌, ◌-◌, ◌*◌, ◌≤◌, ◌<◌, min, ◌≡◌, refl, ◌↔◌, none, some, List, [], ◌∷◌, map, arith,
  length, sum_by,
}
use apag_be.Score.Points.{
  PoliticalActivityLevel, political_activity_points, CultureSportLevel, culture_sport_points,
  ClubActivityLevel, club_activity_points, SocialPreventionLevel, social_prevention_points,
  regular_score_points, academic_rank_points, RegularScoreLevel, AcademicRank, LawComplianceLevel,
  law_compliance_points, VolunteerActivityLevel, volunteer_activity_points,
  CommunityRelationshipLevel, community_relationship_points,
}
use apag_be.Score.{
  UpdateCommunityScoreDto, calculate_community_score, ScoreInput, EvalRank,
  calculate_classification, calculate_score_result, UpdateStudyScoreDto, StudyActivityDto, scored,
  counted, calculate_study_score, UpdateDisciplineScoreDto, deduction, calculate_discipline_score,
  UpdateActivityScoreDto, calculate_activity_score, DisciplineViolationDto,
}

-- The bands of decree 4185/QĐ-HCQG.
abbrev pub InBand : EvalRank → ℕ → Type 0
InBand EvalRank.excellent t = 90 ≤ t
InBand EvalRank.good t = (80 ≤ t) × (t ≤ 89)
InBand EvalRank.fair t = (65 ≤ t) × (t ≤ 79)
InBand EvalRank.average t = (50 ≤ t) × (t ≤ 64)
InBand EvalRank.weak t = (35 ≤ t) × (t ≤ 49)
InBand EvalRank.poor t = t < 35

-- A total is ranked as the decree says: each rank is given to the totals of its band and no other.
pub calculate_classification_iff :
    (t : ℕ) (r : EvalRank) → (calculate_classification t ≡ r) ↔ InBand r t
unfolding calculate_classification
calculate_classification_iff t r = ground arith

band_of : (t : ℕ) → InBand (calculate_classification t) t
band_of t = (calculate_classification_iff t (calculate_classification t)).0 refl

counted_le :
    (activities : List StudyActivityDto)
    → sum_by counted (map scored activities) ≤ length activities + length activities
counted_le [] = omega arith
counted_le (a ∷ rest) = ground (arith, counted_le rest)

regular_le : (l : RegularScoreLevel) → regular_score_points l ≤ 6
regular_le l = ground arith

academic_le : (r : AcademicRank) → academic_rank_points r ≤ 8
academic_le r = ground arith

-- Section I stays within the 20 points that the database accepts, for the at most three activities
-- that a request may list, even where one code is listed more than once.
pub calculate_study_score-le :
    (dto : UpdateStudyScoreDto) → length dto.activities ≤ 3 → (calculate_study_score dto).0 ≤ 20
unfolding calculate_study_score
calculate_study_score-le dto few = omega (
  arith,
  counted_le dto.activities,
  regular_le dto.regular_score_level,
  academic_le dto.academic_rank,
)

-- Section II never exceeds its base score, and what is lost of the base is the sum of the
-- deductions, or the whole base where the deductions are larger.
pub calculate_discipline_score_exact :
    (dto : UpdateDisciplineScoreDto)
    → (calculate_discipline_score dto).0
        + min dto.base_score (sum_by deduction (calculate_discipline_score dto).1)
      ≡ dto.base_score
unfolding calculate_discipline_score
calculate_discipline_score_exact dto = omega arith

-- Section II is the base score of a request without violations, none named or none listed; a further
-- violation costs its number of times the points of one, down to 0 at the least.
pub calculate_discipline_score_deducts :
    (dto : UpdateDisciplineScoreDto) (v : DisciplineViolationDto) (vs : List DisciplineViolationDto)
    → ((calculate_discipline_score (record dto { violations = none })).0 ≡ dto.base_score)
      × ((calculate_discipline_score (record dto { violations = some [] })).0 ≡ dto.base_score)
      × ((calculate_discipline_score (record dto { violations = some (v ∷ vs) })).0
          ≡ (calculate_discipline_score (record dto { violations = some vs })).0
            - v.count * v.deduct_score)
unfolding calculate_discipline_score
calculate_discipline_score_deducts dto v vs = (omega arith, omega arith, omega arith)

law_le : (l : LawComplianceLevel) → law_compliance_points l ≤ 10
law_le l = ground arith

volunteer_le : (l : VolunteerActivityLevel) → volunteer_activity_points l ≤ 10
volunteer_le l = ground arith

relationship_le : (l : CommunityRelationshipLevel) → community_relationship_points l ≤ 5
relationship_le l = ground arith

-- The cap of section IV at 25 cuts nothing off: the score is the sum of its three criteria, and the
-- database accepts it.
pub calculate_community_score_exact :
    (dto : UpdateCommunityScoreDto)
    → (calculate_community_score dto
        ≡ law_compliance_points dto.law_compliance_level
          + volunteer_activity_points dto.volunteer_activity_level
          + community_relationship_points dto.community_relationship_level)
      × (calculate_community_score dto ≤ 25)
unfolding calculate_community_score
calculate_community_score_exact dto =
    let l = law_le dto.law_compliance_level in
    let v = volunteer_le dto.volunteer_activity_level in
    let r = relationship_le dto.community_relationship_level in (omega arith, omega arith)

political_le : (l : PoliticalActivityLevel) → political_activity_points l ≤ 5
political_le l = ground arith

culture_le : (l : CultureSportLevel) → culture_sport_points l ≤ 5
culture_le l = ground arith

club_le : (l : ClubActivityLevel) → club_activity_points l ≤ 5
club_le l = ground arith

social_le : (l : SocialPreventionLevel) → social_prevention_points l ≤ 3
social_le l = ground arith

-- For a reward of at most the 2 points that the request may state, the cap of section III at 20 cuts
-- nothing off: the score is the sum of its five criteria, and at most 20.
pub calculate_activity_score_exact :
    (dto : UpdateActivityScoreDto)
    → dto.reward_score ≤ 2
    → (calculate_activity_score dto
        ≡ political_activity_points dto.political_activity_level
          + culture_sport_points dto.culture_sport_level
          + club_activity_points dto.club_activity_level
          + social_prevention_points dto.social_prevention_level
          + dto.reward_score)
      × (calculate_activity_score dto ≤ 20)
unfolding calculate_activity_score
calculate_activity_score_exact dto h =
    let p = political_le dto.political_activity_level in
    let c = culture_le dto.culture_sport_level in
    let k = club_le dto.club_activity_level in
    let s = social_le dto.social_prevention_level in (omega arith, omega arith)

-- The sections as the database holds them.
pub record InSchema (s : ScoreInput) : Type 0 where
  pub study : s.study_score ≤ 20
  pub discipline : s.discipline_score ≤ 25
  pub activity : s.activity_score ≤ 20
  pub community : s.community_score ≤ 25
  pub role : s.role_score ≤ 10

-- For sections within the CHECK constraints of the schema the cap of the total at 100 cuts nothing
-- off, and the rank is the one whose band holds the plain sum.
pub calculate_score_result_exact :
    (s : ScoreInput)
    → InSchema s
    → ((calculate_score_result s).total_score
        ≡ s.study_score + s.discipline_score + s.activity_score + s.community_score + s.role_score)
      × InBand
          (calculate_score_result s).rank
          (s.study_score + s.discipline_score + s.activity_score + s.community_score + s.role_score)
unfolding calculate_score_result
calculate_score_result_exact s h =
    let sum : ℕ =
      s.study_score + s.discipline_score + s.activity_score + s.community_score + s.role_score in
    let total : min 100 sum ≡ sum = omega arith in
    (
      total,
      subst (λ t. InBand (calculate_classification (min 100 sum)) t) total (band_of (min 100 sum)),
    )
