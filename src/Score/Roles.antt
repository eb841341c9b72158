-- ===== src/Score/Roles.antt =====
-- Section V: what the roles of a student score, and when the request is refused.
use apag_be.Prelude.{inl, inr, ℕ, ◌+◌, ◌≤◌, ◌≡◌, refl, ◌≢◌, ◌⊎◌, ◌↔◌, Option, none, some, arith}
use apag_be.Http.{ok, err, bad_request, officer_fields_missing}
use apag_be.Score.Points.{TaskCompletionLevel, ManagementSkillLevel, management_skill_points}
use apag_be.Score.{
  StudentRoleType, role_score_by, PositionGroup, UpdateRoleScoreDto, normal_student,
  calculate_role_score, officer_score, points_or_zero, get_officer_task_score,
}

officer_le :
    (g : Option PositionGroup) (l : Option TaskCompletionLevel) (k : Option ManagementSkillLevel)
    {s : ℕ}
    → officer_score g l k ≡ ok s
    → s ≤ 10
officer_le none l k h = cc
officer_le (some g) none k h = cc
officer_le (some g) (some l) k h = ground arith

officer_fails :
    (g : Option PositionGroup) (l : Option TaskCompletionLevel) (k : Option ManagementSkillLevel)
    → (officer_score g l k ≡ err (bad_request officer_fields_missing)) ↔ ((g ≡ none) ⊎ (l ≡ none))
officer_fails none l k = (λ h. inl refl, λ h. refl)
officer_fails (some g) none k = (λ h. inr refl, λ h. refl)
officer_fails (some g) (some l) k = (λ h. cc, λ h. ground arith)

role_fails :
    (t : StudentRoleType) (dto : UpdateRoleScoreDto)
    → (role_score_by t dto ≡ err (bad_request officer_fields_missing))
      ↔ ((t ≢ normal_student) × ((dto.position_group ≡ none) ⊎ (dto.task_completion_level ≡ none)))
role_fails normal_student dto = (λ h. cc, λ h. absurd (h.0 refl))
role_fails _ dto =
    let f = officer_fails dto.position_group dto.task_completion_level dto.management_skill_level in
    (λ h. (λ e. cc, f.0 h), λ h. f.1 h.1)

-- Section V stays within 10 points whatever is stated.
pub calculate_role_score-le :
    (dto : UpdateRoleScoreDto) (s : ℕ) → calculate_role_score dto ≡ ok s → s ≤ 10
unfolding calculate_role_score
calculate_role_score-le dto s h = ground (
  arith,
  officer_le dto.position_group dto.task_completion_level dto.management_skill_level {s = s},
)

-- Section V is refused exactly when an officer leaves out the group or the level of completion.
pub calculate_role_score_refused :
    (dto : UpdateRoleScoreDto)
    → (calculate_role_score dto ≡ err (bad_request officer_fields_missing)) ↔ (
        (dto.student_role_type ≢ normal_student)
        × ((dto.position_group ≡ none) ⊎ (dto.task_completion_level ≡ none)))
unfolding calculate_role_score
calculate_role_score_refused dto = role_fails dto.student_role_type dto

task_le : (g : PositionGroup) (l : TaskCompletionLevel) → get_officer_task_score g l ≤ 7
task_le g l = ground arith

skill_le : (o : Option ManagementSkillLevel) → points_or_zero management_skill_points o ≤ 3
skill_le o = ground arith

officer_exact :
    (g : Option PositionGroup) (l : Option TaskCompletionLevel) (k : Option ManagementSkillLevel)
    (s : ℕ)
    → officer_score g l k ≡ ok s
    → (group : PositionGroup) × (level : TaskCompletionLevel) × (g ≡ some group)
      × (l ≡ some level)
      × (s ≡ get_officer_task_score group level + points_or_zero management_skill_points k)
officer_exact none l k s h = cc
officer_exact (some g) none k s h = cc
officer_exact (some g) (some l) k s h = (g, l, refl, refl, ground (arith, task_le g l, skill_le k))

role_exact :
    (t : StudentRoleType) (dto : UpdateRoleScoreDto) (s : ℕ)
    → t ≢ normal_student
    → role_score_by t dto ≡ ok s
    → officer_score dto.position_group dto.task_completion_level dto.management_skill_level ≡ ok s
role_exact normal_student dto s other h = absurd (other refl)
role_exact _ dto s other h = h

-- For an officer of a class, a union or a club the cap of section V at 10 cuts nothing off: a score
-- that is given is the points of the task in the officer's group and those of the skill, and at most
-- 10.
pub calculate_role_score_exact :
    (dto : UpdateRoleScoreDto) (s : ℕ)
    → dto.student_role_type ≢ normal_student
    → calculate_role_score dto ≡ ok s
    → ((group : PositionGroup) × (level : TaskCompletionLevel) × (dto.position_group ≡ some group)
        × (dto.task_completion_level ≡ some level)
        × (s
            ≡ get_officer_task_score group level
              + points_or_zero management_skill_points dto.management_skill_level))
      × (s ≤ 10)
unfolding calculate_role_score
calculate_role_score_exact dto s officer h =
    let given = role_exact dto.student_role_type dto s officer h in
    (
      officer_exact dto.position_group dto.task_completion_level dto.management_skill_level s given,
      officer_le dto.position_group dto.task_completion_level dto.management_skill_level {s = s}
          given,
    )
