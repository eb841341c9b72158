-- ===== src/History/Scoring/Sections.antt =====
-- A student's own scores of the five sections, as steps.
use apag_be.Prelude.{ℕ, ◌≤◌, ◌≡◌, refl, some, arith, length}
use apag_be.Http.{Result, ok, >>=-eq-ok}
use apag_be.Policy.Transition.{submitted}
use apag_be.Policy.Transition.Graph.{◌⟶◌}
use apag_be.Score.{
  ScoreInput, UpdateStudyScoreDto, calculate_study_score, UpdateDisciplineScoreDto,
  calculate_discipline_score, UpdateActivityScoreDto, calculate_activity_score,
  UpdateCommunityScoreDto, calculate_community_score, UpdateRoleScoreDto, calculate_role_score,
}
use apag_be.Score.Bounds.{
  InSchema, calculate_study_score-le, calculate_discipline_score_exact,
  calculate_activity_score_exact, calculate_community_score_exact,
}
use apag_be.Score.Roles.{calculate_role_score-le}
use apag_be.Database.Rows.{EvaluationForm, Db, find_form}
use apag_be.Database.Write.{snapshot_of, write_evaluation_and_read}
use apag_be.Database.Evolution.{workflow, Valid, Grows, Stepped}
use apag_be.Database.Commit.{Commits, Commits-Stepped}
use apag_be.Services.Submit.{Committed}
use apag_be.Services.Scoring.{
  write_section, study_form, update_study_score, discipline_form, update_discipline_score,
  activity_form, update_activity_score, community_form, update_community_score, role_form,
  update_role_score,
}
use apag_be.History.Scoring.{Redrafts, Redrafts-Sound}

study-InSchema :
    (dto : UpdateStudyScoreDto) (s : ScoreInput)
    → length dto.activities ≤ 3
    → InSchema s
    → InSchema (record s { study_score = (calculate_study_score dto).0 })
study-InSchema dto s few h = record {
  study = calculate_study_score-le dto few;
  discipline = h.discipline;
  activity = h.activity;
  community = h.community;
  role = h.role;
}

study-Redrafts :
    (dto : UpdateStudyScoreDto) (f : EvaluationForm)
    → length dto.activities ≤ 3
    → Redrafts f (study_form dto f)
study-Redrafts dto f few = record {
  keeps_id = λ x. refl;
  same_student = refl;
  same_class = refl;
  same_semester = refl;
  same_status = refl;
  audit = λ w a. let fits = study-InSchema dto f.scores few a.in_schema in ground arith;
}

discipline-InSchema :
    (dto : UpdateDisciplineScoreDto) (s : ScoreInput)
    → dto.base_score ≤ 25
    → InSchema s
    → InSchema (record s { discipline_score = (calculate_discipline_score dto).0 })
discipline-InSchema dto s small h =
    let lost = calculate_discipline_score_exact dto in
    record {
      study = h.study;
      discipline = omega arith;
      activity = h.activity;
      community = h.community;
      role = h.role;
    }

discipline-Redrafts :
    (dto : UpdateDisciplineScoreDto) (f : EvaluationForm)
    → dto.base_score ≤ 25
    → Redrafts f (discipline_form dto f)
discipline-Redrafts dto f small = record {
  keeps_id = λ x. refl;
  same_student = refl;
  same_class = refl;
  same_semester = refl;
  same_status = refl;
  audit = λ w a. let fits = discipline-InSchema dto f.scores small a.in_schema in ground arith;
}

activity-InSchema :
    (dto : UpdateActivityScoreDto) (s : ScoreInput)
    → dto.reward_score ≤ 2
    → InSchema s
    → InSchema (record s { activity_score = calculate_activity_score dto })
activity-InSchema dto s small h =
    let (_, fits) = calculate_activity_score_exact dto small in
    record {
      study = h.study;
      discipline = h.discipline;
      activity = fits;
      community = h.community;
      role = h.role;
    }

activity-Redrafts :
    (dto : UpdateActivityScoreDto) (f : EvaluationForm)
    → dto.reward_score ≤ 2
    → Redrafts f (activity_form dto f)
activity-Redrafts dto f small = record {
  keeps_id = λ x. refl;
  same_student = refl;
  same_class = refl;
  same_semester = refl;
  same_status = refl;
  audit = λ w a. let fits = activity-InSchema dto f.scores small a.in_schema in ground arith;
}

community-InSchema :
    (dto : UpdateCommunityScoreDto) (s : ScoreInput)
    → InSchema s
    → InSchema (record s { community_score = calculate_community_score dto })
community-InSchema dto s h =
    let (_, fits) = calculate_community_score_exact dto in
    record {
      study = h.study;
      discipline = h.discipline;
      activity = h.activity;
      community = fits;
      role = h.role;
    }

community-Redrafts :
    (dto : UpdateCommunityScoreDto) (f : EvaluationForm) → Redrafts f (community_form dto f)
community-Redrafts dto f = record {
  keeps_id = λ x. refl;
  same_student = refl;
  same_class = refl;
  same_semester = refl;
  same_status = refl;
  audit = λ w a. let fits = community-InSchema dto f.scores a.in_schema in ground arith;
}

role-InSchema :
    (score : ℕ) (s : ScoreInput)
    → score ≤ 10
    → InSchema s
    → InSchema (record s { role_score = score })
role-InSchema score s small h = record {
  study = h.study;
  discipline = h.discipline;
  activity = h.activity;
  community = h.community;
  role = small;
}

role-Redrafts :
    (dto : UpdateRoleScoreDto) (score : ℕ) (f : EvaluationForm)
    → score ≤ 10
    → Redrafts f (role_form dto score f)
role-Redrafts dto score f small = record {
  keeps_id = λ x. refl;
  same_student = refl;
  same_class = refl;
  same_semester = refl;
  same_status = refl;
  audit = λ w a. let fits = role-InSchema score f.scores small a.in_schema in ground arith;
}

-- The five requests that score a section.
pub data SectionDto : Type 0 where
  study : UpdateStudyScoreDto → SectionDto
  discipline : UpdateDisciplineScoreDto → SectionDto
  activity : UpdateActivityScoreDto → SectionDto
  community : UpdateCommunityScoreDto → SectionDto
  role : UpdateRoleScoreDto → SectionDto

-- What the validation of the requests lets through.
abbrev pub Admissible : SectionDto → Type 0
Admissible (study dto) = length dto.activities ≤ 3
Admissible (discipline dto) = dto.base_score ≤ 25
Admissible (activity dto) = dto.reward_score ≤ 2
Admissible (community dto) = Unit
Admissible (role dto) = Unit

abbrev pub update_section : SectionDto → EvaluationForm → Db → Result (Committed EvaluationForm)
update_section (study dto) = update_study_score dto
update_section (discipline dto) = update_discipline_score dto
update_section (activity dto) = update_activity_score dto
update_section (community dto) = update_community_score dto
update_section (role dto) = update_role_score dto

write_section-Commits :
    (f : EvaluationForm) (change : EvaluationForm → EvaluationForm) (b : Db)
    (out : Committed EvaluationForm)
    → write_section f change b ≡ ok out
    → Commits f change b out
write_section-Commits f change b out h =
    let ((row, c), wrote, rest) =
      >>=-eq-ok (write_evaluation_and_read (snapshot_of f) change b) _ h in
    (c, ground arith, ground arith)

-- The change that a request makes of the form that it was checked against.
update_section-Commits :
    (d : SectionDto) (f : EvaluationForm) (b : Db) (out : Committed EvaluationForm)
    → Admissible d
    → update_section d f b ≡ ok out
    → (change : EvaluationForm → EvaluationForm) × Redrafts f change × Commits f change b out
unfolding update_study_score update_discipline_score update_activity_score update_community_score
    update_role_score
update_section-Commits (study dto) f b out fits h = (
  study_form dto f,
  study-Redrafts dto f fits,
  write_section-Commits f (study_form dto f) b out h,
)
update_section-Commits (discipline dto) f b out fits h = (
  discipline_form dto f,
  discipline-Redrafts dto f fits,
  write_section-Commits f (discipline_form dto f) b out h,
)
update_section-Commits (activity dto) f b out fits h = (
  activity_form dto f,
  activity-Redrafts dto f fits,
  write_section-Commits f (activity_form dto f) b out h,
)
update_section-Commits (community dto) f b out fits h = (
  community_form dto f,
  community-Redrafts dto f,
  write_section-Commits f (community_form dto f) b out h,
)
update_section-Commits (role dto) f b out fits h =
    let (score, computed, h1) = >>=-eq-ok (calculate_role_score dto) _ h in
    (
      role_form dto score f,
      role-Redrafts dto score f (calculate_role_score-le dto score computed),
      write_section-Commits f (role_form dto score f) b out h1,
    )

pub update_section-Stepped :
    (d : SectionDto) (f : EvaluationForm) (s b : Db) (out : Committed EvaluationForm)
    → Admissible d
    → f.status ⟶ submitted
    → find_form f.id s ≡ some f
    → Valid b
    → Grows s b
    → update_section d f b ≡ ok out
    → Stepped workflow b out.db
update_section-Stepped d f s b out fits edge found v grown h =
    let (change, redrafts, commits) = update_section-Commits d f b out fits h in
    Commits-Stepped found v grown (Redrafts-Sound edge redrafts) out commits
