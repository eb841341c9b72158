-- ===== src/Services/Scoring.antt =====
-- application/evaluation-score.service.ts: a student's own scores and drafts.
pub mod Review
use apag_be.Prelude.{
  ℕ, Bool, true, false, not, ◌&&◌, ◌||◌, Option, none, some, List, [], ◌∷◌, ◌==◌, String, is_some,
  update_where, if◌then◌else◌,
}
use apag_be.Http.{
  Result, ok, err, bad_request, form_not_found, no_permission, empty_draft, require, ◌>>=◌, ◌>>◌,
}
use apag_be.Policy.Access.{EvaluationActor, edit, assert_evaluation_access, assert_role, can_edit}
use apag_be.Policy.Transition.{assert_not_locked, assert_editable}
use apag_be.Score.{
  ScoreInput, ScoreResult, calculate_score_result, UpdateStudyScoreDto, calculate_study_score,
  UpdateDisciplineScoreDto, calculate_discipline_score, UpdateActivityScoreDto,
  calculate_activity_score, UpdateCommunityScoreDto, calculate_community_score, UpdateRoleScoreDto,
  calculate_role_score,
}
use apag_be.Database.Rows.{
  EvaluationForm, Note, written, User, Db, find_by, form_facts, StudyData, DisciplineData,
  ActivityData, CommunityData, RoleData,
}
use apag_be.Database.Write.{
  snapshot_of, write_evaluation, write_evaluation_and_read, assert_expected_evaluation_version,
  or_not_found,
}
use apag_be.Services.Submit.{Committed, owned}

-- `findOwnedForWrite`
unfoldable pub find_owned_for_write : EvaluationActor → ℕ → Db → Result EvaluationForm
find_owned_for_write actor id db = do
  assert_role edit actor none
  form ← or_not_found form_not_found (find_by (owned id actor.id) db.forms)
  assert_evaluation_access (can_edit actor (form_facts form)) no_permission
  ok form

-- The checks that every change of a draft begins with.
unfoldable pub draft_check : EvaluationActor → ℕ → Option ℕ → Db → Result EvaluationForm
draft_check actor id expected_version db = do
  assert_role edit actor none
  form ← find_owned_for_write actor id db
  assert_expected_evaluation_version (snapshot_of form) expected_version
  assert_not_locked form.is_locked
  assert_editable form.status
  ok form

-- A field of the request is absent, null or a text.
pub record UpdateDraftDto : Type 0 where
  pub expected_version : Option ℕ
  pub phone : Option (Option String)
  pub note : Option (Option String)

unfoldable pub update_draft_check :
    EvaluationActor → ℕ → UpdateDraftDto → Db → Result EvaluationForm
update_draft_check actor id dto db = do
  assert_role edit actor none
  require (is_some dto.phone || is_some dto.note) (bad_request empty_draft)
  draft_check actor id dto.expected_version db

abbrev note_of : Option String → Option Note
note_of none = none
note_of (some text) = some (written text)

abbrev pub noted_form : Option (Option String) → EvaluationForm → EvaluationForm
noted_form none f = f
noted_form (some note) f = record f { note = note_of note }

abbrev set_phone : ℕ → Option (Option String) → List User → List User
set_phone user_id none users = users
set_phone user_id (some phone) users =
    update_where (λ u. u.id == user_id) (λ u. record u { phone = phone }) users

unfoldable pub update_draft_write :
    EvaluationActor → UpdateDraftDto → EvaluationForm → Db → Result (Committed EvaluationForm)
update_draft_write actor dto form db = do
  (row, next) ← write_evaluation_and_read (snapshot_of form) (noted_form dto.note) db
  ok (record {
    response = row;
    emitted = [];
    db = record next { users = set_phone actor.id dto.phone next.users };
  })

-- The total of the sections and its rank.
abbrev pub rescored_form : ScoreInput → EvaluationForm → EvaluationForm
rescored_form scores f = record f {
  student_score = some (calculate_score_result scores).total_score;
  rank = some (calculate_score_result scores).rank;
}

-- `writeEvaluationAndRead(tx, current, …)` in a transaction of its own.
abbrev pub write_section :
    EvaluationForm → (EvaluationForm → EvaluationForm) → Db → Result (Committed EvaluationForm)
write_section current change db = do
  (row, next) ← write_evaluation_and_read (snapshot_of current) change db
  ok (record { response = row; emitted = []; db = next })

abbrev pub study_form : UpdateStudyScoreDto → EvaluationForm → EvaluationForm → EvaluationForm
study_form dto current f =
    let (score, activities) = calculate_study_score dto in
    record (rescored_form (record current.scores { study_score = score }) f) {
      scores = record f.scores { study_score = score };
      study_data = some (record {
        regular_score_level = dto.regular_score_level;
        academic_rank = dto.academic_rank;
        activities = activities;
      });
    }

unfoldable pub update_study_score :
    UpdateStudyScoreDto → EvaluationForm → Db → Result (Committed EvaluationForm)
update_study_score dto current = write_section current (study_form dto current)

abbrev pub discipline_form :
    UpdateDisciplineScoreDto → EvaluationForm → EvaluationForm → EvaluationForm
discipline_form dto current f =
    let (score, violations) = calculate_discipline_score dto in
    record (rescored_form (record current.scores { discipline_score = score }) f) {
      scores = record f.scores { discipline_score = score };
      discipline_base_score = dto.base_score;
      discipline_data = some (record { base_score = dto.base_score; violations = violations });
    }

unfoldable pub update_discipline_score :
    UpdateDisciplineScoreDto → EvaluationForm → Db → Result (Committed EvaluationForm)
update_discipline_score dto current = write_section current (discipline_form dto current)

abbrev pub activity_form : UpdateActivityScoreDto → EvaluationForm → EvaluationForm → EvaluationForm
activity_form dto current f =
    record (rescored_form (record current.scores { activity_score = calculate_activity_score dto })
      f) {
        scores = record f.scores { activity_score = calculate_activity_score dto };
        activity_data = some (record {
          political_activity_level = dto.political_activity_level;
          culture_sport_level = dto.culture_sport_level;
          club_activity_level = dto.club_activity_level;
          social_prevention_level = dto.social_prevention_level;
          reward_score = dto.reward_score;
        });
      }

unfoldable pub update_activity_score :
    UpdateActivityScoreDto → EvaluationForm → Db → Result (Committed EvaluationForm)
update_activity_score dto current = write_section current (activity_form dto current)

abbrev pub community_form :
    UpdateCommunityScoreDto → EvaluationForm → EvaluationForm → EvaluationForm
community_form dto current f =
    record (rescored_form
      (record current.scores { community_score = calculate_community_score dto }) f) {
        scores = record f.scores { community_score = calculate_community_score dto };
        community_data = some (record {
          law_compliance_level = dto.law_compliance_level;
          volunteer_activity_level = dto.volunteer_activity_level;
          community_relationship_level = dto.community_relationship_level;
        });
      }

unfoldable pub update_community_score :
    UpdateCommunityScoreDto → EvaluationForm → Db → Result (Committed EvaluationForm)
update_community_score dto current = write_section current (community_form dto current)

abbrev pub role_form : UpdateRoleScoreDto → ℕ → EvaluationForm → EvaluationForm → EvaluationForm
role_form dto score current f =
    record (rescored_form (record current.scores { role_score = score }) f) {
      scores = record f.scores { role_score = score };
      role_data = some (record {
        student_role_type = dto.student_role_type;
        position_group = dto.position_group;
        task_completion_level = dto.task_completion_level;
        management_skill_level = dto.management_skill_level;
        normal_student_activity_score = dto.normal_student_activity_score;
        special_achievement_level = dto.special_achievement_level;
      });
    }

-- The score is computed before the transaction, and may be refused.
unfoldable pub update_role_score :
    UpdateRoleScoreDto → EvaluationForm → Db → Result (Committed EvaluationForm)
update_role_score dto current db = do
  score ← calculate_role_score dto
  write_section current (role_form dto score current) db
