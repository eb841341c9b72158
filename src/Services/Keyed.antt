-- ===== src/Services/Keyed.antt =====
-- application/evaluation-submit.service.ts and evaluation-finalize.service.ts: handing in a form and
-- finalizing it, as operations that may be sent again under a key.
use apag_be.Prelude.{ℕ, String, Option, none, some}
use apag_be.Http.{Result, ok, no_permission, ◌>>=◌, ◌>>◌}
use apag_be.Policy.Access.{
  EvaluationActor, edit, assert_role, can_finalize, assert_evaluation_access,
}
use apag_be.Database.Rows.{EvaluationForm, Env}
use apag_be.Services.Submit.{Committed, submit_command}
use apag_be.Services.Finalize.{FinalizeEvaluationDto, finalize_check, finalize_write}
use apag_be.Services.Query.{FormAction, assert_form_access}
use apag_be.Idempotency.Values.{
  Value, Fields, undefined, object, field, no_fields, scalar, string, number,
}
use apag_be.Idempotency.Operation.{
  Platform, OperationCommand, Store, Performed, idempotent_operation,
}

-- The text of the UUID that a number writes, and `mapToScoreSummaryResponse`.
pub record Wire : Type 0 where
  pub id_text : ℕ → String
  pub score_summary : EvaluationForm → Value

abbrev optional_number : Option ℕ → Value
optional_number none = undefined
optional_number (some n) = scalar (number n)

abbrev answered : Wire → Result (Committed EvaluationForm) → Result (Committed Value)
answered wire done = do
  out ← done
  ok (record { response = wire.score_summary out.response; emitted = out.emitted; db = out.db })

-- `{ id, expectedVersion }`
abbrev submit_input : Wire → ℕ → Option ℕ → Value
submit_input wire id expected_version = object (
    field "id" (scalar (string (wire.id_text id)))
      (field "expectedVersion" (optional_number expected_version) no_fields))

abbrev pub submit_operation :
    Wire → EvaluationActor → ℕ → Option String → Option ℕ → OperationCommand
submit_operation wire actor id key expected_version = record {
  actor_id = wire.id_text actor.id;
  action = "submit";
  key = key;
  input = submit_input wire id expected_version;
  authorize_replay = some (assert_form_access actor id FormAction.edit);
}

unfoldable pub submit :
    Platform
    → Wire
    → Env
    → EvaluationActor
    → ℕ
    → Option String
    → Option ℕ
    → Store
    → Result Performed
submit p wire env actor id key expected_version s = do
  assert_role edit actor none
  idempotent_operation p (submit_operation wire actor id key expected_version)
      (λ db. answered wire (submit_command env actor id expected_version db)) s

-- `{ id, dto }`
abbrev finalize_input : Wire → ℕ → FinalizeEvaluationDto → Value
finalize_input wire id dto =
    object (field "id" (scalar (string (wire.id_text id))) (field "dto" (object fields) no_fields))
  where
    fields : Fields
    fields =
        field "expectedVersion" (optional_number dto.expected_version)
          (field "finalScore" (optional_number dto.final_score) no_fields)

abbrev pub finalize_operation :
    Wire → EvaluationActor → ℕ → FinalizeEvaluationDto → Option String → OperationCommand
finalize_operation wire actor id dto key = record {
  actor_id = wire.id_text actor.id;
  action = "finalize";
  key = key;
  input = finalize_input wire id dto;
  authorize_replay = none;
}

unfoldable pub finalize :
    Platform
    → Wire
    → Env
    → EvaluationActor
    → ℕ
    → FinalizeEvaluationDto
    → Option String
    → Store
    → Result Performed
finalize p wire env actor id dto key s = do
  assert_evaluation_access (can_finalize actor) no_permission
  idempotent_operation p (finalize_operation wire actor id dto key)
      (λ db.
        answered wire
          (do decided ← finalize_check actor id dto db; finalize_write env actor.id decided db))
      s
