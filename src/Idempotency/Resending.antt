-- ===== src/Idempotency/Resending.antt =====
-- Handing in and finalizing a form twice, by a double click or by a client that lost the answer.
use apag_be.Prelude.{ℕ, String, ◌≡◌, refl, Option, none, some, []}
use apag_be.Http.{ok, no_permission, >>-eq-ok}
use apag_be.Policy.Access.{
  EvaluationActor, edit, assert_role, can_finalize, assert_evaluation_access,
}
use apag_be.Database.Rows.{Env}
use apag_be.Services.Finalize.{FinalizeEvaluationDto}
use apag_be.Services.Query.{FormAction, assert_form_access}
use apag_be.Services.Keyed.{Wire, submit_operation, submit, finalize_operation, finalize}
use apag_be.Idempotency.Values.{ReadsIso}
use apag_be.Idempotency.Alike.{same}
use apag_be.Idempotency.Operation.{Platform, Store, Performed}
use apag_be.Idempotency.Replays.{Operations}
use apag_be.Idempotency.Once.{operation-once}

-- A student who has handed in a form under a key and sends the same request again, at any later time
-- and after any other operations, gets the first answer again, and nothing is handed in a second time:
-- nothing is emitted and the tables stay as they are. The student may still edit the form, and the ISO
-- text of a date is read as that date.
pub submit-once :
    (p : Platform) (wire : Wire) (env later : Env) (actor : EvaluationActor) (id : ℕ) (key : String)
    (expected : Option ℕ) (s t : Store) (out : Performed)
    → ReadsIso p.clock
    → submit p wire env actor id (some key) expected s ≡ ok out
    → Operations p out.store t
    → assert_form_access actor id FormAction.edit t.db ≡ ok tt
    → submit p wire later actor id (some key) expected t
      ≡ ok (record { response = out.response; emitted = []; store = t })
unfolding submit
submit-once p wire env later actor id key expected s t out reads first between allowed =
    let (role, done) = >>-eq-ok (assert_role edit actor none) _ first in
    let c = submit_operation wire actor id (some key) expected in
    rw role (
      operation-once p c _ _ key s t out c.input c.authorize_replay reads refl done between same
        allowed)

-- The same of an administrator who has finalized a form under a key and sends the same request again.
pub finalize-once :
    (p : Platform) (wire : Wire) (env later : Env) (actor : EvaluationActor) (id : ℕ)
    (dto : FinalizeEvaluationDto) (key : String) (s t : Store) (out : Performed)
    → ReadsIso p.clock
    → finalize p wire env actor id dto (some key) s ≡ ok out
    → Operations p out.store t
    → finalize p wire later actor id dto (some key) t
      ≡ ok (record { response = out.response; emitted = []; store = t })
unfolding finalize
finalize-once p wire env later actor id dto key s t out reads first between =
    let (role, done) =
      >>-eq-ok (assert_evaluation_access (can_finalize actor) no_permission) _ first in
    let c = finalize_operation wire actor id dto (some key) in
    rw role (operation-once p c _ _ key s t out c.input none reads refl done between same refl)
