-- ===== src/History/Finalizing.antt =====
-- Finalizing and reopening single forms, as steps.
use apag_be.Prelude.{ℕ, ◌≡◌, refl, sym, ◌⊎◌, subst, true, false, Option, some, arith}
use apag_be.Http.{Result, ok, >>=-eq-ok, >>-eq-ok}
use apag_be.Policy.Access.{admin, training_department, EvaluationActor, can_finalize}
use apag_be.Policy.Transition.{
  FormStatus, finalized, finalize, target, assert_transition, assert_not_locked,
}
use apag_be.Policy.Transition.Graph.{
  not_from_final, finalizes, ◌⟶◌, here, along, assert_transition-⟶,
}
use apag_be.Database.Rows.{EvaluationForm, Db, Env, find_form}
use apag_be.Database.Write.{snapshot_of, next_version, write_evaluation_and_read}
use apag_be.Database.Laws.{find-id}
use apag_be.Database.Audit.{Audit}
use apag_be.Database.Evolution.{workflow, reopening, Valid, Grows, Stepped}
use apag_be.Database.Commit.{Sound, Commits, Commits-Stepped}
use apag_be.Services.Submit.{Seen, Committed}
use apag_be.Services.Finalize.{
  Decided, FinalizeEvaluationDto, commit_form, coalesce, finalized_form, finalize_check,
  finalize_write, reopened_form, reopen_check, reopen_write,
}

pub commit_form-Commits :
    (deadline : Result (Unit {0})) (f : EvaluationForm) (change : EvaluationForm → EvaluationForm)
    (b : Db) (out : Committed EvaluationForm)
    → commit_form deadline f change b ≡ ok out
    → (deadline ≡ ok tt) × Commits f change b out
unfolding commit_form
commit_form-Commits deadline f change b out h =
    let (in_time, h1) = >>-eq-ok deadline _ h in
    let ((row, c), wrote, h2) =
      >>=-eq-ok (write_evaluation_and_read (snapshot_of f) change b) _ h1 in
    (in_time, (c, ground arith, ground arith))

-- What the check of a final decision guarantees.
pub record Finalizable (actor : EvaluationActor) (id : ℕ) (dto : FinalizeEvaluationDto) (s : Db)
    (d : Decided) : Type 0 where
  pub same_id : d.seen.form.id ≡ id
  pub found : find_form d.seen.form.id s ≡ some d.seen.form
  pub allowed : (actor.role ≡ admin) ⊎ (actor.role ≡ training_department)
  pub unlocked : d.seen.form.is_locked ≡ false
  pub edge : d.seen.form.status ⟶ finalized
  pub score : coalesce dto.final_score d.seen.form.class_score ≡ some d.final_score

finalize_guards :
    (actor : EvaluationActor) (id : ℕ) (dto : FinalizeEvaluationDto) (s : Db) (d : Decided)
    → finalize_check actor id dto s ≡ ok d
    → (find_form id s ≡ some d.seen.form)
      × (can_finalize actor ≡ true)
      × (d.seen.form.is_locked ≡ false)
      × (assert_transition d.seen.form.status (target finalize) ≡ ok tt)
      × (coalesce dto.final_score d.seen.form.class_score ≡ some d.final_score)
unfolding finalize_check assert_not_locked
finalize_guards actor id dto s d h = ground arith

finalizing_role :
    (actor : EvaluationActor)
    → can_finalize actor ≡ true
    → (actor.role ≡ admin) ⊎ (actor.role ≡ training_department)
unfolding can_finalize
finalizing_role actor h = ground arith

pub found_again :
    (id : ℕ) (s : Db) (f : EvaluationForm) → find_form id s ≡ some f → find_form f.id s ≡ some f
found_again id s f h = subst (λ i. find_form i s ≡ some f) (sym (find-id id s.forms {f = f} h)) h

-- A final decision passes the check only for an administrator or the training department, and only
-- for the stored form with the id asked for, that is not locked and may go to `finalized` by an edge of the workflow; the final
-- score is the one of the request, or else the class score, which then is there.
pub finalize_check-Finalizable :
    (actor : EvaluationActor) (id : ℕ) (dto : FinalizeEvaluationDto) (s : Db) (d : Decided)
    → finalize_check actor id dto s ≡ ok d
    → Finalizable actor id dto s d
finalize_check-Finalizable actor id dto s d h =
    let (read, allowed, free, edge, score) = finalize_guards actor id dto s d h in
    record {
      found = found_again id s d.seen.form read;
      same_id = find-id id s.forms {f = d.seen.form} read;
      allowed = finalizing_role actor allowed;
      unlocked = free;
      edge = assert_transition-⟶ d.seen.form.status finalized edge;
      score = score;
    }

finalized-Audit :
    (admin_id now score : ℕ) (f : EvaluationForm)
    → f.status ⟶ finalized
    → Audit f
    → Audit (next_version (finalized_form admin_id now score) f)
finalized-Audit admin_id now score f edge a = go f.status refl edge
  where
    go :
        (s : FormStatus)
        → f.status ≡ s
        → s ⟶ finalized
        → Audit (next_version (finalized_form admin_id now score) f)
    go s e finalizes = ground arith

pub finalized-Sound :
    (admin_id now score : ℕ) (f : EvaluationForm)
    → f.status ⟶ finalized
    → Sound workflow f (finalized_form admin_id now score)
finalized-Sound admin_id now score f edge = record {
  keeps_id = λ x. refl;
  same_student = refl;
  same_class = refl;
  same_semester = refl;
  audit = finalized-Audit admin_id now score f edge;
  life = ((along edge here, omega arith), λ e. absurd (not_from_final edge e));
}

pub finalize_write-Stepped :
    (env : Env) (actor : EvaluationActor) (id : ℕ) (dto : FinalizeEvaluationDto) (s b : Db)
    (d : Decided) (out : Committed EvaluationForm)
    → Finalizable actor id dto s d
    → Valid b
    → Grows s b
    → finalize_write env actor.id d b ≡ ok out
    → Stepped workflow b out.db
unfolding finalize_write
finalize_write-Stepped env actor id dto s b d out can v grown h =
    Commits-Stepped can.found v grown
      (finalized-Sound actor.id env.now d.final_score d.seen.form can.edge) out
      (commit_form-Commits _ d.seen.form _ b out h).1

reopen_guards :
    (actor : EvaluationActor) (id : ℕ) (expected : Option ℕ) (s : Db) (seen : Seen)
    → reopen_check actor id expected s ≡ ok seen
    → (find_form id s ≡ some seen.form) × (can_finalize actor ≡ true)
unfolding reopen_check
reopen_guards actor id expected s seen h = ground arith

reopened-Sound : (f : EvaluationForm) → Sound reopening f reopened_form
reopened-Sound f = record {
  keeps_id = λ x. refl;
  same_student = refl;
  same_class = refl;
  same_semester = refl;
  audit = λ a. ground arith;
  life = refl;
}

pub reopen-Stepped :
    (env : Env) (actor : EvaluationActor) (id : ℕ) (expected : Option ℕ) (s b : Db) (seen : Seen)
    (out : Committed EvaluationForm)
    → reopen_check actor id expected s ≡ ok seen
    → Valid b
    → Grows s b
    → reopen_write env seen b ≡ ok out
    → Stepped reopening b out.db
unfolding reopen_write
reopen-Stepped env actor id expected s b seen out checked v grown h =
    let (read, _) = reopen_guards actor id expected s seen checked in
    Commits-Stepped (found_again id s seen.form read) v grown (reopened-Sound seen.form) out
      (commit_form-Commits _ seen.form _ b out h).1
