-- ===== src/History/FinalizingBatches.antt =====
-- The two batches of final decisions, as steps.
use apag_be.Prelude.{
  ℕ, ◌≡◌, refl, sym, subst, ◌&&◌, true, ◌==◌, List, All, All-map, where_rows, map, arith, any,
  or_else, is_some,
}
use apag_be.Http.{ok, >>=-eq-ok, >>-eq-ok}
use apag_be.Policy.Access.{EvaluationActor, admin}
use apag_be.Policy.Transition.{faculty_approved, finalized}
use apag_be.Policy.Transition.Graph.{◌⟶◌, finalizes}
use apag_be.Policy.Deadline.{assert_within_deadline}
use apag_be.Database.Rows.{EvaluationForm, Db, Env}
use apag_be.Database.Write.{sort_by_id, for_each}
use apag_be.Database.Evolution.{workflow, Valid, Grows, Stepped, for_each-Stepped}
use apag_be.Services.Submit.{Seen, see, Committed}
use apag_be.Services.Finalize.{
  finalized_form, awaiting_decision, BulkFinalizeDto, bulk_finalize_check, FinalizeByFilterDto,
  filtered, finalize_by_filter_check, Batch, FinalizeBatchResult, finalize_one,
  finalize_batch_write,
}
use apag_be.History.Batches.{Ready, Picked, All-Picked, written_next-Stepped}
use apag_be.History.Finalizing.{finalized-Sound}
use apag_be.History.Forwarding.Checks.{second}

awaiting_edge : (f : EvaluationForm) → awaiting_decision f ≡ true → f.status ⟶ finalized
awaiting_edge f ready = let at : f.status ≡ faculty_approved = ground arith in rw at finalizes

pub finalize_one-Stepped :
    (env : Env) (admin_id : ℕ) (s : Db) (seen : Seen) (b c : Db)
    → Ready awaiting_decision s seen.form
    → Valid b
    → Grows s b
    → finalize_one env admin_id seen b ≡ ok c
    → Stepped workflow b c
unfolding finalize_one
finalize_one-Stepped env admin_id s seen b c (found, ready) v grown h =
    let (_, h1) = >>-eq-ok (assert_within_deadline admin seen.deadlines env.now) _ h in
    written_next-Stepped seen.form
      (finalized_form admin_id env.now (or_else seen.form.class_score 0)) c found v grown
      (finalized-Sound admin_id env.now (or_else seen.form.class_score 0) seen.form
        (awaiting_edge seen.form ready))
      h1

-- The forms of a batch, in the order of their ids.
pub record PickedBatch (s : Db) (batch : Batch) : Type 0 where
  pub rows : List EvaluationForm
  pub picked : Picked awaiting_decision s rows
  pub sorted : batch.forms ≡ map (see s) (sort_by_id rows)

pub bulk_finalize-PickedBatch :
    (actor : EvaluationActor) (dto : BulkFinalizeDto) (s : Db) (batch : Batch)
    → bulk_finalize_check actor dto s ≡ ok batch
    → PickedBatch s batch
unfolding bulk_finalize_check
bulk_finalize-PickedBatch actor dto s batch h =
    let selects = λ (f : EvaluationForm). any (λ i. i == f.id) dto.ids && awaiting_decision f in
    record {
      rows = where_rows selects s.forms;
      picked = record {
        where_clause = selects;
        selected = refl;
        suits = λ f both. second (any (λ i. i == f.id) dto.ids) both;
      };
      sorted = ground arith;
    }

filtered-awaits :
    (dto : FinalizeByFilterDto) (s : Db) (f : EvaluationForm)
    → filtered dto s f ≡ true
    → awaiting_decision f ≡ true
filtered-awaits dto s f h = ground arith

finalize_by_filter-PickedBatch :
    (actor : EvaluationActor) (dto : FinalizeByFilterDto) (s : Db) (batch : Batch)
    → finalize_by_filter_check actor dto s ≡ ok batch
    → PickedBatch s batch
unfolding finalize_by_filter_check
finalize_by_filter-PickedBatch actor dto s batch h = record {
  rows = where_rows (filtered dto s) s.forms;
  picked = record { where_clause = filtered dto s; selected = refl; suits = filtered-awaits dto s };
  sorted = ground arith;
}

pub awaiting-scored :
    (s : Db) (f : EvaluationForm)
    → Valid s
    → Ready awaiting_decision s f
    → is_some f.class_score ≡ true
awaiting-scored s f v (found, ready) =
    let a = v.audited f.id f found in a.class_scored (ground arith)

batch_write-Stepped :
    (env : Env) (admin_id : ℕ) (s b : Db) (batch : Batch) (out : Committed FinalizeBatchResult)
    → PickedBatch s batch
    → Valid s
    → Valid b
    → Grows s b
    → finalize_batch_write env admin_id batch b ≡ ok out
    → Stepped workflow b out.db
unfolding finalize_batch_write
batch_write-Stepped env admin_id s b batch out p valid v grown h =
    let (c, wrote, h1) = >>=-eq-ok (for_each (finalize_one env admin_id) batch.forms b) _ h in
    let all : All (λ (x : Seen). Ready awaiting_decision s x.form) batch.forms =
      subst (All (λ (x : Seen). Ready awaiting_decision s x.form)) (sym p.sorted) (
        All-map (λ (x : Seen). Ready awaiting_decision s x.form) (see s) (sort_by_id p.rows)
          (All-Picked awaiting_decision s p.rows valid p.picked)) in
    let same : c ≡ out.db = ground arith in
    subst (Stepped workflow b) same (
      for_each-Stepped (λ (x : Seen). Ready awaiting_decision s x.form) s
        (finalize_one env admin_id) (finalize_one-Stepped env admin_id s) batch.forms b c all v
        grown wrote)

module _ (env : Env) (actor : EvaluationActor) (s b : Db) (batch : Batch)
    (out : Committed FinalizeBatchResult) (valid : Valid s) (v : Valid b) (grown : Grows s b) where
  pub bulk_finalize-Stepped :
      (dto : BulkFinalizeDto)
      → bulk_finalize_check actor dto s ≡ ok batch
      → finalize_batch_write env actor.id batch b ≡ ok out
      → Stepped workflow b out.db
  bulk_finalize-Stepped dto checked h =
      batch_write-Stepped env actor.id s b batch out
        (bulk_finalize-PickedBatch actor dto s batch checked) valid v grown h

  pub finalize_by_filter-Stepped :
      (dto : FinalizeByFilterDto)
      → finalize_by_filter_check actor dto s ≡ ok batch
      → finalize_batch_write env actor.id batch b ≡ ok out
      → Stepped workflow b out.db
  finalize_by_filter-Stepped dto checked h =
      batch_write-Stepped env actor.id s b batch out
        (finalize_by_filter-PickedBatch actor dto s batch checked) valid v grown h
