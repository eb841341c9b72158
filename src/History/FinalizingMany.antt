-- ===== src/History/FinalizingMany.antt =====
-- What a bulk decision stores: application/evaluation-finalize.service.ts, row by row.
use apag_be.Prelude.{
  ℕ, ◌+◌, ◌≡◌, refl, sym, ◌∙◌, ap, subst, true, is_some, Option, none, some, or_else, List, [], ◌∷◌,
  map, All, All-map, arith,
}
use apag_be.Http.{Result, ok, err, ◌>>=◌, >>=-eq-ok, >>-eq-ok}
use apag_be.Policy.Access.{EvaluationActor, admin}
use apag_be.Policy.Transition.{finalized}
use apag_be.Policy.Deadline.{assert_within_deadline}
use apag_be.Score.{calculate_classification}
use apag_be.Database.Rows.{EvaluationForm, Db, Env, find_form}
use apag_be.Database.Write.{snapshot_of, next_version, write_evaluation, for_each, sort_by_id}
use apag_be.Database.Laws.{UniqueIds, Written, write_evaluation-Written}
use apag_be.Database.Evolution.{workflow, Valid, Grows, Grows-IsLatest, Stepped}
use apag_be.Services.Submit.{Seen, see, Committed}
use apag_be.Services.Finalize.{
  finalized_form, awaiting_decision, BulkFinalizeDto, bulk_finalize_check, Batch,
  FinalizeBatchResult, finalize_one, finalize_batch_write,
}
use apag_be.History.Batches.{All-imp, Ready, All-Picked}
use apag_be.History.HandingOn.{written-All, sort_by_id-UniqueIds, where_rows-UniqueIds}
use apag_be.History.FinalizingBatches.{
  bulk_finalize-PickedBatch, finalize_one-Stepped, awaiting-scored,
}

abbrev pub final_row : ℕ → ℕ → EvaluationForm → EvaluationForm
final_row admin_id now f = next_version (finalized_form admin_id now (or_else f.class_score 0)) f

-- The form is stored with the final decision on its class score.
abbrev pub Concluded : ℕ → ℕ → Db → EvaluationForm → Type 0
Concluded admin_id now d f =
    (score : ℕ) × (f.class_score ≡ some score)
    × (find_form f.id d
        ≡ some (record f {
          version = f.version + 1;
          status = finalized;
          final_score = some score;
          rank = some (calculate_classification score);
          admin_finalized_by = some admin_id;
          admin_finalized_at = some now;
        }))

conclude :
    (admin_id now : ℕ) (d : Db) (f : EvaluationForm) (o : Option ℕ)
    → f.class_score ≡ o
    → is_some o ≡ true
    → find_form f.id d ≡ some (final_row admin_id now f)
    → Concluded admin_id now d f
conclude admin_id now d f none at h stored = cc
conclude admin_id now d f (some score) at h stored = (
  score,
  at,
  stored
      ∙ ap (λ (o : Option ℕ). some (next_version (finalized_form admin_id now (or_else o 0)) f)) at,
)

finalize_one-writes :
    (env : Env) (admin_id : ℕ) (s : Db) (f : EvaluationForm) (b c : Db)
    → Ready awaiting_decision s f
    → Valid b
    → Grows s b
    → finalize_one env admin_id (see s f) b ≡ ok c
    → Written b c f (final_row admin_id env.now f) × Stepped workflow b c
unfolding finalize_one
finalize_one-writes env admin_id s f b c (found, ready) v grown h =
    let change = finalized_form admin_id env.now (or_else f.class_score 0) in
    let (_, h1) = >>-eq-ok (assert_within_deadline admin (see s f).deadlines env.now) _ h in
    let ((n, d), wrote, rest) = >>=-eq-ok (write_evaluation (snapshot_of f) change b) _ h1 in
    let same : d ≡ c = ground arith in
    (
      subst (λ x. Written b x f (final_row admin_id env.now f)) same
          (write_evaluation-Written f change b v.unique (λ x. refl) (Grows-IsLatest grown found)
            wrote),
      finalize_one-Stepped env admin_id s (see s f) b c (found, ready) v grown h,
    )

bind_same : (r : Result Db) (k m : Db → Result Db) → ((c : Db) → k c ≡ m c) → (r >>= k) ≡ (r >>= m)
bind_same (err e) k m h = refl
bind_same (ok c) k m h = h c

for_each-see :
    (env : Env) (admin_id : ℕ) (s : Db) (fs : List EvaluationForm) (b : Db)
    → for_each (finalize_one env admin_id) (map (see s) fs) b
      ≡ for_each (λ f. finalize_one env admin_id (see s f)) fs b
unfolding for_each
for_each-see env admin_id s [] b = refl
for_each-see env admin_id s (f ∷ fs) b =
    bind_same (finalize_one env admin_id (see s f) b) _ _ (for_each-see env admin_id s fs)

Concluded-All :
    (admin_id now : ℕ) (d : Db) (fs : List EvaluationForm)
    → All (λ f. is_some f.class_score ≡ true) fs
    → All (λ f. find_form f.id d ≡ some (final_row admin_id now f)) fs
    → All (Concluded admin_id now d) fs
Concluded-All admin_id now d [] scored stored = tt
Concluded-All admin_id now d (f ∷ fs) scored stored = (
  conclude admin_id now d f f.class_score refl scored.0 stored.0,
  Concluded-All admin_id now d fs scored.1 stored.1,
)

decided_batch :
    (env : Env) (admin_id : ℕ) (batch : Batch) (b : Db) (out : Committed FinalizeBatchResult)
    → finalize_batch_write env admin_id batch b ≡ ok out
    → (for_each (finalize_one env admin_id) batch.forms b ≡ ok out.db)
      × (out.response ≡ batch.result)
unfolding finalize_batch_write
decided_batch env admin_id batch b out h =
    let (c, wrote, rest) = >>=-eq-ok (for_each (finalize_one env admin_id) batch.forms b) _ h in
    let same : c ≡ out.db = ground arith in
    (
      subst (λ x. for_each (finalize_one env admin_id) batch.forms b ≡ ok x) same wrote,
      ground arith,
    )

-- When a bulk decision, checked and written on valid tables with any commits between, succeeds, every
-- form of the batch had a class score when it was read, so that none gets the 0 of a missing one: the
-- form is stored as finalized with that score, the rank of it, who decided and when, one version later
-- and otherwise as it was read.
pub bulk_finalize-concludes :
    (env : Env) (actor : EvaluationActor) (dto : BulkFinalizeDto) (s b : Db) (batch : Batch)
    (out : Committed FinalizeBatchResult)
    → Valid s
    → Valid b
    → Grows s b
    → bulk_finalize_check actor dto s ≡ ok batch
    → finalize_batch_write env actor.id batch b ≡ ok out
    → All (λ (seen : Seen). Concluded actor.id env.now out.db seen.form) batch.forms
bulk_finalize-concludes env actor dto s b batch out valid v grown checked h =
    let p = bulk_finalize-PickedBatch actor dto s batch checked in
    let (wrote, _) = decided_batch env actor.id batch b out h in
    let rows = sort_by_id p.rows in
    let ready = All-Picked awaiting_decision s p.rows valid p.picked in
    let unique = sort_by_id-UniqueIds p.rows (
      subst UniqueIds (sym p.picked.selected)
        (where_rows-UniqueIds p.picked.where_clause s.forms valid.unique)) in
    let loop : for_each (λ f. finalize_one env actor.id (see s f)) rows b ≡ ok out.db =
      sym (for_each-see env actor.id s rows b)
      ∙ ap (λ forms. for_each (finalize_one env actor.id) forms b) (sym p.sorted)
      ∙ wrote in
    subst (All (λ (x : Seen). Concluded actor.id env.now out.db x.form)) (sym p.sorted) (
      All-map (λ (x : Seen). Concluded actor.id env.now out.db x.form) (see s) rows
        (Concluded-All actor.id env.now out.db rows
          (All-imp rows (λ f r. awaiting-scored s f valid r) ready)
          (written-All (Ready awaiting_decision s) s (final_row actor.id env.now)
            (λ f. finalize_one env actor.id (see s f)) (finalize_one-writes env actor.id s) rows b
            out.db unique ready v grown loop)))
