-- ===== src/Idempotency/Retrying.antt =====
-- A request that its client sends again and again under one key.
use apag_be.Prelude.{
  ℕ, zero, suc, String, ◌≡◌, refl, ◌∙◌, ap, true, none, some, List, [], ◌∷◌, ◌++◌,
}
use apag_be.Http.{Result, ok, err, ◌>>=◌}
use apag_be.Database.Rows.{Db, find_by}
use apag_be.Services.Submit.{Committed}
use apag_be.Idempotency.Values.{Value, ReadsIso}
use apag_be.Idempotency.Canonical.{codes}
use apag_be.Idempotency.Alike.{same}
use apag_be.Idempotency.Operation.{
  Platform, Store, OperationCommand, Performed, digest, scope_of, valid_key, has_scope, authorize,
  idempotent_operation,
}
use apag_be.Idempotency.Replays.{idle}
use apag_be.Idempotency.Once.{with_receipt, keyed-as_unkeyed, operation-once}

-- The operation, sent a number of further times: the last answer and state, and all that is emitted.
unfoldable pub retried :
    Platform → OperationCommand → (Db → Result (Committed Value)) → ℕ → Performed → Result Performed
retried p c work zero out = ok out
retried p c work (suc n) out = idempotent_operation p c work out.store >>= λ again.
    retried p c work n (record again { emitted = out.emitted ++ again.emitted })

append_nil {ℓ} : {A : Type ℓ} (xs : List A) → xs ++ [] ≡ xs
append_nil [] = refl
append_nil (x ∷ xs) = ap (λ ys. x ∷ ys) (append_nil xs)

retried-settled :
    (p : Platform) (c : OperationCommand) (work : Db → Result (Committed Value)) (out : Performed)
    → idempotent_operation p c work out.store
      ≡ ok (record { response = out.response; emitted = []; store = out.store })
    → (n : ℕ) → retried p c work n out ≡ ok out
unfolding retried
retried-settled p c work out again zero = refl
retried-settled p c work out again (suc n) =
    rw again (rw (append_nil out.emitted) (retried-settled p c work out again n))

after_first :
    (r : Result Performed) (more : Performed → Result Performed)
    → ((out : Performed) → r ≡ ok out → more out ≡ ok out)
    → (r >>= more) ≡ r
after_first (err e) more h = refl
after_first (ok out) more h = h out refl

-- However many times a client sends one request under a fresh valid key, all in all it is carried out as
-- once without a key: the last answer, all that is emitted, and the tables are those of the single
-- unkeyed operation, errors included, and there is one receipt on top where it succeeds. The actor must
-- still be allowed it on the tables that it leaves, and the ISO text of a date be read as that date.
pub retried-as_once :
    (p : Platform) (c : OperationCommand) (work : Db → Result (Committed Value)) (key : String)
    (s : Store) (n : ℕ)
    → ReadsIso p.clock
    → c.key ≡ some key
    → valid_key (codes key) ≡ true
    → find_by (has_scope (digest p (scope_of c.actor_id c.action key))) s.receipts ≡ none
    → ((out : Performed)
        → idempotent_operation p c work s ≡ ok out
        → authorize c.authorize_replay out.store.db ≡ ok tt)
    → (idempotent_operation p c work s >>= retried p c work n) ≡ (
        idempotent_operation p (record c { key = none }) work s >>= λ out.
        ok (with_receipt p (digest p (scope_of c.actor_id c.action key)) (digest p c.input) out))
retried-as_once p c work key s n reads keyed valid fresh allowed =
    let settles = after_first (idempotent_operation p c work s) (retried p c work n) (λ out first.
      retried-settled p c work out
        (operation-once p c work work key s out.store out c.input c.authorize_replay reads keyed
          first idle same (allowed out first))
        n) in
    settles
    ∙ ap (λ k. idempotent_operation p (record c { key = k }) work s) keyed
    ∙ keyed-as_unkeyed p c work key s valid fresh
