-- ===== src/Idempotency/Once.antt =====
-- What a key promises: the operation acts once, whatever happens in between.
use apag_be.Prelude.{
  ℕ, String, ◌≡◌, refl, sym, ◌∙◌, ap, ◌≢◌, true, false, ◌==◌, ==_refl, Option, none, some, [], ◌∷◌,
  ◌++◌, arith,
}
use apag_be.Http.{Result, ok, err, conflict, key_reused, require, ◌>>=◌, >>-eq-ok, >>=-assoc}
use apag_be.Database.Rows.{Db, find_by}
use apag_be.Services.Submit.{Committed}
use apag_be.Idempotency.Values.{Value, ReadsIso}
use apag_be.Idempotency.Canonical.{codes}
use apag_be.Idempotency.Alike.{Alike, canonical-Alike}
use apag_be.Idempotency.Operation.{
  Platform, OperationReceipt, Store, OperationCommand, Performed, digest, scope_of, valid_key,
  has_scope, authorize, performed, replay, act, act_once, idempotent_operation,
}
use apag_be.Idempotency.Replays.{
  Operations, Operations-keep, Recorded, Recorded-lem, operation-key, receipt_of,
}

-- The same intent, sent again with some input.
abbrev pub sent_again :
    OperationCommand → Value → Option (Db → Result (Unit {0})) → OperationCommand
sent_again c input authorize_replay = record c {
  input = input;
  authorize_replay = authorize_replay;
}

valid_after :
    (p : Platform) (c : OperationCommand) (work : Db → Result (Committed Value)) (key : String)
    (s : Store) (out : Performed)
    → c.key ≡ some key
    → idempotent_operation p c work s ≡ ok out
    → valid_key (codes key) ≡ true
valid_after p c work key s out keyed h =
    let (valid, _) =
      >>-eq-ok (require (valid_key (codes key)) _) _ (sym (operation-key p c work s keyed) ∙ h) in
    ground arith

-- An operation whose receipt is there.
found_again :
    (p : Platform) (c : OperationCommand) (work : Db → Result (Committed Value)) (key : String)
    (t : Store) (r : OperationReceipt)
    → c.key ≡ some key
    → valid_key (codes key) ≡ true
    → find_by (has_scope (digest p (scope_of c.actor_id c.action key))) t.receipts ≡ some r
    → idempotent_operation p c work t ≡ replay p c (digest p c.input) r t
unfolding act_once
found_again p c work key t r keyed valid there =
    operation-key p c work t keyed ∙ rw valid (rw there refl)

-- An operation that has been carried out under a key, sent again under it by the same actor after any
-- other operations, with an input that is hashed alike and with any work: if the actor may still do
-- it, the answer is that of the first time, nothing is emitted and the tables stay as they are. The
-- ISO text of a date must be read as that date.
pub operation-once :
    (p : Platform) (c : OperationCommand) (work again : Db → Result (Committed Value))
    (key : String) (s t : Store) (out : Performed) (input : Value)
    (authorize_replay : Option (Db → Result (Unit {0})))
    → ReadsIso p.clock
    → c.key ≡ some key
    → idempotent_operation p c work s ≡ ok out
    → Operations p out.store t
    → Alike input c.input
    → authorize authorize_replay t.db ≡ ok tt
    → idempotent_operation p (sent_again c input authorize_replay) again t
      ≡ ok (record { response = out.response; emitted = []; store = t })
unfolding replay Recorded
operation-once p c work again key s t out input authorize_replay reads keyed first between like
      allowed =
    let (r, there, hashed, answer) = Recorded-lem p c key work s out reads keyed first in
    let scope = digest p (scope_of c.actor_id c.action key) in
    let alike : digest p input ≡ digest p c.input =
      ap p.sha256 (canonical-Alike p.clock input c.input like) in
    let equal : (r.request_hash == digest p input) ≡ true =
      rw hashed (rw alike (==_refl (digest p c.input))) in
    found_again p (sent_again c input authorize_replay) again key t r keyed
      (valid_after p c work key s out keyed first)
      (Operations-keep p out.store t scope r between there)
    ∙ rw equal (rw allowed (rw answer refl))

-- A key that an operation has been carried out under, sent again by the same actor after any other
-- operations with an input of another hash: the answer is a conflict, whatever the work is.
pub operation-reused :
    (p : Platform) (c : OperationCommand) (work again : Db → Result (Committed Value))
    (key : String) (s t : Store) (out : Performed) (input : Value)
    (authorize_replay : Option (Db → Result (Unit {0})))
    → ReadsIso p.clock
    → c.key ≡ some key
    → idempotent_operation p c work s ≡ ok out
    → Operations p out.store t
    → digest p input ≢ digest p c.input
    → idempotent_operation p (sent_again c input authorize_replay) again t
      ≡ err (conflict key_reused)
unfolding replay Recorded
operation-reused p c work again key s t out input authorize_replay reads keyed first between other =
    let (r, there, hashed, answer) = Recorded-lem p c key work s out reads keyed first in
    let scope = digest p (scope_of c.actor_id c.action key) in
    let unequal : (r.request_hash == digest p input) ≡ false = ground arith in
    found_again p (sent_again c input authorize_replay) again key t r keyed
      (valid_after p c work key s out keyed first)
      (Operations-keep p out.store t scope r between there)
    ∙ rw unequal refl

-- The answer of an operation, with the receipt of what it did.
abbrev pub with_receipt : Platform → ℕ → ℕ → Performed → Performed
with_receipt p scope request_hash out = record out {
  store = record out.store {
    receipts = out.store.receipts ++ receipt_of p scope request_hash out.response ∷ [];
  };
}

-- Under a valid key that has no receipt yet an operation answers, emits and leaves what it does without
-- a key, errors included, and a receipt on top where it succeeds.
pub keyed-as_unkeyed :
    (p : Platform) (c : OperationCommand) (work : Db → Result (Committed Value)) (key : String)
    (s : Store)
    → valid_key (codes key) ≡ true
    → find_by (has_scope (digest p (scope_of c.actor_id c.action key))) s.receipts ≡ none
    → idempotent_operation p (record c { key = some key }) work s ≡ (
        idempotent_operation p (record c { key = none }) work s >>= λ out.
        ok (with_receipt p (digest p (scope_of c.actor_id c.action key)) (digest p c.input) out))
unfolding idempotent_operation act_once act
keyed-as_unkeyed p c work key s valid fresh =
    rw valid (rw fresh (sym (>>=-assoc (work s.db) (λ out. ok (performed s out)) _)))
