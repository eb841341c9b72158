-- ===== src/Idempotency/Replays.antt =====
-- Operations that are sent again.
use apag_be.Prelude.{
  ℕ, String, ◌≡◌, refl, sym, ◌∙◌, ap, subst, inl, inr, Bool, true, ◌==◌, ==_refl, Option,
  Option-cases, none, some, List, [], ◌∷◌, ◌++◌, arith,
}
use apag_be.Http.{Result, ok, conflict, key_reused, require, >>-eq-ok, >>=-eq-ok}
use apag_be.Database.Rows.{Db, find_by}
use apag_be.Services.Submit.{Committed}
use apag_be.Idempotency.Values.{Value, save, restore, restore-save, ReadsIso}
use apag_be.Idempotency.Canonical.{codes}
use apag_be.Idempotency.Operation.{
  Platform, OperationReceipt, Store, OperationCommand, Performed, digest, scope_of, valid_key,
  has_scope, authorize, replay, act, act_once, with_key, idempotent_operation,
}

-- Any number of operations, of any actors and with any work, that have committed one after another.
pub data Operations (p : Platform) : Store → Store → Type 0 where
  idle : {s : Store} → Operations p s s
  next :
      {s : Store} (t : Store) (c : OperationCommand) (work : Db → Result (Committed Value))
      (out : Performed)
      → Operations p s t
      → idempotent_operation p c work t ≡ ok out
      → Operations p s out.store

find_by-append {ℓ} :
    {A : Type ℓ} (test : A → Bool) (xs ys : List A) {x : A}
    → find_by test xs ≡ some x
    → find_by test (xs ++ ys) ≡ some x
unfolding find_by
find_by-append test [] ys h = cc
find_by-append test (y ∷ xs) ys {x} h = ground (arith, find_by-append test xs ys {x = x})

find_by-last {ℓ} :
    {A : Type ℓ} (test : A → Bool) (xs : List A) (x : A)
    → find_by test xs ≡ none
    → test x ≡ true
    → find_by test (xs ++ x ∷ []) ≡ some x
unfolding find_by
find_by-last test [] x h found = rw found refl
find_by-last test (y ∷ xs) x h found = ground (arith, find_by-last test xs x)

abbrev pub receipt_of : Platform → ℕ → ℕ → Value → OperationReceipt
receipt_of p scope request_hash v = record {
  scope = scope;
  request_hash = request_hash;
  response = save p.clock v;
}

act-stores :
    (p : Platform) (scope request_hash : ℕ) (work : Db → Result (Committed Value)) (s : Store)
    (out : Performed)
    → act p scope request_hash work s ≡ ok out
    → out.store.receipts ≡ s.receipts ++ receipt_of p scope request_hash out.response ∷ []
unfolding act
act-stores p scope request_hash work s out h =
    let (o, worked, e) = >>=-eq-ok (work s.db) _ h in ground arith

replay-answers :
    (p : Platform) (c : OperationCommand) (request_hash : ℕ) (r : OperationReceipt) (s : Store)
    (out : Performed)
    → replay p c request_hash r s ≡ ok out
    → (r.request_hash ≡ request_hash)
      × (out.store ≡ s)
      × (restore p.clock r.response ≡ out.response)
unfolding replay
replay-answers p c request_hash r s out h =
    let (same, h1) =
      >>-eq-ok (require (r.request_hash == request_hash) (conflict key_reused)) _ h in
    let (_, e) = >>-eq-ok (authorize c.authorize_replay s.db) _ h1 in
    (ground arith, ground arith, ground arith)

-- Whether an operation acts or is replayed, its receipt is there afterwards.
unfoldable pub Recorded : Platform → OperationCommand → String → Performed → Type 0
Recorded p c key out =
    (r : OperationReceipt) × (find_by (has_scope (digest p (scope_of c.actor_id c.action key)))
        out.store.receipts
      ≡ some r)
    × (r.request_hash ≡ digest p c.input)
    × (restore p.clock r.response ≡ out.response)

act_once-Recorded :
    (p : Platform) (c : OperationCommand) (key : String) (work : Db → Result (Committed Value))
    (s : Store) (out : Performed)
    → ReadsIso p.clock
    → let scope = digest p (scope_of c.actor_id c.action key) in
      act_once p c scope work s (find_by (has_scope scope) s.receipts) ≡ ok out
      → Recorded p c key out
unfolding act_once Recorded
act_once-Recorded p c key work s out reads h =
    let scope = digest p (scope_of c.actor_id c.action key) in
    let hash = digest p c.input in
    elim (Option-cases (find_by (has_scope scope) s.receipts)) [
      | inl fresh ↦
          let stores = act-stores p scope hash work s out (rw fresh at h) in
          (
            receipt_of p scope hash out.response,
            subst (λ rs. find_by (has_scope scope) rs ≡ some (receipt_of p scope hash out.response))
                (sym stores)
                (find_by-last (has_scope scope) s.receipts (receipt_of p scope hash out.response)
                  fresh (==_refl scope)),
            refl,
            restore-save p.clock out.response reads,
          )
      | inr (r, there) ↦
          let (same, still, answer) = replay-answers p c hash r s out (rw there at h) in
          (
            r,
            subst (λ t. find_by (has_scope scope) t.receipts ≡ some r) (sym still) there,
            same,
            answer,
          )
    ]

-- The operation, its key being known.
pub operation-key :
    (p : Platform) (c : OperationCommand) (work : Db → Result (Committed Value)) (s : Store)
    {o : Option String}
    → c.key ≡ o
    → idempotent_operation p c work s ≡ with_key p c work s o
unfolding idempotent_operation
operation-key p c work s keyed = ap (with_key p c work s) keyed

pub Recorded-lem :
    (p : Platform) (c : OperationCommand) (key : String) (work : Db → Result (Committed Value))
    (s : Store) (out : Performed)
    → ReadsIso p.clock
    → c.key ≡ some key
    → idempotent_operation p c work s ≡ ok out
    → Recorded p c key out
Recorded-lem p c key work s out reads keyed h =
    let (valid, acted) =
      >>-eq-ok (require (valid_key (codes key)) _) _ (sym (operation-key p c work s keyed) ∙ h) in
    act_once-Recorded p c key work s out reads acted

-- No operation takes a receipt away.
act_once-keeps :
    (p : Platform) (c : OperationCommand) (scope : ℕ) (work : Db → Result (Committed Value))
    (s : Store) (o : Option OperationReceipt) (out : Performed) (other : ℕ) (r : OperationReceipt)
    → act_once p c scope work s o ≡ ok out
    → find_by (has_scope other) s.receipts ≡ some r
    → find_by (has_scope other) out.store.receipts ≡ some r
unfolding act_once
act_once-keeps p c scope work s none out other r h found =
    let stores = act-stores p scope (digest p c.input) work s out h in
    subst (λ rs. find_by (has_scope other) rs ≡ some r) (sym stores)
      (find_by-append (has_scope other) s.receipts _ {x = r} found)
act_once-keeps p c scope work s (some q) out other r h found =
    let (_, still, _) = replay-answers p c (digest p c.input) q s out h in
    subst (λ t. find_by (has_scope other) t.receipts ≡ some r) (sym still) found

operation-keeps :
    (p : Platform) (c : OperationCommand) (work : Db → Result (Committed Value)) (s : Store)
    (out : Performed) (other : ℕ) (r : OperationReceipt)
    → idempotent_operation p c work s ≡ ok out
    → find_by (has_scope other) s.receipts ≡ some r
    → find_by (has_scope other) out.store.receipts ≡ some r
operation-keeps p c work s out other r h found = elim (Option-cases c.key) [
  | inl none_given ↦
      let (o, worked, e) =
        >>=-eq-ok (work s.db) _ (sym (operation-key p c work s none_given) ∙ h) in
      let same : s.receipts ≡ out.store.receipts = ground arith in
      subst (λ rs. find_by (has_scope other) rs ≡ some r) same found
  | inr (key, given) ↦
      let (valid, acted) =
        >>-eq-ok (require (valid_key (codes key)) _) _ (sym (operation-key p c work s given) ∙ h) in
      act_once-keeps p c (digest p (scope_of c.actor_id c.action key)) work s
        (find_by (has_scope (digest p (scope_of c.actor_id c.action key))) s.receipts) out other r
        acted found
]

pub Operations-keep :
    (p : Platform) (s t : Store) (scope : ℕ) (r : OperationReceipt)
    → Operations p s t
    → find_by (has_scope scope) s.receipts ≡ some r
    → find_by (has_scope scope) t.receipts ≡ some r
Operations-keep p s _ scope r idle found = found
Operations-keep p s _ scope r (next t c work out before h) found =
    operation-keeps p c work t out scope r h (Operations-keep p s t scope r before found)
