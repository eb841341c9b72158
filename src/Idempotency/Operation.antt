-- ===== src/Idempotency/Operation.antt =====
-- common/idempotency/idempotent-operation.ts: an operation that a client may send again under the key
-- it chose, and the receipts that make it act once. The advisory lock lets one operation of a scope
-- run at a time, so that an operation is one step of its scope.
use apag_be.Prelude.{
  ℕ, String, Bool, ◌&&◌, Option, none, some, List, [], ◌∷◌, ◌++◌, length, leb, ◌==◌,
}
use apag_be.Http.{Result, ok, bad_request, conflict, key_invalid, key_reused, require, ◌>>=◌, ◌>>◌}
use apag_be.Database.Rows.{Db, Notification, find_by}
use apag_be.Services.Submit.{Committed}
use apag_be.Idempotency.Values.{
  Value, array, scalar, string, item, no_items, Saved, Clock, save, restore,
}
use apag_be.Idempotency.Canonical.{Text, codes, canonical}

-- The dates of the language, and SHA-256 as the number that the digest writes.
pub record Platform : Type 0 where
  pub clock : Clock
  pub sha256 : Text → ℕ

pub record OperationReceipt : Type 0 where
  pub scope : ℕ
  pub request_hash : ℕ
  pub response : Saved

-- The tables, with those of the receipts.
pub record Store : Type 0 where
  pub db : Db
  pub receipts : List OperationReceipt

pub record OperationCommand : Type 0 where
  pub actor_id : String
  pub action : String
  pub key : Option String
  pub input : Value
  pub authorize_replay : Option (Db → Result (Unit {0}))

-- What the operation answers, emits after its commit, and leaves.
pub record Performed : Type 0 where
  pub response : Value
  pub emitted : List Notification
  pub store : Store

abbrev pub digest : Platform → Value → ℕ
digest p v = p.sha256 (canonical p.clock v)

-- `[command.actorId, command.action, command.key]`
abbrev pub scope_of : String → String → String → Value
scope_of actor_id action key = array (
    item (scalar (string actor_id))
      (item (scalar (string action)) (item (scalar (string key)) no_items)))

abbrev printable : Text → Bool
printable [] = Bool.true
printable (c ∷ cs) = (leb b'!' c && leb c b'~') && printable cs

-- `/^[!-~]{1,200}$/`
unfoldable pub valid_key : Text → Bool
valid_key cs = (leb 1 (length cs) && leb (length cs) 200) && printable cs

abbrev pub has_scope : ℕ → OperationReceipt → Bool
has_scope scope r = r.scope == scope

-- `command.authorizeReplay?.(tx)`
abbrev pub authorize : Option (Db → Result (Unit {0})) → Db → Result (Unit {0})
authorize none db = ok tt
authorize (some check) db = check db

abbrev pub performed : Store → Committed Value → Performed
performed s out = record {
  response = out.response;
  emitted = out.emitted;
  store = record s { db = out.db };
}

-- The answer of an operation that has acted before.
unfoldable pub replay :
    Platform → OperationCommand → ℕ → OperationReceipt → Store → Result Performed
replay p c request_hash r s = do
  require (r.request_hash == request_hash) (conflict key_reused)
  authorize c.authorize_replay s.db
  ok (record { response = restore p.clock r.response; emitted = []; store = s })

-- The operation acts, and its receipt is committed with what it does.
unfoldable pub act : Platform → ℕ → ℕ → (Db → Result (Committed Value)) → Store → Result Performed
act p scope request_hash work s = do
  out ← work s.db
  let receipt : OperationReceipt = record {
    scope = scope;
    request_hash = request_hash;
    response = save p.clock out.response;
  }
  ok (record {
    response = out.response;
    emitted = out.emitted;
    store = record { db = out.db; receipts = s.receipts ++ receipt ∷ [] };
  })

unfoldable pub act_once :
    Platform
    → OperationCommand
    → ℕ
    → (Db → Result (Committed Value))
    → Store
    → Option OperationReceipt
    → Result Performed
unfolding replay act
act_once p c scope work s (some r) = replay p c (digest p c.input) r s
act_once p c scope work s none = act p scope (digest p c.input) work s

abbrev pub with_key :
    Platform
    → OperationCommand
    → (Db → Result (Committed Value))
    → Store
    → Option String
    → Result Performed
with_key p c work s none = work s.db >>= λ out. ok (performed s out)
with_key p c work s (some key) = do
  require (valid_key (codes key)) (bad_request key_invalid)
  let scope = digest p (scope_of c.actor_id c.action key)
  act_once p c scope work s (find_by (has_scope scope) s.receipts)

unfoldable pub idempotent_operation :
    Platform → OperationCommand → (Db → Result (Committed Value)) → Store → Result Performed
idempotent_operation p c work s = with_key p c work s c.key
