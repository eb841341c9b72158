-- ===== src/Database/Write.antt =====
-- application/evaluation-concurrency.ts and notifications/create-notification-once.ts.
use apag_be.Prelude.{
  ℕ, ◌+◌, Bool, false, not, ◌&&◌, ◌||◌, Option, none, some, List, [], ◌∷◌, ◌++◌, ◌==◌, is_some, any,
  length, leb, count_where, update_where, if◌then◌else◌,
}
use apag_be.Http.{
  Result, ok, err, conflict, not_found, Message, version_conflict, selection_changed,
  form_not_found, require, ◌>>=◌, ◌>>◌,
}
use apag_be.Database.Rows.{EvaluationForm, Db, Env, Event, Content, Notification, find_form}

pub record EvaluationSnapshot : Type 0 where
  pub id : ℕ
  pub version : ℕ

abbrev pub snapshot_of : EvaluationForm → EvaluationSnapshot
snapshot_of f = record { id = f.id; version = f.version }

unfoldable pub assert_evaluation_updated : ℕ → Result (Unit {0})
assert_evaluation_updated count = require (count == 1) (conflict version_conflict)

abbrev pub is_current : EvaluationSnapshot → EvaluationForm → Bool
is_current s f = f.id == s.id && f.version == s.version

-- `{ ...data, version: { increment: 1 } }`
abbrev pub next_version : (EvaluationForm → EvaluationForm) → EvaluationForm → EvaluationForm
next_version change f = record (change f) { version = f.version + 1 }

-- `data` is the change of the row's other columns.
unfoldable pub write_evaluation :
    EvaluationSnapshot → (EvaluationForm → EvaluationForm) → Db → Result (ℕ × Db)
unfolding assert_evaluation_updated
write_evaluation s change db = do
  assert_evaluation_updated (count_where (is_current s) db.forms)
  ok (
    s.version + 1,
    record db { forms = update_where (is_current s) (next_version change) db.forms },
  )

abbrev pub or_not_found {ℓ} : {A : Type ℓ} → Message → Option A → Result A
or_not_found m none = err (not_found m)
or_not_found m (some a) = ok a

unfoldable pub write_evaluation_and_read :
    EvaluationSnapshot → (EvaluationForm → EvaluationForm) → Db → Result (EvaluationForm × Db)
write_evaluation_and_read s change db = do
  (_, written) ← write_evaluation s change db
  row ← or_not_found form_not_found (find_form s.id written)
  ok (row, written)

-- `expectedVersion !== undefined && snapshot.version !== expectedVersion`
abbrev stale : Option ℕ → ℕ → Bool
stale none version = false
stale (some expected) version = not (version == expected)

unfoldable pub assert_expected_evaluation_version :
    EvaluationSnapshot → Option ℕ → Result (Unit {0})
assert_expected_evaluation_version s expected =
    require (not (stale expected s.version)) (conflict version_conflict)

-- A JavaScript `Map` from ids to versions: a later entry overwrites in place.
unfoldable pub map_set : ℕ → ℕ → List EvaluationSnapshot → List EvaluationSnapshot
map_set id version [] = record { id = id; version = version } ∷ []
map_set id version (e ∷ es) =
    let rest = map_set id version es in
    if e.id == id then record { id = id; version = version } ∷ es else e ∷ rest

unfoldable pub map_get : ℕ → List EvaluationSnapshot → Option ℕ
map_get id [] = none
map_get id (e ∷ es) = let rest = map_get id es in if e.id == id then some e.version else rest

-- `new Map(entries)`, from the entries set so far.
unfoldable pub map_from :
    List EvaluationSnapshot → List EvaluationSnapshot → List EvaluationSnapshot
map_from acc [] = acc
map_from acc (e ∷ es) = map_from (map_set e.id e.version acc) es

-- The loop over the snapshots.
unfoldable pub check_snapshots :
    List EvaluationSnapshot → List EvaluationSnapshot → Result (Unit {0})
unfolding assert_expected_evaluation_version
check_snapshots versions [] = ok tt
check_snapshots versions (s ∷ ss) =
    let rest = check_snapshots versions ss in
    require (is_some (map_get s.id versions)) (conflict version_conflict)
    >> (assert_expected_evaluation_version s (map_get s.id versions) >> rest)

abbrev selection_mismatch :
    List EvaluationSnapshot → List ℕ → List EvaluationSnapshot → List EvaluationSnapshot → Bool
selection_mismatch snapshots selected_ids expected versions =
    not (length versions == length expected)
    || not (length versions == length selected_ids)
    || not (length snapshots == length selected_ids)
    || any (λ id. not (is_some (map_get id versions))) selected_ids

abbrev check_selection :
    List EvaluationSnapshot
    → List ℕ
    → List EvaluationSnapshot
    → List EvaluationSnapshot
    → Result (Unit {0})
check_selection snapshots selected_ids expected versions = do
  require (not (selection_mismatch snapshots selected_ids expected versions))
      (conflict selection_changed)
  check_snapshots versions snapshots

unfoldable pub assert_expected_evaluation_versions :
    List EvaluationSnapshot → List ℕ → Option (List EvaluationSnapshot) → Result (Unit {0})
assert_expected_evaluation_versions snapshots selected_ids none = ok tt
assert_expected_evaluation_versions snapshots selected_ids (some expected) =
    check_selection snapshots selected_ids expected (map_from [] expected)

-- `INSERT … ON CONFLICT DO NOTHING`: `none` if the key is there already.
unfoldable pub create_notification_once :
    Env → ℕ → Content → Event → List Notification → Option Notification × List Notification
create_notification_once env user_id content event table =
    let key = env.digest user_id event in
    let row : Notification = record { dedupe_key = key; user_id = user_id; content = content } in
    if any (λ n. n.dedupe_key == key) table then (none, table) else (some row, table ++ row ∷ [])

-- `for (const f of fs) await body(f)` in a transaction: the first throw ends it.
unfoldable pub for_each {ℓ} : {A : Type ℓ} → (A → Db → Result Db) → List A → Db → Result Db
for_each body [] db = ok db
for_each body (x ∷ xs) db = do next ← body x db; for_each body xs next

-- `[...rows].sort((a, b) => a.id.localeCompare(b.id))`: on UUIDs in their standard lower-case text
-- that is the order of the numbers; the sort is stable.
unfoldable pub insert_by_id : EvaluationForm → List EvaluationForm → List EvaluationForm
insert_by_id f [] = f ∷ []
insert_by_id f (g ∷ gs) =
    let rest = insert_by_id f gs in if leb f.id g.id then f ∷ g ∷ gs else g ∷ rest

unfoldable pub sort_by_id : List EvaluationForm → List EvaluationForm
unfolding insert_by_id
sort_by_id [] = []
sort_by_id (f ∷ fs) = insert_by_id f (sort_by_id fs)
