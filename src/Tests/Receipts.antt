-- ===== src/Tests/Receipts.antt =====
-- Operations under keys, on concrete tables.
use apag_be.Prelude.{
  ℕ, zero, suc, ◌+◌, ◌*◌, arith, String, ◌≡◌, refl, ap, ◌≢◌, true, none, some, [], ◌∷◌,
}
use apag_be.Http.{Result, ok, err, conflict, key_reused, ◌>>=◌}
use apag_be.Policy.Access.{assert_role, can_edit}
use apag_be.Database.Rows.{find_by, Db}
use apag_be.Services.Submit.{Committed, submit_command}
use apag_be.Services.Query.{FormAction, assert_form_access}
use apag_be.Services.Keyed.{Wire, submit_operation, submit}
use apag_be.Idempotency.Values.{
  Value, undefined, date, array, object, scalar, number, boolean, null, item, no_items, field,
  no_fields, Clock, save, restore, ReadsIso, restore-save,
}
use apag_be.Idempotency.Canonical.{
  Text, canonical, codes, escape, escapes, join, digits, insert_entry, sort_entries, leq,
}
use apag_be.Idempotency.Alike.{Alike, AlikeFields, swapped, in_object, same, left_out, after}
use apag_be.Idempotency.Operation.{
  Platform, Store, OperationCommand, Performed, digest, scope_of, valid_key, act, act_once,
  idempotent_operation,
}
use apag_be.Idempotency.Replays.{idle}
use apag_be.Idempotency.Retrying.{retried, retried-as_once}
use apag_be.Idempotency.Once.{sent_again, operation-once, operation-reused, with_receipt}
use apag_be.Idempotency.Scopes.{scope-injective}
use apag_be.Idempotency.Resending.{submit-once}
use apag_be.Tests.Histories.{handed_in, handed_in_rows, submit_allowed, submit_done}
use apag_be.Tests.Data.{table_of, world, the_student, drafted}

strokes : ℕ → String
strokes zero = String.[]
strokes (suc n) = String.◌∷◌ "I" (strokes n)

stroke_count : String → ℕ
stroke_count String.[] = 0
stroke_count (String.◌∷◌ c s) = suc (stroke_count s)

-- Dates as strokes.
abbrev tally : Clock
tally = record { to_iso_string = strokes; new_date = stroke_count }

tally-ReadsIso : ReadsIso tally
unfolding strokes stroke_count
tally-ReadsIso zero = refl
tally-ReadsIso (suc n) = ap suc (tally-ReadsIso n)

-- { submittedAt: Date, note: undefined, scores: [90, true, null] }
abbrev response : Value
response = object (
    field "submittedAt" (date 3) (
      field "note" undefined (
        field "scores"
          (array (
            item (scalar (number 90)) (item (scalar (boolean true)) (item (scalar null) no_items))))
          no_fields)))

restore-save_example : restore tally (save tally response) ≡ response
restore-save_example = restore-save tally response tally-ReadsIso

scope_text_a : canonical tally (scope_of "u1" "submit" "k") ≡ codes "[\"u1\",\"submit\",\"k\"]"
unfolding canonical escape escapes join
scope_text_a = refl

abbrev quoted_name : String
quoted_name = "u\"1"

scope-injective_example :
    (quoted_name ≡ quoted_name) × (◌≡◌ {A = String} "submit" "submit") × (◌≡◌ {A = String} "k" "k")
scope-injective_example =
    scope-injective tally quoted_name "submit" "k" quoted_name "submit" "k" refl

horner : Text → ℕ
horner [] = 0
horner (c ∷ cs) = c + 1_114_112 * horner cs

abbrev machine : Platform
machine = record { clock = tally; sha256 = horner }

-- { a: 1, b: undefined } and { b: undefined, a: 1 }, which is also {} with entries put in.
abbrev input : Value
input = object (field "a" (scalar (number 1)) (field "b" (scalar null) no_fields))

abbrev reordered : Value
reordered =
    object (field "b" (scalar null) (field "c" undefined (field "a" (scalar (number 1)) no_fields)))

reordered-Alike : Alike reordered input
reordered-Alike = in_object (after (AlikeFields.one_entry same left_out) (swapped b_not_a))
  where
    b_not_a : codes "b" ≢ codes "a"
    b_not_a = ground arith

abbrev command : OperationCommand
command = record {
  actor_id = "u1";
  action = "submit";
  key = some "k";
  input = input;
  authorize_replay = none;
}

-- It empties the table of forms.
abbrev clearing : Db → Result (Committed Value)
clearing db = ok (record { response = response; emitted = []; db = record db { forms = [] } })

abbrev start : Store
start = record { db = table_of (drafted ∷ []); receipts = [] }

abbrev cleared : Performed
cleared =
    with_receipt machine (digest machine (scope_of "u1" "submit" "k")) (digest machine input)
      (record {
        response = response;
        emitted = [];
        store = record { db = table_of []; receipts = [] };
      })

first_time : idempotent_operation machine command clearing start ≡ ok cleared
unfolding idempotent_operation act_once act valid_key find_by
first_time = refl

operation-once_example :
    idempotent_operation machine (sent_again command reordered none) clearing cleared.store
    ≡ ok (record { response = response; emitted = []; store = cleared.store })
operation-once_example =
    operation-once machine command clearing clearing "k" start cleared.store cleared reordered none
      tally-ReadsIso refl first_time idle reordered-Alike refl

abbrev other_input : Value
other_input = object (field "a" (scalar (number 2)) no_fields)

other_digest : digest machine other_input ≢ digest machine input
unfolding horner canonical escape escapes join digits insert_entry sort_entries leq
other_digest = ground arith

operation-reused_example :
    idempotent_operation machine (sent_again command other_input none) clearing cleared.store
    ≡ err (conflict key_reused)
operation-reused_example =
    operation-reused machine command clearing clearing "k" start cleared.store cleared other_input
      none tally-ReadsIso refl first_time idle other_digest

retried-as_once_example :
    (idempotent_operation machine command clearing start >>= retried machine command clearing 3) ≡ (
      idempotent_operation machine (record command { key = none }) clearing start >>= λ out. ok (
        with_receipt machine
          (digest machine (scope_of "u1" "submit" "k"))
          (digest machine input)
          out))
retried-as_once_example =
    retried-as_once machine command clearing "k" start 3 tally-ReadsIso refl
      (unfold valid_key in refl) (unfold find_by in refl) (λ out h. refl)

abbrev wire : Wire
wire = record {
  id_text = strokes;
  score_summary = λ f. object (field "version" (scalar (number f.version)) no_fields);
}

abbrev once_submitted : Performed
once_submitted =
    with_receipt machine (digest machine (scope_of (strokes 1) "submit" "k"))
      (digest machine ((submit_operation wire the_student 100 (some "k") (some 0)).input))
      (record {
        response = wire.score_summary handed_in;
        emitted = [];
        store = record { db = handed_in_rows.db; receipts = [] };
      })

submitted_once :
    submit machine wire world the_student 100 (some "k") (some 0) start ≡ ok once_submitted
unfolding submit assert_role idempotent_operation act_once act valid_key find_by submit_command
submitted_once = rw submit_allowed (rw submit_done refl)

still_editable : assert_form_access the_student 100 FormAction.edit handed_in_rows.db ≡ ok tt
unfolding assert_form_access assert_role can_edit find_by
still_editable = refl

submit-once_example :
    submit machine wire
      (record world { now = 2000 })
      the_student
      100
      (some "k")
      (some 0)
      once_submitted.store
    ≡ ok (record {
      response = wire.score_summary handed_in;
      emitted = [];
      store = once_submitted.store;
    })
submit-once_example =
    submit-once machine wire world (record world { now = 2000 }) the_student 100 "k" (some 0) start
      once_submitted.store once_submitted tally-ReadsIso submitted_once idle still_editable
