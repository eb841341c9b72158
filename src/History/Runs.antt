-- ===== src/History/Runs.antt =====
-- Any number of commands, of any actors, with the check of one and its transaction apart, so that
-- others may commit between them.
use apag_be.Prelude.{
  ℕ, ◌≡◌, refl, sym, subst, inl, inr, ◌≢◌, ◌+◌, ◌↔◌, ◌==◌, Bool, true, false, some, arith,
  if◌then◌else◌,
}
use apag_be.Http.{ok, err, conflict, version_conflict}
use apag_be.Database.Write.{snapshot_of, write_evaluation}
use apag_be.Database.Laws.{UniqueIds, IsLatest, write_evaluation-Written}
use apag_be.Database.Conflicts.{write_evaluation-refused}
use apag_be.Policy.Access.{EvaluationActor}
use apag_be.Policy.Transition.{finalized}
use apag_be.Policy.Transition.Graph.{here}
use apag_be.Database.Rows.{EvaluationForm, Db, Env, find_form}
use apag_be.Database.Evolution.{
  Kind, workflow, reopening, Walked, Changed, Valid, Each, Grows, Grows-refl, Grows-trans,
  Grows-IsLatest, Stepped-Grows, join_changes,
}
use apag_be.History.Commands.{Command, Command-Stepped}

-- The kinds of command that a run has.
abbrev pub any_kind : Kind → Bool
any_kind k = true

abbrev pub no_reopening : Kind → Bool
no_reopening workflow = true
no_reopening reopening = false

-- `next`: up to `s`, where a command has read, then up to `b`, where its transaction begins.
pub data Run (allowed : Kind → Bool) : Db → Db → Type 0 where
  begin : {a : Db} → Run allowed a a
  next :
      {a : Db} (s b c : Db) (k : Kind) (env : Env) (actor : EvaluationActor)
      → Run allowed a s
      → Run allowed s b
      → allowed k ≡ true
      → Command env actor s b k c
      → Run allowed a c

Run-keeps : {allowed : Kind → Bool} (a c : Db) → Valid a → Run allowed a c → Valid c × Grows a c
Run-keeps a c v begin = (v, Grows-refl a)
Run-keeps a c v (next s b _ k env actor first others permitted cmd) =
    let (vs, up_to_s) = Run-keeps a s v first in
    let (vb, up_to_b) = Run-keeps s b vs others in
    let st = Command-Stepped env actor s b c k vs vb up_to_b cmd in
    (st.valid, Grows-trans up_to_s (Grows-trans up_to_b (Stepped-Grows st)))

-- From valid tables, whatever commands succeed, and however their checks and transactions are
-- interleaved, the tables stay valid: ids are unique, a student has one form for each semester, and
-- each form is as its status demands (a final score exactly when finalized, with the rank of that
-- score; a class score and both confirmations once the advisor has passed it on, none of them while it
-- is with the student; the student's total the one of its sections, the sections within the schema).
pub Run-Valid : (a c : Db) → Valid a → Run any_kind a c → Valid c
Run-Valid a c v r = let (valid, _) = Run-keeps a c v r in valid

-- A conditional write of a form that the tables have outgrown.
write-refused :
    (f : EvaluationForm) (change : EvaluationForm → EvaluationForm) (c : Db)
    → UniqueIds c.forms
    → IsLatest f c
    → (write_evaluation (snapshot_of f) change c ≡ err (conflict version_conflict))
      ↔ (find_form f.id c ≢ some f)
write-refused f change c unique latest =
    let (refused, refuses) = write_evaluation-refused (snapshot_of f) change c unique in
    (
      λ h same. refused h (f, same, refl),
      λ other. refuses (λ (x, found, version).
          other (subst (λ y. find_form f.id c ≡ some y) (latest x found version) found)),
    )

-- No update is lost: when a form has been read and any commands have run since, on tables that were
-- valid, a write that keeps the id and carries the version read is refused with a conflict exactly
-- when the stored row is no longer, in every column, the row that was read. A write that succeeds
-- changes that very row, to the columns of the write and the next version, and no other.
pub no_update_lost :
    (a c : Db) (f : EvaluationForm) (change : EvaluationForm → EvaluationForm)
    → Valid a
    → Run any_kind a c
    → find_form f.id a ≡ some f
    → ((x : EvaluationForm) → (change x).id ≡ x.id)
    → ((write_evaluation (snapshot_of f) change c ≡ err (conflict version_conflict))
        ↔ (find_form f.id c ≢ some f))
      × ((n : ℕ) (d : Db)
          → write_evaluation (snapshot_of f) change c ≡ ok (n, d)
          → (find_form f.id c ≡ some f)
            × ((j : ℕ)
                → find_form j d ≡ (
                    if j == f.id
                    then some (record (change f) { version = f.version + 1 })
                    else find_form j c)))
no_update_lost a c f change v r read keeps =
    let (valid, grows) = Run-keeps a c v r in
    let latest = Grows-IsLatest grows read in
    (
      write-refused f change c valid.unique latest,
      λ n d wrote.
          let w = write_evaluation-Written f change c valid.unique keeps latest wrote in
          (w.before, w.after),
    )

Run-changes : (a c : Db) → Valid a → Run no_reopening a c → Each (Changed workflow) a c
Run-changes a c v begin j f found = (f, found, inl refl)
Run-changes a c v (next s b _ reopening env actor first others permitted cmd) j f found = cc
Run-changes a c v (next s b _ workflow env actor first others permitted cmd) j f found =
    let (vs, _) = Run-keeps a s v first in
    let (vb, up_to_b) = Run-keeps s b vs others in
    let st = Command-Stepped env actor s b c workflow vs vb up_to_b cmd in
    let (g, at_s, how_s) = Run-changes a s v first j f found in
    let (h, at_b, how_b) = Run-changes s b vs others j g at_s in
    let (x, at_c, how_c) = st.each j h at_b in
    (x, at_c, join_changes (join_changes how_s how_b) how_c)

-- In a run from valid tables without a reopening a form is never lost, keeps its owner, class and
-- semester, and its status moves along edges of the workflow only,
-- one at a time: the form has at least one further version for each edge of its way.
pub status-moves-along :
    (a c : Db) (id : ℕ) (f : EvaluationForm)
    → Valid a
    → Run no_reopening a c
    → find_form id a ≡ some f
    → (g : EvaluationForm) × (find_form id c ≡ some g)
      × Walked f g
      × (g.student_id ≡ f.student_id)
      × (g.class_id ≡ f.class_id)
      × (g.semester_id ≡ f.semester_id)
status-moves-along a c id f v r found =
    let (g, at, how) = Run-changes a c v r id f found in
    elim how [
      | inl e ↦ (
        f,
        subst (λ x. find_form id c ≡ some x) (sym e) at,
        (here, omega arith),
        refl,
        refl,
        refl,
      )
      | inr ch ↦ (g, at, ch.life.0, ch.same_student, ch.same_class, ch.same_semester)
    ]

-- In a run from valid tables without a reopening a finalized form keeps every column but its version
-- and its lock.
pub finalized-stays :
    (a c : Db) (id : ℕ) (f : EvaluationForm)
    → Valid a
    → Run no_reopening a c
    → find_form id a ≡ some f
    → f.status ≡ finalized
    → (g : EvaluationForm) × (find_form id c ≡ some g)
      × (g ≡ record f { version = g.version; is_locked = g.is_locked })
finalized-stays a c id f v r found final =
    let (g, at, how) = Run-changes a c v r id f found in
    (g, at, elim how [ inl e ↦ unchanged e | inr ch ↦ ch.life.1 final ])
  where
    unchanged :
        {g : EvaluationForm} → f ≡ g → g ≡ record f { version = g.version; is_locked = g.is_locked }
    unchanged {g} e = ground arith
