-- ===== src/History/Batches.antt =====
-- Batches: the rows that a `where` has selected and that are then written one by one, in the order
-- of their ids.
use apag_be.Prelude.{
  ◌≡◌, sym, subst, Bool, Bool-cases, inl, inr, true, some, List, [], ◌∷◌, All, where_rows, arith,
  leb,
}
use apag_be.Http.{ok, ◌>>=◌, >>=-eq-ok}
use apag_be.Database.Rows.{EvaluationForm, Db, find_form}
use apag_be.Database.Write.{snapshot_of, write_evaluation, insert_by_id, sort_by_id}
use apag_be.Database.Laws.{All-selected}
use apag_be.Database.Evolution.{workflow, Valid, Grows, Stepped}
use apag_be.Database.Commit.{Sound, write-Stepped}

-- A form that was read in a status, or with confirmations, that the batch wants.
abbrev pub Ready : (EvaluationForm → Bool) → Db → EvaluationForm → Type 0
Ready ready s f = (find_form f.id s ≡ some f) × (ready f ≡ true)

-- The rows of a batch were selected by a test that implies what the batch wants.
pub record Picked (ready : EvaluationForm → Bool) (s : Db) (forms : List EvaluationForm)
    : Type 0 where
  pub where_clause : EvaluationForm → Bool
  pub selected : forms ≡ where_rows where_clause s.forms
  pub suits : (f : EvaluationForm) → where_clause f ≡ true → ready f ≡ true

pub All-imp {κ μ} :
    {P : EvaluationForm → Type κ} {Q : EvaluationForm → Type μ} (fs : List EvaluationForm)
    → ((f : EvaluationForm) → P f → Q f)
    → All P fs
    → All Q fs
All-imp [] h a = tt
All-imp (f ∷ fs) h a = (h f a.0, All-imp fs h a.1)

pub All-insert_by_id {κ} :
    (P : EvaluationForm → Type κ) (f : EvaluationForm) (fs : List EvaluationForm)
    → P f
    → All P fs
    → All P (insert_by_id f fs)
unfolding insert_by_id
All-insert_by_id P f [] p a = (p, tt)
All-insert_by_id P f (g ∷ gs) p a = elim (Bool-cases (leb f.id g.id)) [
  | inl e ↦ rw e (p, a)
  | inr e ↦ rw e (a.0, All-insert_by_id P f gs p a.1)
]

pub All-sort_by_id {κ} :
    (P : EvaluationForm → Type κ) (fs : List EvaluationForm) → All P fs → All P (sort_by_id fs)
unfolding sort_by_id
All-sort_by_id P [] a = tt
All-sort_by_id P (f ∷ fs) a = All-insert_by_id P f (sort_by_id fs) a.0 (All-sort_by_id P fs a.1)

-- In the order in which they are written, the rows of a batch are as they were read.
pub All-Picked :
    (ready : EvaluationForm → Bool) (s : Db) (forms : List EvaluationForm)
    → Valid s
    → Picked ready s forms
    → All (Ready ready s) (sort_by_id forms)
All-Picked ready s forms v p = All-sort_by_id (Ready ready s) forms (
    subst (All (Ready ready s)) (sym p.selected) (
      All-imp (where_rows p.where_clause s.forms) (λ f both. (both.0, p.suits f both.1))
        (All-selected p.where_clause s.forms v.unique)))

-- A body that only writes its form.
pub written_next-Stepped :
    {s b : Db} (f : EvaluationForm) (change : EvaluationForm → EvaluationForm) (c : Db)
    → find_form f.id s ≡ some f
    → Valid b
    → Grows s b
    → Sound workflow f change
    → (◌>>=◌ {B = Db} (write_evaluation (snapshot_of f) change b) λ (_, next). ok next) ≡ ok c
    → Stepped workflow b c
written_next-Stepped {s} {b} f change c found v grown sound h =
    let ((n, d), wrote, rest) = >>=-eq-ok (write_evaluation (snapshot_of f) change b) _ h in
    let same : d ≡ c = ground arith in
    subst (Stepped workflow b) same (write-Stepped found v grown sound wrote)
