-- ===== src/Database/Conflicts.antt =====
-- When a conditional write is refused.
use apag_be.Prelude.{
  ◌≡◌, ◌≢◌, subst, inl, inr, ◌↔◌, Bool-cases, ◌==◌, ==_iff, some, List, [], ◌∷◌, All, arith,
  count_where,
}
use apag_be.Http.{err, conflict, version_conflict}
use apag_be.Database.Rows.{EvaluationForm, Db, find_by, has_id}
use apag_be.Database.Write.{
  EvaluationSnapshot, is_current, write_evaluation, assert_evaluation_updated,
}
use apag_be.Database.Laws.{UniqueIds, absent_count, found_current}

-- A row with the id and the version of the snapshot.
abbrev pub Current : EvaluationSnapshot → List EvaluationForm → Type 0
Current s fs = (f : EvaluationForm) × (find_by (has_id s.id) fs ≡ some f) × (f.version ≡ s.version)

pub Current-count :
    (s : EvaluationSnapshot) (fs : List EvaluationForm)
    → UniqueIds fs
    → Current s fs
    → count_where (is_current s) fs ≡ 1
unfolding find_by
Current-count s [] u (f, found, same) = cc
Current-count s (g ∷ gs) u (f, found, same) = elim (Bool-cases (g.id == s.id)) [
  | inl e ↦
      let none_later =
        absent_count s gs (subst (λ i. All (λ x. i ≢ x.id) gs) (==_iff g.id s.id e) u.0) in
      let is_f : g ≡ f = ground arith in ground arith
  | inr e ↦
      let later : find_by (has_id s.id) gs ≡ some f = ground arith in
      ground (arith, Current-count s gs u.1 (f, later, same))
]

refused_count :
    (s : EvaluationSnapshot) (change : EvaluationForm → EvaluationForm) (b : Db)
    → (write_evaluation s change b ≡ err (conflict version_conflict))
      ↔ (count_where (is_current s) b.forms ≢ 1)
unfolding write_evaluation assert_evaluation_updated
refused_count s change b = (λ h. ground arith, λ h. ground arith)

-- With unique ids a conditional write is refused with a version conflict exactly when no row has the
-- id and the version that it was read with.
pub write_evaluation-refused :
    (s : EvaluationSnapshot) (change : EvaluationForm → EvaluationForm) (b : Db)
    → UniqueIds b.forms
    → (write_evaluation s change b ≡ err (conflict version_conflict)) ↔ (¬ Current s b.forms)
write_evaluation-refused s change b u =
    let (fails, succeeds) = refused_count s change b in
    (
      λ h current. fails h (Current-count s b.forms u current),
      λ no. succeeds (λ one. no (found_current s b.forms u one)),
    )
