-- ===== src/Database/Laws.antt =====
-- What a conditional write does to the table of forms, row by row.
use apag_be.Prelude.{
  All-combine, All-where_rows, where_rows, subst, ==_iff, ℕ, ◌+◌, ◌≡◌, refl, ◌≢◌, inl, inr, Bool,
  true, false, Option, none, some, List, [], ◌∷◌, arith, ◌==◌, Bool-cases, All, count_where,
  update_where, if◌then◌else◌,
}
use apag_be.Http.{Message, ok}
use apag_be.Database.Rows.{EvaluationForm, Db, find_by, has_id, find_form}
use apag_be.Database.Write.{
  EvaluationSnapshot, snapshot_of, is_current, next_version, write_evaluation, or_not_found,
}

-- The primary key: no two rows have one id.
abbrev pub UniqueIds : List EvaluationForm → Type 0
UniqueIds [] = Unit
UniqueIds (f ∷ fs) = All (λ g. f.id ≢ g.id) fs × UniqueIds fs

abbrev pub map_found :
    (EvaluationForm → EvaluationForm) → Option EvaluationForm → Option EvaluationForm
map_found g none = none
map_found g (some f) = some (g f)

-- An update that leaves ids alone is seen by each lookup on the row that it finds.
pub find-update_where :
    (id : ℕ) (p : EvaluationForm → Bool) (g : EvaluationForm → EvaluationForm)
    (fs : List EvaluationForm)
    → ((f : EvaluationForm) → (g f).id ≡ f.id)
    → find_by (has_id id) (update_where p g fs)
      ≡ map_found (λ f. if p f then g f else f) (find_by (has_id id) fs)
unfolding find_by
find-update_where id p g [] keeps = refl
find-update_where id p g (f ∷ fs) keeps = ground (arith, keeps f, find-update_where id p g fs keeps)

pub find-id :
    (id : ℕ) (fs : List EvaluationForm) {f : EvaluationForm}
    → find_by (has_id id) fs ≡ some f
    → f.id ≡ id
unfolding find_by
find-id id [] h = cc
find-id id (g ∷ fs) {f} h = ground (arith, find-id id fs {f = f})

All-ids :
    (id : ℕ) (p : EvaluationForm → Bool) (g : EvaluationForm → EvaluationForm)
    (fs : List EvaluationForm)
    → ((f : EvaluationForm) → (g f).id ≡ f.id)
    → All (λ f. id ≢ f.id) fs
    → All (λ f. id ≢ f.id) (update_where p g fs)
All-ids id p g [] keeps h = tt
All-ids id p g (f ∷ fs) keeps h = (ground (arith, keeps f, h.0), All-ids id p g fs keeps h.1)

pub update_where-UniqueIds :
    (p : EvaluationForm → Bool) (g : EvaluationForm → EvaluationForm) (fs : List EvaluationForm)
    → ((f : EvaluationForm) → (g f).id ≡ f.id)
    → UniqueIds fs
    → UniqueIds (update_where p g fs)
update_where-UniqueIds p g [] keeps h = tt
update_where-UniqueIds p g (f ∷ fs) keeps h = elim (Bool-cases (p f)) [
  | inl e ↦
      rw e (rw (keeps f) (All-ids f.id p g fs keeps h.0), update_where-UniqueIds p g fs keeps h.1)
  | inr e ↦ rw e (All-ids f.id p g fs keeps h.0, update_where-UniqueIds p g fs keeps h.1)
]

pub absent_count :
    (s : EvaluationSnapshot) (fs : List EvaluationForm)
    → All (λ f. s.id ≢ f.id) fs
    → count_where (is_current s) fs ≡ 0
absent_count s [] h = refl
absent_count s (f ∷ fs) h = ground (arith, absent_count s fs h.1, h.0)

-- A snapshot that one row matches is of the row that a lookup finds.
pub found_current :
    (s : EvaluationSnapshot) (fs : List EvaluationForm)
    → UniqueIds fs
    → count_where (is_current s) fs ≡ 1
    → (f : EvaluationForm) × (find_by (has_id s.id) fs ≡ some f) × (f.version ≡ s.version)
unfolding find_by
found_current s [] u h = absurd (omega arith)
found_current s (f ∷ fs) u h = elim (Bool-cases (f.id == s.id)) [
  | inl e ↦ (
    f,
    ground arith,
    ground
        (arith, absent_count s fs (subst (λ i. All (λ g. i ≢ g.id) fs) (==_iff f.id s.id e) u.0)),
  )
  | inr e ↦ let (g, found, same) = found_current s fs u.1 (ground arith) in (g, ground arith, same)
]

pub or_not_found-eq-ok {ℓ} :
    {A : Type ℓ} (m : Message) (o : Option A) {a : A} → or_not_found m o ≡ ok a → o ≡ some a
or_not_found-eq-ok m none h = cc
or_not_found-eq-ok m (some x) h = ground arith

-- A row that a search has found meets what it was searched by.
pub find_by-true {ℓ} :
    {A : Type ℓ} (p : A → Bool) (xs : List A) {x : A} → find_by p xs ≡ some x → p x ≡ true
unfolding find_by
find_by-true p [] h = cc
find_by-true p (y ∷ ys) {x} h = elim (Bool-cases (p y)) [
  | inl e ↦ ground arith
  | inr e ↦ find_by-true p ys {x = x} (ground arith)
]

All-find_by {κ} :
    (P : EvaluationForm → Type κ) (p : EvaluationForm → Bool) (fs : List EvaluationForm)
    {f : EvaluationForm}
    → All P fs
    → find_by p fs ≡ some f
    → P f
unfolding find_by
All-find_by P p [] a h = cc
All-find_by P p (g ∷ gs) {f} a h = elim (Bool-cases (p g)) [
  | inl e ↦ let same : g ≡ f = ground arith in subst P same a.0
  | inr e ↦ All-find_by P p gs {f = f} a.1 (ground arith)
]

-- However a row was found, the lookup by its id finds it again.
pub found_by_id :
    (p : EvaluationForm → Bool) (fs : List EvaluationForm) {f : EvaluationForm}
    → UniqueIds fs
    → find_by p fs ≡ some f
    → find_by (has_id f.id) fs ≡ some f
unfolding find_by
found_by_id p [] u h = cc
found_by_id p (g ∷ gs) {f} u h = elim (Bool-cases (p g)) [
  | inl e ↦
      let same : g ≡ f = ground arith in
      subst (λ x. find_by (has_id x.id) (g ∷ gs) ≡ some x) same (ground arith)
  | inr e ↦
      let later : find_by p gs ≡ some f = ground arith in
      let apart = All-find_by (λ x. g.id ≢ x.id) p gs {f = f} u.0 later in
      ground (arith, found_by_id p gs {f = f} u.1 later)
]

-- Each row that a `where` selects is found by its id, and meets the `where`.
pub All-selected :
    (p : EvaluationForm → Bool) (fs : List EvaluationForm)
    → UniqueIds fs
    → All (λ f. (find_by (has_id f.id) fs ≡ some f) × (p f ≡ true)) (where_rows p fs)
unfolding find_by
All-selected p [] u = tt
All-selected p (f ∷ fs) u =
    let later : All (λ x. (find_by (has_id x.id) (f ∷ fs) ≡ some x) × (p x ≡ true))
        (where_rows p fs) =
      All-combine (where_rows p fs) (λ x a b. (ground arith, a.1)) (All-selected p fs u.1)
        (All-where_rows (λ g. f.id ≢ g.id) p fs u.0) in
    elim (Bool-cases (p f)) [ inl e ↦ rw e ((ground arith, e), later) | inr e ↦ rw e later ]

-- The row `f` of `b` has become `g` in `c`, and no other row has changed.
pub record Written (b c : Db) (f g : EvaluationForm) : Type 0 where
  pub before : find_form f.id b ≡ some f
  pub after : (j : ℕ) → find_form j c ≡ (if j == f.id then some g else find_form j b)
  pub unique : UniqueIds c.forms

-- A stale row is told from the current one by its version alone.
abbrev pub IsLatest : EvaluationForm → Db → Type 0
IsLatest f b = (x : EvaluationForm) → find_form f.id b ≡ some x → x.version ≡ f.version → x ≡ f

updated_row :
    (f : EvaluationForm) (g : EvaluationForm → EvaluationForm) (b : Db)
    → ((x : EvaluationForm) → (g x).id ≡ x.id)
    → find_form f.id b ≡ some f
    → (j : ℕ)
    → find_by (has_id j) (update_where (is_current (snapshot_of f)) g b.forms)
      ≡ (if j == f.id then some (g f) else find_form j b)
updated_row f g b keeps found j =
    rw (find-update_where j (is_current (snapshot_of f)) g b.forms keeps)
      (elim (Bool-cases (j == f.id)) [
        | inl e ↦
            let at : find_form j b ≡ some f = rw (==_iff j f.id e) found in
            rw (at, e) (ground arith)
        | inr e ↦ rw e (other (find_form j b) refl e)
      ])
  where
    other :
        (o : Option EvaluationForm)
        → find_form j b ≡ o
        → j == f.id ≡ false
        → map_found (λ x. if is_current (snapshot_of f) x then g x else x) o ≡ o
    other none at e = refl
    other (some x) at e = ground (arith, find-id j b.forms {f = x} at)

-- Updating the rows that a snapshot of the latest row matches.
pub updated-Written :
    (f : EvaluationForm) (g : EvaluationForm → EvaluationForm) (b : Db)
    → UniqueIds b.forms
    → ((x : EvaluationForm) → (g x).id ≡ x.id)
    → IsLatest f b
    → count_where (is_current (snapshot_of f)) b.forms ≡ 1
    → Written b (record b { forms = update_where (is_current (snapshot_of f)) g b.forms }) f (g f)
updated-Written f g b u keeps latest one =
    let (x, found, same) = found_current (snapshot_of f) b.forms u one in
    let found_f : find_form f.id b ≡ some f = rw (latest x found same) at found in
    record {
      before = found_f;
      after = updated_row f g b keeps found_f;
      unique = update_where-UniqueIds (is_current (snapshot_of f)) g b.forms keeps u;
    }

-- What a write that succeeded says.
write_evaluation-forms :
    (s : EvaluationSnapshot) (change : EvaluationForm → EvaluationForm) (b : Db) {v : ℕ} {c : Db}
    → write_evaluation s change b ≡ ok (v, c)
    → (count_where (is_current s) b.forms ≡ 1)
      × (c ≡ record b { forms = update_where (is_current s) (next_version change) b.forms })
      × (v ≡ s.version + 1)
unfolding write_evaluation
write_evaluation-forms s change b h = ground arith

pub write_evaluation-version :
    (s : EvaluationSnapshot) (change : EvaluationForm → EvaluationForm) (b : Db) {v : ℕ} {c : Db}
    → write_evaluation s change b ≡ ok (v, c)
    → v ≡ s.version + 1
write_evaluation-version s change b h =
    let (_, _, version) = write_evaluation-forms s change b h in version

pub write_evaluation-Written :
    (f : EvaluationForm) (change : EvaluationForm → EvaluationForm) (b : Db) {v : ℕ} {c : Db}
    → UniqueIds b.forms
    → ((x : EvaluationForm) → (change x).id ≡ x.id)
    → IsLatest f b
    → write_evaluation (snapshot_of f) change b ≡ ok (v, c)
    → Written b c f (next_version change f)
write_evaluation-Written f change b u keeps latest h =
    let (one, out, _) = write_evaluation-forms (snapshot_of f) change b h in
    rw out (updated-Written f (next_version change) b u keeps latest one)
