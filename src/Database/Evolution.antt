-- ===== src/Database/Evolution.antt =====
-- How the tables may change: what one command does to each form, and what any number of them do.
use apag_be.Prelude.{
  ap, subst, ℕ, ◌+◌, ◌≤◌, ◌<◌, ◌≡◌, refl, sym, ◌∙◌, ◌⊎◌, inl, inr, Option, some, List, [], ◌∷◌,
  arith, ◌==◌, ==_iff, Bool-cases, All, if◌then◌else◌,
}
use apag_be.Http.{Result, ok, >>=-eq-ok}
use apag_be.Policy.Transition.{draft, finalized}
use apag_be.Policy.Transition.Graph.{◌⟶*◌, steps, ⟶*-trans, steps_trans}
use apag_be.Database.Rows.{EvaluationForm, Db, find_form}
use apag_be.Database.Write.{for_each}
use apag_be.Database.Laws.{UniqueIds, Written, IsLatest}
use apag_be.Database.Audit.{Audit}

pub data Kind : Type 0 where
  workflow reopening : Kind

-- The status has moved along the workflow, with a version for each edge at the least.
abbrev pub Walked : EvaluationForm → EvaluationForm → Type 0
Walked f g = (p : f.status ⟶* g.status) × (f.version + steps p ≤ g.version)

Walked-trans : (f g h : EvaluationForm) → Walked f g → Walked g h → Walked f h
Walked-trans f g h (p, few) (q, fewer) = (⟶*-trans p q, omega (arith, steps_trans p q))

-- A finalized form stays as it is, up to its version and its lock.
abbrev pub Frozen : EvaluationForm → EvaluationForm → Type 0
Frozen f g = f.status ≡ finalized → g ≡ record f { version = g.version; is_locked = g.is_locked }

abbrev pub Life : Kind → EvaluationForm → EvaluationForm → Type 0
Life workflow f g = Walked f g × Frozen f g
Life reopening f g = g.status ≡ draft

pub record Changed (k : Kind) (f g : EvaluationForm) : Type 0 where
  pub newer : f.version < g.version
  pub same_id : g.id ≡ f.id
  pub same_student : g.student_id ≡ f.student_id
  pub same_class : g.class_id ≡ f.class_id
  pub same_semester : g.semester_id ≡ f.semester_id
  pub life : Life k f g

-- A student has one form for each semester.
abbrev pub OnePerSemester : Db → Type 0
OnePerSemester b =
    (i j : ℕ) (f g : EvaluationForm)
    → find_form i b ≡ some f
    → find_form j b ≡ some g
    → f.student_id ≡ g.student_id
    → f.semester_id ≡ g.semester_id
    → i ≡ j

pub record Valid (b : Db) : Type 0 where
  pub unique : UniqueIds b.forms
  pub audited : (j : ℕ) (f : EvaluationForm) → find_form j b ≡ some f → Audit f
  pub one_per_semester : OnePerSemester b

-- What has become of each form: it is as it was, or has changed as `R` allows.
abbrev pub Each : (EvaluationForm → EvaluationForm → Type 0) → Db → Db → Type 0
Each R b c =
    (j : ℕ) (f : EvaluationForm)
    → find_form j b ≡ some f
    → (g : EvaluationForm) × (find_form j c ≡ some g) × ((f ≡ g) ⊎ R f g)

-- One command: every form is kept or changed as its kind allows, and the tables stay valid.
pub record Stepped (k : Kind) (b c : Db) : Type 0 where
  pub each : Each (Changed k) b c
  pub valid : Valid c

-- Any number of commands: no form is lost, and whatever changed has a higher version.
pub record Grows (s b : Db) : Type 0 where
  pub each : Each (λ f g. f.version < g.version) s b

pub Grows-refl : (s : Db) → Grows s s
Grows-refl s = record { each = λ j f found. (f, found, inl refl) }

pub Stepped-Grows : {k : Kind} {b c : Db} → Stepped k b c → Grows b c
Stepped-Grows st = record {
  each = λ j f found.
      let (g, found', how) = st.each j f found in
      (g, found', elim how [ inl e ↦ inl e | inr ch ↦ inr ch.newer ]);
}

newer_trans :
    {f g h : EvaluationForm}
    → (f ≡ g) ⊎ (f.version < g.version)
    → (g ≡ h) ⊎ (g.version < h.version)
    → (f ≡ h) ⊎ (f.version < h.version)
newer_trans p q = ground arith

pub Grows-trans : {s b c : Db} → Grows s b → Grows b c → Grows s c
Grows-trans p q = record {
  each = λ j f found.
      let (g, found', first) = p.each j f found in
      let (h, found'', second) = q.each j g found' in (h, found'', newer_trans first second);
}

-- A form whose version is the one that was seen is the form that was seen.
pub Grows-IsLatest :
    {s b : Db} {f : EvaluationForm} → Grows s b → find_form f.id s ≡ some f → IsLatest f b
Grows-IsLatest {f} p found x at same = let (g, found', how) = p.each f.id f found in ground arith

frozen : (f g h : EvaluationForm) → Frozen f g → Frozen g h → Frozen f h
frozen f g h p q e =
    q (ap (λ (x : EvaluationForm). x.status) (p e) ∙ e)
    ∙ ap (λ (x : EvaluationForm). record x { version = h.version; is_locked = h.is_locked }) (p e)

Changed-trans :
    {f g h : EvaluationForm} → Changed workflow f g → Changed workflow g h → Changed workflow f h
Changed-trans {f} {g} {h} p q = record {
  newer = omega arith;
  same_id = q.same_id ∙ p.same_id;
  same_student = q.same_student ∙ p.same_student;
  same_class = q.same_class ∙ p.same_class;
  same_semester = q.same_semester ∙ p.same_semester;
  life = (Walked-trans f g h p.life.0 q.life.0, λ e. frozen f g h p.life.1 q.life.1 e);
}

pub join_changes :
    {f g h : EvaluationForm}
    → (f ≡ g) ⊎ Changed workflow f g
    → (g ≡ h) ⊎ Changed workflow g h
    → (f ≡ h) ⊎ Changed workflow f h
join_changes (inl e) (inl e') = inl (e ∙ e')
join_changes {h} (inl e) (inr q) = inr (subst (λ x. Changed workflow x h) (sym e) q)
join_changes {f} (inr p) (inl e) = inr (subst (λ x. Changed workflow f x) e p)
join_changes (inr p) (inr q) = inr (Changed-trans p q)

pub Stepped-refl : {k : Kind} {b : Db} → Valid b → Stepped k b b
Stepped-refl v = record { each = λ j f found. (f, found, inl refl); valid = v }

pub Stepped-trans :
    {b c d : Db} → Stepped workflow b c → Stepped workflow c d → Stepped workflow b d
Stepped-trans p q = record {
  each = λ j f found.
      let (g, found', first) = p.each j f found in
      let (h, found'', second) = q.each j g found' in (h, found'', join_changes first second);
  valid = q.valid;
}

same_found : {o : Option EvaluationForm} {f x : EvaluationForm} → o ≡ some f → o ≡ some x → x ≡ f
same_found p q = cc

-- A conditional write that keeps what the audit demands is a step.
module _ {k : Kind} {b c : Db} {f g : EvaluationForm} (v : Valid b) (w : Written b c f g)
    (audit : Audit f → Audit g) (changed : Changed k f g) where
  written-Each : Each (Changed k) b c
  written-Each j x found = elim (Bool-cases (j == f.id)) [
    | inl e ↦
        let same : x ≡ f =
          same_found w.before (subst (λ i. find_form i b ≡ some x) (==_iff j f.id e) found) in
        (
          g,
          w.after j ∙ ap (λ t. if t then some g else find_form j b) e,
          inr (subst (λ y. Changed k y g) (sym same) changed),
        )
    | inr e ↦ (x, w.after j ∙ ap (λ t. if t then some g else find_form j b) e ∙ found, inl refl)
  ]

  written-Audit : (j : ℕ) (x : EvaluationForm) → find_form j c ≡ some x → Audit x
  written-Audit j x found = elim (Bool-cases (j == f.id)) [
    | inl e ↦
        let at : find_form j c ≡ some g =
          w.after j ∙ ap (λ t. if t then some g else find_form j b) e in
        subst Audit (sym (same_found at found)) (audit (v.audited f.id f w.before))
    | inr e ↦
        let at : find_form j c ≡ find_form j b =
          w.after j ∙ ap (λ t. if t then some g else find_form j b) e in
        v.audited j x (sym at ∙ found)
  ]

  -- Where a row comes from: it is of the same student and semester.
  written_origin :
      (j : ℕ) (x : EvaluationForm)
      → find_form j c ≡ some x
      → (y : EvaluationForm) × (find_form j b ≡ some y)
        × (y.student_id ≡ x.student_id)
        × (y.semester_id ≡ x.semester_id)
  written_origin j x found = elim (Bool-cases (j == f.id)) [
    | inl e ↦
        let at : find_form j c ≡ some g =
          w.after j ∙ ap (λ t. if t then some g else find_form j b) e in
        let is_g = same_found at found in
        (
          f,
          subst (λ i. find_form i b ≡ some f) (sym (==_iff j f.id e)) w.before,
          sym changed.same_student ∙ ap (λ (y : EvaluationForm). y.student_id) (sym is_g),
          sym changed.same_semester ∙ ap (λ (y : EvaluationForm). y.semester_id) (sym is_g),
        )
    | inr e ↦
        let at : find_form j c ≡ find_form j b =
          w.after j ∙ ap (λ t. if t then some g else find_form j b) e in
        (x, sym at ∙ found, refl, refl)
  ]

  written-OnePerSemester : OnePerSemester c
  written-OnePerSemester i j x y found_x found_y student semester =
      let (x', at_x, student_x, semester_x) = written_origin i x found_x in
      let (y', at_y, student_y, semester_y) = written_origin j y found_y in
      v.one_per_semester i j x' y' at_x at_y (student_x ∙ student ∙ sym student_y)
        (semester_x ∙ semester ∙ sym semester_y)

  pub Written-Stepped : Stepped k b c
  Written-Stepped = record {
    each = written-Each;
    valid = record {
      unique = w.unique;
      audited = written-Audit;
      one_per_semester = written-OnePerSemester;
    };
  }

-- A loop of steps is a step: the body may use that its row is one that was seen at `s`, and that the
-- table has only grown since.
module _ {ℓ κ} {A : Type ℓ} (P : A → Type κ) (s : Db) (body : A → Db → Result Db)
    (step : (x : A) (b c : Db)
      → P x
      → Valid b
      → Grows s b
      → body x b ≡ ok c
      → Stepped workflow b c) where
  pub for_each-Stepped :
      (xs : List A) (b c : Db)
      → All P xs
      → Valid b
      → Grows s b
      → for_each body xs b ≡ ok c
      → Stepped workflow b c
  unfolding for_each
  for_each-Stepped [] b c ps v seen h =
      subst (λ d. Stepped workflow b d) (ground arith) (Stepped-refl v)
  for_each-Stepped (x ∷ xs) b c ps v seen h =
      let (d, first, others) = >>=-eq-ok (body x b) (for_each body xs) h in
      let st = step x b d ps.0 v seen first in
      Stepped-trans st
        (for_each-Stepped xs d c ps.1 st.valid (Grows-trans seen (Stepped-Grows st)) others)
