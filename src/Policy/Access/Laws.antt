-- ===== src/Policy/Access/Laws.antt =====
-- What each capability of the access policy amounts to.
use apag_be.Prelude.{ℕ, ◌≡◌, refl, ◌⊎◌, ◌↔◌, true, Option, none, some, arith, is_some, opt_eq}
use apag_be.Http.{ok}
use apag_be.Policy.Access.{
  UserRole, admin, student, class_leader, advisor, faculty, training_department, EvaluationActor,
  EvaluationAccessFacts, can_read, can_edit, can_review, can_approve_faculty, can_finalize,
  faculty_evaluation_scope,
}

-- The facts under which each role may read a form.
abbrev pub MayRead : UserRole → ℕ → EvaluationAccessFacts → Type 0
MayRead student user facts = facts.student_id ≡ some user
MayRead faculty user facts =
    (f : ℕ) × (facts.assigned_faculty_id ≡ some f)
    × (facts.faculty_id ≡ some f)
    × ((facts.faculty_available ≡ none) ⊎ (facts.faculty_available ≡ some true))
MayRead admin user facts = Unit
MayRead training_department user facts = Unit
MayRead _ user facts = facts.assigned_to_class ≡ some true

same_id :
    (o p : Option ℕ) → is_some o ≡ true → opt_eq o p ≡ true → (f : ℕ) × (o ≡ some f) × (p ≡ some f)
same_id (some a) (some b) h e = (a, refl, ground arith)
same_id (some a) none h e = cc
same_id none p h e = cc

can_read_sound :
    (user : ℕ) (role : UserRole) (facts : EvaluationAccessFacts)
    → can_read (record { id = user; role = role }) facts ≡ true
    → MayRead role user facts
unfolding can_read
can_read_sound user student facts h = ground arith
can_read_sound user admin facts h = tt
can_read_sound user class_leader facts h = ground arith
can_read_sound user advisor facts h = ground arith
can_read_sound user training_department facts h = tt
can_read_sound user faculty facts h =
    let (f, assigned, asked) =
      same_id facts.assigned_faculty_id facts.faculty_id (ground arith) (ground arith) in
    (f, assigned, asked, ground arith)

can_read_complete :
    (user : ℕ) (role : UserRole) (facts : EvaluationAccessFacts)
    → MayRead role user facts
    → can_read (record { id = user; role = role }) facts ≡ true
unfolding can_read
can_read_complete user student facts h = ground arith
can_read_complete user admin facts h = refl
can_read_complete user class_leader facts h = ground arith
can_read_complete user advisor facts h = ground arith
can_read_complete user training_department facts h = refl
can_read_complete user faculty facts h = ground arith

-- An actor may read a form exactly when: a student owns it; a class leader or an advisor is
-- assigned to its class; a faculty account is assigned to its faculty, which is not known to be
-- unavailable; an administrator or the training department, always.
pub can_read_iff :
    (actor : EvaluationActor) (facts : EvaluationAccessFacts)
    → (can_read actor facts ≡ true) ↔ MayRead actor.role actor.id facts
can_read_iff actor facts =
    (can_read_sound actor.id actor.role facts, can_read_complete actor.id actor.role facts)

-- Whoever may write may read: a right to edit, to review, to approve for a faculty or to finalize
-- entails the right to read the form under the same facts.
pub write_implies_read :
    (actor : EvaluationActor) (facts : EvaluationAccessFacts)
    → (can_edit actor facts ≡ true)
      ⊎ (can_review actor facts ≡ true)
      ⊎ (can_approve_faculty actor facts ≡ true)
      ⊎ (can_finalize actor ≡ true)
    → can_read actor facts ≡ true
unfolding can_read can_edit can_review
write_implies_read actor facts h = ground arith

-- A faculty account lists its own faculty only: the scope is the faculty that it is assigned to,
-- and asking for another one is refused.
pub faculty_evaluation_scope_own :
    (assigned : Option ℕ) (requested : Option ℕ) (f : ℕ)
    → (faculty_evaluation_scope assigned requested ≡ ok f)
      ↔ ((assigned ≡ some f) × ((requested ≡ none) ⊎ (requested ≡ some f)))
unfolding faculty_evaluation_scope
faculty_evaluation_scope_own none requested f = (λ h. cc, λ h. cc h.0)
faculty_evaluation_scope_own (some a) none f = ground arith
faculty_evaluation_scope_own (some a) (some r) f = ground arith
