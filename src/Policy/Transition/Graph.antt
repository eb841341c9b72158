-- ===== src/Policy/Transition/Graph.antt =====
-- The edges of the workflow as a relation, and what the guards allow in its terms.
use apag_be.Prelude.{ℕ, ◌+◌, subst, some, ◌≡◌, refl, ◌⊎◌, ◌↔◌, true, false, arith}
use apag_be.Http.{ok}
use apag_be.Policy.Access.{UserRole, admin, class_leader, advisor}
use apag_be.Policy.Transition.{
  returned_by_class, returned_by_advisor, returned_by_academy, FormStatus, draft, submitted,
  class_leader_approved, class_approved, faculty_approved, finalized, rejected, can_transition,
  assert_transition, resolve_review_stage, ReviewStageConfig,
}

infix 40 ◌⟶◌ ◌⟶*◌
-- One step of the workflow: up by one level, or back to the student.
pub data ◌⟶◌ : FormStatus → FormStatus → Type 0 where
  submit_draft : draft ⟶ submitted
  submit_again : rejected ⟶ submitted
  leader_approves : submitted ⟶ class_leader_approved
  advisor_approves : class_leader_approved ⟶ class_approved
  faculty_approves : class_approved ⟶ faculty_approved
  finalizes : faculty_approved ⟶ finalized
  leader_returns : submitted ⟶ rejected
  advisor_returns : class_leader_approved ⟶ rejected
  academy_returns : faculty_approved ⟶ rejected

pub data ◌⟶*◌ : FormStatus → FormStatus → Type 0 where
  here : {s : FormStatus} → s ⟶* s
  along : {s t u : FormStatus} → s ⟶ t → t ⟶* u → s ⟶* u

-- The edges of a way.
abbrev pub steps : {s t : FormStatus} → s ⟶* t → ℕ
steps here = 0
steps (along e p) = 1 + steps p

abbrev pub ⟶*-trans : {s t u : FormStatus} → s ⟶* t → t ⟶* u → s ⟶* u
⟶*-trans here q = q
⟶*-trans (along e p) q = along e (⟶*-trans p q)

pub steps_trans :
    {s t u : FormStatus} (p : s ⟶* t) (q : t ⟶* u) → steps (⟶*-trans p q) ≡ steps p + steps q
steps_trans here q = omega arith
steps_trans (along e p) q = omega (arith, steps_trans p q)

pub ruleset edges = (
  submit_draft, submit_again, leader_approves, advisor_approves, faculty_approves, finalizes,
  leader_returns, advisor_returns, academy_returns,
)

can_transition_sound : (s t : FormStatus) → can_transition s t ≡ true → s ⟶ t
unfolding can_transition
can_transition_sound s t h = grind (arith, edges)

can_transition_complete : {s t : FormStatus} → s ⟶ t → can_transition s t ≡ true
unfolding can_transition
can_transition_complete submit_draft = refl
can_transition_complete submit_again = refl
can_transition_complete leader_approves = refl
can_transition_complete advisor_approves = refl
can_transition_complete faculty_approves = refl
can_transition_complete finalizes = refl
can_transition_complete leader_returns = refl
can_transition_complete advisor_returns = refl
can_transition_complete academy_returns = refl

-- The guard of the code allows exactly the edges of the workflow: a step up by one level, or a
-- return to the student; no jump, no step to the same status, and nothing out of `finalized`.
pub can_transition_iff : (s t : FormStatus) → (can_transition s t ≡ true) ↔ (s ⟶ t)
can_transition_iff s t = (can_transition_sound s t, can_transition_complete)

pub assert_transition-⟶ : (s t : FormStatus) → assert_transition s t ≡ ok tt → s ⟶ t
unfolding assert_transition
assert_transition-⟶ s t h = can_transition_sound s t (ground arith)

-- The reviewer whom a status waits for.
abbrev pub Awaits : UserRole → FormStatus → Type 0
Awaits role s =
    ((role ≡ class_leader) × (s ≡ submitted))
    ⊎ ((role ≡ advisor) × (s ≡ class_leader_approved))
    ⊎ ((role ≡ admin) × (s ≡ faculty_approved))

stage_status :
    (role : UserRole) (s : FormStatus)
    → ((c : ReviewStageConfig) × (resolve_review_stage role s ≡ ok c))
    → Awaits role s
unfolding resolve_review_stage
stage_status role s (c, resolved) = ground arith

-- What each reviewer is given.
stage_given :
    (role : UserRole) (s : FormStatus)
    → Awaits role s
    → (c : ReviewStageConfig) × (resolve_review_stage role s ≡ ok c)
      × (c.required_status ≡ some s)
      × (s ⟶ c.next_approved_status)
unfolding resolve_review_stage
stage_given class_leader submitted h = (
  record {
    required_status = some submitted;
    next_approved_status = class_leader_approved;
    note_prefix = returned_by_class;
  },
  refl,
  refl,
  leader_approves,
)
stage_given advisor class_leader_approved h = (
  record {
    required_status = some class_leader_approved;
    next_approved_status = class_approved;
    note_prefix = returned_by_advisor;
  },
  refl,
  refl,
  advisor_approves,
)
stage_given admin faculty_approved h = (
  record {
    required_status = some faculty_approved;
    next_approved_status = finalized;
    note_prefix = returned_by_academy;
  },
  refl,
  refl,
  finalizes,
)
stage_given _ _ h = absurd (ground arith)

stage_leads :
    (role : UserRole) (s : FormStatus) (c : ReviewStageConfig)
    → resolve_review_stage role s ≡ ok c
    → (c.required_status ≡ some s) × (s ⟶ c.next_approved_status)
stage_leads role s c resolved =
    let (d, given, required, edge) = stage_given role s (stage_status role s (c, resolved)) in
    let same : d ≡ c = cc in
    subst (λ x. (x.required_status ≡ some s) × (s ⟶ x.next_approved_status)) same (required, edge)

⟶*-finalized : (s : FormStatus) → s ⟶* finalized
⟶*-finalized finalized = here
⟶*-finalized _ = search (here, along, edges) depth 8

last_finalized : (s : FormStatus) → ((t : FormStatus) → ¬ (s ⟶ t)) → s ≡ finalized
last_finalized finalized h = refl
last_finalized draft h = absurd (h _ submit_draft)
last_finalized submitted h = absurd (h _ leader_approves)
last_finalized class_leader_approved h = absurd (h _ advisor_approves)
last_finalized class_approved h = absurd (h _ faculty_approves)
last_finalized faculty_approved h = absurd (h _ finalizes)
last_finalized rejected h = absurd (h _ submit_again)

finalized_last : (s t : FormStatus) → s ≡ finalized → ¬ (s ⟶ t)
unfolding can_transition
finalized_last s t e edge = ground (arith, can_transition_complete edge)

-- A reviewer gets a stage exactly in the status that waits for them: a class leader for a submitted
-- form, an advisor for one that the class leader passed on, an administrator for one that the
-- faculty passed on; every other role and status is refused. Each stage that is given requires the
-- status that the form has, and leads from it along an edge of the workflow.
pub resolve_review_stage_iff :
    (role : UserRole) (s : FormStatus)
    → (((c : ReviewStageConfig) × (resolve_review_stage role s ≡ ok c)) ↔ Awaits role s)
      × ((c : ReviewStageConfig)
          → resolve_review_stage role s ≡ ok c
          → (c.required_status ≡ some s) × (s ⟶ c.next_approved_status))
resolve_review_stage_iff role s = (
  (stage_status role s, λ awaited. let (c, given, _, _) = stage_given role s awaited in (c, given)),
  stage_leads role s,
)

-- Moves that the guard of the code lets pass, one after another.
pub data Moves : FormStatus → FormStatus → Type 0 where
  done : {s : FormStatus} → Moves s s
  move : {s t u : FormStatus} → can_transition s t ≡ true → Moves t u → Moves s u

Moves-of : {s t : FormStatus} → s ⟶* t → Moves s t
Moves-of here = done
Moves-of (along edge p) = move (can_transition_complete edge) (Moves-of p)

-- From every status moves that the guard lets pass lead to `finalized`, and `finalized` is the one
-- status that it lets no move pass from.
pub workflow_ends :
    (s : FormStatus)
    → Moves s finalized × ((s ≡ finalized) ↔ ((t : FormStatus) → can_transition s t ≡ false))
unfolding can_transition
workflow_ends s = (
  Moves-of (⟶*-finalized s),
  (
    λ e t. ground arith,
    λ none.
        last_finalized s
          (λ t edge. let passes = can_transition_complete edge in let shut = none t in cc),
  ),
)

pub not_from_final : {s t : FormStatus} → s ⟶ t → s ≡ finalized → ⊥
not_from_final {s} {t} edge e = finalized_last s t e edge
