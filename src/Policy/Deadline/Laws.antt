-- ===== src/Policy/Deadline/Laws.antt =====
-- When a deadline lets a command through.
use apag_be.Prelude.{inl, inr, ℕ, ◌≤◌, ◌≡◌, refl, ◌⊎◌, ◌↔◌, Option, none, some, arith}
use apag_be.Http.{ok, Message}
use apag_be.Policy.Access.{UserRole}
use apag_be.Policy.Deadline.{
  expiry_of, check_expiry, EvaluationDeadlines, deadline_for, vietnam_day, end_of_day,
  assert_within_deadline,
}

end_of_day_iff :
    (now deadline : ℕ)
    → (now ≤ end_of_day (vietnam_day deadline)) ↔ (vietnam_day now ≤ vietnam_day deadline)
unfolding end_of_day vietnam_day
end_of_day_iff now deadline = (λ h. omega arith, λ h. omega arith)

check_expiry_iff :
    (deadline : Option ℕ) (m : Message) (now : ℕ)
    → (check_expiry (expiry_of deadline) m now ≡ ok tt)
      ↔ ((deadline ≡ none) ⊎ ((d : ℕ) × (deadline ≡ some d) × (vietnam_day now ≤ vietnam_day d)))
check_expiry_iff none m now = (λ _. inl refl, λ _. refl)
check_expiry_iff (some d) m now = (
  λ h. inr (d, refl, (end_of_day_iff now d).0 (ground arith)),
  λ h. elim h [
    | inl e ↦ cc
    | inr (d', e, passed) ↦ ground (arith, (end_of_day_iff now d').1 passed)
  ],
)

-- A command passes the deadline check exactly when its level has no deadline, or the calendar day
-- in Vietnam has not passed the day of the deadline.
pub assert_within_deadline_iff :
    (role : UserRole) (schedule : EvaluationDeadlines) (now : ℕ)
    → (assert_within_deadline role schedule now ≡ ok tt) ↔ (
        (deadline_for role schedule ≡ none)
        ⊎ ((d : ℕ) × (deadline_for role schedule ≡ some d) × (vietnam_day now ≤ vietnam_day d)))
unfolding assert_within_deadline
assert_within_deadline_iff role schedule now = check_expiry_iff (deadline_for role schedule) _ now
