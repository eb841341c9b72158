-- ===== src/Policy/Deadline.antt =====
-- domain/evaluation-deadline.policy.ts. A `Date` is its milliseconds since 1970. Vietnam is at
-- UTC+7 the whole year, so a calendar day there is the number of whole days since 1970 after a
-- shift by seven hours: that is what `formatToParts` computes and `T23:59:59.999+07:00` reads back.
pub mod Laws
use apag_be.Prelude.{ℕ, ◌+◌, ◌-◌, ◌*◌, ◌/◌, Bool, Option, none, some, leb}
use apag_be.Http.{
  Result, ok, err, conflict, Message, student_deadline_passed, class_deadline_passed,
  faculty_deadline_passed, require,
}
use apag_be.Policy.Access.{
  UserRole, admin, student, class_leader, advisor, faculty, training_department,
}

pub record EvaluationDeadlines : Type 0 where
  pub student_deadline : Option ℕ
  pub class_deadline : Option ℕ
  pub faculty_deadline : Option ℕ

unfoldable pub deadline_for : UserRole → EvaluationDeadlines → Option ℕ
deadline_for student schedule = schedule.student_deadline
deadline_for class_leader schedule = schedule.class_deadline
deadline_for advisor schedule = schedule.class_deadline
deadline_for faculty schedule = schedule.faculty_deadline
deadline_for _ schedule = none

abbrev pub day_ms : ℕ
day_ms = 86400000

abbrev pub vietnam_offset_ms : ℕ
vietnam_offset_ms = 25200000

-- The calendar day in Vietnam at a time.
unfoldable pub vietnam_day : ℕ → ℕ
vietnam_day t = (t + vietnam_offset_ms) / day_ms

-- The last millisecond of a day in Vietnam.
unfoldable pub end_of_day : ℕ → ℕ
end_of_day day = (day + 1) * day_ms - 1 - vietnam_offset_ms

-- The end of the day of a deadline.
abbrev pub expiry_of : Option ℕ → Option ℕ
expiry_of none = none
expiry_of (some deadline) = some (end_of_day (vietnam_day deadline))

unfoldable pub expires_at : UserRole → EvaluationDeadlines → Option ℕ
expires_at role schedule = expiry_of (deadline_for role schedule)

abbrev deadline_message : UserRole → Message
deadline_message student = student_deadline_passed
deadline_message faculty = faculty_deadline_passed
deadline_message _ = class_deadline_passed

abbrev pub check_expiry : Option ℕ → Message → ℕ → Result (Unit {0})
check_expiry none message now = ok tt
check_expiry (some deadline) message now = require (leb now deadline) (conflict message)

unfoldable pub assert_within_deadline : UserRole → EvaluationDeadlines → ℕ → Result (Unit {0})
unfolding expires_at
assert_within_deadline role schedule now =
    check_expiry (expires_at role schedule) (deadline_message role) now
