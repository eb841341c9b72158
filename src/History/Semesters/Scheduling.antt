-- ===== src/History/Semesters/Scheduling.antt =====
-- All commands of the administration and the calendar.
use apag_be.Database.Rows.{Db}
use apag_be.History.Semesters.Terms.{Terms}
use apag_be.History.Semesters.Administering.{SemesterCommand, updates_semester}
use apag_be.History.Semesters.Calendar.{Calendar}
use apag_be.History.Semesters.Rescheduling.{NoNull}

-- An update gives no deadline that is null.
abbrev pub Plain : {s b c : Db} → SemesterCommand s b c → Type 0
Plain (updates_semester id dto next out checked h) = NoNull dto.dates
Plain _ = Unit
