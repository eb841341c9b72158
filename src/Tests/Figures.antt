-- ===== src/Tests/Figures.antt =====
-- The figures of a report, from the groups of three classes.
use apag_be.Prelude.{
  ℕ, ◌≡◌, refl, Option, none, some, List, [], ◌∷◌, map, sum_by, leb, if◌then◌else◌,
}
use apag_be.Policy.Transition.{FormStatus}
use apag_be.Score.{EvalRank}
use apag_be.Reports.Aggregation.{
  RankGroup, RankOnlyGroup, ClassScoreSumGroup, StatusGroup, FacultyKey, ReportByFacultyItem,
  build_status_distribution, build_rank_distribution, add_rank, pivot_rank_by_class, pivot_ranks,
  set_ranks, ranks_of, calculate_average, bucket_of, set_bucket, add_groups, roll_up_to_faculties,
}
use apag_be.Reports.Totals.{status_total, ranked_total, ranked, placed, figures-total}

abbrev statuses : List StatusGroup
statuses =
    record { status = FormStatus.draft; count = 4 }
    ∷ record { status = FormStatus.finalized; count = 5 }
    ∷ record { status = FormStatus.class_approved; count = 1 }
    ∷ []

-- One form has no rank.
abbrev ranks : List RankOnlyGroup
ranks =
    record { rank = some EvalRank.good; count = 3 }
    ∷ record { rank = none; count = 1 }
    ∷ record { rank = some EvalRank.fair; count = 1 }
    ∷ []

abbrev sums : List ClassScoreSumGroup
sums =
    record { class_id = 1; final_score_sum = some 255; count = 3 }
    ∷ record { class_id = 2; final_score_sum = some 80; count = 1 }
    ∷ record { class_id = 3; final_score_sum = some 70; count = 1 }
    ∷ []

abbrev by_class : List RankGroup
by_class =
    record { class_id = 1; rank = some EvalRank.good; count = 3 }
    ∷ record { class_id = 3; rank = some EvalRank.fair; count = 1 }
    ∷ []

abbrev technology : FacultyKey
technology = record { id = 7; code = "CNTT"; name = "Information technology" }

-- Class 3 has no faculty.
abbrev class_to_faculty : ℕ → Option FacultyKey
class_to_faculty class_id = if leb class_id 2 then some technology else none

-- 335 points over four forms are 83.75, that is 83.8.
one_faculty :
    map
      (λ (i : ReportByFacultyItem). i.average_final_score)
      (roll_up_to_faculties sums by_class class_to_faculty)
    ≡ some 838 ∷ []
unfolding roll_up_to_faculties pivot_rank_by_class pivot_ranks set_ranks ranks_of add_groups
    bucket_of set_bucket calculate_average add_rank
one_faculty = refl

figures-total_example :
    (status_total (build_status_distribution statuses) ≡ sum_by (λ g. g.count) statuses)
    × (ranked_total (build_rank_distribution ranks) ≡ sum_by ranked ranks)
    × (sum_by
          (λ (i : ReportByFacultyItem). i.total_finalized)
          (roll_up_to_faculties sums by_class class_to_faculty)
        ≡ sum_by (placed class_to_faculty) sums)
figures-total_example = figures-total statuses ranks sums by_class class_to_faculty
