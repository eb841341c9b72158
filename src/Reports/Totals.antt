-- ===== src/Reports/Totals.antt =====
-- No form is lost or counted twice in the figures of a report.
use apag_be.Prelude.{
  ℕ, ◌+◌, ◌≡◌, refl, inl, inr, ◌==◌, Bool-cases, Option, none, some, List, [], ◌∷◌, map, arith,
  is_some, sum_by, if◌then◌else◌,
}
use apag_be.Policy.Transition.{FormStatus}
use apag_be.Score.{EvalRank}
use apag_be.Reports.Aggregation.{
  empty_rank_distribution, empty_status_distribution, RankDistribution, StatusDistribution,
  RankGroup, RankOnlyGroup, ClassScoreSumGroup, StatusGroup, add_status, add_rank,
  add_optional_rank, add_statuses, build_status_distribution, add_ranks, build_rank_distribution,
  ClassRanks, pivot_rank_by_class, FacultyKey, FacultyBucket, ReportByFacultyItem, bucket_of,
  set_bucket, grown, add_group, add_groups, report_item, roll_up_to_faculties,
}

abbrev pub ranked_total : RankDistribution → ℕ
ranked_total d = d.excellent + d.good + d.fair + d.average + d.weak + d.poor

abbrev pub status_total : StatusDistribution → ℕ
status_total d =
    d.draft + d.submitted + d.class_leader_approved + d.class_approved + d.faculty_approved
    + d.finalized + d.rejected

add_status-total :
    (s : FormStatus) (n : ℕ) (d : StatusDistribution)
    → status_total (add_status s n d) ≡ status_total d + n
unfolding add_status
add_status-total FormStatus.draft n d = omega arith
add_status-total FormStatus.submitted n d = omega arith
add_status-total FormStatus.class_leader_approved n d = omega arith
add_status-total FormStatus.class_approved n d = omega arith
add_status-total FormStatus.faculty_approved n d = omega arith
add_status-total FormStatus.finalized n d = omega arith
add_status-total FormStatus.rejected n d = omega arith

add_rank-total :
    (r : EvalRank) (n : ℕ) (d : RankDistribution)
    → ranked_total (add_rank r n d) ≡ ranked_total d + n
unfolding add_rank
add_rank-total EvalRank.excellent n d = omega arith
add_rank-total EvalRank.good n d = omega arith
add_rank-total EvalRank.fair n d = omega arith
add_rank-total EvalRank.average n d = omega arith
add_rank-total EvalRank.weak n d = omega arith
add_rank-total EvalRank.poor n d = omega arith

add_statuses-total :
    (gs : List StatusGroup) (d : StatusDistribution)
    → status_total (add_statuses gs d) ≡ status_total d + sum_by (λ g. g.count) gs
unfolding add_statuses
add_statuses-total [] d = omega arith
add_statuses-total (g ∷ gs) d = omega (
  arith,
  add_statuses-total gs (add_status g.status g.count d),
  add_status-total g.status g.count d,
)

-- The forms of a group that have a rank.
abbrev pub ranked : RankOnlyGroup → ℕ
ranked g = if is_some g.rank then g.count else 0

add_optional_rank-total :
    (r : Option EvalRank) (n : ℕ) (d : RankDistribution)
    → ranked_total (add_optional_rank r n d) ≡ ranked_total d + (if is_some r then n else 0)
add_optional_rank-total none n d = omega arith
add_optional_rank-total (some r) n d = add_rank-total r n d

add_ranks-total :
    (gs : List RankOnlyGroup) (d : RankDistribution)
    → ranked_total (add_ranks gs d) ≡ ranked_total d + sum_by ranked gs
unfolding add_ranks
add_ranks-total [] d = omega arith
add_ranks-total (g ∷ gs) d = omega (
  arith,
  add_ranks-total gs (add_optional_rank g.rank g.count d),
  add_optional_rank-total g.rank g.count d,
)

abbrev bucket_total : List FacultyBucket → ℕ
bucket_total bs = sum_by (λ (b : FacultyBucket). b.count) bs

set_bucket-total :
    (f : FacultyKey) (b : FacultyBucket) (bs : List FacultyBucket)
    → bucket_total (set_bucket f.id b bs) + (bucket_of f bs).count ≡ bucket_total bs + b.count
unfolding set_bucket bucket_of
set_bucket-total f b [] = omega arith
set_bucket-total f b (x ∷ xs) = elim (Bool-cases (x.faculty.id == f.id)) [
  | inl e ↦ rw e (omega arith)
  | inr e ↦ rw e (omega (arith, set_bucket-total f b xs))
]

-- The forms of a group whose class has a faculty.
abbrev pub placed : (ℕ → Option FacultyKey) → ClassScoreSumGroup → ℕ
placed class_to_faculty g = if is_some (class_to_faculty g.class_id) then g.count else 0

add_group-total :
    (o : Option FacultyKey) (g : ClassScoreSumGroup) (ranks : List ClassRanks)
    (bs : List FacultyBucket)
    → bucket_total (add_group o g ranks bs) ≡ bucket_total bs + (if is_some o then g.count else 0)
add_group-total none g ranks bs = omega arith
add_group-total (some f) g ranks bs =
    omega (arith, set_bucket-total f (grown g ranks (bucket_of f bs)) bs)

add_groups-total :
    (class_to_faculty : ℕ → Option FacultyKey) (gs : List ClassScoreSumGroup)
    (ranks : List ClassRanks) (bs : List FacultyBucket)
    → bucket_total (add_groups class_to_faculty gs ranks bs)
      ≡ bucket_total bs + sum_by (placed class_to_faculty) gs
unfolding add_groups
add_groups-total class_to_faculty [] ranks bs = omega arith
add_groups-total class_to_faculty (g ∷ gs) ranks bs = omega (
  arith,
  add_groups-total class_to_faculty gs ranks (add_group (class_to_faculty g.class_id) g ranks bs),
  add_group-total (class_to_faculty g.class_id) g ranks bs,
)

items-total :
    (bs : List FacultyBucket)
    → sum_by (λ (i : ReportByFacultyItem). i.total_finalized) (map report_item bs) ≡ bucket_total bs
items-total [] = refl
items-total (b ∷ bs) = omega (arith, items-total bs)

-- The figures of a report add up: the statuses to all forms that were counted, the ranks to those that
-- have a rank, and the totals of the faculties to the forms of all classes that have a faculty.
pub figures-total :
    (statuses : List StatusGroup) (ranks : List RankOnlyGroup) (sums : List ClassScoreSumGroup)
    (by_class : List RankGroup) (class_to_faculty : ℕ → Option FacultyKey)
    → (status_total (build_status_distribution statuses) ≡ sum_by (λ g. g.count) statuses)
      × (ranked_total (build_rank_distribution ranks) ≡ sum_by ranked ranks)
      × (sum_by
            (λ (i : ReportByFacultyItem). i.total_finalized)
            (roll_up_to_faculties sums by_class class_to_faculty)
          ≡ sum_by (placed class_to_faculty) sums)
unfolding build_status_distribution build_rank_distribution roll_up_to_faculties
figures-total statuses ranks sums by_class class_to_faculty =
    let classes = pivot_rank_by_class by_class in
    (
      omega (arith, add_statuses-total statuses empty_status_distribution),
      omega (arith, add_ranks-total ranks empty_rank_distribution),
      omega (
        arith,
        items-total (add_groups class_to_faculty sums classes []),
        add_groups-total class_to_faculty sums classes [],
      ),
    )
