-- ===== src/Reports/Aggregation.antt =====
-- modules/reports/helpers/report-aggregation.helper.ts: the figures of the reports, from the groups that
-- the database counts. An average is in tenths, computed exactly.
use apag_be.Prelude.{
  ℕ, ◌+◌, ◌*◌, ◌/◌, String, Option, none, some, List, [], ◌∷◌, map, ◌==◌, or_else, if◌then◌else◌,
}
use apag_be.Policy.Transition.{FormStatus}
use apag_be.Score.{EvalRank}

pub record RankDistribution : Type 0 where
  pub excellent : ℕ
  pub good : ℕ
  pub fair : ℕ
  pub average : ℕ
  pub weak : ℕ
  pub poor : ℕ

pub record StatusDistribution : Type 0 where
  pub draft : ℕ
  pub submitted : ℕ
  pub class_leader_approved : ℕ
  pub class_approved : ℕ
  pub faculty_approved : ℕ
  pub finalized : ℕ
  pub rejected : ℕ

pub record RankGroup : Type 0 where
  pub class_id : ℕ
  pub rank : Option EvalRank
  pub count : ℕ

pub record RankOnlyGroup : Type 0 where
  pub rank : Option EvalRank
  pub count : ℕ

pub record ClassScoreSumGroup : Type 0 where
  pub class_id : ℕ
  pub final_score_sum : Option ℕ
  pub count : ℕ

pub record StatusGroup : Type 0 where
  pub status : FormStatus
  pub count : ℕ

abbrev pub empty_rank_distribution : RankDistribution
empty_rank_distribution = record {
  excellent = 0;
  good = 0;
  fair = 0;
  average = 0;
  weak = 0;
  poor = 0;
}

abbrev pub empty_status_distribution : StatusDistribution
empty_status_distribution = record {
  draft = 0;
  submitted = 0;
  class_leader_approved = 0;
  class_approved = 0;
  faculty_approved = 0;
  finalized = 0;
  rejected = 0;
}

-- `distribution[status] += n`
unfoldable pub add_status : FormStatus → ℕ → StatusDistribution → StatusDistribution
add_status FormStatus.draft n d = record d { draft = d.draft + n }
add_status FormStatus.submitted n d = record d { submitted = d.submitted + n }
add_status FormStatus.class_leader_approved n d = record d {
  class_leader_approved = d.class_leader_approved + n;
}
add_status FormStatus.class_approved n d = record d { class_approved = d.class_approved + n }
add_status FormStatus.faculty_approved n d = record d { faculty_approved = d.faculty_approved + n }
add_status FormStatus.finalized n d = record d { finalized = d.finalized + n }
add_status FormStatus.rejected n d = record d { rejected = d.rejected + n }

-- `distribution[rank] += n`
unfoldable pub add_rank : EvalRank → ℕ → RankDistribution → RankDistribution
add_rank EvalRank.excellent n d = record d { excellent = d.excellent + n }
add_rank EvalRank.good n d = record d { good = d.good + n }
add_rank EvalRank.fair n d = record d { fair = d.fair + n }
add_rank EvalRank.average n d = record d { average = d.average + n }
add_rank EvalRank.weak n d = record d { weak = d.weak + n }
add_rank EvalRank.poor n d = record d { poor = d.poor + n }

-- `if (group.rank)`
abbrev pub add_optional_rank : Option EvalRank → ℕ → RankDistribution → RankDistribution
add_optional_rank none n d = d
add_optional_rank (some r) n d = add_rank r n d

-- The loops, from the distribution so far.
unfoldable pub add_statuses : List StatusGroup → StatusDistribution → StatusDistribution
add_statuses [] d = d
add_statuses (g ∷ gs) d = add_statuses gs (add_status g.status g.count d)

unfoldable pub build_status_distribution : List StatusGroup → StatusDistribution
unfolding add_statuses
build_status_distribution groups = add_statuses groups empty_status_distribution

unfoldable pub add_ranks : List RankOnlyGroup → RankDistribution → RankDistribution
add_ranks [] d = d
add_ranks (g ∷ gs) d = add_ranks gs (add_optional_rank g.rank g.count d)

unfoldable pub build_rank_distribution : List RankOnlyGroup → RankDistribution
unfolding add_ranks
build_rank_distribution groups = add_ranks groups empty_rank_distribution

-- A `Map` as its entries.
pub record ClassRanks : Type 0 where
  pub class_id : ℕ
  pub by_rank : RankDistribution

unfoldable pub ranks_of : ℕ → List ClassRanks → RankDistribution
ranks_of class_id [] = empty_rank_distribution
ranks_of class_id (e ∷ es) =
    let rest = ranks_of class_id es in if e.class_id == class_id then e.by_rank else rest

unfoldable pub set_ranks : ClassRanks → List ClassRanks → List ClassRanks
set_ranks e [] = e ∷ []
set_ranks e (x ∷ xs) =
    let rest = set_ranks e xs in if x.class_id == e.class_id then e ∷ xs else x ∷ rest

abbrev add_class_rank : RankGroup → Option EvalRank → List ClassRanks → List ClassRanks
add_class_rank g none es = es
add_class_rank g (some r) es =
    set_ranks
      (record { class_id = g.class_id; by_rank = add_rank r g.count (ranks_of g.class_id es) }) es

unfoldable pub pivot_ranks : List RankGroup → List ClassRanks → List ClassRanks
unfolding set_ranks ranks_of add_rank
pivot_ranks [] es = es
pivot_ranks (g ∷ gs) es = pivot_ranks gs (add_class_rank g g.rank es)

unfoldable pub pivot_rank_by_class : List RankGroup → List ClassRanks
unfolding pivot_ranks
pivot_rank_by_class groups = pivot_ranks groups []

-- `Math.round((sum / count) * 10) / 10`, in tenths.
unfoldable pub calculate_average : Option ℕ → ℕ → Option ℕ
calculate_average none count = none
calculate_average (some sum) count =
    if count == 0 then none else some ((20 * sum + count) / (2 * count))

pub record FacultyKey : Type 0 where
  pub id : ℕ
  pub code : String
  pub name : String

pub record FacultyBucket : Type 0 where
  pub faculty : FacultyKey
  pub sum : ℕ
  pub count : ℕ
  pub by_rank : RankDistribution

pub record ReportByFacultyItem : Type 0 where
  pub faculty_id : ℕ
  pub faculty_code : String
  pub faculty_name : String
  pub total_finalized : ℕ
  pub average_final_score : Option ℕ
  pub by_rank : RankDistribution

abbrev new_bucket : FacultyKey → FacultyBucket
new_bucket f = record { faculty = f; sum = 0; count = 0; by_rank = empty_rank_distribution }

-- `buckets.get(faculty.id) ?? …`
unfoldable pub bucket_of : FacultyKey → List FacultyBucket → FacultyBucket
bucket_of f [] = new_bucket f
bucket_of f (b ∷ bs) = let rest = bucket_of f bs in if b.faculty.id == f.id then b else rest

-- `buckets.set(faculty.id, bucket)`
unfoldable pub set_bucket : ℕ → FacultyBucket → List FacultyBucket → List FacultyBucket
set_bucket id b [] = b ∷ []
set_bucket id b (x ∷ xs) =
    let rest = set_bucket id b xs in if x.faculty.id == id then b ∷ xs else x ∷ rest

abbrev add_distributions : RankDistribution → RankDistribution → RankDistribution
add_distributions d e = record {
  excellent = d.excellent + e.excellent;
  good = d.good + e.good;
  fair = d.fair + e.fair;
  average = d.average + e.average;
  weak = d.weak + e.weak;
  poor = d.poor + e.poor;
}

abbrev pub grown : ClassScoreSumGroup → List ClassRanks → FacultyBucket → FacultyBucket
grown g ranks b = record b {
  sum = b.sum + or_else g.final_score_sum 0;
  count = b.count + g.count;
  by_rank = add_distributions b.by_rank (ranks_of g.class_id ranks);
}

-- `if (!faculty) continue`
abbrev pub add_group :
    Option FacultyKey
    → ClassScoreSumGroup
    → List ClassRanks
    → List FacultyBucket
    → List FacultyBucket
add_group none g ranks bs = bs
add_group (some f) g ranks bs = set_bucket f.id (grown g ranks (bucket_of f bs)) bs

unfoldable pub add_groups :
    (ℕ → Option FacultyKey)
    → List ClassScoreSumGroup
    → List ClassRanks
    → List FacultyBucket
    → List FacultyBucket
unfolding set_bucket bucket_of
add_groups class_to_faculty [] ranks bs = bs
add_groups class_to_faculty (g ∷ gs) ranks bs =
    add_groups class_to_faculty gs ranks (add_group (class_to_faculty g.class_id) g ranks bs)

abbrev pub report_item : FacultyBucket → ReportByFacultyItem
report_item b = record {
  faculty_id = b.faculty.id;
  faculty_code = b.faculty.code;
  faculty_name = b.faculty.name;
  total_finalized = b.count;
  average_final_score = calculate_average (some b.sum) b.count;
  by_rank = b.by_rank;
}

unfoldable pub roll_up_to_faculties :
    List ClassScoreSumGroup → List RankGroup → (ℕ → Option FacultyKey) → List ReportByFacultyItem
unfolding pivot_rank_by_class add_groups
roll_up_to_faculties sum_groups rank_groups class_to_faculty =
    map report_item (add_groups class_to_faculty sum_groups (pivot_rank_by_class rank_groups) [])
