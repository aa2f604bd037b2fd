-- ===== src/TaskQueue/Listing/Counts.antt =====
-- What `get_queue_status` counts.
use agent_sam.Prelude.{
  ℕ, ◌+◌, String, Option, List, [], ◌∷◌, ◌≡◌, arith, refl, count, select, length, string_eq, ◌==◌,
  if◌then◌else◌, ◌∙◌, nat_eq, option_eq,
}
use agent_sam.Database.{Task, Tables}
use agent_sam.TaskQueue.Rules.{in_workspace}
use agent_sam.TaskQueue.Listing.{add_to_group, group_count, group_get, get_queue_status}

group_get-add_to_group :
    (s r : String) (groups : List (String × ℕ))
    → group_get s (add_to_group r groups) ≡ (if r == s then 1 else 0) + group_get s groups
unfolding group_get add_to_group
group_get-add_to_group s r [] = ground arith
group_get-add_to_group s r ((v, n) ∷ rest) = ground (
  arith,
  string_eq.beq_iff v r,
  string_eq.beq_iff v s,
  string_eq.beq_iff r s,
  group_get-add_to_group s r rest,
)

group_get-group_count :
    (column : Task → String) (s : String) (rows : List Task)
    → group_get s (group_count column rows) ≡ count (λ t. column t == s) rows
unfolding group_count group_get
group_get-group_count column s [] = refl
group_get-group_count column s (t ∷ ts) =
    group_get-add_to_group s (column t) (group_count column ts)
    ∙ omega (arith, group_get-group_count column s ts)

abbrev pub sum_groups : List (String × ℕ) → ℕ
sum_groups [] = 0
sum_groups ((v, n) ∷ rest) = n + sum_groups rest

sum_groups-add_to_group :
    (s : String) (groups : List (String × ℕ))
    → sum_groups (add_to_group s groups) ≡ 1 + sum_groups groups
unfolding add_to_group
sum_groups-add_to_group s [] = refl
sum_groups-add_to_group s ((v, n) ∷ rest) = ground (arith, sum_groups-add_to_group s rest)

sum_groups-group_count :
    (column : Task → String) (rows : List Task) → sum_groups (group_count column rows) ≡ length rows
unfolding group_count
sum_groups-group_count column [] = refl
sum_groups-group_count column (t ∷ ts) = omega (
  arith,
  sum_groups-add_to_group (column t) (group_count column ts),
  sum_groups-group_count column ts,
)

-- The three named counts are the numbers of rows of the workspace with that status, and both
-- groupings add up to the total.
pub get_queue_status_counts :
    (workspace_id : Option ℕ) (db : Tables)
    → let rows = select (in_workspace workspace_id) db.tasks in
      let q = get_queue_status workspace_id db in
      (q.pending ≡ count (λ t. t.status == "pending") rows)
      × (q.running ≡ count (λ t. t.status == "running") rows)
      × (q.paused ≡ count (λ t. t.status == "paused") rows)
      × (sum_groups q.by_status ≡ q.total)
      × (sum_groups q.by_priority ≡ q.total)
unfolding get_queue_status
get_queue_status_counts workspace_id db = (
  group_get-group_count (λ t. t.status) "pending" _,
  group_get-group_count (λ t. t.status) "running" _,
  group_get-group_count (λ t. t.status) "paused" _,
  sum_groups-group_count (λ t. t.status) _,
  sum_groups-group_count (λ t. t.priority) _,
)
