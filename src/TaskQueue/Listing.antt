-- ===== src/TaskQueue/Listing.antt =====
-- db/task_queue.py: `list_task_queue` and `get_queue_status`.
pub mod Order
pub mod Counts
use agent_sam.Prelude.{
  ℕ, ◌+◌, String, ◌&&◌, Option, List, [], ◌∷◌, ◌==◌, if◌then◌else◌, contains, select, take, length,
  order_by, Outcome, ok, nat_eq, string_eq, option_eq, ◌>>◌,
}
use agent_sam.Database.{Task, Tables}
use agent_sam.TaskQueue.Rules.{validate_status, queue_before, in_workspace}

validate_statuses : List String → Outcome (Unit {0})
unfolding validate_status
validate_statuses [] = ok tt
validate_statuses (s ∷ ss) = do validate_status s; validate_statuses ss

abbrev pub queue_rows : Option ℕ → List String → Tables → List Task
queue_rows workspace_id statuses db =
    order_by queue_before
      (select (λ t. contains statuses t.status && in_workspace workspace_id t) db.tasks)

unfoldable pub list_task_queue : Option ℕ → List String → ℕ → Tables → Outcome (List Task)
unfolding validate_statuses
list_task_queue workspace_id statuses limit db = do
  validate_statuses statuses
  ok (take limit (queue_rows workspace_id statuses db))

-- One row of `GROUP BY`: the value with the number of its rows.
add_to_group : String → List (String × ℕ) → List (String × ℕ)
add_to_group s [] = (s, 1) ∷ []
add_to_group s ((v, n) ∷ rest) = if v == s then (v, n + 1) ∷ rest else (v, n) ∷ add_to_group s rest

unfoldable pub group_count : (Task → String) → List Task → List (String × ℕ)
unfolding add_to_group
group_count column [] = []
group_count column (t ∷ ts) = add_to_group (column t) (group_count column ts)

-- `groups.get(name, 0)`
unfoldable pub group_get : String → List (String × ℕ) → ℕ
group_get s [] = 0
group_get s ((v, n) ∷ rest) = if v == s then n else group_get s rest

pub record QueueStatus : Type 0 where
  pub total : ℕ
  pub pending : ℕ
  pub running : ℕ
  pub paused : ℕ
  pub by_status : List (String × ℕ)
  pub by_priority : List (String × ℕ)

unfoldable pub get_queue_status : Option ℕ → Tables → QueueStatus
unfolding group_count group_get
get_queue_status workspace_id db =
    let rows = select (in_workspace workspace_id) db.tasks in
    let by_status = group_count (λ t. t.status) rows in
    record {
      total = length rows;
      pending = group_get "pending" by_status;
      running = group_get "running" by_status;
      paused = group_get "paused" by_status;
      by_status = by_status;
      by_priority = group_count (λ t. t.priority) rows;
    }
