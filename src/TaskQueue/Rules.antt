-- ===== src/TaskQueue/Rules.antt =====
-- db/task_queue.py: the constants, the validation, and the order of the queue.
pub mod Order
pub mod Checks
use agent_sam.Prelude.{
  ℕ, String, ◌<>◌, Bool, true, ◌&&◌, ◌||◌, Option, none, some, List, [], ◌∷◌, ◌==◌, ltb, leb,
  if◌then◌else◌, contains, Outcome, ok, raise, value_error, nat_eq, string_eq, option_eq,
}
use agent_sam.Database.{Task}

abbrev pub task_priority_rank : List (String × ℕ)
task_priority_rank = ("urgent", 0) ∷ ("high", 1) ∷ ("normal", 2) ∷ ("low", 3) ∷ ("backlog", 4) ∷ []

abbrev pub task_priorities : List String
task_priorities = "urgent" ∷ "high" ∷ "normal" ∷ "low" ∷ "backlog" ∷ []

abbrev pub pending_task_statuses : List String
pending_task_statuses = "pending" ∷ []

abbrev pub active_task_statuses : List String
active_task_statuses = "running" ∷ []

abbrev pub terminal_task_statuses : List String
terminal_task_statuses = "completed" ∷ "failed" ∷ "cancelled" ∷ []

abbrev pub allowed_task_statuses : List String
allowed_task_statuses = "pending" ∷ "running" ∷ "paused" ∷ "completed" ∷ "failed" ∷ "cancelled" ∷ []

unfoldable pub validate_priority : String → Outcome String
validate_priority priority =
    if contains task_priorities priority
    then ok priority
    else raise (value_error ("Invalid task priority: " <> priority))

unfoldable pub validate_status : String → Outcome String
validate_status status =
    if contains allowed_task_statuses status
    then ok status
    else raise (value_error ("Invalid task status: " <> status))

-- The `CASE` of `priority_ordering`, its `ELSE` included.
rank_in : List (String × ℕ) → String → ℕ
rank_in [] priority = 5
rank_in ((p, rank) ∷ rest) priority = if p == priority then rank else rank_in rest priority

unfoldable pub priority_ordering : Task → ℕ
unfolding rank_in
priority_ordering t = rank_in task_priority_rank t.priority

-- `ORDER BY priority_ordering(), created_at ASC`
unfoldable pub queue_before : Task → Task → Bool
queue_before t u =
    ltb (priority_ordering t) (priority_ordering u)
    || (priority_ordering t == priority_ordering u && leb t.created_at u.created_at)

abbrev pub in_workspace : Option ℕ → Task → Bool
in_workspace none t = true
in_workspace (some w) t = t.workspace_id == w

abbrev pub set_if_none : ℕ → Option ℕ → Option ℕ
set_if_none now none = some now
set_if_none now (some t) = some t
