-- ===== src/TaskQueue/Claim.antt =====
-- db/task_queue.py: `claim_next_task`.
pub mod Order
pub mod Exclusive
use agent_sam.Prelude.{
  ℕ, ◌+◌, String, Bool, not, Option, none, some, List, [], ◌∷◌, ◌++◌, max, ◌==◌, if◌then◌else◌,
  select, update, head?, nat_eq, string_eq, option_eq,
}
use agent_sam.Database.{Task, TaskRun, Tables, has_id}
use agent_sam.TaskQueue.Rules.{pending_task_statuses, set_if_none}
use agent_sam.TaskQueue.Listing.{queue_rows}

-- `coalesce(max(attempt_number), 0)` over the task's runs.
unfoldable pub max_attempt_number : ℕ → List TaskRun → ℕ
max_attempt_number task_id [] = 0
max_attempt_number task_id (r ∷ rs) =
    max (if r.task_id == task_id then r.attempt_number else 0) (max_attempt_number task_id rs)

unfoldable pub next_attempt_number : ℕ → Tables → ℕ
unfolding max_attempt_number
next_attempt_number task_id db = max_attempt_number task_id db.task_runs + 1

-- What `claim_next_task` writes to the row.
abbrev pub claimed : ℕ → String → Task → Task
claimed now worker t = record t {
  status = "running";
  assigned_worker = some worker;
  started_at = set_if_none now t.started_at;
  completed_at = none;
}

-- The row that the `SELECT … LIMIT 1 FOR UPDATE SKIP LOCKED` returns.
pub next_pending : (ℕ → Bool) → Option ℕ → Tables → Option Task
next_pending locked workspace_id db =
    head? (select (λ t. not (locked t.id)) (queue_rows workspace_id pending_task_statuses db))

abbrev run_row : ℕ → ℕ → String → ℕ → ℕ → TaskRun
run_row id now worker task_id attempt = record {
  id = id;
  task_id = task_id;
  worker_name = some worker;
  attempt_number = attempt;
  status = "running";
  started_at = some now;
  completed_at = none;
  error_text = none;
}

abbrev pub claim_row : ℕ → ℕ → String → Task → Tables → Tables
claim_row run_id now worker t db = record {
  tasks = update (has_id t.id) (claimed now worker) db.tasks;
  task_runs = db.task_runs ++ (run_row run_id now worker t.id (next_attempt_number t.id db) ∷ []);
}

-- The arguments of a call, with the locks, the key of the new run and the clock.
pub record ClaimCall : Type 0 where
  pub locked : ℕ → Bool
  pub run_id : ℕ
  pub now : ℕ
  pub worker_name : String
  pub workspace_id : Option ℕ

unfoldable pub claim_next_task : ClaimCall → Tables → Option Task × Tables
unfolding next_pending next_attempt_number
claim_next_task c db = elim (next_pending c.locked c.workspace_id db) [
  | none ↦ (none, db)
  | some t ↦ (some (claimed c.now c.worker_name t), claim_row c.run_id c.now c.worker_name t db)
]
