-- ===== src/TaskQueue/Change.antt =====
-- db/task_queue.py: `update_task_status`, its callers and `reprioritize_task`.
pub mod Lifecycle
use agent_sam.Prelude.{
  ℕ, String, Bool, not, ◌||◌, Option, none, some, List, ◌==◌, leb, if◌then◌else◌, contains, select,
  update, head?, order_by, Outcome, ok, nat_eq, string_eq, option_eq, ◌>>◌,
}
use agent_sam.Database.{Task, TaskRun, Tables, has_id, get_task}
use agent_sam.TaskQueue.Rules.{
  pending_task_statuses, active_task_statuses, terminal_task_statuses, validate_priority,
  validate_status, set_if_none,
}

later_attempt : TaskRun → TaskRun → Bool
later_attempt r s = leb s.attempt_number r.attempt_number

pub latest_task_run : (ℕ → Bool) → ℕ → Tables → Option TaskRun
latest_task_run locked task_id db = head? (
    select (λ r. not (locked r.id))
      (order_by later_attempt (select (λ r. r.task_id == task_id) db.task_runs)))

-- `a or b` for optional texts: an empty text counts as missing.
abbrev or_text : Option String → Option String → Option String
or_text none b = b
or_text (some a) b = if a == "" then b else some a

-- What `update_task_status` writes to the task.
unfoldable pub with_status : ℕ → String → Option String → Task → Task
with_status now status worker t =
    if status == "running"
    then record t {
      status = status;
      assigned_worker = or_text worker t.assigned_worker;
      started_at = set_if_none now t.started_at;
      completed_at = none;
    }
    else if contains pending_task_statuses status || status == "paused"
    then record t { status = status; assigned_worker = none; completed_at = none }
    else record t { status = status; assigned_worker = none; completed_at = some now }

abbrev keep_or_set : Option String → Option String → Option String
keep_or_set none old = old
keep_or_set (some e) old = some e

-- What it writes to the latest run.
unfoldable pub run_with_status : ℕ → String → Option String → TaskRun → TaskRun
run_with_status now status error_text r = record r {
  status = status;
  started_at =
      if contains active_task_statuses status then set_if_none now r.started_at else r.started_at;
  completed_at =
      if contains terminal_task_statuses status || status == "paused"
      then some now
      else r.completed_at;
  error_text = keep_or_set error_text r.error_text;
}

unfoldable pub update_run : (ℕ → Bool) → ℕ → String → Option String → ℕ → Tables → List TaskRun
update_run locked_runs now status error_text task_id db =
    elim (latest_task_run locked_runs task_id db) [
      | none ↦ db.task_runs
      | some r ↦ update (λ s. s.id == r.id) (run_with_status now status error_text) db.task_runs
    ]

-- The row of the key, unless another transaction holds it.
abbrev pub select_for_update : (ℕ → Bool) → ℕ → Tables → Option Task
select_for_update locked task_id db = if locked task_id then none else get_task task_id db

-- The locks of tasks and of runs, the clock, and the arguments of a status change.
pub record StatusChange : Type 0 where
  pub now : ℕ
  pub task_id : ℕ
  pub status : String
  pub assigned_worker : Option String
  pub error_text : Option String

-- The rows of the task and of its latest run, written.
abbrev pub write_status : (ℕ → Bool) → StatusChange → Tables → Tables
write_status locked_runs c db = record {
  tasks = update (has_id c.task_id) (with_status c.now c.status c.assigned_worker) db.tasks;
  task_runs = update_run locked_runs c.now c.status c.error_text c.task_id db;
}

abbrev pub finish_change :
    (ℕ → Bool) → StatusChange → Tables → Option Task → Outcome (Option Task × Tables)
finish_change locked_runs c db none = ok (none, db)
finish_change locked_runs c db (some t) =
    ok (some (with_status c.now c.status c.assigned_worker t), write_status locked_runs c db)

unfoldable pub update_task_status :
    (ℕ → Bool) → (ℕ → Bool) → StatusChange → Tables → Outcome (Option Task × Tables)
update_task_status locked locked_runs c db = do
  validate_status c.status
  finish_change locked_runs c db (select_for_update locked c.task_id db)

abbrev pub finish_reprioritize : ℕ → String → Tables → Option Task → Outcome (Option Task × Tables)
finish_reprioritize task_id priority db none = ok (none, db)
finish_reprioritize task_id priority db (some t) = ok (
  some (record t { priority = priority }),
  record db { tasks = update (has_id task_id) (λ u. record u { priority = priority }) db.tasks },
)

unfoldable pub reprioritize_task : (ℕ → Bool) → ℕ → String → Tables → Outcome (Option Task × Tables)
reprioritize_task locked task_id priority db = do
  validate_priority priority
  finish_reprioritize task_id priority db (select_for_update locked task_id db)

abbrev pub change : ℕ → ℕ → String → Option String → StatusChange
change now task_id status error_text = record {
  now = now;
  task_id = task_id;
  status = status;
  assigned_worker = none;
  error_text = error_text;
}

module _ (locked locked_runs : ℕ → Bool) (now task_id : ℕ) where
  unfoldable pub pause_task : Tables → Outcome (Option Task × Tables)
  unfolding update_task_status
  pause_task = update_task_status locked locked_runs (change now task_id "paused" none)

  unfoldable pub resume_task : Tables → Outcome (Option Task × Tables)
  unfolding update_task_status
  resume_task = update_task_status locked locked_runs (change now task_id "pending" none)

  unfoldable pub cancel_task : Tables → Outcome (Option Task × Tables)
  unfolding update_task_status
  cancel_task = update_task_status locked locked_runs (change now task_id "cancelled" none)

  unfoldable pub complete_task : Tables → Outcome (Option Task × Tables)
  unfolding update_task_status
  complete_task = update_task_status locked locked_runs (change now task_id "completed" none)

  unfoldable pub fail_task : Option String → Tables → Outcome (Option Task × Tables)
  unfolding update_task_status
  fail_task error_text =
      update_task_status locked locked_runs (change now task_id "failed" error_text)
