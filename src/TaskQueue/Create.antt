-- ===== src/TaskQueue/Create.antt =====
-- db/task_queue.py: `create_task`, `create_subtask` and `list_subtasks`.
use agent_sam.Prelude.{
  ℕ, String, Option, none, some, List, [], ◌∷◌, ◌++◌, Json, Fields, ◌==◌, if◌then◌else◌, select,
  order_by, Outcome, ok, raise, value_error, nat_eq, string_eq, option_eq, ◌>>◌,
}
use agent_sam.Database.{Task, Tables, get_task}
use agent_sam.TaskQueue.Rules.{validate_priority, validate_status, queue_before}

pub record TaskRequest : Type 0 where
  pub workspace_id : ℕ
  pub title : String
  pub description : Option String
  pub priority : String
  pub status : String
  pub parent_task_id : Option ℕ
  pub assigned_worker : Option String
  pub created_by_user_id : Option ℕ
  pub metadata_json : Option Json

abbrev pub json_or_empty : Option Json → Json
json_or_empty none = Json.obj Fields.end
json_or_empty (some j) = j

-- The lookup of the parent in `create_task`.
unfoldable pub check_parent : Option ℕ → ℕ → Tables → Outcome (Unit {0})
check_parent none workspace_id db = ok tt
check_parent (some parent_id) workspace_id db = elim (get_task parent_id db) [
  | none ↦ raise (value_error "Parent task does not exist.")
  | some parent ↦
      if parent.workspace_id == workspace_id
      then ok tt
      else raise (value_error "Subtasks must belong to the same workspace as their parent task.")
]

abbrev pub task_row : ℕ → ℕ → TaskRequest → Task
task_row id now r = record {
  id = id;
  created_at = now;
  workspace_id = r.workspace_id;
  created_by_user_id = r.created_by_user_id;
  parent_task_id = r.parent_task_id;
  title = r.title;
  description = r.description;
  priority = r.priority;
  status = r.status;
  assigned_worker = r.assigned_worker;
  metadata_json = json_or_empty r.metadata_json;
  started_at = none;
  completed_at = none;
}

unfoldable pub create_task : ℕ → ℕ → TaskRequest → Tables → Outcome (Task × Tables)
unfolding validate_priority validate_status check_parent
create_task id now r db = do
  validate_priority r.priority
  validate_status r.status
  check_parent r.parent_task_id r.workspace_id db
  ok (task_row id now r, record db { tasks = db.tasks ++ (task_row id now r ∷ []) })

-- The parent's workspace and key replace those of the request.
abbrev pub for_parent : Task → TaskRequest → TaskRequest
for_parent parent r = record r {
  workspace_id = parent.workspace_id;
  parent_task_id = some parent.id;
}

unfoldable pub create_subtask : ℕ → ℕ → ℕ → TaskRequest → Tables → Outcome (Task × Tables)
create_subtask id now parent_task_id r db = elim (get_task parent_task_id db) [
  | none ↦ raise (value_error "Parent task does not exist.")
  | some parent ↦ create_task id now (for_parent parent r) db
]

pub list_subtasks : ℕ → Tables → List Task
list_subtasks parent_task_id db =
    order_by queue_before (select (λ t. t.parent_task_id == some parent_task_id) db.tasks)
