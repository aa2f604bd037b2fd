-- ===== src/Database.antt =====
-- The rows of db/models.py that the modelled services read and write, as records.
-- A UUID is a number, and so is a point in time. Columns that no modelled code touches, the
-- relationships between rows and `updated_at` are left out.
use agent_sam.Prelude.{ℕ, String, Bool, Option, List, Json, find, ◌==◌, nat_eq}

pub record Task : Type 0 where
  pub id : ℕ
  pub created_at : ℕ
  pub workspace_id : ℕ
  pub created_by_user_id : Option ℕ
  pub parent_task_id : Option ℕ
  pub title : String
  pub description : Option String
  pub priority : String
  pub status : String
  pub assigned_worker : Option String
  pub metadata_json : Json
  pub started_at : Option ℕ
  pub completed_at : Option ℕ

pub record TaskRun : Type 0 where
  pub id : ℕ
  pub task_id : ℕ
  pub worker_name : Option String
  pub attempt_number : ℕ
  pub status : String
  pub started_at : Option ℕ
  pub completed_at : Option ℕ
  pub error_text : Option String

-- The two tables of the queue.
pub record Tables : Type 0 where
  pub tasks : List Task
  pub task_runs : List TaskRun

abbrev pub has_id : ℕ → Task → Bool
has_id i t = t.id == i

-- `session.get(Task, task_id)`
abbrev pub get_task : ℕ → Tables → Option Task
get_task i db = find (has_id i) db.tasks
