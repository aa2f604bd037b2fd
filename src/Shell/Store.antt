-- ===== src/Shell/Store.antt =====
-- The rows of tools/shell_command.py and db/models.py that the shell tool writes, and its host: the
-- file system, the shell and the text of a time limit. `spawned` lists the processes that were
-- started, the latest first.
use agent_sam.Prelude.{ℕ, String, Bool, Option, List, ℤ, find, ◌==◌, nat_eq}
use agent_sam.Database.{Task}
use agent_sam.Shell.Rules.{Search}

pub record ShellCommandRequest : Type 0 where
  pub command : String
  pub working_directory : String
  pub reason : String
  pub task_id : ℕ
  pub timeout_seconds : ℕ

-- The keys of `_build_input_payload`.
pub record InputPayload : Type 0 where
  pub command : String
  pub working_directory : String
  pub reason : String
  pub timeout_seconds : ℕ
  pub classification_reason : String
  pub matched_rule : String

pub record ToolCall : Type 0 where
  pub id : ℕ
  pub task_id : ℕ
  pub tool_name : String
  pub input_payload : InputPayload
  pub output_text : Option String
  pub stderr_text : Option String
  pub exit_code : Option ℤ
  pub duration_ms : Option ℕ
  pub status : String
  pub risk_level : String
  pub approved_by_user : Bool

-- The columns of an approval that the shell tool writes and reads.
pub record Approval : Type 0 where
  pub id : ℕ
  pub workspace_id : ℕ
  pub task_id : ℕ
  pub tool_call_id : ℕ
  pub requested_by_user_id : Option ℕ
  pub status : String
  pub reason : String
  pub metadata_command : String
  pub metadata_working_directory : String
  pub metadata_matched_rule : String

pub record Process : Type 0 where
  pub tool_call_id : ℕ
  pub command : String
  pub cwd : String

pub record Store : Type 0 where
  pub tasks : List Task
  pub tool_calls : List ToolCall
  pub approvals : List Approval
  pub spawned : List Process

-- How a process ended: in time with its exit code and its two outputs, or killed at the limit.
pub data Ending : Type 0 where
  exited : ℤ → (stdout stderr : String) → Ending
  timed_out : ℤ → (stdout stderr : String) → Ending

pub record Host : Type 0 where
  pub search : Search
  -- `(default_root / raw).resolve()` or `raw.resolve()`
  pub resolve : String → String
  pub is_directory : String → Bool
  -- `any(resolved.is_relative_to(root) for root in allowed_roots)`
  pub in_allowed_roots : String → Bool
  pub run : Process → ℕ → Ending
  pub elapsed_ms : Process → ℕ
  pub timeout_text : ℕ → String

pub record ShellCommandResult : Type 0 where
  pub tool_call_id : ℕ
  pub status : String
  pub risk_level : String
  pub requires_approval : Bool
  pub approved_by_user : Bool
  pub stdout : String
  pub stderr : String
  pub exit_code : Option ℤ
  pub duration_ms : Option ℕ
  pub approval_id : Option ℕ

abbrev pub has_call_id : ℕ → ToolCall → Bool
has_call_id i c = c.id == i

abbrev pub find_call : ℕ → Store → Option ToolCall
find_call i s = find (has_call_id i) s.tool_calls
