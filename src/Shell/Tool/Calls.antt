-- ===== src/Shell/Tool/Calls.antt =====
-- tools/shell_command.py: `submit_command` and `execute_approved_tool_call`. The keys of new rows
-- are arguments; a failed lookup raises before anything is written.
use agent_sam.Prelude.{
  ℕ, String, Bool, false, not, ◌&&◌, ◌||◌, Option, none, some, List, [], ◌∷◌, find, any, contains,
  if◌then◌else◌, ◌==◌, nat_eq, string_eq, Outcome, ok, raise, value_error, ◌>>=◌, option_eq,
}
use agent_sam.Database.{Task, has_id}
use agent_sam.Shell.Classify.{RiskAssessment, classify_command}
use agent_sam.Shell.Store.{
  ShellCommandRequest, InputPayload, ToolCall, Approval, Store, Host, ShellCommandResult, find_call,
}
use agent_sam.Shell.Tool.{
  tool_name, to_result, write_call, resolve_working_directory, assess_request,
  build_approval_reason, execute_tool_call,
}

-- The statuses that `execute_approved_tool_call` goes on from.
abbrev pub waiting_statuses : List String
waiting_statuses = "pending_approval" ∷ "pending" ∷ "blocked" ∷ []

abbrev pub checked_call : Option ToolCall → Outcome ToolCall
checked_call none = raise (value_error "Tool call does not exist.")
checked_call (some c) =
    if c.tool_name == tool_name
    then ok c
    else raise (value_error "Tool call does not belong to shell_command.")

-- `_get_tool_call`
abbrev pub get_tool_call : ℕ → Store → Outcome ToolCall
get_tool_call i s = checked_call (find_call i s)

abbrev approves : ℕ → Approval → Bool
approves i a = (a.tool_call_id == i) && (a.status == "approved")

-- `_is_tool_call_approved`
unfoldable pub is_tool_call_approved : ToolCall → Store → Bool
is_tool_call_approved c s = c.approved_by_user || any (approves c.id) s.approvals

abbrev pub request_of : ToolCall → ShellCommandRequest
request_of c = record {
  command = c.input_payload.command;
  working_directory = c.input_payload.working_directory;
  reason = c.input_payload.reason;
  task_id = c.task_id;
  timeout_seconds = c.input_payload.timeout_seconds;
}

abbrev pub block_call : String → String → ToolCall → ToolCall
block_call risk_level reason c = record c {
  status = "blocked";
  risk_level = risk_level;
  stderr_text = some reason;
}

abbrev pub write_result : ToolCall → Store → ShellCommandResult × Store
write_result c s = (to_result none c, write_call c s)

abbrev pub add_call : ToolCall → Store → Store
add_call c s = record s { tool_calls = c ∷ s.tool_calls }

unfoldable pub build_input_payload : ShellCommandRequest → String → RiskAssessment → InputPayload
build_input_payload r resolved a = record {
  command = r.command;
  working_directory = resolved;
  reason = r.reason;
  timeout_seconds = r.timeout_seconds;
  classification_reason = a.reason;
  matched_rule = a.matched_rule;
}

unfoldable pub approval_row : ℕ → Task → ToolCall → ShellCommandRequest → RiskAssessment → Approval
unfolding build_approval_reason
approval_row i t c r a = record {
  id = i;
  workspace_id = t.workspace_id;
  task_id = t.id;
  tool_call_id = c.id;
  requested_by_user_id = t.created_by_user_id;
  status = "pending";
  reason = build_approval_reason r a;
  metadata_command = r.command;
  metadata_working_directory = c.input_payload.working_directory;
  metadata_matched_rule = a.matched_rule;
}

module _ (h : Host) where
  -- The row that `submit_command` adds.
  unfoldable pub call_row : ℕ → ShellCommandRequest → RiskAssessment → ToolCall
  unfolding resolve_working_directory build_input_payload
  call_row i r a = record {
    id = i;
    task_id = r.task_id;
    tool_name = tool_name;
    input_payload = build_input_payload r (resolve_working_directory h r.working_directory).0 a;
    output_text = none;
    stderr_text = none;
    exit_code = none;
    duration_ms = none;
    status = if a.requires_approval then "pending_approval" else "pending";
    risk_level = a.risk_level;
    approved_by_user = false;
  }

  abbrev pub submit_assessed :
      ℕ
      → ShellCommandRequest
      → RiskAssessment
      → Task
      → ToolCall
      → Store
      → ShellCommandResult × Store
  submit_assessed approval_id r a t c s =
      let stopped = record c { status = "blocked"; stderr_text = some a.reason } in
      let running = record c { status = "running" } in
      if a.blocked
      then (to_result none stopped, add_call stopped s)
      else if a.requires_approval
      then (
        to_result (some approval_id) c,
        record (add_call c s) { approvals = approval_row approval_id t c r a ∷ s.approvals },
      )
      else execute_tool_call h running (add_call running s)

  abbrev pub finish_submit :
      ℕ
      → ℕ
      → ShellCommandRequest
      → RiskAssessment
      → Store
      → Option Task
      → Outcome (ShellCommandResult × Store)
  finish_submit call_id approval_id r a s none = raise (value_error "Task does not exist.")
  finish_submit call_id approval_id r a s (some t) =
      ok (submit_assessed approval_id r a t (call_row call_id r a) s)

  unfoldable pub submit_command :
      ℕ → ℕ → ShellCommandRequest → Store → Outcome (ShellCommandResult × Store)
  submit_command call_id approval_id r s =
      finish_submit call_id approval_id r (assess_request h r) s (find (has_id r.task_id) s.tasks)

  abbrev pub execute_checked :
      ToolCall → RiskAssessment → Option String → Store → ShellCommandResult × Store
  execute_checked c a (some error) s = write_result (block_call "dangerous" error c) s
  execute_checked c a none s =
      let running = record c { status = "running"; risk_level = a.risk_level } in
      if a.blocked
      then write_result (block_call a.risk_level a.reason c) s
      else if a.requires_approval && not (is_tool_call_approved c s)
      then write_result (record c { status = "pending_approval" }) s
      else execute_tool_call h running (write_call running s)

  abbrev pub execute_call : ToolCall → Store → ShellCommandResult × Store
  execute_call c s =
      let r = request_of c in
      if not (contains waiting_statuses c.status)
      then (to_result none c, s)
      else execute_checked c (classify_command h.search r.command)
          (resolve_working_directory h r.working_directory).1 s

  unfoldable pub execute_approved_tool_call : ℕ → Store → Outcome (ShellCommandResult × Store)
  unfolding is_tool_call_approved resolve_working_directory
  execute_approved_tool_call i s = get_tool_call i s >>= λ c. ok (execute_call c s)
