-- ===== src/Shell/Tool.antt =====
-- tools/shell_command.py: the parts of `ShellCommandTool` that its two calls share.
pub mod Calls
pub mod Steps
pub mod Safety
pub mod Once
use agent_sam.Prelude.{
  ℕ, zero, ◌++◌, String, ◌<>◌, Bool, true, false, not, ◌&&◌, ◌||◌, Option, none, some, List, [],
  ◌∷◌, ℤ, pos, negsuc, max, find, any, update, contains, ltb, if◌then◌else◌, ◌==◌, nat_eq,
  string_eq, strip, take_chars, char_count, Outcome, ok, raise, value_error, ◌>>=◌, ◌>>◌,
}
use agent_sam.Database.{Task, has_id}
use agent_sam.Shell.Classify.{RiskAssessment, classify_command}
use agent_sam.Shell.Store.{
  ShellCommandRequest, InputPayload, ToolCall, Approval, Process, Store, Ending, exited, timed_out,
  Host, ShellCommandResult, has_call_id, find_call,
}

abbrev pub tool_name : String
tool_name = "shell_command"

abbrev text_or_empty : Option String → String
text_or_empty none = ""
text_or_empty (some t) = t

-- `text or None`
abbrev none_if_empty : String → Option String
none_if_empty t = if t == "" then none else some t

unfoldable pub to_result : Option ℕ → ToolCall → ShellCommandResult
to_result approval_id c = record {
  tool_call_id = c.id;
  status = c.status;
  risk_level = c.risk_level;
  requires_approval = c.status == "pending_approval";
  approved_by_user = c.approved_by_user;
  stdout = text_or_empty c.output_text;
  stderr = text_or_empty c.stderr_text;
  exit_code = c.exit_code;
  duration_ms = c.duration_ms;
  approval_id = approval_id;
}

abbrev max_output_chars : ℕ
max_output_chars = 24000

unfoldable pub truncate_output : String → String
truncate_output text =
    if ltb max_output_chars (char_count text)
    then take_chars max_output_chars text <> "\n[output truncated]"
    else text

unfoldable pub build_approval_reason : ShellCommandRequest → RiskAssessment → String
build_approval_reason r a =
    r.reason
    <> ("\nCommand: "
        <> (r.command
            <> ("\nWorking directory: "
                <> (r.working_directory
                    <> ("\nRisk: " <> (a.risk_level <> ("\nReason: " <> a.reason)))))))

abbrev pub write_call : ToolCall → Store → Store
write_call c s = record s { tool_calls = update (has_call_id c.id) (λ _. c) s.tool_calls }

module _ (h : Host) where
  -- `_resolve_working_directory`: the path, and what is wrong with it.
  unfoldable pub resolve_working_directory : String → String × Option String
  resolve_working_directory raw =
      let resolved = h.resolve raw in
      if not (h.is_directory resolved)
      then (resolved, some "Working directory does not exist or is not a directory.")
      else if not (h.in_allowed_roots resolved)
      then (resolved, some "Working directory is outside the allowed command roots.")
      else (resolved, none)

  abbrev pub guard_directory : Option String → RiskAssessment → RiskAssessment
  guard_directory none a = a
  guard_directory (some error) a = record {
    risk_level = "dangerous";
    requires_approval = false;
    blocked = true;
    reason = error;
    matched_rule = "working-directory-guard";
  }

  -- The assessment of a request, its working directory included.
  abbrev pub assess_request : ShellCommandRequest → RiskAssessment
  assess_request r =
      guard_directory (resolve_working_directory r.working_directory).1
        (classify_command h.search r.command)

  abbrev pub exit_status : ℤ → String
  exit_status (pos zero) = "completed"
  exit_status code = "failed"

  -- What `_execute_tool_call` writes once the process has ended.
  abbrev pub finished : ℕ → ℕ → Ending → ToolCall → ToolCall
  finished timeout elapsed (exited code stdout stderr) c = record c {
    output_text = none_if_empty (truncate_output stdout);
    stderr_text = none_if_empty (truncate_output stderr);
    exit_code = some code;
    duration_ms = some (max 1 elapsed);
    status = exit_status code;
  }
  finished timeout elapsed (timed_out code stdout stderr) c = record c {
    output_text = none_if_empty (truncate_output stdout);
    stderr_text = none_if_empty (
        truncate_output (
          strip
            (stderr <> ("\nCommand timed out after " <> (h.timeout_text timeout <> " seconds.")))));
    exit_code = some code;
    duration_ms = some (max 1 elapsed);
    status = "timed_out";
  }

  abbrev pub process_of : ToolCall → Process
  process_of c = record {
    tool_call_id = c.id;
    command = c.input_payload.command;
    cwd = c.input_payload.working_directory;
  }

  -- `_execute_tool_call`, on the row that it reads again.
  unfoldable pub execute_tool_call : ToolCall → Store → ShellCommandResult × Store
  unfolding truncate_output
  execute_tool_call c s =
      let p = process_of c in
      let timeout = c.input_payload.timeout_seconds in
      let c' = finished timeout (h.elapsed_ms p) (h.run p timeout) c in
      (to_result none c', record (write_call c' s) { spawned = p ∷ s.spawned })
