-- ===== src/Shell/Tests.antt =====
-- Runs of the shell tool, and its theorems at concrete data.
use agent_sam.Prelude.{
  String, true, ◌&&◌, none, [], ◌∷◌, ◌≡◌, refl, pos, ok, Json, Fields, starts_with, string_eq,
  nat_eq, ◌||◌, Outcome, raise, map, option_eq,
}
use agent_sam.Database.{Task}
use agent_sam.Shell.Rules.{
  Search, blocked_rules, dangerous_rules, high_risk_rules, medium_risk_rules,
}
use agent_sam.Shell.SafeRules.{safe_rules}
use agent_sam.Shell.Classify.{classify_target, classify_command, match_rule, first_level}
use agent_sam.Shell.Classify.Levels.{
  any_match, expected_level, expected_approval, classify_command_levels,
}
use agent_sam.Shell.Store.{Approval, ShellCommandRequest, Store, exited, Host, ShellCommandResult}
use agent_sam.Shell.Tool.{
  to_result, truncate_output, resolve_working_directory, execute_tool_call, build_approval_reason,
}
use agent_sam.Shell.Tool.Calls.{
  submit_command, execute_approved_tool_call, call_row, approval_row, build_input_payload,
  is_tool_call_approved,
}
use agent_sam.Shell.Tool.Steps.{IsStep}
use agent_sam.Shell.Tool.Safety.{execute_approved_tool_call-IsStep}
use agent_sam.Shell.Tool.Once.{
  IsReachable, started, submitted_command, executed_call, decided, IsSafe, IsReachable-IsSafe,
}

-- A search that looks for two words only.
abbrev search : Search
search pattern command =
    (starts_with command "shutdown" && starts_with pattern "(^|\\s)(shutdown")
    || (starts_with command "doas" && starts_with pattern "\\b(sudo")

abbrev host : Host
host = record {
  search = search;
  resolve = λ path. path;
  is_directory = λ path. true;
  in_allowed_roots = λ path. starts_with path "/work";
  run = λ p timeout. exited (pos 0) "done" "";
  elapsed_ms = λ p. 12;
  timeout_text = λ t. "60.0";
}

abbrev request : String → String → ShellCommandRequest
request command wd = record {
  command = command;
  working_directory = wd;
  reason = "r";
  task_id = 1;
  timeout_seconds = 60;
}

abbrev task : Task
task = record {
  id = 1;
  created_at = 1;
  workspace_id = 7;
  created_by_user_id = none;
  parent_task_id = none;
  title = "t";
  description = none;
  priority = "normal";
  status = "running";
  assigned_worker = none;
  metadata_json = Json.obj Fields.end;
  started_at = none;
  completed_at = none;
}

abbrev store : Store
store = record { tasks = task ∷ []; tool_calls = []; approvals = []; spawned = [] }

abbrev blank : ShellCommandResult × Store
blank =
    (to_result none (call_row host 5 (request "ls" "/work") (classify_command search "ls")), store)

abbrev outcome : Outcome (ShellCommandResult × Store) → ShellCommandResult × Store
outcome (ok pair) = pair
outcome (raise e) = blank

abbrev submit : String → String → Store → ShellCommandResult × Store
submit command wd s = outcome (submit_command host 5 6 (request command wd) s)

abbrev execute : Store → ShellCommandResult × Store
execute s = outcome (execute_approved_tool_call host 5 s)

abbrev approved : Approval → Approval
approved a = record a { status = "approved" }

abbrev approve : Store → Store
approve s = record s { approvals = map approved s.approvals }

program : Unit {0}
unfolding submit_command execute_approved_tool_call call_row approval_row build_input_payload
    is_tool_call_approved to_result truncate_output resolve_working_directory execute_tool_call
    build_approval_reason classify_command match_rule first_level classify_target blocked_rules
    dangerous_rules high_risk_rules medium_risk_rules safe_rules
program = tt

submit_blocked : (submit "  sudo   shutdown now" "/work" store).0.status ≡ "blocked"
unfolding program
submit_blocked = refl

submit_completed : (submit "ls" "/work" store).0.status ≡ "completed"
unfolding program
submit_completed = refl

submit_outside : (submit "ls" "/etc" store).0.status ≡ "blocked"
unfolding program
submit_outside = refl

submit_waits : (submit "doas ls" "/work" store).0.status ≡ "pending_approval"
unfolding program
submit_waits = refl

execute_waits : (execute (submit "doas ls" "/work" store).1).0.status ≡ "pending_approval"
unfolding program
execute_waits = refl

execute_approved : (execute (approve (submit "doas ls" "/work" store).1)).0.status ≡ "completed"
unfolding program
execute_approved = refl

classify_command_levels_example :
    let a = classify_command search "doas ls" in
    let t = classify_target "doas ls" in
    (a.blocked ≡ any_match search blocked_rules t)
    × (a.requires_approval ≡ expected_approval search t)
    × (a.risk_level ≡ expected_level search t)
classify_command_levels_example = classify_command_levels search "doas ls"

abbrev submitted_store : Store
submitted_store = approve (submit "doas ls" "/work" store).1

execute_approved_tool_call-IsStep_example :
    IsStep host 5 submitted_store (execute submitted_store).1
unfolding program
execute_approved_tool_call-IsStep_example =
    execute_approved_tool_call-IsStep host 5 submitted_store (execute submitted_store).1
      (execute submitted_store).0 refl

submitted_store-IsReachable : IsReachable host submitted_store
unfolding program
submitted_store-IsReachable =
    decided (submit "doas ls" "/work" store).1 (task ∷ []) submitted_store.approvals (
      submitted_command 5 6 (request "doas ls" "/work") store (submit "doas ls" "/work" store).1
        (submit "doas ls" "/work" store).0 (started (task ∷ []) []) refl refl)

executed-IsReachable : IsReachable host (execute submitted_store).1
unfolding program
executed-IsReachable =
    executed_call 5 submitted_store (execute submitted_store).1 (execute submitted_store).0
      submitted_store-IsReachable refl

IsReachable-IsSafe_example : IsSafe host (execute submitted_store).1
IsReachable-IsSafe_example =
    IsReachable-IsSafe host (λ path. refl) (execute submitted_store).1 executed-IsReachable
