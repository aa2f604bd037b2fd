-- ===== src/Harness/Tests.antt =====
-- A run of the harness with a model that searches and then finishes, and the theorems at it.
use agent_sam.Prelude.{
  List, Outcome, raise, if◌then◌else◌, ◌==◌, ℕ, zero, suc, String, true, false, ◌&&◌, none, some,
  [], ◌∷◌, ◌≡◌, refl, ok, starts_with, string_eq, nat_eq, Json, Fields, option_eq,
}
use agent_sam.Database.{Task}
use agent_sam.Harness.Actions.{Action, file_read, message, finish}
use agent_sam.Harness.Policies.{PolicySettings, PolicyHost, evaluate, evaluate_path}
use agent_sam.Harness.Policies.Soundness.{permits, is_attended, IsDecision, evaluate-IsDecision}
use agent_sam.Harness.Registry.{Event, Handler, register_tool, get_tool, validate_tool_input}
use agent_sam.Harness.Executor.{
  State, Executor, plain, execute_action, tool_name_for_action, record_tool_call,
}
use agent_sam.Harness.Executor.Guard.{IsGuarded, execute_action-IsGuarded}
use agent_sam.Harness.Executor.Builtin.{
  builtin_tools, register_builtin_tools, is_raised, execute_action-raised,
}
use agent_sam.Harness.Loop.{
  AgentRunResult, HarnessLoop, ModelResponse, ModelRequest, run_task, iterate,
}
use agent_sam.Harness.Loop.Safety.{IsGuardedRun, IsSummarised, run_task-IsGuardedRun}

abbrev settings : PolicySettings
settings = record {
  github_auto_create_pr = false;
  agent_require_approval_for_installs = true;
  agent_allow_network_installs = false;
}

-- A search that finds `shutdown` at the start of a text, and paths that are inside below `/w`.
abbrev policy_host : PolicyHost
policy_host = record {
  re_search = λ pattern text. starts_with pattern "(^|\\s)(rm" && starts_with text "shutdown";
  resolve_path = λ path root. path;
  is_inside = λ path root. starts_with path root;
}

abbrev handlers : String → Handler
handlers name a j = (ok (plain name), j)

abbrev executor : Executor
executor = record {
  settings = settings;
  policy_host = policy_host;
  tools = register_builtin_tools handlers [];
  task_id = 1;
  workspace_root = "/w";
  approval_key = λ j. 9;
  redact_secret_text = λ text. if text == "done, token=t-1" then "done, token [REDACTED]" else text;
}

abbrev task : Task
task = record {
  id = 1;
  created_at = 1;
  workspace_id = 7;
  created_by_user_id = none;
  parent_task_id = none;
  title = "t";
  description = none;
  priority = "normal";
  status = "running";
  assigned_worker = none;
  metadata_json = Json.obj Fields.end;
  started_at = none;
  completed_at = none;
}

abbrev state : State
state = record {
  journal = record { tasks = task ∷ []; events = []; approvals = []; tool_calls = [] };
  handled = [];
}

abbrev response : Action → ModelResponse
response a = record {
  success = true;
  action = some a;
  content = "";
  error = none;
  actual_cost = some 3;
}

-- Reads outside the workspace, then inside it, and finishes.
abbrev answers : ℕ → Action
answers zero = file_read "/etc/passwd"
answers (suc zero) = file_read "/w/a"
answers (suc (suc n)) = finish "done, token=t-1"

abbrev harness : HarnessLoop
harness = record {
  agent_loop_max_iterations = 5;
  agent_loop_max_repeated_errors = 2;
  executor = executor;
  next_action = λ (r : ModelRequest). response (answers r.iteration);
  runtime_exceeded = λ i. false;
  initial_user_message = none;
}

program : Unit {0}
unfolding evaluate evaluate_path execute_action tool_name_for_action record_tool_call builtin_tools
    register_builtin_tools register_tool get_tool validate_tool_input run_task iterate
program = tt

run_task-handled : (run_task harness state).1.handled ≡ file_read "/w/a" ∷ []
unfolding program
run_task-handled = refl

abbrev summary_of : Outcome AgentRunResult → String
summary_of (ok r) = r.final_summary
summary_of (raise e) = ""

abbrev last_text : List Event → String
last_text [] = ""
last_text (e ∷ events) = e.content

-- The summary is returned as it is, and stored with its secret redacted.
returned_summary : summary_of (run_task harness state).0 ≡ "done, token=t-1"
unfolding program
returned_summary = refl

stored_summary : last_text (run_task harness state).1.journal.events ≡ "done, token [REDACTED]"
unfolding program
stored_summary = refl

evaluate-IsDecision_example :
    let a = file_read "/etc/passwd" in
    IsDecision settings policy_host
      (permits settings policy_host a "/w")
      (is_attended settings policy_host a)
      (evaluate settings policy_host a "/w")
evaluate-IsDecision_example =
    evaluate-IsDecision settings policy_host (file_read "/etc/passwd") "/w"

execute_action-IsGuarded_example :
    IsGuarded executor state (execute_action executor (file_read "/w/a") state).1
execute_action-IsGuarded_example = execute_action-IsGuarded executor (file_read "/w/a") state

execute_action-raised_example : is_raised (execute_action executor (message "hello") state).0 ≡ true
execute_action-raised_example =
    execute_action-raised executor handlers (message "hello") state refl refl refl

run_task-IsGuardedRun_example :
    IsGuardedRun harness 5 state (run_task harness state).1
    × IsSummarised harness (run_task harness state)
run_task-IsGuardedRun_example = run_task-IsGuardedRun harness state
