-- ===== src/Harness/Executor.antt =====
-- harness/tool_executor.py: `ToolExecutor.execute_action` and the table of the built-in tools. The
-- handlers are arguments. `handled` lists the actions that
-- were passed to a handler, the latest first.
pub mod Guard
pub mod Builtin
use agent_sam.Prelude.{
  ℕ, String, ◌<>◌, Bool, true, false, not, ◌&&◌, Option, none, some, List, [], ◌∷◌, find,
  if◌then◌else◌, ◌==◌, nat_eq, string_eq, Outcome, ok, raise, Exception, value_error, is_some,
}
use agent_sam.Prelude.{exception_name, exception_text}
use agent_sam.Database.{Task, has_id}
use agent_sam.Harness.Actions.{Action, action_type, finish}
use agent_sam.Harness.Policies.{PolicySettings, PolicyHost, PolicyDecision, evaluate}
use agent_sam.Harness.Registry.{
  Observation, ActionApproval, LoggedCall, Journal, Handler, ToolSpec, append, get_tool,
  validate_tool_input,
}

pub record State : Type 0 where
  pub journal : Journal
  pub handled : List Action

pub record Executor : Type 0 where
  pub settings : PolicySettings
  pub policy_host : PolicyHost
  pub tools : List ToolSpec
  pub task_id : ℕ
  pub workspace_root : String
  -- The key of the next approval.
  pub approval_key : Journal → ℕ
  -- `_redact_secret_text`, which replaces the matches of a regular expression.
  pub redact_secret_text : String → String

abbrev pub plain : String → Observation
plain summary = record {
  observation_type = "observation";
  success = true;
  summary = summary;
  stderr = none;
  tool_call_id = none;
  error_type = "";
  error_message = "";
  approval_id = none;
  status = "";
}

abbrev pub error_observation : String → String → Observation
error_observation error_type text = record (plain text) {
  observation_type = "error";
  success = false;
  error_type = error_type;
  error_message = text;
}

abbrev pub pending_observation : ℕ → String → Observation
pending_observation approval_id reason = record (plain reason) {
  observation_type = "approval";
  success = false;
  approval_id = some approval_id;
  status = "pending";
}

-- `_tool_name_for_action`
unfoldable pub tool_name_for_action : Action → String
tool_name_for_action a =
    let t = action_type a in
    if t == "shell" then "safe_shell" else if t == "browser" then "browser_tool" else t

-- `_record_tool_call`
unfoldable pub record_tool_call : ℕ → String → Observation → Action → Journal → Journal
record_tool_call task_id tool_name o a j =
    if (tool_name == "safe_shell") && ((o.observation_type == "shell") && is_some o.tool_call_id)
    then j
    else record j {
      tool_calls =
          record {
            tool_name = tool_name;
            input_payload = a;
            output_text = o.summary;
            stderr_text = o.stderr;
            status = if o.success then "completed" else "failed";
            task_id = task_id;
          }
          ∷ j.tool_calls;
    }

module _ (x : Executor) where
  abbrev pub action_approval : Journal → String → String → Action → Task → ActionApproval
  action_approval j tool_name reason a t = record {
    id = x.approval_key j;
    workspace_id = t.workspace_id;
    task_id = t.id;
    requested_by_user_id = t.created_by_user_id;
    status = "pending";
    reason = reason;
    tool_name = tool_name;
    payload = a;
  }

  -- `_create_approval`, and the event and the observation that follow it.
  abbrev pub request_approval :
      String → String → Action → State → Option Task → Outcome Observation × State
  request_approval tool_name reason a s none = (raise (value_error "Task does not exist."), s)
  request_approval tool_name reason a s (some t) =
      let row = action_approval s.journal tool_name reason a t in
      let j = record s.journal { approvals = row ∷ s.journal.approvals } in
      (
        ok (pending_observation row.id reason),
        record s { journal = append x.redact_secret_text "approval_requested" reason j },
      )

  abbrev pub finish_handler :
      String → Action → List Action → Outcome Observation × Journal → Outcome Observation × State
  finish_handler tool_name a handled (raise e, j) = (
    ok (error_observation (exception_name e) (exception_text e)),
    record {
      journal = append x.redact_secret_text "error" (exception_text e) j;
      handled = handled;
    },
  )
  finish_handler tool_name a handled (ok o, j) = (
    ok o,
    record {
      journal =
          append x.redact_secret_text "tool_result" o.summary
            (record_tool_call x.task_id tool_name o a j);
      handled = handled;
    },
  )

  -- A tool without a handler fails like one whose handler raises.
  abbrev pub run_handler : String → Action → State → Option Handler → Outcome Observation × State
  run_handler tool_name a s none = (
    ok (error_observation "TypeError" "'NoneType' object is not callable"),
    record s {
      journal = append x.redact_secret_text "error" "'NoneType' object is not callable" s.journal;
    },
  )
  run_handler tool_name a s (some handler) =
      finish_handler tool_name a (a ∷ s.handled) (handler a s.journal)

  abbrev pub run_validated :
      String → ToolSpec → State → Outcome Action → Outcome Observation × State
  run_validated tool_name tool s (raise e) = (raise e, s)
  run_validated tool_name tool s (ok a) = run_handler tool_name a s tool.handler

  abbrev pub run_tool : String → Action → State → Outcome ToolSpec → Outcome Observation × State
  run_tool tool_name a s (raise e) = (raise e, s)
  run_tool tool_name a s (ok tool) = run_validated tool_name tool s (validate_tool_input tool a)

  -- What follows the decision of the policies.
  abbrev pub execute_decided : PolicyDecision → Action → State → Outcome Observation × State
  execute_decided decision a s =
      let tool_name = tool_name_for_action a in
      if not decision.allowed
      then (
        ok (error_observation "policy_violation" decision.reason),
        record s { journal = append x.redact_secret_text "error" decision.reason s.journal },
      )
      else if decision.requires_approval
      then request_approval tool_name decision.reason a s (find (has_id x.task_id) s.journal.tasks)
      else run_tool tool_name a s (get_tool tool_name x.tools)

  abbrev pub log_call : Action → State → State
  log_call a s = record s {
    journal =
        append x.redact_secret_text "tool_call" (tool_name_for_action a <> (": " <> action_type a))
          s.journal;
  }

  abbrev pub execute_policed : Action → State → Outcome Observation × State
  execute_policed a s =
      execute_decided (evaluate x.settings x.policy_host a x.workspace_root) a (log_call a s)

  unfoldable pub execute_action : Action → State → Outcome Observation × State
  unfolding tool_name_for_action
  execute_action (finish summary) s = (ok (plain summary), s)
  execute_action a s = execute_policed a s
