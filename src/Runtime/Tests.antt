-- ===== src/Runtime/Tests.antt =====
-- Two agents and a task.
use agent_sam.Prelude.{
  ℕ, some, strip, lstrip, if◌then◌else◌, ◌==◌, String, true, false, none, List, [], ◌∷◌, ◌≡◌, refl,
  Outcome, ok, raise, nat_eq, string_eq, option_eq, lower, in_lower, is_in, is_prefix, spaced, join,
  order_by, insert_ordered, text_leb,
}
use agent_sam.Agents.Profile.{AgentProfile}
use agent_sam.Agents.Keywords.{keywords_for_profile}
use agent_sam.Agents.Registry.{get_agent_profile, task_text, profile_score, find_agents_for_task}
use agent_sam.Agents.Router.{
  RouterAgent, haystack_of, choose_model, estimate_confidence, build_reason, infer_best_fallback,
  cost_level_for_model, route,
}
use agent_sam.Budget.{
  BudgetSettings, ModelBudget, choose_model as budget_model, decide_model, first_choice,
  estimate_model_cost_level, upsert_budget_record, remaining_daily_budget, record_budget_decision,
}
use agent_sam.Database.{TaskRun}
use agent_sam.Runtime.Noted.{IsNoted}
use agent_sam.Runtime.{
  last_task_run, input_summary_of, RoutedTask, AgentRun, estimate_cost_hint, choice_for, start_run,
  should_use_harness, should_run_qa, should_seed_workspace_repo,
}
use agent_sam.Runtime.Start.{IsStarted, start_run-IsStarted}

program : Unit {0}
unfolding last_task_run input_summary_of strip lstrip estimate_cost_hint choice_for start_run
    should_use_harness should_run_qa should_seed_workspace_repo keywords_for_profile
    get_agent_profile task_text profile_score find_agents_for_task haystack_of choose_model
    estimate_confidence build_reason infer_best_fallback cost_level_for_model route budget_model
    decide_model first_choice estimate_model_cost_level upsert_budget_record remaining_daily_budget
    record_budget_decision lower in_lower is_in is_prefix spaced join order_by insert_ordered
    text_leb
program = tt

abbrev agent : String → String → AgentProfile
agent slug risk_level = record {
  name = slug;
  slug = slug;
  description = "";
  task_types = [];
  default_model = "claude-sonnet";
  fallback_models = [];
  escalation_model = "claude-opus";
  max_cost_per_task = 10;
  max_tokens_per_run = 1000;
  temperature = 20;
  tools_allowed = [];
  memory_types_allowed = [];
  skill_tags = [];
  risk_level = risk_level;
  system_prompt_path = "";
  evaluation_checklist = [];
  can_create_subagents = false;
  can_propose_skill_updates = false;
}

abbrev profiles : List AgentProfile
profiles = agent "coding_agent" "high" ∷ agent "router_agent" "low" ∷ []

abbrev router : RouterAgent
router = record { profile = agent "router_agent" "low"; profiles = profiles; cached = profiles }

abbrev settings : BudgetSettings
settings = record {
  allow_model_escalation = true;
  max_cost_per_task = 10;
  daily_model_budget = 100;
}

abbrev task : RoutedTask
task = record {
  id = 1;
  key = "1";
  title = "Refactor the production code";
  description = none;
  priority = "normal";
  metadata = [];
  requested_agent = none;
  workflow = none;
  harness_requested = false;
  premium_requested = false;
  safety_critical = false;
}

abbrev started_run : AgentRun
started_run = record {
  task_id = 1;
  task_run_id = some 8;
  agent_slug = "coding_agent";
  model = "claude-opus";
  status = "running";
  started_at = 10;
  input_summary = "Refactor the production code";
  cost_estimate = 12;
  routing_reason =
      "Selected coding_agent as the cheapest suitable specialist for the task content.";
  requires_human_approval = true;
}

abbrev run_in : Outcome (AgentRun × RoutedTask × List ModelBudget) → Outcome AgentRun
run_in (ok (run, noted, rows)) = ok run
run_in (raise e) = raise e

abbrev metadata_in : Outcome (AgentRun × RoutedTask × List ModelBudget) → List (String × String)
metadata_in (ok (run, noted, rows)) = noted.metadata
metadata_in (raise e) = []

abbrev cost_text : ℕ → String
cost_text cents = if cents == 12 then "12" else "5"

abbrev attempt : ℕ → ℕ → ℕ → TaskRun
attempt id task_id number = record {
  id = id;
  task_id = task_id;
  worker_name = none;
  attempt_number = number;
  status = "running";
  started_at = none;
  completed_at = none;
  error_text = none;
}

abbrev attempts : List TaskRun
attempts = attempt 7 1 1 ∷ attempt 8 1 2 ∷ attempt 9 2 3 ∷ []

-- The run is over the limit of its task and of high risk, and is running all the same.
unapproved :
    run_in (start_run settings router cost_text 10 "2026-01-01" task attempts []) ≡ ok started_run
unfolding program
unapproved = refl

harness : should_use_harness true task "coding_agent" ≡ true
unfolding program
harness = refl

reviewed_run : should_run_qa task (agent "coding_agent" "high") ≡ true
unfolding program
reviewed_run = refl

unseeded : should_seed_workspace_repo "research_agent" task ≡ false
unfolding program
unseeded = refl

noted_entries :
    metadata_in (start_run settings router cost_text 10 "2026-01-01" task attempts [])
    ≡ ("routed_agent", "coding_agent")
      ∷ ("routed_model", "claude-opus")
      ∷ ("routing_reason", started_run.routing_reason)
      ∷ ("estimated_cost", "12")
      ∷ []
unfolding program
noted_entries = refl

start_run-IsStarted_example :
    (run : AgentRun) × (noted : RoutedTask) × (after : List ModelBudget) × (start_run settings
        router cost_text 10 "2026-01-01" task attempts []
      ≡ ok (run, noted, after))
    × IsStarted settings router "2026-01-01" [] task attempts run
    × IsNoted cost_text task run noted
start_run-IsStarted_example =
    start_run-IsStarted settings router cost_text (agent "coding_agent" "high") 10 "2026-01-01" task
      attempts [] refl refl refl
