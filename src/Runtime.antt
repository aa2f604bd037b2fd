-- ===== src/Runtime.antt =====
-- agents/runtime.py: how `SpecialistAgentRuntime.run_task` starts a run, and its rules for the harness
-- and for reviews. The entries of a task's metadata are texts; those that the runtime reads are fields
-- of the task as well. The key of the task and a cost as texts, the clock and the day are arguments.
pub mod Noted
pub mod Start
mod Tests
use agent_sam.Prelude.{
  head?, order_by, select, leb, strip, ℕ, String, ◌<>◌, Bool, true, false, not, ◌&&◌, ◌||◌, Option,
  none, some, List, [], ◌∷◌, any, contains, if◌then◌else◌, ◌==◌, nat_eq, string_eq, option_eq,
  lower, is_in, Outcome, ok, raise, ◌>>=◌, ◌>>◌,
}
use agent_sam.Database.{TaskRun}
use agent_sam.Agents.Profile.{AgentProfile}
use agent_sam.Agents.Registry.{get_agent_profile}
use agent_sam.Agents.Router.{RouteRequest, AgentDecision, RouterAgent, route}
use agent_sam.Budget.{
  BudgetSettings, BudgetDecision, ModelBudget, ModelChoice, choose_model, update_metadata,
}

pub record RoutedTask : Type 0 where
  pub id : ℕ
  pub key : String
  pub title : String
  pub description : Option String
  pub priority : String
  pub metadata : List (String × String)
  pub requested_agent : Option String
  pub workflow : Option String
  pub harness_requested : Bool
  pub premium_requested : Bool
  pub safety_critical : Bool

-- A row of `agent_runs`.
pub record AgentRun : Type 0 where
  pub task_id : ℕ
  pub task_run_id : Option ℕ
  pub agent_slug : String
  pub model : String
  pub status : String
  pub started_at : ℕ
  pub input_summary : String
  pub cost_estimate : ℕ
  pub routing_reason : String
  pub requires_human_approval : Bool

-- `task.description or ""`
abbrev pub description_or : Option String → String
description_or none = ""
description_or (some s) = s

abbrev pub route_request : RoutedTask → RouteRequest
route_request t = record {
  title = t.title;
  description = description_or t.description;
  metadata = t.metadata;
  requested_agent_slug = t.requested_agent;
  premium_requested = t.premium_requested;
  safety_critical = t.priority == "urgent" || t.safety_critical;
}

-- `_estimate_cost_hint`, in cents.
unfoldable pub estimate_cost_hint : String → ℕ
estimate_cost_hint level = if level == "low" then 1 else if level == "high" then 12 else 5

unfoldable pub choice_for : RoutedTask → AgentDecision → ModelChoice
unfolding estimate_cost_hint
choice_for t d = record {
  requested_model = some d.model;
  estimated_cost = some (estimate_cost_hint d.estimated_cost_level);
  task_id = some t.key;
  failed_attempt = false;
  low_confidence = false;
  high_complexity = false;
  premium_requested = t.premium_requested;
  safety_critical = d.requires_human_approval;
}

-- The latest attempt of the task: `ORDER BY attempt_number DESC LIMIT 1`.
unfoldable pub last_task_run : ℕ → List TaskRun → Option TaskRun
last_task_run task_id runs = head? (
    order_by (λ r s. leb s.attempt_number r.attempt_number)
      (select (λ r. r.task_id == task_id) runs))

abbrev run_key : Option TaskRun → Option ℕ
run_key none = none
run_key (some r) = some r.id

-- `f"{task.title}\n{task.description or ''}".strip()`
unfoldable pub input_summary_of : RoutedTask → String
input_summary_of t = strip (t.title <> ("\n" <> description_or t.description))

abbrev pub agent_run_row : ℕ → RoutedTask → List TaskRun → AgentDecision → BudgetDecision → AgentRun
agent_run_row now t task_runs d b = record {
  task_id = t.id;
  task_run_id = run_key (last_task_run t.id task_runs);
  agent_slug = d.agent_slug;
  model = b.approved_model;
  status = "running";
  started_at = now;
  input_summary = input_summary_of t;
  cost_estimate = b.estimated_cost;
  routing_reason = d.reason;
  requires_human_approval = d.requires_human_approval;
}

module _ (settings : BudgetSettings) (router : RouterAgent) (cost_text : ℕ → String) where
  -- What `run_task` notes in the metadata of the task.
  abbrev pub routing_entries : AgentDecision → BudgetDecision → List (String × String)
  routing_entries d b =
      ("routed_agent", d.agent_slug)
      ∷ ("routed_model", b.approved_model)
      ∷ ("routing_reason", d.reason)
      ∷ ("estimated_cost", cost_text b.estimated_cost)
      ∷ []

  -- Routing, the budget's choice of a model, the task's metadata and the row of the run.
  unfoldable pub start_run :
      ℕ
      → String
      → RoutedTask
      → List TaskRun
      → List ModelBudget
      → Outcome (AgentRun × RoutedTask × List ModelBudget)
  unfolding route get_agent_profile choice_for choose_model last_task_run input_summary_of
  start_run now today t task_runs rows = do
    d ← route router (route_request t)
    profile ← get_agent_profile d.agent_slug router.cached
    let (b, after) = choose_model settings now today profile (choice_for t d) rows
    ok (
      agent_run_row now t task_runs d b,
      record t { metadata = update_metadata (routing_entries d b) t.metadata },
      after,
    )

abbrev pub task_text : RoutedTask → String
task_text t = lower (t.title <> ("\n" <> description_or t.description))

abbrev pub is_one_of : List String → Option String → Bool
is_one_of names none = false
is_one_of names (some s) = contains names s

abbrev pub mentions : List String → RoutedTask → Bool
mentions keywords t = any (λ k. is_in k (task_text t)) keywords

abbrev pub code_agents : List String
code_agents = "coding_agent" ∷ "testing_agent" ∷ "server_ops_agent" ∷ []

unfoldable pub should_use_harness : Bool → RoutedTask → String → Bool
should_use_harness harness_enabled t agent_slug =
    harness_enabled
    && (t.harness_requested
        || (is_one_of ("code" ∷ "test" ∷ "pr" ∷ []) t.workflow
            || (is_one_of code_agents t.requested_agent
                || (contains code_agents agent_slug
                    || ((agent_slug == "research_agent"
                          && mentions
                              ("browser" ∷ "login" ∷ "website" ∷ "click" ∷ "type" ∷ "form" ∷ []) t)
                        || mentions
                            ("nginx" ∷ "ssl" ∷ "certbot" ∷ "domain" ∷ "service" ∷ "systemd" ∷ [])
                            t)))))

unfoldable pub should_run_qa : RoutedTask → AgentProfile → Bool
should_run_qa t p = t.priority == "urgent" || p.risk_level == "high"

unfoldable pub should_seed_workspace_repo : String → RoutedTask → Bool
should_seed_workspace_repo agent_slug t =
    is_one_of ("code" ∷ "test" ∷ "pr" ∷ []) t.workflow
    || contains ("coding_agent" ∷ "testing_agent" ∷ "qa_reviewer_agent" ∷ []) agent_slug
