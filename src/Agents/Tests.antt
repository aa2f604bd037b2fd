-- ===== src/Agents/Tests.antt =====
-- The registry and the router on two profiles.
use agent_sam.Prelude.{
  String, Bool, true, false, Option, none, some, List, [], ◌∷◌, ◌≡◌, ◌↔◌, refl, ok, raise,
  value_error, ◌>>=◌, strip, ◌==◌, nat_eq, string_eq, option_eq, All, lower, is_in, is_prefix,
  spaced, join, order_by, insert_ordered, text_leb,
}
use agent_sam.Agents.Profile.{AgentProfile, default_tool_policy, build_agent_capability, evaluate}
use agent_sam.Agents.Keywords.{keywords_for_profile}
use agent_sam.Agents.Registry.{
  put_profile, put_profiles, validate_profile, validate_from, validate_agent_profiles,
  load_agent_profiles, get_agent_profile, task_text, profile_score, find_agents_for_task,
  list_agents,
}
use agent_sam.Agents.Registry.Valid.{IsValid, IsDistinct, validate_agent_profiles-IsValid}
use agent_sam.Agents.Router.{
  RouteRequest, AgentDecision, RouterAgent, haystack_of, choose_model, estimate_confidence,
  build_reason, infer_best_fallback, cost_level_for_model, new_router, route,
}
use agent_sam.Agents.Router.Choice.{route-IsRouted}
use agent_sam.Agents.Router.Decided.{IsRouted}

abbrev agent : String → String → List String → List String → AgentProfile
agent slug risk_level task_types tools_allowed = record {
  name = slug;
  slug = slug;
  description = "";
  task_types = task_types;
  default_model = "openai/gpt-mini";
  fallback_models = [];
  escalation_model = "anthropic/claude-opus";
  max_cost_per_task = 50;
  max_tokens_per_run = 1000;
  temperature = 20;
  tools_allowed = tools_allowed;
  memory_types_allowed = "decision" ∷ [];
  skill_tags = [];
  risk_level = risk_level;
  system_prompt_path = "prompts/agent.md";
  evaluation_checklist = "tests pass" ∷ " " ∷ [];
  can_create_subagents = false;
  can_propose_skill_updates = true;
}

abbrev coding : AgentProfile
coding = agent "coding_agent" "medium" ("bug_fix" ∷ []) ("file_read" ∷ "safe_shell" ∷ [])

abbrev testing : AgentProfile
testing = agent "testing_agent" "low" ("unit_test" ∷ []) ("pytest" ∷ [])

abbrev own : AgentProfile
own = agent "router_agent" "low" [] []

abbrev profiles : List AgentProfile
profiles = coding ∷ own ∷ testing ∷ []

abbrev router : RouterAgent
router = record { profile = own; profiles = profiles; cached = profiles }

abbrev request : Option String → RouteRequest
request slug = record {
  title = "Fix the pytest regression";
  description = "A critical unit test fails";
  metadata = ("tags", "ci") ∷ [];
  requested_agent_slug = slug;
  premium_requested = false;
  safety_critical = false;
}

program : Unit {0}
unfolding strip default_tool_policy build_agent_capability evaluate keywords_for_profile put_profile
    put_profiles validate_profile validate_from validate_agent_profiles load_agent_profiles
    get_agent_profile task_text profile_score find_agents_for_task list_agents haystack_of
    choose_model estimate_confidence build_reason infer_best_fallback cost_level_for_model
    new_router route lower is_in is_prefix spaced join order_by insert_ordered text_leb
program = tt

abbrev exists : String → Bool
exists path = path == "prompts/agent.md"

loaded : load_agent_profiles exists (coding ∷ own ∷ []) (testing ∷ coding ∷ []) ≡ ok profiles
unfolding program
loaded = refl

made : new_router profiles profiles ≡ ok router
unfolding program
made = refl

-- Generated profiles are bound by the same rule on risk.
risky :
    load_agent_profiles exists (coding ∷ []) (agent "ops" "low" [] ("service_control" ∷ []) ∷ [])
    ≡ raise (value_error "Agent cannot use dangerous tools with low risk_level")
unfolding program
risky = refl

abbrev decided : AgentDecision
decided = record {
  agent_slug = "testing_agent";
  confidence = 84;
  reason = "Matched task intent 'unit_test' to testing_agent.";
  model = "anthropic/claude-opus";
  estimated_cost_level = "high";
  requires_human_approval = false;
  fallback_agent_slugs = [];
  risk_level = "low";
}

routed : route router (request none) ≡ ok decided
unfolding program
routed = refl

asked : (route router (request (some "coding_agent")) >>= λ d. ok d.confidence) ≡ ok 98
unfolding program
asked = refl

capable : (build_agent_capability coding).tool_policy.approval_required_tools ≡ "safe_shell" ∷ []
unfolding program
capable = refl

evaluated : evaluate coding ≡ "tests pass" ∷ []
unfolding program
evaluated = refl

validate_agent_profiles-IsValid_example :
    (validate_agent_profiles exists profiles ≡ ok profiles)
    ↔ ((profiles ≡ profiles) × All (IsValid exists) profiles × IsDistinct [] profiles)
validate_agent_profiles-IsValid_example = validate_agent_profiles-IsValid exists profiles profiles

route-IsRouted_example :
    (d : AgentDecision) × (route router (request none) ≡ ok d) × IsRouted router (request none) d
route-IsRouted_example = route-IsRouted router (request none) coding refl refl
