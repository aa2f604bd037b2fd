-- ===== src/Agents/Profile.antt =====
-- agents/base.py: the profile of an agent and what it may use. Amounts of money are natural numbers
-- of one unit; a temperature is in hundredths.
use agent_sam.Prelude.{
  ℕ, String, Bool, not, List, [], ◌∷◌, select, any, contains, if◌then◌else◌, ◌==◌, string_eq, strip,
  is_prefix, nat_eq, option_eq,
}

pub record AgentProfile : Type 0 where
  pub name : String
  pub slug : String
  pub description : String
  pub task_types : List String
  pub default_model : String
  pub fallback_models : List String
  pub escalation_model : String
  pub max_cost_per_task : ℕ
  pub max_tokens_per_run : ℕ
  pub temperature : ℕ
  pub tools_allowed : List String
  pub memory_types_allowed : List String
  pub skill_tags : List String
  pub risk_level : String
  pub system_prompt_path : String
  pub evaluation_checklist : List String
  pub can_create_subagents : Bool
  pub can_propose_skill_updates : Bool

pub record AgentToolPolicy : Type 0 where
  pub approval_required_tools : List String
  pub web_access_allowed : Bool
  pub shell_policy : String

pub record AgentCapability : Type 0 where
  pub agent_slug : String
  pub task_types : List String
  pub tools_allowed : List String
  pub memory_types_allowed : List String
  pub skill_tags : List String
  pub risk_level : String
  pub tool_policy : AgentToolPolicy

abbrev pub gated_tools : List String
gated_tools = "safe_shell" ∷ "sql_write" ∷ "sql_delete" ∷ "service_control" ∷ []

unfoldable pub default_tool_policy : AgentProfile → AgentToolPolicy
default_tool_policy p = record {
  approval_required_tools = select (contains gated_tools) p.tools_allowed;
  web_access_allowed = any (is_prefix "web_") p.tools_allowed;
  shell_policy = if contains p.tools_allowed "safe_shell" then "approval_required" else "blocked";
}

unfoldable pub build_agent_capability : AgentProfile → AgentCapability
unfolding default_tool_policy
build_agent_capability p = record {
  agent_slug = p.slug;
  task_types = p.task_types;
  tools_allowed = p.tools_allowed;
  memory_types_allowed = p.memory_types_allowed;
  skill_tags = p.skill_tags;
  risk_level = p.risk_level;
  tool_policy = default_tool_policy p;
}

-- `SpecialistAgent.evaluate`
unfoldable pub evaluate : AgentProfile → List String
evaluate p = select (λ item. not (strip item == "")) p.evaluation_checklist
