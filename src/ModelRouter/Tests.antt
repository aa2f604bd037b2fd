-- ===== src/ModelRouter/Tests.antt =====
-- The model router on small requests.
use agent_sam.Prelude.{
  String, true, false, none, some, List, [], ◌∷◌, map, ◌≡◌, refl, raise, runtime_error, ◌==◌,
  nat_eq, string_eq, option_eq, if◌then◌else◌, strip, lstrip, lower, is_in, is_prefix, count_char,
  before_char, join,
}
use agent_sam.Agents.Profile.{AgentProfile}
use agent_sam.ModelRouter.Names.{
  infer_provider, validate_model_name, choose_model, normalize_names, list_configured_models,
}
use agent_sam.ModelRouter.Completion.{
  ModelCall, Provider, completed_call, failed_call, execution_result, try_models, run_completion,
  validate_live, validate_models,
}
use agent_sam.ModelRouter.Provider.{
  ModelExecutionRequest, said, Response, RouterSettings, answered, failed, extract_response_text,
  extract_usage, build_completion_kwargs,
}
use agent_sam.ModelRouter.Fallback.{IsTried, run_completion-IsTried}

program : Unit {0}
unfolding infer_provider validate_model_name choose_model normalize_names list_configured_models
    extract_response_text extract_usage build_completion_kwargs completed_call failed_call
    execution_result try_models run_completion validate_live validate_models strip lstrip lower
    is_in is_prefix count_char before_char join
program = tt

providers :
    map infer_provider
      (" OpenRouter/meta/llama" ∷ "gpt-4o" ∷ "claude-3" ∷ "qwen2" ∷ "groq/llama" ∷ "custom" ∷ [])
    ≡ "openrouter" ∷ "openai" ∷ "anthropic" ∷ "ollama" ∷ "groq" ∷ "litellm" ∷ []
unfolding program
providers = refl

ambiguous : (validate_model_name "custom").reason ≡ "model name is too ambiguous"
unfolding program
ambiguous = refl

abbrev settings : RouterSettings
settings = record {
  litellm_api_key = "shared";
  openrouter_api_key = "";
  openrouter_base_url = "https://openrouter.ai/api/v1";
  openai_api_key = "own";
  anthropic_api_key = "";
  gemini_api_key = "";
  ollama_base_url = "http://127.0.0.1:11434";
}

abbrev answer : Response
answer = record { choices = some (said "ok") ∷ []; usage = none }

-- Only the models of Anthropic answer.
abbrev provider : Provider
provider = record {
  acompletion = λ kwargs.
      if infer_provider kwargs.model == "anthropic" then answered answer else failed "no route";
  completion_cost = λ response model. some 3;
  elapsed_ms = λ model. 0;
}

abbrev request : List String → ModelExecutionRequest
request fallback_models = record {
  agent_slug = "coding_agent";
  model = "gpt-4o";
  messages = [];
  task_id = none;
  task_run_id = none;
  temperature = 0;
  max_tokens = none;
  fallback_models = fallback_models;
}

abbrev statuses : List ModelCall → List String
statuses calls = map (λ c. c.status) calls

second_answers :
    statuses (run_completion settings provider (request ("claude-3" ∷ [])) []).1
    ≡ "failed" ∷ "completed" ∷ []
unfolding program
second_answers = refl

none_answers :
    (run_completion settings provider (request []) []).0 ≡ raise (runtime_error "gpt-4o: no route")
unfolding program
none_answers = refl

live :
    map
      (λ v. v.valid)
      (validate_models settings provider ("claude-3" ∷ "gpt-4o" ∷ "x" ∷ []) true []).0
    ≡ true ∷ false ∷ false ∷ []
unfolding program
live = refl

shared_key : (build_completion_kwargs settings "claude-3" (request [])).api_key ≡ some "shared"
unfolding program
shared_key = refl

abbrev profile : AgentProfile
profile = record {
  name = "";
  slug = "coding_agent";
  description = "";
  task_types = [];
  default_model = " gpt-4o ";
  fallback_models = "" ∷ "claude-3" ∷ [];
  escalation_model = "gpt-4o";
  max_cost_per_task = 1;
  max_tokens_per_run = 1;
  temperature = 0;
  tools_allowed = [];
  memory_types_allowed = [];
  skill_tags = [];
  risk_level = "low";
  system_prompt_path = "";
  evaluation_checklist = [];
  can_create_subagents = false;
  can_propose_skill_updates = false;
}

configured : list_configured_models (profile ∷ []) ≡ "gpt-4o" ∷ "claude-3" ∷ []
unfolding program
configured = refl

escalated : choose_model true profile (false ∷ true ∷ []) ≡ "gpt-4o"
unfolding program
escalated = refl

run_completion-IsTried_example :
    IsTried settings provider
      (request ("claude-3" ∷ []))
      ("gpt-4o" ∷ "claude-3" ∷ [])
      []
      []
      (run_completion settings provider (request ("claude-3" ∷ [])) [])
run_completion-IsTried_example =
    run_completion-IsTried settings provider (request ("claude-3" ∷ [])) []
