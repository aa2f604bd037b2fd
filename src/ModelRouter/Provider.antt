-- ===== src/ModelRouter/Provider.antt =====
-- services/model_router.py: requests, answers, and the arguments of a provider's call.
use agent_sam.Prelude.{
  ℕ, String, Option, none, some, List, [], ◌∷◌, if◌then◌else◌, ◌==◌, nat_eq, string_eq, option_eq,
}
use agent_sam.ModelRouter.Names.{infer_provider}

pub record Message : Type 0 where
  pub role : String
  pub content : String

pub record ModelExecutionRequest : Type 0 where
  pub agent_slug : String
  pub model : String
  pub messages : List Message
  pub task_id : Option ℕ
  pub task_run_id : Option ℕ
  pub temperature : ℕ
  pub max_tokens : Option ℕ
  pub fallback_models : List String

-- The content of an answer's message: there is no such field, it is None, or it is a text.
pub data Content : Type 0 where
  absent null : Content
  said : String → Content

pub record Usage : Type 0 where
  pub prompt_tokens : Option ℕ
  pub completion_tokens : Option ℕ
  pub total_tokens : Option ℕ

-- The parts of an answer that are read. A choice may have no message.
pub record Response : Type 0 where
  pub choices : List (Option Content)
  pub usage : Option Usage

-- `str(content)`
abbrev pub content_text : Content → String
content_text absent = ""
content_text null = "None"
content_text (said s) = s

abbrev pub choice_text : List (Option Content) → String
choice_text [] = ""
choice_text (none ∷ choices) = ""
choice_text (some content ∷ choices) = content_text content

unfoldable pub extract_response_text : Response → String
extract_response_text r = choice_text r.choices

abbrev pub usage_or : Option Usage → Usage
usage_or none = record { prompt_tokens = none; completion_tokens = none; total_tokens = none }
usage_or (some usage) = usage

unfoldable pub extract_usage : Response → Usage
extract_usage r = usage_or r.usage

pub record RouterSettings : Type 0 where
  pub litellm_api_key : String
  pub openrouter_api_key : String
  pub openrouter_base_url : String
  pub openai_api_key : String
  pub anthropic_api_key : String
  pub gemini_api_key : String
  pub ollama_base_url : String

pub record CompletionKwargs : Type 0 where
  pub model : String
  pub messages : List Message
  pub temperature : ℕ
  pub max_tokens : Option ℕ
  pub api_key : Option String
  pub base_url : Option String

-- `key or litellm_api_key or None`
abbrev pub key_or : String → String → Option String
key_or key litellm = if key == "" then (if litellm == "" then none else some litellm) else some key

unfoldable pub build_completion_kwargs :
    RouterSettings → String → ModelExecutionRequest → CompletionKwargs
unfolding infer_provider
build_completion_kwargs s model_name r =
    let provider = infer_provider model_name in
    let kwargs : Option String → Option String → CompletionKwargs = λ api_key base_url. record {
      model = model_name;
      messages = r.messages;
      temperature = r.temperature;
      max_tokens = r.max_tokens;
      api_key = api_key;
      base_url = base_url;
    } in
    if provider == "openrouter"
    then kwargs (key_or s.openrouter_api_key s.litellm_api_key) (some s.openrouter_base_url)
    else if provider == "openai"
    then kwargs (key_or s.openai_api_key s.litellm_api_key) none
    else if provider == "anthropic"
    then kwargs (key_or s.anthropic_api_key s.litellm_api_key) none
    else if provider == "gemini"
    then kwargs (key_or s.gemini_api_key s.litellm_api_key) none
    else if provider == "ollama"
    then kwargs none (some s.ollama_base_url)
    else kwargs none none

-- A call of a provider.
pub data Attempt : Type 0 where
  answered : Response → Attempt
  failed : String → Attempt
