-- ===== src/ModelRouter/Names.antt =====
-- services/model_router.py: providers, the check of names, and the choice of a model.
use agent_sam.Prelude.{
  ℕ, String, Bool, true, false, not, ◌&&◌, ◌||◌, List, [], ◌∷◌, ◌++◌, any, contains, if◌then◌else◌,
  ◌==◌, nat_eq, string_eq, ltb, strip, lower, is_prefix, count_char, before_char, option_eq,
}
use agent_sam.Agents.Profile.{AgentProfile}

abbrev pub starts_with_any : List String → String → Bool
starts_with_any prefixes s = any (λ p. is_prefix p s) prefixes

-- The codes of `/` and `-`.
abbrev pub slash : ℕ
slash = 47

abbrev pub dash : ℕ
dash = 45

unfoldable pub infer_provider : String → String
infer_provider model_name =
    let cleaned = lower (strip model_name) in
    if is_prefix "openrouter/" cleaned
    then "openrouter"
    else if starts_with_any ("openai/" ∷ "gpt" ∷ "o1" ∷ "o3" ∷ "o4" ∷ []) cleaned
    then "openai"
    else if starts_with_any ("anthropic/" ∷ "claude" ∷ []) cleaned
    then "anthropic"
    else if starts_with_any ("gemini/" ∷ "google/" ∷ []) cleaned
    then "gemini"
    else if starts_with_any ("ollama/" ∷ "llama" ∷ "mistral" ∷ "qwen" ∷ []) cleaned
    then "ollama"
    else if ltb 0 (count_char slash cleaned)
    then before_char slash cleaned
    else "litellm"

pub record ModelValidationResult : Type 0 where
  pub model : String
  pub valid : Bool
  pub provider : String
  pub reason : String

unfoldable pub validate_model_name : String → ModelValidationResult
unfolding infer_provider
validate_model_name model_name =
    let cleaned = strip model_name in
    let provider = infer_provider cleaned in
    if cleaned == ""
    then record {
      model = model_name;
      valid = false;
      provider = "unknown";
      reason = "model is empty";
    }
    else if provider == "openrouter" && ltb (count_char slash cleaned) 2
    then record {
      model = cleaned;
      valid = false;
      provider = provider;
      reason = "OpenRouter models must use openrouter/provider/model-name syntax";
    }
    else if not (provider == "openrouter")
        && (count_char slash cleaned == 0 && ltb (count_char dash cleaned) 1)
    then record {
      model = cleaned;
      valid = false;
      provider = provider;
      reason = "model name is too ambiguous";
    }
    else record { model = cleaned; valid = true; provider = provider; reason = "ok" }

-- The flags of `choose_model`, any of which escalates.
unfoldable pub choose_model : Bool → AgentProfile → List Bool → String
choose_model allow_model_escalation profile flags =
    if not allow_model_escalation
    then profile.default_model
    else if any (λ flag. flag) flags
    then profile.escalation_model
    else profile.default_model

abbrev pub models_of : AgentProfile → List String
models_of p = p.default_model ∷ (p.fallback_models ++ (p.escalation_model ∷ []))

abbrev pub all_models : List AgentProfile → List String
all_models [] = []
all_models (p ∷ ps) = models_of p ++ all_models ps

-- The loop of `list_configured_models`, after the names `seen`.
unfoldable pub normalize_names : List String → List String → List String
normalize_names seen [] = []
normalize_names seen (m ∷ models) =
    let cleaned = strip m in
    elim (cleaned == "" || contains seen cleaned) [
      | true ↦ normalize_names seen models
      | false ↦ cleaned ∷ normalize_names (cleaned ∷ seen) models
    ]

unfoldable pub list_configured_models : List AgentProfile → List String
unfolding normalize_names
list_configured_models profiles = normalize_names [] (all_models profiles)
