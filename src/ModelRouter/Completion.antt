-- ===== src/ModelRouter/Completion.antt =====
-- services/model_router.py: `run_completion`, `_build_completion_kwargs`, `_record_model_call`,
-- `validate_models` and the readers of a provider's answer. A call of a provider gives an answer or
-- the text of the exception; that reading the answer could fail as well is left out.
use agent_sam.Prelude.{
  ℕ, max, String, ◌<>◌, Bool, true, false, Option, none, some, List, [], ◌∷◌, ◌++◌, map,
  if◌then◌else◌, nat_eq, string_eq, join, Exception, Outcome, ok, raise, runtime_error,
  exception_text, option_eq,
}
use agent_sam.ModelRouter.Names.{infer_provider, ModelValidationResult, validate_model_name}
use agent_sam.ModelRouter.Provider.{
  ModelExecutionRequest, Usage, Response, extract_response_text, usage_or, extract_usage,
  RouterSettings, CompletionKwargs, build_completion_kwargs, Attempt, answered, failed,
}

-- litellm, its prices, and the time that a call takes.
pub record Provider : Type 0 where
  pub acompletion : CompletionKwargs → Attempt
  pub completion_cost : Response → String → Option ℕ
  pub elapsed_ms : String → ℕ

-- A row of `model_calls`.
pub record ModelCall : Type 0 where
  pub task_id : Option ℕ
  pub task_run_id : Option ℕ
  pub provider : String
  pub model_name : String
  pub response_text : String
  pub status : String
  pub usage : Usage
  pub estimated_cost : Option ℕ
  pub actual_cost : Option ℕ
  pub latency_ms : ℕ
  pub error_text : Option String

pub record ModelExecutionResult : Type 0 where
  pub model : String
  pub provider : String
  pub content : String
  pub usage : Usage
  pub estimated_cost : Option ℕ
  pub actual_cost : Option ℕ
  pub duration_ms : ℕ
  pub success : Bool

abbrev pub no_model : List String → Exception
no_model [] = runtime_error "Model completion failed"
no_model (e ∷ errors) = runtime_error (join "; " (e ∷ errors))

module _ (p : Provider) (r : ModelExecutionRequest) where
  abbrev pub call_duration : String → ℕ
  call_duration model_name = max 1 (p.elapsed_ms model_name)

  unfoldable pub completed_call : String → Response → ModelCall
  unfolding infer_provider extract_response_text extract_usage
  completed_call model_name response = record {
    task_id = r.task_id;
    task_run_id = r.task_run_id;
    provider = infer_provider model_name;
    model_name = model_name;
    response_text = extract_response_text response;
    status = "completed";
    usage = extract_usage response;
    estimated_cost = p.completion_cost response model_name;
    actual_cost = p.completion_cost response model_name;
    latency_ms = call_duration model_name;
    error_text = none;
  }

  unfoldable pub failed_call : String → String → ModelCall
  unfolding infer_provider
  failed_call model_name error_text = record {
    task_id = r.task_id;
    task_run_id = r.task_run_id;
    provider = infer_provider model_name;
    model_name = model_name;
    response_text = "";
    status = "failed";
    usage = usage_or none;
    estimated_cost = none;
    actual_cost = none;
    latency_ms = call_duration model_name;
    error_text = some error_text;
  }

  unfoldable pub execution_result : String → Response → ModelExecutionResult
  unfolding infer_provider extract_response_text extract_usage
  execution_result model_name response = record {
    model = model_name;
    provider = infer_provider model_name;
    content = extract_response_text response;
    usage = extract_usage response;
    estimated_cost = p.completion_cost response model_name;
    actual_cost = p.completion_cost response model_name;
    duration_ms = call_duration model_name;
    success = true;
  }

module _ (settings : RouterSettings) (p : Provider) (r : ModelExecutionRequest) where
  -- The loop over the models, after the calls and errors so far. Calls stay recorded if the loop
  -- ends with an exception.
  unfoldable pub try_models :
      List String → List ModelCall → List String → Outcome ModelExecutionResult × List ModelCall
  unfolding build_completion_kwargs completed_call failed_call execution_result
  try_models errors calls [] = (raise (no_model errors), calls)
  try_models errors calls (model_name ∷ models) =
      elim (p.acompletion (build_completion_kwargs settings model_name r)) [
        | answered response ↦ (
          ok (execution_result p r model_name response),
          calls ++ (completed_call p r model_name response ∷ []),
        )
        | failed error_text ↦
            try_models (errors ++ ((model_name <> (": " <> error_text)) ∷ []))
              (calls ++ (failed_call p r model_name error_text ∷ [])) models
      ]

  unfoldable pub run_completion : List ModelCall → Outcome ModelExecutionResult × List ModelCall
  unfolding try_models
  run_completion calls = try_models [] calls (r.model ∷ r.fallback_models)

-- The request of a live check.
abbrev pub live_request : String → ModelExecutionRequest
live_request model = record {
  agent_slug = "router_agent";
  model = model;
  messages = record { role = "user"; content = "Reply with the word ok." } ∷ [];
  task_id = none;
  task_run_id = none;
  temperature = 0;
  max_tokens = some 8;
  fallback_models = [];
}

module _ (settings : RouterSettings) (p : Provider) where
  abbrev pub live_result :
      ModelValidationResult → Outcome ModelExecutionResult → ModelValidationResult
  live_result v (ok result) = v
  live_result v (raise e) = record v {
    valid = false;
    reason = "live validation failed: " <> exception_text e;
  }

  unfoldable pub validate_live :
      List ModelValidationResult → List ModelCall → List ModelValidationResult × List ModelCall
  unfolding run_completion
  validate_live [] calls = ([], calls)
  validate_live (v ∷ validations) calls = elim v.valid [
    | false ↦ let (results, after) = validate_live validations calls in (v ∷ results, after)
    | true ↦
        let (result, one) = run_completion settings p (live_request v.model) calls in
        let (results, after) = validate_live validations one in
        (live_result v result ∷ results, after)
  ]

  unfoldable pub validate_models :
      List String → Bool → List ModelCall → List ModelValidationResult × List ModelCall
  unfolding validate_model_name validate_live
  validate_models model_names live calls =
      let validations = map validate_model_name model_names in
      if live then validate_live validations calls else (validations, calls)
