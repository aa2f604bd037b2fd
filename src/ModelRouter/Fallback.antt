-- ===== src/ModelRouter/Fallback.antt =====
-- The order in which models are tried.
use agent_sam.Prelude.{
  none, some, true, max, Option, String, ◌<>◌, List, [], ◌∷◌, ◌++◌, map, append_assoc, append-nil,
  ◌≡◌, refl, sym, ap, ◌∙◌, inl, inr, ◌⊎◌, All, Outcome, ok, raise, nat_eq, string_eq, option_eq,
}
use agent_sam.ModelRouter.Completion.{
  ModelExecutionResult, ModelCall, Provider, completed_call, failed_call, execution_result,
  no_model, try_models, run_completion,
}
use agent_sam.ModelRouter.Names.{infer_provider}
use agent_sam.ModelRouter.Provider.{
  Content, absent, null, said, choice_text, usage_or, extract_response_text, extract_usage,
  ModelExecutionRequest, Response, RouterSettings, Attempt, answered, failed,
  build_completion_kwargs,
}

Attempt-cases :
    (a : Attempt)
    → ((response : Response) × (a ≡ answered response)) ⊎ ((e : String) × (a ≡ failed e))
Attempt-cases (answered response) = inl (response, refl)
Attempt-cases (failed e) = inr (e, refl)

-- The text of an answer's first choice: of a message without a content none, and of the content None
-- its name.
abbrev pub said_in : List (Option Content) → String
said_in [] = ""
said_in (none ∷ choices) = ""
said_in (some absent ∷ choices) = ""
said_in (some null ∷ choices) = "None"
said_in (some (said text) ∷ choices) = text

choice_text-said_in : (choices : List (Option Content)) → choice_text choices ≡ said_in choices
choice_text-said_in [] = refl
choice_text-said_in (none ∷ choices) = refl
choice_text-said_in (some absent ∷ choices) = refl
choice_text-said_in (some null ∷ choices) = refl
choice_text-said_in (some (said text) ∷ choices) = refl

module _ (settings : RouterSettings) (p : Provider) (r : ModelExecutionRequest) where
  -- What the provider gives for a model.
  abbrev pub ask : String → Attempt
  ask m = p.acompletion (build_completion_kwargs settings m r)

  abbrev error_of : Attempt → String
  error_of (answered response) = ""
  error_of (failed e) = e

  abbrev pub Fails : String → Type 0
  Fails m = (e : String) × (ask m ≡ failed e)

  abbrev pub error_line : String → String
  error_line m = m <> (": " <> error_of (ask m))

  -- The row of a model that failed: without a text and a cost, and with the error.
  abbrev pub failed_for : String → ModelCall
  failed_for m = record {
    task_id = r.task_id;
    task_run_id = r.task_run_id;
    provider = infer_provider m;
    model_name = m;
    response_text = "";
    status = "failed";
    usage = record { prompt_tokens = none; completion_tokens = none; total_tokens = none };
    estimated_cost = none;
    actual_cost = none;
    latency_ms = max 1 (p.elapsed_ms m);
    error_text = some (error_of (ask m));
  }

  -- The row of a model that answered: with the text, the usage and the cost of the answer.
  abbrev pub answered_by : String → Response → ModelCall
  answered_by m response = record {
    task_id = r.task_id;
    task_run_id = r.task_run_id;
    provider = infer_provider m;
    model_name = m;
    response_text = said_in response.choices;
    status = "completed";
    usage = usage_or response.usage;
    estimated_cost = p.completion_cost response m;
    actual_cost = p.completion_cost response m;
    latency_ms = max 1 (p.elapsed_ms m);
    error_text = none;
  }

  abbrev pub result_of : String → Response → ModelExecutionResult
  result_of m response = record {
    model = m;
    provider = infer_provider m;
    content = said_in response.choices;
    usage = usage_or response.usage;
    estimated_cost = p.completion_cost response m;
    actual_cost = p.completion_cost response m;
    duration_ms = max 1 (p.elapsed_ms m);
    success = true;
  }

  -- A model answers, all before it have failed; or all have failed.
  abbrev pub IsTried :
      List String
      → List String
      → List ModelCall
      → Outcome ModelExecutionResult × List ModelCall
      → Type 0
  IsTried models errors calls outcome =
      ((tried later : List String) × (model : String) × (response : Response) × (models
          ≡ tried ++ (model ∷ later))
        × All Fails tried
        × (ask model ≡ answered response)
        × (outcome ≡ (
          ok (result_of model response),
          calls ++ (map failed_for tried ++ (answered_by model response ∷ [])),
        )))
      ⊎ (All Fails models
          × (outcome ≡ (
            raise (no_model (errors ++ map error_line models)),
            calls ++ map failed_for models,
          )))

  IsTried-more :
      (m e : String) (models errors : List String) (calls : List ModelCall)
      (outcome : Outcome ModelExecutionResult × List ModelCall)
      → ask m ≡ failed e
      → IsTried models (errors ++ (error_line m ∷ [])) (calls ++ (failed_for m ∷ [])) outcome
      → IsTried (m ∷ models) errors calls outcome
  IsTried-more m e models errors calls outcome is
        (inl (tried, later, model, response, split, fails, answers, done)) =
      inl (
        m ∷ tried,
        later,
        model,
        response,
        ap (λ l. m ∷ l) split,
        ((e, is), fails),
        answers,
        done
            ∙ ap (λ c. (ok (result_of model response), c))
                (append_assoc calls (failed_for m ∷ [])
                  (map failed_for tried ++ (answered_by model response ∷ []))),
      )
  IsTried-more m e models errors calls outcome is (inr (fails, done)) = inr (
    ((e, is), fails),
    done
        ∙ ap (λ c. (raise (no_model ((errors ++ (error_line m ∷ [])) ++ map error_line models)), c))
            (append_assoc calls (failed_for m ∷ []) (map failed_for models))
        ∙ ap (λ es. (raise (no_model es), calls ++ (failed_for m ∷ map failed_for models)))
            (append_assoc errors (error_line m ∷ []) (map error_line models)),
  )

  try_models-IsTried :
      (models errors : List String) (calls : List ModelCall)
      → IsTried models errors calls (try_models settings p r errors calls models)
  unfolding try_models failed_call completed_call execution_result extract_response_text
      extract_usage
  try_models-IsTried [] errors calls = inr (
    tt,
    ap (λ es. (raise (no_model es), calls)) (sym (append-nil errors))
        ∙ ap (λ c. (raise (no_model (errors ++ [])), c)) (sym (append-nil calls)),
  )
  try_models-IsTried (m ∷ models) errors calls = elim (Attempt-cases (ask m)) [
    | inl (response, e) ↦ inl (
      [],
      models,
      m,
      response,
      refl,
      tt,
      e,
      rw (e, try_models, choice_text-said_in response.choices) refl,
    )
    | inr (text, e) ↦
        IsTried-more m text models errors calls (try_models settings p r errors calls (m ∷ models))
          e
          (rw (e, try_models)
            (try_models-IsTried models (errors ++ ((m <> (": " <> text)) ∷ []))
              (calls ++ (failed_call p r m text ∷ []))))
  ]

  -- A completion comes from the first of the requested model and its fallbacks that answers: those
  -- before it have failed. Each call is recorded in order: the failed ones as failed, with their
  -- errors, no text and no cost, and the answer as completed, with the text of its first choice, its
  -- usage and its cost, which the result has too. If none answers, every call is recorded as failed,
  -- and the call raises with the errors of all models in order.
  pub run_completion-IsTried :
      (calls : List ModelCall)
      → IsTried (r.model ∷ r.fallback_models) [] calls (run_completion settings p r calls)
  unfolding run_completion
  run_completion-IsTried calls = try_models-IsTried (r.model ∷ r.fallback_models) [] calls
