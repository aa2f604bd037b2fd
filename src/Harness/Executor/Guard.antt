-- ===== src/Harness/Executor/Guard.antt =====
-- What the executor passes to a handler.
use agent_sam.Prelude.{
  String, Bool, true, false, Option, none, some, List, ◌∷◌, ◌≡◌, ◌⊎◌, inl, inr, refl, sym, ◌∙◌,
  Bool-cases, Outcome, ok, raise, Exception, arith, nat_eq, ◌==◌, string_eq, option_eq,
}
use agent_sam.Database.{Task}
use agent_sam.Harness.Actions.{
  action_type, Action, message, shell, browser, file_read, file_write, file_patch, search,
  install_library, install_repo, git, github, source_cache, approval, finish,
}
use agent_sam.Harness.Policies.{PolicyDecision}
use agent_sam.Harness.Policies.Soundness.{permits, is_attended, IsDecision, evaluate-IsDecision}
use agent_sam.Harness.Registry.{
  Observation, Journal, Handler, ToolSpec, matches_schema, get_tool, validate_tool_input,
}
use agent_sam.Harness.Executor.{
  State, Executor, execute_action, execute_decided, execute_policed, request_approval,
  finish_handler, run_handler, run_validated, run_tool, log_call, tool_name_for_action,
}

module _ (x : Executor) where
  abbrev pub permitted : Action → Bool
  permitted a = permits x.settings x.policy_host a x.workspace_root

  abbrev pub attended : Action → Bool
  attended = is_attended x.settings x.policy_host

  -- Nothing was handled, or one action: one that the policies permit without an approval.
  abbrev pub IsGuarded : State → State → Type 0
  IsGuarded s s' =
      (s'.handled ≡ s.handled)
      ⊎ ((a : Action) × (s'.handled ≡ a ∷ s.handled) × (permitted a ≡ true) × (attended a ≡ false))

  -- What a run of the tool leaves: nothing handled, or this very action.
  abbrev HandlesOnly : Action → State → State → Type 0
  HandlesOnly a s s' = (s'.handled ≡ s.handled) ⊎ (s'.handled ≡ a ∷ s.handled)

  finish_handler-handled :
      (tool_name : String) (a : Action) (handled : List Action)
      (out : Outcome Observation × Journal)
      → (finish_handler x tool_name a handled out).1.handled ≡ handled
  finish_handler-handled tool_name a handled (raise e, j) = refl
  finish_handler-handled tool_name a handled (ok o, j) = refl

  run_handler-HandlesOnly :
      (tool_name : String) (a : Action) (s : State) (handler : Option Handler)
      → HandlesOnly a s (run_handler x tool_name a s handler).1
  run_handler-HandlesOnly tool_name a s none = inl refl
  run_handler-HandlesOnly tool_name a s (some handler) =
      inr (finish_handler-handled tool_name a (a ∷ s.handled) (handler a s.journal))

  matches_schema-same :
      (schema : Option String) (a : Action)
      → (matches_schema schema a ≡ ok a) ⊎ ((e : Exception) × (matches_schema schema a ≡ raise e))
  matches_schema-same none a = inl refl
  matches_schema-same (some t) a = elim (Bool-cases (action_type a == t)) [
    | inl e ↦ rw e (inl refl)
    | inr e ↦ rw e (inr (_, refl))
  ]

  run_validated-HandlesOnly :
      (tool_name : String) (tool : ToolSpec) (a : Action) (s : State)
      → HandlesOnly a s (run_validated x tool_name tool s (validate_tool_input tool a)).1
  unfolding validate_tool_input
  run_validated-HandlesOnly tool_name tool a s = elim (matches_schema-same tool.input_schema a) [
    | inl e ↦ rw e (run_handler-HandlesOnly tool_name a s tool.handler)
    | inr (error, e) ↦ rw e (inl refl)
  ]

  run_tool-HandlesOnly :
      (tool_name : String) (a : Action) (s : State) (tool : Outcome ToolSpec)
      → HandlesOnly a s (run_tool x tool_name a s tool).1
  run_tool-HandlesOnly tool_name a s (raise e) = inl refl
  run_tool-HandlesOnly tool_name a s (ok tool) = run_validated-HandlesOnly tool_name tool a s

  request_approval-handled :
      (tool_name reason : String) (a : Action) (s : State) (t : Option Task)
      → (request_approval x tool_name reason a s t).1.handled ≡ s.handled
  request_approval-handled tool_name reason a s none = refl
  request_approval-handled tool_name reason a s (some t) = refl

  execute_decided-IsGuarded :
      (d : PolicyDecision) (a : Action) (s : State)
      → IsDecision x.settings x.policy_host (permitted a) (attended a) d
      → IsGuarded s (execute_decided x d a s).1
  execute_decided-IsGuarded d a s (allowed, asks, _, _) = elim (Bool-cases d.allowed) [
    | inr e ↦ rw e (inl refl)
    | inl e ↦ rw e (elim (Bool-cases d.requires_approval) [
      | inl f ↦ rw f (inl (request_approval-handled _ _ a s _))
      | inr f ↦
          rw f
            (elim (run_tool-HandlesOnly (tool_name_for_action a) a s
              (get_tool (tool_name_for_action a) x.tools)) [
                | inl same ↦ inl same
                | inr one ↦ inr (a, one, sym allowed ∙ e, ground arith)
              ])
    ])
  ]

  execute_policed-IsGuarded : (a : Action) (s : State) → IsGuarded s (execute_policed x a s).1
  execute_policed-IsGuarded a s =
      execute_decided-IsGuarded _ a (log_call x a s)
        (evaluate-IsDecision x.settings x.policy_host a x.workspace_root)

  -- Whatever the tools and their handlers do, an action is passed to a handler only if no policy
  -- forbids it and none asks for an approval; no other action is.
  pub execute_action-IsGuarded : (a : Action) (s : State) → IsGuarded s (execute_action x a s).1
  unfolding execute_action
  execute_action-IsGuarded (message c) s = execute_policed-IsGuarded (message c) s
  execute_action-IsGuarded (shell b) s = execute_policed-IsGuarded (shell b) s
  execute_action-IsGuarded (browser b) s = execute_policed-IsGuarded (browser b) s
  execute_action-IsGuarded (file_read p) s = execute_policed-IsGuarded (file_read p) s
  execute_action-IsGuarded (file_write b) s = execute_policed-IsGuarded (file_write b) s
  execute_action-IsGuarded (file_patch b) s = execute_policed-IsGuarded (file_patch b) s
  execute_action-IsGuarded (search b) s = execute_policed-IsGuarded (search b) s
  execute_action-IsGuarded (install_library b) s = execute_policed-IsGuarded (install_library b) s
  execute_action-IsGuarded (install_repo b) s = execute_policed-IsGuarded (install_repo b) s
  execute_action-IsGuarded (git b) s = execute_policed-IsGuarded (git b) s
  execute_action-IsGuarded (github b) s = execute_policed-IsGuarded (github b) s
  execute_action-IsGuarded (source_cache b) s = execute_policed-IsGuarded (source_cache b) s
  execute_action-IsGuarded (approval b) s = execute_policed-IsGuarded (approval b) s
  execute_action-IsGuarded (finish summary) s = inl refl
