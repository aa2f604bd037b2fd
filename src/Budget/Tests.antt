-- ===== src/Budget/Tests.antt =====
-- The budget service on small numbers.
use agent_sam.Prelude.{
  ◌-◌, ◌≤◌, true, false, none, some, List, [], ◌∷◌, ◌≡◌, ◌⊎◌, refl, in_lower, string_eq, nat_eq,
  option_eq,
}
use agent_sam.Agents.Profile.{AgentProfile}
use agent_sam.Budget.{
  BudgetSettings, ModelChoice, per_task_limit, remaining_daily_budget, choose_model, decide_model,
  first_choice, estimate_model_cost_level, upsert_budget_record, record_actual_cost,
  record_budget_decision,
}
use agent_sam.Budget.Limits.{NoneFits, IsDowngrade, choose_model-IsWithin}
use agent_sam.Budget.Spending.{BudgetCall, paid, chosen, run_calls, total_paid, run_calls-remaining}

abbrev profile : AgentProfile
profile = record {
  name = "Coder";
  slug = "coder";
  description = "";
  task_types = [];
  default_model = "Claude-Sonnet";
  fallback_models = "Claude-Haiku" ∷ [];
  escalation_model = "opus";
  max_cost_per_task = 20;
  max_tokens_per_run = 1000;
  temperature = 20;
  tools_allowed = [];
  memory_types_allowed = [];
  skill_tags = [];
  risk_level = "low";
  system_prompt_path = "prompts/coder.md";
  evaluation_checklist = [];
  can_create_subagents = false;
  can_propose_skill_updates = false;
}

abbrev settings : BudgetSettings
settings = record { allow_model_escalation = true; max_cost_per_task = 10; daily_model_budget = 30 }

abbrev choice : ModelChoice
choice = record {
  requested_model = none;
  estimated_cost = none;
  task_id = some "t1";
  failed_attempt = false;
  low_confidence = false;
  high_complexity = true;
  premium_requested = false;
  safety_critical = false;
}

program : Unit {0}
unfolding choose_model decide_model first_choice estimate_model_cost_level in_lower
    upsert_budget_record record_actual_cost record_budget_decision remaining_daily_budget
program = tt

escalation_downgraded :
    (choose_model settings 1 "2026-01-01" profile choice []).0.approved_model ≡ "Claude-Haiku"
unfolding program
escalation_downgraded = refl

abbrev calls : List BudgetCall
calls = paid 1 4 ∷ chosen 2 profile choice ∷ paid 3 7 ∷ []

calls-remaining :
    remaining_daily_budget settings "2026-01-01" (run_calls settings "2026-01-01" calls []) ≡ 19
unfolding program
calls-remaining = refl

run_calls-remaining_example :
    remaining_daily_budget settings "2026-01-01" (run_calls settings "2026-01-01" calls [])
    ≡ remaining_daily_budget settings "2026-01-01" [] - total_paid calls
run_calls-remaining_example = run_calls-remaining settings "2026-01-01" calls []

choose_model-IsWithin_example :
    let d = (choose_model settings 1 "2026-01-01" profile choice []).0 in
    let remaining = remaining_daily_budget settings "2026-01-01" [] in
    (d.requires_human_approval ≡ false
      → (d.estimated_cost ≤ per_task_limit settings profile) × (d.estimated_cost ≤ remaining))
    × (d.requires_human_approval ≡ true
        → NoneFits (per_task_limit settings profile) profile.fallback_models
          ⊎ NoneFits remaining profile.fallback_models)
    × IsDowngrade profile.fallback_models d
choose_model-IsWithin_example = choose_model-IsWithin settings 1 "2026-01-01" profile choice []
