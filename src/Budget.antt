-- ===== src/Budget.antt =====
-- services/budget_service.py: `BudgetService`. Money is counted in cents, as natural numbers: the
-- rounding of floats and negative amounts are left out. The clock is an argument.
pub mod Limits
pub mod Spending
mod Tests
use agent_sam.Prelude.{
  ℕ, ◌+◌, ◌-◌, min, String, Bool, true, false, not, ◌&&◌, ◌||◌, Option, none, some, List, [], ◌∷◌,
  find, any, ltb, leb, if◌then◌else◌, ◌==◌, nat_eq, string_eq, in_lower,
}
use agent_sam.Agents.Profile.{AgentProfile}

pub record BudgetSettings : Type 0 where
  pub allow_model_escalation : Bool
  pub max_cost_per_task : ℕ
  pub daily_model_budget : ℕ

pub record BudgetDecision : Type 0 where
  pub approved_model : String
  pub estimated_cost : ℕ
  pub downgraded : Bool
  pub escalated : Bool
  pub requires_human_approval : Bool
  pub reason : String

pub record ModelBudget : Type 0 where
  pub scope : String
  pub scope_key : String
  pub budget : ℕ
  pub spent : ℕ
  pub period_start : Option ℕ
  pub period_end : Option ℕ
  pub metadata_json : List (String × String)

-- The arguments of `choose_model`; a task is given by the text of its key.
pub record ModelChoice : Type 0 where
  pub requested_model : Option String
  pub estimated_cost : Option ℕ
  pub task_id : Option String
  pub failed_attempt : Bool
  pub low_confidence : Bool
  pub high_complexity : Bool
  pub premium_requested : Bool
  pub safety_critical : Bool

unfoldable pub estimate_model_cost_level : String → ℕ
estimate_model_cost_level model_name =
    if any (λ token. in_lower token model_name) ("mini" ∷ "haiku" ∷ "flash" ∷ "small" ∷ [])
    then 1
    else if any (λ token. in_lower token model_name) ("sonnet" ∷ "medium" ∷ "turbo" ∷ "large" ∷ [])
    then 5
    else 12

abbrev model_or : Option String → String → String
model_or none model = model
model_or (some m) model = if m == "" then model else m

abbrev cost_or : Option ℕ → String → ℕ
cost_or none model = estimate_model_cost_level model
cost_or (some cost) model = cost

abbrev is_hard : ModelChoice → Bool
is_hard c =
    c.failed_attempt
    || (c.low_confidence || (c.high_complexity || (c.premium_requested || c.safety_critical)))

abbrev downgrade : String → BudgetDecision → Option String → String → BudgetDecision
downgrade downgrade_reason d none approval_reason = record d {
  requires_human_approval = true;
  reason = approval_reason;
}
downgrade downgrade_reason d (some model) approval_reason = record d {
  approved_model = model;
  estimated_cost = estimate_model_cost_level model;
  downgraded = true;
  escalated = false;
  reason = downgrade_reason;
}

-- The first fallback model that fits a limit replaces a model that does not.
abbrev pub fit : List String → ℕ → String → String → BudgetDecision → BudgetDecision
fit fallback_models limit downgrade_reason approval_reason d =
    if ltb limit d.estimated_cost
    then downgrade downgrade_reason d
        (find (λ fallback. leb (estimate_model_cost_level fallback) limit) fallback_models)
        approval_reason
    else d

abbrev pub in_scope : String → String → ModelBudget → Bool
in_scope scope scope_key row = row.scope == scope && row.scope_key == scope_key

-- `dict.update` with one entry
abbrev pub set_key : String → String → List (String × String) → List (String × String)
set_key key value [] = (key, value) ∷ []
set_key key value (entry ∷ rest) =
    let later = set_key key value rest in
    if entry.0 == key then (key, value) ∷ rest else entry ∷ later

abbrev pub update_metadata :
    List (String × String) → List (String × String) → List (String × String)
update_metadata [] old = old
update_metadata (entry ∷ rest) old = update_metadata rest (set_key entry.0 entry.1 old)

abbrev a_day : ℕ
a_day = 86400

abbrev when_daily : String → ℕ → Option ℕ
when_daily scope time = if scope == "daily" then some time else none

abbrev spend : ℕ → List (String × String) → ModelBudget → ModelBudget
spend amount metadata row = record row {
  spent = row.spent + amount;
  metadata_json = update_metadata metadata row.metadata_json;
}

abbrev new_budget : ℕ → String → String → ℕ → List (String × String) → ModelBudget
new_budget now scope scope_key budget metadata = record {
  scope = scope;
  scope_key = scope_key;
  budget = budget;
  spent = 0;
  period_start = when_daily scope now;
  period_end = when_daily scope (now + a_day);
  metadata_json = metadata;
}

-- `_upsert_budget_record`, with the limit of a new row.
unfoldable pub upsert_budget_record :
    ℕ → String → String → ℕ → ℕ → List (String × String) → List ModelBudget → List ModelBudget
upsert_budget_record now scope scope_key amount budget metadata [] =
    spend amount metadata (new_budget now scope scope_key budget metadata) ∷ []
upsert_budget_record now scope scope_key amount budget metadata (row ∷ rows) =
    let later = upsert_budget_record now scope scope_key amount budget metadata rows in
    if in_scope scope scope_key row then spend amount metadata row ∷ rows else row ∷ later

abbrev spent_of : Option ModelBudget → ℕ
spent_of none = 0
spent_of (some row) = row.spent

module _ (settings : BudgetSettings) where
  -- `today` is `_daily_scope_key()`; subtraction stops at 0, as `max(0.0, ...)` does.
  unfoldable pub remaining_daily_budget : String → List ModelBudget → ℕ
  remaining_daily_budget today rows =
      settings.daily_model_budget - spent_of (find (in_scope "daily" today) rows)

  abbrev pub per_task_limit : AgentProfile → ℕ
  per_task_limit profile = min profile.max_cost_per_task settings.max_cost_per_task

  unfoldable pub record_actual_cost : ℕ → String → ℕ → List ModelBudget → List ModelBudget
  record_actual_cost now today amount =
      upsert_budget_record now "daily" today amount settings.daily_model_budget []

  unfoldable pub record_budget_decision :
      ℕ → String → AgentProfile → BudgetDecision → List ModelBudget → List ModelBudget
  record_budget_decision now task_id profile d =
      upsert_budget_record now "task" task_id d.estimated_cost (per_task_limit profile)
        (("agent_slug", profile.slug) ∷ ("model", d.approved_model) ∷ ("reason", d.reason) ∷ [])

  -- The model before any limit is looked at.
  unfoldable pub first_choice : AgentProfile → ModelChoice → BudgetDecision
  first_choice profile c =
      let escalated = settings.allow_model_escalation && is_hard c in
      let model =
        if escalated
        then profile.escalation_model
        else model_or c.requested_model profile.default_model in
      record {
        approved_model = model;
        estimated_cost = cost_or c.estimated_cost model;
        downgraded = false;
        escalated = escalated;
        requires_human_approval = false;
        reason = "within budget";
      }

  abbrev pub within_task : AgentProfile → BudgetDecision → BudgetDecision
  within_task profile =
      fit profile.fallback_models (per_task_limit profile) "downgraded to fit per-task budget"
        "estimated model cost exceeds per-task budget"

  abbrev pub within_day : AgentProfile → ℕ → BudgetDecision → BudgetDecision
  within_day profile remaining =
      fit profile.fallback_models remaining "downgraded to fit daily budget"
        "estimated model cost exceeds remaining daily budget"

  unfoldable pub decide_model : AgentProfile → ModelChoice → ℕ → BudgetDecision
  unfolding first_choice
  decide_model profile c remaining =
      within_day profile remaining (within_task profile (first_choice profile c))

  abbrev record_for :
      ℕ → Option String → AgentProfile → BudgetDecision → List ModelBudget → List ModelBudget
  record_for now none profile d rows = rows
  record_for now (some task_id) profile d rows = record_budget_decision now task_id profile d rows

  unfoldable pub choose_model :
      ℕ → String → AgentProfile → ModelChoice → List ModelBudget → BudgetDecision × List ModelBudget
  unfolding decide_model remaining_daily_budget record_budget_decision
  choose_model now today profile c rows =
      let d = decide_model profile c (remaining_daily_budget today rows) in
      (d, record_for now c.task_id profile d rows)
