-- ===== src/Budget/Spending.antt =====
-- How the budget of a day is spent.
use agent_sam.Prelude.{
  ℕ, ◌+◌, ◌-◌, String, true, false, Option, none, some, List, [], ◌∷◌, ◌≡◌, ◌≢◌, refl, ◌∙◌, ap,
  find, string_eq, Bool-cases, inl, inr, arith, nat_eq, option_eq,
}
use agent_sam.Agents.Profile.{AgentProfile}
use agent_sam.Budget.{
  BudgetSettings, BudgetDecision, ModelBudget, ModelChoice, in_scope, new_budget, spent_of,
  upsert_budget_record, remaining_daily_budget, record_actual_cost, record_budget_decision,
  record_for, decide_model, choose_model,
}

in_scope-own : (row : ModelBudget) → in_scope row.scope row.scope_key row ≡ true
in_scope-own row =
    ground
      (arith, string_eq.beq_iff row.scope row.scope, string_eq.beq_iff row.scope_key row.scope_key)

in_scope-other :
    (scope other key other_key : String) (row : ModelBudget)
    → scope ≢ other
    → in_scope scope key row ≡ true
    → in_scope other other_key row ≡ false
in_scope-other scope other key other_key row n h =
    ground (arith, string_eq.beq_iff row.scope scope, string_eq.beq_iff row.scope other)

module _ (now : ℕ) (scope key : String) (amount budget : ℕ)
    (metadata : List (String × String)) where
  abbrev written : List ModelBudget → List ModelBudget
  written = upsert_budget_record now scope key amount budget metadata

  upsert_budget_record-spent :
      (rows : List ModelBudget)
      → spent_of (find (in_scope scope key) (written rows))
        ≡ spent_of (find (in_scope scope key) rows) + amount
  unfolding upsert_budget_record
  upsert_budget_record-spent [] = rw (in_scope-own (new_budget now scope key budget metadata)) refl
  upsert_budget_record-spent (row ∷ rows) = elim (Bool-cases (in_scope scope key row)) [
    | inl e ↦ rw (e, e) refl
    | inr e ↦ rw (e, e) (upsert_budget_record-spent rows)
  ]

  upsert_budget_record-kept :
      (other other_key : String) (rows : List ModelBudget)
      → scope ≢ other
      → spent_of (find (in_scope other other_key) (written rows))
        ≡ spent_of (find (in_scope other other_key) rows)
  unfolding upsert_budget_record
  upsert_budget_record-kept other other_key [] n =
      rw
        (in_scope-other scope other key other_key (new_budget now scope key budget metadata) n
          (in_scope-own (new_budget now scope key budget metadata)))
        refl
  upsert_budget_record-kept other other_key (row ∷ rows) n =
      elim (Bool-cases (in_scope scope key row)) [
        | inl e ↦ rw (e, in_scope-other scope other key other_key row n e) refl
        | inr e ↦ elim (Bool-cases (in_scope other other_key row)) [
          | inl f ↦ rw (e, f) refl
          | inr f ↦ rw (e, f) (upsert_budget_record-kept other other_key rows n)
        ]
      ]

-- A use of the service on one day: a cost that was paid, or a model that is chosen.
pub data BudgetCall : Type 0 where
  paid : (now amount : ℕ) → BudgetCall
  chosen : (now : ℕ) → AgentProfile → ModelChoice → BudgetCall

abbrev pub total_paid : List BudgetCall → ℕ
total_paid [] = 0
total_paid (paid now amount ∷ calls) = amount + total_paid calls
total_paid (chosen now profile c ∷ calls) = total_paid calls

task-daily : ◌≢◌ {A = String} "task" "daily"
task-daily e = let bad : false ≡ true = (string_eq.beq_iff "task" "daily").1 e in cc

module _ (settings : BudgetSettings) (today : String) where
  abbrev pub run_call : BudgetCall → List ModelBudget → List ModelBudget
  run_call (paid now amount) rows = record_actual_cost settings now today amount rows
  run_call (chosen now profile c) rows = (choose_model settings now today profile c rows).1

  abbrev pub run_calls : List BudgetCall → List ModelBudget → List ModelBudget
  run_calls [] rows = rows
  run_calls (call ∷ calls) rows = run_calls calls (run_call call rows)

  record_for-remaining :
      (now : ℕ) (task_id : Option String) (profile : AgentProfile) (d : BudgetDecision)
      (rows : List ModelBudget)
      → remaining_daily_budget settings today (record_for settings now task_id profile d rows)
        ≡ remaining_daily_budget settings today rows
  unfolding remaining_daily_budget record_budget_decision
  record_for-remaining now none profile d rows = refl
  record_for-remaining now (some task_id) profile d rows =
      ap (λ n. settings.daily_model_budget - n)
        (upsert_budget_record-kept now "task" task_id _ _ _ "daily" today rows task-daily)

  record_actual_cost-remaining :
      (now amount : ℕ) (rows : List ModelBudget)
      → remaining_daily_budget settings today (record_actual_cost settings now today amount rows)
        ≡ remaining_daily_budget settings today rows - amount
  unfolding remaining_daily_budget record_actual_cost
  record_actual_cost-remaining now amount rows = omega (
    arith,
    upsert_budget_record-spent now "daily" today amount settings.daily_model_budget [] rows,
  )

  -- Whatever is paid and whatever models are chosen on a day, in any order: what is left of the
  -- day's budget is what was left before, less the costs that were paid, and nothing if they are
  -- more. Choosing a model spends nothing of it.
  pub run_calls-remaining :
      (calls : List BudgetCall) (rows : List ModelBudget)
      → remaining_daily_budget settings today (run_calls calls rows)
        ≡ remaining_daily_budget settings today rows - total_paid calls
  unfolding remaining_daily_budget record_actual_cost choose_model
  run_calls-remaining [] rows = omega arith
  run_calls-remaining (paid now amount ∷ calls) rows = omega (
    arith,
    run_calls-remaining calls (record_actual_cost settings now today amount rows),
    record_actual_cost-remaining now amount rows,
  )
  run_calls-remaining (chosen now profile c ∷ calls) rows =
      run_calls-remaining calls (run_call (chosen now profile c) rows)
      ∙ ap (λ n. n - total_paid calls)
          (record_for-remaining now c.task_id profile
            (decide_model settings profile c (remaining_daily_budget settings today rows)) rows)
