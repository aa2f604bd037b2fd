-- ===== src/Budget/Limits.antt =====
-- What a model that the budget service chooses may cost.
use agent_sam.Prelude.{
  ℕ, ◌≤◌, ◌<◌, String, Bool, true, false, List, ◌≡◌, ◌⊎◌, inl, inr, refl, find, find-In, find-none,
  In, All, All-map, ltb, leb, leb→le, Bool-cases, Option-cases, arith, nat_eq, string_eq, option_eq,
}
use agent_sam.Agents.Profile.{AgentProfile}
use agent_sam.Budget.{
  BudgetSettings, BudgetDecision, ModelBudget, ModelChoice, estimate_model_cost_level, fit,
  remaining_daily_budget, per_task_limit, first_choice, within_task, decide_model, choose_model,
}

abbrev fits : ℕ → String → Bool
fits limit fallback = leb (estimate_model_cost_level fallback) limit

-- Every fallback model costs more than the limit.
abbrev pub NoneFits : ℕ → List String → Type 0
NoneFits limit fallback_models = All (λ f. limit < estimate_model_cost_level f) fallback_models

-- A decision that was downgraded is for a fallback model at its estimated cost.
abbrev pub IsDowngrade : List String → BudgetDecision → Type 0
IsDowngrade fallback_models d =
    d.downgraded ≡ true
    → In d.approved_model fallback_models
      × (d.estimated_cost ≡ estimate_model_cost_level d.approved_model)
      × (d.escalated ≡ false)

module _ (fallback_models : List String) (limit : ℕ) (lower above : String)
    (d : BudgetDecision) where
  abbrev fitted : BudgetDecision
  fitted = fit fallback_models limit lower above d

  fit-bound :
      fitted.requires_human_approval ≡ false
      → (d.requires_human_approval ≡ false)
        × (fitted.estimated_cost ≤ limit)
        × (fitted.estimated_cost ≤ d.estimated_cost)
  fit-bound h = elim (Bool-cases (ltb limit d.estimated_cost)) [
    | inr e ↦ rw e (rw e at h, ground arith, ground arith)
    | inl e ↦ elim (Option-cases (find (fits limit) fallback_models)) [
      | inl f ↦ let bad : true ≡ false = rw (e, f) at h in cc
      | inr (m, f) ↦
          let small =
            leb→le (estimate_model_cost_level m) limit
              (find-In (fits limit) fallback_models m f).1 in
          rw (e, f) (rw (e, f) at h, small, ground arith)
    ]
  ]

  fit-approval :
      fitted.requires_human_approval ≡ true
      → (d.requires_human_approval ≡ true) ⊎ NoneFits limit fallback_models
  fit-approval h = elim (Bool-cases (ltb limit d.estimated_cost)) [
    | inr e ↦ inl (rw e at h)
    | inl e ↦ elim (Option-cases (find (fits limit) fallback_models)) [
      | inl f ↦ inr (
          All-map _ _ fallback_models (λ m big. ground arith)
            (find-none (fits limit) fallback_models f))
      | inr (m, f) ↦ inl (rw (e, f) at h)
    ]
  ]

  fit-IsDowngrade : IsDowngrade fallback_models d → IsDowngrade fallback_models fitted
  fit-IsDowngrade keep = elim (Bool-cases (ltb limit d.estimated_cost)) [
    | inr e ↦ rw e keep
    | inl e ↦ elim (Option-cases (find (fits limit) fallback_models)) [
      | inl f ↦ rw (e, f) keep
      | inr (m, f) ↦ rw (e, f) (λ _. ((find-In (fits limit) fallback_models m f).0, refl, refl))
    ]
  ]

-- A model that needs no approval costs at most the limit of the task and at most what is left of the
-- day's budget. An approval is asked for only if none of the fallback models fits the limit of the
-- task, or none fits the rest of the day's budget. A downgraded choice is a fallback model, at its
-- estimated cost, and is no escalation.
pub choose_model-IsWithin :
    (settings : BudgetSettings) (now : ℕ) (today : String) (profile : AgentProfile)
    (c : ModelChoice) (rows : List ModelBudget)
    → let d = (choose_model settings now today profile c rows).0 in
      let limit = per_task_limit settings profile in
      let remaining = remaining_daily_budget settings today rows in
      (d.requires_human_approval ≡ false
        → (d.estimated_cost ≤ limit) × (d.estimated_cost ≤ remaining))
      × (d.requires_human_approval ≡ true
          → NoneFits limit profile.fallback_models ⊎ NoneFits remaining profile.fallback_models)
      × IsDowngrade profile.fallback_models d
unfolding choose_model decide_model first_choice
choose_model-IsWithin settings now today profile c rows =
    let limit = per_task_limit settings profile in
    let remaining = remaining_daily_budget settings today rows in
    let first = first_choice settings profile c in
    let task = within_task settings profile first in
    let fb = profile.fallback_models in
    (
      λ free.
          let (free', day, less) = fit-bound fb remaining _ _ task free in
          let (_, small, _) = fit-bound fb limit _ _ first free' in (ground arith, day),
      λ asks. elim (fit-approval fb remaining _ _ task asks) [
        | inr day ↦ inr day
        | inl asks' ↦ elim (fit-approval fb limit _ _ first asks') [
          | inl bad ↦ cc
          | inr small ↦ inl small
        ]
      ],
      fit-IsDowngrade fb remaining _ _ task (fit-IsDowngrade fb limit _ _ first (λ h. cc)),
    )
