-- ===== src/Runtime/Start.antt =====
-- The run that a task gets.
use agent_sam.Prelude.{
  strip, ◌<>◌, All, ℕ, ◌≤◌, String, true, false, some, List, [], ◌∷◌, find, ◌≡◌, ◌≢◌, refl, sym, ap,
  subst, ◌∙◌, inl, inr, ◌⊎◌, In, ◌==◌, string_eq, ok, Bool-cases, nat_eq, option_eq,
}
use agent_sam.Agents.Profile.{AgentProfile}
use agent_sam.Agents.Registry.{has_slug, get_agent_profile}
use agent_sam.Agents.Router.{RouterAgent}
use agent_sam.Agents.Router.Choice.{route-IsRouted}
use agent_sam.Budget.{
  BudgetSettings, ModelBudget, per_task_limit, remaining_daily_budget, choose_model,
  update_metadata,
}
use agent_sam.Budget.Limits.{NoneFits, choose_model-IsWithin}
use agent_sam.Database.{TaskRun}
use agent_sam.Runtime.Noted.{IsNoted, four_entries, last_task_run-key}
use agent_sam.Runtime.{
  description_or, input_summary_of, routing_entries, RoutedTask, AgentRun, route_request,
  choice_for, agent_run_row, start_run,
}

-- The run is one of a known agent, not the router, and its estimated cost is within the limits, or
-- no fallback model of the agent fits them.
pub record IsStarted (settings : BudgetSettings) (router : RouterAgent) (today : String)
    (rows : List ModelBudget) (t : RoutedTask) (task_runs : List TaskRun) (run : AgentRun)
    : Type 0 where
  pub profile : AgentProfile
  pub known : find (has_slug run.agent_slug) router.cached ≡ some profile
  pub of_task : run.task_id ≡ t.id
  pub summary : run.input_summary ≡ strip (t.title <> ("\n" <> description_or t.description))
  pub latest :
      (key : ℕ)
      → run.task_run_id ≡ some key
      → (r : TaskRun) × (r.id ≡ key)
        × In r task_runs
        × (r.task_id ≡ t.id)
        × All (λ q. q.task_id ≡ t.id → q.attempt_number ≤ r.attempt_number) task_runs
  pub is_running : run.status ≡ "running"
  pub other : run.agent_slug ≢ router.profile.slug
  pub within :
      ((run.cost_estimate ≤ per_task_limit settings profile)
        × (run.cost_estimate ≤ remaining_daily_budget settings today rows))
      ⊎ NoneFits (per_task_limit settings profile) profile.fallback_models
      ⊎ NoneFits (remaining_daily_budget settings today rows) profile.fallback_models

In-find :
    (p : AgentProfile) (profiles : List AgentProfile)
    → In p profiles
    → (q : AgentProfile) × (find (has_slug p.slug) profiles ≡ some q)
In-find p [] m = absurd m
In-find p (q ∷ profiles) m = elim (Bool-cases (q.slug == p.slug)) [
  | inl e ↦ (q, rw e refl)
  | inr e ↦ elim m [
    | inl same ↦
        let bad : false ≡ true =
          sym e ∙ (string_eq.beq_iff q.slug p.slug).1 (ap (λ x. x.slug) (sym same)) in
        cc
    | inr later ↦ let (r, found) = In-find p profiles later in (r, rw e found)
  ]
]

found-ok :
    (slug : String) (profiles : List AgentProfile) (p : AgentProfile)
    → find (has_slug slug) profiles ≡ some p
    → get_agent_profile slug profiles ≡ ok p
unfolding get_agent_profile
found-ok slug profiles p e = rw (e, get_agent_profile) refl

module _ (settings : BudgetSettings) (router : RouterAgent) (cost_text : ℕ → String)
    (coding : AgentProfile) where
  -- Every task is started. If the router's own profile is `router_agent`, there is a `coding_agent`,
  -- and the profiles have not changed since the router was made, then starting a task succeeds: its
  -- run is one of a known agent that is not the router, and its estimated cost is within the limit of
  -- the task and the rest of the day's budget, or no fallback model of the agent fits one of the two.
  -- The run has the text of the task and, if it names an attempt, the latest one of the task, and the
  -- task's metadata has the agent, the model, the reason and the cost of the run.
  pub start_run-IsStarted :
      (now : ℕ) (today : String) (t : RoutedTask) (task_runs : List TaskRun)
      (rows : List ModelBudget)
      → find (has_slug "coding_agent") router.profiles ≡ some coding
      → router.profile.slug ≡ "router_agent"
      → router.cached ≡ router.profiles
      → (run : AgentRun) × (noted : RoutedTask) × (after : List ModelBudget) × (start_run settings
            router cost_text now today t task_runs rows
          ≡ ok (run, noted, after))
        × IsStarted settings router today rows t task_runs run
        × IsNoted cost_text t run noted
  unfolding start_run input_summary_of
  start_run-IsStarted now today t task_runs rows has_coding own same =
      let (d, routed, is_routed) = route-IsRouted router (route_request t) coding has_coding own in
      let (p, found) = In-find is_routed.chosen router.profiles is_routed.known in
      let known : find (has_slug d.agent_slug) router.cached ≡ some p =
        subst (λ ps. find (has_slug d.agent_slug) ps ≡ some p) (sym same)
          (subst (λ s. find (has_slug s) router.profiles ≡ some p) (sym is_routed.named) found) in
      let (b, after) = choose_model settings now today p (choice_for t d) rows in
      let (free, asks, _) = choose_model-IsWithin settings now today p (choice_for t d) rows in
      let (agent_noted, model_noted, reason_noted, cost_noted, others) =
        four_entries d.agent_slug b.approved_model d.reason (cost_text b.estimated_cost)
          t.metadata in
      (
        agent_run_row now t task_runs d b,
        record t {
          metadata = update_metadata (routing_entries settings router cost_text d b) t.metadata;
        },
        after,
        rw (routed, found-ok d.agent_slug router.cached p known) refl,
        record {
          profile = p;
          known = known;
          of_task = refl;
          summary = refl;
          latest = last_task_run-key t.id task_runs;
          is_running = refl;
          other = is_routed.other;
          within = elim (Bool-cases b.requires_human_approval) [
            | inl e ↦ inr (asks e)
            | inr e ↦ inl (free e)
          ];
        },
        (refl, agent_noted, model_noted, reason_noted, cost_noted, others),
      )
