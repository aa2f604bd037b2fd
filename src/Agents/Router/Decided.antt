-- ===== src/Agents/Router/Decided.antt =====
-- What a decision of the router says.
use agent_sam.Prelude.{
  ℕ, ◌≤◌, String, true, false, not, ◌||◌, some, List, [], ◌∷◌, map, find, select, select-In, length,
  length-take_le, order_by-In, ◌≡◌, ◌≢◌, ◌↔◌, refl, sym, subst, ◌∙◌, ◌⊎◌, In, All, All-take,
  All-intro, map-In, ◌==◌, nat_eq, string_eq, option_eq, ltb, arith,
}
use agent_sam.Agents.Profile.{AgentProfile}
use agent_sam.Agents.Registry.{
  has_slug, available, find_agents_for_task, profile_score, task_text, fits_before,
}
use agent_sam.Agents.Router.{
  RouteRequest, AgentDecision, RouterAgent, to_payload, choose_model, slug_of, matches_for,
  agent_decision,
}

-- What a decision says about the profile it has chosen.
pub record IsRouted (router : RouterAgent) (r : RouteRequest) (d : AgentDecision) : Type 0 where
  pub chosen : AgentProfile
  pub known : In chosen router.profiles
  pub named : d.agent_slug ≡ chosen.slug
  pub other : d.agent_slug ≢ router.profile.slug
  pub model : (d.model ≡ chosen.default_model) ⊎ (d.model ≡ chosen.escalation_model)
  pub premium : r.premium_requested ≡ true → d.model ≡ chosen.escalation_model
  pub approval :
      (d.requires_human_approval ≡ true)
      ↔ ((r.safety_critical ≡ true) ⊎ (chosen.risk_level ≡ "high"))
  pub short : length d.fallback_agent_slugs ≤ 3
  pub fallbacks :
      All
        (λ s.
          (s ≢ router.profile.slug)
          × (s ≢ d.agent_slug)
          × (q : AgentProfile) × In q router.profiles
          × (s ≡ q.slug))
        d.fallback_agent_slugs
  pub obeyed :
      (slug : String) (q : AgentProfile)
      → r.requested_agent_slug ≡ some slug
      → slug ≢ ""
      → slug ≢ router.profile.slug
      → find (has_slug slug) router.profiles ≡ some q
      → chosen ≡ q

pub available-same :
    (cached profiles : List AgentProfile) (slug : String) (p : AgentProfile)
    → find (has_slug slug) profiles ≡ some p
    → available cached profiles ≡ profiles
available-same cached [] slug p h = cc
available-same cached (q ∷ profiles) slug p h = refl

pub not_either : (s t u : String) → not (s == t || s == u) ≡ true → (s ≢ t) × (s ≢ u)
not_either s t u h =
    (λ e. ground (arith, string_eq.beq_iff s t), λ e. ground (arith, string_eq.beq_iff s u))

pub not_same : (s t : String) → not (s == t) ≡ true → s ≢ t
not_same s t h e = ground (arith, string_eq.beq_iff s t)

pub named_or : (s t : String) → (s == "" || s == t) ≡ true → (s ≡ "") ⊎ (s ≡ t)
named_or s t h = ground (arith, string_eq.beq_iff s "", string_eq.beq_iff s t)

pub not_router : (s t : String) → (s == "" || s == t) ≡ false → s ≢ t
not_router s t h e = ground (arith, string_eq.beq_iff s t)

pub coding_router : ◌≢◌ {A = String} "coding_agent" "router_agent"
coding_router e =
    let bad : false ≡ true = (string_eq.beq_iff "coding_agent" "router_agent").1 e in cc

pub ops_router : ◌≢◌ {A = String} "server_ops_agent" "router_agent"
ops_router e =
    let bad : false ≡ true = (string_eq.beq_iff "server_ops_agent" "router_agent").1 e in cc

module _ (router : RouterAgent) (r : RouteRequest) (coding : AgentProfile)
    (has_coding : find (has_slug "coding_agent") router.profiles ≡ some coding) where
  pub matches-In : (q : AgentProfile) → In q (matches_for router r) → In q router.profiles
  unfolding find_agents_for_task
  matches-In q m =
      let haystack = task_text (to_payload r) in
      let among =
        order_by-In (fits_before haystack)
          (select (λ p. ltb 0 (profile_score haystack p)) (available router.cached router.profiles))
          q m in
      let (there, _) =
        select-In (λ p. ltb 0 (profile_score haystack p)) (available router.cached router.profiles)
          q among in
      subst (In q) (available-same router.cached router.profiles "coding_agent" coding has_coding)
        there

  pub decision-IsRouted :
      (p : AgentProfile) (confidence : ℕ) (reason : String)
      → In p router.profiles
      → p.slug ≢ router.profile.slug
      → ((slug : String) (q : AgentProfile)
          → r.requested_agent_slug ≡ some slug
          → slug ≢ ""
          → slug ≢ router.profile.slug
          → find (has_slug slug) router.profiles ≡ some q
          → p ≡ q)
      → IsRouted router r (agent_decision router r p confidence reason)
  unfolding choose_model
  decision-IsRouted p confidence reason known other obeyed =
      let candidates =
        select (λ q. not (q.slug == router.profile.slug || q.slug == p.slug))
          (matches_for router r) in
      record {
        chosen = p;
        known = known;
        named = refl;
        other = other;
        model = ground arith;
        premium = λ h. ground arith;
        approval = ground (arith, string_eq.beq_iff p.risk_level "high");
        short = length-take_le 3 (map slug_of candidates);
        fallbacks = All-take _ 3 (map slug_of candidates) (
            All-intro _ (map slug_of candidates) (λ s m.
              let (q, there, e) = map-In slug_of candidates s m in
              let (matched, fits) =
                select-In (λ q. not (q.slug == router.profile.slug || q.slug == p.slug))
                  (matches_for router r) q there in
              let (f, g) = not_either q.slug router.profile.slug p.slug fits in
              ((λ h. f (sym e ∙ h)), (λ h. g (sym e ∙ h)), q, matches-In q matched, e)));
        obeyed = obeyed;
      }
