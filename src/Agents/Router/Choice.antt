-- ===== src/Agents/Router/Choice.antt =====
-- The decisions of the router.
use agent_sam.Prelude.{
  String, ◌<>◌, not, ◌||◌, Option, none, some, List, [], ◌∷◌, find, find-In, select, select-In, ◌≡◌,
  ◌≢◌, refl, sym, subst, ap, ◌∙◌, inl, inr, ◌⊎◌, In, ◌==◌, nat_eq, string_eq, option_eq, ok, ◌>>=◌,
  some-injective, Bool-cases, Option-cases,
}
use agent_sam.Agents.Profile.{AgentProfile}
use agent_sam.Agents.Registry.{has_slug}
use agent_sam.Agents.Router.{
  RouteRequest, AgentDecision, RouterAgent, profile_or, is_server_task, infer_best_fallback,
  requested_profile, inferred_profile, estimate_confidence, build_reason, matches_for,
  agent_decision, route_to, route,
}
use agent_sam.Agents.Router.Decided.{
  IsRouted, not_same, named_or, not_router, coding_router, ops_router, matches-In,
  decision-IsRouted,
}

module _ (router : RouterAgent) (r : RouteRequest) (coding : AgentProfile)
    (has_coding : find (has_slug "coding_agent") router.profiles ≡ some coding) where
  fallback-In :
      (o : Option AgentProfile)
      → find (has_slug "server_ops_agent") router.profiles ≡ o
      → (p : AgentProfile) × (profile_or o (ok coding) ≡ ok p)
        × In p router.profiles
        × ((p.slug ≡ "coding_agent") ⊎ (p.slug ≡ "server_ops_agent"))
  fallback-In none e =
      let (there, named) = find-In (has_slug "coding_agent") router.profiles coding has_coding in
      (coding, refl, there, inl ((string_eq.beq_iff coding.slug "coding_agent").0 named))
  fallback-In (some p) e =
      let (there, named) = find-In (has_slug "server_ops_agent") router.profiles p e in
      (p, refl, there, inr ((string_eq.beq_iff p.slug "server_ops_agent").0 named))

  infer_best_fallback-In :
      (p : AgentProfile) × (infer_best_fallback r router.profiles ≡ ok p)
      × In p router.profiles
      × ((p.slug ≡ "coding_agent") ⊎ (p.slug ≡ "server_ops_agent"))
  unfolding infer_best_fallback
  infer_best_fallback-In = elim (Bool-cases (is_server_task r)) [
    | inl e ↦
        let (p, chosen, there, named) =
          fallback-In (find (has_slug "server_ops_agent") router.profiles) refl in
        (p, rw (e, has_coding) chosen, there, named)
    | inr e ↦
        let (there, named) = find-In (has_slug "coding_agent") router.profiles coding has_coding in
        (
          coding,
          rw (e, has_coding) refl,
          there,
          inl ((string_eq.beq_iff coding.slug "coding_agent").0 named),
        )
  ]

  abbrev IsObeyed : AgentProfile → Type 0
  IsObeyed p =
      (slug : String) (q : AgentProfile)
      → r.requested_agent_slug ≡ some slug
      → slug ≢ ""
      → slug ≢ router.profile.slug
      → find (has_slug slug) router.profiles ≡ some q
      → p ≡ q

  inferred-IsRouted :
      router.profile.slug ≡ "router_agent"
      → ((p : AgentProfile) → IsObeyed p)
      → (matches : List AgentProfile)
      → select (λ q. not (q.slug == router.profile.slug)) (matches_for router r) ≡ matches
      → (d : AgentDecision) × ((inferred_profile r router.profiles matches >>= λ p.
            ok (agent_decision router r p (estimate_confidence r p) (build_reason r p)))
          ≡ ok d)
        × IsRouted router r d
  inferred-IsRouted own obeyed [] e =
      let (p, found, there, slugs) = infer_best_fallback-In in
      let other : p.slug ≢ router.profile.slug = λ same. elim slugs [
        | inl a ↦ coding_router (sym a ∙ same ∙ own)
        | inr a ↦ ops_router (sym a ∙ same ∙ own)
      ] in
      (
        agent_decision router r p (estimate_confidence r p) (build_reason r p),
        rw found refl,
        decision-IsRouted router r coding has_coding p (estimate_confidence r p) (build_reason r p)
            there other (obeyed p),
      )
  inferred-IsRouted own obeyed (p ∷ matches) e =
      let (matched, fits) =
        select-In (λ q. not (q.slug == router.profile.slug)) (matches_for router r) p
          (subst (In p) (sym e) (inl refl)) in
      (
        agent_decision router r p (estimate_confidence r p) (build_reason r p),
        refl,
        decision-IsRouted router r coding has_coding p (estimate_confidence r p) (build_reason r p)
            (matches-In router r coding has_coding p matched)
            (not_same p.slug router.profile.slug fits) (obeyed p),
      )

  -- A request for an agent is either obeyed or names no agent that can be chosen.
  requested_profile-cases :
      (o : Option String)
      → ((p : AgentProfile) × (slug : String) × (requested_profile router.profile.slug
              router.profiles o
            ≡ some p)
          × (o ≡ some slug)
          × (slug ≢ router.profile.slug)
          × (find (has_slug slug) router.profiles ≡ some p))
        ⊎ ((requested_profile router.profile.slug router.profiles o ≡ none)
            × ((slug : String) (q : AgentProfile)
                → o ≡ some slug
                → slug ≢ ""
                → slug ≢ router.profile.slug
                → find (has_slug slug) router.profiles ≢ some q))
  requested_profile-cases none = inr (refl, λ slug q e. cc)
  requested_profile-cases (some slug) =
      elim (Bool-cases (slug == "" || slug == router.profile.slug)) [
        | inl e ↦ inr (
          rw e refl,
          λ s q same filled other _.
              let one : slug ≡ s = some-injective slug s same in
              (elim (named_or slug router.profile.slug e) [
                | inl a ↦ filled (sym one ∙ a)
                | inr a ↦ other (sym one ∙ a)
              ]),
        )
        | inr e ↦ elim (Option-cases (find (has_slug slug) router.profiles)) [
          | inl f ↦ inr (
            rw (e, f) refl,
            λ s q same filled other found.
                let bad : none ≡ some q =
                  sym f
                  ∙ subst (λ t. find (has_slug t) router.profiles ≡ some q)
                      (sym (some-injective slug s same)) found in
                cc,
          )
          | inr (p, f) ↦
              inl (p, slug, rw (e, f) refl, refl, (λ a. not_router slug router.profile.slug e a), f)
        ]
      ]

  route_to-IsRouted :
      router.profile.slug ≡ "router_agent"
      → (o : Option String) → r.requested_agent_slug ≡ o
      → (d : AgentDecision) × (route_to router r
            (requested_profile router.profile.slug router.profiles o)
          ≡ ok d)
        × IsRouted router r d
  route_to-IsRouted own o same = elim (requested_profile-cases o) [
    | inl (p, slug, chosen, is, other, found) ↦
        let (there, named) = find-In (has_slug slug) router.profiles p found in
        let slug_is : p.slug ≡ slug = (string_eq.beq_iff p.slug slug).0 named in
        (
          agent_decision router r p 98 ("User explicitly requested " <> (p.slug <> ".")),
          rw chosen refl,
          decision-IsRouted router r coding has_coding p 98 _ there (λ e. other (sym slug_is ∙ e))
              (λ s q asked _ _ got. some-injective p q (
                sym found
                ∙ ap (λ t. find (has_slug t) router.profiles)
                    (some-injective slug s (sym is ∙ sym same ∙ asked))
                ∙ got)),
        )
    | inr (without, unknown) ↦ rw without (
        inferred-IsRouted own
          (λ p s q asked filled other got. absurd (unknown s q (sym same ∙ asked) filled other got))
          (select (λ q. not (q.slug == router.profile.slug)) (matches_for router r)) refl)
  ]

  -- Every request is routed. If the router's own profile is `router_agent` and there is a
  -- `coding_agent`, routing succeeds and chooses a loaded profile that is not the router's: the
  -- requested one if that is loaded. The model is the default or the escalation model of the profile,
  -- the latter if premium was requested; an approval is required exactly if the task is critical or
  -- the profile's risk is high; at most three fallbacks are named, all of them other loaded agents.
  pub route-IsRouted :
      router.profile.slug ≡ "router_agent"
      → (d : AgentDecision) × (route router r ≡ ok d) × IsRouted router r d
  unfolding route
  route-IsRouted own = route_to-IsRouted own r.requested_agent_slug refl
