-- ===== src/Agents/Router.antt =====
-- agents/router.py: `RouterAgent`. Confidences are in hundredths.
pub mod Decided
pub mod Choice
use agent_sam.Prelude.{
  ℕ, ◌+◌, String, ◌<>◌, Bool, true, false, not, ◌&&◌, ◌||◌, Option, none, some, List, [], ◌∷◌, map,
  find, select, take, head?, any, contains, if◌then◌else◌, ◌==◌, nat_eq, string_eq, ltb, leb, lower,
  is_in, spaced, Exception, Outcome, ok, raise, key_error, stop_iteration, ◌>>=◌, ◌>>◌,
}
use agent_sam.Agents.Profile.{AgentProfile}
use agent_sam.Agents.Registry.{TaskPayload, has_slug, find_agents_for_task, get_agent_profile}

pub record RouteRequest : Type 0 where
  pub title : String
  pub description : String
  pub metadata : List (String × String)
  pub requested_agent_slug : Option String
  pub premium_requested : Bool
  pub safety_critical : Bool

pub record AgentDecision : Type 0 where
  pub agent_slug : String
  pub confidence : ℕ
  pub reason : String
  pub model : String
  pub estimated_cost_level : String
  pub requires_human_approval : Bool
  pub fallback_agent_slugs : List String
  pub risk_level : String

-- `to_payload`; the payload has no task type.
abbrev pub to_payload : RouteRequest → TaskPayload
to_payload r = record {
  title = r.title;
  description = r.description;
  task_type = "";
  metadata = r.metadata;
}

-- `f"{title} {description}".lower()`
unfoldable pub haystack_of : RouteRequest → String
haystack_of r = lower (r.title <> (" " <> r.description))

abbrev pub premium_words : List String
premium_words = "critical" ∷ "production" ∷ "safety" ∷ "severe" ∷ []

unfoldable pub choose_model : AgentProfile → RouteRequest → String
choose_model p r =
    if r.premium_requested
      || any (λ k. is_in k (lower r.title <> (" " <> lower r.description))) premium_words
    then p.escalation_model
    else p.default_model

abbrev pub matched_types : AgentProfile → RouteRequest → List String
matched_types p r = select (λ t. is_in (spaced t) (haystack_of r)) p.task_types

abbrev pub confidence_of : List String → ℕ
confidence_of [] = 72
confidence_of (t ∷ []) = 84
confidence_of (t ∷ u ∷ ts) = 92

unfoldable pub estimate_confidence : RouteRequest → AgentProfile → ℕ
unfolding haystack_of
estimate_confidence r p = confidence_of (matched_types p r)

abbrev pub reason_of : AgentProfile → List String → String
reason_of p [] =
    "Selected " <> (p.slug <> " as the cheapest suitable specialist for the task content.")
reason_of p (t ∷ ts) = "Matched task intent '" <> (t <> ("' to " <> (p.slug <> ".")))

unfoldable pub build_reason : RouteRequest → AgentProfile → String
unfolding haystack_of
build_reason r p = reason_of p (matched_types p r)

abbrev pub server_ops_keywords : List String
server_ops_keywords =
    "folder" ∷ "file" ∷ "directory" ∷ "path" ∷ "find" ∷ "ls" ∷ "pwd" ∷ "server" ∷ "linux" ∷ "/var"
    ∷ "/etc" ∷ "/opt" ∷ "process" ∷ "service" ∷ "nginx" ∷ "apache" ∷ "systemd" ∷ "shiva" ∷ "drive"
    ∷ "site" ∷ "/www" ∷ []

abbrev pub is_server_task : RouteRequest → Bool
is_server_task r = any (λ k. is_in k (haystack_of r)) server_ops_keywords

abbrev pub profile_or : Option AgentProfile → Outcome AgentProfile → Outcome AgentProfile
profile_or none other = other
profile_or (some p) other = ok p

-- `next(iter(profiles.values()))`
abbrev pub first_profile : List AgentProfile → Outcome AgentProfile
first_profile [] = raise (stop_iteration "")
first_profile (p ∷ ps) = ok p

unfoldable pub infer_best_fallback : RouteRequest → List AgentProfile → Outcome AgentProfile
unfolding haystack_of
infer_best_fallback r profiles =
    let coding = find (has_slug "coding_agent") profiles in
    if is_server_task r
    then profile_or (find (has_slug "server_ops_agent") profiles)
        (profile_or coding (raise (key_error "coding_agent")))
    else profile_or coding (first_profile profiles)

unfoldable pub cost_level_for_model : String → String
cost_level_for_model model =
    let lowered = lower model in
    if any (λ token. is_in token lowered) ("mini" ∷ "haiku" ∷ "flash" ∷ "small" ∷ [])
    then "low"
    else if any (λ token. is_in token lowered) ("sonnet" ∷ "medium" ∷ "large" ∷ "turbo" ∷ [])
    then "medium"
    else "high"

-- The requested agent, if it is known and is not the router itself.
abbrev pub requested_profile : String → List AgentProfile → Option String → Option AgentProfile
requested_profile router profiles none = none
requested_profile router profiles (some slug) =
    if slug == "" || slug == router then none else find (has_slug slug) profiles

-- The best match that is not the router itself, or the fallback.
abbrev pub inferred_profile :
    RouteRequest → List AgentProfile → List AgentProfile → Outcome AgentProfile
inferred_profile r profiles [] = infer_best_fallback r profiles
inferred_profile r profiles (p ∷ matches) = ok p

abbrev pub slug_of : AgentProfile → String
slug_of p = p.slug

-- A router has its own profile and the profiles that were loaded when it was made.
pub record RouterAgent : Type 0 where
  pub profile : AgentProfile
  pub profiles : List AgentProfile
  pub cached : List AgentProfile

unfoldable pub new_router : List AgentProfile → List AgentProfile → Outcome RouterAgent
unfolding get_agent_profile
new_router profiles cached =
    profile_or (find (has_slug "router_agent") profiles) (get_agent_profile "router_agent" cached)
    >>= λ own. ok (record { profile = own; profiles = profiles; cached = cached })

module _ (router : RouterAgent) where
  abbrev pub matches_for : RouteRequest → List AgentProfile
  matches_for r = find_agents_for_task router.cached (to_payload r) router.profiles

  abbrev pub fallbacks_for : RouteRequest → AgentProfile → List String
  fallbacks_for r p = take 3 (
      map slug_of
        (select (λ q. not (q.slug == router.profile.slug || q.slug == p.slug)) (matches_for r)))

  abbrev pub agent_decision : RouteRequest → AgentProfile → ℕ → String → AgentDecision
  agent_decision r p confidence reason =
      let model = choose_model p r in
      record {
        agent_slug = p.slug;
        confidence = confidence;
        reason = reason;
        model = model;
        estimated_cost_level = cost_level_for_model model;
        requires_human_approval = r.safety_critical || p.risk_level == "high";
        fallback_agent_slugs = fallbacks_for r p;
        risk_level = p.risk_level;
      }

  abbrev pub route_to : RouteRequest → Option AgentProfile → Outcome AgentDecision
  route_to r (some p) = ok (agent_decision r p 98 ("User explicitly requested " <> (p.slug <> ".")))
  route_to r none =
      inferred_profile r router.profiles
        (select (λ q. not (q.slug == router.profile.slug)) (matches_for r))
      >>= λ p. ok (agent_decision r p (estimate_confidence r p) (build_reason r p))

  unfoldable pub route : RouteRequest → Outcome AgentDecision
  unfolding find_agents_for_task choose_model cost_level_for_model infer_best_fallback
      estimate_confidence build_reason
  route r =
      route_to r (requested_profile router.profile.slug router.profiles r.requested_agent_slug)
