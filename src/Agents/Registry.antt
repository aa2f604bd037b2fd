-- ===== src/Agents/Registry.antt =====
-- agents/registry.py: the registry of profiles. A profile's file is read elsewhere; profiles with
-- the same slug replace each other. The existence of prompt files is an argument.
pub mod Valid
use agent_sam.Prelude.{
  ℕ, zero, suc, ◌+◌, ◌*◌, String, ◌<>◌, Bool, true, false, not, ◌&&◌, ◌||◌, Option, none, some,
  List, [], ◌∷◌, ◌++◌, map, find, select, any, all, contains, order_by, if◌then◌else◌, ◌==◌, nat_eq,
  string_eq, ltb, text_leb, lower, is_in, spaced, join, Exception, Outcome, ok, raise, value_error,
  key_error, require, ◌>>=◌, ◌>>◌,
}
use agent_sam.Agents.Profile.{AgentProfile}
use agent_sam.Agents.Keywords.{keywords_for_profile}

abbrev pub known_tools : List String
known_tools =
    "brand_context_search" ∷ "citation_collector" ∷ "file_read" ∷ "file_write" ∷ "grep"
    ∷ "image_prompt_builder" ∷ "memory_save" ∷ "memory_search" ∷ "pytest" ∷ "safe_shell"
    ∷ "service_control" ∷ "skill_search" ∷ "sql_readonly" ∷ "test_result_reader" ∷ "web_open"
    ∷ "web_search" ∷ []

abbrev pub known_memory_types : List String
known_memory_types = "decision" ∷ "project_fact" ∷ "skill_note" ∷ "task_summary" ∷ "warning" ∷ []

abbrev pub risk_levels : List String
risk_levels = "low" ∷ "medium" ∷ "high" ∷ []

abbrev pub dangerous_tools : List String
dangerous_tools = "safe_shell" ∷ "service_control" ∷ "sql_write" ∷ "sql_delete" ∷ []

-- A dictionary from slugs to profiles, in the order of insertion.
abbrev pub has_slug : String → AgentProfile → Bool
has_slug slug p = p.slug == slug

-- `profiles[profile.slug] = profile`
unfoldable pub put_profile : AgentProfile → List AgentProfile → List AgentProfile
put_profile p [] = p ∷ []
put_profile p (q ∷ rest) =
    let later = put_profile p rest in if q.slug == p.slug then p ∷ rest else q ∷ later

unfoldable pub put_profiles : List AgentProfile → List AgentProfile → List AgentProfile
unfolding put_profile
put_profiles profiles [] = profiles
put_profiles profiles (p ∷ ps) = put_profiles (put_profile p profiles) ps

module _ (exists : String → Bool) where
  -- The checks of one profile, in the order of the code.
  unfoldable pub validate_profile : List String → AgentProfile → Outcome (Unit {0})
  validate_profile seen_slugs p =
      require (not (contains seen_slugs p.slug)) (value_error "Duplicate agent slug")
      >> require (not (p.default_model == "" || p.escalation_model == ""))
          (value_error "Agent is missing model configuration")
      >> require (ltb 0 p.max_cost_per_task)
          (value_error "Agent must have a positive max_cost_per_task_usd")
      >> require (ltb 0 p.max_tokens_per_run)
          (value_error "Agent must have a positive max_tokens_per_run")
      >> require (exists p.system_prompt_path) (value_error "Agent prompt file is missing")
      >> require (all (contains known_tools) p.tools_allowed)
          (value_error "Agent has unknown tools")
      >> require (contains risk_levels p.risk_level) (value_error "Agent has invalid risk level")
      >> require (not (any (contains dangerous_tools) p.tools_allowed && p.risk_level == "low"))
          (value_error "Agent cannot use dangerous tools with low risk_level")
      >> require (all (contains known_memory_types) p.memory_types_allowed)
          (value_error "Agent has unknown memory types")

  unfoldable pub validate_from : List String → List AgentProfile → Outcome (List AgentProfile)
  unfolding validate_profile
  validate_from seen_slugs [] = ok []
  validate_from seen_slugs (p ∷ ps) =
      validate_profile seen_slugs p
      >> (validate_from (p.slug ∷ seen_slugs) ps >>= λ validated. ok (p ∷ validated))

  unfoldable pub validate_agent_profiles : List AgentProfile → Outcome (List AgentProfile)
  unfolding validate_from
  validate_agent_profiles profiles = validate_from [] profiles

  -- From the profiles that were read from the configured files and from the generated ones.
  unfoldable pub load_agent_profiles :
      List AgentProfile → List AgentProfile → Outcome (List AgentProfile)
  unfolding put_profiles validate_agent_profiles
  load_agent_profiles configured generated =
      let profiles = put_profiles [] (configured ++ generated) in
      validate_agent_profiles profiles >> ok profiles

unfoldable pub get_agent_profile : String → List AgentProfile → Outcome AgentProfile
get_agent_profile slug profiles = elim (find (has_slug slug) profiles) [
  | none ↦ raise (key_error "Unknown agent profile")
  | some p ↦ ok p
]

-- `sorted(..., key=lambda profile: profile.slug)`
unfoldable pub list_agents : List AgentProfile → List AgentProfile
list_agents = order_by (λ p q. text_leb p.slug q.slug)

-- What a task says. The metadata are its keys with the texts of their values.
pub record TaskPayload : Type 0 where
  pub title : String
  pub description : String
  pub task_type : String
  pub metadata : List (String × String)

unfoldable pub task_text : TaskPayload → String
task_text t = lower (
    join " " (
      t.title
      ∷ t.description
      ∷ t.task_type
      ∷ join " " (map (λ entry. entry.0 <> (":" <> entry.1)) t.metadata)
      ∷ []))

abbrev pub add_if : Bool → ℕ → ℕ
add_if b n = if b then n else 0

abbrev pub type_score : String → List String → ℕ
type_score haystack [] = 0
type_score haystack (t ∷ ts) = add_if (is_in (spaced t) haystack) 3 + type_score haystack ts

abbrev pub keyword_score : String → List String → ℕ
keyword_score haystack [] = 0
keyword_score haystack (k ∷ ks) = add_if (is_in k haystack) 2 + keyword_score haystack ks

unfoldable pub profile_score : String → AgentProfile → ℕ
profile_score haystack p =
    type_score haystack p.task_types
    + keyword_score haystack (keywords_for_profile p.slug)
    + add_if (is_in p.slug haystack) 5

-- `scored.sort(key=lambda item: (-item[0], item[1].slug))`
abbrev pub fits_before : String → AgentProfile → AgentProfile → Bool
fits_before haystack p q =
    ltb (profile_score haystack q) (profile_score haystack p)
    || (profile_score haystack p == profile_score haystack q && text_leb p.slug q.slug)

-- `profiles or _cached_profiles()`
abbrev pub available : List AgentProfile → List AgentProfile → List AgentProfile
available cached [] = cached
available cached (p ∷ ps) = p ∷ ps

unfoldable pub find_agents_for_task :
    List AgentProfile → TaskPayload → List AgentProfile → List AgentProfile
unfolding profile_score
find_agents_for_task cached task profiles =
    let haystack = task_text task in
    order_by (fits_before haystack)
      (select (λ p. ltb 0 (profile_score haystack p)) (available cached profiles))
