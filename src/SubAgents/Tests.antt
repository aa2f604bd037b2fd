-- ===== src/SubAgents/Tests.antt =====
-- Two proposals of sub-agents.
use agent_sam.Prelude.{
  update, pos, String, none, [], ◌∷◌, map, ◌≡◌, refl, Outcome, ok, raise, value_error, ◌==◌, nat_eq,
  string_eq, option_eq, if◌then◌else◌, rstrip,
}
use agent_sam.Skills.Yaml.{Value, int, text, seq, dict, nil, cons, end, pair}
use agent_sam.SubAgents.{
  is_proposal, SubAgentRequest, SubAgentStore, SubAgentHost, propose_sub_agent,
  approve_sub_agent_proposal, checked_fields, profile_row, create_agent_from_approved_proposal,
}
use agent_sam.SubAgents.Steps.{allow_dangerous}

program : Unit {0}
unfolding propose_sub_agent approve_sub_agent_proposal checked_fields profile_row
    create_agent_from_approved_proposal rstrip
program = tt

abbrev profile_with : String → Value
profile_with tool =
    dict (pair "version" (int (pos 1)) (pair "tools_allowed" (seq (cons (text tool) nil)) end))

abbrev host : SubAgentHost
host = record {
  safe_load =
      λ s. if s == "docs" then ok (profile_with "web_search") else ok (profile_with "safe_shell");
  str_of = λ v. "?";
  int_of = λ v. ok 1;
}

abbrev request : String → String → SubAgentRequest
request slug yaml = record {
  parent_agent_slug = "research_agent";
  proposed_slug = slug;
  proposed_name = slug;
  proposed_profile_yaml = yaml;
  reason = "often needed";
  required_tools = [];
  prompt_markdown = "";
  requested_by_user_id = none;
}

abbrev store_of : {A : Type 0} → Outcome (A × SubAgentStore) → SubAgentStore
store_of (ok (a, s)) = s
store_of (raise e) = record { proposals = []; profiles = []; files = [] }

abbrev asked : String → SubAgentStore
asked yaml = store_of (
    propose_sub_agent 1 (request "docs_agent" yaml)
      (record { proposals = []; profiles = []; files = [] }))

abbrev agreed : String → SubAgentStore
agreed yaml = store_of (approve_sub_agent_proposal 1 7 100 (asked yaml))

abbrev made : SubAgentStore
made = (create_agent_from_approved_proposal host 1 7 101 (agreed "docs")).1

written : map (λ f. f.prompt) made.files ≡ "# docs_agent\n" ∷ []
unfolding program
written = refl

unapproved :
    (create_agent_from_approved_proposal host 1 7 101 (asked "docs")).0
    ≡ raise (value_error "Sub-agent proposal must be approved before creation.")
unfolding program
unapproved = refl

-- An approved proposal with a dangerous tool fails without an administrator's approval.
dangerous :
    (create_agent_from_approved_proposal host 1 7 101 (agreed "shell")).0
    ≡ raise (value_error "Dangerous tools require admin approval before sub-agent creation.")
unfolding program
dangerous = refl

-- With the approval the agent is made.
abbrev admitted : SubAgentStore
admitted = record (agreed "shell") {
  proposals = update (is_proposal 1) allow_dangerous (agreed "shell").proposals;
}

dangerous_approved :
    map (λ f. f.slug) (create_agent_from_approved_proposal host 1 7 101 admitted).1.files
    ≡ "docs_agent" ∷ []
unfolding program
dangerous_approved = refl
