-- ===== src/SubAgents.antt =====
-- services/agent_learning_service.py and services/sub_agent_factory.py: proposals of sub-agents and
-- the agents that are made from them. The reader of YAML, the texts and integers of its values, new
-- keys and the clock are arguments. New rows and files come first.
pub mod Steps
pub mod Vetted
mod Tests
use agent_sam.Prelude.{
  ℕ, zero, ℤ, pos, negsuc, String, ◌<>◌, Bool, true, false, not, ◌&&◌, ◌||◌, Option, none, some,
  List, [], ◌∷◌, find, update, any, all, contains, if◌then◌else◌, ◌==◌, nat_eq, string_eq, rstrip,
  Exception, Outcome, ok, raise, value_error, integrity_error, type_error, attribute_error, require,
  ◌>>=◌, ◌>>◌,
}
use agent_sam.Skills.Yaml.{
  Value, null, bool, int, float, text, other, seq, dict, Values, nil, cons, Pairs, end, pair, keys,
  get_key,
}
use agent_sam.Agents.Registry.{known_tools}

abbrev pub admin_only_tools : List String
admin_only_tools = "safe_shell" ∷ "service_control" ∷ "sql_write" ∷ "sql_delete" ∷ []

-- A row of `sub_agent_proposals`; of the metadata, whether dangerous tools are approved.
pub record SubAgentProposal : Type 0 where
  pub id : ℕ
  pub parent_agent_slug : String
  pub proposed_slug : String
  pub proposed_name : String
  pub proposed_profile_yaml : String
  pub reason : String
  pub required_tools : List String
  pub prompt_markdown : String
  pub status : String
  pub requested_by_user_id : Option ℕ
  pub reviewed_by_user_id : Option ℕ
  pub reviewed_at : Option ℕ
  pub dangerous_tools_approved : Bool

-- A row of `agent_profiles`.
pub record AgentProfileRecord : Type 0 where
  pub slug : String
  pub name : String
  pub description : String
  pub profile_yaml : String
  pub version : ℕ
  pub is_active : Bool

-- A file of configs/generated, by the slug that names it, and its prompt file's text.
pub record GeneratedFile : Type 0 where
  pub slug : String
  pub config : String
  pub prompt : String

pub record SubAgentStore : Type 0 where
  pub proposals : List SubAgentProposal
  pub profiles : List AgentProfileRecord
  pub files : List GeneratedFile

pub record SubAgentHost : Type 0 where
  pub safe_load : String → Outcome Value
  pub str_of : Value → String
  pub int_of : Value → Outcome ℕ

-- What `propose_sub_agent` takes.
pub record SubAgentRequest : Type 0 where
  pub parent_agent_slug : String
  pub proposed_slug : String
  pub proposed_name : String
  pub proposed_profile_yaml : String
  pub reason : String
  pub required_tools : List String
  pub prompt_markdown : String
  pub requested_by_user_id : Option ℕ

abbrev pub proposal_of : ℕ → SubAgentRequest → SubAgentProposal
proposal_of id r = record {
  id = id;
  parent_agent_slug = r.parent_agent_slug;
  proposed_slug = r.proposed_slug;
  proposed_name = r.proposed_name;
  proposed_profile_yaml = r.proposed_profile_yaml;
  reason = r.reason;
  required_tools = r.required_tools;
  prompt_markdown = r.prompt_markdown;
  status = "pending";
  requested_by_user_id = r.requested_by_user_id;
  reviewed_by_user_id = none;
  reviewed_at = none;
  dangerous_tools_approved = false;
}

-- The column `proposed_slug` is unique.
unfoldable pub propose_sub_agent :
    ℕ → SubAgentRequest → SubAgentStore → Outcome (SubAgentProposal × SubAgentStore)
propose_sub_agent id r s =
    if any (λ p. p.proposed_slug == r.proposed_slug) s.proposals
    then raise (integrity_error "sub_agent_proposals.proposed_slug")
    else ok (proposal_of id r, record s { proposals = proposal_of id r ∷ s.proposals })

abbrev pub is_proposal : ℕ → SubAgentProposal → Bool
is_proposal id p = p.id == id

abbrev pub found : Option SubAgentProposal → Outcome SubAgentProposal
found none = raise (value_error "Sub-agent proposal does not exist.")
found (some p) = ok p

abbrev pub signed_by : String → ℕ → ℕ → SubAgentProposal → SubAgentProposal
signed_by status user now p = record p {
  status = status;
  reviewed_by_user_id = some user;
  reviewed_at = some now;
}

abbrev pub sign : ℕ → String → ℕ → ℕ → SubAgentStore → SubAgentStore
sign id status user now s = record s {
  proposals = update (is_proposal id) (signed_by status user now) s.proposals;
}

unfoldable pub approve_sub_agent_proposal :
    ℕ → ℕ → ℕ → SubAgentStore → Outcome (SubAgentProposal × SubAgentStore)
approve_sub_agent_proposal id user now s = found (find (is_proposal id) s.proposals) >>= λ p.
    require (p.status == "pending") (value_error "Sub-agent proposal is already reviewed.")
    >> ok (signed_by "approved" user now p, sign id "approved" user now s)

-- `prompt_markdown or f"# {proposed_name}\n"`
abbrev pub prompt_or : String → String → String
prompt_or prompt name = if prompt == "" then "# " <> (name <> "\n") else prompt

-- The items of a text.
abbrev pub characters : String → List String
characters String.[] = []
characters (String.◌∷◌ c s) = String.◌∷◌ c String.[] ∷ characters s

module _ (h : SubAgentHost) where
  abbrev pub shown : Value → String
  shown (text s) = s
  shown v = h.str_of v

  abbrev pub shown_items : Values → List String
  shown_items nil = []
  shown_items (cons v rest) = shown v ∷ shown_items rest

  -- `tuple(str(t) for t in payload.get("tools_allowed", []))`
  abbrev pub tools_in : Option Value → Outcome (List String)
  tools_in none = ok []
  tools_in (some (seq items)) = ok (shown_items items)
  tools_in (some (dict fields)) = ok (keys fields)
  tools_in (some (text s)) = ok (characters s)
  tools_in (some v) = raise (type_error "not iterable")

  -- `yaml.safe_load(...) or {}`, and then `payload.get`. A float is taken to be no zero.
  abbrev pub fields_in : Value → Outcome Pairs
  fields_in (dict fields) = ok fields
  fields_in null = ok end
  fields_in (bool false) = ok end
  fields_in (seq nil) = ok end
  fields_in (int (pos zero)) = ok end
  fields_in (text s) = if s == "" then ok end else raise (attribute_error "get")
  fields_in v = raise (attribute_error "get")

  abbrev pub version_in : Option Value → Outcome ℕ
  version_in none = ok 1
  version_in (some v) = h.int_of v

  abbrev pub description_in : String → Option Value → String
  description_in reason none = reason
  description_in reason (some v) = shown v

  -- The checks before anything is written.
  unfoldable pub checked_fields : SubAgentProposal → Outcome (Pairs × List String)
  checked_fields p = do
    payload ← h.safe_load p.proposed_profile_yaml
    fields ← fields_in payload
    required_tools ← tools_in (get_key "tools_allowed" fields)
    require (all (contains known_tools) required_tools)
        (value_error "Sub-agent proposal contains unknown tools")
    require (not (any (contains admin_only_tools) required_tools) || p.dangerous_tools_approved)
        (value_error "Dangerous tools require admin approval before sub-agent creation.")
    ok (fields, required_tools)

  abbrev pub file_of : SubAgentProposal → GeneratedFile
  file_of p = record {
    slug = p.proposed_slug;
    config = rstrip p.proposed_profile_yaml <> "\n";
    prompt = rstrip (prompt_or p.prompt_markdown p.proposed_name) <> "\n";
  }

  -- The row, after the files are written. A slug has a version once.
  unfoldable pub profile_row :
      SubAgentProposal → Pairs → List AgentProfileRecord → Outcome AgentProfileRecord
  profile_row p fields profiles = version_in (get_key "version" fields) >>= λ version.
      if any (λ q. q.slug == p.proposed_slug && q.version == version) profiles
      then raise (integrity_error "uq_agent_profiles_slug_version")
      else ok (record {
        slug = p.proposed_slug;
        name = p.proposed_name;
        description = description_in p.reason (get_key "description" fields);
        profile_yaml = rstrip p.proposed_profile_yaml <> "\n";
        version = version;
        is_active = true;
      })

  -- Files that are written stay, also if the row fails.
  abbrev pub store_profile :
      ℕ
      → ℕ
      → SubAgentProposal
      → SubAgentStore
      → Outcome AgentProfileRecord
      → Outcome AgentProfileRecord × SubAgentStore
  store_profile user now p s (raise e) = (raise e, s)
  store_profile user now p s (ok row) =
      (ok row, sign p.id "created" user now (record s { profiles = row ∷ s.profiles }))

  abbrev pub write_agent :
      ℕ
      → ℕ
      → SubAgentProposal
      → SubAgentStore
      → Outcome (Pairs × List String)
      → Outcome AgentProfileRecord × SubAgentStore
  write_agent user now p s (raise e) = (raise e, s)
  write_agent user now p s (ok (fields, tools)) =
      store_profile user now p (record s { files = file_of p ∷ s.files })
        (profile_row p fields s.profiles)

  abbrev pub create_approved :
      ℕ → ℕ → SubAgentStore → Outcome SubAgentProposal → Outcome AgentProfileRecord × SubAgentStore
  create_approved user now s (raise e) = (raise e, s)
  create_approved user now s (ok p) =
      if p.status == "approved"
      then write_agent user now p s (checked_fields p)
      else (raise (value_error "Sub-agent proposal must be approved before creation."), s)

  unfoldable pub create_agent_from_approved_proposal :
      ℕ → ℕ → ℕ → SubAgentStore → Outcome AgentProfileRecord × SubAgentStore
  unfolding checked_fields profile_row rstrip
  create_agent_from_approved_proposal id user now s =
      create_approved user now s (found (find (is_proposal id) s.proposals))
