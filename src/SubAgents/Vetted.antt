-- ===== src/SubAgents/Vetted.antt =====
-- What is written for sub-agents.
use agent_sam.Prelude.{
  some, none, ◌≢◌, ℕ, String, true, List, find, nat_eq, string_eq, ◌≡◌, In, All, ok, ◌>>=◌,
  option_eq,
}
use agent_sam.Skills.Yaml.{Pairs, get_key}
use agent_sam.Agents.Registry.{known_tools}
use agent_sam.SubAgents.{
  admin_only_tools, SubAgentProposal, GeneratedFile, SubAgentStore, SubAgentHost, is_proposal,
  tools_in, fields_in, file_of,
}
use agent_sam.SubAgents.Steps.{first_store, approved, Reaches}

module _ (h : SubAgentHost) where
  -- The file is that of a proposal that was stored as approved and reviewed by a user before: in a
  -- store on the way to this one. Its profile lists known tools only, and none for administrators
  -- unless an administrator's approval was attached to the proposal by then.
  pub record IsVetted (s : SubAgentStore) (f : GeneratedFile) : Type 0 where
    pub before : SubAgentStore
    pub key : ℕ
    pub proposal : SubAgentProposal
    pub fields : Pairs
    pub tools : List String
    pub reached : Reaches h first_store before
    pub since : Reaches h before s
    pub stored : find (is_proposal key) before.proposals ≡ some proposal
    pub approved : proposal.status ≡ "approved"
    pub reviewed : proposal.reviewed_by_user_id ≢ none
    pub written : f ≡ file_of h proposal
    pub loaded : (h.safe_load proposal.proposed_profile_yaml >>= fields_in h) ≡ ok fields
    pub listed : tools_in h (get_key "tools_allowed" fields) ≡ ok tools
    pub harmless :
        All
          (λ t.
            In t known_tools × (In t admin_only_tools → proposal.dangerous_tools_approved ≡ true))
          tools
