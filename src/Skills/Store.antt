-- ===== src/Skills/Store.antt =====
-- db/models.py and db/skill_service.py: the rows of the skill service and the writes of single rows.
use agent_sam.Prelude.{
  ℕ, String, Bool, ◌&&◌, Option, none, some, List, find, update, if◌then◌else◌, ◌==◌, nat_eq,
  string_eq, option_eq, Outcome, ok, raise, value_error,
}
use agent_sam.Skills.Definition.{SkillDefinition}
use agent_sam.Skills.Catalog.{Skill}

-- A row of `skill_proposals`. The columns that hold the content are one definition.
pub record SkillProposal : Type 0 where
  pub id : ℕ
  pub workspace_id : ℕ
  pub base_skill_id : Option ℕ
  pub applied_skill_id : Option ℕ
  pub requested_by_user_id : Option ℕ
  pub reviewed_by_user_id : Option ℕ
  pub reviewed_at : Option ℕ
  pub agent_slug : Option String
  pub definition : SkillDefinition
  pub content_hash : String
  pub change_type : String
  pub status : String
  pub reason : Option String
  pub evidence_text : Option String

-- A row of `approvals` that a proposal waits for.
pub record SkillApproval : Type 0 where
  pub id : ℕ
  pub workspace_id : ℕ
  pub skill_proposal_id : ℕ
  pub requested_by_user_id : Option ℕ
  pub reviewed_by_user_id : Option ℕ
  pub reviewed_at : Option ℕ
  pub status : String
  pub reason : String

-- The tables that the service writes. New rows come first.
pub record SkillStore : Type 0 where
  pub skills : List Skill
  pub proposals : List SkillProposal
  pub approvals : List SkillApproval

abbrev pub has_key : ℕ → SkillProposal → Bool
has_key id p = p.id == id

abbrev pub existing : Option SkillProposal → Outcome SkillProposal
existing none = raise (value_error "Skill proposal does not exist.")
existing (some p) = ok p

-- `session.get(SkillProposal, proposal_id)`
abbrev pub get_proposal : ℕ → SkillStore → Outcome SkillProposal
get_proposal id s = existing (find (has_key id) s.proposals)

-- The columns of the constraint uq_skill_proposals_workspace_name_version_hash.
abbrev pub same_content : ℕ → SkillDefinition → String → SkillProposal → Bool
same_content workspace_id d hash p =
    p.workspace_id == workspace_id
    && (p.definition.name == d.name
        && (p.definition.version == d.version && p.content_hash == hash))

unfoldable pub get_pending_proposal :
    ℕ → SkillDefinition → String → SkillStore → Option SkillProposal
get_pending_proposal workspace_id d hash s =
    find (λ p. same_content workspace_id d hash p && p.status == "pending") s.proposals

-- `ORDER BY created_at DESC LIMIT 1`
abbrev pub get_latest_approval : ℕ → SkillStore → Option SkillApproval
get_latest_approval proposal_id s = find (λ a. a.skill_proposal_id == proposal_id) s.approvals

abbrev pub id_of : Option Skill → Option ℕ
id_of none = none
id_of (some s) = some s.id

abbrev pub change_of : Option Skill → String
change_of none = "create"
change_of (some s) = "update"

-- `reason or f"Review skill proposal {label}."`
abbrev pub approval_reason : Option String → String
approval_reason none = "Review skill proposal."
approval_reason (some reason) = if reason == "" then "Review skill proposal." else reason

-- What a call that proposes takes besides the definition.
pub record Request : Type 0 where
  pub proposal_id : ℕ
  pub approval_id : ℕ
  pub workspace_id : ℕ
  pub requested_by_user_id : Option ℕ
  pub reason : Option String

-- What a reviewer's call writes.
pub record Review : Type 0 where
  pub skill_id : ℕ
  pub now : ℕ
  pub proposal_id : ℕ
  pub reviewed_by_user_id : ℕ

abbrev pub reviewed : Review → String → Option ℕ → SkillProposal → SkillProposal
reviewed r status skill_id p = record p {
  status = status;
  applied_skill_id = skill_id;
  reviewed_by_user_id = some r.reviewed_by_user_id;
  reviewed_at = some r.now;
}

abbrev pub write_proposal : ℕ → (SkillProposal → SkillProposal) → SkillStore → SkillStore
write_proposal id f s = record s { proposals = update (has_key id) f s.proposals }

-- The decision that is written to an approval.
abbrev pub decide : ℕ → Review → String → SkillStore → SkillStore
decide approval_id r status s = record s {
  approvals =
      update (λ a. a.id == approval_id)
        (λ a. record a {
          status = status;
          reviewed_by_user_id = some r.reviewed_by_user_id;
          reviewed_at = some r.now;
        })
        s.approvals;
}

abbrev pub skill_approval_row : Request → SkillApproval
skill_approval_row r = record {
  id = r.approval_id;
  workspace_id = r.workspace_id;
  skill_proposal_id = r.proposal_id;
  requested_by_user_id = r.requested_by_user_id;
  reviewed_by_user_id = none;
  reviewed_at = none;
  status = "pending";
  reason = approval_reason r.reason;
}

abbrev pub pending_approval : Option SkillApproval → Outcome SkillApproval
pending_approval none = raise (value_error "Skill proposal is missing an approval record.")
pending_approval (some a) =
    if a.status == "pending" then ok a else raise (value_error "Approval is already decided.")

abbrev pub approve_latest : Review → Option SkillApproval → SkillStore → SkillStore
approve_latest r none s = s
approve_latest r (some a) s = decide a.id r "approved" s
