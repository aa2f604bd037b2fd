-- ===== src/Skills/Proposals.antt =====
-- db/skill_service.py and services/agent_learning_service.py: proposals of skills, their review and
-- activation. New keys and the clock are arguments. A call that raises commits nothing.
pub mod Lifecycle
pub mod New
pub mod Inversion
use agent_sam.Prelude.{
  ℕ, String, ◌<>◌, Bool, true, false, not, ◌&&◌, Option, none, some, List, [], ◌∷◌, find, select,
  update, head?, any, contains, if◌then◌else◌, ◌==◌, nat_eq, string_eq, option_eq, Exception,
  Outcome, ok, raise, value_error, integrity_error, require, ◌>>=◌, ◌>>◌,
}
use agent_sam.Skills.Definition.{SkillDefinition}
use agent_sam.Skills.Catalog.{
  Skill, SkillHost, is_outdated, get_latest_skill, get_skill_by_name_version, hash_existing_skill,
  publish_skill_definition,
}
use agent_sam.Skills.Store.{
  SkillProposal, SkillApproval, SkillStore, has_key, existing, get_proposal, same_content,
  get_pending_proposal, get_latest_approval, id_of, change_of, approval_reason, Request, Review,
  reviewed, write_proposal, decide, skill_approval_row, pending_approval, approve_latest,
}

module _ (h : SkillHost) where
  unfoldable pub proposal_row : Request → SkillDefinition → Option Skill → SkillProposal
  proposal_row r d latest = record {
    id = r.proposal_id;
    workspace_id = r.workspace_id;
    base_skill_id = id_of latest;
    applied_skill_id = none;
    requested_by_user_id = r.requested_by_user_id;
    reviewed_by_user_id = none;
    reviewed_at = none;
    agent_slug = none;
    definition = d;
    content_hash = h.content_hash d;
    change_type = change_of latest;
    status = "pending";
    reason = r.reason;
    evidence_text = none;
  }

  -- The flush fails if a proposal with the same content is stored, whatever its status.
  unfoldable pub create_skill_proposal_record :
      Request → SkillDefinition → SkillStore → Outcome (SkillProposal × SkillStore)
  unfolding proposal_row
  create_skill_proposal_record r d s =
      let p = proposal_row r d (get_latest_skill r.workspace_id d.name s.skills) in
      if any (same_content r.workspace_id d (h.content_hash d)) s.proposals
      then raise (integrity_error "uq_skill_proposals_workspace_name_version_hash")
      else ok (
        p,
        record s { proposals = p ∷ s.proposals; approvals = skill_approval_row r ∷ s.approvals },
      )

  abbrev pub refuse_published : SkillDefinition → Option Skill → Outcome (Unit {0})
  refuse_published d none = ok tt
  refuse_published d (some skill) = hash_existing_skill h skill >>= λ hash.
      if hash == h.content_hash d
      then raise (value_error "Skill is already published.")
      else raise (value_error "Skill already exists with different content.")

  abbrev pub propose_unless_pending :
      Request
      → SkillDefinition
      → SkillStore
      → Option SkillProposal
      → Outcome (SkillProposal × SkillStore)
  propose_unless_pending r d s (some pending) = ok (pending, s)
  propose_unless_pending r d s none =
      require (not (is_outdated d.version (get_latest_skill r.workspace_id d.name s.skills)))
        (value_error "Skill must use a greater version.")
      >> create_skill_proposal_record r d s

  unfoldable pub create_skill_proposal :
      Request → String → Option String → SkillStore → Outcome (SkillProposal × SkillStore)
  unfolding hash_existing_skill get_latest_skill get_skill_by_name_version get_pending_proposal
      create_skill_proposal_record
  create_skill_proposal r yaml_definition source_path s = do
    d ← h.parse yaml_definition source_path
    refuse_published d (get_skill_by_name_version r.workspace_id d.name d.version s.skills)
    propose_unless_pending r d s (get_pending_proposal r.workspace_id d (h.content_hash d) s)

  -- `propose_skill_update`, by an agent: a definition is proposed whatever is published.
  unfoldable pub propose_skill_update :
      Request → String → String → String → SkillStore → Outcome (SkillProposal × SkillStore)
  unfolding create_skill_proposal_record
  propose_skill_update r agent_slug yaml_definition evidence s = do
    d ← h.parse yaml_definition none
    (p, after) ← create_skill_proposal_record r d s
    let set = λ (q : SkillProposal). record q {
      agent_slug = some agent_slug;
      evidence_text = some evidence;
      status = "pending";
    }
    ok (set p, write_proposal p.id set after)

  -- Publishes the definition of a proposal and writes the proposal's new status.
  abbrev pub apply_proposal :
      Review → String → SkillProposal → SkillStore → Outcome (Skill × SkillStore)
  apply_proposal r status p s = do
    d ← h.parse p.definition.yaml_definition p.definition.source_path
    (skill, skills) ←
        publish_skill_definition h r.skill_id r.now p.workspace_id d (some r.reviewed_by_user_id)
          s.skills
    ok (
      skill,
      write_proposal p.id (reviewed r status (some skill.id)) (record s { skills = skills }),
    )

  abbrev pub review_pending :
      Review
      → Bool
      → SkillProposal
      → SkillApproval
      → SkillStore
      → Outcome (Option Skill × SkillStore)
  review_pending r true p a s = apply_proposal r "applied" p s >>= λ (skill, after).
      ok (some skill, decide a.id r "approved" after)
  review_pending r false p a s = ok (
    none,
    decide a.id r "rejected" (write_proposal p.id (reviewed r "rejected" p.applied_skill_id) s),
  )

  unfoldable pub review_skill_proposal :
      Review → Bool → SkillStore → Outcome (Option Skill × SkillStore)
  unfolding publish_skill_definition
  review_skill_proposal r approve s = do
    p ← get_proposal r.proposal_id s
    require (p.status == "pending") (value_error "Skill proposal is already reviewed.")
    a ← pending_approval (get_latest_approval p.id s)
    review_pending r approve p a s

  unfoldable pub approve_skill_proposal : Review → SkillStore → Outcome (SkillProposal × SkillStore)
  approve_skill_proposal r s = do
    p ← get_proposal r.proposal_id s
    require (p.status == "pending") (value_error "Skill proposal is already reviewed.")
    let write = reviewed r "approved" p.applied_skill_id
    ok (
      write p,
      write_proposal p.id write (approve_latest r (get_latest_approval r.proposal_id s) s),
    )

  unfoldable pub activate_skill_proposal : Review → SkillStore → Outcome (Skill × SkillStore)
  unfolding publish_skill_definition
  activate_skill_proposal r s = do
    p ← get_proposal r.proposal_id s
    require (contains ("approved" ∷ "applied" ∷ []) p.status)
        (value_error "Skill proposal must be approved before activation.")
    apply_proposal r "activated" p s
