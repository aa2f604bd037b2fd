-- ===== src/Skills/Reach.antt =====
-- The stores that the calls of the skill service and the learning service reach.
pub mod Moves
pub mod Synced
pub mod Approved
use agent_sam.Prelude.{
  ℕ, String, Bool, true, false, Option, none, some, List, [], ◌∷◌, find, ◌≡◌, ◌≢◌, refl, sym, subst,
  ap, ◌∙◌, inl, inr, ◌⊎◌, In, if◌then◌else◌, ◌==◌, nat_eq, string_eq, option_eq, Exception, Outcome,
  ok, raise, ◌>>=◌, >>=-eq-ok, guarded-ok, ok-injective, Bool-cases, Option-cases, order_by, arith,
}
use agent_sam.Skills.Definition.{SkillDefinition}
use agent_sam.Skills.Catalog.{
  Skill, SkillHost, is_outdated, get_latest_skill, get_skill_by_name_version, hash_existing_skill,
  publish_skill_definition,
}
use agent_sam.Skills.Catalog.History.{IsHistory, publish_skill_definition-IsHistory}
use agent_sam.Skills.Catalog.Active.{IsCurrent, publish_skill_definition-IsCurrent}
use agent_sam.Skills.Proposals.{
  create_skill_proposal_record, proposal_row, create_skill_proposal, propose_skill_update,
  review_skill_proposal, approve_skill_proposal, activate_skill_proposal,
}
use agent_sam.Skills.Store.{
  SkillProposal, SkillStore, Request, Review, has_key, get_pending_proposal, get_latest_approval,
  reviewed, write_proposal, approve_latest,
}
use agent_sam.Skills.Proposals.Inversion.{
  IsApplied, review_skill_proposal-cases, approve_skill_proposal-cases,
  activate_skill_proposal-IsApplied,
}
use agent_sam.Skills.Proposals.New.{
  IsProposed, create_skill_proposal_record-IsProposed, create_skill_proposal-cases,
  propose_skill_update-IsProposed,
}
use agent_sam.Skills.Proposals.Lifecycle.{
  IsKept, IsMove, IsProposed-IsKept, review_skill_proposal-IsKept, approve_skill_proposal-IsKept,
  activate_skill_proposal-IsKept, approve_latest-skills,
}
use agent_sam.Skills.Sync.Turn.{IsTurn, unchanged, created, proposed, sync_skill-IsTurn}
use agent_sam.Skills.Sync.{
  SyncRequest, SkillSyncResult, SkillFile, add_created, add_proposed, add_unchanged,
  proposal_request, sync_new, sync_pending, sync_found, sync_skill, sync_each,
  load_skill_definitions, sync_skills_from_directory,
}

module _ (h : SkillHost) where
  -- One skill table becomes another by calls that publish.
  pub data IsPublished : List Skill → List Skill → Type 0 where
    same : (skills : List Skill) → IsPublished skills skills
    published :
        (id now workspace_id : ℕ) (d : SkillDefinition) (approved_by : Option ℕ)
        (before between after : List Skill) (s : Skill)
        → publish_skill_definition h id now workspace_id d approved_by before ≡ ok (s, between)
        → IsPublished between after
        → IsPublished before after

  IsPublished-one :
      (id now workspace_id : ℕ) (d : SkillDefinition) (approved_by : Option ℕ)
      (before after : List Skill) (s : Skill)
      → publish_skill_definition h id now workspace_id d approved_by before ≡ ok (s, after)
      → IsPublished before after
  IsPublished-one id now workspace_id d approved_by before after s e =
      published id now workspace_id d approved_by before after after s e (same after)

  IsPublished-trans : (a b c : List Skill) → IsPublished a b → IsPublished b c → IsPublished a c
  IsPublished-trans _ _ c (same skills) q = q
  IsPublished-trans _ _ c (published id now w d by a between b s e p) q =
      published id now w d by a between c s e (IsPublished-trans between b c p q)

  IsPublished-eq : (a b : List Skill) → b ≡ a → IsPublished a b
  IsPublished-eq a b e = subst (IsPublished a) (sym e) (same a)

  pub IsPublished-IsCurrent :
      (a b : List Skill) → IsPublished a b → IsHistory a × IsCurrent a → IsHistory b × IsCurrent b
  IsPublished-IsCurrent _ _ (same skills) good = good
  IsPublished-IsCurrent _ b (published id now w d by a between _ s e p) (history, current) =
      IsPublished-IsCurrent between b p (
        publish_skill_definition-IsHistory h id now w d by a between s e history,
        publish_skill_definition-IsCurrent h id now w d by a between s e history current,
      )

  -- A turn publishes or proposes.
  IsTurn-IsPublished :
      (r : SyncRequest) (d : SkillDefinition) (s s' : SkillStore)
      → IsTurn h r d s s'
      → IsPublished s.skills s'.skills
  IsTurn-IsPublished r d s s' (unchanged e) =
      IsPublished-eq s.skills s'.skills (ap (λ x. x.skills) e)
  IsTurn-IsPublished r d s s' (created skills skill is made e) =
      subst (λ x. IsPublished s.skills x.skills) (sym e)
        (IsPublished-one (r.skill_id d) r.now r.workspace_id d r.requested_by_user_id s.skills
          skills skill made)
  IsTurn-IsPublished r d s s' (proposed p latest is fresh made) =
      let (new, _, _) =
        create_skill_proposal_record-IsProposed h (proposal_request r d) d s s' p made in
      IsPublished-eq s.skills s'.skills (ap (λ x. x.skills) new.stored)

  sync_each-IsPublished :
      (r : SyncRequest) (ds : List SkillDefinition) (s s' : SkillStore)
      (result result' : SkillSyncResult)
      → sync_each h r ds (s, result) ≡ ok (s', result')
      → IsPublished s.skills s'.skills
  unfolding sync_each
  sync_each-IsPublished r [] s s' result result' e =
      IsPublished-eq s.skills s'.skills (ap (λ x. x.0.skills) (sym (ok-injective _ _ e)))
  sync_each-IsPublished r (d ∷ ds) s s' result result' e =
      let ((after, so_far), turn, rest) = >>=-eq-ok (sync_skill h r d (s, result)) _ e in
      IsPublished-trans s.skills after.skills s'.skills
        (IsTurn-IsPublished r d s after (sync_skill-IsTurn h r d s after result so_far turn))
        (sync_each-IsPublished r ds after s' so_far result' rest)

  -- A call of one of the two services that succeeds. The key of a new proposal is new.
  pub data IsStep (s s' : SkillStore) : Type 0 where
    proposed_skill :
        (r : Request) (yaml_definition : String) (source_path : Option String) (p : SkillProposal)
        → find (has_key r.proposal_id) s.proposals ≡ none
        → create_skill_proposal h r yaml_definition source_path s ≡ ok (p, s')
        → IsStep s s'
    proposed_update :
        (r : Request) (agent_slug yaml_definition evidence : String) (p : SkillProposal)
        → find (has_key r.proposal_id) s.proposals ≡ none
        → propose_skill_update h r agent_slug yaml_definition evidence s ≡ ok (p, s')
        → IsStep s s'
    reviewed_proposal :
        (r : Review) (approve : Bool) (result : Option Skill)
        → review_skill_proposal h r approve s ≡ ok (result, s')
        → IsStep s s'
    approved_proposal :
        (r : Review) (p : SkillProposal) → approve_skill_proposal h r s ≡ ok (p, s') → IsStep s s'
    activated_proposal :
        (r : Review) (skill : Skill) → activate_skill_proposal h r s ≡ ok (skill, s') → IsStep s s'
    synchronised :
        (r : SyncRequest) (files : Option (List SkillFile)) (result : SkillSyncResult)
        → ((d : SkillDefinition) → find (has_key (r.proposal_id d)) s.proposals ≡ none)
        → sync_skills_from_directory h r files s ≡ ok (s', result)
        → IsStep s s'

  IsApplied-IsPublished :
      (r : Review) (status : String) (p : SkillProposal) (s s' : SkillStore) (skill : Skill)
      → IsApplied h r status p s s' skill
      → IsPublished s.skills s'.skills
  IsApplied-IsPublished r status p s s' skill a =
      subst (λ x. IsPublished s.skills x.skills) (sym a.stored)
        (IsPublished-one r.skill_id r.now p.workspace_id a.definition (some r.reviewed_by_user_id)
          s.skills a.skills skill a.published)

  pub IsStep-IsPublished : (s s' : SkillStore) → IsStep s s' → IsPublished s.skills s'.skills
  unfolding sync_skills_from_directory
  IsStep-IsPublished s s' (proposed_skill r yaml path p fresh e) =
      elim (create_skill_proposal-cases h r yaml path s s' p e) [
        | inl kept ↦ IsPublished-eq s.skills s'.skills (ap (λ x. x.skills) kept)
        | inr (new, _) ↦ IsPublished-eq s.skills s'.skills (ap (λ x. x.skills) new.stored)
      ]
  IsStep-IsPublished s s' (proposed_update r slug yaml evidence p fresh e) =
      let (q, after, new, _, _, stored) =
        propose_skill_update-IsProposed h r slug yaml evidence s s' p e in
      IsPublished-eq s.skills s'.skills (ap (λ x. x.skills) stored ∙ ap (λ x. x.skills) new.stored)
  IsStep-IsPublished s s' (reviewed_proposal r approve result e) =
      let (p, a, _, _, cases) = review_skill_proposal-cases h r approve s s' result e in
      elim cases [
        | inl (_, skill, after, applied, _, stored) ↦
            subst (λ x. IsPublished s.skills x.skills) (sym stored)
              (IsApplied-IsPublished r "applied" p s after skill applied)
        | inr (_, _, stored) ↦ IsPublished-eq s.skills s'.skills (ap (λ x. x.skills) stored)
      ]
  IsStep-IsPublished s s' (approved_proposal r p e) =
      let (q, _, _, _, stored) = approve_skill_proposal-cases h r s s' p e in
      IsPublished-eq s.skills s'.skills (
        ap (λ x. x.skills) stored ∙ approve_latest-skills r (get_latest_approval r.proposal_id s) s)
  IsStep-IsPublished s s' (activated_proposal r skill e) =
      let (p, _, _, applied) = activate_skill_proposal-IsApplied h r s s' skill e in
      IsApplied-IsPublished r "activated" p s s' skill applied
  IsStep-IsPublished s s' (synchronised r files result fresh e) =
      let (ds, _, e1) = >>=-eq-ok (load_skill_definitions h files) _ e in
      sync_each-IsPublished r ds s s' _ result e1

  -- The stores that calls reach from one without rows.
  pub data IsReachable : SkillStore → Type 0 where
    empty : IsReachable (record { skills = []; proposals = []; approvals = [] })
    step : (s s' : SkillStore) → IsReachable s → IsStep s s' → IsReachable s'

  -- In every store that calls of the two services reach, the versions of each skill rise with the
  -- order of their publication, only the last of them can be active, and the query for the latest
  -- version of a skill finds its active version.
  pub IsReachable-IsCurrent :
      (s : SkillStore) → IsReachable s → IsHistory s.skills × IsCurrent s.skills
  unfolding get_latest_skill order_by
  IsReachable-IsCurrent _ empty = (tt, λ w n. refl)
  IsReachable-IsCurrent _ (step s s' before call) =
      IsPublished-IsCurrent s.skills s'.skills (IsStep-IsPublished s s' call)
        (IsReachable-IsCurrent s before)
