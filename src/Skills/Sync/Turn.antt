-- ===== src/Skills/Sync/Turn.antt =====
-- The turns of the synchronisation with a directory.
use agent_sam.Prelude.{
  false, Option, none, some, List, ◌≡◌, refl, sym, ap, ◌∙◌, inl, inr, ◌==◌, nat_eq, string_eq,
  option_eq, ok, >>=-eq-ok, guarded-ok, ok-injective, Bool-cases,
}
use agent_sam.Skills.Definition.{SkillDefinition}
use agent_sam.Skills.Catalog.{
  Skill, SkillHost, is_outdated, get_latest_skill, get_skill_by_name_version, hash_existing_skill,
  publish_skill_definition,
}
use agent_sam.Skills.Proposals.{create_skill_proposal_record}
use agent_sam.Skills.Store.{SkillProposal, SkillStore, get_pending_proposal}
use agent_sam.Skills.Sync.{
  SyncRequest, SkillSyncResult, proposal_request, sync_new, sync_pending, sync_found, sync_skill,
}

module _ (h : SkillHost) where
  -- What a turn of the synchronisation does to the store.
  pub data IsTurn (r : SyncRequest) (d : SkillDefinition) (s s' : SkillStore) : Type 0 where
    unchanged : s' ≡ s → IsTurn r d s s'
    created :
        (skills : List Skill) (skill : Skill)
        → get_latest_skill r.workspace_id d.name s.skills ≡ none
        → publish_skill_definition h
            (r.skill_id d)
            r.now
            r.workspace_id
            d
            r.requested_by_user_id
            s.skills
          ≡ ok (skill, skills)
        → s' ≡ record s { skills = skills }
        → IsTurn r d s s'
    proposed :
        (p : SkillProposal) (latest : Skill)
        → get_latest_skill r.workspace_id d.name s.skills ≡ some latest
        → is_outdated d.version (some latest) ≡ false
        → create_skill_proposal_record h (proposal_request r d) d s ≡ ok (p, s')
        → IsTurn r d s s'

  sync_pending-IsTurn :
      (r : SyncRequest) (d : SkillDefinition) (s s' : SkillStore) (result result' : SkillSyncResult)
      (latest : Skill) (o : Option SkillProposal)
      → get_latest_skill r.workspace_id d.name s.skills ≡ some latest
      → is_outdated d.version (some latest) ≡ false
      → sync_pending h r d (s, result) o ≡ ok (s', result')
      → IsTurn r d s s'
  sync_pending-IsTurn r d s s' result result' latest (some q) is fresh e =
      unchanged (ap (λ x. x.0) (sym (ok-injective _ _ e)))
  sync_pending-IsTurn r d s s' result result' latest none is fresh e =
      let ((p, after), made, e1) =
        >>=-eq-ok (create_skill_proposal_record h (proposal_request r d) d s) _ e in
      proposed p latest is fresh (made ∙ ap (λ x. ok (p, x)) (ap (λ x. x.0) (ok-injective _ _ e1)))

  sync_new-IsTurn :
      (r : SyncRequest) (d : SkillDefinition) (s s' : SkillStore) (result result' : SkillSyncResult)
      (o : Option Skill)
      → get_latest_skill r.workspace_id d.name s.skills ≡ o
      → sync_new h r d (s, result) o ≡ ok (s', result')
      → IsTurn r d s s'
  sync_new-IsTurn r d s s' result result' none is e =
      let ((skill, skills), made, e1) =
        >>=-eq-ok
          (publish_skill_definition h (r.skill_id d) r.now r.workspace_id d r.requested_by_user_id
            s.skills)
          _ e in
      created skills skill is made (ap (λ x. x.0) (sym (ok-injective _ _ e1)))
  sync_new-IsTurn r d s s' result result' (some latest) is e =
      elim (Bool-cases (is_outdated d.version (some latest))) [
        | inl f ↦ let bad = rw f at e in cc
        | inr f ↦
            sync_pending-IsTurn r d s s' result result' latest
              (get_pending_proposal r.workspace_id d (h.content_hash d) s) is f (rw f at e)
      ]

  sync_found-IsTurn :
      (r : SyncRequest) (d : SkillDefinition) (s s' : SkillStore) (result result' : SkillSyncResult)
      (o : Option Skill)
      → sync_found h r d (s, result) o ≡ ok (s', result')
      → IsTurn r d s s'
  sync_found-IsTurn r d s s' result result' none e =
      sync_new-IsTurn r d s s' result result' (get_latest_skill r.workspace_id d.name s.skills) refl
        e
  sync_found-IsTurn r d s s' result result' (some skill) e =
      let (hash, _, e1) = >>=-eq-ok (hash_existing_skill h skill) _ e in
      let (_, done) = guarded-ok (hash == h.content_hash d) _ _ e1 in
      unchanged (ap (λ x. x.0) (sym (ok-injective _ _ done)))

  pub sync_skill-IsTurn :
      (r : SyncRequest) (d : SkillDefinition) (s s' : SkillStore) (result result' : SkillSyncResult)
      → sync_skill h r d (s, result) ≡ ok (s', result')
      → IsTurn r d s s'
  unfolding sync_skill
  sync_skill-IsTurn r d s s' result result' e =
      sync_found-IsTurn r d s s' result result'
        (get_skill_by_name_version r.workspace_id d.name d.version s.skills) e
