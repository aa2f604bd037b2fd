-- ===== src/Skills/Reach/Synced.antt =====
-- What a synchronisation leaves active.
use agent_sam.Prelude.{
  ℕ, String, true, Option, none, some, List, [], ◌∷◌, find, ◌≡◌, ◌≢◌, refl, sym, subst, ap, ◌∙◌,
  inl, inr, ◌⊎◌, ◌==◌, nat_eq, string_eq, option_eq, ok, >>=-eq-ok, ok-injective, Bool-cases,
}
use agent_sam.Skills.Definition.{SkillDefinition}
use agent_sam.Skills.Catalog.{Skill, SkillHost, is_skill, skill_row}
use agent_sam.Skills.Catalog.History.{IsHistory, is_skill-eq}
use agent_sam.Skills.Catalog.Active.{active_skill, IsCurrent, publish_skill_definition-assign}
use agent_sam.Skills.Store.{SkillProposal, SkillStore, Review, has_key, decide}
use agent_sam.Skills.Proposals.New.{create_skill_proposal_record-IsProposed}
use agent_sam.Skills.Sync.{SyncRequest, SkillSyncResult, proposal_request, sync_skill, sync_each}
use agent_sam.Skills.Sync.Turn.{IsTurn, unchanged, created, proposed, sync_skill-IsTurn}
use agent_sam.Skills.Reach.{IsTurn-IsPublished, IsPublished-IsCurrent}

-- The active version of the skill `n` is now the one that a stored proposal has put there: one that
-- was pending, approved or applied, and that its reviewer has applied or activated.
pub record IsReviewed (s s' : SkillStore) (w : ℕ) (n : String) : Type 0 where
  pub before : SkillProposal
  pub after : SkillProposal
  pub skill : Skill
  pub stored : find (has_key before.id) s.proposals ≡ some before
  pub waiting :
      (before.status ≡ "pending") ⊎ (before.status ≡ "approved") ⊎ (before.status ≡ "applied")
  pub same_workspace : before.workspace_id ≡ w
  pub written : find (has_key before.id) s'.proposals ≡ some after
  pub applied : (after.status ≡ "applied") ⊎ (after.status ≡ "activated")
  pub signed : after.reviewed_by_user_id ≢ none
  pub names : after.applied_skill_id ≡ some skill.id
  pub active : active_skill s'.skills w n ≡ some skill

pub IsReviewed-decide :
    (s s' : SkillStore) (w : ℕ) (n : String) (i : ℕ) (r : Review) (status : String)
    → IsReviewed s s' w n
    → IsReviewed s (decide i r status s') w n
IsReviewed-decide s s' w n i r status x = record {
  before = x.before;
  after = x.after;
  skill = x.skill;
  stored = x.stored;
  waiting = x.waiting;
  same_workspace = x.same_workspace;
  written = x.written;
  applied = x.applied;
  signed = x.signed;
  names = x.names;
  active = x.active;
}

pub same_key : (i : ℕ) → (i == i) ≡ true
same_key i = (nat_eq.beq_iff i i).1 refl

module _ (h : SkillHost) where
  pub skill_row-key :
      (id now workspace_id : ℕ) (d : SkillDefinition) (approved_by : Option ℕ) (skill : Skill)
      (w : ℕ) (n : String)
      → skill ≡ skill_row h id now workspace_id d approved_by
      → is_skill w n skill ≡ true
      → (workspace_id ≡ w) × (d.name ≡ n)
  unfolding skill_row
  skill_row-key id now workspace_id d approved_by skill w n row f =
      let (at_w, named) = is_skill-eq w n skill f in
      (ap (λ x. x.workspace_id) (sym row) ∙ at_w, ap (λ x. x.definition.name) (sym row) ∙ named)

  -- A turn of the synchronisation replaces no active version.
  pub IsTurn-active_skill :
      (r : SyncRequest) (d : SkillDefinition) (s s' : SkillStore) (w : ℕ) (n : String) (old : Skill)
      → IsTurn h r d s s'
      → IsHistory s.skills × IsCurrent s.skills
      → active_skill s.skills w n ≡ some old
      → active_skill s'.skills w n ≡ some old
  IsTurn-active_skill r d s s' w n old (unchanged e) good was =
      subst (λ x. active_skill x.skills w n ≡ some old) (sym e) was
  IsTurn-active_skill r d s s' w n old (proposed q latest is fresh made) good was =
      let (new, _, _) =
        create_skill_proposal_record-IsProposed h (proposal_request r d) d s s' q made in
      subst (λ x. active_skill x.skills w n ≡ some old) (sym new.stored) was
  IsTurn-active_skill r d s s' w n old (created skills skill is made e) (history, current) was =
      subst (λ x. active_skill x.skills w n ≡ some old) (sym e)
        (elim (publish_skill_definition-assign h (r.skill_id d) r.now r.workspace_id d
          r.requested_by_user_id s.skills skills skill made history current) [
            | inl (_, _, same) ↦ subst (λ x. active_skill x w n ≡ some old) (sym same) was
            | inr (row, _, active) ↦ active w n ∙ elim (Bool-cases (is_skill w n skill)) [
              | inl f ↦
                  let (at_w, named) =
                    skill_row-key (r.skill_id d) r.now r.workspace_id d r.requested_by_user_id skill
                      w n row f in
                  let bad : none ≡ some old =
                    sym (current r.workspace_id d.name ∙ is)
                    ∙ subst (λ x. active_skill s.skills x d.name ≡ some old) (sym at_w)
                        (subst (λ x. active_skill s.skills w x ≡ some old) (sym named) was) in
                  cc
              | inr f ↦ rw f was
            ]
          ])

  pub sync_each-active_skill :
      (r : SyncRequest) (ds : List SkillDefinition) (s s' : SkillStore)
      (result result' : SkillSyncResult) (w : ℕ) (n : String) (old : Skill)
      → sync_each h r ds (s, result) ≡ ok (s', result')
      → IsHistory s.skills × IsCurrent s.skills
      → active_skill s.skills w n ≡ some old
      → active_skill s'.skills w n ≡ some old
  unfolding sync_each
  sync_each-active_skill r [] s s' result result' w n old e good was =
      subst (λ x. active_skill x.skills w n ≡ some old) (ap (λ x. x.0) (ok-injective _ _ e)) was
  sync_each-active_skill r (d ∷ ds) s s' result result' w n old e good was =
      let ((after, so_far), turn, rest) = >>=-eq-ok (sync_skill h r d (s, result)) _ e in
      let one = sync_skill-IsTurn h r d s after result so_far turn in
      sync_each-active_skill r ds after s' so_far result' w n old rest
        (IsPublished-IsCurrent h s.skills after.skills (IsTurn-IsPublished h r d s after one) good)
        (IsTurn-active_skill r d s after w n old one good was)
