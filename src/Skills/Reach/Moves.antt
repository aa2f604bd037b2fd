-- ===== src/Skills/Reach/Moves.antt =====
-- The proposals that a call leaves behind.
use agent_sam.Prelude.{
  ℕ, false, none, some, List, [], ◌∷◌, find, find_holds, ◌≡◌, ◌≢◌, refl, sym, subst, ap, ◌∙◌, inl,
  inr, ◌==◌, nat_eq, string_eq, option_eq, ok, >>=-eq-ok, ok-injective, Bool-cases, arith,
}
use agent_sam.Skills.Definition.{SkillDefinition}
use agent_sam.Skills.Catalog.{SkillHost}
use agent_sam.Skills.Proposals.{proposal_row}
use agent_sam.Skills.Store.{SkillProposal, SkillStore, has_key, write_proposal}
use agent_sam.Skills.Proposals.New.{
  IsProposed, create_skill_proposal_record-IsProposed, create_skill_proposal-cases,
  propose_skill_update-IsProposed,
}
use agent_sam.Skills.Proposals.Lifecycle.{
  IsKept, find-update, IsProposed-IsKept, review_skill_proposal-IsKept,
  approve_skill_proposal-IsKept, activate_skill_proposal-IsKept,
}
use agent_sam.Skills.Sync.{
  SyncRequest, SkillSyncResult, proposal_request, sync_skill, sync_each, load_skill_definitions,
  sync_skills_from_directory,
}
use agent_sam.Skills.Sync.Turn.{IsTurn, unchanged, created, proposed, sync_skill-IsTurn}
use agent_sam.Skills.Reach.{
  IsStep, proposed_skill, proposed_update, reviewed_proposal, approved_proposal, activated_proposal,
  synchronised,
}

beq-sym-false : (a b : ℕ) → (a == b) ≡ false → (b == a) ≡ false
beq-sym-false a b h = ground (arith)

module _ (h : SkillHost) where
  -- A turn of the synchronisation leaves a proposal of another key as it is.
  IsTurn-find :
      (r : SyncRequest) (d : SkillDefinition) (s s' : SkillStore) (i : ℕ) (p : SkillProposal)
      → IsTurn h r d s s'
      → r.proposal_id d ≢ i
      → find (has_key i) s.proposals ≡ some p
      → find (has_key i) s'.proposals ≡ some p
  unfolding proposal_row
  IsTurn-find r d s s' i p (unchanged e) other found =
      subst (λ x. find (has_key i) x.proposals ≡ some p) (sym e) found
  IsTurn-find r d s s' i p (created skills skill is made e) other found =
      subst (λ x. find (has_key i) x.proposals ≡ some p) (sym e) found
  IsTurn-find r d s s' i p (proposed q latest is fresh made) other found =
      let (new, same, _) =
        create_skill_proposal_record-IsProposed h (proposal_request r d) d s s' q made in
      let key : q.id ≡ r.proposal_id d = ap (λ x. x.id) new.row ∙ ap (λ x. x.proposal_id) same in
      subst (λ x. find (has_key i) x.proposals ≡ some p) (sym new.stored)
        (elim (Bool-cases (q.id == i)) [
          | inl e ↦ absurd (other (sym key ∙ (nat_eq.beq_iff q.id i).0 e))
          | inr e ↦ rw e found
        ])

  sync_each-find :
      (r : SyncRequest) (ds : List SkillDefinition) (s s' : SkillStore)
      (result result' : SkillSyncResult) (i : ℕ) (p : SkillProposal)
      → sync_each h r ds (s, result) ≡ ok (s', result')
      → ((d : SkillDefinition) → r.proposal_id d ≢ i)
      → find (has_key i) s.proposals ≡ some p
      → find (has_key i) s'.proposals ≡ some p
  unfolding sync_each
  sync_each-find r [] s s' result result' i p e others found =
      subst (λ x. find (has_key i) x.proposals ≡ some p) (ap (λ x. x.0) (ok-injective _ _ e)) found
  sync_each-find r (d ∷ ds) s s' result result' i p e others found =
      let ((after, so_far), turn, rest) = >>=-eq-ok (sync_skill h r d (s, result)) _ e in
      sync_each-find r ds after s' so_far result' i p rest others (
        IsTurn-find r d s after i p (sync_skill-IsTurn h r d s after result so_far turn) (others d)
          found)

  -- The new row of an agent's proposal is written once more; the stored ones are kept.
  propose_again-IsKept :
      (s after : SkillStore) (q : SkillProposal) (f : SkillProposal → SkillProposal)
      (new : IsProposed h s after q)
      → ((x : SkillProposal) → (f x).id ≡ x.id)
      → find (has_key new.request.proposal_id) s.proposals ≡ none
      → IsKept s.proposals (write_proposal q.id f after).proposals
  unfolding proposal_row
  propose_again-IsKept s after q f new same fresh i p found =
      let unwritten : find (has_key q.id) s.proposals ≡ none =
        subst (λ x. find (has_key x.id) s.proposals ≡ none) (sym new.row) fresh in
      let key : p.id ≡ i = (nat_eq.beq_iff p.id i).0 (find_holds (has_key i) s.proposals p found) in
      elim (Bool-cases (q.id == p.id)) [
        | inl e ↦
            let same_key : q.id ≡ i = (nat_eq.beq_iff q.id p.id).0 e ∙ key in
            let bad : none ≡ some p =
              sym unwritten
              ∙ subst (λ j. find (has_key j) s.proposals ≡ some p) (sym same_key) found in
            cc
        | inr e ↦
            let other : (q.id == i) ≡ false = subst (λ j. (q.id == j) ≡ false) key e in
            let kept : (p.id == q.id) ≡ false = beq-sym-false q.id p.id e in
            let there : find (has_key i) after.proposals ≡ some p =
              subst (λ x. find (has_key i) x.proposals ≡ some p) (sym new.stored)
                (rw other found) in
            (p, rw kept at (find-update i q.id f after.proposals p same there), inl refl)
      ]

  -- The life of a proposal. After any call of the two services that succeeds, a stored proposal is
  -- as it was, or a user's call has moved it along an edge of `review_edges`, from pending to
  -- rejected, applied or approved, or from approved or applied to activated, with the reviewer and
  -- the time written and the proposed definition as it was.
  pub IsStep-IsKept : (s s' : SkillStore) → IsStep h s s' → IsKept s.proposals s'.proposals
  unfolding sync_skills_from_directory
  IsStep-IsKept s s' (proposed_skill r yaml path p fresh e) =
      elim (create_skill_proposal-cases h r yaml path s s' p e) [
        | inl kept ↦
            subst (λ x. IsKept s.proposals x.proposals) (sym kept)
              (λ i q found. (q, found, inl refl))
        | inr (new, same) ↦
            IsProposed-IsKept h s s' p new
              (subst (λ x. find (has_key x.proposal_id) s.proposals ≡ none) (sym same) fresh)
      ]
  IsStep-IsKept s s' (proposed_update r slug yaml evidence p fresh e) =
      let (q, after, new, same, _, stored) =
        propose_skill_update-IsProposed h r slug yaml evidence s s' p e in
      subst (λ x. IsKept s.proposals x.proposals) (sym stored)
        (propose_again-IsKept s after q _ new (λ x. refl)
          (subst (λ x. find (has_key x.proposal_id) s.proposals ≡ none) (sym same) fresh))
  IsStep-IsKept s s' (reviewed_proposal r approve result e) =
      review_skill_proposal-IsKept h r approve s s' result e
  IsStep-IsKept s s' (approved_proposal r p e) = approve_skill_proposal-IsKept h r s s' p e
  IsStep-IsKept s s' (activated_proposal r skill e) =
      activate_skill_proposal-IsKept h r s s' skill e
  IsStep-IsKept s s' (synchronised r files result fresh e) =
      let (ds, _, e1) = >>=-eq-ok (load_skill_definitions h files) _ e in
      λ i p found. (
        p,
        sync_each-find r ds s s' _ result i p e1
            (λ d key.
              let bad : none ≡ some p =
                sym (fresh d)
                ∙ subst (λ j. find (has_key j) s.proposals ≡ some p) (sym key) found in
              cc)
            found,
        inl refl,
      )
