-- ===== src/Skills/Reach/Approved.antt =====
-- The calls that change what is active.
use agent_sam.Prelude.{
  ℕ, String, Option, some, find, find_holds, ◌≡◌, ◌≢◌, refl, sym, subst, ap, ◌∙◌, inl, inr, ◌⊎◌,
  nat_eq, string_eq, option_eq, >>=-eq-ok, Bool-cases,
}
use agent_sam.Skills.Catalog.{Skill, SkillHost, is_skill}
use agent_sam.Skills.Catalog.History.{IsHistory}
use agent_sam.Skills.Catalog.Active.{active_skill, IsCurrent, publish_skill_definition-assign}
use agent_sam.Skills.Store.{
  SkillProposal, SkillStore, Review, has_key, reviewed, get_latest_approval,
}
use agent_sam.Skills.Proposals.Inversion.{
  IsApplied, review_skill_proposal-cases, approve_skill_proposal-cases,
  activate_skill_proposal-IsApplied,
}
use agent_sam.Skills.Proposals.New.{create_skill_proposal-cases, propose_skill_update-IsProposed}
use agent_sam.Skills.Proposals.Lifecycle.{find-update, approve_latest-skills}
use agent_sam.Skills.Sync.{load_skill_definitions, sync_skills_from_directory}
use agent_sam.Skills.Reach.{
  IsStep, proposed_skill, proposed_update, reviewed_proposal, approved_proposal, activated_proposal,
  synchronised,
}
use agent_sam.Skills.Reach.Synced.{
  IsReviewed, IsReviewed-decide, same_key, skill_row-key, sync_each-active_skill,
}

module _ (h : SkillHost) where
  -- Applying a proposal replaces the active version of no skill but the proposal's.
  IsApplied-IsReviewed :
      (r : Review) (j : ℕ) (status : String) (p : SkillProposal) (s s' : SkillStore)
      (skill old : Skill) (w : ℕ) (n : String)
      → IsApplied h r status p s s' skill
      → find (has_key j) s.proposals ≡ some p
      → (p.status ≡ "pending") ⊎ (p.status ≡ "approved") ⊎ (p.status ≡ "applied")
      → (status ≡ "applied") ⊎ (status ≡ "activated")
      → IsHistory s.skills × IsCurrent s.skills
      → active_skill s.skills w n ≡ some old
      → active_skill s'.skills w n ≢ some old
      → IsReviewed s s' w n
  IsApplied-IsReviewed r j status p s s' skill old w n a got waits ends (history, current) was
        changed =
      let key = (nat_eq.beq_iff p.id j).0 (find_holds (has_key j) s.proposals p got) in
      let found : find (has_key p.id) s.proposals ≡ some p =
        subst (λ k. find (has_key k) s.proposals ≡ some p) (sym key) got in
      let written : find (has_key p.id) s'.proposals ≡ some (reviewed r status (some skill.id) p) =
        subst (λ x. find (has_key p.id) x.proposals ≡ some (reviewed r status (some skill.id) p))
          (sym a.stored)
          (rw (same_key p.id) at (
            find-update p.id p.id (reviewed r status (some skill.id)) s.proposals p (λ x. refl)
              found)) in
      let now_active = λ (o : Option Skill) (e : active_skill a.skills w n ≡ o).
        subst (λ x. active_skill x.skills w n ≡ o) (sym a.stored) e in
      elim (publish_skill_definition-assign h r.skill_id r.now p.workspace_id a.definition
        (some r.reviewed_by_user_id) s.skills a.skills skill a.published history current) [
          | inl (_, _, same) ↦ absurd (
              changed
                (now_active (some old) (subst (λ x. active_skill x w n ≡ some old) (sym same) was)))
          | inr (row, _, active) ↦ elim (Bool-cases (is_skill w n skill)) [
            | inr f ↦ absurd (changed (now_active (some old) (active w n ∙ (rw f was))))
            | inl f ↦ record {
              before = p;
              after = reviewed r status (some skill.id) p;
              skill = skill;
              stored = found;
              waiting = waits;
              same_workspace =
                  (skill_row-key h r.skill_id r.now p.workspace_id a.definition
                    (some r.reviewed_by_user_id) skill w n row f).0;
              written = written;
              applied = ends;
              signed = (λ e. cc);
              names = refl;
              active = now_active (some skill) (active w n ∙ (rw f refl));
            }
          ]
        ]

  -- A published skill changes by a review only. In a store whose history is in order, if a call of one
  -- of the two services that succeeds leaves a skill that had an active version with another one or
  -- with none, then the call applied or activated a stored proposal of that workspace that was
  -- pending, approved or applied, the proposal has the reviewer written, and the active version now
  -- is the one it names.
  pub IsStep-IsReviewed :
      (s s' : SkillStore) (w : ℕ) (n : String) (old : Skill)
      → IsHistory s.skills × IsCurrent s.skills
      → IsStep h s s'
      → active_skill s.skills w n ≡ some old
      → active_skill s'.skills w n ≢ some old
      → IsReviewed s s' w n
  unfolding sync_skills_from_directory
  IsStep-IsReviewed s s' w n old good (proposed_skill r yaml path p fresh e) was changed =
      elim (create_skill_proposal-cases h r yaml path s s' p e) [
        | inl kept ↦ absurd (
            changed
              (subst (λ x. active_skill x w n ≡ some old) (ap (λ x. x.skills) (sym kept)) was))
        | inr (new, _) ↦ absurd (
            changed (
              subst (λ x. active_skill x w n ≡ some old) (ap (λ x. x.skills) (sym new.stored)) was))
      ]
  IsStep-IsReviewed s s' w n old good (proposed_update r slug yaml evidence p fresh e) was changed =
      let (q, after, new, _, _, stored) =
        propose_skill_update-IsProposed h r slug yaml evidence s s' p e in
      let kept : s'.skills ≡ s.skills = ap (λ x. x.skills) stored ∙ ap (λ x. x.skills) new.stored in
      absurd (changed (subst (λ x. active_skill x w n ≡ some old) (sym kept) was))
  IsStep-IsReviewed s s' w n old good (reviewed_proposal r approve result e) was changed =
      let (p, a, got, waits, cases) = review_skill_proposal-cases h r approve s s' result e in
      elim cases [
        | inr (_, _, stored) ↦ absurd (
            changed
              (subst (λ x. active_skill x w n ≡ some old) (ap (λ x. x.skills) (sym stored)) was))
        | inl (_, skill, after, applied, _, stored) ↦
            subst (λ x. IsReviewed s x w n) (sym stored)
              (IsReviewed-decide s after w n a.id r "approved" (
                IsApplied-IsReviewed r r.proposal_id "applied" p s after skill old w n applied got
                  (inl waits) (inl refl) good was
                  (λ same.
                    changed (subst (λ x. active_skill x.skills w n ≡ some old) (sym stored) same))))
      ]
  IsStep-IsReviewed s s' w n old good (approved_proposal r p e) was changed =
      let (q, _, _, _, stored) = approve_skill_proposal-cases h r s s' p e in
      let kept : s'.skills ≡ s.skills =
        ap (λ x. x.skills) stored
        ∙ approve_latest-skills r (get_latest_approval r.proposal_id s) s in
      absurd (changed (subst (λ x. active_skill x w n ≡ some old) (sym kept) was))
  IsStep-IsReviewed s s' w n old good (activated_proposal r skill e) was changed =
      let (p, got, waits, applied) = activate_skill_proposal-IsApplied h r s s' skill e in
      IsApplied-IsReviewed r r.proposal_id "activated" p s s' skill old w n applied got (inr waits)
        (inr refl) good was changed
  IsStep-IsReviewed s s' w n old good (synchronised r files result fresh e) was changed =
      let (ds, _, e1) = >>=-eq-ok (load_skill_definitions h files) _ e in
      absurd (changed (sync_each-active_skill h r ds s s' _ result w n old e1 good was))
