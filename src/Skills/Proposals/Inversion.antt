-- ===== src/Skills/Proposals/Inversion.antt =====
-- What a call about a proposal that succeeds has done.
use agent_sam.Prelude.{
  String, Bool, true, false, Option, none, some, List, [], ◌∷◌, find, contains, ◌≡◌, sym, subst, ap,
  inl, inr, ◌⊎◌, ◌==◌, nat_eq, string_eq, option_eq, ok, require, >>=-eq-ok, ok-injective,
  Bool-cases, arith,
}
use agent_sam.Skills.Definition.{SkillDefinition}
use agent_sam.Skills.Catalog.{Skill, SkillHost, publish_skill_definition}
use agent_sam.Skills.Proposals.{
  apply_proposal, review_skill_proposal, approve_skill_proposal, activate_skill_proposal,
}
use agent_sam.Skills.Store.{
  SkillProposal, SkillApproval, SkillStore, Review, has_key, get_proposal, get_latest_approval,
  reviewed, write_proposal, decide, pending_approval, approve_latest,
}
use agent_sam.Skills.Proposals.New.{require-ok, get_proposal-ok}

module _ (h : SkillHost) where
  -- The definition of the proposal is published, and the proposal has the new status.
  pub record IsApplied (r : Review) (status : String) (p : SkillProposal) (s s' : SkillStore)
      (skill : Skill) : Type 0 where
    pub definition : SkillDefinition
    pub skills : List Skill
    pub parsed : h.parse p.definition.yaml_definition p.definition.source_path ≡ ok definition
    pub published :
        publish_skill_definition h r.skill_id r.now p.workspace_id definition
          (some r.reviewed_by_user_id)
          s.skills
        ≡ ok (skill, skills)
    pub stored :
        s' ≡ write_proposal p.id (reviewed r status (some skill.id)) (record s { skills = skills })

  apply_proposal-IsApplied :
      (r : Review) (status : String) (p : SkillProposal) (s s' : SkillStore) (skill : Skill)
      → apply_proposal h r status p s ≡ ok (skill, s')
      → IsApplied r status p s s' skill
  apply_proposal-IsApplied r status p s s' skill e =
      let (d, parsed, e1) =
        >>=-eq-ok (h.parse p.definition.yaml_definition p.definition.source_path) _ e in
      let ((k, skills), published, e2) =
        >>=-eq-ok
          (publish_skill_definition h r.skill_id r.now p.workspace_id d (some r.reviewed_by_user_id)
            s.skills)
          _ e1 in
      let pair = ok-injective _ _ e2 in
      let same = ap (λ x. x.0) pair in
      record {
        definition = d;
        skills = skills;
        parsed = parsed;
        published =
            subst
              (λ j.
                publish_skill_definition h r.skill_id r.now p.workspace_id d
                  (some r.reviewed_by_user_id) s.skills
                ≡ ok (j, skills))
              same published;
        stored =
            subst
              (λ j.
                s'
                ≡ write_proposal p.id (reviewed r status (some j.id))
                    (record s { skills = skills }))
              same (ap (λ x. x.1) (sym pair));
      }

  -- A review that approves publishes the definition of a pending proposal; one that rejects publishes nothing.
  pub review_skill_proposal-cases :
      (r : Review) (approve : Bool) (s s' : SkillStore) (result : Option Skill)
      → review_skill_proposal h r approve s ≡ ok (result, s')
      → (p : SkillProposal) × (a : SkillApproval) × (find (has_key r.proposal_id) s.proposals
          ≡ some p)
        × (p.status ≡ "pending")
        × (((approve ≡ true)
              × (skill : Skill) × (after : SkillStore) × IsApplied r "applied" p s after skill
              × (result ≡ some skill)
              × (s' ≡ decide a.id r "approved" after))
            ⊎ ((approve ≡ false)
                × (result ≡ none)
                × (s'
                    ≡ decide a.id r "rejected"
                        (write_proposal p.id (reviewed r "rejected" p.applied_skill_id) s))))
  unfolding review_skill_proposal
  review_skill_proposal-cases r approve s s' result e =
      let (p, got, e1) = >>=-eq-ok (get_proposal r.proposal_id s) _ e in
      let (u, waits, e2) = >>=-eq-ok (require (p.status == "pending") _) _ e1 in
      let (a, pending, e3) = >>=-eq-ok (pending_approval (get_latest_approval p.id s)) _ e2 in
      (
        p,
        a,
        get_proposal-ok r.proposal_id s p got,
        (string_eq.beq_iff p.status "pending").0 (require-ok (p.status == "pending") _ u waits),
        elim (Bool-cases approve) [
          | inl f ↦
              let ((skill, after), applied, e4) =
                >>=-eq-ok (apply_proposal h r "applied" p s) _ (rw f at e3) in
              let pair = ok-injective _ _ e4 in
              inl (
                f,
                skill,
                after,
                apply_proposal-IsApplied r "applied" p s after skill applied,
                ap (λ x. x.0) (sym pair),
                ap (λ x. x.1) (sym pair),
              )
          | inr f ↦
              let pair = ok-injective _ _ (rw f at e3) in
              inr (f, ap (λ x. x.0) (sym pair), ap (λ x. x.1) (sym pair))
        ],
      )

  pub approve_skill_proposal-cases :
      (r : Review) (s s' : SkillStore) (p' : SkillProposal)
      → approve_skill_proposal h r s ≡ ok (p', s')
      → (p : SkillProposal) × (find (has_key r.proposal_id) s.proposals ≡ some p)
        × (p.status ≡ "pending")
        × (p' ≡ reviewed r "approved" p.applied_skill_id p)
        × (s'
            ≡ write_proposal p.id
                (reviewed r "approved" p.applied_skill_id)
                (approve_latest r (get_latest_approval r.proposal_id s) s))
  unfolding approve_skill_proposal
  approve_skill_proposal-cases r s s' p' e =
      let (p, got, e1) = >>=-eq-ok (get_proposal r.proposal_id s) _ e in
      let (u, waits, e2) = >>=-eq-ok (require (p.status == "pending") _) _ e1 in
      let pair = ok-injective _ _ e2 in
      (
        p,
        get_proposal-ok r.proposal_id s p got,
        (string_eq.beq_iff p.status "pending").0 (require-ok (p.status == "pending") _ u waits),
        ap (λ x. x.0) (sym pair),
        ap (λ x. x.1) (sym pair),
      )

  pub activate_skill_proposal-IsApplied :
      (r : Review) (s s' : SkillStore) (skill : Skill)
      → activate_skill_proposal h r s ≡ ok (skill, s')
      → (p : SkillProposal) × (find (has_key r.proposal_id) s.proposals ≡ some p)
        × ((p.status ≡ "approved") ⊎ (p.status ≡ "applied"))
        × IsApplied r "activated" p s s' skill
  unfolding activate_skill_proposal
  activate_skill_proposal-IsApplied r s s' skill e =
      let (p, got, e1) = >>=-eq-ok (get_proposal r.proposal_id s) _ e in
      let (u, allowed, e2) =
        >>=-eq-ok (require (contains ("approved" ∷ "applied" ∷ []) p.status) _) _ e1 in
      let yes = require-ok (contains ("approved" ∷ "applied" ∷ []) p.status) _ u allowed in
      (
        p,
        get_proposal-ok r.proposal_id s p got,
        ground (arith, string_eq.beq_iff p.status "approved", string_eq.beq_iff p.status "applied"),
        apply_proposal-IsApplied r "activated" p s s' skill e2,
      )
