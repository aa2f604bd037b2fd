-- ===== src/Skills/Proposals/New.antt =====
-- What a call that proposes a skill has done.
use agent_sam.Prelude.{
  ℕ, String, Bool, true, false, Option, none, some, ◌∷◌, find, any, ◌≡◌, refl, sym, ap, ◌∙◌, inl,
  inr, ◌⊎◌, nat_eq, string_eq, option_eq, not, value_error, Exception, ok, require, >>=-eq-ok,
  ok-injective, Bool-cases, Option-cases,
}
use agent_sam.Skills.Definition.{SkillDefinition}
use agent_sam.Skills.Catalog.{SkillHost, is_outdated, get_latest_skill, get_skill_by_name_version}
use agent_sam.Skills.Proposals.{
  proposal_row, create_skill_proposal_record, refuse_published, propose_unless_pending,
  create_skill_proposal, propose_skill_update,
}
use agent_sam.Skills.Store.{
  SkillProposal, SkillStore, Request, has_key, get_proposal, same_content, get_pending_proposal,
  write_proposal, skill_approval_row,
}

pub require-ok : (b : Bool) (e : Exception) (u : Unit {0}) → require b e ≡ ok u → b ≡ true
require-ok true e u h = refl
require-ok false e u h = cc

pub get_proposal-ok :
    (i : ℕ) (s : SkillStore) (p : SkillProposal)
    → get_proposal i s ≡ ok p
    → find (has_key i) s.proposals ≡ some p
get_proposal-ok i s p h = elim (Option-cases (find (has_key i) s.proposals)) [
  | inl e ↦ let bad = rw e at h in cc
  | inr (q, e) ↦ let same : ok q ≡ ok p = rw e at h in e ∙ ap some (ok-injective _ _ same)
]

module _ (h : SkillHost) where
  -- A new proposal was stored with its approval.
  pub record IsProposed (s s' : SkillStore) (p : SkillProposal) : Type 0 where
    pub request : Request
    pub definition : SkillDefinition
    pub row :
        p
        ≡ proposal_row h request definition
            (get_latest_skill request.workspace_id definition.name s.skills)
    pub fresh :
        any (same_content request.workspace_id definition (h.content_hash definition)) s.proposals
        ≡ false
    pub stored : s' ≡ record s {
      proposals = p ∷ s.proposals;
      approvals = skill_approval_row request ∷ s.approvals;
    }

  pub create_skill_proposal_record-IsProposed :
      (r : Request) (d : SkillDefinition) (s s' : SkillStore) (p : SkillProposal)
      → create_skill_proposal_record h r d s ≡ ok (p, s')
      → (new : IsProposed s s' p) × (new.request ≡ r) × (new.definition ≡ d)
  unfolding create_skill_proposal_record proposal_row
  create_skill_proposal_record-IsProposed r d s s' p e =
      elim (Bool-cases (any (same_content r.workspace_id d (h.content_hash d)) s.proposals)) [
        | inl f ↦ let bad = rw f at e in cc
        | inr f ↦
            let row = proposal_row h r d (get_latest_skill r.workspace_id d.name s.skills) in
            let done : ok (
              row,
              record s {
                proposals = row ∷ s.proposals;
                approvals = skill_approval_row r ∷ s.approvals;
              },
            )
                ≡ ok (p, s') =
              rw f at e in
            let pair = ok-injective _ _ done in
            (
              record {
                request = r;
                definition = d;
                row = ap (λ x. x.0) (sym pair);
                fresh = f;
                stored =
                    ap (λ x. x.1) (sym pair)
                    ∙ ap
                        (λ q. record s {
                          proposals = q ∷ s.proposals;
                          approvals = skill_approval_row r ∷ s.approvals;
                        })
                        (ap (λ x. x.0) pair);
              },
              refl,
              refl,
            )
      ]

  pub propose_unless_pending-cases :
      (r : Request) (d : SkillDefinition) (s s' : SkillStore) (p : SkillProposal)
      (pending : Option SkillProposal)
      → propose_unless_pending h r d s pending ≡ ok (p, s')
      → (s' ≡ s) ⊎ ((new : IsProposed s s' p) × (new.request ≡ r))
  propose_unless_pending-cases r d s s' p (some q) e =
      inl (ap (λ x. x.1) (sym (ok-injective _ _ e)))
  propose_unless_pending-cases r d s s' p none e =
      let (v, newer, e1) =
        >>=-eq-ok
          (require (not (is_outdated d.version (get_latest_skill r.workspace_id d.name s.skills)))
            (value_error "Skill must use a greater version."))
          (λ _. create_skill_proposal_record h r d s) e in
      let (new, same, _) = create_skill_proposal_record-IsProposed r d s s' p e1 in inr (new, same)

  -- The call that proposes a definition either finds the same proposal pending or stores a new one.
  pub create_skill_proposal-cases :
      (r : Request) (yaml_definition : String) (source_path : Option String) (s s' : SkillStore)
      (p : SkillProposal)
      → create_skill_proposal h r yaml_definition source_path s ≡ ok (p, s')
      → (s' ≡ s) ⊎ ((new : IsProposed s s' p) × (new.request ≡ r))
  unfolding create_skill_proposal
  create_skill_proposal-cases r yaml_definition source_path s s' p e =
      let (d, parsed, e1) = >>=-eq-ok (h.parse yaml_definition source_path) _ e in
      let (u, unpublished, e2) =
        >>=-eq-ok
          (refuse_published h d
            (get_skill_by_name_version r.workspace_id d.name d.version s.skills))
          _ e1 in
      propose_unless_pending-cases r d s s' p
        (get_pending_proposal r.workspace_id d (h.content_hash d) s) e2

  pub propose_skill_update-IsProposed :
      (r : Request) (agent_slug yaml_definition evidence : String) (s s' : SkillStore)
      (p : SkillProposal)
      → propose_skill_update h r agent_slug yaml_definition evidence s ≡ ok (p, s')
      → (q : SkillProposal) × (after : SkillStore) × (new : IsProposed s after q) × (new.request
          ≡ r)
        × (p ≡ record q {
          agent_slug = some agent_slug;
          evidence_text = some evidence;
          status = "pending";
        })
        × (s'
            ≡ write_proposal q.id
                (λ x. record x {
                  agent_slug = some agent_slug;
                  evidence_text = some evidence;
                  status = "pending";
                })
                after)
  unfolding propose_skill_update
  propose_skill_update-IsProposed r agent_slug yaml_definition evidence s s' p e =
      let (d, parsed, e1) = >>=-eq-ok (h.parse yaml_definition none) _ e in
      let ((q, after), made, e2) = >>=-eq-ok (create_skill_proposal_record h r d s) _ e1 in
      let (new, same, _) = create_skill_proposal_record-IsProposed r d s after q made in
      let pair = ok-injective _ _ e2 in
      (q, after, new, same, ap (λ x. x.0) (sym pair), ap (λ x. x.1) (sym pair))
