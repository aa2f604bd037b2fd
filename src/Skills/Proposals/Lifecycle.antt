-- ===== src/Skills/Proposals/Lifecycle.antt =====
-- The states of a proposal.
use agent_sam.Prelude.{
  ℕ, String, Bool, true, false, Option, none, some, List, [], ◌∷◌, find, find_holds, update, In,
  ◌≡◌, ◌≢◌, refl, sym, subst, ap, ◌∙◌, inl, inr, ◌⊎◌, if◌then◌else◌, ◌==◌, nat_eq, string_eq,
  option_eq, ok, Bool-cases, some-injective,
}
use agent_sam.Skills.Catalog.{Skill, SkillHost}
use agent_sam.Skills.Proposals.{
  proposal_row, review_skill_proposal, approve_skill_proposal, activate_skill_proposal,
}
use agent_sam.Skills.Store.{
  SkillProposal, SkillApproval, SkillStore, Review, has_key, get_latest_approval, reviewed,
  approve_latest,
}
use agent_sam.Skills.Proposals.Inversion.{
  IsApplied, review_skill_proposal-cases, approve_skill_proposal-cases,
  activate_skill_proposal-IsApplied,
}
use agent_sam.Skills.Proposals.New.{IsProposed}

-- The changes of status that a reviewer's call makes.
abbrev pub review_edges : List (String × String)
review_edges =
    ("pending", "rejected")
    ∷ ("pending", "applied")
    ∷ ("pending", "approved")
    ∷ ("approved", "activated")
    ∷ ("applied", "activated")
    ∷ []

-- A reviewer has moved the proposal along an edge; what it proposes has not changed.
pub record IsMove (p p' : SkillProposal) : Type 0 where
  pub same_id : p'.id ≡ p.id
  pub same_workspace : p'.workspace_id ≡ p.workspace_id
  pub same_definition : p'.definition ≡ p.definition
  pub edge : In (p.status, p'.status) review_edges
  pub signed : (p'.reviewed_by_user_id ≢ none) × (p'.reviewed_at ≢ none)

-- Every stored proposal is still there, as it was or moved along an edge.
abbrev pub IsKept : List SkillProposal → List SkillProposal → Type 0
IsKept ps qs =
    (i : ℕ) (p : SkillProposal)
    → find (has_key i) ps ≡ some p
    → (p' : SkillProposal) × (find (has_key i) qs ≡ some p') × ((p' ≡ p) ⊎ IsMove p p')

pub IsKept-add :
    (q : SkillProposal) (ps : List SkillProposal)
    → find (has_key q.id) ps ≡ none
    → IsKept ps (q ∷ ps)
IsKept-add q ps fresh i p found = elim (Bool-cases (q.id == i)) [
  | inl e ↦
      let bad : none ≡ some p =
        sym fresh
        ∙ subst (λ j. find (has_key j) ps ≡ some p) (sym ((nat_eq.beq_iff q.id i).0 e)) found in
      cc
  | inr e ↦ (p, rw e found, inl refl)
]

pub find-update :
    (i j : ℕ) (f : SkillProposal → SkillProposal) (ps : List SkillProposal) (p : SkillProposal)
    → ((x : SkillProposal) → (f x).id ≡ x.id)
    → find (has_key i) ps ≡ some p
    → find (has_key i) (update (has_key j) f ps) ≡ some (if p.id == j then f p else p)
find-update i j f [] p same found = cc
find-update i j f (q ∷ ps) p same found = elim (Bool-cases (q.id == i)) [
  | inl e ↦
      let here : q ≡ p = some-injective _ _ (rw e at found) in
      elim (Bool-cases (q.id == j)) [
        | inl g ↦
            let kept : ((f q).id == i) ≡ true = rw (same q) e in
            rw (g, kept)
              (subst (λ x. some (f q) ≡ some (if x.id == j then f x else x)) here (rw g refl))
        | inr g ↦
            rw (g, e) (subst (λ x. some q ≡ some (if x.id == j then f x else x)) here (rw g refl))
      ]
  | inr e ↦
      let later = find-update i j f ps p same (rw e at found) in
      elim (Bool-cases (q.id == j)) [
        | inl g ↦ let skipped : ((f q).id == i) ≡ false = rw (same q) e in rw (g, skipped) later
        | inr g ↦ rw (g, e) later
      ]
]

-- Writing one proposal moves that one.
pub IsKept-write :
    (j : ℕ) (f : SkillProposal → SkillProposal) (ps : List SkillProposal) (q : SkillProposal)
    → find (has_key j) ps ≡ some q
    → ((x : SkillProposal) → (f x).id ≡ x.id)
    → IsMove q (f q)
    → IsKept ps (update (has_key q.id) f ps)
IsKept-write j f ps q got same move i p found =
    let written = find-update i q.id f ps p same found in
    elim (Bool-cases (p.id == q.id)) [
      | inl e ↦
          let key_q = (nat_eq.beq_iff q.id j).0 (find_holds (has_key j) ps q got) in
          let key_p = (nat_eq.beq_iff p.id i).0 (find_holds (has_key i) ps p found) in
          let i_j : i ≡ j = sym key_p ∙ (nat_eq.beq_iff p.id q.id).0 e ∙ key_q in
          let one : q ≡ p =
            some-injective _ _ (sym got ∙ subst (λ k. find (has_key k) ps ≡ some p) i_j found) in
          (f p, rw e at written, inr (subst (λ x. IsMove x (f x)) one move))
      | inr e ↦ (p, rw e at written, inl refl)
    ]

reviewed-IsMove :
    (r : Review) (status : String) (skill_id : Option ℕ) (p : SkillProposal)
    → In (p.status, status) review_edges
    → IsMove p (reviewed r status skill_id p)
reviewed-IsMove r status skill_id p e = record {
  same_id = refl;
  same_workspace = refl;
  same_definition = refl;
  edge = e;
  signed = ((λ e. cc), λ e. cc);
}

approve_latest-proposals :
    (r : Review) (o : Option SkillApproval) (s : SkillStore)
    → (approve_latest r o s).proposals ≡ s.proposals
approve_latest-proposals r none s = refl
approve_latest-proposals r (some a) s = refl

pub approve_latest-skills :
    (r : Review) (o : Option SkillApproval) (s : SkillStore)
    → (approve_latest r o s).skills ≡ s.skills
approve_latest-skills r none s = refl
approve_latest-skills r (some a) s = refl

module _ (h : SkillHost) where
  pub IsApplied-IsKept :
      (r : Review) (j : ℕ) (status : String) (p : SkillProposal) (s s' : SkillStore) (skill : Skill)
      → find (has_key j) s.proposals ≡ some p
      → In (p.status, status) review_edges
      → IsApplied h r status p s s' skill
      → IsKept s.proposals s'.proposals
  IsApplied-IsKept r j status p s s' skill got e a =
      subst (λ x. IsKept s.proposals x.proposals) (sym a.stored)
        (IsKept-write j (reviewed r status (some skill.id)) s.proposals p got (λ x. refl)
          (reviewed-IsMove r status (some skill.id) p e))

  pub IsProposed-IsKept :
      (s s' : SkillStore) (p : SkillProposal) (new : IsProposed h s s' p)
      → find (has_key new.request.proposal_id) s.proposals ≡ none
      → IsKept s.proposals s'.proposals
  unfolding proposal_row
  IsProposed-IsKept s s' p new fresh =
      subst (λ x. IsKept s.proposals x.proposals) (sym new.stored)
        (IsKept-add p s.proposals
          (subst (λ x. find (has_key x.id) s.proposals ≡ none) (sym new.row) fresh))

  pub review_skill_proposal-IsKept :
      (r : Review) (approve : Bool) (s s' : SkillStore) (result : Option Skill)
      → review_skill_proposal h r approve s ≡ ok (result, s')
      → IsKept s.proposals s'.proposals
  review_skill_proposal-IsKept r approve s s' result e =
      let (p, a, got, waits, cases) = review_skill_proposal-cases h r approve s s' result e in
      elim cases [
        | inl (_, skill, after, applied, _, stored) ↦
            subst (λ x. IsKept s.proposals x.proposals) (sym stored)
              (IsApplied-IsKept r r.proposal_id "applied" p s after skill got
                (inr (inl (ap (λ t. (t, "applied")) waits))) applied)
        | inr (_, _, stored) ↦
            subst (λ x. IsKept s.proposals x.proposals) (sym stored)
              (IsKept-write r.proposal_id (reviewed r "rejected" p.applied_skill_id) s.proposals p
                got (λ x. refl)
                (reviewed-IsMove r "rejected" p.applied_skill_id p
                  (inl (ap (λ t. (t, "rejected")) waits))))
      ]

  pub approve_skill_proposal-IsKept :
      (r : Review) (s s' : SkillStore) (p' : SkillProposal)
      → approve_skill_proposal h r s ≡ ok (p', s')
      → IsKept s.proposals s'.proposals
  approve_skill_proposal-IsKept r s s' p' e =
      let (p, got, waits, _, stored) = approve_skill_proposal-cases h r s s' p' e in
      subst (λ x. IsKept s.proposals x.proposals) (sym stored)
        (subst
          (λ ps.
            IsKept s.proposals
              (update (has_key p.id) (reviewed r "approved" p.applied_skill_id) ps))
          (sym (approve_latest-proposals r (get_latest_approval r.proposal_id s) s))
          (IsKept-write r.proposal_id (reviewed r "approved" p.applied_skill_id) s.proposals p got
            (λ x. refl)
            (reviewed-IsMove r "approved" p.applied_skill_id p
              (inr (inr (inl (ap (λ t. (t, "approved")) waits)))))))

  pub activate_skill_proposal-IsKept :
      (r : Review) (s s' : SkillStore) (skill : Skill)
      → activate_skill_proposal h r s ≡ ok (skill, s')
      → IsKept s.proposals s'.proposals
  activate_skill_proposal-IsKept r s s' skill e =
      let (p, got, approved, applied) = activate_skill_proposal-IsApplied h r s s' skill e in
      let edge : In (p.status, "activated") review_edges = elim approved [
        | inl a ↦ inr (inr (inr (inl (ap (λ t. (t, "activated")) a))))
        | inr a ↦ inr (inr (inr (inr (inl (ap (λ t. (t, "activated")) a)))))
      ] in
      IsApplied-IsKept r r.proposal_id "activated" p s s' skill got edge applied
