-- ===== src/SubAgents/Steps.antt =====
-- The steps of the store of sub-agents, and what a creation checks and writes.
use agent_sam.Prelude.{
  update, some, none, ◌⊎◌, ◌≢◌, Outcome-cases, ap, ℕ, String, Bool, true, false, not, ◌||◌, List,
  [], ◌∷◌, find, any, all, contains, ◌==◌, nat_eq, string_eq, ◌≡◌, refl, sym, subst, ◌∙◌, inl, inr,
  In, All, All-zip, All-update, all-All, contains-In, In-contains, Exception, value_error, ok,
  require, ◌>>=◌, >>=-eq-ok, ok-injective, Bool-cases, Option-cases, arith, option_eq,
}
use agent_sam.Skills.Yaml.{Pairs, get_key}
use agent_sam.Agents.Registry.{known_tools}
use agent_sam.SubAgents.{
  sign, admin_only_tools, SubAgentProposal, GeneratedFile, SubAgentStore, SubAgentHost,
  SubAgentRequest, proposal_of, propose_sub_agent, is_proposal, found, signed_by,
  approve_sub_agent_proposal, tools_in, fields_in, checked_fields, file_of, profile_row,
  create_agent_from_approved_proposal,
}

require-true : (b : Bool) (e : Exception) (u : Unit {0}) → require b e ≡ ok u → b ≡ true
require-true true e u h = refl
require-true false e u h = cc

-- With a tool for administrators among the tools, they are allowed only with the approval.
admin_allowed :
    (tools : List String) (flag : Bool)
    → not (any (contains admin_only_tools) tools) || flag ≡ true
    → All (λ t. In t admin_only_tools → flag ≡ true) tools
admin_allowed [] flag h = tt
admin_allowed (t ∷ tools) flag h = (
  λ m. let is_admin = In-contains admin_only_tools t m in ground arith,
  admin_allowed tools flag (ground arith),
)

-- The approval that the documentation asks for is attached to a proposal's metadata.
abbrev pub allow_dangerous : SubAgentProposal → SubAgentProposal
allow_dangerous p = record p { dangerous_tools_approved = true }

abbrev pub first_store : SubAgentStore
first_store = record { proposals = []; profiles = []; files = [] }

module _ (h : SubAgentHost) where
  -- The calls of the three operations, whether the last one succeeds or raises. No call of the
  -- program attaches an administrator's approval; somebody else may do so at any time.
  pub data Step : SubAgentStore → SubAgentStore → Type 0 where
    proposed :
        (id : ℕ) (r : SubAgentRequest) (p : SubAgentProposal) (s s' : SubAgentStore)
        → propose_sub_agent id r s ≡ ok (p, s')
        → Step s s'
    approved :
        (id user now : ℕ) (p : SubAgentProposal) (s s' : SubAgentStore)
        → approve_sub_agent_proposal id user now s ≡ ok (p, s')
        → Step s s'
    admin_approved :
        (id : ℕ) (s : SubAgentStore)
        → Step s (record s { proposals = update (is_proposal id) allow_dangerous s.proposals })
    created :
        (id user now : ℕ) (s : SubAgentStore)
        → Step s (create_agent_from_approved_proposal h id user now s).1

  -- The stores that steps reach from another.
  pub data Reaches : SubAgentStore → SubAgentStore → Type 0 where
    here : (s : SubAgentStore) → Reaches s s
    later : (s0 s s' : SubAgentStore) → Reaches s0 s → Step s s' → Reaches s0 s'

  -- Who is no longer pending has a reviewer.
  abbrev pub IsSigned : SubAgentProposal → Type 0
  IsSigned p = (p.status ≡ "pending") ⊎ (p.reviewed_by_user_id ≢ none)

  abbrev pub IsClean : SubAgentStore → Type 0
  IsClean s = All IsSigned s.proposals

  signed_by-IsSigned :
      (status : String) (user now : ℕ) (p : SubAgentProposal)
      → IsSigned (signed_by status user now p)
  signed_by-IsSigned status user now p = inr (λ e. cc)

  pub approved-reviewed :
      (p : SubAgentProposal) → IsSigned p → p.status ≡ "approved" → p.reviewed_by_user_id ≢ none
  approved-reviewed p (inl e) f = let bad : ◌≡◌ {A = String} "pending" "approved" = sym e ∙ f in cc
  approved-reviewed p (inr n) f = n

  -- What the checks of a proposal establish of its profile.
  abbrev pub IsChecked : SubAgentProposal → Pairs → List String → Type 0
  IsChecked p fields tools =
      ((h.safe_load p.proposed_profile_yaml >>= fields_in h) ≡ ok fields)
      × (tools_in h (get_key "tools_allowed" fields) ≡ ok tools)
      × All (λ t. In t known_tools × (In t admin_only_tools → p.dangerous_tools_approved ≡ true))
          tools

  pub checked_fields-IsChecked :
      (p : SubAgentProposal) (fields : Pairs) (tools : List String)
      → checked_fields h p ≡ ok (fields, tools)
      → IsChecked p fields tools
  unfolding checked_fields
  checked_fields-IsChecked p fields tools e =
      let (v, loaded, e1) = >>=-eq-ok (h.safe_load p.proposed_profile_yaml) _ e in
      let (fs, read, e2) = >>=-eq-ok (fields_in h v) _ e1 in
      let (ts, listed, e3) = >>=-eq-ok (tools_in h (get_key "tools_allowed" fs)) _ e2 in
      let (u, known, e4) =
        >>=-eq-ok
          (require (all (contains known_tools) ts)
            (value_error "Sub-agent proposal contains unknown tools"))
          _ e3 in
      let (w, allowed, e5) =
        >>=-eq-ok
          (require (not (any (contains admin_only_tools) ts) || p.dangerous_tools_approved)
            (value_error "Dangerous tools require admin approval before sub-agent creation."))
          _ e4 in
      subst (λ pair. IsChecked p pair.0 pair.1) (ok-injective _ _ e5)
        (
          rw (loaded, read) refl,
          listed,
          All-zip _ _ _ ts
              (λ t is_known is_allowed. (contains-In known_tools t is_known, is_allowed))
              (all-All (contains known_tools) ts (require-true _ _ u known))
              (admin_allowed ts p.dangerous_tools_approved (require-true _ _ w allowed)),
        )

  -- A creation writes at most the file of a stored, approved proposal that passes the checks.
  pub create_agent-files :
      (P : GeneratedFile → Type 0) (id user now : ℕ) (s : SubAgentStore)
      → ((p : SubAgentProposal) (fields : Pairs) (tools : List String)
          → find (is_proposal id) s.proposals ≡ some p
          → p.status ≡ "approved"
          → checked_fields h p ≡ ok (fields, tools)
          → P (file_of h p))
      → All P s.files
      → All P (create_agent_from_approved_proposal h id user now s).1.files
  unfolding create_agent_from_approved_proposal
  create_agent-files P id user now s one files =
      elim (Option-cases (find (is_proposal id) s.proposals)) [
        | inl e ↦ rw e files
        | inr (p, e) ↦ elim (Bool-cases (p.status == "approved")) [
          | inr f ↦ rw (e, f) files
          | inl f ↦ elim (Outcome-cases (checked_fields h p)) [
            | inr (error, g) ↦ rw (e, f, g) files
            | inl ((fields, tools), g) ↦
                let new = one p fields tools e ((string_eq.beq_iff p.status "approved").0 f) g in
                elim (Outcome-cases (profile_row h p fields s.profiles)) [
                  | inl (row, k) ↦ rw (e, f, g, k) (new, files)
                  | inr (error, k) ↦ rw (e, f, g, k) (new, files)
                ]
          ]
        ]
      ]

  create_agent-IsClean :
      (id user now : ℕ) (s : SubAgentStore)
      → IsClean s
      → IsClean (create_agent_from_approved_proposal h id user now s).1
  unfolding create_agent_from_approved_proposal
  create_agent-IsClean id user now s clean =
      elim (Option-cases (find (is_proposal id) s.proposals)) [
        | inl e ↦ rw e clean
        | inr (p, e) ↦ elim (Bool-cases (p.status == "approved")) [
          | inr f ↦ rw (e, f) clean
          | inl f ↦ elim (Outcome-cases (checked_fields h p)) [
            | inr (error, g) ↦ rw (e, f, g) clean
            | inl ((fields, tools), g) ↦ elim (Outcome-cases (profile_row h p fields s.profiles)) [
              | inr (error, k) ↦ rw (e, f, g, k) clean
              | inl (row, k) ↦
                  rw (e, f, g, k)
                    (All-update IsSigned (is_proposal p.id) (signed_by "created" user now)
                      s.proposals (λ x signed. signed_by-IsSigned "created" user now x) clean)
            ]
          ]
        ]
      ]

  pub propose_sub_agent-stored :
      (id : ℕ) (r : SubAgentRequest) (p : SubAgentProposal) (s s' : SubAgentStore)
      → propose_sub_agent id r s ≡ ok (p, s')
      → s' ≡ record s { proposals = proposal_of id r ∷ s.proposals }
  unfolding propose_sub_agent
  propose_sub_agent-stored id r p s s' e =
      elim (Bool-cases (any (λ q. q.proposed_slug == r.proposed_slug) s.proposals)) [
        | inl f ↦ let bad = rw f at e in cc
        | inr f ↦
            let done : ok
                  (proposal_of id r, record s { proposals = proposal_of id r ∷ s.proposals })
                ≡ ok (p, s') =
              rw f at e in
            sym (ap (λ x. x.1) (ok-injective _ _ done))
      ]

  pub approve_sub_agent_proposal-stored :
      (id user now : ℕ) (p : SubAgentProposal) (s s' : SubAgentStore)
      → approve_sub_agent_proposal id user now s ≡ ok (p, s')
      → s' ≡ sign id "approved" user now s
  unfolding approve_sub_agent_proposal
  approve_sub_agent_proposal-stored id user now p s s' e =
      let (q, got, e1) = >>=-eq-ok (found (find (is_proposal id) s.proposals)) _ e in
      let (u, waits, e2) =
        >>=-eq-ok
          (require (q.status == "pending") (value_error "Sub-agent proposal is already reviewed."))
          _ e1 in
      sym (ap (λ x. x.1) (ok-injective _ _ e2))

  Step-IsClean : (s s' : SubAgentStore) → Step s s' → IsClean s → IsClean s'
  Step-IsClean s s' (proposed id r p _ _ e) clean =
      subst IsClean (sym (propose_sub_agent-stored id r p s s' e)) (inl refl, clean)
  Step-IsClean s s' (approved id user now p _ _ e) clean =
      subst IsClean (sym (approve_sub_agent_proposal-stored id user now p s s' e)) (
        All-update IsSigned (is_proposal id) (signed_by "approved" user now) s.proposals
          (λ x signed. signed_by-IsSigned "approved" user now x) clean)
  Step-IsClean s _ (admin_approved id _) clean =
      All-update IsSigned (is_proposal id) allow_dangerous s.proposals (λ x signed. signed) clean
  Step-IsClean s _ (created id user now _) clean = create_agent-IsClean id user now s clean

  pub Reaches-IsClean : (s0 s : SubAgentStore) → Reaches s0 s → IsClean s0 → IsClean s
  Reaches-IsClean s0 _ (here _) clean = clean
  Reaches-IsClean s0 _ (later _ s s' reached step) clean =
      Step-IsClean s s' step (Reaches-IsClean s0 s reached clean)
