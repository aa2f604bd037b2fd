-- ===== src/Skills/Catalog/Active.antt =====
-- The catalog as its users see it: the active version of each skill.
use agent_sam.Prelude.{
  ℕ, ◌<◌, String, Bool, true, false, ◌&&◌, Option, some, List, [], ◌∷◌, find, ◌≡◌, refl, sym, ◌∙◌,
  subst, ap, inl, inr, ◌⊎◌, leb-false_lt, if◌then◌else◌, ◌==◌, nat_eq, string_eq, ok, ok-injective,
  Bool-cases, option_eq,
}
use agent_sam.Skills.Definition.{SkillDefinition}
use agent_sam.Skills.Catalog.{
  Skill, SkillHost, is_skill, get_latest_skill, get_skill_by_name_version, is_active, supersede,
  supersede_all, is_outdated, skill_row, publish_new, publish_skill_definition, hash_existing_skill,
}
use agent_sam.Skills.Catalog.History.{
  IsHistory, is_skill-eq, get_latest_skill-find, publish_skill_definition-cases,
  publish_skill_definition-IsHistory,
}

-- The active version of a skill.
abbrev pub active_skill : List Skill → ℕ → String → Option Skill
active_skill skills workspace_id name =
    find (λ s. is_skill workspace_id name s && is_active s) skills

-- The catalog with another version of the skill of `s`.
abbrev pub assign : Skill → (ℕ → String → Option Skill) → ℕ → String → Option Skill
assign s catalog w n = if is_skill w n s then some s else catalog w n

-- The version that is active is the latest one.
abbrev pub IsCurrent : List Skill → Type 0
IsCurrent skills = (w : ℕ) (n : String) → active_skill skills w n ≡ get_latest_skill w n skills

is_skill-other :
    (w : ℕ) (n : String) (s t : Skill)
    → is_skill w n s ≡ false
    → is_skill s.workspace_id s.definition.name t ≡ true
    → is_skill w n t ≡ false
is_skill-other w n s t other h =
    let (same, named) = is_skill-eq s.workspace_id s.definition.name t h in
    subst (λ m. ((t.workspace_id == w) && (m == n)) ≡ false) (sym named)
      (subst (λ i. ((i == w) && (s.definition.name == n)) ≡ false) (sym same) other)

-- Superseding the versions of one skill hides no row of another.
supersede_all-find :
    (p : Skill → Bool) (workspace_id : ℕ) (name : String) (skills : List Skill)
    → ((t : Skill)
        → is_skill workspace_id name t ≡ true
        → (p t ≡ false) × (p (supersede t) ≡ false))
    → find p (supersede_all workspace_id name skills) ≡ find p skills
supersede_all-find p workspace_id name [] skips = refl
supersede_all-find p workspace_id name (t ∷ older) skips =
    let later = supersede_all-find p workspace_id name older skips in
    elim (Bool-cases (is_skill workspace_id name t)) [
      | inl e ↦
          let (kept, changed) = skips t e in
          elim (Bool-cases (is_active t)) [
            | inl f ↦ rw (e, f, kept, changed) later
            | inr f ↦ rw (e, f, kept) later
          ]
      | inr e ↦ rw (e, later) refl
    ]

module _ (h : SkillHost) where
  -- A new row is the active version of its skill; all other skills are as before.
  publish_new-assign :
      (id now workspace_id : ℕ) (d : SkillDefinition) (approved_by : Option ℕ)
      (skills skills' : List Skill) (s : Skill)
      → publish_new h id now workspace_id d approved_by skills ≡ ok (s, skills')
      → (s ≡ skill_row h id now workspace_id d approved_by)
        × (is_outdated d.version (get_latest_skill workspace_id d.name skills) ≡ false)
        × ((w : ℕ) (n : String) → active_skill skills' w n ≡ assign s (active_skill skills) w n)
        × ((w : ℕ) (n : String)
            → find (is_skill w n) skills' ≡ assign s (λ w n. find (is_skill w n) skills) w n)
  unfolding skill_row
  publish_new-assign id now workspace_id d approved_by skills skills' s e =
      let row = skill_row h id now workspace_id d approved_by in
      let name = d.name in
      elim (Bool-cases (is_outdated d.version (get_latest_skill workspace_id name skills))) [
        | inl old ↦ let bad = rw old at e in cc
        | inr new ↦
            let done : ok (row, row ∷ supersede_all workspace_id name skills) ≡ ok (s, skills') =
              rw new at e in
            let pair = ok-injective _ _ done in
            (
              ap (λ p. p.0) (sym pair),
              new,
              λ w n.
                  subst (λ p. active_skill p.1 w n ≡ assign p.0 (active_skill skills) w n) pair
                    (elim (Bool-cases (is_skill w n row)) [
                      | inl f ↦ rw f refl
                      | inr f ↦ rw f (
                          supersede_all-find (λ t. is_skill w n t && is_active t) workspace_id name
                            skills
                            (λ t here.
                              let no_row = is_skill-other w n row t f here in
                              (rw no_row refl, rw no_row refl)))
                    ]),
              λ w n.
                  subst
                    (λ p.
                      find (is_skill w n) p.1 ≡ assign p.0 (λ w n. find (is_skill w n) skills) w n)
                    pair
                    (elim (Bool-cases (is_skill w n row)) [
                      | inl f ↦ rw f refl
                      | inr f ↦ rw f (
                          supersede_all-find (is_skill w n) workspace_id name skills (λ t here.
                            let no_row = is_skill-other w n row t f here in (no_row, no_row)))
                    ]),
            )
      ]

  pub publish_skill_definition-IsCurrent :
      (id now workspace_id : ℕ) (d : SkillDefinition) (approved_by : Option ℕ)
      (skills skills' : List Skill) (s : Skill)
      → publish_skill_definition h id now workspace_id d approved_by skills ≡ ok (s, skills')
      → IsHistory skills
      → IsCurrent skills
      → IsCurrent skills'
  publish_skill_definition-IsCurrent id now workspace_id d approved_by skills skills' s e history
        current w n =
      elim (publish_skill_definition-cases h id now workspace_id d approved_by skills skills' s e) [
        | inl (found, same, hashed) ↦ rw same (current w n)
        | inr new ↦
            let (_, _, active, latest) =
              publish_new-assign id now workspace_id d approved_by skills skills' s new in
            let history' =
              publish_skill_definition-IsHistory h id now workspace_id d approved_by skills skills'
                s e history in
            active w n
            ∙ ap (λ o. if is_skill w n s then some s else o)
                (current w n ∙ get_latest_skill-find w n skills history)
            ∙ sym (latest w n)
            ∙ sym (get_latest_skill-find w n skills' history')
      ]

  pub publish_skill_definition-assign :
      (id now workspace_id : ℕ) (d : SkillDefinition) (approved_by : Option ℕ)
      (skills skills' : List Skill) (s : Skill)
      → publish_skill_definition h id now workspace_id d approved_by skills ≡ ok (s, skills')
      → IsHistory skills
      → IsCurrent skills
      → ((get_skill_by_name_version workspace_id d.name d.version skills ≡ some s)
          × (hash_existing_skill h s ≡ ok (h.content_hash d))
          × (skills' ≡ skills))
        ⊎ ((s ≡ skill_row h id now workspace_id d approved_by)
            × ((t : Skill)
                → active_skill skills workspace_id d.name ≡ some t
                → t.definition.version < d.version)
            × ((w : ℕ) (n : String)
                → active_skill skills' w n ≡ assign s (active_skill skills) w n))
  publish_skill_definition-assign id now workspace_id d approved_by skills skills' s e history
        current =
      elim (publish_skill_definition-cases h id now workspace_id d approved_by skills skills' s e) [
        | inl (found, same, hashed) ↦ inl (found, hashed, same)
        | inr new ↦
            let (row, fresh, active, _) =
              publish_new-assign id now workspace_id d approved_by skills skills' s new in
            inr (
              row,
              (λ t is. leb-false_lt d.version t.definition.version (
                  subst (λ o. is_outdated d.version o ≡ false)
                    (sym (current workspace_id d.name) ∙ is) fresh)),
              active,
            )
      ]
