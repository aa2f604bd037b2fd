-- ===== src/Skills/Catalog/History.antt =====
-- The history of the published skills.
use agent_sam.Prelude.{
  ℕ, ◌<◌, String, Bool, true, false, ◌&&◌, Option, some, List, [], ◌∷◌, find, select, leb, All,
  All-map, All-zip, lt→leb, leb-false_lt, All-update, All-select, head?-order_by-first, ◌≡◌, refl,
  sym, ◌∙◌, subst, ap, inl, inr, ◌⊎◌, ◌==◌, nat_eq, string_eq, order_by, ok, >>=-eq-ok, guarded-ok,
  ok-injective, Bool-cases, Option-cases, arith, option_eq,
}
use agent_sam.Skills.Definition.{SkillDefinition}
use agent_sam.Skills.Catalog.{
  Skill, SkillHost, is_skill, newer, get_latest_skill, get_skill_by_name_version, is_active,
  supersede, supersede_all, is_outdated, skill_row, publish_new, publish_existing,
  publish_skill_definition, hash_existing_skill,
}

-- The two rows are versions of one skill.
abbrev pub same_skill : Skill → Skill → Bool
same_skill s t = is_skill s.workspace_id s.definition.name t

-- Every row is newer than the earlier rows of its skill, and none of those is active.
abbrev pub IsHistory : List Skill → Type 0
IsHistory [] = Unit
IsHistory (s ∷ older) =
    All
      (λ t.
        same_skill s t ≡ true
        → (t.definition.version < s.definition.version) × (is_active t ≡ false))
      older
    × IsHistory older

pub is_skill-eq :
    (workspace_id : ℕ) (name : String) (s : Skill)
    → is_skill workspace_id name s ≡ true
    → (s.workspace_id ≡ workspace_id) × (s.definition.name ≡ name)
is_skill-eq workspace_id name s h =
    ground
      (arith, nat_eq.beq_iff s.workspace_id workspace_id, string_eq.beq_iff s.definition.name name)

-- The earlier rows of a skill, seen from one of its rows.
IsHistory-older :
    (workspace_id : ℕ) (name : String) (s : Skill) (older : List Skill)
    → IsHistory (s ∷ older)
    → is_skill workspace_id name s ≡ true
    → All
        (λ t. is_skill workspace_id name t ≡ true → t.definition.version < s.definition.version)
        older
IsHistory-older workspace_id name s older (first, rest) e =
    let (same, named) = is_skill-eq workspace_id name s e in
    All-map _ _ older
      (λ t before here.
        (before (
          subst (λ w. is_skill w s.definition.name t ≡ true) (sym same)
            (subst (λ n. is_skill workspace_id n t ≡ true) (sym named) here))).0)
      first

-- The query for the latest version finds the row that was written last.
pub get_latest_skill-find :
    (workspace_id : ℕ) (name : String) (skills : List Skill)
    → IsHistory skills
    → get_latest_skill workspace_id name skills ≡ find (is_skill workspace_id name) skills
unfolding get_latest_skill order_by
get_latest_skill-find workspace_id name [] h = refl
get_latest_skill-find workspace_id name (s ∷ older) h =
    elim (Bool-cases (is_skill workspace_id name s)) [
      | inl e ↦ rw e (
          head?-order_by-first newer s (select (is_skill workspace_id name) older) (
            All-select _ (is_skill workspace_id name) older (
              All-map _ _ older
                (λ t less here. lt→leb t.definition.version s.definition.version (less here))
                (IsHistory-older workspace_id name s older h e))))
      | inr e ↦ rw e (get_latest_skill-find workspace_id name older h.1)
    ]

-- What is newer than the latest version is newer than every version.
find-newest :
    (workspace_id : ℕ) (name : String) (version : ℕ) (skills : List Skill)
    → IsHistory skills
    → is_outdated version (find (is_skill workspace_id name) skills) ≡ false
    → All (λ t. is_skill workspace_id name t ≡ true → t.definition.version < version) skills
find-newest workspace_id name version [] h fresh = tt
find-newest workspace_id name version (s ∷ older) h fresh =
    elim (Bool-cases (is_skill workspace_id name s)) [
      | inl e ↦
          let less : leb version s.definition.version ≡ false = rw e at fresh in
          (
            λ _. ground arith,
            All-map _ _ older
                (λ t before here.
                  omega (arith, before here, leb-false_lt version s.definition.version less))
                (IsHistory-older workspace_id name s older h e),
          )
      | inr e ↦ (λ here. cc, find-newest workspace_id name version older h.1 (rw e at fresh))
    ]

pub supersede_all-IsHistory :
    (workspace_id : ℕ) (name : String) (skills : List Skill)
    → IsHistory skills
    → IsHistory (supersede_all workspace_id name skills)
supersede_all-IsHistory workspace_id name [] h = tt
supersede_all-IsHistory workspace_id name (s ∷ older) h =
    let superseded = supersede_all-IsHistory workspace_id name older h.1 in
    let others =
      All-update
        (λ t.
          same_skill s t ≡ true
          → (t.definition.version < s.definition.version) × (is_active t ≡ false))
        (λ t. is_skill workspace_id name t && is_active t) supersede older
        (λ t before here. ((before here).0, refl)) h.0 in
    elim (Bool-cases (is_skill workspace_id name s && is_active s)) [
      | inl e ↦ rw e (others, superseded)
      | inr e ↦ rw e (others, superseded)
    ]

supersede_all-not_active :
    (workspace_id : ℕ) (name : String) (skills : List Skill)
    → All
        (λ t. is_skill workspace_id name t ≡ true → is_active t ≡ false)
        (supersede_all workspace_id name skills)
supersede_all-not_active workspace_id name [] = tt
supersede_all-not_active workspace_id name (s ∷ older) =
    let later = supersede_all-not_active workspace_id name older in
    elim (Bool-cases (is_skill workspace_id name s)) [
      | inl e ↦ elim (Bool-cases (is_active s)) [
        | inl f ↦ rw (e, f) ((λ _. refl), later)
        | inr f ↦ rw (e, f) ((λ _. f), later)
      ]
      | inr e ↦ rw e ((λ here. let bad : false ≡ true = sym e ∙ here in cc), later)
    ]

module _ (h : SkillHost) where
  publish_new-IsHistory :
      (id now workspace_id : ℕ) (d : SkillDefinition) (approved_by : Option ℕ)
      (skills skills' : List Skill) (s : Skill)
      → publish_new h id now workspace_id d approved_by skills ≡ ok (s, skills')
      → IsHistory skills
      → IsHistory skills'
  unfolding skill_row
  publish_new-IsHistory id now workspace_id d approved_by skills skills' s e history =
      let name = d.name in
      elim (Bool-cases (is_outdated d.version (get_latest_skill workspace_id name skills))) [
        | inl old ↦ let bad = rw old at e in cc
        | inr new ↦
            let done : ok (
              skill_row h id now workspace_id d approved_by,
              skill_row h id now workspace_id d approved_by
                  ∷ supersede_all workspace_id name skills,
            )
                ≡ ok (s, skills') =
              rw new at e in
            let newest = find-newest workspace_id name d.version skills history (
              subst (λ l. is_outdated d.version l ≡ false)
                (get_latest_skill-find workspace_id name skills history) new) in
            subst (λ pair. IsHistory pair.1) (ok-injective _ _ done)
              (
                All-zip _ _ _ (supersede_all workspace_id name skills)
                    (λ t before still here. (before here, still here))
                    (All-update _ (λ t. is_skill workspace_id name t && is_active t) supersede
                      skills (λ t before here. before here) newest)
                    (supersede_all-not_active workspace_id name skills),
                supersede_all-IsHistory workspace_id name skills history,
              )
      ]

  publish_existing-same :
      (d : SkillDefinition) (skills skills' : List Skill) (t s : Skill)
      → publish_existing h d skills t ≡ ok (s, skills')
      → (s ≡ t) × (skills' ≡ skills) × (hash_existing_skill h t ≡ ok (h.content_hash d))
  publish_existing-same d skills skills' t s e =
      let (hash, hashed, after) = >>=-eq-ok (hash_existing_skill h t) _ e in
      let (same, done) = guarded-ok (hash == h.content_hash d) _ _ after in
      let pair = ok-injective _ _ done in
      (
        ap (λ p. p.0) (sym pair),
        ap (λ p. p.1) (sym pair),
        hashed ∙ ap ok ((string_eq.beq_iff hash (h.content_hash d)).0 same),
      )

  -- What a call that publishes a definition returns: the stored version, if it has the same content,
  -- or a new row.
  pub publish_skill_definition-cases :
      (id now workspace_id : ℕ) (d : SkillDefinition) (approved_by : Option ℕ)
      (skills skills' : List Skill) (s : Skill)
      → publish_skill_definition h id now workspace_id d approved_by skills ≡ ok (s, skills')
      → ((get_skill_by_name_version workspace_id d.name d.version skills ≡ some s)
          × (skills' ≡ skills)
          × (hash_existing_skill h s ≡ ok (h.content_hash d)))
        ⊎ (publish_new h id now workspace_id d approved_by skills ≡ ok (s, skills'))
  unfolding publish_skill_definition
  publish_skill_definition-cases id now workspace_id d approved_by skills skills' s e =
      elim (Option-cases (get_skill_by_name_version workspace_id d.name d.version skills)) [
        | inl f ↦ inr (rw f at e)
        | inr (t, f) ↦
            let (same, kept, hashed) = publish_existing-same d skills skills' t s (rw f at e) in
            inl (rw same f, kept, rw same hashed)
      ]

  pub publish_skill_definition-IsHistory :
      (id now workspace_id : ℕ) (d : SkillDefinition) (approved_by : Option ℕ)
      (skills skills' : List Skill) (s : Skill)
      → publish_skill_definition h id now workspace_id d approved_by skills ≡ ok (s, skills')
      → IsHistory skills
      → IsHistory skills'
  publish_skill_definition-IsHistory id now workspace_id d approved_by skills skills' s e history =
      elim (publish_skill_definition-cases id now workspace_id d approved_by skills skills' s e) [
        | inl (found, same, hashed) ↦ rw same history
        | inr new ↦
            publish_new-IsHistory id now workspace_id d approved_by skills skills' s new history
      ]
