-- ===== src/Skills/Search/Ranking.antt =====
-- The results of a search.
use agent_sam.Prelude.{
  ℕ, ◌≤◌, String, Bool, true, false, ◌&&◌, List, map, order_by, length, ◌≡◌, ◌⊎◌, In, All,
  IsOrdered, ◌==◌, nat_eq, string_eq, ltb, option_eq,
}
use agent_sam.Skills.Yaml.{Value}
use agent_sam.Skills.Catalog.{Skill, is_active}
use agent_sam.Skills.Search.{SkillSearchResult, ranked_before, search_result, candidates}

module _ (str_of : Value → String) (workspace_id : ℕ) (query_text : String) (limit : ℕ)
    (skills : List Skill) where
  abbrev result : Skill → SkillSearchResult
  result = search_result str_of query_text

  abbrev is_candidate : Skill → Bool
  is_candidate s = s.workspace_id == workspace_id && is_active s

  -- What a search gives back: at most `limit` results, best first, for active skills of the
  -- workspace. Every skill that matches is among them, unless the results are full and all of them
  -- are at least as good. A skill that does not match is among them only if none does.
  pub record IsSearch (results : List SkillSearchResult) : Type 0 where
    pub short : length results ≤ limit
    pub ordered : IsOrdered ranked_before results
    pub sound :
        All (λ x. (s : Skill) × In s skills × (is_candidate s ≡ true) × (x ≡ result s)) results
    pub complete :
        (s : Skill)
        → In s skills
        → is_candidate s ≡ true
        → ltb 0 (result s).score ≡ true
        → In (result s) results
          ⊎ ((length results ≡ limit) × All (λ x. ranked_before x (result s) ≡ true) results)
    pub matching :
        All
          (λ x.
            (ltb 0 x.score ≡ true)
            ⊎ ((s : Skill) → In s skills → is_candidate s ≡ true → ltb 0 (result s).score ≡ false))
          results

  abbrev ranked : List SkillSearchResult
  ranked = order_by ranked_before (map result (candidates workspace_id skills))

  abbrev has_score : SkillSearchResult → Bool
  has_score x = ltb 0 x.score
