-- ===== src/Skills/Search.antt =====
-- db/skill_service.py: `search_relevant_skills` and its helpers. Scores are in tenths. The text of a
-- value that is not a text is an argument.
pub mod Ranking
use agent_sam.Prelude.{
  ℕ, zero, suc, ◌+◌, ◌*◌, String, ◌<>◌, Bool, true, false, not, ◌&&◌, ◌||◌, Option, none, some,
  List, [], ◌∷◌, ◌++◌, map, select, take, any, order_by, if◌then◌else◌, ◌==◌, nat_eq, string_eq,
  ltb, leb, text_leb, lower, is_in, spaced, words, common, join, strip, take_chars,
}
use agent_sam.Skills.Yaml.{
  Value, null, bool, int, float, text, other, seq, dict, Values, nil, cons, Pairs, end, pair,
}
use agent_sam.Skills.Definition.{SkillDefinition}
use agent_sam.Skills.Catalog.{Skill, is_active}

pub record SkillSearchResult : Type 0 where
  pub skill_id : ℕ
  pub name : String
  pub version : ℕ
  pub description : String
  pub excerpt : String
  pub source : Option String
  pub score : ℕ
  pub triggers : List String
  pub tools_allowed : List String

-- `sorted(..., key=(score, version, name), reverse=True)`
abbrev pub ranked_before : SkillSearchResult → SkillSearchResult → Bool
ranked_before x y =
    ltb y.score x.score
    || (x.score == y.score
        && (ltb y.version x.version || (x.version == y.version && text_leb y.name x.name)))

-- `ORDER BY version DESC, name ASC`
abbrev pub stored_before : Skill → Skill → Bool
stored_before s t =
    ltb t.definition.version s.definition.version
    || (s.definition.version == t.definition.version
        && text_leb s.definition.name t.definition.name)

-- The texts that are not empty.
abbrev pub filled : List String → List String
filled = select (λ s. not (s == ""))

abbrev pub candidates : ℕ → List Skill → List Skill
candidates workspace_id skills =
    order_by stored_before (select (λ s. s.workspace_id == workspace_id && is_active s) skills)

-- `matches = [...]`, and all results if there are none.
abbrev pub matches_or : List SkillSearchResult → List SkillSearchResult → List SkillSearchResult
matches_or [] ranked = ranked
matches_or (x ∷ matches) ranked = x ∷ matches

module _ (str_of : Value → String) where
  abbrev pub shown : Value → String
  shown (text s) = s
  shown v = str_of v

  abbrev pub shown_values : Pairs → List String
  shown_values end = []
  shown_values (pair key v rest) = shown v ∷ shown_values rest

  -- A step's part of an excerpt.
  abbrev pub fragments_of : Value → List String
  fragments_of (text s) = strip s ∷ []
  fragments_of (dict fields) = join " " (filled (map strip (shown_values fields))) ∷ []
  fragments_of _ = []

  abbrev pub all_fragments : List Value → List String
  all_fragments [] = []
  all_fragments (v ∷ rest) = fragments_of v ++ all_fragments rest

  unfoldable pub build_excerpt : String → List Value → String
  build_excerpt description procedure =
      strip
        (take_chars 800 (join " " (filled (strip description ∷ all_fragments (take 2 procedure)))))

  abbrev pub flat_texts : Value → List String
  flat_texts (text s) = s ∷ []
  flat_texts (dict fields) = shown_values fields
  flat_texts _ = []

  abbrev pub all_flat_texts : List Value → List String
  all_flat_texts [] = []
  all_flat_texts (v ∷ rest) = flat_texts v ++ all_flat_texts rest

  unfoldable pub flatten_json_text : List Value → String
  flatten_json_text items = join " " (all_flat_texts items)

  -- The sum of `_score_skill` for a query that has words.
  abbrev pub word_score : SkillDefinition → List String → ℕ
  word_score d query =
      common query (words (spaced d.name)) * 40
      + common query (words d.description) * 30
      + common query (words (flatten_json_text d.procedure)) * 25
      + common query (words (join " " d.failure_modes)) * 20
      + common query (words (join " " d.evaluation_checklist)) * 18
      + common query (words (join " " d.triggers)) * 15
      + common query (words (join " " d.tools_allowed)) * 12
      + common query (words (flatten_json_text d.inputs)) * 10

  abbrev pub phrase_score : SkillDefinition → String → ℕ
  phrase_score d raw_query =
      (if any (λ trigger. is_in (lower trigger) (lower raw_query)) d.triggers then 20 else 0)
      + (if is_in (spaced d.name) (lower raw_query) then 20 else 0)

  unfoldable pub score_skill : Skill → List String → String → ℕ
  unfolding flatten_json_text
  score_skill s [] raw_query = 0
  score_skill s (word ∷ query) raw_query =
      word_score s.definition (word ∷ query) + phrase_score s.definition raw_query

  unfoldable pub search_result : String → Skill → SkillSearchResult
  unfolding build_excerpt score_skill
  search_result query_text s = record {
    skill_id = s.id;
    name = s.definition.name;
    version = s.definition.version;
    description = s.definition.description;
    excerpt = build_excerpt s.definition.description s.definition.procedure;
    source = s.definition.source_path;
    score = score_skill s (words query_text) query_text;
    triggers = s.definition.triggers;
    tools_allowed = s.definition.tools_allowed;
  }

  unfoldable pub search_relevant_skills : ℕ → String → ℕ → List Skill → List SkillSearchResult
  unfolding search_result
  search_relevant_skills workspace_id query_text limit skills =
      let ranked =
        order_by ranked_before (map (search_result query_text) (candidates workspace_id skills)) in
      take limit (matches_or (select (λ x. ltb 0 x.score) ranked) ranked)
