-- ===== src/Skills/Catalog.antt =====
-- db/skill_service.py: the published skills and `_publish_skill_definition`. The hash of a
-- definition's content is an argument, and so are the reading of YAML, the clock and new keys. New
-- rows come first. A call that raises commits nothing.
pub mod History
pub mod Active
use agent_sam.Prelude.{
  ℕ, String, ◌<>◌, Bool, true, false, not, ◌&&◌, Option, none, some, List, [], ◌∷◌, find, select,
  update, head?, leb, ltb, if◌then◌else◌, ◌==◌, nat_eq, string_eq, order_by, Exception, Outcome, ok,
  raise, value_error, require, ◌>>=◌, ◌>>◌,
}
use agent_sam.Skills.Definition.{SkillDefinition}

-- A row of `skills`. The columns that hold the content are one definition.
pub record Skill : Type 0 where
  pub id : ℕ
  pub workspace_id : ℕ
  pub definition : SkillDefinition
  pub content_hash : Option String
  pub status : String
  pub approved_by_user_id : Option ℕ
  pub approved_at : Option ℕ

-- What the service takes from elsewhere: the reader of YAML texts and the hash of a definition.
pub record SkillHost : Type 0 where
  pub parse : String → Option String → Outcome SkillDefinition
  pub content_hash : SkillDefinition → String

-- The rows of one skill in one workspace.
abbrev pub is_skill : ℕ → String → Skill → Bool
is_skill workspace_id name s = s.workspace_id == workspace_id && s.definition.name == name

abbrev pub newer : Skill → Skill → Bool
newer s t = leb t.definition.version s.definition.version

-- `ORDER BY version DESC LIMIT 1`
unfoldable pub get_latest_skill : ℕ → String → List Skill → Option Skill
get_latest_skill workspace_id name skills =
    head? (order_by newer (select (is_skill workspace_id name) skills))

unfoldable pub get_skill_by_name_version : ℕ → String → ℕ → List Skill → Option Skill
get_skill_by_name_version workspace_id name version =
    find (λ s. is_skill workspace_id name s && s.definition.version == version)

-- `ORDER BY version ASC`
unfoldable pub get_skill_version_history : ℕ → String → List Skill → List Skill
get_skill_version_history workspace_id name skills =
    order_by (λ s t. newer t s) (select (is_skill workspace_id name) skills)

abbrev pub is_active : Skill → Bool
is_active s = s.status == "active"

abbrev pub supersede : Skill → Skill
supersede s = record s { status = "superseded" }

-- Every active version of the skill is superseded.
abbrev pub supersede_all : ℕ → String → List Skill → List Skill
supersede_all workspace_id name =
    update (λ s. is_skill workspace_id name s && is_active s) supersede

-- `latest_skill is not None and definition.version <= latest_skill.version`
abbrev pub is_outdated : ℕ → Option Skill → Bool
is_outdated version none = false
is_outdated version (some latest) = leb version latest.definition.version

module _ (h : SkillHost) where
  abbrev hash_or : Skill → Option String → Outcome String
  hash_or s none =
      h.parse s.definition.yaml_definition s.definition.source_path >>= λ d. ok (h.content_hash d)
  hash_or s (some hash) =
      if hash == ""
      then (h.parse s.definition.yaml_definition s.definition.source_path >>= λ d.
          ok (h.content_hash d))
      else ok hash

  unfoldable pub hash_existing_skill : Skill → Outcome String
  hash_existing_skill s = hash_or s s.content_hash

  unfoldable pub skill_row : ℕ → ℕ → ℕ → SkillDefinition → Option ℕ → Skill
  skill_row id now workspace_id d approved_by_user_id = record {
    id = id;
    workspace_id = workspace_id;
    definition = d;
    content_hash = some (h.content_hash d);
    status = "active";
    approved_by_user_id = approved_by_user_id;
    approved_at = some now;
  }

  abbrev pub publish_new :
      ℕ → ℕ → ℕ → SkillDefinition → Option ℕ → List Skill → Outcome (Skill × List Skill)
  publish_new id now workspace_id d approved_by_user_id skills =
      let s = skill_row id now workspace_id d approved_by_user_id in
      if is_outdated d.version (get_latest_skill workspace_id d.name skills)
      then raise (value_error "Skill must be newer than the latest version.")
      else ok (s, s ∷ supersede_all workspace_id d.name skills)

  abbrev pub publish_existing : SkillDefinition → List Skill → Skill → Outcome (Skill × List Skill)
  publish_existing d skills s = hash_existing_skill s >>= λ hash.
      if hash == h.content_hash d
      then ok (s, skills)
      else raise (value_error "Skill already exists with different content.")

  abbrev pub publish_found :
      ℕ
      → ℕ
      → ℕ
      → SkillDefinition
      → Option ℕ
      → List Skill
      → Option Skill
      → Outcome (Skill × List Skill)
  publish_found id now workspace_id d approved_by_user_id skills (some s) =
      publish_existing d skills s
  publish_found id now workspace_id d approved_by_user_id skills none =
      publish_new id now workspace_id d approved_by_user_id skills

  unfoldable pub publish_skill_definition :
      ℕ → ℕ → ℕ → SkillDefinition → Option ℕ → List Skill → Outcome (Skill × List Skill)
  unfolding hash_existing_skill get_skill_by_name_version get_latest_skill skill_row
  publish_skill_definition id now workspace_id d approved_by_user_id skills =
      publish_found id now workspace_id d approved_by_user_id skills
        (get_skill_by_name_version workspace_id d.name d.version skills)
