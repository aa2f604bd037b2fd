-- ===== src/Skills/Sync.antt =====
-- db/skill_service.py: `load_skill_definitions` and `sync_skills_from_directory`. The files of the
-- directory are an argument, in the order of their paths.
pub mod Turn
use agent_sam.Prelude.{
  ℕ, String, Bool, true, false, ◌&&◌, Option, none, some, List, [], ◌∷◌, ◌++◌, any, map,
  if◌then◌else◌, ◌==◌, nat_eq, string_eq, Exception, Outcome, ok, raise, value_error, ◌>>=◌, ◌>>◌,
}
use agent_sam.Skills.Definition.{SkillDefinition}
use agent_sam.Skills.Catalog.{
  Skill, SkillHost, is_outdated, get_latest_skill, get_skill_by_name_version, hash_existing_skill,
  publish_skill_definition,
}
use agent_sam.Skills.Proposals.{create_skill_proposal_record}
use agent_sam.Skills.Store.{Request, SkillStore, SkillProposal, get_pending_proposal}

-- `skill_path.name` and the text of the file.
pub record SkillFile : Type 0 where
  pub name : String
  pub raw_yaml : String

-- The labels of what a synchronisation did; a label is the name and the version.
pub record SkillSyncResult : Type 0 where
  pub created : List (String × ℕ)
  pub proposed : List (String × ℕ)
  pub unchanged : List (String × ℕ)

-- What a synchronisation takes: the workspace and its user, the clock, and keys for the rows that
-- a definition's turn writes.
pub record SyncRequest : Type 0 where
  pub workspace_id : ℕ
  pub requested_by_user_id : Option ℕ
  pub now : ℕ
  pub skill_id : SkillDefinition → ℕ
  pub proposal_id : SkillDefinition → ℕ
  pub approval_id : SkillDefinition → ℕ

abbrev pub label : SkillDefinition → String × ℕ
label d = (d.name, d.version)

abbrev pub same_label : SkillDefinition → SkillDefinition → Bool
same_label d e = d.name == e.name && d.version == e.version

-- The reason of a proposal that a file makes.
abbrev pub proposal_reason : SkillDefinition → Option String
proposal_reason d = some "Skill file proposes a new version."

abbrev pub proposal_request : SyncRequest → SkillDefinition → Request
proposal_request r d = record {
  proposal_id = r.proposal_id d;
  approval_id = r.approval_id d;
  workspace_id = r.workspace_id;
  requested_by_user_id = r.requested_by_user_id;
  reason = proposal_reason d;
}

abbrev pub add_created : SkillDefinition → SkillSyncResult → SkillSyncResult
add_created d result = record result { created = result.created ++ (label d ∷ []) }

abbrev pub add_proposed : SkillDefinition → SkillSyncResult → SkillSyncResult
add_proposed d result = record result { proposed = result.proposed ++ (label d ∷ []) }

abbrev pub add_unchanged : SkillDefinition → SkillSyncResult → SkillSyncResult
add_unchanged d result = record result { unchanged = result.unchanged ++ (label d ∷ []) }

module _ (h : SkillHost) where
  -- The loop of `load_skill_definitions`, after the definitions `seen`.
  unfoldable pub load_files : List SkillDefinition → List SkillFile → Outcome (List SkillDefinition)
  load_files seen [] = ok []
  load_files seen (f ∷ files) = h.parse f.raw_yaml (some f.name) >>= λ d.
      elim (any (same_label d) seen) [
        | true ↦ raise (value_error "Duplicate skill definition detected.")
        | false ↦ load_files (d ∷ seen) files >>= λ later. ok (d ∷ later)
      ]

  -- A directory that does not exist holds no definitions.
  unfoldable pub load_skill_definitions : Option (List SkillFile) → Outcome (List SkillDefinition)
  unfolding load_files
  load_skill_definitions none = ok []
  load_skill_definitions (some files) = load_files [] files

  abbrev pub sync_pending :
      SyncRequest
      → SkillDefinition
      → SkillStore × SkillSyncResult
      → Option SkillProposal
      → Outcome (SkillStore × SkillSyncResult)
  sync_pending r d (s, result) (some pending) = ok (s, add_unchanged d result)
  sync_pending r d (s, result) none =
      create_skill_proposal_record h (proposal_request r d) d s >>= λ (_, after).
      ok (after, add_proposed d result)

  abbrev pub sync_new :
      SyncRequest
      → SkillDefinition
      → SkillStore × SkillSyncResult
      → Option Skill
      → Outcome (SkillStore × SkillSyncResult)
  sync_new r d (s, result) none =
      publish_skill_definition h (r.skill_id d) r.now r.workspace_id d r.requested_by_user_id
        s.skills
      >>= λ (_, skills). ok (record s { skills = skills }, add_created d result)
  sync_new r d (s, result) (some latest) =
      if is_outdated d.version (some latest)
      then raise (value_error "Skill version is not newer than the latest stored version.")
      else sync_pending r d (s, result) (get_pending_proposal r.workspace_id d (h.content_hash d) s)

  abbrev pub sync_found :
      SyncRequest
      → SkillDefinition
      → SkillStore × SkillSyncResult
      → Option Skill
      → Outcome (SkillStore × SkillSyncResult)
  sync_found r d (s, result) none =
      sync_new r d (s, result) (get_latest_skill r.workspace_id d.name s.skills)
  sync_found r d (s, result) (some skill) = hash_existing_skill h skill >>= λ hash.
      if hash == h.content_hash d
      then ok (s, add_unchanged d result)
      else raise (value_error "Skill already exists with different content.")

  -- One turn of the loop of `sync_skills_from_directory`.
  unfoldable pub sync_skill :
      SyncRequest
      → SkillDefinition
      → SkillStore × SkillSyncResult
      → Outcome (SkillStore × SkillSyncResult)
  unfolding publish_skill_definition get_latest_skill get_skill_by_name_version hash_existing_skill
      get_pending_proposal create_skill_proposal_record
  sync_skill r d (s, result) =
      sync_found r d (s, result)
        (get_skill_by_name_version r.workspace_id d.name d.version s.skills)

  unfoldable pub sync_each :
      SyncRequest
      → List SkillDefinition
      → SkillStore × SkillSyncResult
      → Outcome (SkillStore × SkillSyncResult)
  unfolding sync_skill
  sync_each r [] state = ok state
  sync_each r (d ∷ ds) state = sync_skill r d state >>= λ after. sync_each r ds after

  unfoldable pub sync_skills_from_directory :
      SyncRequest → Option (List SkillFile) → SkillStore → Outcome (SkillStore × SkillSyncResult)
  unfolding load_skill_definitions sync_each
  sync_skills_from_directory r files s = load_skill_definitions files >>= λ ds.
      sync_each r ds (s, record { created = []; proposed = []; unchanged = [] })
