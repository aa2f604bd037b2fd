-- ===== src/Patch/Editor.antt =====
-- harness/file_editor.py: `FileEditor`, on all files by their resolved paths, those of the patches
-- and the backups included. The resolution of a path, the text of a difference (difflib), the JSON
-- text of a patch record and the new keys (uuid4) are arguments. Directories are left out.
pub mod Backup
pub mod Rollback
use agent_sam.Prelude.{
  ℕ, String, ◌<>◌, Bool, true, false, not, ◌&&◌, ◌||◌, Option, none, some, List, [], ◌∷◌, find,
  if◌then◌else◌, ◌==◌, nat_eq, string_eq, is_some, starts_with, strip, drop_chars, join, Outcome,
  ok, raise, Exception, file_patch_error, workspace_boundary_error, file_not_found_error, ◌>>=◌,
  option_eq, ◌>>◌,
}
use agent_sam.Patch.{apply_diff}
use agent_sam.Patch.Lines.{split_lines, finish_text, extract_target_path}

-- The fields of a patch's JSON file.
pub record PatchRecord : Type 0 where
  pub path : String
  pub backup_path : Option String
  pub diff_path : String

abbrev pub Files : Type 0
Files = String → Option String

pub record EditorHost : Type 0 where
  pub patches_dir : String
  pub resolve_path : String → String
  pub is_inside : String → Bool
  -- `path.name`
  pub name_of : String → String
  pub hunk_start : String → Option ℕ
  pub generate_diff : (old new path : String) → String
  -- `json.dumps` and `json.loads`
  pub dumps : PatchRecord → String
  pub loads : String → Outcome PatchRecord

-- The new keys of a call: of the patch, and of the backup.
pub record Keys : Type 0 where
  pub patch_id : String
  pub backup_id : String

pub record EditResult : Type 0 where
  pub path : String
  pub patch_id : String
  pub diff : String
  pub changed : Bool

abbrev pub text_of : Option String → String
text_of none = ""
text_of (some t) = t

abbrev pub put : String → Option String → Files → Files
put path content files p = if p == path then content else files p

module _ (h : EditorHost) where
  abbrev pub diff_path : String → String
  diff_path patch_id = h.patches_dir <> ("/" <> (patch_id <> ".diff"))

  abbrev pub metadata_path : String → String
  metadata_path patch_id = h.patches_dir <> ("/" <> (patch_id <> ".json"))

  abbrev pub backup_path : String → String → String
  backup_path backup_id resolved =
      h.patches_dir <> ("/backups/" <> (backup_id <> ("_" <> (h.name_of resolved <> ".bak"))))

  -- `_resolve`
  unfoldable pub resolve_inside : String → Outcome String
  resolve_inside path =
      if h.is_inside (h.resolve_path path)
      then ok (h.resolve_path path)
      else raise (workspace_boundary_error "Path is outside the workspace root.")

  abbrev pub apply_unified_diff : String → String → Outcome String
  apply_unified_diff original diff =
      apply_diff h.hunk_start (split_lines original) (split_lines diff) >>= λ lines.
      ok (finish_text original diff (join "\n" lines))

  abbrev pub copy_backup : String → Files → Option String → Option String × Files
  copy_backup place files none = (none, files)
  copy_backup place files (some text) = (some place, put place (some text) files)

  unfoldable pub create_backup : String → String → Files → Outcome (Option String × Files)
  unfolding resolve_inside
  create_backup backup_id path files = resolve_inside path >>= λ resolved.
      ok (copy_backup (backup_path backup_id resolved) files (files resolved))

  -- `_store_patch_record`
  unfoldable pub store_patch_record : String → String → String → Option String → Files → Files
  store_patch_record patch_id path diff backup files =
      put (metadata_path patch_id)
        (some
          (h.dumps (record { path = path; backup_path = backup; diff_path = diff_path patch_id })))
        (put (diff_path patch_id) (some diff) files)

  -- `self.create_backup(path) if resolved.exists() and not dry_run else None`
  abbrev pub back_up : Keys → String → String → Bool → Files → Outcome (Option String × Files)
  back_up keys path resolved dry_run files =
      if is_some (files resolved) && not dry_run
      then create_backup keys.backup_id path files
      else ok (none, files)

  abbrev pub edit_result : Keys → String → String → String → Files → EditResult
  edit_result keys resolved diff content files = record {
    path = resolved;
    patch_id = keys.patch_id;
    diff = diff;
    changed = not (text_of (files resolved) == content);
  }

  -- The backup, the text and the record, which a dry run leaves out.
  abbrev pub store_edit :
      Keys → String → String → String → String → Bool → Files → Outcome (EditResult × Files)
  store_edit keys path resolved diff content dry_run files =
      back_up keys path resolved dry_run files >>= λ (backup, saved). ok (
        edit_result keys resolved diff content files,
        if dry_run
            then saved
            else store_patch_record keys.patch_id path diff backup
                (put resolved (some content) saved),
      )

  unfoldable pub write_file : Keys → String → String → Bool → Files → Outcome (EditResult × Files)
  unfolding resolve_inside create_backup store_patch_record
  write_file keys path content dry_run files = resolve_inside path >>= λ resolved.
      store_edit keys path resolved (h.generate_diff (text_of (files resolved)) content path)
        content dry_run files

  abbrev pub patch_resolved :
      Keys → String → Bool → Files → String → String → Outcome (EditResult × Files)
  patch_resolved keys diff dry_run files path resolved =
      apply_unified_diff (text_of (files resolved)) diff >>= λ content.
      store_edit keys path resolved diff content dry_run files

  unfoldable pub apply_patch : Keys → String → Bool → Files → Outcome (EditResult × Files)
  unfolding resolve_inside extract_target_path create_backup store_patch_record
  apply_patch keys diff dry_run files = extract_target_path diff >>= λ path.
      resolve_inside path >>= λ resolved. patch_resolved keys diff dry_run files path resolved

  -- `shutil.copy2(backup_path, target_path)`
  abbrev pub restore : String → Files → Option String → Outcome (String × Files)
  restore target files none = raise (file_not_found_error "No such file.")
  restore target files (some text) = ok (target, put target (some text) files)

  -- Without a backup the file is removed.
  abbrev pub roll_back_to : Option String → String → Files → Outcome (String × Files)
  roll_back_to none target files = ok (target, put target none files)
  roll_back_to (some backup) target files =
      if backup == ""
      then ok (target, put target none files)
      else restore target files (files backup)

  abbrev pub roll_back : Files → Option String → Outcome (String × Files)
  roll_back files none = raise (file_not_found_error "Patch record does not exist.")
  roll_back files (some text) = h.loads text >>= λ metadata.
      resolve_inside metadata.path >>= λ target. roll_back_to metadata.backup_path target files

  unfoldable pub rollback_patch : String → Files → Outcome (String × Files)
  unfolding resolve_inside
  rollback_patch patch_id files = roll_back files (files (metadata_path patch_id))
