-- ===== src/Patch/Editor/Rollback.antt =====
-- What an edit writes, and its rollback.
use agent_sam.Prelude.{
  String, true, false, Option, none, some, ◌≡◌, ◌≢◌, ◌⊎◌, refl, sym, ap, subst, ◌∙◌, nat_eq,
  string_eq, inl, inr, ok, Outcome, >>=-eq-ok, ok-injective, option_eq,
}
use agent_sam.Patch.Editor.Backup.{
  put-same, put-other, metadata-diff, backup-not_empty, resolve_inside-inside, IsSaved,
  back_up-IsSaved, roll_back_to-backup,
}
use agent_sam.Patch.Editor.{
  Files, PatchRecord, EditorHost, Keys, EditResult, put, text_of, diff_path, metadata_path,
  backup_path, resolve_inside, apply_unified_diff, store_patch_record, store_edit, edit_result,
  roll_back_to, extract_target_path, write_file, apply_patch, rollback_patch,
}

module _ (h : EditorHost) where
  -- The file is none of those that the edit writes for its patch, which are different files, so that
  -- the backup is not overwritten.
  abbrev pub IsApart : Keys → String → Type 0
  IsApart keys resolved =
      (resolved ≢ diff_path h keys.patch_id)
      × (resolved ≢ metadata_path h keys.patch_id)
      × (resolved ≢ backup_path h keys.backup_id resolved)
      × (backup_path h keys.backup_id resolved ≢ diff_path h keys.patch_id)
      × (backup_path h keys.backup_id resolved ≢ metadata_path h keys.patch_id)

  -- The edit stays inside the workspace and writes the text, its difference, and nothing but its own
  -- files. The rollback of its patch gives the file what it held before, and changes no other file:
  -- those of the patch remain.
  abbrev pub IsUndone : Keys → String → Files → EditResult → Files → Type 0
  IsUndone keys content files r files' =
      (h.is_inside r.path ≡ true)
      × (files' r.path ≡ some content)
      × (files' (diff_path h keys.patch_id) ≡ some r.diff)
      × ((q : String)
          → q ≢ r.path
          → q ≢ diff_path h keys.patch_id
          → q ≢ metadata_path h keys.patch_id
          → q ≢ backup_path h keys.backup_id r.path
          → files' q ≡ files q)
      × ((back : Files) × (rollback_patch h keys.patch_id files' ≡ ok (r.path, back))
          × (back r.path ≡ files r.path)
          × ((q : String) → q ≢ r.path → back q ≡ files' q))

  module _ (round_trip : (r : PatchRecord) → h.loads (h.dumps r) ≡ ok r) where
    rollback_patch-stored :
        (patch_id resolved : String) (r : PatchRecord) (files : Files)
        (out : Outcome (String × Files))
        → files (metadata_path h patch_id) ≡ some (h.dumps r)
        → resolve_inside h r.path ≡ ok resolved
        → roll_back_to h r.backup_path resolved files ≡ out
        → rollback_patch h patch_id files ≡ out
    unfolding rollback_patch
    rollback_patch-stored patch_id resolved r files out m inside e = rw (m, round_trip r, inside) e

    stored-IsUndone :
        (keys : Keys) (path resolved diff content : String) (files : Files) (backup : Option String)
        (saved : Files)
        → resolve_inside h path ≡ ok resolved
        → IsApart keys resolved
        → IsSaved h keys resolved files backup saved
        → IsUndone keys content files (edit_result h keys resolved diff content files) (
            store_patch_record h keys.patch_id path diff backup (put resolved (some content) saved))
    unfolding store_patch_record
    stored-IsUndone keys path resolved diff content files backup saved inside
          (not_diff, not_meta, not_backup, kept_diff, kept_meta) (others, held) =
        let dp = diff_path h keys.patch_id in
        let mp = metadata_path h keys.patch_id in
        let bp = backup_path h keys.backup_id resolved in
        let row : PatchRecord = record { path = path; backup_path = backup; diff_path = dp } in
        let f1 = put resolved (some content) saved in
        let f2 = put dp (some diff) f1 in
        let f3 = put mp (some (h.dumps row)) f2 in
        let beside : (q : String) → q ≢ mp → q ≢ dp → q ≢ resolved → f3 q ≡ saved q = λ q a b c.
          put-other mp q _ f2 a ∙ put-other dp q _ f1 b ∙ put-other resolved q _ saved c in
        let meta : f3 mp ≡ some (h.dumps row) = put-same mp _ f2 in
        (
          resolve_inside-inside h path resolved inside,
          put-other mp resolved _ f2 not_meta
              ∙ put-other dp resolved _ f1 not_diff
              ∙ put-same resolved (some content) saved,
          put-other mp dp _ f2 (λ e. metadata-diff h keys.patch_id (sym e))
              ∙ put-same dp (some diff) f1,
          (λ q a b c d. beside q c b a ∙ others q d),
          elim held [
            | inl (no_backup, no_file) ↦ (
              put resolved none f3,
              rollback_patch-stored keys.patch_id resolved row f3 _ meta inside (rw no_backup refl),
              put-same resolved none f3 ∙ sym no_file,
              λ q n. put-other resolved q none f3 n,
            )
            | inr (text, is_backup, copy, file) ↦
                let kept : f3 bp ≡ some text =
                  beside bp kept_meta kept_diff (λ e. not_backup (sym e)) ∙ copy in
                (
                  put resolved (some text) f3,
                  rollback_patch-stored keys.patch_id resolved row f3 _ meta inside (
                      ap (λ b. roll_back_to h b resolved f3) is_backup
                      ∙ roll_back_to-backup h bp resolved text f3
                          (backup-not_empty h keys.backup_id resolved) kept),
                  put-same resolved (some text) f3 ∙ sym file,
                  λ q n. put-other resolved q (some text) f3 n,
                )
          ],
        )

    store_edit-IsUndone :
        (keys : Keys) (path resolved diff content : String) (files files' : Files) (r : EditResult)
        → resolve_inside h path ≡ ok resolved
        → store_edit h keys path resolved diff content false files ≡ ok (r, files')
        → IsApart keys r.path
        → IsUndone keys content files r files'
    store_edit-IsUndone keys path resolved diff content files files' r inside e =
        let (backup, saved, is_saved, held) = back_up-IsSaved h keys path resolved files inside in
        let done : ok (
          edit_result h keys resolved diff content files,
          store_patch_record h keys.patch_id path diff backup (put resolved (some content) saved),
        )
            ≡ ok (r, files') =
          rw is_saved at e in
        subst (λ out. IsApart keys out.0.path → IsUndone keys content files out.0 out.1)
          (ok-injective _ _ done)
          (λ apart.
            stored-IsUndone keys path resolved diff content files backup saved inside apart held)

    store_edit-path :
        (keys : Keys) (path resolved diff content : String) (files files' : Files) (r : EditResult)
        → resolve_inside h path ≡ ok resolved
        → store_edit h keys path resolved diff content false files ≡ ok (r, files')
        → resolved ≡ r.path
    store_edit-path keys path resolved diff content files files' r inside e =
        let (backup, saved, is_saved, _) = back_up-IsSaved h keys path resolved files inside in
        let done : ok (
          edit_result h keys resolved diff content files,
          store_patch_record h keys.patch_id path diff backup (put resolved (some content) saved),
        )
            ≡ ok (r, files') =
          rw is_saved at e in
        ap (λ out. out.0.path) (ok-injective _ _ done)

    -- A file that is written, or a patch that is applied, lies inside the workspace, and holds the
    -- text that is given or that the patch makes of it. Besides it the edit writes at most the files
    -- of its patch (the difference, the record and the backup), which stay. Rolling the patch back
    -- succeeds, gives the file the text that it had before or removes it if there was none, and
    -- changes no other file. The record is to be read back from its JSON text as it was, the edited
    -- file to be none of the patch's, and the backup to be another file than the two others.
    pub edit-IsUndone :
        (keys : Keys) (path content diff : String) (files files' : Files) (r : EditResult)
        → (write_file h keys path content false files ≡ ok (r, files'))
          ⊎ ((apply_patch h keys diff false files ≡ ok (r, files'))
              × (apply_unified_diff h (text_of (files r.path)) diff ≡ ok content))
        → IsApart keys r.path
        → IsUndone keys content files r files'
    unfolding write_file apply_patch
    edit-IsUndone keys path content diff files files' r (inl e) apart =
        let (resolved, inside, done) = >>=-eq-ok (resolve_inside h path) _ e in
        store_edit-IsUndone keys path resolved
          (h.generate_diff (text_of (files resolved)) content path) content files files' r inside
          done apart
    edit-IsUndone keys path content diff files files' r (inr (e, made)) apart =
        let (target, _, e1) = >>=-eq-ok (extract_target_path diff) _ e in
        let (resolved, inside, e2) = >>=-eq-ok (resolve_inside h target) _ e1 in
        let (text, applied, done) =
          >>=-eq-ok (apply_unified_diff h (text_of (files resolved)) diff) _ e2 in
        let undone : IsUndone keys text files r files' =
          store_edit-IsUndone keys target resolved diff text files files' r inside done apart in
        let same = store_edit-path keys target resolved diff text files files' r inside done in
        let twice : ok text ≡ ok content =
          sym applied ∙ ap (λ p. apply_unified_diff h (text_of (files p)) diff) same ∙ made in
        subst (λ t. IsUndone keys t files r files') (ok-injective _ _ twice) undone
