-- ===== src/Patch/Editor/Backup.antt =====
-- The files of a patch, and the backup that an edit makes.
use Prim.Native.String.{count}
use text.Mathlib.TextLemmas.{length-append, append_cancel_left}
use agent_sam.Prelude.{
  String, true, false, Option, none, some, ◌≡◌, ◌≢◌, ◌⊎◌, ◌<>◌, refl, ap, subst, ◌==◌, nat_eq,
  string_eq, Bool-cases, Option-cases, inl, inr, arith, ok, ok-injective, option_eq,
}
use agent_sam.Patch.Editor.{
  Files, EditorHost, Keys, put, diff_path, metadata_path, backup_path, resolve_inside, back_up,
  create_backup, roll_back_to, copy_backup,
}

pub put-same :
    (p : String) (content : Option String) (files : Files) → put p content files p ≡ content
put-same p content files = ground (arith, string_eq.beq_iff p p)

pub put-other :
    (p q : String) (content : Option String) (files : Files)
    → q ≢ p
    → put p content files q ≡ files q
put-other p q content files n = ground (arith, string_eq.beq_iff q p)

module _ (h : EditorHost) where
  pub metadata-diff : (patch_id : String) → metadata_path h patch_id ≢ diff_path h patch_id
  metadata-diff patch_id e =
      let one = append_cancel_left h.patches_dir _ _ e in
      let two = append_cancel_left "/" (patch_id <> ".json") (patch_id <> ".diff") one in
      let same = append_cancel_left patch_id ".json" ".diff" two in
      let bad : false ≡ true = (string_eq.beq_iff ".json" ".diff").1 same in cc

  pub backup-not_empty : (i resolved : String) → (backup_path h i resolved == "") ≡ false
  backup-not_empty i resolved = elim (Bool-cases (backup_path h i resolved == "")) [
    | inr e ↦ e
    | inl e ↦
        let is_empty = (string_eq.beq_iff (backup_path h i resolved) "").0 e in
        let no_length : count (backup_path h i resolved) ≡ 0 = ap count is_empty in
        let rest = i <> ("_" <> (h.name_of resolved <> ".bak")) in
        let more = length-append h.patches_dir ("/backups/" <> rest) in
        let nine = length-append "/backups/" rest in absurd (omega (arith, no_length, more, nine))
  ]

  pub resolve_inside-inside :
      (path resolved : String) → resolve_inside h path ≡ ok resolved → (h.is_inside resolved ≡ true)
  unfolding resolve_inside
  resolve_inside-inside path resolved e = elim (Bool-cases (h.is_inside (h.resolve_path path))) [
    | inl f ↦
        let same : ok (h.resolve_path path) ≡ ok resolved = rw f at e in
        subst (λ p. h.is_inside p ≡ true) (ok-injective _ _ same) f
    | inr f ↦ let bad = rw f at e in cc
  ]

  -- The backup holds what the file held, or there was no file.
  abbrev pub IsSaved : Keys → String → Files → Option String → Files → Type 0
  IsSaved keys resolved files backup saved =
      ((q : String) → q ≢ backup_path h keys.backup_id resolved → saved q ≡ files q)
      × (((backup ≡ none) × (files resolved ≡ none))
          ⊎ ((text : String) × (backup ≡ some (backup_path h keys.backup_id resolved))
              × (saved (backup_path h keys.backup_id resolved) ≡ some text)
              × (files resolved ≡ some text)))

  pub back_up-IsSaved :
      (keys : Keys) (path resolved : String) (files : Files)
      → resolve_inside h path ≡ ok resolved
      → (backup : Option String) × (saved : Files) × (back_up h keys path resolved false files
          ≡ ok (backup, saved))
        × IsSaved keys resolved files backup saved
  unfolding create_backup
  back_up-IsSaved keys path resolved files inside = elim (Option-cases (files resolved)) [
    | inl e ↦ (none, files, rw e refl, ((λ q n. refl), inl (refl, e)))
    | inr (text, e) ↦
        let place = backup_path h keys.backup_id resolved in
        (
          some place,
          put place (some text) files,
          rw (e, inside) (ap (λ o. ok (copy_backup h place files o)) e),
          (
            (λ q n. put-other place q (some text) files n),
            inr (text, refl, put-same place (some text) files, e),
          ),
        )
  ]

  pub roll_back_to-backup :
      (backup target text : String) (files : Files)
      → (backup == "") ≡ false
      → files backup ≡ some text
      → roll_back_to h (some backup) target files ≡ ok (target, put target (some text) files)
  roll_back_to-backup backup target text files e f = rw (e, f) refl
