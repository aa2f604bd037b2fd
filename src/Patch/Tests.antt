-- ===== src/Patch/Tests.antt =====
-- A small diff, and the round trip at it.
use Prim.Native.Char.{code}
use Prim.Native.String.{char_at}
use agent_sam.Prelude.{
  ◌<>◌, ◌≢◌, sym, ◌∙◌, true, ℕ, String, Option, none, some, List, [], ◌∷◌, ◌++◌, ◌≡◌, refl, ok,
  raise, Outcome, false, not, inr, strip, drop_chars, join, if◌then◌else◌, ◌==◌, string_eq, nat_eq,
  option_eq,
}
use agent_sam.Patch.{copy_lines, apply_line, skip_preamble, apply_lines, apply_diff}
use agent_sam.Patch.Roundtrip.{
  Segment, gap, hunk, keep, remove, add, old_text, new_text, print_diff, apply_diff-print_diff,
}
use agent_sam.Patch.Lines.{split_lines, finish_text, extract_target_path}
use agent_sam.Patch.Editor.{
  Files, PatchRecord, EditorHost, Keys, EditResult, create_backup, store_patch_record,
  resolve_inside, write_file, apply_patch, rollback_patch,
}
use agent_sam.Patch.Editor.Rollback.{IsApart, IsUndone, edit-IsUndone}

abbrev first_number : String → Option ℕ
first_number header =
    if header == "@@ -2,2 +2,2 @@" then some 2 else if header == "@@ -5 +5 @@" then some 5 else none

abbrev segments : List Segment
segments =
    gap ("a" ∷ [])
    ∷ hunk "@@ -2,2 +2,2 @@" (keep "b" ∷ remove "c" ∷ add "C" ∷ [])
    ∷ gap ("d" ∷ [])
    ∷ hunk "@@ -5 +5 @@" (remove "e" ∷ add "E" ∷ [])
    ∷ gap ("f" ∷ [])
    ∷ []

abbrev preamble : List String
preamble = "--- a/x" ∷ "+++ b/x" ∷ []

program : Unit {0}
unfolding apply_diff apply_lines skip_preamble copy_lines apply_line
program = tt

patched :
    apply_diff first_number
      ("a" ∷ "b" ∷ "c" ∷ "d" ∷ "e" ∷ "f" ∷ [])
      (preamble ++ print_diff segments)
    ≡ ok ("a" ∷ "b" ∷ "C" ∷ "d" ∷ "E" ∷ "f" ∷ [])
unfolding program
patched = refl

-- The context of a hunk is not compared with the text, nor is a removed line.
stale_patch :
    apply_diff first_number
      ("a" ∷ "x" ∷ "y" ∷ "d" ∷ "z" ∷ "f" ∷ [])
      (preamble ++ print_diff segments)
    ≡ ok ("a" ∷ "x" ∷ "C" ∷ "d" ∷ "E" ∷ "f" ∷ [])
unfolding program
stale_patch = refl

apply_diff-print_diff_example :
    apply_diff first_number (old_text segments) (preamble ++ print_diff segments)
    ≡ ok (new_text segments)
apply_diff-print_diff_example =
    apply_diff-print_diff first_number preamble segments (refl, (refl, tt))
      ((refl, refl, (refl, refl, tt)))

-- A text of a record that is read back: each character of a part after an x, its end an e.
put_part : String → String → String
put_part String.[] rest = String.◌∷◌ (char_at "e" 0) rest
put_part (String.◌∷◌ c part) rest = String.◌∷◌ (char_at "x" 0) (String.◌∷◌ c (put_part part rest))

take_part : String → String × String
take_part String.[] = ("", "")
take_part (String.◌∷◌ mark String.[]) = ("", "")
take_part (String.◌∷◌ mark (String.◌∷◌ c s)) =
    let (part, rest) = take_part s in
    if code mark == 120 then (String.◌∷◌ c part, rest) else ("", String.◌∷◌ c s)

take_part-put_part : (part rest : String) → take_part (put_part part rest) ≡ (part, rest)
unfolding put_part take_part
take_part-put_part String.[] String.[] = refl
take_part-put_part String.[] (String.◌∷◌ c rest) = refl
take_part-put_part (String.◌∷◌ c part) rest = rw (take_part-put_part part rest) refl

-- The editor, on one file.
abbrev put_backup : Option String → String
put_backup none = ""
put_backup (some backup) = String.◌∷◌ (char_at "s" 0) backup

abbrev take_backup : String → Option String
take_backup String.[] = none
take_backup (String.◌∷◌ c backup) = some backup

abbrev dumped : PatchRecord → String
dumped r = put_part r.path (put_part r.diff_path (put_backup r.backup_path))

abbrev loaded : String → PatchRecord
loaded s =
    let (path, s1) = take_part s in
    let (diff_path, s2) = take_part s1 in
    record { path = path; backup_path = take_backup s2; diff_path = diff_path }

take_backup-put_backup : (b : Option String) → take_backup (put_backup b) ≡ b
take_backup-put_backup none = refl
take_backup-put_backup (some backup) = refl

abbrev host : EditorHost
host = record {
  patches_dir = "/w/patches";
  resolve_path = λ path. "/w/" <> path;
  is_inside = λ path. not (path == "/etc/passwd");
  name_of = λ path. "a";
  hunk_start = λ header. some 1;
  generate_diff = λ old new path. "diff";
  dumps = dumped;
  loads = λ s. ok (loaded s);
}

round_trip : (r : PatchRecord) → host.loads (host.dumps r) ≡ ok r
round_trip r =
    rw
      (
        take_part-put_part r.path (put_part r.diff_path (put_backup r.backup_path)),
        take_part-put_part r.diff_path (put_backup r.backup_path),
        take_backup-put_backup r.backup_path,
      )
      refl

abbrev workspace : Files
workspace p = if p == "/w/a" then some "x\ny" else none

abbrev keys : Keys
keys = record { patch_id = "p1"; backup_id = "b1" }

abbrev diff : String
diff = "--- a/a\n+++ b/a\n@@ -1,2 +1,2 @@\n x\n-y\n+z\n"

abbrev blank : EditResult × Files
blank = (record { path = ""; patch_id = ""; diff = ""; changed = false }, workspace)

abbrev outcome : Outcome (EditResult × Files) → EditResult × Files
outcome (ok pair) = pair
outcome (raise e) = blank

abbrev edited : EditResult × Files
edited = outcome (apply_patch host keys diff false workspace)

editing : Unit {0}
unfolding program split_lines finish_text extract_target_path strip drop_chars join resolve_inside
    create_backup store_patch_record write_file apply_patch rollback_patch put_part take_part
editing = tt

patched_text : edited.1 "/w/a" ≡ some "x\nz\n"
unfolding editing program
patched_text = refl

backup : edited.1 "/w/patches/backups/b1_a.bak" ≡ some "x\ny"
unfolding editing program
backup = refl

abbrev text_after : Outcome (String × Files) → Option String
text_after (ok (path, files)) = files path
text_after (raise e) = none

rolled_back : text_after (rollback_patch host "p1" edited.1) ≡ some "x\ny"
unfolding editing program
rolled_back = refl

-- The target of a diff without prefixes, as `generate_diff` makes it, loses a "b/" of its own.
target_of_plain_diff : extract_target_path "--- lib/a.py\n+++ lib/a.py\n" ≡ ok "lia.py"
unfolding editing
target_of_plain_diff = refl

differ : (s t : String) → (s == t) ≡ false → s ≢ t
differ s t e same = let bad : false ≡ true = sym e ∙ (string_eq.beq_iff s t).1 same in cc

apart : IsApart host keys "/w/a"
apart = (differ _ _ refl, differ _ _ refl, differ _ _ refl, differ _ _ refl, differ _ _ refl)

edit-IsUndone_example : IsUndone host keys "x\nz\n" workspace edited.0 edited.1
unfolding editing program
edit-IsUndone_example =
    edit-IsUndone host round_trip keys "a" "x\nz\n" diff workspace edited.1 edited.0
      (inr (refl, refl)) apart
