-- ===== src/Patch.antt =====
-- harness/file_editor.py: `_apply_unified_diff`, which applies a unified diff to a text. The match of
-- HUNK_RE on a hunk's header is an argument: the first number of a header, if it is one.
pub mod Roundtrip
pub mod Lines
pub mod Editor
mod Tests
use Prim.Native.Char.{code}
use agent_sam.Prelude.{
  ℕ, zero, suc, ◌-◌, ◌+◌, String, ◌<>◌, Bool, true, false, not, ◌&&◌, ◌||◌, Option, none, some,
  List, [], ◌∷◌, ◌++◌, drop, if◌then◌else◌, ◌==◌, nat_eq, string_eq, leb, starts_with, join,
  Outcome, ok, raise, Exception, file_patch_error, index_error, ◌>>=◌,
}

-- The source lines still ahead, their index, and the lines written so far.
pub record Progress : Type 0 where
  pub source_index : ℕ
  pub ahead : List String
  pub result : List String

-- `while source_index < start_old: ...`, on the number of lines to copy.
unfoldable pub copy_lines : ℕ → Progress → Outcome Progress
copy_lines zero p = ok p
copy_lines (suc n) p = elim p.ahead [
  | [] ↦ raise (index_error "list index out of range")
  | line ∷ rest ↦
      copy_lines n (record {
        source_index = suc p.source_index;
        ahead = rest;
        result = p.result ++ (line ∷ []);
      })
]

abbrev context : Progress → Outcome Progress
context p = elim p.ahead [
  | [] ↦ raise (file_patch_error "Unified diff context exceeds source length.")
  | line ∷ rest ↦
      ok (record {
        source_index = suc p.source_index;
        ahead = rest;
        result = p.result ++ (line ∷ []);
      })
]

abbrev pub skip_line : Progress → Progress
skip_line p = record p { source_index = suc p.source_index; ahead = drop 1 p.ahead }

-- A line of a hunk, by its first character.
unfoldable pub apply_line : String → Progress → Outcome Progress
apply_line String.[] p = context p
apply_line (String.◌∷◌ c value) p =
    if code c == 32
    then context p
    else if code c == 45
    then ok (skip_line p)
    else if code c == 43
    then ok (record p { result = p.result ++ (value ∷ []) })
    else if code c == 92
    then ok p
    else raise (file_patch_error "Unsupported diff line.")

abbrev starts_at : String → Bool
starts_at String.[] = false
starts_at (String.◌∷◌ c rest) = code c == 64

-- `line.startswith("@@")`
abbrev pub is_header : String → Bool
is_header String.[] = false
is_header (String.◌∷◌ c rest) = code c == 64 && starts_at rest

unfoldable pub skip_preamble : List String → List String
skip_preamble [] = []
skip_preamble (line ∷ lines) =
    let rest = skip_preamble lines in if is_header line then line ∷ lines else rest

module _ (hunk_start : String → Option ℕ) where
  abbrev pub enter_hunk : Option ℕ → Progress → Outcome Progress
  enter_hunk none p = raise (file_patch_error "Invalid unified diff hunk header.")
  enter_hunk (some start) p = copy_lines (start - 1 - p.source_index) p

  -- The two loops, on the lines of the diff from the first header on.
  unfoldable pub apply_lines : List String → Progress → Outcome (List String)
  unfolding copy_lines apply_line
  apply_lines [] p = ok (p.result ++ p.ahead)
  apply_lines (line ∷ lines) p =
      (if is_header line then enter_hunk (hunk_start line) p else apply_line line p) >>= λ p'.
      apply_lines lines p'

  unfoldable pub apply_diff : List String → List String → Outcome (List String)
  unfolding skip_preamble apply_lines
  apply_diff source_lines diff_lines =
      apply_lines (skip_preamble diff_lines)
        (record { source_index = 0; ahead = source_lines; result = [] })
