-- ===== src/Patch/Lines.antt =====
-- harness/file_editor.py: the lines of a text, its end, and the target of a diff.
use Prim.Native.Char.{code}
use agent_sam.Prelude.{
  ℕ, String, ◌<>◌, Bool, false, not, ◌&&◌, ◌||◌, Option, none, some, List, [], ◌∷◌, if◌then◌else◌,
  ◌==◌, nat_eq, string_eq, starts_with, strip, drop_chars, Outcome, ok, raise, file_patch_error,
  option_eq,
}

is_break : ℕ → Bool
is_break c =
    c == 10
    || c == 11
    || c == 12
    || c == 13
    || c == 28
    || c == 29
    || c == 30
    || c == 133
    || c == 8232
    || c == 8233

-- `text.splitlines()`: the line that is being read, if any, and whether a carriage return came last.
split_lines_from : Option String → Bool → String → List String
unfolding is_break
split_lines_from none after_return String.[] = []
split_lines_from (some line) after_return String.[] = line ∷ []
split_lines_from line after_return (String.◌∷◌ c s) =
    let skipped = split_lines_from line false s in
    let broken = split_lines_from none (code c == 13) s in
    let more = split_lines_from (some (line_or_empty line <> String.◌∷◌ c String.[])) false s in
    if after_return && code c == 10
    then skipped
    else if is_break (code c)
    then line_or_empty line ∷ broken
    else more
  where
    line_or_empty : Option String → String
    line_or_empty none = ""
    line_or_empty (some l) = l

unfoldable pub split_lines : String → List String
unfolding split_lines_from
split_lines text = split_lines_from none false text

ends_with_newline : String → Bool
ends_with_newline String.[] = false
ends_with_newline (String.◌∷◌ c String.[]) = code c == 10
ends_with_newline (String.◌∷◌ c (String.◌∷◌ d s)) = ends_with_newline (String.◌∷◌ d s)

has_plus : String → Bool
has_plus String.[] = false
has_plus (String.◌∷◌ c s) = code c == 43 || has_plus s

unfoldable pub finish_text : String → String → String → String
unfolding ends_with_newline has_plus
finish_text original diff content =
    if (ends_with_newline original || has_plus diff)
      && (not (content == "") && not (ends_with_newline content))
    then content <> "\n"
    else content

-- `path.replace("b/", "", 1)`
without_b : String → String
without_b String.[] = String.[]
without_b (String.◌∷◌ c String.[]) = String.◌∷◌ c String.[]
without_b (String.◌∷◌ c (String.◌∷◌ d s)) =
    let rest = without_b (String.◌∷◌ d s) in
    if code c == 98 && code d == 47 then s else String.◌∷◌ c rest

target_in : List String → Outcome String
unfolding without_b
target_in [] = raise (file_patch_error "Unified diff does not contain a target path.")
target_in (line ∷ lines) =
    let later = target_in lines in
    if starts_with line "+++" then ok (without_b (strip (drop_chars 4 line))) else later

unfoldable pub extract_target_path : String → Outcome String
unfolding target_in split_lines strip drop_chars
extract_target_path diff = target_in (split_lines diff)
