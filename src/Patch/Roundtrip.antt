-- ===== src/Patch/Roundtrip.antt =====
-- Edits of a text, the diff that is printed from them, and its application.
use Prim.Native.Char.{char}
use agent_sam.Prelude.{
  ℕ, suc, ◌+◌, ◌-◌, String, true, false, Option, some, List, [], ◌∷◌, ◌++◌, append_assoc,
  append-nil, length, length-append, ◌≡◌, refl, sym, ap, ◌∙◌, All, ok, arith, subst, nat_eq,
  string_eq, option_eq,
}
use agent_sam.Patch.{
  Progress, copy_lines, apply_line, is_header, skip_preamble, apply_lines, apply_diff,
}

-- A line of a hunk: kept, removed or added.
pub data Edit : Type 0 where
  keep remove add : String → Edit

-- A text and its new version: stretches that the diff does not show, and hunks with their headers.
pub data Segment : Type 0 where
  gap : List String → Segment
  hunk : (header : String) → List Edit → Segment

abbrev pub old_lines : List Edit → List String
old_lines [] = []
old_lines (keep s ∷ es) = s ∷ old_lines es
old_lines (remove s ∷ es) = s ∷ old_lines es
old_lines (add s ∷ es) = old_lines es

abbrev pub new_lines : List Edit → List String
new_lines [] = []
new_lines (keep s ∷ es) = s ∷ new_lines es
new_lines (remove s ∷ es) = new_lines es
new_lines (add s ∷ es) = s ∷ new_lines es

abbrev pub print_edits : List Edit → List String → List String
print_edits [] more = more
print_edits (keep s ∷ es) more = String.◌∷◌ (char 32 tt) s ∷ print_edits es more
print_edits (remove s ∷ es) more = String.◌∷◌ (char 45 tt) s ∷ print_edits es more
print_edits (add s ∷ es) more = String.◌∷◌ (char 43 tt) s ∷ print_edits es more

abbrev pub old_text : List Segment → List String
old_text [] = []
old_text (gap ls ∷ segments) = ls ++ old_text segments
old_text (hunk h es ∷ segments) = old_lines es ++ old_text segments

abbrev pub new_text : List Segment → List String
new_text [] = []
new_text (gap ls ∷ segments) = ls ++ new_text segments
new_text (hunk h es ∷ segments) = new_lines es ++ new_text segments

abbrev pub print_diff : List Segment → List String
print_diff [] = []
print_diff (gap ls ∷ segments) = print_diff segments
print_diff (hunk h es ∷ segments) = h ∷ print_edits es (print_diff segments)

module _ (hunk_start : String → Option ℕ) where
  -- Every header is one, and tells the number of the line at which its hunk begins.
  abbrev pub IsNumbered : ℕ → List Segment → Type 0
  IsNumbered i [] = Unit
  IsNumbered i (gap ls ∷ segments) = IsNumbered (i + length ls) segments
  IsNumbered i (hunk h es ∷ segments) =
      (is_header h ≡ true)
      × (hunk_start h ≡ some (suc i))
      × IsNumbered (i + length (old_lines es)) segments

  same_progress :
      (i j : ℕ) (ahead r t : List String)
      → i ≡ j
      → r ≡ t
      → ◌≡◌ {A = Progress}
          (record { source_index = i; ahead = ahead; result = r })
          (record { source_index = j; ahead = ahead; result = t })
  same_progress i j ahead r t e f = rw (e, f) refl

  copy_lines-gap :
      (ls rest done : List String) (i : ℕ)
      → copy_lines (length ls) (record { source_index = i; ahead = ls ++ rest; result = done })
        ≡ ok (record { source_index = i + length ls; ahead = rest; result = done ++ ls })
  unfolding copy_lines
  copy_lines-gap [] rest done i =
      ap ok (same_progress i (i + 0) rest done (done ++ []) (omega arith) (sym (append-nil done)))
  copy_lines-gap (l ∷ ls) rest done i =
      copy_lines-gap ls rest (done ++ (l ∷ [])) (suc i)
      ∙ ap ok (
          same_progress (suc i + length ls) (i + suc (length ls)) rest _ _ (omega arith)
            (append_assoc done (l ∷ []) ls))

  moved :
      (lines : List String) (i j : ℕ) (ahead r t : List String)
      → i ≡ j
      → r ≡ t
      → apply_lines hunk_start lines (record { source_index = i; ahead = ahead; result = r })
        ≡ apply_lines hunk_start lines (record { source_index = j; ahead = ahead; result = t })
  moved lines i j ahead r t e f =
      ap (λ p. apply_lines hunk_start lines p) (same_progress i j ahead r t e f)

  apply_lines-edits :
      (es : List Edit) (more rest done : List String) (i : ℕ)
      → apply_lines hunk_start
          (print_edits es more)
          (record { source_index = i; ahead = old_lines es ++ rest; result = done })
        ≡ apply_lines hunk_start more (record {
          source_index = i + length (old_lines es);
          ahead = rest;
          result = done ++ new_lines es;
        })
  unfolding apply_lines apply_line
  apply_lines-edits [] more rest done i =
      moved more i (i + 0) rest done (done ++ []) (omega arith) (sym (append-nil done))
  apply_lines-edits (keep s ∷ es) more rest done i =
      apply_lines-edits es more rest (done ++ (s ∷ [])) (suc i)
      ∙ moved more (suc i + length (old_lines es)) (i + suc (length (old_lines es))) rest _ _
          (omega arith) (append_assoc done (s ∷ []) (new_lines es))
  apply_lines-edits (remove s ∷ es) more rest done i =
      apply_lines-edits es more rest done (suc i)
      ∙ moved more (suc i + length (old_lines es)) (i + suc (length (old_lines es))) rest _ _
          (omega arith) refl
  apply_lines-edits (add s ∷ es) more rest done i =
      apply_lines-edits es more rest (done ++ (s ∷ [])) i
      ∙ moved more _ _ rest _ _ refl (append_assoc done (s ∷ []) (new_lines es))

  -- `ahead` are lines of the source that the next header copies, or the end of the diff.
  apply_lines-segments :
      (segments : List Segment) (pending done : List String) (i : ℕ)
      → IsNumbered (i + length pending) segments
      → apply_lines hunk_start
          (print_diff segments)
          (record { source_index = i; ahead = pending ++ old_text segments; result = done })
        ≡ ok (done ++ (pending ++ new_text segments))
  unfolding apply_lines
  apply_lines-segments [] pending done i n = refl
  apply_lines-segments (gap ls ∷ segments) pending done i n =
      let here : i + length pending + length ls ≡ i + length (pending ++ ls) =
        omega (arith, length-append pending ls) in
      let rest =
        apply_lines-segments segments (pending ++ ls) done i
          (subst (λ k. IsNumbered k segments) here n) in
      rw (append_assoc pending ls (old_text segments), append_assoc pending ls (new_text segments))
        at rest
  apply_lines-segments (hunk h es ∷ segments) pending done i (header, numbered, n) =
      let later = old_text segments in
      let copied : suc (i + length pending) - 1 - i ≡ length pending = omega arith in
      let here = i + length pending + length (old_lines es) in
      let rest =
        apply_lines-segments segments [] ((done ++ pending) ++ new_lines es) here
          (subst (λ k. IsNumbered k segments) (omega arith) n) in
      rw (header, numbered, copied, copy_lines-gap pending (old_lines es ++ later) done i)
        (apply_lines-edits es (print_diff segments) later (done ++ pending) (i + length pending)
          ∙ rest
          ∙ ap ok (
              append_assoc (done ++ pending) (new_lines es) (new_text segments)
              ∙ append_assoc done pending (new_lines es ++ new_text segments)))

  skip_preamble-skips :
      (preamble lines : List String)
      → All (λ l. is_header l ≡ false) preamble
      → skip_preamble (preamble ++ lines) ≡ skip_preamble lines
  unfolding skip_preamble
  skip_preamble-skips [] lines none_is = refl
  skip_preamble-skips (l ∷ preamble) lines (first, others) =
      rw first (skip_preamble-skips preamble lines others)

  skip_preamble-diff :
      (segments : List Segment) (i : ℕ)
      → IsNumbered i segments
      → skip_preamble (print_diff segments) ≡ print_diff segments
  unfolding skip_preamble
  skip_preamble-diff [] i n = refl
  skip_preamble-diff (gap ls ∷ segments) i n = skip_preamble-diff segments (i + length ls) n
  skip_preamble-diff (hunk h es ∷ segments) i (header, numbered, n) = rw header refl

  -- A diff whose hunks carry the numbers of the lines at which they begin, after any lines that are
  -- no headers, turns the old lines of the text into the new ones: stretches that it does not show
  -- and lines that it keeps stay, removed lines go and added lines come, each in its place.
  pub apply_diff-print_diff :
      (preamble : List String) (segments : List Segment)
      → All (λ l. is_header l ≡ false) preamble
      → IsNumbered 0 segments
      → apply_diff hunk_start (old_text segments) (preamble ++ print_diff segments)
        ≡ ok (new_text segments)
  unfolding apply_diff
  apply_diff-print_diff preamble segments clean n =
      rw (skip_preamble-skips preamble (print_diff segments) clean, skip_preamble-diff segments 0 n)
        (apply_lines-segments segments [] [] 0 n)
