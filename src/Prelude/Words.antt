-- ===== src/Prelude/Words.antt =====
-- Lower case, search, order and words of texts. Letters are those of ASCII.
use Prim.Native.Nat.{ℕ, ◌+◌, ◌-◌, ◌≤◌}
use Prim.Native.Char.{Char, code, char}
use Prim.Native.String.{String, ◌++◌ as ◌<>◌, char_at}
use mathlib.Core.Path.{◌≡◌, refl}
use mathlib.Core.Bool.{Bool, true, false, not, ◌&&◌, ◌||◌}
use mathlib.Core.List.{List, [], ◌∷◌}
use native.Mathlib.Omega.{arith}
use agent_sam.Prelude.Tests.{◌==◌, nat_eq, string_eq, leb, ltb, if◌then◌else◌}
use agent_sam.Prelude.Lists.{contains, length}
use agent_sam.Prelude.Text.{char_count}

lower_char : Char → Char
lower_char c =
    if leb 65 (code c) && leb (code c) 90
    then char_at "abcdefghijklmnopqrstuvwxyz" (code c - 65)
    else c

-- `s.lower()`
unfoldable pub lower : String → String
unfolding lower_char
lower String.[] = String.[]
lower (String.◌∷◌ c s) = String.◌∷◌ (lower_char c) (lower s)

-- `s.startswith(t)`, with `t` first.
unfoldable pub is_prefix : String → String → Bool
is_prefix String.[] s = true
is_prefix (String.◌∷◌ n needle) String.[] = false
is_prefix (String.◌∷◌ n needle) (String.◌∷◌ c s) = code n == code c && is_prefix needle s

-- `needle in s`
unfoldable pub is_in : String → String → Bool
unfolding is_prefix
is_in needle String.[] = is_prefix needle String.[]
is_in needle (String.◌∷◌ c s) = is_prefix needle (String.◌∷◌ c s) || is_in needle s

-- `s.replace("_", " ")`
unfoldable pub spaced : String → String
spaced String.[] = String.[]
spaced (String.◌∷◌ c s) = String.◌∷◌ (if code c == 95 then char 32 tt else c) (spaced s)

-- `s.count(ch)`, with the character's code first.
unfoldable pub count_char : ℕ → String → ℕ
count_char n String.[] = 0
count_char n (String.◌∷◌ c s) = (if code c == n then 1 else 0) + count_char n s

-- `s.split(ch, maxsplit=1)[0]`, with the character's code first.
unfoldable pub before_char : ℕ → String → String
before_char n String.[] = String.[]
before_char n (String.◌∷◌ c s) = if code c == n then String.[] else String.◌∷◌ c (before_char n s)

-- The characters of `[a-z0-9_:-]`.
is_word_char : ℕ → Bool
is_word_char c =
    (leb 97 c && leb c 122) || ((leb 48 c && leb c 57) || (c == 95 || (c == 58 || c == 45)))

add_word : String → List String → List String
add_word word rest = if leb 3 (char_count word) then word ∷ rest else rest

-- The matches, and the one that is being read.
words_from : String → String → List String
unfolding is_word_char add_word char_count
words_from word String.[] = add_word word []
words_from word (String.◌∷◌ c s) =
    let over = words_from "" s in
    let more = words_from (word <> String.◌∷◌ c String.[]) s in
    if is_word_char (code c) then more else add_word word over

-- `re.findall(r"[a-z0-9_:-]{3,}", s.lower())`
unfoldable pub words : String → List String
unfolding words_from lower
words s = words_from "" (lower s)

-- `len(set(xs) & set(ys))`
abbrev pub common : List String → List String → ℕ
common [] ys = 0
common (x ∷ xs) ys = (if not (contains xs x) && contains ys x then 1 else 0) + common xs ys

-- `s <= t`
unfoldable pub text_leb : String → String → Bool
text_leb String.[] t = true
text_leb (String.◌∷◌ c s) String.[] = false
text_leb (String.◌∷◌ c s) (String.◌∷◌ d t) =
    ltb (code c) (code d) || (code c == code d && text_leb s t)

pub text_leb_total : (s t : String) → text_leb s t ≡ false → text_leb t s ≡ true
unfolding text_leb
text_leb_total String.[] t h = cc
text_leb_total (String.◌∷◌ c s) String.[] h = refl
text_leb_total (String.◌∷◌ c s) (String.◌∷◌ d t) h = ground (arith, text_leb_total s t)

pub text_leb_trans :
    (s t u : String) → text_leb s t ≡ true → text_leb t u ≡ true → text_leb s u ≡ true
unfolding text_leb
text_leb_trans String.[] t u h k = refl
text_leb_trans (String.◌∷◌ c s) String.[] u h k = cc
text_leb_trans (String.◌∷◌ c s) (String.◌∷◌ d t) String.[] h k = cc
text_leb_trans (String.◌∷◌ c s) (String.◌∷◌ d t) (String.◌∷◌ e u) h k =
    ground (arith, text_leb_trans s t u)

pub text_leb_refl : (s : String) → text_leb s s ≡ true
unfolding text_leb
text_leb_refl String.[] = refl
text_leb_refl (String.◌∷◌ c s) = ground (arith, text_leb_refl s)

-- No more words are common than the first list has.
pub common_le : (xs ys : List String) → common xs ys ≤ length xs
common_le [] ys = omega arith
common_le (x ∷ xs) ys = ground (arith, common_le xs ys)
