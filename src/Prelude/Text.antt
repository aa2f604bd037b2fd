-- ===== src/Prelude/Text.antt =====
-- Python's methods on texts that the program uses. White space and letters are those of ASCII.
use Prim.Native.Nat.{ℕ, zero, suc, ◌+◌}
use Prim.Native.Char.{code}
use Prim.Native.String.{String, ◌++◌ as ◌<>◌}
use mathlib.Core.Bool.{Bool, true, false, ◌&&◌, ◌||◌}
use mathlib.Core.List.{List, [], ◌∷◌}
use agent_sam.Prelude.Tests.{◌==◌, nat_eq, string_eq, leb, if◌then◌else◌}

abbrev is_space : ℕ → Bool
is_space c = c == 32 || (leb 9 c && leb c 13) || (leb 28 c && leb c 31)

-- `s.lstrip()`
unfoldable pub lstrip : String → String
lstrip String.[] = String.[]
lstrip (String.◌∷◌ c s) = if is_space (code c) then lstrip s else String.◌∷◌ c s

unfoldable pub rstrip : String → String
rstrip String.[] = String.[]
rstrip (String.◌∷◌ c s) =
    let rest = rstrip s in if is_space (code c) && rest == "" then String.[] else String.◌∷◌ c rest

-- `s.strip()`
unfoldable pub strip : String → String
unfolding lstrip rstrip
strip s = rstrip (lstrip s)

-- `s.split()`: the words, and the one that is being read.
split_from : String → String → List String
split_from word String.[] = if word == "" then [] else word ∷ []
split_from word (String.◌∷◌ c s) =
    let blank = split_from "" s in
    let more = split_from (word <> String.◌∷◌ c String.[]) s in
    if is_space (code c) then (if word == "" then blank else word ∷ blank) else more

unfoldable pub split : String → List String
unfolding split_from
split s = split_from "" s

-- `sep.join(parts)`
unfoldable pub join : String → List String → String
join sep [] = ""
join sep (s ∷ []) = s
join sep (s ∷ t ∷ rest) = s <> (sep <> join sep (t ∷ rest))

-- `s[n:]`
unfoldable pub drop_chars : ℕ → String → String
drop_chars zero s = s
drop_chars (suc n) String.[] = String.[]
drop_chars (suc n) (String.◌∷◌ c s) = drop_chars n s

-- `len(s)` and `s[:n]`
unfoldable pub char_count : String → ℕ
char_count String.[] = 0
char_count (String.◌∷◌ c s) = suc (char_count s)

unfoldable pub take_chars : ℕ → String → String
take_chars zero s = String.[]
take_chars (suc n) String.[] = String.[]
take_chars (suc n) (String.◌∷◌ c s) = String.◌∷◌ c (take_chars n s)

lower_code : ℕ → ℕ
lower_code c = if leb 65 c && leb c 90 then c + 32 else c

starts_lower : String → String → Bool
unfolding lower_code
starts_lower String.[] s = true
starts_lower (String.◌∷◌ n needle) String.[] = false
starts_lower (String.◌∷◌ n needle) (String.◌∷◌ c s) =
    code n == lower_code (code c) && starts_lower needle s

-- `needle in s.lower()`
unfoldable pub in_lower : String → String → Bool
unfolding starts_lower
in_lower needle String.[] = starts_lower needle String.[]
in_lower needle (String.◌∷◌ c s) = starts_lower needle (String.◌∷◌ c s) || in_lower needle s
