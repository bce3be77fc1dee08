-- ===== src/Base/Text/Space.antt =====
-- White space in Rust's `str`: `trim`, `lines` and `split_whitespace`.
use Prim.Native.Char.{Char, code}
use Prim.Native.String.{String}
use mathlib.Core.Bool.{Bool, not, ◌&&◌, ◌||◌}
use mathlib.Core.List.{List, [], ◌∷◌}
use nasserver.Base.Tests.{◌==◌, leb, if◌then◌else◌}
use nasserver.Base.Lists.{keep, any}
use nasserver.Base.Text.{split, is_empty, push_head}

-- `char::is_whitespace`: the property White_Space of Unicode.
unfoldable pub is_whitespace : Char → Bool
is_whitespace c =
    (leb 9 (code c) && leb (code c) 13 || leb 8192 (code c) && leb (code c) 8202)
    || any (λ w. code c == w) (32 ∷ 133 ∷ 160 ∷ 5760 ∷ 8232 ∷ 8233 ∷ 8239 ∷ 8287 ∷ 12288 ∷ [])

-- `str::trim_start`
unfoldable pub trim_start : String → String
trim_start String.[] = ""
trim_start (String.◌∷◌ c s) =
    let rest = trim_start s in if is_whitespace c then rest else String.◌∷◌ c s

-- `str::trim_end`
unfoldable pub trim_end : String → String
trim_end String.[] = ""
trim_end (String.◌∷◌ c s) =
    let rest = trim_end s in if is_whitespace c && is_empty rest then "" else String.◌∷◌ c rest

-- `str::trim`
unfoldable pub trim : String → String
unfolding trim_start trim_end
trim s = trim_end (trim_start s)

-- The text before the first white space.
unfoldable pub word : String → String
word String.[] = ""
word (String.◌∷◌ c s) = let rest = word s in if is_whitespace c then "" else String.◌∷◌ c rest

-- The text from the first white space on.
unfoldable pub after_word : String → String
after_word String.[] = ""
after_word (String.◌∷◌ c s) =
    let rest = after_word s in if is_whitespace c then String.◌∷◌ c s else rest

pieces : String → List String
pieces String.[] = "" ∷ []
pieces (String.◌∷◌ c s) =
    let parts = pieces s in if is_whitespace c then "" ∷ parts else push_head c parts

-- `str::split_whitespace`
unfoldable pub split_whitespace : String → List String
unfolding pieces
split_whitespace s = keep (λ x. not (is_empty x)) (pieces s)

-- One carriage return goes from the end of a line.
drop_return : String → String
drop_return String.[] = ""
drop_return (String.◌∷◌ c String.[]) = if code c == 13 then "" else String.◌∷◌ c ""
drop_return (String.◌∷◌ c (String.◌∷◌ d s)) = String.◌∷◌ c (drop_return (String.◌∷◌ d s))

-- The lines of a split text: what follows the last line feed is a line only if it holds something.
of_split : List String → List String
of_split [] = []
of_split (x ∷ []) = if is_empty x then [] else x ∷ []
of_split (x ∷ y ∷ xs) = drop_return x ∷ of_split (y ∷ xs)

-- `str::lines`
unfoldable pub lines : String → List String
unfolding of_split drop_return split
lines s = of_split (split 10 s)
