-- ===== src/Base/Text.antt =====
-- The operations of Rust's `str` that the program uses, over native strings walked by characters.
-- Only `split`, `trim_start_matches` of one character and `replace` take a character, as its code.
pub mod Laws
pub mod Prefix
pub mod Space
pub mod Search
pub mod Found
pub mod Digits
use Prim.Native.Nat.{ℕ, zero, suc}
use Prim.Native.Char.{Char, code}
use Prim.Native.String
use Prim.Native.String.{String, count}
use mathlib.Core.Bool.{Bool, true, false}
use mathlib.Core.Option.{Option, none, some}
use mathlib.Core.List.{List, [], ◌∷◌}
use nasserver.Base.Tests.{◌==◌, if◌then◌else◌}
pub use text.Mathlib.Text.{◌==◌ as ◌=s=◌}
pub use text.Mathlib.TextEquality.{eq_iff}
pub use text.Mathlib.TextPositions.{eq_refl}

infixr 66 ◌<>◌
abbrev pub ◌<>◌ : String → String → String
s <> t = String.◌++◌ s t

-- `str::strip_prefix`
unfoldable pub strip_prefix : String → String → Option String
strip_prefix s String.[] = some s
strip_prefix String.[] (String.◌∷◌ d p) = none
strip_prefix (String.◌∷◌ c s) (String.◌∷◌ d p) = if code c == code d then strip_prefix s p else none

-- `str::starts_with`
unfoldable pub starts_with : String → String → Bool
unfolding strip_prefix
starts_with s p = elim (strip_prefix s p) [ none ↦ false | some _ ↦ true ]

-- `str::trim_start_matches` of a text: the prefix goes as long as there is one. Each round takes a
-- character at least, where the prefix has one.
trim_rounds : ℕ → String → String → String
trim_rounds zero s p = s
trim_rounds (suc n) s p = elim (strip_prefix s p) [ none ↦ s | some rest ↦ trim_rounds n rest p ]

unfoldable pub trim_start_matches : String → String → String
unfolding trim_rounds strip_prefix
trim_start_matches s p = trim_rounds (count s) s p

-- `str::trim_start_matches` of a character
unfoldable pub trim_start_char : ℕ → String → String
trim_start_char ch String.[] = ""
trim_start_char ch (String.◌∷◌ c s) = if code c == ch then trim_start_char ch s else String.◌∷◌ c s

-- The first part of a split gets one more character.
abbrev pub push_head : Char → List String → List String
push_head c [] = (String.◌∷◌ c "") ∷ []
push_head c (x ∷ xs) = String.◌∷◌ c x ∷ xs

-- `str::split`
unfoldable pub split : ℕ → String → List String
split ch String.[] = "" ∷ []
split ch (String.◌∷◌ c s) =
    let parts = split ch s in if code c == ch then "" ∷ parts else push_head c parts

-- `[str]::join`
unfoldable pub join : String → List String → String
join sep [] = ""
join sep (x ∷ []) = x
join sep (x ∷ y ∷ parts) = x <> (sep <> join sep (y ∷ parts))

-- `str::replace` of one character by another
unfoldable pub replace_char : ℕ → Char → String → String
replace_char ch new String.[] = ""
replace_char ch new (String.◌∷◌ c s) =
    String.◌∷◌ (if code c == ch then new else c) (replace_char ch new s)

-- `str::is_empty`
abbrev pub is_empty : String → Bool
is_empty String.[] = true
is_empty (String.◌∷◌ c s) = false

-- `str::ends_with` of a character
unfoldable pub ends_with_char : ℕ → String → Bool
ends_with_char ch String.[] = false
ends_with_char ch (String.◌∷◌ c String.[]) = code c == ch
ends_with_char ch (String.◌∷◌ c (String.◌∷◌ d s)) = ends_with_char ch (String.◌∷◌ d s)

-- `str::ends_with` of a text
unfoldable pub ends_with : String → String → Bool
ends_with String.[] p = is_empty p
ends_with (String.◌∷◌ c s) p = if (String.◌∷◌ c s) =s= p then true else ends_with s p

-- `str::trim_end_matches` of a character
unfoldable pub trim_end_char : ℕ → String → String
trim_end_char ch String.[] = ""
trim_end_char ch (String.◌∷◌ c s) =
    let rest = trim_end_char ch s in
    if is_empty rest then (if code c == ch then "" else String.◌∷◌ c "") else String.◌∷◌ c rest
