-- ===== src/Base/Text/Search.antt =====
-- Looking for a text: `find` and `rfind` of Rust's `str`, with what stands before and after.
use Prim.Native.Nat.{ℕ}
use Prim.Native.Char.{code}
use Prim.Native.String.{String}
use mathlib.Core.Option.{Option, none, some}
use nasserver.Base.Tests.{◌==◌, if◌then◌else◌}
use nasserver.Base.Text.{strip_prefix}

-- The texts before and after the first occurrence of `p`.
unfoldable pub split_once : String → String → Option (String × String)
split_once p String.[] = elim (strip_prefix "" p) [ none ↦ none | some rest ↦ some ("", rest) ]
split_once p (String.◌∷◌ c s) =
    let later = split_once p s in
    elim (strip_prefix (String.◌∷◌ c s) p) [
      | some rest ↦ some ("", rest)
      | none ↦ elim later [ none ↦ none | some found ↦ some (String.◌∷◌ c found.0, found.1) ]
    ]

-- The texts before and after the last occurrence of a character.
unfoldable pub rsplit_once : ℕ → String → Option (String × String)
rsplit_once ch String.[] = none
rsplit_once ch (String.◌∷◌ c s) =
    let later = rsplit_once ch s in
    elim later [
      | some found ↦ some (String.◌∷◌ c found.0, found.1)
      | none ↦ if code c == ch then some ("", s) else none
    ]
