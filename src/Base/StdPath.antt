-- ===== src/Base/StdPath.antt =====
-- The operations of Rust's `std::path::Path` that the program uses on texts: `join`, `components` and
-- `starts_with`.
pub mod Prefixes
use Prim.Native.Nat.{ℕ}
use Prim.Native.Char.{code}
use Prim.Native.String.{String}
use mathlib.Core.Bool.{Bool, true, false, not, ◌&&◌, ◌||◌}
use mathlib.Core.List.{List, [], ◌∷◌, ◌++◌}
use nasserver.Base.Tests.{if◌then◌else◌}
use nasserver.Base.Lists.{keep}
use nasserver.Base.Text.{◌<>◌, ◌=s=◌, starts_with, is_empty, ends_with_char, split}

-- `Path::join`: an absolute path replaces what it is joined to.
unfoldable pub path_join : String → String → String
path_join base part =
    if starts_with part "/"
    then part
    else if is_empty base || ends_with_char b'/' base
    then base <> part
    else base <> ("/" <> part)

-- Neither an empty part nor ".".
unfoldable pub is_component : String → Bool
is_component x = not (is_empty x) && not (x =s= ".")

-- `Path::components`: the root, or a "." that a relative path starts with, and then the parts.
unfoldable pub leading : List String → List String
leading [] = []
leading (x ∷ []) = if x =s= "." then "." ∷ [] else []
leading (x ∷ y ∷ xs) = if is_empty x then "/" ∷ [] else if x =s= "." then "." ∷ [] else []

unfoldable pub components : String → List String
components p = leading (split b'/' p) ++ keep is_component (split b'/' p)

-- Is the second list a prefix of the first?
unfoldable pub has_prefix : List String → List String → Bool
has_prefix xs [] = true
has_prefix [] (y ∷ ys) = false
has_prefix (x ∷ xs) (y ∷ ys) = x =s= y && has_prefix xs ys

-- `Path::starts_with`
unfoldable pub path_starts_with : String → String → Bool
path_starts_with p base = has_prefix (components p) (components base)
