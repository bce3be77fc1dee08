-- ===== src/Storage/Paths.antt =====
-- Virtual paths: `normalize_path` of crates/storage/src/storage_service.rs, and the parts of
-- `std::path::Path` that the service takes of a normalised path.
pub mod Laws
use nasserver.Base.{
  ℕ, String, Char, Bool, true, false, not, ◌&&◌, Option, none, some, List, [], ◌∷◌, keep,
  if◌then◌else◌,
}
use nasserver.Base.Text.{
  ◌<>◌, ◌=s=◌, is_empty, strip_prefix, starts_with, split, join, replace_char,
}

abbrev pub slash : Char
slash = "/"

-- The test of the filter in `normalize_path`.
unfoldable pub is_kept : String → Bool
is_kept x = not (is_empty x) && (not (x =s= ".") && not (x =s= ".."))

-- The parts that `normalize_path` joins: one leading slash goes, backslashes become slashes, and
-- empty parts, "." and ".." are dropped.
unfoldable pub normal_parts : String → List String
unfolding is_kept strip_prefix replace_char split
normal_parts p =
    let s : String = elim (strip_prefix p "/") [ none ↦ p | some rest ↦ rest ] in
    keep is_kept (split b'/' (replace_char b'\\' slash s))

-- `normalize_path`
unfoldable pub normalize_path : String → String
unfolding normal_parts join
normalize_path p = "/" <> join "/" (normal_parts p)

-- `p.split('/').filter(|x| !x.is_empty())`
unfoldable pub path_parts : String → List String
unfolding split
path_parts p = keep (λ x. not (is_empty x)) (split b'/' p)

-- All but the last part.
unfoldable pub but_last : List String → List String
but_last [] = []
but_last (x ∷ []) = []
but_last (x ∷ y ∷ xs) = x ∷ but_last (y ∷ xs)

unfoldable pub last? : List String → Option String
last? [] = none
last? (x ∷ []) = some x
last? (x ∷ y ∷ xs) = last? (y ∷ xs)

-- `Path::parent` of an absolute normalised path with the service's `unwrap_or("/")`: the root has
-- no parent.
unfoldable pub parent : String → String
unfolding path_parts but_last join
parent p = "/" <> join "/" (but_last (path_parts p))

-- `Path::file_name` of an absolute normalised path: none for the root.
unfoldable pub file_name : String → Option String
unfolding path_parts last?
file_name p = last? (path_parts p)

-- `Path::parent` of a path in the object store, which has no leading slash; slashes that follow one
-- another count once.
unfoldable pub object_parent : String → Option String
unfolding path_parts but_last join
object_parent p = elim (path_parts p) [ [] ↦ none | x ∷ xs ↦ some (join "/" (but_last (x ∷ xs))) ]
