-- ===== src/Kernel/Paths.antt =====
-- The paths of the terminal: `resolve_path` of crates/kernel/src/service.rs.
pub mod Laws
use nasserver.Base.{String, Bool, ◌||◌, List, [], ◌∷◌, ◌++◌, if◌then◌else◌}
use nasserver.Base.Text.{◌<>◌, ◌=s=◌, is_empty, starts_with, split, join, trim_start_matches}
use nasserver.Base.Text.Space.{trim}
use nasserver.Storage.Paths.{but_last}

-- The parts with one more: "." and empty parts count for nothing, ".." takes the last part away.
unfoldable pub next_parts : List String → String → List String
next_parts parts x =
    if is_empty x || x =s= "."
    then parts
    else if x =s= ".."
    then but_last parts
    else parts ++ (x ∷ [])

-- The loop over the parts.
unfoldable pub walk : List String → List String → List String
walk parts [] = parts
walk parts (x ∷ xs) = walk (next_parts parts x) xs

abbrev pub home : String → String
home user = "/User/" <> user

-- The path before it is normalised.
unfoldable pub full_path : String → String → String → String
full_path cwd user path =
    if starts_with path "/"
    then path
    else if path =s= "~"
    then home user
    else if starts_with path "~/"
    then home user <> ("/" <> trim_start_matches path "~/")
    else if cwd =s= "/"
    then "/" <> path
    else cwd <> ("/" <> path)

unfoldable pub normalized : String → String
normalized path = "/" <> join "/" (walk [] (split b'/' path))

-- `resolve_path`
unfoldable pub resolve_path : String → String → String → String
resolve_path cwd user path =
    let p = trim path in if is_empty p then cwd else normalized (full_path cwd user p)
