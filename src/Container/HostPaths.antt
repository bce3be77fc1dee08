-- ===== src/Container/HostPaths.antt =====
-- Where the host's side of a volume lies: `normalize_path` and `resolve_physical_path` of
-- crates/container/src/container_service.rs. Texts stand for paths; their display is the text.
pub mod Confined
use nasserver.Base.{
  String, Bool, true, false, not, ◌&&◌, ◌||◌, Option, none, some, List, [], ◌∷◌, keep, drop, length,
  ltb, if◌then◌else◌,
}
use nasserver.Base.StdPath.{path_join, path_starts_with}
use nasserver.Base.Text.{
  ◌<>◌, ◌=s=◌, is_empty, strip_prefix, starts_with, split, join, replace_char,
}
use nasserver.Domain.{Result, ok, err, forbidden}
use nasserver.Storage.Paths.{slash, is_kept, path_parts}

-- The parts that `normalize_path` joins.
unfoldable pub clean_parts : String → List String
unfolding is_kept replace_char split
clean_parts p = keep is_kept (split b'/' (replace_char b'\\' slash p))

-- `normalize_path`
unfoldable pub normalize_path : String → String
unfolding clean_parts join
normalize_path p = "/" <> join "/" (clean_parts p)

abbrev pub app_data_root : String → String
app_data_root storage_path = path_join (path_join storage_path "vol1") "AppData"

abbrev pub user_home : String → String → String
user_home storage_path username =
    path_join (path_join (path_join storage_path "vol1") "User") username

-- The path below /AppData: the parts after the first.
unfoldable pub app_data_path : String → String → String
app_data_path storage_path clean_path =
    let parts = path_parts clean_path in
    if ltb 1 (length parts)
    then path_join (app_data_root storage_path) (join "/" (drop 1 parts))
    else app_data_root storage_path

-- `username.unwrap_or("admin")`
abbrev pub name_of : Option String → String
name_of none = "admin"
name_of (some name) = name

-- The path below the user's directory.
unfoldable pub user_path : String → Option String → String → String
user_path storage_path username clean_path =
    let rel : String = elim (strip_prefix clean_path "/") [ none ↦ clean_path | some rel ↦ rel ] in
    path_join (user_home storage_path (name_of username)) rel

unfoldable pub physical_path : String → Option String → String → String
physical_path storage_path username clean_path =
    if starts_with clean_path "/AppData/" || clean_path =s= "/AppData"
    then app_data_path storage_path clean_path
    else user_path storage_path username clean_path

-- `resolve_physical_path`
unfoldable pub resolve_physical_path : String → Option String → String → Result String
resolve_physical_path storage_path username virtual_path =
    let p = physical_path storage_path username (normalize_path virtual_path) in
    if path_starts_with p storage_path
    then ok p
    else err (forbidden ("Path escape detected: " <> virtual_path))
