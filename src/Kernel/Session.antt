-- ===== src/Kernel/Session.antt =====
-- A session of the terminal, and what the terminal of crates/kernel works with. The engine that runs
-- JavaScript (boa), the shlex package, the files of the server and the texts of the scripts in
-- crates/kernel/src/userland are parameters.
use nasserver.Base.{String, Bool, Option, none, some, List, if◌then◌else◌}
use nasserver.Base.Text.{◌<>◌, is_empty, starts_with, trim_start_matches}
use nasserver.Domain.{
  Error, internal, not_found, unauthorized, forbidden, bad_request, conflict, io, database, Result,
  ok, err, Attempt, done, failed,
}
use nasserver.Storage.World.{Bytes, Platform, World, Op}
use nasserver.Storage.Paths.{path_parts, but_last, parent, file_name}
use nasserver.Base.Text.{join}

-- `Error::to_string`
abbrev pub to_string : Error → String
to_string (internal m) = "Internal Server Error: " <> m
to_string (not_found m) = "Not Found: " <> m
to_string (unauthorized m) = "Unauthorized: " <> m
to_string (forbidden m) = "Forbidden: " <> m
to_string (bad_request m) = "Bad Request: " <> m
to_string (conflict m) = "Conflict: " <> m
to_string (io m) = "IO error: " <> m
to_string (database m) = "Database error: " <> m

-- The working directory, and the world of the storage service.
pub record Session (P : Platform) : Type 0 where
  pub cwd : String
  pub world : World P

-- `root` is the storage's path, `user` the service's `current_user`, `temp_dir` the directory of
-- temporary files. `exists` says whether a file of the server is there, `decode` and `encode` are
-- UTF-8. `copy` copies a file of the server; `append` opens one for appending, creates it where it is
-- not there, writes and synchronises.
pub record Engine (P : Platform) : Type 0 where
  pub root : String
  pub user : String
  pub temp_dir : String
  pub shlex_split : String → Option (List String)
  pub script_text : String → String
  pub run_js : String → List String → Session P → Attempt String × Session P
  pub exists : String → P.Files → Bool
  pub decode : Bytes → Attempt String
  pub encode : String → Bytes
  pub copy : String → String → P.Files → Attempt (Unit {0}) × P.Files
  pub append : String → Bytes → P.Files → Attempt (Unit {0}) × P.Files

-- `Path::parent` with `unwrap_or("/")`, of any path.
unfoldable pub path_parent : String → String
path_parent p = if starts_with p "/" then parent p else join "/" (but_last (path_parts p))

-- `Path::file_name` with `unwrap_or_default()`
unfoldable pub path_name : String → String
path_name p = elim (file_name p) [ none ↦ "" | some name ↦ name ]

-- The path in the user's storage of a path below "/User/<user>".
unfoldable pub own_path : String → String → String
own_path user path =
    let rel = trim_start_matches path ("/User/" <> user) in if is_empty rel then "/" else rel

-- The path that a script is read from, and that output is written to; none where it is denied.
unfoldable pub storage_path : String → String → Option String
unfolding own_path
storage_path user path =
    if starts_with path "/AppData"
    then some path
    else if starts_with path "/System"
    then some path
    else if starts_with path ("/User/" <> user)
    then some (own_path user path)
    else none

-- A call that fails with a text.
abbrev pub Call : Platform → Type 0 → Type 0
Call P A = Session P → Attempt A × Session P

module _ {P : Platform} {A B : Type 0} where
  abbrev pub then_call : Attempt A × Session P → (A → Call P B) → Attempt B × Session P
  then_call (done a, s) k = k a s
  then_call (failed message, s) k = (failed message, s)

infixl 5 ◌>>=◌ ◌>>◌
abbrev pub ◌>>=◌ : {P : Platform} {A B : Type 0} → Call P A → (A → Call P B) → Call P B
◌>>=◌ m k s = then_call (m s) k

abbrev pub ◌>>◌ : {P : Platform} {B : Type 0} → Call P (Unit {0}) → Call P B → Call P B
m >> k = m >>= λ _. k

abbrev pub of_result : {A : Type 0} → Result A → Attempt A
of_result (ok a) = done a
of_result (err e) = failed (to_string e)

-- A call of the storage service.
abbrev pub storage : (P : Platform) {A : Type 0} → Op P A → Session P → Result A × Session P
storage P op s = let (r, w) = op s.world in (r, record s { world = w })

-- The same, with `map_err(|e| e.to_string())`.
abbrev pub call : (P : Platform) {A : Type 0} → Op P A → Call P A
call P op s = let (r, w) = op s.world in (of_result r, record s { world = w })

-- A call on the files of the server.
abbrev pub perform_local :
    (P : Platform) → (P.Files → Attempt (Unit {0}) × P.Files) → Call P (Unit {0})
perform_local P f s =
    let w = s.world in
    let (answer, files) = f w.files in (answer, record s { world = record w { files = files } })

-- `tokio::fs::read_to_string`
unfoldable pub read_to_string : (P : Platform) → Engine P → String → P.Files → Attempt String
read_to_string P E path files = elim (P.local path files) [
  | failed message ↦ failed message
  | done bytes ↦ E.decode bytes
]
