-- ===== src/Kernel/Service/Output.antt =====
-- Where the output of a command goes: `execute_user_command` of crates/kernel/src/service.rs.
use nasserver.Base.{String, ◌≡◌, refl, Bool, false, none, some, List, ◌∷◌}
use nasserver.Base.Text.{◌<>◌, starts_with}
use nasserver.Domain.{bad_request, err}
use nasserver.Storage.Paths.{normalize_path}
use nasserver.Storage.World.{Bytes, Platform, World}
use nasserver.Storage.Save.{write_target, save_file}
use nasserver.Kernel.Paths.{resolve_path}
use nasserver.Kernel.CommandLine.{file, redirects}
use nasserver.Kernel.Session.{Session, Engine, path_parent, path_name, storage_path}
use nasserver.Kernel.Service.{
  Answer, failure, new_content, write_output, stop, finish, run_words, run_command, run_segment,
}

-- A directory that `save_file` has no owner for.
abbrev pub IsRejected : String → Type 0
IsRejected dir =
    (starts_with (normalize_path dir) "/AppData" ≡ false)
    × (starts_with (normalize_path dir) "/System" ≡ false)
    × (starts_with (normalize_path dir) "/User/" ≡ false)

save_file_rejected :
    (P : Platform) (username dir name : String) (bytes : Bytes) (w : World P)
    → IsRejected dir
    → save_file P username dir name bytes w ≡ (err (bad_request "Invalid path"), w)
unfolding save_file write_target
save_file_rejected P username dir name bytes w (h, k, l) = rw (h, save_file) (rw (k, l) refl)

module _ (P : Platform) (E : Engine P) where
  write_output_rejected :
      (name output target : String) (s : Session P)
      → storage_path E.user (resolve_path s.cwd E.user name) ≡ some target
      → IsRejected (path_parent target)
      → write_output P E false name output s
        ≡ (some (failure ("Failed to write to '" <> (name <> "': Bad Request: Invalid path")) 1), s)
  unfolding write_output new_content
  write_output_rejected name output target s h k =
      let refused =
        save_file_rejected P E.user (path_parent target) (path_name target) (E.encode output)
          s.world k in
      rw (h, write_output) (rw (refused, refused) refl)

  finish_rejected :
      (name target : String) (a : Answer) (s : Session P)
      → a.code ≡ 0
      → storage_path E.user (resolve_path s.cwd E.user name) ≡ some target
      → IsRejected (path_parent target)
      → finish P E (file false name) a s
        ≡ (stop (failure ("Failed to write to '" <> (name <> "': Bad Request: Invalid path")) 1), s)
  unfolding finish
  finish_rejected name target a s e h k =
      let refused = write_output_rejected name a.stdout target s h k in
      rw (e, finish) (rw (refused, refused) refl)

  write_output_denied :
      (name output : String) (append : Bool) (s : Session P)
      → storage_path E.user (resolve_path s.cwd E.user name) ≡ none
      → write_output P E append name output s
        ≡ (some (failure ("Cannot write to '" <> (name <> "': Permission denied")) 1), s)
  unfolding write_output
  write_output_denied name output append s h = rw (h, write_output) refl

  finish_denied :
      (name : String) (append : Bool) (a : Answer) (s : Session P)
      → a.code ≡ 0
      → storage_path E.user (resolve_path s.cwd E.user name) ≡ none
      → finish P E (file append name) a s
        ≡ (stop (failure ("Cannot write to '" <> (name <> "': Permission denied")) 1), s)
  unfolding finish
  finish_denied name append a s e h =
      let denied = write_output_denied name a.stdout append s h in
      rw (e, finish) (rw (denied, denied) refl)

-- The output of a command that succeeds, redirected by ">" to a file whose directory is, as the storage
-- service sees it, neither below "/AppData" nor "/System" nor "/User/", is lost: the pipeline ends
-- with exit code 1 and "Invalid path", and nothing is written. The user's own home is such a directory, since
-- the storage service gets the path without "/User/<user>".
pub run_segment-Loses :
    (P : Platform) (E : Engine P) (segment args : List String) (cmd name target : String)
    (so_far a : Answer) (s s' : Session P)
    → redirects segment ≡ some (cmd ∷ args, file false name)
    → run_command P E cmd args s ≡ (a, s')
    → a.code ≡ 0
    → storage_path E.user (resolve_path s'.cwd E.user name) ≡ some target
    → IsRejected (path_parent target)
    → run_segment P E segment so_far s
      ≡ (stop (failure ("Failed to write to '" <> (name <> "': Bad Request: Invalid path")) 1), s')
unfolding run_segment run_words
run_segment-Loses P E segment args cmd name target so_far a s s' read ran zero_code h k =
    rw (read, run_segment) (rw ran (finish_rejected P E name target a s' zero_code h k))

-- A redirection to a path that is neither below "/AppData" nor "/System" nor starts with
-- "/User/<user>" is denied, whatever the command printed: the pipeline ends with exit code 1, and the
-- session is the one that the command left.
pub run_segment-Denies :
    (P : Platform) (E : Engine P) (segment args : List String) (cmd name : String) (append : Bool)
    (so_far a : Answer) (s s' : Session P)
    → redirects segment ≡ some (cmd ∷ args, file append name)
    → run_command P E cmd args s ≡ (a, s')
    → a.code ≡ 0
    → storage_path E.user (resolve_path s'.cwd E.user name) ≡ none
    → run_segment P E segment so_far s
      ≡ (stop (failure ("Cannot write to '" <> (name <> "': Permission denied")) 1), s')
unfolding run_segment run_words
run_segment-Denies P E segment args cmd name append so_far a s s' read ran zero_code h =
    rw (read, run_segment) (rw ran (finish_denied P E name append a s' zero_code h))
