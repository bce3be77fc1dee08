-- ===== src/Kernel/Userland.antt =====
-- The commands that are scripts: crates/kernel/src/userland/mod.rs. The scripts' texts are those of
-- the files beside it, a parameter.
use nasserver.Base.{String, Option, none, some, List, [], ◌∷◌, any, if◌then◌else◌}
use nasserver.Base.Text.{◌=s=◌}
use nasserver.Domain.{pure, ignore, ◌>>◌}
use nasserver.Storage.World.{Platform, Op}
use nasserver.Storage.Folders.{mkdir}
use nasserver.Storage.Save.{save_file}
use nasserver.Kernel.Session.{Engine}

-- `COMMANDS`
abbrev pub commands : List String
commands =
    "ls" ∷ "cat" ∷ "mkdir" ∷ "rm" ∷ "touch" ∷ "cp" ∷ "mv" ∷ "sysinfo" ∷ "cd" ∷ "echo" ∷ "pwd"
    ∷ "whoami" ∷ []

module _ (P : Platform) (E : Engine P) where
  -- `get_script`: its cases are the names in `COMMANDS`.
  unfoldable pub get_script : String → Option String
  get_script name = if any (λ c. name =s= c) commands then some (E.script_text name) else none

  -- The loop over the commands: each script is saved, and an error is passed over.
  unfoldable pub install : List String → Op P (Unit {0})
  install [] = pure tt
  install (cmd ∷ cmds) = elim (get_script cmd) [
    | none ↦ install cmds
    | some script ↦ ignore (save_file P "admin" "/System/bin" cmd (E.encode script)) >> install cmds
  ]

  -- `install_userland`
  unfoldable pub install_userland : Op P (Unit {0})
  unfolding install
  install_userland =
      ignore (mkdir P "admin" "/System")
      >> ignore (mkdir P "admin" "/System/bin")
      >> install commands
