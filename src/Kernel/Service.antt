-- ===== src/Kernel/Service.antt =====
-- `execute_script` of crates/kernel/src/service.rs: its commands, and the pipeline that runs them. A
-- session is what a command finds and leaves.
pub mod Invariant
pub mod Output
use nasserver.Base.{
  ℕ, String, Bool, true, false, ◌||◌, Option, none, some, List, [], ◌∷◌, ◌++◌, ◌==◌, if◌then◌else◌,
}
use nasserver.Base.Text.{◌<>◌, ◌=s=◌, is_empty, starts_with, join}
use nasserver.Base.Text.Space.{trim}
use nasserver.Domain.{Result, ok, err, Attempt, done, failed}
use nasserver.Storage.World.{Bytes, Platform}
use nasserver.Storage.Save.{save_file}
use nasserver.Storage.Reading.{get_file_path}
use nasserver.Kernel.Paths.{resolve_path}
use nasserver.Kernel.CommandLine.{
  strip_heredoc, tokenize, segments, Redirect, screen, file, redirects,
}
use nasserver.Kernel.Session.{
  Session, Engine, to_string, path_parent, path_name, storage_path, storage, read_to_string,
}
use nasserver.Kernel.Userland.{get_script}

-- What a command prints, what it reports, and its exit code.
pub record Answer : Type 0 where
  pub stdout : String
  pub stderr : String
  pub code : ℕ

abbrev pub failure : String → ℕ → Answer
failure message code = record { stdout = ""; stderr = message; code = code }

abbrev pub success : String → Answer
success output = record { stdout = output; stderr = ""; code = 0 }

-- The answer to a script's result; `label` stands before an error.
abbrev pub script_answer : String → Attempt String → Answer
script_answer label (done output) = success output
script_answer label (failed message) = failure (label <> (message <> "\n")) 1

-- `get_available_commands` and `get_help_text`
abbrev pub available_commands : List String
available_commands =
    "ls" ∷ "cd" ∷ "cat" ∷ "sysinfo" ∷ "mkdir" ∷ "rm" ∷ "mv" ∷ "touch" ∷ "cp" ∷ "pwd" ∷ "whoami"
    ∷ "echo" ∷ "help" ∷ "js" ∷ []

abbrev pub help_text : String
help_text = "Available commands: " <> (join ", " available_commands <> "\n")

module _ (P : Platform) (E : Engine P) where
  -- A step of the terminal: it always answers.
  abbrev pub Step : Type 0 → Type 0
  Step A = Session P → A × Session P

  -- `JsRuntime::execute`, and the answer to its result.
  unfoldable pub run_script : String → String → List String → Step Answer
  run_script label code args s =
      let (result, s') = E.run_js code args s in (script_answer label result, s')

  -- The content of a file, where it is there and can be read.
  unfoldable pub file_content : String → Step (Option String)
  file_content path s =
      let (found, s') = storage P (get_file_path P E.root E.user path) s in
      elim found [
        | err e ↦ (none, s')
        | ok p ↦
            if E.exists p s'.world.files
            then (
              elim (read_to_string P E p s'.world.files) [
                | failed e ↦ none
                | done text ↦ some text
              ],
              s',
            )
            else (none, s')
      ]

  -- `js`: a file with its arguments, or the code itself.
  unfoldable pub run_code : List String → Step Answer
  run_code [] s = (failure "Usage: js <file> [args...] or js <code...>" 1, s)
  run_code (target ∷ args) s =
      let (content, s') = file_content (resolve_path s.cwd E.user target) s in
      elim content [
        | some text ↦ run_script "JS Error: " text args s'
        | none ↦ run_script "JS Error: " (join " " (target ∷ args)) [] s'
      ]

  -- The path of a program: the command itself, or a file of that name in "/System/bin".
  unfoldable pub find_program : String → Step (Option String)
  find_program cmd s =
      if starts_with cmd "./" || (starts_with cmd "/" || starts_with cmd "~")
      then (some (resolve_path s.cwd E.user cmd), s)
      else let bin_path = "/System/bin/" <> cmd in
        let (found, s') = storage P (get_file_path P E.root E.user bin_path) s in
        elim found [
          | err e ↦ (none, s')
          | ok p ↦ (if E.exists p s'.world.files then some bin_path else none, s')
        ]

  -- The script at a path.
  unfoldable pub run_program : String → String → List String → Step Answer
  run_program cmd path args s = elim (storage_path E.user path) [
    | none ↦ (failure (cmd <> ": Permission denied") 126, s)
    | some target ↦
        let (found, s') = storage P (get_file_path P E.root E.user target) s in
        elim found [
          | err e ↦ (failure (cmd <> (": " <> to_string e)) 127, s')
          | ok p ↦ elim (read_to_string P E p s'.world.files) [
            | failed message ↦ (failure (cmd <> (": " <> message)) 127, s')
            | done text ↦ run_script "Runtime Error: " text args s'
          ]
        ]
  ]

  -- A command that is no script of the userland.
  unfoldable pub run_other : String → List String → Step Answer
  run_other cmd args s =
      if cmd =s= "help"
      then (success help_text, s)
      else if cmd =s= "js"
      then run_code args s
      else let (program, s') = find_program cmd s in
        elim program [
          | none ↦ (failure (cmd <> ": command not found") 127, s')
          | some path ↦ run_program cmd path args s'
        ]

  unfoldable pub run_command : String → List String → Step Answer
  run_command cmd args s = elim (get_script P E cmd) [
    | some script ↦ run_script "Error: " script args s
    | none ↦ run_other cmd args s
  ]

  -- What is written: behind the bytes of the existing file, where they can be read and the output is
  -- appended.
  unfoldable pub new_content : Bool → String → String → Step Bytes
  new_content false target output s = (E.encode output, s)
  new_content true target output s =
      let (found, s') = storage P (get_file_path P E.root E.user target) s in
      elim found [
        | err e ↦ (E.encode output, s')
        | ok p ↦ (
          elim (P.local p s'.world.files) [
            | failed message ↦ E.encode output
            | done bytes ↦ bytes ++ E.encode output
          ],
          s',
        )
      ]

  -- The output of a command goes to a file: the failure, or none.
  unfoldable pub write_output : Bool → String → String → Step (Option Answer)
  write_output append name output s = elim (storage_path E.user (resolve_path s.cwd E.user name)) [
    | none ↦ (some (failure ("Cannot write to '" <> (name <> "': Permission denied")) 1), s)
    | some target ↦
        let (bytes, s') = new_content append target output s in
        let (saved, s'') =
          storage P (save_file P E.user (path_parent target) (path_name target) bytes) s' in
        elim saved [
          | ok _ ↦ (none, s'')
          | err e ↦
              (some (failure ("Failed to write to '" <> (name <> ("': " <> to_string e))) 1), s'')
        ]
  ]

  -- What a segment comes to: the end of the pipeline, or the answer so far.
  pub data Progress : Type 0 where
    stop : Answer → Progress
    go_on : Answer → Progress

  -- The answer of a command goes where it shall. A command that fails ends the pipeline.
  unfoldable pub finish : Redirect → Answer → Step Progress
  finish out a s =
      if a.code == 0
      then elim out [
        | screen ↦ (go_on a, s)
        | file append name ↦
            let (failed_write, s') = write_output append name a.stdout s in
            elim failed_write [
              | some f ↦ (stop f, s')
              | none ↦ (go_on (record { stdout = ""; stderr = a.stderr; code = a.code }), s')
            ]
      ]
      else (stop a, s)

  -- A segment without a command is passed over.
  unfoldable pub run_words : List String → Redirect → Answer → Step Progress
  run_words [] out so_far s = (go_on so_far, s)
  run_words (cmd ∷ args) out so_far s = let (a, s') = run_command cmd args s in finish out a s'

  -- The body of the loop of step 4.
  unfoldable pub run_segment : List String → Answer → Step Progress
  run_segment segment so_far s = elim (redirects segment) [
    | none ↦ (stop (failure "Syntax error: missing file for redirection" 2), s)
    | some (words, out) ↦ run_words words out so_far s
  ]

  -- The loop of step 4.
  unfoldable pub run_pipeline : List (List String) → Answer → Step Answer
  run_pipeline [] so_far s = (so_far, s)
  run_pipeline (segment ∷ rest) so_far s =
      let (progress, s') = run_segment segment so_far s in
      elim progress [ stop a ↦ (a, s') | go_on a ↦ run_pipeline rest a s' ]

  -- `execute_script`
  unfoldable pub execute_script : String → Step Answer
  execute_script command s = elim (tokenize E.shlex_split (strip_heredoc (trim command))) [
    | none ↦ (failure "Syntax error: unmatched quote" 2, s)
    | some tokens ↦ run_pipeline (segments tokens) (success "") s
  ]
