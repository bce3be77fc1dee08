-- ===== src/Kernel/Service/Invariant.antt =====
-- What `execute_script` of crates/kernel/src/service.rs keeps true of a session, where the scripts
-- keep it.
use nasserver.Base.{
  arith, Option-cases, inl, inr, ◌⊎◌, String, ◌≡◌, refl, Bool, true, false, List, [], ◌∷◌,
}
use nasserver.Base.Text.{◌<>◌, join}
use nasserver.Domain.{Result-cases, Attempt-cases}
use nasserver.Storage.World.{Platform, Bytes}
use nasserver.Storage.Save.{save_file}
use nasserver.Storage.Reading.{get_file_path}
use nasserver.Kernel.Paths.{resolve_path}
use nasserver.Kernel.CommandLine.{
  Redirect, screen, file, redirects, segments, tokenize, strip_heredoc,
}
use nasserver.Kernel.Session.{
  Session, Engine, storage, storage_path, read_to_string, path_parent, path_name,
}
use nasserver.Kernel.Userland.{get_script}
use nasserver.Base.Text.Space.{trim}
use nasserver.Kernel.Service.{
  success, Answer, run_script, file_content, run_code, find_program, run_program, run_other,
  run_command, new_content, write_output, Progress, stop, go_on, finish, run_words, run_segment,
  run_pipeline, execute_script,
}

module _ (P : Platform) (E : Engine P) (I : Session P → Type 0)
    (js : (code : String) (args : List String) (s : Session P) → I s → I (E.run_js code args s).1)
    (reads : (path : String) (s : Session P)
      → I s
      → I (storage P (get_file_path P E.root E.user path) s).1)
    (saves : (dir name : String) (bytes : Bytes) (s : Session P)
      → I s
      → I (storage P (save_file P E.user dir name bytes) s).1) where
  run_script-keeps :
      (label code : String) (args : List String) (s : Session P)
      → I s
      → I (run_script P E label code args s).1
  unfolding run_script
  run_script-keeps label code args s h = js code args s h

  file_content-keeps : (path : String) (s : Session P) → I s → I (file_content P E path s).1
  unfolding file_content
  file_content-keeps path s h = ground (arith, reads path s h)

  run_code-keeps : (args : List String) (s : Session P) → I s → I (run_code P E args s).1
  unfolding run_code
  run_code-keeps [] s h = h
  run_code-keeps (target ∷ args) s h =
      let found = file_content P E (resolve_path s.cwd E.user target) s in
      let kept = file_content-keeps (resolve_path s.cwd E.user target) s h in
      elim (Option-cases found.0) [
        | inl e ↦
            ground (arith, run_script-keeps "JS Error: " (join " " (target ∷ args)) [] found.1 kept)
        | inr (text, e) ↦ ground (arith, run_script-keeps "JS Error: " text args found.1 kept)
      ]

  find_program-keeps : (cmd : String) (s : Session P) → I s → I (find_program P E cmd s).1
  unfolding find_program
  find_program-keeps cmd s h = ground (arith, reads ("/System/bin/" <> cmd) s h)

  new_content-keeps :
      (append : Bool) (target output : String) (s : Session P)
      → I s
      → I (new_content P E append target output s).1
  unfolding new_content
  new_content-keeps false target output s h = h
  new_content-keeps true target output s h = ground (arith, reads target s h)

  run_program-keeps :
      (cmd path : String) (args : List String) (s : Session P)
      → I s
      → I (run_program P E cmd path args s).1
  unfolding run_program
  run_program-keeps cmd path args s h = elim (Option-cases (storage_path E.user path)) [
    | inl e ↦ ground arith
    | inr (target, e) ↦
        let kept = reads target s h in
        elim (Result-cases (get_file_path P E.root E.user target s.world).0) [
          | inr (x, f) ↦ ground (arith, kept)
          | inl (p, f) ↦
              let s' = (storage P (get_file_path P E.root E.user target) s).1 in
              elim (Attempt-cases (read_to_string P E p s'.world.files)) [
                | inl (text, g) ↦
                    ground (arith, run_script-keeps "Runtime Error: " text args s' kept)
                | inr (m, g) ↦ ground (arith, kept)
              ]
        ]
  ]

  run_other-keeps :
      (cmd : String) (args : List String) (s : Session P) → I s → I (run_other P E cmd args s).1
  unfolding run_other
  run_other-keeps cmd args s h =
      let found = find_program P E cmd s in
      let kept = find_program-keeps cmd s h in
      elim (Option-cases found.0) [
        | inl e ↦ ground (arith, kept, run_code-keeps args s h)
        | inr (path, e) ↦
            ground (arith, run_code-keeps args s h, run_program-keeps cmd path args found.1 kept)
      ]

  run_command-keeps :
      (cmd : String) (args : List String) (s : Session P) → I s → I (run_command P E cmd args s).1
  unfolding run_command
  run_command-keeps cmd args s h = elim (Option-cases (get_script P E cmd)) [
    | inl e ↦ ground (arith, run_other-keeps cmd args s h)
    | inr (script, e) ↦ ground (arith, run_script-keeps "Error: " script args s h)
  ]

  write_output-keeps :
      (append : Bool) (name output : String) (s : Session P)
      → I s
      → I (write_output P E append name output s).1
  unfolding write_output
  write_output-keeps append name output s h =
      elim (Option-cases (storage_path E.user (resolve_path s.cwd E.user name))) [
        | inl e ↦ ground arith
        | inr (target, e) ↦
            let (bytes, s') = new_content P E append target output s in
            ground (
              arith,
              saves (path_parent target) (path_name target) bytes s'
                  (new_content-keeps append target output s h),
            )
      ]

  finish-keeps : (out : Redirect) (a : Answer) (s : Session P) → I s → I (finish P E out a s).1
  unfolding finish
  finish-keeps screen a s h = ground arith
  finish-keeps (file append name) a s h =
      ground (arith, write_output-keeps append name a.stdout s h)

  run_words-keeps :
      (words : List String) (out : Redirect) (so_far : Answer) (s : Session P)
      → I s
      → I (run_words P E words out so_far s).1
  unfolding run_words
  run_words-keeps [] out so_far s h = h
  run_words-keeps (cmd ∷ args) out so_far s h =
      let (a, s') = run_command P E cmd args s in
      finish-keeps out a s' (run_command-keeps cmd args s h)

  run_segment-keeps :
      (segment : List String) (so_far : Answer) (s : Session P)
      → I s
      → I (run_segment P E segment so_far s).1
  unfolding run_segment
  run_segment-keeps segment so_far s h = elim (Option-cases (redirects segment)) [
    | inl e ↦ ground arith
    | inr (read, e) ↦ ground (arith, run_words-keeps read.0 read.1 so_far s h)
  ]

  Progress-cases :
      (x : Progress P E) → ((a : Answer) × (x ≡ stop a)) ⊎ ((a : Answer) × (x ≡ go_on a))
  Progress-cases (stop a) = inl (a, refl)
  Progress-cases (go_on a) = inr (a, refl)

  run_pipeline-keeps :
      (ss : List (List String)) (so_far : Answer) (s : Session P)
      → I s
      → I (run_pipeline P E ss so_far s).1
  unfolding run_pipeline
  run_pipeline-keeps [] so_far s h = h
  run_pipeline-keeps (segment ∷ rest) so_far s h =
      let (progress, s') = run_segment P E segment so_far s in
      let kept = run_segment-keeps segment so_far s h in
      elim (Progress-cases progress) [
        | inl (a, e) ↦ ground (arith, kept)
        | inr (a, e) ↦ ground (arith, run_pipeline-keeps rest a s' kept)
      ]

  -- A predicate on sessions that the scripts keep, and that reading a path and saving a file keep, is kept by
  -- every command line.
  pub execute_script-Keeps :
      (command : String) (s : Session P) → I s → I (execute_script P E command s).1
  unfolding execute_script
  execute_script-Keeps command s h =
      elim (Option-cases (tokenize E.shlex_split (strip_heredoc (trim command)))) [
        | inl e ↦ ground arith
        | inr (tokens, e) ↦ ground (arith, run_pipeline-keeps (segments tokens) (success "") s h)
      ]
