-- ===== src/Agent/Terminal/Sound.antt =====
-- What the assistant does to a session, whatever the model answers.
use nasserver.Base.{String, List, Bool-cases, Option-cases, inl, inr}
use nasserver.Base.Text.{◌=s=◌}
use nasserver.Domain.{Attempt-cases}
use nasserver.Storage.World.{Platform}
use nasserver.Kernel.Session.{Session, Engine}
use nasserver.Kernel.Files.Sound.{IsSound, execute_script-KeepsSound}
use nasserver.Agent.Types.{Message}
use nasserver.Agent.{tool_named, execute_tool, chat}
use nasserver.Agent.Keeps.{chat-keeps}
use nasserver.Agent.Terminal.{Desk, run_terminal, ask_provider, agent}

module _ (P : Platform) (E : Engine P) {V Json : Type 0} (D : Desk V Json)
    (js : (code : String) (args : List String) (v : Session P)
      → IsSound v
      → IsSound (E.run_js code args v).1) where
  run_terminal-IsSound :
      (args : Json) (w : Session P × V) → IsSound w.0 → IsSound (run_terminal P E D args w).1.0
  unfolding run_terminal
  run_terminal-IsSound args (s, v) h = elim (Option-cases (D.command_of args)) [
    | inl e ↦ rw (e, run_terminal) h
    | inr (command, e) ↦ rw (e, run_terminal) (execute_script-KeepsSound P E command s js h)
  ]

  execute_tool-IsSound :
      (name args : String) (w : Session P × V)
      → IsSound w.0
      → IsSound (execute_tool (agent P E D) name args w).1.0
  unfolding execute_tool tool_named
  execute_tool-IsSound name args w h = elim (Bool-cases ("terminal" =s= name)) [
    | inr e ↦ rw (e, execute_tool, tool_named) h
    | inl e ↦ elim (Attempt-cases (D.from_str args)) [
      | inr (m, f) ↦ rw (e, f, execute_tool, tool_named) h
      | inl (json, f) ↦ rw (e, f, execute_tool, tool_named) (run_terminal-IsSound json w h)
    ]
  ]

-- A chat with the assistant keeps its session sound, whatever the server of the model answers and
-- however often it calls the terminal, if the scripts do: the working directory stays an absolute path
-- without empty parts, "." and "..", and the key of the table of files unique.
pub chat-KeepsSound :
    (P : Platform) (E : Engine P) {V Json : Type 0} (D : Desk V Json)
    → ((code : String) (args : List String) (v : Session P)
        → IsSound v
        → IsSound (E.run_js code args v).1)
    → (input : String) (history : List Message) (w : Session P × V) → IsSound w.0
    → IsSound (chat (agent P E D) input history w).world.0
unfolding ask_provider
chat-KeepsSound P E D js input history w h =
    chat-keeps (agent P E D) (λ v. IsSound v.0) (λ messages v k. k) (execute_tool-IsSound P E D js)
      input history w h
