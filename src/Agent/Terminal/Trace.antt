-- ===== src/Agent/Terminal/Trace.antt =====
-- What a chat with the assistant does to its session, told by the events that it streams.
use mathlib.Core.List.{append_assoc, append-nil}
use nasserver.Base.{
  ℕ, zero, suc, String, ◌≡◌, refl, sym, ap, ◌∙◌, Option, none, some, List, [], ◌∷◌, ◌++◌,
  if◌then◌else◌, Bool-cases, Option-cases, inl, inr,
}
use nasserver.Base.Text.{◌=s=◌}
use nasserver.Domain.{done, failed, Attempt-cases}
use nasserver.Storage.World.{Platform}
use nasserver.Kernel.Session.{Session, Engine}
use nasserver.Kernel.Service.{execute_script}
use nasserver.Agent.Types.{
  ToolCall, Event, thought, tool_call, tool_result, answer, failure, unknown, Message,
}
use nasserver.Agent.{
  Chat, tool_named, execute_tool, result_text, run_tool, run_tools, emit, respond, iterate,
  iterations, max_iterations, chat,
}
use nasserver.Agent.Keeps.{Outcome-cases}
use nasserver.Agent.Terminal.{Desk, run_terminal, ask_provider, agent}

module _ (P : Platform) (E : Engine P) {V Json : Type 0} (D : Desk V Json) where
  -- The session after the command lines, one after the other.
  unfoldable pub after_commands : List String → Session P → Session P
  after_commands [] s = s
  after_commands (command ∷ commands) s = after_commands commands (execute_script P E command s).1

  -- The command line that a call asks for: a call of the terminal with arguments that can be read.
  unfoldable pub command_in : ToolCall → List String
  command_in call =
      if "terminal" =s= call.name
      then elim (D.from_str call.arguments) [
        | failed message ↦ []
        | done args ↦ elim (D.command_of args) [ none ↦ [] | some command ↦ command ∷ [] ]
      ]
      else []

  -- The command lines of the calls in a stream.
  unfoldable pub commands_in : List Event → List String
  commands_in [] = []
  commands_in (e ∷ es) =
      let rest = commands_in es in elim e [ tool_call call ↦ command_in call ++ rest | _ ↦ rest ]

  after-append :
      (xs ys : List String) (s : Session P)
      → after_commands (xs ++ ys) s ≡ after_commands ys (after_commands xs s)
  unfolding after_commands
  after-append [] ys s = refl
  after-append (x ∷ xs) ys s = after-append xs ys (execute_script P E x s).1

  commands-append : (es fs : List Event) → commands_in (es ++ fs) ≡ commands_in es ++ commands_in fs
  unfolding commands_in
  commands-append [] fs = refl
  commands-append (thought t ∷ es) fs = commands-append es fs
  commands-append (tool_call c ∷ es) fs =
      ap (λ xs. command_in c ++ xs) (commands-append es fs)
      ∙ sym (append_assoc (command_in c) (commands_in es) (commands_in fs))
  commands-append (tool_result i r ∷ es) fs = commands-append es fs
  commands-append (answer t ∷ es) fs = commands-append es fs
  commands-append (failure x ∷ es) fs = commands-append es fs

  -- The second session is what the commands in the events make of the first.
  abbrev Follows : Session P → List Event → Session P → Type 0
  Follows s es s' = s' ≡ after_commands (commands_in es) s

  Follows-step :
      (s a b : Session P) (es : List Event) (e : Event)
      → Follows s es a
      → b ≡ after_commands (commands_in (e ∷ [])) a
      → Follows s (es ++ (e ∷ [])) b
  Follows-step s a b es e h k =
      k
      ∙ (ap (after_commands (commands_in (e ∷ []))) h
          ∙ (sym (after-append (commands_in es) (commands_in (e ∷ [])) s)
              ∙ ap (λ xs. after_commands xs s) (sym (commands-append es (e ∷ [])))))

  execute_tool-session :
      (call : ToolCall) (w : Session P × V)
      → (execute_tool (agent P E D) call.name call.arguments w).1.0
        ≡ after_commands (command_in call) w.0
  unfolding execute_tool tool_named run_terminal command_in after_commands
  execute_tool-session call (s, v) = elim (Bool-cases ("terminal" =s= call.name)) [
    | inr e ↦ rw (e, execute_tool, tool_named, command_in) refl
    | inl e ↦ elim (Attempt-cases (D.from_str call.arguments)) [
      | inr (m, f) ↦ rw (e, f, execute_tool, tool_named, command_in) refl
      | inl (json, f) ↦ elim (Option-cases (D.command_of json)) [
        | inl g ↦ rw (e, f, g, execute_tool, tool_named, command_in, run_terminal) refl
        | inr (command, g) ↦ rw (e, f, g, execute_tool, tool_named, command_in, run_terminal) refl
      ]
    ]
  ]

  abbrev Tracks : Session P → Chat (agent P E D) → Type 0
  Tracks s c = Follows s c.events c.world.0

  run_tool-Tracks :
      (s : Session P) (call : ToolCall) (c : Chat (agent P E D))
      → Tracks s c
      → Tracks s (run_tool (agent P E D) call c)
  unfolding run_tool commands_in after_commands
  run_tool-Tracks s call c h =
      let ran = execute_tool (agent P E D) call.name call.arguments c.world in
      Follows-step s ran.1.0 ran.1.0 (c.events ++ (tool_call call ∷ []))
        (tool_result call.id (result_text (agent P E D) ran.0))
        (Follows-step s c.world.0 ran.1.0 c.events (tool_call call) h (
          execute_tool-session call c.world
          ∙ ap (λ xs. after_commands xs c.world.0) (sym (append-nil (command_in call)))))
        refl

  run_tools-Tracks :
      (s : Session P) (calls : List ToolCall) (c : Chat (agent P E D))
      → Tracks s c
      → Tracks s (run_tools (agent P E D) calls c)
  unfolding run_tools
  run_tools-Tracks s [] c h = h
  run_tools-Tracks s (call ∷ calls) c h =
      run_tools-Tracks s calls (run_tool (agent P E D) call c) (run_tool-Tracks s call c h)

  respond-Tracks :
      (s : Session P) (content : Option String) (calls : Option (List ToolCall))
      (c : Chat (agent P E D))
      → Tracks s c
      → Tracks s (respond (agent P E D) (record { content = content; tool_calls = calls }) c).1
  unfolding respond emit commands_in after_commands
  respond-Tracks s none none c h = h
  respond-Tracks s none (some []) c h = h
  respond-Tracks s none (some (call ∷ calls)) c h = run_tools-Tracks s (call ∷ calls) _ h
  respond-Tracks s (some text) none c h =
      Follows-step s c.world.0 c.world.0 c.events (answer text) h refl
  respond-Tracks s (some text) (some []) c h =
      Follows-step s c.world.0 c.world.0 c.events (answer text) h refl
  respond-Tracks s (some text) (some (call ∷ calls)) c h =
      run_tools-Tracks s (call ∷ calls) _
        (Follows-step s c.world.0 c.world.0 c.events (thought text) h refl)

  iterate-Tracks :
      (s : Session P) (c : Chat (agent P E D)) → Tracks s c → Tracks s (iterate (agent P E D) c).1
  unfolding iterate ask_provider commands_in after_commands
  iterate-Tracks s c h =
      let answered = ask_provider P E D c.messages c.world in
      elim (Outcome-cases answered.0) [
        | inl (r, e) ↦
            rw (e, iterate)
              (respond-Tracks s r.content r.tool_calls (record c { world = answered.1 }) h)
        | inr (x, e) ↦
            rw (e, iterate) (Follows-step s c.world.0 c.world.0 c.events (failure x) h refl)
      ]

  iterations-Tracks :
      (s : Session P) (n : ℕ) (c : Chat (agent P E D))
      → Tracks s c
      → Tracks s (iterations (agent P E D) n c)
  unfolding iterations commands_in after_commands
  iterations-Tracks s zero c h =
      Follows-step s c.world.0 c.world.0 c.events (failure (unknown "Max iterations reached")) h
        refl
  iterations-Tracks s (suc n) c h = elim (Bool-cases (iterate (agent P E D) c).0) [
    | inl e ↦ rw (e, iterations) (iterate-Tracks s c h)
    | inr e ↦
        rw (e, iterations)
          (iterations-Tracks s n (iterate (agent P E D) c).1 (iterate-Tracks s c h))
  ]

-- The assistant does to the session what its stream says, and no more: after a chat the session is the
-- one that the command lines of the streamed calls make of the first session, run one after the other in
-- the order of the stream. A call counts if it is for the terminal and its arguments can be read and hold
-- a command. That holds whatever the server of the model answers, where it fails, and where the number of
-- rounds runs out.
pub chat-RunsCommands :
    (P : Platform) (E : Engine P) {V Json : Type 0} (D : Desk V Json) (input : String)
    (history : List Message) (s : Session P) (v : V)
    → (chat (agent P E D) input history (s, v)).world.0
      ≡ after_commands P E D (commands_in P E D (chat (agent P E D) input history (s, v)).events) s
unfolding chat commands_in after_commands
chat-RunsCommands P E D input history s v =
    iterations-Tracks P E D s (max_iterations (agent P E D)) _ refl
