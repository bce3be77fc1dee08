-- ===== src/Agent/Tests.antt =====
-- A runtime with one tool, and the theorems about its chats applied there.
mod Conversations
mod Assistant
use nasserver.Base.{ℕ, zero, suc, String, ◌≡◌, refl, true, none, some, List, [], ◌∷◌, ◌++◌, All}
use nasserver.Domain.{done}
use nasserver.Agent.Types.{
  Outcome, fine, ToolCall, CompletionResponse, Event, thought, tool_call, tool_result, answer,
  AgentRuntime, Message,
}
use nasserver.Agent.{
  opening, chat, iterations, iterate, respond, emit, run_tools, run_tool, execute_tool, tool_named,
  has_system,
}
use nasserver.Agent.Stream.{IsInner, is_final, chat-Ends}
use nasserver.Agent.Dialogue.{IsDialogue, chat-IsDialogue}

abbrev list_files : ToolCall
list_files = record { id = "c1"; name = "ls"; arguments = "/" }

-- The provider asks for the tool once, and then answers. The state counts what was asked.
reply : ℕ → Outcome CompletionResponse × ℕ
reply zero =
    (fine (record { content = some "Let me look."; tool_calls = some (list_files ∷ []) }), 1)
reply (suc n) = (fine (record { content = some "One file."; tool_calls = none }), suc (suc n))

abbrev runtime : AgentRuntime
runtime = record {
  W = ℕ;
  Json = String;
  complete = λ messages n. reply n;
  tools = record { name = "ls"; execute = λ args n. (fine "a.txt", n) } ∷ [];
  from_str = λ text. done text;
  system_prompt = "";
}

streams :
    (chat runtime "What is there?" [] 0).events
    ≡ thought "Let me look."
      ∷ tool_call list_files
      ∷ tool_result "c1" "a.txt"
      ∷ answer "One file."
      ∷ []
unfolding chat iterations iterate respond emit run_tools run_tool execute_tool tool_named opening
    has_system reply
streams = refl

chat-Ends_example :
    (es : List Event) × (e : Event) × ((chat runtime "What is there?" [] 0).events ≡ es ++ (e ∷ []))
    × All IsInner es
    × (is_final e ≡ true)
chat-Ends_example = chat-Ends runtime "What is there?" [] 0

chat-IsDialogue_example :
    (ms : List Message) × ((chat runtime "What is there?" [] 0).messages
      ≡ opening runtime "What is there?" [] ++ ms)
    × IsDialogue 10 ms
chat-IsDialogue_example = chat-IsDialogue runtime "What is there?" [] 0
