-- ===== src/Agent.antt =====
-- The loop of the agent, `chat` of crates/agent/src/runtime.rs. The channel is the list of what was
-- sent, the oldest first; the log is left out.
pub mod Types
pub mod Stream
pub mod Dialogue
pub mod Conversations
pub mod Commands
pub mod OpenAi
pub mod Terminal
pub mod Keeps
mod Tests
use nasserver.Base.{
  ℕ, zero, suc, String, Bool, true, false, not, ◌&&◌, Option, none, some, List, [], ◌∷◌, ◌++◌,
  if◌then◌else◌,
}
use nasserver.Base.Text.{◌<>◌, ◌=s=◌, is_empty}
use nasserver.Domain.{Attempt, done, failed}
use nasserver.Agent.Types.{
  AgentError, tool_error, unknown, display, Outcome, fine, wrong, Role, user, assistant, system,
  tool, ToolCall, Message, CompletionResponse, Event, thought, tool_call, tool_result, answer,
  failure, Tool, AgentRuntime,
}

-- The tool of a name in the map that `new` builds: a later tool replaces an earlier one.
unfoldable pub tool_named : {W Json : Type 0} → String → List (Tool W Json) → Option (Tool W Json)
tool_named name [] = none
tool_named name (t ∷ ts) = elim (tool_named name ts) [
  | some later ↦ some later
  | none ↦ if t.name =s= name then some t else none
]

-- Does the history start with a system message?
unfoldable pub has_system : List Message → Bool
has_system [] = false
has_system (m ∷ ms) = elim m.role [ system ↦ true | _ ↦ false ]

abbrev pub is_some : {A : Type 0} → Option A → Bool
is_some none = false
is_some (some a) = true

-- `response.tool_calls`, where a missing list counts as empty
abbrev pub calls_of : Option (List ToolCall) → List ToolCall
calls_of none = []
calls_of (some calls) = calls

module _ (R : AgentRuntime) where
  pub record Chat : Type 0 where
    pub messages : List Message
    pub events : List Event
    pub world : R.W

  abbrev pub send : Event → Chat → Chat
  send e c = record c { events = c.events ++ (e ∷ []) }

  abbrev pub push : Message → Chat → Chat
  push m c = record c { messages = c.messages ++ (m ∷ []) }

  -- `execute_tool`
  unfoldable pub execute_tool : String → String → R.W → Outcome String × R.W
  execute_tool name args w = elim (tool_named name R.tools) [
    | none ↦ (wrong (tool_error ("Tool not found: " <> name)), w)
    | some t ↦ elim (R.from_str args) [
      | failed message ↦ (wrong (tool_error ("Invalid JSON args: " <> message)), w)
      | done value ↦ t.execute value w
    ]
  ]

  abbrev pub result_text : Outcome String → String
  result_text (fine s) = s
  result_text (wrong e) = "Error: " <> display e

  abbrev pub tool_message : ToolCall → String → Message
  tool_message call result = record {
    role = tool;
    content = some result;
    tool_calls = none;
    tool_call_id = some call.id;
  }

  -- One pass of the loop over the tool calls.
  unfoldable pub run_tool : ToolCall → Chat → Chat
  run_tool call c =
      let (outcome, world) = execute_tool call.name call.arguments c.world in
      let result = result_text outcome in
      push (tool_message call result)
        (send (tool_result call.id result) (send (tool_call call) (record c { world = world })))

  unfoldable pub run_tools : List ToolCall → Chat → Chat
  run_tools [] c = c
  run_tools (call ∷ calls) c = run_tools calls (run_tool call c)

  -- The content of a response: an answer if there are no tool calls, and else a thought.
  unfoldable pub emit : CompletionResponse → Chat → Chat
  emit r c = elim r.content [
    | none ↦ c
    | some text ↦ elim (calls_of r.tool_calls) [
      | [] ↦ send (answer text) c
      | call ∷ calls ↦ send (thought text) c
    ]
  ]

  abbrev pub assistant_message : CompletionResponse → Message
  assistant_message r = record {
    role = assistant;
    content = r.content;
    tool_calls = r.tool_calls;
    tool_call_id = none;
  }

  -- What follows a response: whether the loop breaks, and the chat.
  unfoldable pub respond : CompletionResponse → Chat → Bool × Chat
  respond r c =
      let c' = emit r (push (assistant_message r) c) in
      elim (calls_of r.tool_calls) [
        | [] ↦ (is_some r.content, c')
        | call ∷ calls ↦ (false, run_tools (call ∷ calls) c')
      ]

  -- One iteration of the loop.
  unfoldable pub iterate : Chat → Bool × Chat
  iterate c =
      let (outcome, world) = R.complete c.messages c.world in
      elim outcome [
        | wrong e ↦ (true, send (failure e) (record c { world = world }))
        | fine r ↦ respond r (record c { world = world })
      ]

  -- The loop, with the number of iterations that are left.
  unfoldable pub iterations : ℕ → Chat → Chat
  iterations zero c = send (failure (unknown "Max iterations reached")) c
  iterations (suc n) c =
      let (stop, c') = iterate c in let rest = iterations n c' in if stop then c' else rest

  abbrev pub max_iterations : ℕ
  max_iterations = 10

  -- The messages that the loop starts with.
  unfoldable pub opening : String → List Message → List Message
  opening input history =
      let asked : Message = record {
        role = user;
        content = some input;
        tool_calls = none;
        tool_call_id = none;
      } in
      let prompt : Message = record {
        role = system;
        content = some R.system_prompt;
        tool_calls = none;
        tool_call_id = none;
      } in
      (if not (is_empty R.system_prompt) && not (has_system history)
        then prompt ∷ history
        else history)
      ++ (asked ∷ [])

  -- `chat`
  unfoldable pub chat : String → List Message → R.W → Chat
  chat input history w =
      iterations max_iterations
        (record { messages = opening input history; events = []; world = w })
