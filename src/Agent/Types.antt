-- ===== src/Agent/Types.antt =====
-- The types of crates/agent/src/traits.rs, and the provider and the tools of a runtime: they are
-- parameters that answer from a state of their own, and so is the reader of JSON.
use nasserver.Base.{String, Option, List}
use nasserver.Base.Text.{◌<>◌}
use nasserver.Domain.{Attempt}

pub data AgentError : Type 0 where
  provider_error tool_error sandbox_error config_error unknown : String → AgentError

-- `to_string` of an error
unfoldable pub display : AgentError → String
display (provider_error message) = "Provider error: " <> message
display (tool_error message) = "Tool execution error: " <> message
display (sandbox_error message) = "Sandbox error: " <> message
display (config_error message) = "Configuration error: " <> message
display (unknown message) = "Unknown error: " <> message

-- `Result<T>` of the crate
pub data Outcome (A : Type 0) : Type 0 where
  fine : A → Outcome A
  wrong : AgentError → Outcome A

pub data Role : Type 0 where
  user assistant system tool : Role

-- `ToolCall` with its `FunctionCall`
pub record ToolCall : Type 0 where
  pub id : String
  pub name : String
  pub arguments : String

pub record Message : Type 0 where
  pub role : Role
  pub content : Option String
  pub tool_calls : Option (List ToolCall)
  pub tool_call_id : Option String

pub record CompletionResponse : Type 0 where
  pub content : Option String
  pub tool_calls : Option (List ToolCall)

-- `AgentEvent`, and the error that a stream may carry in its place.
pub data Event : Type 0 where
  thought : String → Event
  tool_call : ToolCall → Event
  tool_result : (id result : String) → Event
  answer : String → Event
  failure : AgentError → Event

-- A tool: its name, and what it does with its arguments.
pub record Tool (W Json : Type 0) : Type 0 where
  pub name : String
  pub execute : Json → W → Outcome String × W

-- `AgentRuntime`, for one session and one configuration; `tools` are in the order given to `new`.
pub record AgentRuntime : Type 1 where
  pub W : Type 0
  pub Json : Type 0
  pub complete : List Message → W → Outcome CompletionResponse × W
  pub tools : List (Tool W Json)
  pub from_str : String → Attempt Json
  pub system_prompt : String
