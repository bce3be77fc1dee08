-- ===== src/Agent/OpenAi.antt =====
-- `complete` of crates/agent/src/providers/openai.rs: what the server is asked, and what is read of its
-- reply. The HTTP client and the reader of JSON are parameters; the log is left out.
use nasserver.Base.{String, Bool, not, Option, none, some, List, [], ◌∷◌, map, if◌then◌else◌}
use nasserver.Base.Text.{◌<>◌, is_empty, ends_with, trim_end_char}
use nasserver.Domain.{Attempt, done, failed}
use nasserver.Agent.Types.{
  provider_error, Outcome, fine, wrong, Role, user, assistant, system, tool, ToolCall, Message,
  CompletionResponse,
}

-- `OpenAIToolCall` with its function
pub record OpenAiToolCall : Type 0 where
  pub id : String
  pub kind : String
  pub name : String
  pub arguments : String

-- `OpenAIMessage`
pub record OpenAiMessage : Type 0 where
  pub role : String
  pub content : Option String
  pub tool_calls : Option (List OpenAiToolCall)
  pub tool_call_id : Option String

-- `ToolDefinition`; the parameters are a JSON text.
pub record ToolDefinition : Type 0 where
  pub name : String
  pub description : String
  pub parameters : String

-- `OpenAIRequest`; a tool has its kind before it.
pub record OpenAiRequest : Type 0 where
  pub model : String
  pub messages : List OpenAiMessage
  pub tools : Option (List (String × ToolDefinition))

-- The message of `OpenAIChoice`, with the fields that are read.
pub record Choice : Type 0 where
  pub content : Option String
  pub reasoning : Option String
  pub tool_calls : Option (List OpenAiToolCall)

pub record Reply : Type 0 where
  pub is_success : Bool
  pub text : Attempt String

-- `post` sends a request with a key to an address; `from_str` reads the choices of a body.
pub record Client (V : Type 0) : Type 0 where
  pub post : String → String → OpenAiRequest → V → Attempt Reply × V
  pub from_str : String → Attempt (List Choice)

-- `AgentConfig`, as far as it is read here.
pub record AgentConfig : Type 0 where
  pub model : Option String
  pub endpoint : Option String

pub record OpenAiProvider : Type 0 where
  pub api_key : String
  pub base_url : String
  pub model : String

abbrev pub role_name : Role → String
role_name user = "user"
role_name assistant = "assistant"
role_name system = "system"
role_name tool = "tool"

abbrev pub map_option : {A B : Type 0} → (A → B) → Option A → Option B
map_option f none = none
map_option f (some a) = some (f a)

abbrev pub asked_call : ToolCall → OpenAiToolCall
asked_call c = record { id = c.id; kind = "function"; name = c.name; arguments = c.arguments }

abbrev pub answered_call : OpenAiToolCall → ToolCall
answered_call c = record { id = c.id; name = c.name; arguments = c.arguments }

abbrev pub openai_message : Message → OpenAiMessage
openai_message m = record {
  role = role_name m.role;
  content = m.content;
  tool_calls = map_option (map asked_call) m.tool_calls;
  tool_call_id = m.tool_call_id;
}

abbrev pub openai_tools : List ToolDefinition → Option (List (String × ToolDefinition))
openai_tools [] = none
openai_tools (t ∷ ts) = some (map (λ (d : ToolDefinition). ("function", d)) (t ∷ ts))

abbrev pub model_of : String → Option String → String
model_of own none = own
model_of own (some model) = model

-- The address of the configuration gets "/v1" where it does not end so.
unfoldable pub base_url_of : String → Option String → String
base_url_of own none = own
base_url_of own (some endpoint) =
    if ends_with endpoint "/v1" then endpoint else trim_end_char b'/' endpoint <> "/v1"

-- The reasoning stands in for a content that is missing or empty.
unfoldable pub content_of : Choice → Option String
content_of c = elim c.reasoning [
  | none ↦ c.content
  | some reasoning ↦ elim c.content [
    | none ↦ some ("(Reasoning: " <> (reasoning <> ")\n"))
    | some text ↦ if is_empty text then some ("(Reasoning: " <> (reasoning <> ")\n")) else some text
  ]
]

unfoldable pub first_response : List Choice → Outcome CompletionResponse
first_response [] = wrong (provider_error "No choices returned")
first_response (c ∷ cs) =
    fine
      (record { content = content_of c; tool_calls = map_option (map answered_call) c.tool_calls })

abbrev pub text_or_default : Attempt String → String
text_or_default (done text) = text
text_or_default (failed message) = ""

unfoldable pub openai_request :
    OpenAiProvider → AgentConfig → List ToolDefinition → List Message → OpenAiRequest
openai_request O config tools messages = record {
  model = model_of O.model config.model;
  messages = map openai_message messages;
  tools = openai_tools tools;
}

module _ {V : Type 0} (C : Client V) (O : OpenAiProvider) (config : AgentConfig) where
  -- What is read of a reply.
  unfoldable pub read_reply : Reply → Outcome CompletionResponse
  read_reply r =
      if not r.is_success
      then wrong (provider_error ("OpenAI API error: " <> text_or_default r.text))
      else elim r.text [
        | failed message ↦ wrong (provider_error message)
        | done text ↦ elim (C.from_str text) [
          | failed message ↦ wrong (provider_error message)
          | done choices ↦ first_response choices
        ]
      ]

  -- `complete`
  unfoldable pub complete : List ToolDefinition → List Message → V → Outcome CompletionResponse × V
  complete tools messages v =
      let url = base_url_of O.base_url config.endpoint <> "/chat/completions" in
      let (sent, v') = C.post url O.api_key (openai_request O config tools messages) v in
      let outcome : Outcome CompletionResponse = elim sent [
        | failed message ↦ wrong (provider_error message)
        | done reply ↦ read_reply reply
      ] in
      (outcome, v')
