-- ===== src/Agent/Terminal.antt =====
-- The tool of crates/agent/src/tools/terminal.rs, and the runtime that `chat` of
-- crates/agent/src/agent_service.rs builds of it and the provider.
pub mod Sound
pub mod Trace
use nasserver.Base.{
  ℕ, String, Bool, true, false, not, Option, none, some, List, [], ◌∷◌, ◌==◌, if◌then◌else◌,
}
use nasserver.Base.Text.{◌<>◌, is_empty, join}
use nasserver.Domain.{Attempt}
use nasserver.Storage.World.{Platform}
use nasserver.Kernel.Session.{Session, Engine}
use nasserver.Kernel.Service.{available_commands, Answer, execute_script}
use nasserver.Agent.Types.{
  tool_error, Outcome, fine, wrong, Tool, Message, CompletionResponse, AgentRuntime,
}
use nasserver.Agent.OpenAi.{Client, OpenAiProvider, AgentConfig, ToolDefinition, complete}

abbrev pub description : String
description =
    "Execute Linux shell commands. You are in a NAS terminal environment with standard Linux capabilities. "
    <> ("You can manage files, check system status, and perform administrative tasks. "
        <> ("Available commands include but are not limited to: "
            <> (join ", " available_commands <> ". Use 'help' to see the full list.")))

-- The error output behind the output.
abbrev pub joined_output : Answer → String
joined_output a =
    if is_empty a.stderr
    then a.stdout
    else ((if is_empty a.stdout then "" else a.stdout <> "\nSTDERR:\n") <> a.stderr)

-- What the model is told of an answer; `show` writes an exit code.
unfoldable pub told_of : (ℕ → String) → Answer → String
told_of show a =
    if not (a.code == 0)
    then "Command failed with code "
      <> (show a.code <> (":\nSTDOUT:\n" <> (a.stdout <> ("\nSTDERR:\n" <> a.stderr))))
    else if is_empty (joined_output a)
    then "(Command executed successfully)"
    else joined_output a

-- What the runtime is built with; `command_of` is the text of the field "command". `V` is the state of
-- the network.
pub record Desk (V Json : Type 0) : Type 0 where
  pub client : Client V
  pub provider : OpenAiProvider
  pub config : AgentConfig
  pub show : ℕ → String
  pub from_str : String → Attempt Json
  pub command_of : Json → Option String
  pub parameters : String
  pub system_prompt : String

module _ (P : Platform) (E : Engine P) {V Json : Type 0} (D : Desk V Json) where
  -- `TerminalTool::execute`
  unfoldable pub run_terminal : Json → Session P × V → Outcome String × (Session P × V)
  run_terminal args (s, v) = elim (D.command_of args) [
    | none ↦ (wrong (tool_error "Missing command"), (s, v))
    | some command ↦
        let (answer, s') = execute_script P E command s in (fine (told_of D.show answer), (s', v))
  ]

  abbrev pub terminal : Tool (Session P × V) Json
  terminal = record { name = "terminal"; execute = run_terminal }

  abbrev pub definition : ToolDefinition
  definition = record { name = "terminal"; description = description; parameters = D.parameters }

  unfoldable pub ask_provider :
      List Message → Session P × V → Outcome CompletionResponse × (Session P × V)
  ask_provider messages (s, v) =
      let (outcome, v') = complete D.client D.provider D.config (definition ∷ []) messages v in
      (outcome, (s, v'))

  abbrev pub agent : AgentRuntime
  agent = record {
    W = Session P × V;
    Json = Json;
    complete = ask_provider;
    tools = terminal ∷ [];
    from_str = D.from_str;
    system_prompt = D.system_prompt;
  }
