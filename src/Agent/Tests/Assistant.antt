-- ===== src/Agent/Tests/Assistant.antt =====
-- The assistant on the small terminal, with a server that asks for one command and then answers.
use nasserver.Base.{ℕ, zero, suc, String, ◌≡◌, refl, true, none, some, List, [], ◌∷◌}
use nasserver.Base.Text.{ends_with, trim_end_char}
use nasserver.Domain.{done}
use nasserver.Storage.Sample.{platform}
use nasserver.Kernel.Sample.{roaming, session}
use nasserver.Agent.{chat}
use nasserver.Agent.OpenAi.{Choice, base_url_of}
use nasserver.Agent.Terminal.{Desk, agent}
use nasserver.Agent.Terminal.Trace.{after_commands, commands_in, chat-RunsCommands}

-- The first body asks for a command, any other is an answer.
choices_of : String → List Choice
choices_of String.[] = record { content = some "Done."; reasoning = none; tool_calls = none } ∷ []
choices_of (String.◌∷◌ c s) =
    record {
      content = none;
      reasoning = none;
      tool_calls =
          some (record { id = "c1"; kind = "function"; name = "terminal"; arguments = "pwd" } ∷ []);
    }
    ∷ []

body : ℕ → String
body zero = "call"
body (suc n) = ""

abbrev desk : Desk ℕ String
desk = record {
  client = record {
    post = λ url key asked n. (done (record { is_success = true; text = done (body n) }), suc n);
    from_str = λ text. done (choices_of text);
  };
  provider = record { api_key = "key"; base_url = "https://api.openai.com/v1"; model = "m" };
  config = record { model = none; endpoint = some "http://nas:8000/" };
  show = λ n. "1";
  from_str = λ text. done text;
  command_of = λ args. some args;
  parameters = "{}";
  system_prompt = "You run a NAS.";
}

chat-RunsCommands_example :
    (chat (agent platform roaming desk) "Where am I?" [] (session, 0)).world.0
    ≡ after_commands platform roaming desk
        (commands_in platform roaming desk
          (chat (agent platform roaming desk) "Where am I?" [] (session, 0)).events)
        session
chat-RunsCommands_example = chat-RunsCommands platform roaming desk "Where am I?" [] session 0

slash_kept : base_url_of "" (some "http://nas/v1/") ≡ "http://nas/v1/v1"
unfolding base_url_of ends_with trim_end_char
slash_kept = refl

slash_trimmed : base_url_of "" (some "http://nas/") ≡ "http://nas/v1"
unfolding base_url_of ends_with trim_end_char
slash_trimmed = refl
