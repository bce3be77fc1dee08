-- ===== src/Agent/Tests/Conversations.antt =====
-- The theorems about conversations and about the commands of a session, applied to small tables and
-- to the small terminal.
use mathlib.Core.List.{reverse, reverse-reverse}
use nasserver.Base.{
  ℕ, ◌+◌, String, ◌≡◌, refl, false, none, some, [], ◌∷◌, map, arith, if◌then◌else◌, Bool-cases, inl,
  inr,
}
use mathlib.Core.Path.{subst}
use nasserver.Base.Text.{starts_with, strip_prefix, split, join}
use nasserver.Base.Text.Space.{trim, trim_start, trim_end, is_whitespace}
use nasserver.Base.Text.Search.{split_once}
use nasserver.Storage.Paths.Laws.{IsSafe}
use nasserver.Base.Text.{◌=s=◌}
use nasserver.Base.Ends.{last_n}
use nasserver.Domain.{Attempt, ok, done, failed}
use nasserver.Storage.Tables.{keys_unique}
use nasserver.Storage.Sample.{platform, start}
use nasserver.Kernel.Sample.{roaming, roaming-ActsByCalls, engine}
use nasserver.Kernel.CommandLine.{
  strip_heredoc, tokenize, segments, segments_from, redirects, redirects_from,
}
use nasserver.Kernel.Userland.{get_script}
use nasserver.Kernel.Service.{
  success, execute_script, run_pipeline, run_segment, run_words, run_command, run_script, finish,
}
use nasserver.Agent.Conversations.{
  ChatRow, Database, Conversations, messages_of, to_message, history_with,
}
use nasserver.Agent.Conversations.Window.{IsOrder, history_with-IsWindow}
use nasserver.Agent.Commands.{
  find_cwd, set_cwd, cwd_or_home, Desk, username_or_admin, run_in, execute_command,
}
use nasserver.Agent.Commands.Desks.{
  IsTidy, AllSafe, execute_command-Isolates, execute_command-KeepsTidy,
}

abbrev database : Database
database = record {
  Json = Unit {0};
  fault = λ n. none;
  violation = "constraint";
  new_v4 = λ n. "new";
  now = λ n. n + 10;
  parse_uuid = λ s. some s;
  oldest_first = reverse;
  newest_first = reverse;
  latest_first = λ ss. ss;
  read_calls = λ v. [];
  read_call_id = λ v. none;
  calls_json = λ cs. none;
  call_id_json = λ s. tt;
}

abbrev row : String → ℕ → ChatRow (Unit {0})
row content time = record {
  id = content;
  session_id = "s";
  role = "assistant";
  content = content;
  tool_calls = none;
  created_at = time;
}

abbrev conversations : Conversations database
conversations = record {
  tables = record {
    sessions =
        record {
          id = "s";
          user_id = "1";
          agent_id = "default";
          title = "hello";
          last_message = none;
          created_at = 0;
          updated_at = 0;
        }
        ∷ [];
    messages = row "hi" 1 ∷ row "well" 2 ∷ [];
  };
  tick = 0;
}

database-IsOrder : IsOrder database
database-IsOrder = record { newest = λ rows h. refl; oldest = λ rows h. reverse-reverse rows }

history_with-IsWindow_example :
    (history_with database "s" "how are you" conversations).0
    ≡ ok (map (to_message database) (last_n 49 (messages_of database "s" conversations.tables)))
history_with-IsWindow_example =
    history_with-IsWindow database database-IsOrder "s" "how are you" conversations refl refl
      (refl, refl) (omega arith, (omega arith, tt))

abbrev names : String → Attempt String
names uid = if uid =s= "2" then done "bob" else failed "User not found"

abbrev desk : Desk platform
desk = record { cwds = ("t", "/System") ∷ []; world = start }

abbrev desk_after : Desk platform
desk_after = record { cwds = ("t", "/System") ∷ ("s", "/User/bob") ∷ []; world = start }

ran :
    execute_command platform engine names (some "2") (some "s") "whoami" desk
    ≡ (ok (success "hello", "/User/bob"), desk_after)
unfolding execute_command run_in username_or_admin execute_script run_pipeline run_segment run_words
    run_command run_script finish get_script strip_heredoc tokenize segments segments_from redirects
    redirects_from cwd_or_home find_cwd set_cwd trim trim_start trim_end is_whitespace split_once
    strip_prefix starts_with split
ran = refl

execute_command-Isolates_example :
    (find_cwd "s" desk_after.cwds ≡ some "/User/bob")
    × (("s" =s= "t") ≡ false → find_cwd "t" desk_after.cwds ≡ find_cwd "t" desk.cwds)
execute_command-Isolates_example =
    execute_command-Isolates platform engine names (some "2") (some "s") "whoami" "t" desk
      desk_after (success "hello") "/User/bob" ran

names-AllSafe : AllSafe names
names-AllSafe uid name e = elim (Bool-cases (uid =s= "2")) [
  | inl f ↦ subst IsSafe (ground arith) bob-IsSafe
  | inr f ↦ absurd (ground arith)
]
  where
    bob-IsSafe : IsSafe "bob"
    bob-IsSafe = (λ e. cc, λ e. cc, λ e. cc, (omega arith, (omega arith, (omega arith, tt))))

desk-IsTidy : IsTidy desk
unfolding keys_unique join
desk-IsTidy = record { normal = (("System" ∷ [], refl, (System-IsSafe, tt)), tt); unique = refl }
  where
    System-IsSafe : IsSafe "System"
    System-IsSafe = (
      λ e. cc,
      λ e. cc,
      λ e. cc,
      (omega arith, (omega arith, (omega arith, (omega arith, (omega arith, (omega arith, tt)))))),
    )

execute_command-KeepsTidy_example :
    IsTidy (execute_command platform roaming names (some "2") (some "s") "cd /User" desk).1
execute_command-KeepsTidy_example =
    execute_command-KeepsTidy platform roaming names (some "2") (some "s") "cd /User" desk
      names-AllSafe roaming-ActsByCalls desk-IsTidy
