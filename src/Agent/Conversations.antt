-- ===== src/Agent/Conversations.antt =====
-- The conversations of crates/agent/src/agent_service.rs: the tables of sessions and messages, and what
-- `chat` does before and after the agent's loop. The database's failures and its orders, the
-- identifiers, the clock and the reader of JSON are parameters.
pub mod Window
use nasserver.Base.{
  ℕ, zero, suc, ◌+◌, String, ◌≡◌, refl, Bool, true, false, not, ◌&&◌, ◌||◌, Option, none, some,
  List, [], ◌∷◌, ◌++◌, map, any, keep, take, if◌then◌else◌,
}
use nasserver.Base.Text.{◌=s=◌}
use nasserver.Domain.{
  Error, bad_request, database, internal, Result, ok, err, Attempt, done, failed, M, pure, fail,
  require, expect, ignore, ◌>>=◌, ◌>>◌,
}
use nasserver.Storage.Listing.{or_default}
use nasserver.Agent.Types.{
  Role, user, assistant, system, tool, ToolCall, Message, Event, thought, tool_call, tool_result,
  answer, failure,
}

-- `ChatSession`, `agent.chat_sessions`
pub record ChatSession : Type 0 where
  pub id : String
  pub user_id : String
  pub agent_id : String
  pub title : String
  pub last_message : Option String
  pub created_at : ℕ
  pub updated_at : ℕ

-- `ChatMessageEntity`, `agent.chat_messages`
pub record ChatRow (Json : Type 0) : Type 0 where
  pub id : String
  pub session_id : String
  pub role : String
  pub content : String
  pub tool_calls : Option Json
  pub created_at : ℕ

-- `order by created_at asc` and `desc`, and that of the sessions; `tool_calls` reads the calls of a
-- row and yields none that cannot be read, `tool_call_id` reads the field of that name.
pub record Database : Type 1 where
  pub Json : Type 0
  pub fault : ℕ → Option String
  pub violation : String
  pub new_v4 : ℕ → String
  pub now : ℕ → ℕ
  pub parse_uuid : String → Option String
  pub oldest_first : List (ChatRow Json) → List (ChatRow Json)
  pub newest_first : List (ChatRow Json) → List (ChatRow Json)
  pub latest_first : List ChatSession → List ChatSession
  pub read_calls : Json → List ToolCall
  pub read_call_id : Json → Option String
  pub calls_json : List ToolCall → Option Json
  pub call_id_json : String → Json

-- `ChatMessage` and `ChatRequest`
pub record ChatMessage : Type 0 where
  pub role : String
  pub content : String

pub record ChatRequest : Type 0 where
  pub messages : List ChatMessage
  pub session_id : Option String
  pub user_id : Option String
  pub agent_id : Option String

unfoldable pub last_chat_message : List ChatMessage → Option ChatMessage
last_chat_message [] = none
last_chat_message (m ∷ []) = some m
last_chat_message (m ∷ n ∷ ms) = last_chat_message (n ∷ ms)

-- `chars().take(n)`
unfoldable pub first_chars : ℕ → String → String
first_chars zero s = ""
first_chars (suc n) String.[] = ""
first_chars (suc n) (String.◌∷◌ c s) = String.◌∷◌ c (first_chars n s)

abbrev pub role_of : String → Role
role_of role =
    if role =s= "assistant"
    then assistant
    else if role =s= "system"
    then system
    else if role =s= "tool"
    then tool
    else user

-- Is it the input of the user?
abbrev pub is_input : String → Message → Bool
is_input input m = elim m.role [
  | user ↦ elim m.content [ none ↦ false | some c ↦ c =s= input ]
  | _ ↦ false
]

-- The history without its last message, if that is the input.
unfoldable pub without_input : String → List Message → List Message
without_input input [] = []
without_input input (m ∷ []) = if is_input input m then [] else m ∷ []
without_input input (m ∷ n ∷ ms) = m ∷ without_input input (n ∷ ms)

module _ (D : Database) where
  pub record Tables : Type 0 where
    pub sessions : List ChatSession
    pub messages : List (ChatRow D.Json)

  pub record Conversations : Type 0 where
    pub tables : Tables
    pub tick : ℕ

  abbrev pub Op : Type 0 → Type 0
  Op A = M Conversations A

  -- A statement that reads.
  unfoldable pub query : {A : Type 0} → (Tables → A) → Op A
  query f w = elim (D.fault w.tick) [
    | some message ↦ (err (database message), record w { tick = w.tick + 1 })
    | none ↦ (ok (f w.tables), record w { tick = w.tick + 1 })
  ]

  -- What a statement that writes leaves: `none` where it would break a constraint.
  abbrev pub commit : Option Tables → Conversations → Result (Unit {0}) × Conversations
  commit none w = (err (database D.violation), w)
  commit (some tables) w = (ok tt, record w { tables = tables })

  -- A statement that writes. A failed statement changes no row.
  unfoldable pub execute : (Tables → Option Tables) → Op (Unit {0})
  execute f w = elim (D.fault w.tick) [
    | some message ↦ (err (database message), record w { tick = w.tick + 1 })
    | none ↦ commit (f w.tables) (record w { tick = w.tick + 1 })
  ]

  pub execute-runs :
      (f : Tables → Option Tables) (w : Conversations)
      → D.fault w.tick ≡ none
      → execute f w ≡ commit (f w.tables) (record w { tick = w.tick + 1 })
  unfolding execute
  execute-runs f w e = rw (e, execute) refl

  pub query-runs :
      {A : Type 0} (f : Tables → A) (w : Conversations)
      → D.fault w.tick ≡ none
      → query f w ≡ (ok (f w.tables), record w { tick = w.tick + 1 })
  unfolding query
  query-runs f w e = rw (e, query) refl

  -- `insert into agent.chat_sessions`
  unfoldable pub insert_session : ChatSession → Tables → Option Tables
  insert_session s t =
      if any (λ (r : ChatSession). r.id =s= s.id) t.sessions
      then none
      else some (record t { sessions = t.sessions ++ (s ∷ []) })

  -- `insert into agent.chat_messages`: the session must be there.
  unfoldable pub insert_message : ChatRow D.Json → Tables → Option Tables
  insert_message m t =
      if any (λ (r : ChatSession). r.id =s= m.session_id) t.sessions
        && not (any (λ (r : ChatRow D.Json). r.id =s= m.id) t.messages)
      then some (record t { messages = t.messages ++ (m ∷ []) })
      else none

  -- `update agent.chat_sessions set updated_at = now(), last_message = $1 where id = $2`
  unfoldable pub touch_session : ℕ → String → String → Tables → Option Tables
  touch_session now content session_id t = some (record t {
    sessions =
        map
          (λ (s : ChatSession).
            if s.id =s= session_id
            then record s { updated_at = now; last_message = some content }
            else s)
          t.sessions;
  })

  -- `delete from agent.chat_sessions where id = $1`; its messages go with it.
  unfoldable pub drop_session : String → Tables → Option Tables
  drop_session session_id t = some (record {
    sessions = keep (λ (s : ChatSession). not (s.id =s= session_id)) t.sessions;
    messages = keep (λ (m : ChatRow D.Json). not (m.session_id =s= session_id)) t.messages;
  })

  -- The row of a new message.
  abbrev pub new_row : ℕ → String → String → String → Option D.Json → ChatRow D.Json
  new_row tick session_id role content calls = record {
    id = D.new_v4 tick;
    session_id = session_id;
    role = role;
    content = content;
    tool_calls = calls;
    created_at = D.now tick;
  }

  abbrev pub insert_row : String → String → String → Option D.Json → Op (Unit {0})
  insert_row session_id role content calls w =
      execute (insert_message (new_row w.tick session_id role content calls)) w

  -- `list_sessions`
  unfoldable pub list_sessions : String → Op (List ChatSession)
  list_sessions user_id =
      query (λ t. D.latest_first (keep (λ (s : ChatSession). s.user_id =s= user_id) t.sessions))

  -- The rows of a session.
  abbrev pub messages_of : String → Tables → List (ChatRow D.Json)
  messages_of session_id t = keep (λ (m : ChatRow D.Json). m.session_id =s= session_id) t.messages

  -- The newest fifty, the oldest of them first.
  unfoldable pub window : List (ChatRow D.Json) → List (ChatRow D.Json)
  window rows = D.oldest_first (take 50 (D.newest_first rows))

  -- `get_session_messages`
  unfoldable pub get_session_messages : String → Op (List (ChatRow D.Json))
  get_session_messages session_id = query (λ t. window (messages_of session_id t))

  -- `create_session`
  unfoldable pub create_session : String → String → String → Op ChatSession
  create_session user_id agent_id title w =
      let s : ChatSession = record {
        id = D.new_v4 w.tick;
        user_id = user_id;
        agent_id = agent_id;
        title = title;
        last_message = none;
        created_at = D.now w.tick;
        updated_at = D.now w.tick;
      } in
      (execute (insert_session s) >>= λ _. pure s) w

  -- `save_message`: the update of the session may fail unseen.
  unfoldable pub save_message : String → String → String → Option D.Json → Op (Unit {0})
  save_message session_id role content calls =
      insert_row session_id role content calls
      >> ignore (λ w. execute (touch_session (D.now w.tick) content session_id) w)

  -- `delete_session`
  unfoldable pub delete_session : String → Op (Unit {0})
  delete_session session_id = execute (drop_session session_id)

  -- A row as a message of the history.
  unfoldable pub to_message : ChatRow D.Json → Message
  to_message m =
      let is_tool = m.role =s= "tool" in
      record {
        role = role_of m.role;
        content = some m.content;
        tool_calls =
            if is_tool
            then none
            else elim m.tool_calls [ none ↦ none | some v ↦ some (D.read_calls v) ];
        tool_call_id =
            if is_tool then elim m.tool_calls [ none ↦ none | some v ↦ D.read_call_id v ] else none;
      }

  -- The session of a request, a new one where it names none.
  unfoldable pub session_of : String → ChatRequest → String → Op String
  session_of user_id req input = elim req.session_id [
    | some sid ↦ expect (D.parse_uuid sid) (bad_request "Invalid session_id")
    | none ↦
        create_session user_id (or_default req.agent_id "default") (first_chars 20 input) >>= λ s.
        pure s.id
  ]

  -- The history of a session once the input is saved there.
  unfoldable pub history_with : String → String → Op (List Message)
  history_with session_id input =
      save_message session_id "user" input none
      >> (get_session_messages session_id >>= λ rows.
          pure (without_input input (map to_message rows)))

  -- What `chat` does before the agent's loop: the session, the input, and the history.
  unfoldable pub prepare : ChatRequest → Op (String × String × List Message)
  prepare req = do
    last ← expect (last_chat_message req.messages) (bad_request "No messages provided")
    require (last.role =s= "user") (bad_request "Last message must be from user")
    user_id_str ← expect req.user_id (bad_request "user_id required")
    user_id ← expect (D.parse_uuid user_id_str) (bad_request "Invalid user_id")
    session_id ← session_of user_id req last.content
    history ← history_with session_id last.content
    pure (session_id, last.content, history)

  -- What `chat` stores of an event of the agent's loop; a failed statement goes unseen.
  unfoldable pub record_event : String → Event → Op (Unit {0})
  record_event session_id (thought text) = ignore (insert_row session_id "assistant" text none)
  record_event session_id (tool_call call) =
      ignore (insert_row session_id "assistant" "" (D.calls_json (call ∷ [])))
  record_event session_id (tool_result id result) =
      ignore (insert_row session_id "tool" result (some (D.call_id_json id)))
  record_event session_id (answer text) =
      ignore (insert_row session_id "assistant" text none)
      >> ignore (λ w. execute (touch_session (D.now w.tick) text session_id) w)
  record_event session_id (failure e) = pure tt

  -- The events of a stream. Each is stored by a task of its own; they are taken to run in the order
  -- of the stream.
  unfoldable pub record_events : String → List Event → Op (Unit {0})
  record_events session_id [] = pure tt
  record_events session_id (e ∷ es) = record_event session_id e >> record_events session_id es
