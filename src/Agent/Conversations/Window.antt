-- ===== src/Agent/Conversations/Window.antt =====
-- The history that `chat` of crates/agent/src/agent_service.rs gives to the agent.
use mathlib.Core.List.{reverse}
use nasserver.Base.{
  ℕ, zero, suc, ◌+◌, ◌-◌, ◌<◌, String, ◌≡◌, refl, ap, ◌∙◌, Bool, true, false, none, some, List, [],
  ◌∷◌, ◌++◌, map, any, keep, drop, length, arith, if◌then◌else◌, Option-cases, inl, inr,
}
use nasserver.Base.Text.{◌=s=◌, eq_refl}
use nasserver.Base.Ends.{last_n, take-reverse, last_n-append}
use nasserver.Domain.{Result, ok, after}
use nasserver.Agent.Types.{Message}
use nasserver.Agent.Conversations.{
  ChatSession, ChatRow, Database, Tables, Conversations, Op, execute-runs, query-runs, execute,
  commit, insert_message, touch_session, new_row, messages_of, window, get_session_messages,
  save_message, to_message, is_input, without_input, history_with,
}

-- Each row is newer than those before it.
abbrev pub IsIncreasing : {J : Type 0} → List (ChatRow J) → Type 0
IsIncreasing [] = Unit
IsIncreasing (x ∷ []) = Unit
IsIncreasing (x ∷ y ∷ rows) = (x.created_at < y.created_at) × IsIncreasing (y ∷ rows)

-- What the database does with `order by` on rows whose times differ.
pub record IsOrder (D : Database) : Type 0 where
  pub newest :
      (rows : List (ChatRow D.Json)) → IsIncreasing rows → D.newest_first rows ≡ reverse rows
  pub oldest :
      (rows : List (ChatRow D.Json)) → IsIncreasing rows → D.oldest_first (reverse rows) ≡ rows

IsIncreasing-tail :
    {J : Type 0} (x : ChatRow J) (rows : List (ChatRow J))
    → IsIncreasing (x ∷ rows)
    → IsIncreasing rows
IsIncreasing-tail x [] h = tt
IsIncreasing-tail x (y ∷ rows) h = h.1

IsIncreasing-drop :
    {J : Type 0} (k : ℕ) (rows : List (ChatRow J)) → IsIncreasing rows → IsIncreasing (drop k rows)
IsIncreasing-drop zero rows h = h
IsIncreasing-drop (suc k) [] h = h
IsIncreasing-drop (suc k) (x ∷ rows) h = IsIncreasing-drop k rows (IsIncreasing-tail x rows h)

module _ (D : Database) (O : IsOrder D) where
  window-last_n :
      (rows : List (ChatRow D.Json)) → IsIncreasing rows → window D rows ≡ last_n 50 rows
  unfolding window last_n
  window-last_n rows h =
      let k = length rows - 50 in
      rw (O.newest rows h, window)
        (rw (take-reverse 50 rows, last_n) (O.oldest (drop k rows) (IsIncreasing-drop k rows h)))

map-append : {A B : Type 0} (f : A → B) (xs ys : List A) → map f (xs ++ ys) ≡ map f xs ++ map f ys
map-append f [] ys = refl
map-append f (x ∷ xs) ys = ap (λ zs. f x ∷ zs) (map-append f xs ys)

keep-append :
    {A : Type 0} (p : A → Bool) (xs ys : List A) → keep p (xs ++ ys) ≡ keep p xs ++ keep p ys
keep-append p [] ys = refl
keep-append p (x ∷ xs) ys = ground (arith, keep-append p xs ys)

without_input-append :
    (input : String) (m : Message) (ms : List Message)
    → is_input input m ≡ true
    → without_input input (ms ++ (m ∷ [])) ≡ ms
unfolding without_input
without_input-append input m [] h = rw h refl
without_input-append input m (x ∷ []) h = rw h refl
without_input-append input m (x ∷ y ∷ ms) h =
    ap (λ zs. x ∷ zs) (without_input-append input m (y ∷ ms) h)

-- The session is there, and the identifier of the new row is new.
abbrev pub MayInsert : (D : Database) → ChatRow D.Json → Tables D → Type 0
MayInsert D m t =
    (any (λ (r : ChatSession). r.id =s= m.session_id) t.sessions ≡ true)
    × (any (λ (r : ChatRow D.Json). r.id =s= m.id) t.messages ≡ false)

module _ (D : Database) where
  insert_message-runs :
      (m : ChatRow D.Json) (t : Tables D)
      → MayInsert D m t
      → insert_message D m t ≡ some (record t { messages = t.messages ++ (m ∷ []) })
  unfolding insert_message
  insert_message-runs m t (there, new) = rw (there, insert_message) (rw new refl)

  touch_session-still :
      (content session_id : String) (w : Conversations D)
      → ((execute D (touch_session D (D.now w.tick) content session_id) w).1.tables.messages
          ≡ w.tables.messages)
        × ((execute D (touch_session D (D.now w.tick) content session_id) w).1.tick ≡ w.tick + 1)
  unfolding execute touch_session
  touch_session-still content session_id w = elim (Option-cases (D.fault w.tick)) [
    | inl e ↦ (ground arith, ground arith)
    | inr (m, e) ↦ (ground arith, ground arith)
  ]

  -- A message that is saved stands behind all others, whether the update of the session fails or not.
  save_message-messages :
      (session_id role content : String) (w : Conversations D)
      → D.fault w.tick ≡ none
      → MayInsert D (new_row D w.tick session_id role content none) w.tables
      → ((save_message D session_id role content none w).0 ≡ ok tt)
        × ((save_message D session_id role content none w).1.tables.messages
            ≡ w.tables.messages ++ (new_row D w.tick session_id role content none ∷ []))
        × ((save_message D session_id role content none w).1.tick ≡ w.tick + 1 + 1)
  unfolding save_message
  save_message-messages session_id role content w runs may =
      let m = new_row D w.tick session_id role content none in
      let t : Tables D = record {
        sessions = w.tables.sessions;
        messages = w.tables.messages ++ (m ∷ []);
      } in
      let v : Conversations D = record { tables = t; tick = w.tick + 1 } in
      let inserted : execute D (insert_message D m) w ≡ (ok tt, v) =
        execute-runs D (insert_message D m) w runs
        ∙ ap (λ o. commit D o (record w { tick = w.tick + 1 }))
            (insert_message-runs m w.tables may) in
      let (kept, later) = touch_session-still content session_id v in
      (rw inserted refl, rw inserted kept, rw inserted later)

  after-ok :
      {A B : Type 0} (r : Result A × Conversations D) (k : A → Op D B) (a : A)
      → r.0 ≡ ok a
      → after r k ≡ k a r.1
  after-ok r k a h = rw h refl

-- The history of the rows with the input behind them.
history-last_n :
    (D : Database) (O : IsOrder D) (session_id input : String) (tick : ℕ)
    (messages : List (ChatRow D.Json))
    → (let m = new_row D tick session_id "user" input none in
        let rows = keep (λ (r : ChatRow D.Json). r.session_id =s= session_id) messages in
        IsIncreasing (rows ++ (m ∷ []))
        → without_input input (
            map (to_message D) (
              window D (
                keep (λ (r : ChatRow D.Json). r.session_id =s= session_id) (messages ++ (m ∷ [])))))
          ≡ map (to_message D) (last_n 49 rows))
unfolding to_message
history-last_n D O session_id input tick messages rising =
    let m = new_row D tick session_id "user" input none in
    let is_row : ChatRow D.Json → Bool = λ r. r.session_id =s= session_id in
    let rows = keep is_row messages in
    let kept : keep is_row (messages ++ (m ∷ [])) ≡ rows ++ (m ∷ []) =
      keep-append is_row messages (m ∷ [])
      ∙ ap (λ b. rows ++ (if b then m ∷ [] else [])) (eq_refl session_id) in
    let old = map (to_message D) (last_n 49 rows) in
    ap (λ xs. without_input input (map (to_message D) (window D xs))) kept
    ∙ (ap (λ xs. without_input input (map (to_message D) xs))
          (window-last_n D O (rows ++ (m ∷ [])) rising ∙ last_n-append 49 rows m)
        ∙ (ap (without_input input) (map-append (to_message D) (last_n 49 rows) (m ∷ []))
            ∙ without_input-append input (to_message D m) old (eq_refl input)))

-- The history that the agent gets with an input: where the input can be saved and the session's
-- messages can be read, it is the last forty-nine earlier messages of the session, the oldest first,
-- without the input, which the agent adds itself. The times of the session's rows, the new one
-- included, must differ and follow their order.
pub history_with-IsWindow :
    (D : Database) (O : IsOrder D) (session_id input : String) (w : Conversations D)
    → D.fault w.tick ≡ none
    → D.fault (w.tick + 1 + 1) ≡ none
    → MayInsert D (new_row D w.tick session_id "user" input none) w.tables
    → IsIncreasing
        (messages_of D session_id w.tables ++ (new_row D w.tick session_id "user" input none ∷ []))
    → (history_with D session_id input w).0
      ≡ ok (map (to_message D) (last_n 49 (messages_of D session_id w.tables)))
unfolding history_with get_session_messages
history_with-IsWindow D O session_id input w runs reads may rising =
    let (saved, messages, tick) = save_message-messages D session_id "user" input w runs may in
    let m = new_row D w.tick session_id "user" input none in
    let v = (save_message D session_id "user" input none w).1 in
    let f : Tables D → List (ChatRow D.Json) = λ t. window D (messages_of D session_id t) in
    let read = query-runs D f v (ap D.fault tick ∙ reads) in
    rw saved (
      rw (read, messages)
        (ap ok (history-last_n D O session_id input w.tick w.tables.messages rising)))
