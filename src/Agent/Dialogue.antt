-- ===== src/Agent/Dialogue.antt =====
-- The messages that a chat of crates/agent/src/runtime.rs adds to its history.
use mathlib.Core.List.{append_assoc, append-nil}
use nasserver.Base.{
  ◌⊎◌, ℕ, zero, suc, String, ◌≡◌, refl, sym, ap, ◌∙◌, Bool, true, false, some, List, [], ◌∷◌, ◌++◌,
  arith, Bool-cases, inl, inr,
}
use nasserver.Agent.Types.{
  Outcome, fine, wrong, ToolCall, CompletionResponse, failure, AgentRuntime, Message, assistant,
  tool,
}
use nasserver.Agent.{
  calls_of, is_some, push, assistant_message, Chat, execute_tool, result_text, tool_message,
  run_tool, run_tools, emit, respond, iterate, iterations, opening, chat,
}

-- The messages answer the calls, each with the id of its own, in the same order.
abbrev pub AnswerCalls : List ToolCall → List Message → Type 0
AnswerCalls [] [] = Unit
AnswerCalls (call ∷ calls) (m ∷ ms) =
    (m.role ≡ tool) × (m.tool_call_id ≡ some call.id) × AnswerCalls calls ms
AnswerCalls _ _ = ⊥

-- At most `n` rounds: a message of the assistant with the answers to all its tool calls.
pub data IsDialogue : ℕ → List Message → Type 0 where
  over : (n : ℕ) → IsDialogue n []
  round :
      (n : ℕ) (m : Message) (answers rest : List Message)
      → m.role ≡ assistant
      → AnswerCalls (calls_of m.tool_calls) answers
      → IsDialogue n rest
      → IsDialogue (suc n) (m ∷ (answers ++ rest))

module _ (R : AgentRuntime) where
  run_tools-AnswerCalls :
      (calls : List ToolCall) (c : Chat R)
      → (ms : List Message) × ((run_tools R calls c).messages ≡ c.messages ++ ms)
        × AnswerCalls calls ms
  unfolding run_tools run_tool
  run_tools-AnswerCalls [] c = ([], sym (append-nil c.messages), tt)
  run_tools-AnswerCalls (call ∷ calls) c =
      let (ms, e, h) = run_tools-AnswerCalls calls (run_tool R call c) in
      let m =
        tool_message R call (result_text R (execute_tool R call.name call.arguments c.world).0) in
      (m ∷ ms, e ∙ append_assoc c.messages (m ∷ []) ms, (refl, refl, h))

  emit-messages : (r : CompletionResponse) (c : Chat R) → (emit R r c).messages ≡ c.messages
  unfolding emit
  emit-messages r c = ground arith

  -- A response adds one round.
  respond-AnswerCalls :
      (r : CompletionResponse) (c : Chat R)
      → (answers : List Message) × ((respond R r c).1.messages
          ≡ c.messages ++ (assistant_message R r ∷ answers))
        × AnswerCalls (calls_of r.tool_calls) answers
  unfolding respond
  respond-AnswerCalls r c = go (calls_of r.tool_calls)
    where
      spoken : Chat R
      spoken = emit R r (push R (assistant_message R r) c)

      go :
          (calls : List ToolCall)
          → (answers : List Message) × ((elim calls as (λ _. Bool × Chat R) [
            | [] ↦ (is_some r.content, spoken)
            | x ∷ xs ↦ (false, run_tools R (x ∷ xs) spoken)
          ]).1.messages
              ≡ c.messages ++ (assistant_message R r ∷ answers))
            × AnswerCalls calls answers
      go [] = ([], emit-messages r (push R (assistant_message R r) c), tt)
      go (x ∷ xs) =
          let (ms, e, h) = run_tools-AnswerCalls (x ∷ xs) spoken in
          (
            ms,
            e
                ∙ (ap (λ l. l ++ ms) (emit-messages r (push R (assistant_message R r) c))
                    ∙ append_assoc c.messages (assistant_message R r ∷ []) ms),
            h,
          )

  -- What an iteration adds: nothing, where it breaks, or one round.
  abbrev Adds : Bool × Chat R → Chat R → Type 0
  Adds (stop, c') c =
      ((stop ≡ true) × (c'.messages ≡ c.messages))
      ⊎ ((m : Message) × (answers : List Message) × (c'.messages ≡ c.messages ++ (m ∷ answers))
          × (m.role ≡ assistant)
          × AnswerCalls (calls_of m.tool_calls) answers)

  iterate-Adds : (c : Chat R) → Adds (iterate R c) c
  unfolding iterate
  iterate-Adds c = go (R.complete c.messages c.world)
    where
      go :
          (answered : Outcome CompletionResponse × R.W)
          → Adds
              (elim answered.0 as (λ _. Bool × Chat R) [
                | wrong e ↦
                    (true, record c { events = c.events ++ (failure e ∷ []); world = answered.1 })
                | fine r ↦ respond R r (record c { world = answered.1 })
              ])
              c
      go (wrong e, w) = inl (refl, refl)
      go (fine r, w) =
          let (answers, e, h) = respond-AnswerCalls r (record c { world = w }) in
          inr (assistant_message R r, answers, e, refl, h)

  pub iterations-IsDialogue :
      (n : ℕ) (c : Chat R)
      → (ms : List Message) × ((iterations R n c).messages ≡ c.messages ++ ms) × IsDialogue n ms
  unfolding iterations
  iterations-IsDialogue zero c = ([], sym (append-nil c.messages), over 0)
  iterations-IsDialogue (suc n) c =
      let (ms, e, h) = iterations-IsDialogue n (iterate R c).1 in
      elim (iterate-Adds c) [
        | inl (stop, same) ↦ rw stop ([], same ∙ sym (append-nil c.messages), over (suc n))
        | inr (m, answers, grown, role, answered) ↦ elim (Bool-cases (iterate R c).0) [
          | inl stop ↦ rw stop (
            m ∷ (answers ++ []),
            grown ∙ ap (λ l. c.messages ++ (m ∷ l)) (sym (append-nil answers)),
            round n m answers [] role answered (over n),
          )
          | inr goes_on ↦ rw goes_on (
            m ∷ (answers ++ ms),
            e ∙ (ap (λ l. l ++ ms) grown ∙ append_assoc c.messages (m ∷ answers) ms),
            round n m answers ms role answered h,
          )
        ]
      ]

-- A chat adds at most ten rounds to its opening messages: each is one message of the assistant
-- followed by exactly one tool message for each of its tool calls, in their order, with their ids.
pub chat-IsDialogue :
    (R : AgentRuntime) (input : String) (history : List Message) (w : R.W)
    → (ms : List Message) × ((chat R input history w).messages ≡ opening R input history ++ ms)
      × IsDialogue 10 ms
unfolding chat
chat-IsDialogue R input history w =
    iterations-IsDialogue R 10
      (record { messages = opening R input history; events = []; world = w })
