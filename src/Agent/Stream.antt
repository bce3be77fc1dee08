-- ===== src/Agent/Stream.antt =====
-- What a chat of crates/agent/src/runtime.rs sends to its stream.
use mathlib.Core.List.{append_assoc, append-nil}
use nasserver.Base.{
  ℕ, zero, suc, String, ◌≡◌, refl, sym, ap, ◌∙◌, Bool, true, false, Option, none, some, List, [],
  ◌∷◌, ◌++◌, All, All-append, Bool-cases, inl, inr,
}
use nasserver.Agent.Types.{
  Outcome, fine, wrong, ToolCall, CompletionResponse, Event, thought, tool_call, tool_result,
  answer, failure, AgentRuntime, Message,
}
use nasserver.Agent.{
  send, push, assistant_message, Chat, execute_tool, result_text, run_tool, run_tools, emit,
  respond, iterate, iterations, opening, chat,
}

-- An answer, or an error.
unfoldable pub is_final : Event → Bool
is_final (answer text) = true
is_final (failure e) = true
is_final _ = false

abbrev pub IsInner : Event → Type 0
IsInner e = is_final e ≡ false

module _ (R : AgentRuntime) where
  -- From one chat to a later one, only inner events are sent.
  abbrev Quiet : Chat R → Chat R → Type 0
  Quiet c c' = (es : List Event) × (c'.events ≡ c.events ++ es) × All IsInner es

  -- From one chat to a later one, inner events are sent and then one final event.
  abbrev Ends : Chat R → Chat R → Type 0
  Ends c c' =
      (es : List Event) × (e : Event) × (c'.events ≡ c.events ++ (es ++ (e ∷ [])))
      × All IsInner es
      × (is_final e ≡ true)

  Quiet-trans : (a b c : Chat R) → Quiet a b → Quiet b c → Quiet a c
  Quiet-trans a b c (es, e, h) (es', e', h') = (
    es ++ es',
    e' ∙ (ap (λ xs. xs ++ es') e ∙ append_assoc a.events es es'),
    All-append IsInner es es' h h',
  )

  Ends-after : (a b c : Chat R) → Quiet a b → Ends b c → Ends a c
  Ends-after a b c (es, e, h) (es', x, e', h', final) = (
    es ++ es',
    x,
    e'
        ∙ (ap (λ xs. xs ++ (es' ++ (x ∷ []))) e
            ∙ (append_assoc a.events es (es' ++ (x ∷ []))
                ∙ ap (λ xs. a.events ++ xs) (sym (append_assoc es es' (x ∷ []))))),
    All-append IsInner es es' h h',
    final,
  )

  run_tool-Quiet : (call : ToolCall) (c : Chat R) → Quiet c (run_tool R call c)
  unfolding run_tool is_final
  run_tool-Quiet call c = (
    tool_call call
        ∷ tool_result call.id (result_text R (execute_tool R call.name call.arguments c.world).0)
        ∷ [],
    append_assoc c.events (tool_call call ∷ []) _,
    (refl, (refl, tt)),
  )

  run_tools-Quiet : (calls : List ToolCall) (c : Chat R) → Quiet c (run_tools R calls c)
  unfolding run_tools
  run_tools-Quiet [] c = ([], sym (append-nil c.events), tt)
  run_tools-Quiet (call ∷ calls) c =
      Quiet-trans c (run_tool R call c) (run_tools R calls (run_tool R call c))
        (run_tool-Quiet call c) (run_tools-Quiet calls (run_tool R call c))

  abbrev Streams : Bool × Chat R → Chat R → Type 0
  Streams (stop, c') c = (stop ≡ true → Ends c c') × (stop ≡ false → Quiet c c')

  -- A response without tool calls ends the chat if it has content; one with tool calls never does.
  respond-Streams_of :
      (content : Option String) (calls : Option (List ToolCall)) (c : Chat R)
      → Streams (respond R (record { content = content; tool_calls = calls }) c) c
  unfolding respond emit is_final
  respond-Streams_of none none c = (λ e. cc, λ e. ([], sym (append-nil c.events), tt))
  respond-Streams_of none (some []) c = (λ e. cc, λ e. ([], sym (append-nil c.events), tt))
  respond-Streams_of (some text) none c = (λ e. ([], answer text, refl, tt, refl), λ e. cc)
  respond-Streams_of (some text) (some []) c = (λ e. ([], answer text, refl, tt, refl), λ e. cc)
  respond-Streams_of none (some (call ∷ calls)) c = (λ e. cc, λ e. run_tools-Quiet (call ∷ calls) _)
  respond-Streams_of (some text) (some (call ∷ calls)) c = (
    λ e. cc,
    λ e.
        let r : CompletionResponse = record {
          content = some text;
          tool_calls = some (call ∷ calls);
        } in
        let said : Chat R = send R (thought text) (push R (assistant_message R r) c) in
        Quiet-trans c said (run_tools R (call ∷ calls) said) (thought text ∷ [], refl, (refl, tt))
          (run_tools-Quiet (call ∷ calls) said),
  )

  iterate-Streams : (c : Chat R) → Streams (iterate R c) c
  unfolding iterate is_final
  iterate-Streams c = go (R.complete c.messages c.world)
    where
      go :
          (answered : Outcome CompletionResponse × R.W)
          → Streams
              (elim answered.0 as (λ _. Bool × Chat R) [
                | wrong e ↦
                    (true, record c { events = c.events ++ (failure e ∷ []); world = answered.1 })
                | fine r ↦ respond R r (record c { world = answered.1 })
              ])
              c
      go (wrong e, w) = (λ h. ([], failure e, refl, tt, refl), λ h. cc)
      go (fine r, w) = respond-Streams_of r.content r.tool_calls (record c { world = w })

  pub iterations-Ends : (n : ℕ) (c : Chat R) → Ends c (iterations R n c)
  unfolding iterations is_final
  iterations-Ends zero c = ([], failure _, refl, tt, refl)
  iterations-Ends (suc n) c =
      let (stops, goes_on) = iterate-Streams c in
      elim (Bool-cases (iterate R c).0) [
        | inl h ↦ rw h (stops h)
        | inr h ↦ rw h (
            Ends-after c (iterate R c).1 (iterations R n (iterate R c).1) (goes_on h)
              (iterations-Ends n (iterate R c).1))
      ]

-- Every chat comes to an end, and its stream is a list of thoughts, tool calls and tool results that
-- one answer or one error closes, which is the last of all.
pub chat-Ends :
    (R : AgentRuntime) (input : String) (history : List Message) (w : R.W)
    → (es : List Event) × (e : Event) × ((chat R input history w).events ≡ es ++ (e ∷ []))
      × All IsInner es
      × (is_final e ≡ true)
unfolding chat
chat-Ends R input history w =
    iterations-Ends R 10 (record { messages = opening R input history; events = []; world = w })
