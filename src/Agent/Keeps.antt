-- ===== src/Agent/Keeps.antt =====
-- What a chat of crates/agent/src/runtime.rs keeps true of the world, where the provider and the tools
-- keep it.
use nasserver.Base.{
  ◌⊎◌, ℕ, zero, suc, String, ◌≡◌, refl, Option, none, some, List, [], ◌∷◌, Bool-cases, inl, inr,
}
use nasserver.Agent.Types.{AgentError, Outcome, fine, wrong, ToolCall, AgentRuntime, Message}
use nasserver.Agent.{
  Chat, execute_tool, run_tool, run_tools, emit, respond, iterate, iterations, max_iterations, chat,
}

pub Outcome-cases :
    {A : Type 0} (o : Outcome A) → ((a : A) × (o ≡ fine a)) ⊎ ((e : AgentError) × (o ≡ wrong e))
Outcome-cases (fine a) = inl (a, refl)
Outcome-cases (wrong e) = inr (e, refl)

module _ (R : AgentRuntime) (I : R.W → Type 0)
    (completes : (messages : List Message) (w : R.W) → I w → I (R.complete messages w).1)
    (executes : (name args : String) (w : R.W) → I w → I (execute_tool R name args w).1) where
  run_tools-keeps : (calls : List ToolCall) (c : Chat R) → I c.world → I (run_tools R calls c).world
  unfolding run_tools run_tool
  run_tools-keeps [] c h = h
  run_tools-keeps (call ∷ calls) c h =
      run_tools-keeps calls (run_tool R call c) (executes call.name call.arguments c.world h)

  respond-keeps_of :
      (content : Option String) (calls : Option (List ToolCall)) (c : Chat R)
      → I c.world
      → I (respond R (record { content = content; tool_calls = calls }) c).1.world
  unfolding respond emit
  respond-keeps_of none none c h = h
  respond-keeps_of (some text) none c h = h
  respond-keeps_of none (some []) c h = h
  respond-keeps_of (some text) (some []) c h = h
  respond-keeps_of none (some (call ∷ calls)) c h = run_tools-keeps (call ∷ calls) _ h
  respond-keeps_of (some text) (some (call ∷ calls)) c h = run_tools-keeps (call ∷ calls) _ h

  iterate-keeps : (c : Chat R) → I c.world → I (iterate R c).1.world
  unfolding iterate
  iterate-keeps c h =
      let answered = R.complete c.messages c.world in
      let kept = completes c.messages c.world h in
      elim (Outcome-cases answered.0) [
        | inl (r, e) ↦
            rw (e, iterate)
              (respond-keeps_of r.content r.tool_calls (record c { world = answered.1 }) kept)
        | inr (x, e) ↦ rw (e, iterate) kept
      ]

  iterations-keeps : (n : ℕ) (c : Chat R) → I c.world → I (iterations R n c).world
  unfolding iterations
  iterations-keeps zero c h = h
  iterations-keeps (suc n) c h = elim (Bool-cases (iterate R c).0) [
    | inl e ↦ rw (e, iterations) (iterate-keeps c h)
    | inr e ↦ rw (e, iterations) (iterations-keeps n (iterate R c).1 (iterate-keeps c h))
  ]

  pub chat-keeps :
      (input : String) (history : List Message) (w : R.W) → I w → I (chat R input history w).world
  unfolding chat
  chat-keeps input history w h = iterations-keeps (max_iterations R) _ h
