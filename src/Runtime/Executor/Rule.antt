-- ===== src/Runtime/Executor/Rule.antt =====
-- How the calls of a run follow each other, and what the commands of a plan do to its conversation.
use kae_agent_public.Base.{
  String, List, [], ◌∷◌, ◌++◌, Option, none, some, items, items-append, ok, err, ◌≡◌, ◌∙◌, ap,
  Option-cases, inl, inr, subst,
}
use mathlib.Core.List.{append_assoc, append-nil}
use kae_agent_public.Llm.{Message}
use kae_agent_public.Engine.{ToolResult, Command}
use kae_agent_public.Conversation.{append_owned}
use kae_agent_public.Tools.Registry.{Registry}
use kae_agent_public.Agents.{Agent}
use kae_agent_public.Runtime.State.{Runtime}
use kae_agent_public.Runtime.Executor.{
  Exec, Ended, Output, Env, and_then, called, checkpoint, save_session_data, result_to_string,
}
use kae_agent_public.Runtime.Executor.Commands.{
  tool_message, with_message, emit_tool_result_to, append_results, apply_engine_command,
  apply_engine_commands, no_result,
}

module _ {F Sch W E : Type 0} where
  abbrev pub Kept :
      {A : Type 0}
      → (A → Exec F Sch W → Type 0)
      → (Exec F Sch W → Type 0)
      → Ended F Sch W E A
      → Type 0
  Kept Q R (ok a, x) = Q a x
  Kept Q R (err e, x) = R x

  -- What holds where a call answers, and where it fails.
  pub record Ends {A : Type 0} (Q : A → Exec F Sch W → Type 0) (R : Exec F Sch W → Type 0)
      (r : Ended F Sch W E A) : Type 0 where
    pub kept : Kept Q R r

  pub and_then-Ends :
      {A B : Type 0} {Q : A → Exec F Sch W → Type 0} {Q' : B → Exec F Sch W → Type 0}
      {R : Exec F Sch W → Type 0} (r : Ended F Sch W E A) (f : A → Exec F Sch W → Ended F Sch W E B)
      → Ends Q R r
      → ((a : A) (x : Exec F Sch W) → Q a x → Ends Q' R (f a x))
      → Ends Q' R (and_then r f)
  and_then-Ends (ok a, x) f h k = k a x h.kept
  and_then-Ends (err e, x) f h k = record { kept = h.kept }

module _ {F Sch W : Type 0} (rt : Runtime (Agent F Sch W) (Registry Sch W) F) where
  -- The run has the messages, and has changed nothing of the runtime that it was captured from.
  abbrev pub Has : List Message → Exec F Sch W → Type 0
  Has ms x = (items x.run.conv.messages ≡ ms) × (x.rt ≡ rt) × (x.run.generation ≡ rt.generation)

  abbrev pub Untouched : Exec F Sch W → Type 0
  Untouched x = x.rt ≡ rt

  pub with_message-Has :
      (ms : List Message) (m : Message) (x : Exec F Sch W)
      → Has ms x
      → Has (ms ++ m ∷ []) (with_message m x)
  unfolding append_owned
  with_message-Has ms m x (h, g, i) =
      (items-append x.run.conv.messages (m ∷ []) ∙ ap (λ l. l ++ m ∷ []) h, g, i)

  module _ {E : Type 0} where
    pub called-Ends :
        (ms : List Message) (x : Exec F Sch W) (r : Option E × W)
        → Has ms x
        → Ends (λ u y. Has ms y) Untouched (called x r)
    called-Ends ms x (none, w) h = record { kept = h }
    called-Ends ms x (some e, w) (h, g, i) = record { kept = g }

module _ {F Sch W J E : Type 0} (env : Env F Sch W J E) where
  -- The messages that the results of the tools become.
  abbrev pub tool_messages : List ToolResult → List Message
  tool_messages [] = []
  tool_messages (r ∷ rs) = tool_message (result_to_string env r) r ∷ tool_messages rs

module _ {F Sch W J E : Type 0} (env : Env F Sch W J E)
    (rt : Runtime (Agent F Sch W) (Registry Sch W) F) where
  pub checkpoint-Ends :
      (ms : List Message) (x : Exec F Sch W)
      → Has rt ms x
      → Ends (λ u y. Has rt ms y) (Untouched rt) (checkpoint env x)
  unfolding checkpoint
  checkpoint-Ends ms x h = elim (Option-cases env.save_conversation) [
    | inl p ↦ rw (p, checkpoint) (record { kept = h })
    | inr (f, p) ↦ rw (p, checkpoint) (called-Ends rt ms x _ h)
  ]

  pub save_session_data-Ends :
      (ms : List Message) (x : Exec F Sch W)
      → Has rt ms x
      → Ends (λ u y. Has rt ms y) (Untouched rt) (save_session_data env x)
  unfolding save_session_data
  save_session_data-Ends ms x h = elim (Option-cases env.save_session) [
    | inl p ↦ rw (p, save_session_data) (record { kept = h })
    | inr (f, p) ↦ rw (p, save_session_data) (called-Ends rt ms x _ h)
  ]

  emit_tool_result-Ends :
      (out : Option (Output W E)) (r : ToolResult) (content : String) (ms : List Message)
      (x : Exec F Sch W)
      → Has rt ms x
      → Ends (λ u y. Has rt ms y) (Untouched rt) (emit_tool_result_to out r content x)
  emit_tool_result-Ends none r content ms x h = record { kept = h }
  emit_tool_result-Ends (some out) r content ms x h = called-Ends rt ms x _ h

  pub append_results-Ends :
      (out : Option (Output W E)) (rs : List ToolResult) (ms : List Message) (x : Exec F Sch W)
      → Has rt ms x
      → Ends
          (λ u y. Has rt (ms ++ tool_messages env rs) y)
          (Untouched rt)
          (append_results env out rs x)
  unfolding append_results
  append_results-Ends out [] ms x h = record { kept = rw (append-nil ms) h }
  append_results-Ends out (r ∷ rs) ms x h =
      let m = tool_message (result_to_string env r) r in
      and_then-Ends _ _
        (emit_tool_result-Ends out r (result_to_string env r) (ms ++ m ∷ []) (with_message m x)
          (with_message-Has rt ms m x h))
        (λ u y k.
          subst (λ l. Ends (λ u y. Has rt l y) (Untouched rt) (append_results env out rs y))
            (append_assoc ms (m ∷ []) (tool_messages env rs))
            (append_results-Ends out rs (ms ++ m ∷ []) y k))

  -- One command, and those behind it.
  pub commands-Ends :
      {Q Q' : Exec F Sch W → Type 0} (out : Option (Output W E)) (c : Command) (cs : List Command)
      (x : Exec F Sch W)
      → Ends (λ a y. Q y) (Untouched rt) (apply_engine_command env out c x)
      → ((y : Exec F Sch W)
          → Q y
          → Ends (λ a z. Q' z) (Untouched rt) (apply_engine_commands env out cs y))
      → Ends (λ a z. Q' z) (Untouched rt) (apply_engine_commands env out (c ∷ cs) x)
  unfolding apply_engine_commands
  commands-Ends out c cs x h k =
      and_then-Ends _ _ h (λ a y q. and_then-Ends _ _ (k y q) (λ b z q'. record { kept = q' }))

  pub no_command-Ends :
      {Q : Exec F Sch W → Type 0} (out : Option (Output W E)) (x : Exec F Sch W)
      → Q x
      → Ends (λ a z. Q z) (Untouched rt) (apply_engine_commands env out [] x)
  unfolding apply_engine_commands
  no_command-Ends out x q = record { kept = q }

  pub no_result-Ends :
      {Q : Exec F Sch W → Type 0} (r : Ended F Sch W E Unit)
      → Ends (λ u y. Q y) (Untouched rt) r
      → Ends (λ a y. Q y) (Untouched rt) (no_result env r)
  no_result-Ends r h = and_then-Ends _ _ h (λ u y q. record { kept = q })
