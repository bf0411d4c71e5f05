-- ===== src/Runtime/Executor/Pairs.antt =====
-- Every tool call of the model is answered: the messages of a run pair calls and tool messages.
pub mod Turns
use kae_agent_public.Base.{
  ℕ, ℤ, String, true, false, List, [], ◌∷◌, ◌++◌, ◌==◌, Option, none, some, Slice, nil, of, items,
  Result, ok, err, ◌≡◌, refl, sym, subst, ap, ◌∙◌, All, Bool-cases, inl, inr, map, if◌then◌else◌,
}
use kae_agent_public.Llm.{Message, ToolCall}
use kae_agent_public.Llm.Value.{text}
use kae_agent_public.Llm.Clone.{
  clone_message, clone_message_id, clone_tool_call, clone_tool_call_id,
}
use kae_agent_public.Engine.{ToolResult}
use kae_agent_public.Engine.Commands.{assistant_message, assistant_tool_call_message}
use kae_agent_public.Engine.Turn.{TurnOutput}
use kae_agent_public.Compaction.{Input, Output as Compacted}
use kae_agent_public.Compaction.Turns.{is_system}
use kae_agent_public.Session.{SessionSnapshot}
use kae_agent_public.Tools.Registry.{Registry}
use kae_agent_public.Tools.Dispatcher.Sequence.{AllAnswer}
use kae_agent_public.Agents.{Agent}
use kae_agent_public.Runtime.State.{Runtime, RunState}
use kae_agent_public.Runtime.Request.{Compactor}
use kae_agent_public.Runtime.Transfer.{TransferInputData, TransferInputFilter}
use kae_agent_public.Runtime.Subagents.{without_system, with_agent_system_prompt}
use kae_agent_public.Runtime.Executor.{Env}
use kae_agent_public.Runtime.Executor.Requests.{Middleware}
use kae_agent_public.Runtime.Executor.Turns.{run, Turned}
use kae_agent_public.Runtime.Executor.Rule.{tool_messages}
use kae_agent_public.Runtime.Executor.Closed.{Closed, user_message}
use kae_agent_public.Runtime.Executor.Handlers.{KeepsAround}
use kae_agent_public.Runtime.Executor.Outcomes.{Left, run-Left}

abbrev pub ids : List ToolCall → List String
ids [] = []
ids (c ∷ cs) = c.id ∷ ids cs

-- The calls that a message makes; a system message makes none.
abbrev pub made_by : Message → List String
made_by m = if is_system m then [] else ids (items m.tool_calls)

-- The messages from where the calls with the given ids wait for their answers: the answers come first,
-- one for each call and in the order of the calls, and no other message is a tool message.
abbrev pub PairedFrom : List String → List Message → Type 0
PairedFrom [] [] = Unit
PairedFrom (i ∷ is) [] = ⊥
PairedFrom [] (m ∷ ms) = ((m.role == "tool") ≡ false) × PairedFrom (made_by m) ms
PairedFrom (i ∷ is) (m ∷ ms) = (m.role ≡ "tool") × (m.tool_call_id ≡ i) × PairedFrom is ms

abbrev pub Paired : List Message → Type 0
Paired ms = PairedFrom [] ms

pub append-PairedFrom :
    (is : List String) (ms ns : List Message)
    → PairedFrom is ms
    → Paired ns
    → PairedFrom is (ms ++ ns)
append-PairedFrom [] [] ns h k = k
append-PairedFrom (i ∷ is) [] ns h k = absurd h
append-PairedFrom [] (m ∷ ms) ns (r, h) k = (r, append-PairedFrom (made_by m) ms ns h k)
append-PairedFrom (i ∷ is) (m ∷ ms) ns (r, e, h) k = (r, e, append-PairedFrom is ms ns h k)

without_system-PairedFrom :
    (is : List String) (ms : List Message) → PairedFrom is ms → PairedFrom is (without_system ms)
unfolding without_system
without_system-PairedFrom [] [] h = h
without_system-PairedFrom (i ∷ is) [] h = h
without_system-PairedFrom [] (m ∷ ms) (r, h) = elim (Bool-cases (is_system m)) [
  | inl p ↦ rw p (without_system-PairedFrom [] ms (rw p at h))
  | inr p ↦ rw (p, clone_message_id) (r, without_system-PairedFrom (made_by m) ms h)
]
without_system-PairedFrom (i ∷ is) (m ∷ ms) (r, e, h) = elim (Bool-cases (is_system m)) [
  | inl p ↦ cc
  | inr p ↦ rw (p, clone_message_id) (r, e, without_system-PairedFrom is ms h)
]

prompt-Paired :
    (trim : String → String) (ms : Slice Message) (prompt : String)
    → Paired (items ms)
    → Paired (items (with_agent_system_prompt trim ms prompt))
unfolding with_agent_system_prompt
prompt-Paired trim ms prompt h = elim (Bool-cases (trim prompt == "")) [
  | inl p ↦ rw p (without_system-PairedFrom [] (items ms) h)
  | inr p ↦ rw p (refl, without_system-PairedFrom [] (items ms) h)
]

ids-map : (cs : List ToolCall) → ids (map clone_tool_call cs) ≡ ids cs
ids-map [] = refl
ids-map (c ∷ cs) = rw clone_tool_call_id (ap (λ l. c.id ∷ l) (ids-map cs))

final-Paired : (content : String) → Paired (assistant_message content ∷ [])
unfolding assistant_message
final-Paired content = (refl, tt)

module _ {F Sch W J E : Type 0} (env : Env F Sch W J E) where
  answers-PairedFrom :
      (cs : List ToolCall) (rs : List ToolResult)
      → AllAnswer cs rs
      → PairedFrom (ids cs) (tool_messages env rs)
  answers-PairedFrom [] [] h = tt
  answers-PairedFrom [] (r ∷ rs) h = absurd h
  answers-PairedFrom (c ∷ cs) [] h = absurd h
  answers-PairedFrom (c ∷ cs) (r ∷ rs) ((i, n), h) = (refl, i, answers-PairedFrom cs rs h)

  tools-Paired :
      (content : String) (cs : List ToolCall) (rs : List ToolResult)
      → AllAnswer cs rs
      → Paired (assistant_tool_call_message content cs ∷ tool_messages env rs)
  unfolding assistant_tool_call_message
  tools-Paired content cs rs h = (refl, rw ids-map (answers-PairedFrom cs rs h))

  -- What the parts of a run that this file cannot see have to keep: the tools answer each call, and the
  -- filter and the compactor keep the pairs.
  pub record KeepsPairs : Type 0 where
    pub tools_answer :
        (i : ℤ) (cs : Slice ToolCall) (rs : RunState (Agent F Sch W) (Registry Sch W) F) (w : W)
        → AllAnswer (items cs) (env.run_tools i cs rs w).0
    pub filter_pairs :
        (f : TransferInputFilter (SessionSnapshot F) E)
        → env.transfer_filter ≡ some f
        → (d : TransferInputData (SessionSnapshot F)) → Paired (items d.messages)
        → Paired (items (f d).0.messages)
    pub compact_pairs :
        (k : Compactor)
        → env.limits.compactor ≡ some k
        → (input : Input) (out : Compacted) → k.compact input ≡ ok out
        → Paired (items input.messages)
        → Paired (items out.messages)
    pub force_pairs :
        (k : Compactor)
        → env.limits.compactor ≡ some k
        → (input : Input) (out : Compacted) → k.force_compact input ≡ ok out
        → Paired (items input.messages)
        → Paired (items out.messages)

  Paired-Closed : KeepsPairs → Closed env Paired
  Paired-Closed k = record {
    user_kept = λ ms content h. append-PairedFrom [] ms (user_message content ∷ []) h (refl, tt);
    final_kept = λ ms content h.
        append-PairedFrom [] ms (assistant_message content ∷ []) h (final-Paired content);
    tools_kept = λ ms content i cs calls rs w p h. append-PairedFrom [] ms _ h (
        tools-Paired content calls (env.run_tools i cs rs w).0
          (subst (λ l. AllAnswer l (env.run_tools i cs rs w).0) p (k.tools_answer i cs rs w)));
    acknowledged_kept = λ ms content c a h.
        let r : ToolResult = record {
          call_id = c.id;
          name = c.name;
          content = text a;
          error = none;
        } in
        append-PairedFrom [] ms _ h (tools-Paired content (c ∷ []) (r ∷ []) ((refl, refl), tt));
    prompt_kept = λ ms prompt h. prompt-Paired env.trim ms prompt h;
    filter_kept = k.filter_pairs;
    compact_kept = k.compact_pairs;
    force_kept = k.force_pairs;
  }

  -- The runtime has a conversation with its pairs after a run that has answered, and is as it was after
  -- one that has failed.
  abbrev pub EndsPaired : Runtime (Agent F Sch W) (Registry Sch W) F → Turned env → Type 0
  EndsPaired rt (err f, x) = x.rt ≡ rt
  EndsPaired rt (ok o, x) = Paired (items x.rt.conv.messages)

  Left-EndsPaired :
      (k : KeepsPairs) (rt : Runtime (Agent F Sch W) (Registry Sch W) F) (r : Turned env)
      → Left env (Paired-Closed k) rt r
      → EndsPaired rt r
  Left-EndsPaired k rt (err f, x) h = h
  Left-EndsPaired k rt (ok o, x) (h, g) = g

  -- If the tools answer each call, the filter and the compactor keep the pairs, and the middleware keeps
  -- them around a handler that does, then a run on a conversation in which calls and answers are paired
  -- leaves one in which they are: the answers of the calls of a message follow it, one for each call and
  -- in the order of the calls, and no tool message stands elsewhere. A run that fails leaves the runtime
  -- as it was.
  pub run-EndsPaired :
      (middleware : List (Middleware F Sch W E)) (max : ℤ) (run_id input : String)
      (rt : Runtime (Agent F Sch W) (Registry Sch W) F) (w : W)
      → KeepsPairs
      → All (KeepsAround Paired) middleware
      → Paired (items rt.conv.messages)
      → EndsPaired rt (run env middleware max run_id input rt w)
  run-EndsPaired middleware max run_id input rt w k a h =
      Left-EndsPaired k rt _ (run-Left env (Paired-Closed k) middleware max run_id input rt w a h)
