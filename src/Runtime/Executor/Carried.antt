-- ===== src/Runtime/Executor/Carried.antt =====
-- The plans of the three actions keep a closed property of the run's messages, and only the final one
-- publishes.
use mathlib.Core.List.{append_assoc}
use kae_agent_public.Compaction.{Error}
use kae_agent_public.Conversation.{Conversation, messages_of, replace_messages}
use kae_agent_public.Base.{
  Dict, ℤ, String, List, [], ◌∷◌, ◌++◌, ◌==◌, Option, none, some, Slice, of, items, append, ok, ◌≡◌,
  refl, sym, subst, ◌∙◌, ap, Option-cases, Result-cases, Bool-cases, inl, inr, map,
}
use kae_agent_public.Llm.{Message, ToolCall}
use kae_agent_public.Llm.Value.{text}
use kae_agent_public.Llm.Clone.{clone_message_id, clone_messages_id}
use kae_agent_public.Engine.{
  ToolResult, append_assistant_message, append_tool_results, execute_tools,
  apply_transfer as apply_transfer_kind, checkpoint as checkpoint_kind,
  save_session as save_session_kind, emit_output, trace_event, no_data, message, results, calls,
  transfer_to, output, step_event, Command,
}
use kae_agent_public.Engine.Commands.{
  command, clone_calls, clone_results, clone_string_map, assistant_message,
  assistant_tool_call_message, plan_tool_result_commands,
}
use kae_agent_public.Engine.Plan.{parse_tool_result_command_plan}
use kae_agent_public.Engine.Plan.Accepts.{tool_result_plan_accepted}
use kae_agent_public.Tools.Registry.{Registry}
use kae_agent_public.Agents.{Agent}
use kae_agent_public.Runtime.State.{Runtime, publish_run_state}
use kae_agent_public.Runtime.Request.{compact_conversation, keep_compacted, input_for}
use kae_agent_public.Runtime.Subagents.{apply_transfer}
use kae_agent_public.Runtime.Executor.{Exec, Output, noop_output, Env, and_then, with_world}
use kae_agent_public.Runtime.Executor.Commands.{
  apply_kind, apply_engine_command, apply_engine_commands, transferred,
  transfer_request_from_engine_command, emit_engine_output,
}
use kae_agent_public.Runtime.Executor.Tools.{available_tool_defs, tool_defs_to_llm}
use kae_agent_public.Runtime.Executor.Plans.{
  compact, after_compaction, run_final_plan, run_tool_plan, run_transfer_plan, publish,
}
use kae_agent_public.Runtime.Executor.Rule.{
  Ends, and_then-Ends, Has, Untouched, with_message-Has, tool_messages, checkpoint-Ends,
  save_session_data-Ends, append_results-Ends, commands-Ends, no_command-Ends, no_result-Ends,
}
use kae_agent_public.Runtime.Executor.Closed.{Closed, apply_transfer-RunKept, asked}

map_same : {A : Type 0} (xs : List A) → map (λ x. x) xs ≡ xs
map_same [] = refl
map_same (x ∷ xs) = rw (map_same xs)

-- The answer to a transfer's call.
abbrev answer : ToolCall → String → ToolResult
answer c content = record { call_id = c.id; name = c.name; content = text content; error = none }

-- The commands that report results, as the parser accepts them.
abbrev reporting : List ToolResult → List Command
reporting rs = command append_tool_results (results (of rs)) ∷ command checkpoint_kind no_data ∷ []

planned : (rs : List ToolResult) → plan_tool_result_commands (of rs) ≡ reporting rs
unfolding plan_tool_result_commands clone_results
planned rs = rw (map_same rs)

accepted :
    (rs : List ToolResult)
    → parse_tool_result_command_plan (plan_tool_result_commands (of rs)) ≡ ok (reporting rs)
accepted rs = tool_result_plan_accepted (of rs) ∙ ap ok (planned rs)

module _ {F Sch W J E : Type 0} (env : Env F Sch W J E)
    (rt : Runtime (Agent F Sch W) (Registry Sch W) F) where
  appended-Ends :
      (out : Option (Output W E)) (m : Message) (ms : List Message) (x : Exec F Sch W)
      → Has rt ms x
      → Ends
          (λ a y. Has rt (ms ++ m ∷ []) y)
          (Untouched rt)
          (apply_engine_command env out (command append_assistant_message (message m)) x)
  unfolding apply_engine_command
  appended-Ends out m ms x h = record { kept = rw clone_message_id (with_message-Has rt ms m x h) }

  saved-Ends :
      (out : Option (Output W E)) (ms : List Message) (x : Exec F Sch W)
      → Has rt ms x
      → Ends
          (λ a y. Has rt ms y)
          (Untouched rt)
          (apply_engine_command env out (command checkpoint_kind no_data) x)
  unfolding apply_engine_command
  saved-Ends out ms x h = no_result-Ends env rt _ (checkpoint-Ends env rt ms x h)

  session_saved-Ends :
      (out : Option (Output W E)) (ms : List Message) (x : Exec F Sch W)
      → Has rt ms x
      → Ends
          (λ a y. Has rt ms y)
          (Untouched rt)
          (apply_engine_command env out (command save_session_kind no_data) x)
  unfolding apply_engine_command
  session_saved-Ends out ms x h = no_result-Ends env rt _ (save_session_data-Ends env rt ms x h)

  results-Ends :
      (out : Option (Output W E)) (rs : List ToolResult) (ms : List Message) (x : Exec F Sch W)
      → Has rt ms x
      → Ends
          (λ a y. Has rt (ms ++ tool_messages env rs) y)
          (Untouched rt)
          (apply_engine_command env out (command append_tool_results (results (of rs))) x)
  unfolding apply_engine_command
  results-Ends out rs ms x h =
      and_then-Ends _ _ (append_results-Ends env rt out rs ms x h) (λ u y k. record { kept = k })

  -- A message of the assistant, and a checkpoint.
  prepare-Ends :
      (m : Message) (ms : List Message) (x : Exec F Sch W)
      → Has rt ms x
      → Ends
          (λ a y. Has rt (ms ++ m ∷ []) y)
          (Untouched rt)
          (apply_engine_commands env none
            (command append_assistant_message (message m) ∷ command checkpoint_kind no_data ∷ [])
            x)
  prepare-Ends m ms x h = commands-Ends env rt none _ _ x (appended-Ends none m ms x h) (λ y k.
      commands-Ends env rt none _ [] y (saved-Ends none (ms ++ m ∷ []) y k)
        (λ z l. no_command-Ends env rt none z l))

  -- The results of tools, and a checkpoint.
  reported-Ends :
      (out : Output W E) (rs : List ToolResult) (ms : List Message) (x : Exec F Sch W)
      → Has rt ms x
      → Ends
          (λ a y. Has rt (ms ++ tool_messages env rs) y)
          (Untouched rt)
          (apply_engine_commands env (some out) (reporting rs) x)
  reported-Ends out rs ms x h =
      commands-Ends env rt (some out) _ _ x (results-Ends (some out) rs ms x h) (λ y k.
        commands-Ends env rt (some out) _ [] y
          (saved-Ends (some out) (ms ++ tool_messages env rs) y k)
          (λ z l. no_command-Ends env rt (some out) z l))

module _ {F Sch W J E : Type 0} (env : Env F Sch W J E) {I : List Message → Type 0}
    (closed : Closed env I) (rt : Runtime (Agent F Sch W) (Registry Sch W) F) where
  -- The run's messages have the property, and the runtime is as it was.
  abbrev pub Going : Exec F Sch W → Type 0
  Going x = I (items x.run.conv.messages) × (x.rt ≡ rt) × (x.run.generation ≡ rt.generation)

  going : (ms : List Message) (x : Exec F Sch W) → I ms → Has rt ms x → Going x
  going ms x i (h, g, k) = (subst I (sym h) i, g, k)

  -- The runtime has the run's state, if nothing else changed it.
  abbrev pub Answered : Exec F Sch W → Type 0
  Answered x =
      I (items x.run.conv.messages)
      × (x.rt ≡ publish_run_state x.run rt)
      × (x.run.generation ≡ rt.generation)

  compacted_kept :
      (x : Exec F Sch W)
      → I (items x.run.conv.messages)
      → let r =
          compact_conversation env.limits x.run.session_id
            (tool_defs_to_llm env (available_tool_defs env x.run))
            x.run.conv in
        r.0 ≡ none → I (items r.1.messages)
  unfolding compact_conversation keep_compacted replace_messages messages_of
  compacted_kept x g h = elim (Option-cases env.limits.compactor) [
    | inl p ↦ rw (p, compact_conversation) g
    | inr (k, p) ↦
        let input =
          input_for x.run.session_id (messages_of x.run.conv)
            (tool_defs_to_llm env (available_tool_defs env x.run)) in
        elim (Result-cases (k.compact input)) [
          | inr (e, q) ↦ rw (p, q, compact_conversation) g
          | inl (o, q) ↦ elim (Bool-cases o.compacted) [
            | inl b ↦
                rw (p, q, b, clone_messages_id, compact_conversation)
                  (closed.compact_kept k p input o q (rw clone_messages_id g))
            | inr b ↦ rw (p, q, b, compact_conversation) g
          ]
        ]
  ]

  after_compaction-Ends :
      (x : Exec F Sch W) (r : Option Error × Conversation)
      → Going x
      → (r.0 ≡ none → I (items r.1.messages))
      → Ends (λ u y. Going y) (Untouched rt) (after_compaction {E = E} x r)
  unfolding after_compaction
  after_compaction-Ends x (some e, c) (g, k, l) h = record { kept = k }
  after_compaction-Ends x (none, c) (g, k, l) h = record { kept = (h refl, k, l) }

  compact-Ends : (x : Exec F Sch W) → Going x → Ends (λ u y. Going y) (Untouched rt) (compact env x)
  unfolding compact
  compact-Ends x g = after_compaction-Ends x _ g (compacted_kept x g.0)

  -- A conversation and a session are saved.
  persist-Ends :
      (x : Exec F Sch W)
      → Going x
      → Ends
          (λ a y. Going y)
          (Untouched rt)
          (apply_engine_commands env none
            (command checkpoint_kind no_data ∷ command save_session_kind no_data ∷ [])
            x)
  persist-Ends x (g, k, l) =
      let ms = items x.run.conv.messages in
      commands-Ends env rt none _ _ x (saved-Ends env rt none ms x (refl, k, l)) (λ y h.
        commands-Ends env rt none _ [] y (session_saved-Ends env rt none ms y h)
          (λ z h'. no_command-Ends env rt none z (going ms z g h')))

  run_transferred-Ends :
      (name input : String) (metadata : Option (Dict String)) (x : Exec F Sch W)
      → Going x
      → Ends (λ u y. Going y) (Untouched rt) (transferred env (asked name input metadata) x)
  unfolding transferred
  run_transferred-Ends name input metadata x (g, k, l) =
      let kept = apply_transfer-RunKept env closed name input metadata x.run g in
      elim (Result-cases (
        apply_transfer env.floats env.trim env.resolver env.transfer_filter
          (asked name input metadata) x.run)) [
            | inr (e, q) ↦ rw (q, transferred) (record { kept = k })
            | inl (rs, q) ↦
                let (i, n) = rw q at kept in rw (q, transferred) (record { kept = (i, k, n ∙ l) })
          ]

  transferred-Ends :
      (name input reason : String) (metadata : Option (Dict String)) (x : Exec F Sch W)
      → Going x
      → Ends
          (λ a y. Going y)
          (Untouched rt)
          (apply_engine_command env none
            (command apply_transfer_kind (transfer_to name input reason metadata))
            x)
  unfolding apply_engine_command transfer_request_from_engine_command
  transferred-Ends name input reason metadata x (g, k, l) = elim (Bool-cases (name == "")) [
    | inl p ↦ rw p (record { kept = k })
    | inr p ↦ rw p (
        no_result-Ends env rt _
          (run_transferred-Ends name input (clone_string_map metadata) x (g, k, l)))
  ]

  pub tool_plan-Ends :
      (out : Output W E) (i j max : ℤ) (content : String) (cs : Slice ToolCall)
      (tcs : List ToolCall) (x : Exec F Sch W)
      → items (append (clone_calls cs) []) ≡ tcs
      → Going x
      → Ends
          (λ u y. Going y)
          (Untouched rt)
          (run_tool_plan env out i
            (record {
              prepare =
                  command append_assistant_message
                    (message (assistant_tool_call_message content tcs))
                  ∷ command checkpoint_kind no_data
                  ∷ [];
              run_tools = command execute_tools (calls j cs max);
            })
            x)
  unfolding run_tool_plan apply_engine_commands apply_engine_command apply_kind
  tool_plan-Ends out i j max content cs tcs x p (g, k, l) =
      let ms = items x.run.conv.messages in
      let m = assistant_tool_call_message content tcs in
      and_then-Ends _ _ (prepare-Ends env rt m ms x (refl, k, l)) (λ a x1 h1.
        let r = env.run_tools i (append (clone_calls cs) []) x1.run x1.world in
        rw (accepted r.0) (
          and_then-Ends _ _ (reported-Ends env rt out r.0 (ms ++ m ∷ []) (with_world r.1 x1) h1)
            (λ b x2 h2. record {
              kept =
                  going _ x2
                    (subst I (sym (append_assoc ms (m ∷ []) (tool_messages env r.0))) (
                      closed.tools_kept ms content i (append (clone_calls cs) []) tcs x1.run
                        x1.world p g))
                    h2;
            })))

  emitted-Ends :
      (content : String) (x : Exec F Sch W)
      → Going x
      → Ends
          (λ u y. Answered y)
          (Untouched rt)
          (and_then
            (apply_engine_commands env
              (some (noop_output W E))
              (command emit_output (output "final_text" (some content)) ∷ [])
              (publish env x))
            (λ a3 x4.
              and_then
                (apply_engine_commands env none
                  (command trace_event (step_event "final" content) ∷ [])
                  x4)
                (λ a4 x5.
                  and_then
                    (apply_engine_commands env
                      (some (noop_output W E))
                      (command emit_output (output "done" none) ∷ [])
                      x5)
                    (λ a5 x6. (ok tt, x6)))))
  unfolding apply_engine_commands apply_engine_command emit_engine_output
  emitted-Ends content x (g, k, l) = record { kept = (g, ap (publish_run_state x.run) k, l) }

  pub final_plan-Ends :
      (content : String) (x : Exec F Sch W)
      → Going x
      → Ends
          (λ u y. Answered y)
          (Untouched rt)
          (run_final_plan env
            (noop_output W E)
            (record {
              append_response =
                  command append_assistant_message (message (assistant_message content));
              persist = command checkpoint_kind no_data ∷ command save_session_kind no_data ∷ [];
              emit_final = command emit_output (output "final_text" (some content));
              trace_final = command trace_event (step_event "final" content);
              emit_done = command emit_output (output "done" none);
            })
            x)
  unfolding run_final_plan
  final_plan-Ends content x (g, k, l) =
      let ms = items x.run.conv.messages in
      and_then-Ends _ _
        (commands-Ends env rt none _ [] x
          (appended-Ends env rt none (assistant_message content) ms x (refl, k, l))
          (λ y h. no_command-Ends env rt none y h))
        (λ a x1 h1.
          and_then-Ends _ _ (compact-Ends x1 (going _ x1 (closed.final_kept ms content g) h1))
            (λ u x2 h2.
              and_then-Ends _ _ (persist-Ends x2 h2) (λ b x3 h3. emitted-Ends content x3 h3)))

  pub transfer_plan-Ends :
      (out : Output W E) (content acknowledgment name input reason : String) (c : ToolCall)
      (metadata : Option (Dict String)) (x : Exec F Sch W)
      → Going x
      → Ends
          (λ u y. Going y)
          (Untouched rt)
          (run_transfer_plan env out
            (record {
              prepare =
                  command append_assistant_message
                    (message (assistant_tool_call_message content (c ∷ [])))
                  ∷ command checkpoint_kind no_data
                  ∷ [];
              acknowledge = reporting (answer c acknowledgment ∷ []);
              apply = command apply_transfer_kind (transfer_to name input reason metadata);
            })
            x)
  unfolding run_transfer_plan
  transfer_plan-Ends out content acknowledgment name input reason c metadata x (g, k, l) =
      let ms = items x.run.conv.messages in
      let m = assistant_tool_call_message content (c ∷ []) in
      and_then-Ends _ _ (prepare-Ends env rt m ms x (refl, k, l)) (λ a x1 h1.
        and_then-Ends _ _
          (reported-Ends env rt out (answer c acknowledgment ∷ []) (ms ++ m ∷ []) x1 h1)
          (λ b x2 h2.
            and_then-Ends _ _
              (commands-Ends env rt none _ [] x2
                (transferred-Ends name input reason metadata x2 (
                  going _ x2
                    (subst I (sym (append_assoc ms (m ∷ []) _))
                      (closed.acknowledged_kept ms content c acknowledgment g))
                    h2))
                (λ y h. no_command-Ends env rt none y h))
              (λ e x3 h3. record { kept = h3 })))
