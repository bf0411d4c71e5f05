-- ===== src/Runtime/Executor/Streams.antt =====
-- agent/runtime_executor.go, `executeStreamingStep`: a request whose answer arrives in events. The
-- events that the loop receives are a list, which ends where the channel is closed.
pub mod Described
pub mod Told
pub mod Tests
use kae_agent_public.Base.{
  ℕ, ℤ, pos, String, ◌+++◌, ◌==◌, List, [], ◌∷◌, Option, none, some, Slice, Result, ok, err, Bool,
  true, false, ◌&&◌, if◌then◌else◌,
}
use kae_agent_public.Llm.{ToolCall, Message, Usage, Request, Response}
use kae_agent_public.Llm.Value.{AnyMap}
use kae_agent_public.Engine.{TurnStepOutput}
use kae_agent_public.Engine.Commands.{clone_calls, clone_string_map}
use kae_agent_public.Streaming.Budget.{add_int}
use kae_agent_public.Streaming.Assembler.{
  ToolCallDelta, Assembler, ParseError, new_assembler, add_fragment, assemble,
}
use kae_agent_public.Runtime.Request.{prepare_messages_for_request}
use kae_agent_public.Runtime.Executor.{
  Exec, Ended, Env, ExecError, TransferStep, unterminated, stream_cancelled, stream_failed,
  assembly_failed, outside, and_then, call_outside, with_world,
}
use kae_agent_public.Runtime.Executor.Tools.{tool_defs_to_llm, extract_transfer}
use kae_agent_public.Runtime.Executor.Requests.{
  Step, prepared, build_request, extract_response_text,
}
use kae_agent_public.Runtime.Executor.Turns.{transfer_plan_from_step}

pub data EventKind : Type 0 where
  text_delta tool_call tool_result usage error done : EventKind

-- `llm.Event`; a tool delta is its index and the rest.
pub record Event (E : Type 0) : Type 0 where
  pub kind : EventKind
  pub text : Option String
  pub tool : Option (ℤ × ToolCallDelta)
  pub usage_delta : Option Usage
  pub failure : Option E

-- What a round of the `select` takes: an event, or the end of the context.
pub data Received (E : Type 0) : Type 0 where
  received : Event E → Received E
  cancelled : E → Received E

-- `sendStreamingEvent` of the deltas, to the receiver of the output.
pub record DeltaOutput (W E : Type 0) : Type 0 where
  pub send_text : String → W → Option E × W
  pub send_tool : ℤ → ToolCallDelta → W → Option E × W
  pub send_usage : Usage → W → Option E × W

-- The variables of the loop.
pub record StreamState : Type 0 where
  pub streamed : String
  pub assembler : Assembler
  pub usage_so_far : Usage

abbrev pub no_usage : Usage
no_usage = record { input_tokens = pos 0; output_tokens = pos 0; total_tokens = pos 0 }

abbrev pub new_stream_state : StreamState
new_stream_state = record { streamed = ""; assembler = new_assembler; usage_so_far = no_usage }

unfoldable pub add_usage_delta : Usage → Usage → Usage
add_usage_delta u v = record {
  input_tokens = add_int u.input_tokens v.input_tokens;
  output_tokens = add_int u.output_tokens v.output_tokens;
  total_tokens = add_int u.total_tokens v.total_tokens;
}

-- `event.Tool.ID != "" || event.Tool.Name != "" || event.Tool.Input != ""`, denied.
abbrev pub is_blank : ToolCallDelta → Bool
is_blank d = (d.id == "") && (d.name == "") && (d.input == "")

pub record StreamingStepResult (F E : Type 0) : Type 0 where
  pub response : Option Response
  pub tool_calls : Slice ToolCall
  pub transfer : Option (TransferStep F E)
  pub tokens_used : Usage
  pub streamed_text : String

module _ {F Sch W E : Type 0} where
  -- The end of the stream at `EventDone`, or the closed channel: the calls have to be assembled.
  unfoldable pub assembled :
      {A : Type 0}
      → Result ParseError (Slice ToolCall)
      → (Slice ToolCall → Result (ExecError F E) A)
      → Exec F Sch W
      → Ended F Sch W E A
  assembled (err e) f x = (err (assembly_failed e), x)
  assembled (ok calls) f x = (f calls, x)

  module _ (parse : String → Result String AnyMap) (print : ℤ → String)
      (out : DeltaOutput W E) where
    -- One round of the loop, with the rounds that follow.
    unfoldable pub read_event :
        Event E
        → StreamState
        → Exec F Sch W
        → (StreamState → Exec F Sch W → Ended F Sch W E (StreamState × Slice ToolCall))
        → Ended F Sch W E (StreamState × Slice ToolCall)
    unfolding assembled
    read_event ev s x rest = elim ev.kind [
      | text_delta ↦ elim ev.text [
        | none ↦ rest s x
        | some t ↦
            and_then (call_outside {E = E} (out.send_text t) x)
              (λ u y. rest (record s { streamed = s.streamed +++ t }) y)
      ]
      | tool_call ↦ elim ev.tool [
        | none ↦ rest s x
        | some (i, d) ↦
            if is_blank d
            then rest s x
            else and_then (call_outside {E = E} (out.send_tool i d) x)
                (λ u y. rest (record s { assembler = add_fragment i d s.assembler }) y)
      ]
      | tool_result ↦ rest s x
      | usage ↦ elim ev.usage_delta [
        | none ↦ rest s x
        | some v ↦
            and_then (call_outside {E = E} (out.send_usage v) x)
              (λ u y. rest (record s { usage_so_far = add_usage_delta s.usage_so_far v }) y)
      ]
      | error ↦ (err (stream_failed ev.failure), x)
      | done ↦ assembled (assemble parse print s.assembler) (λ calls. ok (s, calls)) x
    ]

    -- The loop.
    unfoldable pub read_stream :
        List (Received E)
        → StreamState
        → Exec F Sch W
        → Ended F Sch W E (StreamState × Slice ToolCall)
    unfolding read_event
    read_stream [] s x = assembled (assemble parse print s.assembler) (λ calls. err unterminated) x
    read_stream (cancelled e ∷ rs) s x = (err (stream_cancelled e), x)
    read_stream (received ev ∷ rs) s x = read_event ev s x (λ t y. read_stream rs t y)

    -- The result at the end of the stream. The source never sets the finish reason.
    unfoldable pub streaming_result :
        StreamState × Slice ToolCall
        → Exec F Sch W
        → Result (ExecError F E) (Option (TransferStep F E))
        → Ended F Sch W E (Option (StreamingStepResult F E))
    streaming_result (s, calls) x (err e) = (err e, x)
    streaming_result (s, calls) x (ok transfer) = (
      ok (
          some (record {
            response = some (record { content = []; usage = s.usage_so_far; finish_reason = "" });
            tool_calls = calls;
            transfer = transfer;
            tokens_used = s.usage_so_far;
            streamed_text = s.streamed;
          })),
      x,
    )

    module _ {J : Type 0} (env : Env F Sch W J E)
        (stream : Request → W → Result E (List (Received E)) × W) where
      -- The answer of `provider.Stream`: an error, or the channel.
      unfoldable pub opened :
          Exec F Sch W
          → Result E (List (Received E)) × W
          → Ended F Sch W E (StreamState × Slice ToolCall)
      unfolding read_stream
      opened x (err e, w) = (err (outside e), with_world w x)
      opened x (ok rs, w) = read_stream rs new_stream_state (with_world w x)

      unfoldable pub open_stream :
          Step Sch W → Slice Message → Exec F Sch W → Ended F Sch W E (StreamState × Slice ToolCall)
      unfolding opened
      open_stream step ms x =
          let req =
            build_request
              (record {
                session_id = x.run.session_id;
                run_id = x.run.run_id;
                step_index = step.step_index;
                messages = ms;
                provider_name = "";
                user_id = x.run.user_id;
                agent_id = x.run.agent_id;
                agent_name = "";
                metadata = clone_string_map x.run.metadata;
              })
              (tool_defs_to_llm env step.avail_tools) x.run in
          opened x (stream req x.world)

      -- `executeStreamingStep`
      unfoldable pub execute_streaming_step :
          Step Sch W → Exec F Sch W → Ended F Sch W E (Option (StreamingStepResult F E))
      unfolding open_stream streaming_result
      execute_streaming_step step x =
          and_then
            (prepared env x (
              prepare_messages_for_request env.std env.limits step.session_id step.messages
                (tool_defs_to_llm env step.avail_tools) x.run.conv))
            (λ ms y.
              and_then (open_stream step ms y)
                (λ r z. streaming_result r z (extract_transfer env z.run r.1 r.0.streamed)))

module _ {F E : Type 0} where
  -- `engineTurnStepOutput(normalizeStreamingStepResult(result))`
  unfoldable pub streaming_turn_step_output : StreamingStepResult F E → TurnStepOutput
  streaming_turn_step_output r = record {
    step = record {
      request = none;
      response = r.response;
      text = if r.streamed_text == "" then extract_response_text r.response else r.streamed_text;
      tool_calls = clone_calls r.tool_calls;
      usage = r.tokens_used;
    };
    transfer = transfer_plan_from_step r.transfer;
  }
