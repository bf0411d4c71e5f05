-- ===== src/Runtime/Executor/Requests.antt =====
-- agent/runtime_executor.go, `executeStep`, agent/internal/engine/step.go and builders.go, and the
-- middleware of agent/middleware.go: one request to the provider.
use kae_agent_public.Base.{
  ℕ, ℤ, String, ◌==◌, List, [], ◌∷◌, Option, none, some, Slice, nil, append, Result, ok, err,
  if◌then◌else◌,
}
use kae_agent_public.Llm.{
  ToolCall, Message, Usage, Request, Response, ContentBlock, ToolDef as LlmToolDef,
}
use kae_agent_public.Llm.Clone.{clone_messages, clone_tool_call}
use kae_agent_public.Engine.{StepInput, StepOutput}
use kae_agent_public.Engine.Commands.{clone_string_map}
use kae_agent_public.Conversation.{Conversation, messages_of}
use kae_agent_public.Tools.Registry.{Registry, ToolDef}
use kae_agent_public.Agents.{Agent, name_of}
use kae_agent_public.Runtime.State.{RunState}
use kae_agent_public.Runtime.Request.{RequestError, prepare_messages_for_request}
use kae_agent_public.Runtime.Executor.{
  Exec, Ended, Env, ExecError, TransferStep, nil_response, request_failed, outside, and_then,
  with_world,
}
use kae_agent_public.Runtime.Executor.Tools.{
  available_tool_defs, tool_defs_to_llm, extract_transfer,
}

pub record Step (Sch W : Type 0) : Type 0 where
  pub session_id : String
  pub run_id : String
  pub step_index : ℤ
  pub messages : Slice Message
  pub avail_tools : List (ToolDef Sch W)
  pub provider_name : String
  pub user_id : String
  pub agent_id : String
  pub agent_name : String

pub record StepResult (F E : Type 0) : Type 0 where
  pub response : Option Response
  pub tool_calls : Slice ToolCall
  pub transfer : Option (TransferStep F E)
  pub tokens_used : Usage

-- `Handler`; its result may be nil.
abbrev pub Handler : (F Sch W E : Type 0) → Type 0
Handler F Sch W E = Step Sch W → Exec F Sch W → Ended F Sch W E (Option (StepResult F E))

abbrev pub Middleware : (F Sch W E : Type 0) → Type 0
Middleware F Sch W E = Handler F Sch W E → Handler F Sch W E

-- `Chain`: the first middleware is the outermost.
unfoldable pub chain :
    {F Sch W E : Type 0} → Handler F Sch W E → List (Middleware F Sch W E) → Handler F Sch W E
chain h [] = h
chain h (m ∷ ms) = m (chain h ms)

-- `ExtractResponseText`
unfoldable pub text_of_blocks : List ContentBlock → String
text_of_blocks [] = ""
text_of_blocks (b ∷ bs) = if b.kind == "text" then b.text else text_of_blocks bs

unfoldable pub extract_response_text : Option Response → String
unfolding text_of_blocks
extract_response_text none = ""
extract_response_text (some r) = text_of_blocks r.content

-- `ExtractToolCalls`, the loop.
unfoldable pub calls_of_blocks : List ContentBlock → List ToolCall
calls_of_blocks [] = []
calls_of_blocks (b ∷ bs) =
    let rest = calls_of_blocks bs in
    if b.kind == "tool_call"
    then (elim b.tool_call [ none ↦ rest | some c ↦ clone_tool_call c ∷ rest ])
    else rest

unfoldable pub extract_tool_calls : Option Response → Slice ToolCall
unfolding calls_of_blocks
extract_tool_calls none = nil
extract_tool_calls (some r) = append nil (calls_of_blocks r.content)

module _ {F Sch W : Type 0} where
  abbrev pub active_name : Option (Agent F Sch W) → String
  active_name none = ""
  active_name (some a) = name_of a

  -- `BuildStepInput` of the engine's view of the run, without the tools.
  unfoldable pub build_step_input :
      String → ℕ → RunState (Agent F Sch W) (Registry Sch W) F → StepInput
  build_step_input provider_name i rs = record {
    session_id = rs.session_id;
    run_id = rs.run_id;
    step_index = ℤ.pos i;
    messages = clone_messages (messages_of rs.conv);
    provider_name = provider_name;
    user_id = rs.user_id;
    agent_id = rs.agent_id;
    agent_name = active_name rs.active_agent;
    metadata = clone_string_map rs.metadata;
  }

  -- `BuildRequest`, with the tools that the step has.
  unfoldable pub build_request :
      StepInput → List LlmToolDef → RunState (Agent F Sch W) (Registry Sch W) F → Request
  build_request step tools rs = record {
    model = rs.config.model;
    messages = clone_messages step.messages;
    tools = tools;
    max_tokens = rs.config.max_tokens;
    temperature = rs.config.temperature;
    execution = some (record {
      session_id = step.session_id;
      user_id = step.user_id;
      agent_id = step.agent_id;
      run_id = step.run_id;
      step_index = step.step_index;
      metadata = clone_string_map step.metadata;
    });
  }

  abbrev pub with_conv : Conversation → Exec F Sch W → Exec F Sch W
  with_conv c x = record x { run = record x.run { conv = c } }

module _ {F Sch W J E : Type 0} (env : Env F Sch W J E) where
  -- `stepFromEngineStepInput`, with the tools that the run offers.
  unfoldable pub step_of : StepInput → Exec F Sch W → Step Sch W
  step_of input x = record {
    session_id = input.session_id;
    run_id = input.run_id;
    step_index = input.step_index;
    messages = clone_messages input.messages;
    avail_tools = available_tool_defs env x.run;
    provider_name = input.provider_name;
    user_id = input.user_id;
    agent_id = input.agent_id;
    agent_name = input.agent_name;
  }

  unfoldable pub prepared :
      Exec F Sch W
      → Result RequestError (Slice Message) × Conversation
      → Ended F Sch W E (Slice Message)
  prepared x (err e, c) = (err (request_failed e), with_conv c x)
  prepared x (ok ms, c) = (ok ms, with_conv c x)

  -- The end of `ExecuteStep`, after `Complete`.
  unfoldable pub completed :
      Request → Exec F Sch W → Result E (Option Response) × W → Ended F Sch W E StepOutput
  completed req x (err e, w) = (err (outside e), with_world w x)
  completed req x (ok none, w) = (err nil_response, with_world w x)
  completed req x (ok (some r), w) = (
    ok (record {
      request = some req;
      response = some r;
      text = extract_response_text (some r);
      tool_calls = extract_tool_calls (some r);
      usage = r.usage;
    }),
    with_world w x,
  )

  -- `ExecuteStep` of the engine, whose request is built from the step with the prepared messages.
  unfoldable pub execute_engine_step :
      Step Sch W → Slice Message → Exec F Sch W → Ended F Sch W E StepOutput
  unfolding completed
  execute_engine_step step ms x =
      let input : StepInput = record {
        session_id = step.session_id;
        run_id = x.run.run_id;
        step_index = step.step_index;
        messages = ms;
        provider_name = step.provider_name;
        user_id = step.user_id;
        agent_id = step.agent_id;
        agent_name = step.agent_name;
        metadata = clone_string_map x.run.metadata;
      } in
      let req = build_request input (tool_defs_to_llm env step.avail_tools) x.run in
      completed req x (env.complete req x.world)

  -- The end of `executeStep`: a transfer leaves no other call.
  unfoldable pub with_transfer :
      StepOutput
      → Exec F Sch W
      → Result (ExecError F E) (Option (TransferStep F E))
      → Ended F Sch W E (Option (StepResult F E))
  with_transfer out x (err e) = (err e, x)
  with_transfer out x (ok none) = (
    ok (
        some (record {
          response = out.response;
          tool_calls = out.tool_calls;
          transfer = none;
          tokens_used = out.usage;
        })),
    x,
  )
  with_transfer out x (ok (some t)) = (
    ok (
        some (record {
          response = out.response;
          tool_calls = nil;
          transfer = some t;
          tokens_used = out.usage;
        })),
    x,
  )

  -- The part of `executeStep` behind the answer of the provider.
  unfoldable pub after_complete :
      StepOutput → Exec F Sch W → Ended F Sch W E (Option (StepResult F E))
  unfolding with_transfer
  after_complete out x = with_transfer out x (extract_transfer env x.run out.tool_calls out.text)

  -- The part of `executeStep` behind the preparation of the messages.
  unfoldable pub after_prepare :
      Step Sch W → Slice Message → Exec F Sch W → Ended F Sch W E (Option (StepResult F E))
  unfolding after_complete execute_engine_step
  after_prepare step ms x = and_then (execute_engine_step step ms x) after_complete

  -- `executeStep`
  unfoldable pub execute_step : Handler F Sch W E
  unfolding prepared after_prepare
  execute_step step x =
      and_then
        (prepared x (
          prepare_messages_for_request env.std env.limits step.session_id step.messages
            (tool_defs_to_llm env step.avail_tools) x.run.conv))
        (after_prepare step)
