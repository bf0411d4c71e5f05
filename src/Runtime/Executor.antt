-- ===== src/Runtime/Executor.antt =====
-- agent/runtime_state.go, runtime_checkpoint.go and runtime_output.go: what the commands and the steps
-- of a run work on, and the calls that leave the runtime. Spans and logs are left out.
pub mod Commands
pub mod Plans
pub mod Tools
pub mod Requests
pub mod Turns
pub mod Streams
pub mod Retry
pub mod Rule
pub mod Closed
pub mod Carried
pub mod Handlers
pub mod Runs
pub mod Outcomes
pub mod Pairs
pub mod Tests
use kae_agent_public.Base.{
  ℕ, ℤ, String, ◌+++◌, List, Option, none, some, Slice, Dict, Result, ok, err,
}
use kae_agent_public.Llm.{Message, ToolCall, Usage, Request, Response}
use kae_agent_public.Llm.Value.{Value, text, AnyMap}
use kae_agent_public.Engine.{StepInput, ToolResult}
use kae_agent_public.Engine.Commands.{clone_string_map}
use kae_agent_public.Engine.Plan.{PlanError}
use kae_agent_public.Streaming.Budget.{Floats, Exceeded, snapshot as budget_snapshot}
use kae_agent_public.Streaming.Assembler.{ParseError}
use kae_agent_public.Compaction.{GoStd, Error}
use kae_agent_public.Conversation.{messages_of}
use kae_agent_public.Session.{SessionSnapshot, SessionData, Json, clone_session_config}
use kae_agent_public.Tools.Registry.{Registry}
use kae_agent_public.Agents.{Agent, Resolver}
use kae_agent_public.Runtime.State.{Runtime, RunState}
use kae_agent_public.Runtime.Request.{Limits, RequestError}
use kae_agent_public.Runtime.Transfer.{TransferInputFilter}
use kae_agent_public.Runtime.Payload.{PayloadError}
use kae_agent_public.Runtime.Subagents.{TransferRequest, TransferError}

-- What a run works on: its own state, the runtime that it publishes to, and a world `W` that stands
-- for the stores, the provider, the tools and the receiver of the output.
pub record Exec (F Sch W : Type 0) : Type 0 where
  pub run : RunState (Agent F Sch W) (Registry Sch W) F
  pub rt : Runtime (Agent F Sch W) (Registry Sch W) F
  pub world : W

-- `runOutputAdapter`, of the calls that a command makes.
pub record Output (W E : Type 0) : Type 0 where
  pub emit_tool_result : String → String → String → W → Option E × W
  pub emit_final_text : String → W → Option E × W
  pub emit_done : W → Option E × W

-- `noopRunOutputAdapter`
abbrev pub noop_output : (W E : Type 0) → Output W E
noop_output W E = record {
  emit_tool_result = λ call_id name content w. (none, w);
  emit_final_text = λ content w. (none, w);
  emit_done = λ w. (none, w);
}

-- `TransferStep`
pub record TransferStep (F E : Type 0) : Type 0 where
  pub call : ToolCall
  pub request : TransferRequest F E

-- The fields of the runtime that a run only reads, and what the run calls outside: the stores, the
-- provider, the tools, `encoding/json`, `strings.TrimSpace`, `strings.TrimPrefix`, the `%q` of `fmt`, and the schemas of the
-- schema package. `content_text` is the text of a tool's content that is not a string.
pub record Env (F Sch W J E : Type 0) : Type 0 where
  pub floats : Floats F
  pub std : GoStd
  pub json : Json F J
  pub trim : String → String
  pub trim_prefix : String → String → String
  pub quote : String → String
  pub content_text : Value → String
  pub provider_name : String
  pub complete : Request → W → Result E (Option Response) × W
  pub save_conversation : Option (String → Slice Message → W → Option E × W)
  pub save_session : Option (SessionData J → W → Option E × W)
  pub resolver : Option (Resolver F Sch W)
  pub transfer_filter : Option (TransferInputFilter (SessionSnapshot F) E)
  pub limits : Limits
  pub consult_schema : Sch
  pub transfer_schema : Sch
  pub schema_map : Sch → AnyMap
  pub ctx_err : W → Option E
  pub run_tools :
      ℤ → Slice ToolCall → RunState (Agent F Sch W) (Registry Sch W) F → W → List ToolResult × W

pub data ExecError (F E : Type 0) : Type 0 where
  missing_message missing_results missing_calls missing_event missing_type : ExecError F E
  missing_text missing_target wrong_role nil_result nil_response : ExecError F E
  unsupported_output : String → ExecError F E
  plan_refused : PlanError → ExecError F E
  transfer_failed : TransferError E → ExecError F E
  compaction_failed : Error → ExecError F E
  request_failed : RequestError → ExecError F E
  budget_exceeded : Exceeded F → ExecError F E
  transfer_unavailable : String → String → ExecError F E
  transfer_combined : String → ExecError F E
  payload_refused : PayloadError → ExecError F E
  unsupported_action unterminated : ExecError F E
  stream_cancelled : E → ExecError F E
  stream_failed : Option E → ExecError F E
  assembly_failed : ParseError → ExecError F E
  retry_cancelled : E → ExecError F E
  never_tried : ℤ → ExecError F E
  retry_exhausted : ℤ → ExecError F E → ExecError F E
  outside : E → ExecError F E

-- A result with what a run works on.
abbrev pub Ended : (F Sch W E A : Type 0) → Type 0
Ended F Sch W E A = Result (ExecError F E) A × Exec F Sch W

module _ {X E : Type 0} where
  -- `if err != nil { return …, err }`, with what is changed so far.
  abbrev pub and_then : {A B : Type 0} → Result E A × X → (A → X → Result E B × X) → Result E B × X
  and_then (err e, x) f = (err e, x)
  and_then (ok a, x) f = f a x

module _ {F Sch W : Type 0} where
  abbrev pub with_world : W → Exec F Sch W → Exec F Sch W
  with_world w x = record x { world = w }

  module _ {E : Type 0} where
    -- A call that leaves the runtime, and may fail.
    abbrev pub called : Exec F Sch W → Option E × W → Ended F Sch W E Unit
    called x (none, w) = (ok tt, with_world w x)
    called x (some e, w) = (err (outside e), with_world w x)

    abbrev pub call_outside : (W → Option E × W) → Exec F Sch W → Ended F Sch W E Unit
    call_outside f x = called x (f x.world)

  module _ {J E : Type 0} (env : Env F Sch W J E) where
    unfoldable pub checkpoint : Exec F Sch W → Ended F Sch W E Unit
    checkpoint x = elim env.save_conversation [
      | none ↦ (ok tt, x)
      | some save ↦ call_outside (save x.run.session_id (messages_of x.run.conv)) x
    ]

    unfoldable pub session_store_data : RunState (Agent F Sch W) (Registry Sch W) F → SessionData J
    session_store_data rs = record {
      id = rs.session_id;
      user_id = rs.user_id;
      agent_id = rs.agent_id;
      config = env.json.config_text (clone_session_config rs.config);
      budget = env.json.budget_text (budget_snapshot rs.budget);
      metadata = clone_string_map rs.metadata;
    }

    unfoldable pub save_session_data : Exec F Sch W → Ended F Sch W E Unit
    save_session_data x = elim env.save_session [
      | none ↦ (ok tt, x)
      | some save ↦ call_outside (save (session_store_data x.run)) x
    ]

    -- tools/dispatcher.go, `ResultToString`
    unfoldable pub result_to_string : ToolResult → String
    result_to_string r = elim r.error [
      | some e ↦ "Error: " +++ e
      | none ↦ elim r.content [ text s ↦ s | v ↦ env.content_text v ]
    ]
