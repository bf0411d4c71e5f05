-- ===== src/Engine/Types.antt =====
-- agent/internal/engine/types.go and tools/tool.go: the data of a turn.
use kae_agent_public.Base.{ℤ, String, List, Option, Slice, Dict}
use kae_agent_public.Llm.{ToolCall, Message, Usage, Request, Response}
use kae_agent_public.Llm.Value.{Value}

-- `tools.ToolResult`; an error is its text.
pub record ToolResult : Type 0 where
  pub call_id : String
  pub name : String
  pub content : Value
  pub error : Option String

pub data StepAction : Type 0 where
  final tools transfer : StepAction

pub record StepOutput : Type 0 where
  pub request : Option Request
  pub response : Option Response
  pub text : String
  pub tool_calls : Slice ToolCall
  pub usage : Usage

pub record TransferPlan : Type 0 where
  pub call : ToolCall
  pub target_agent : String
  pub input : String
  pub reason : String
  pub metadata : Option (Dict String)
  pub acknowledgment : String

pub record TurnStepOutput : Type 0 where
  pub step : StepOutput
  pub open step use *
  pub transfer : Option TransferPlan

-- `StepInput` without the tool definitions, which the loop passes on.
pub record StepInput : Type 0 where
  pub session_id : String
  pub run_id : String
  pub step_index : ℤ
  pub messages : Slice Message
  pub provider_name : String
  pub user_id : String
  pub agent_id : String
  pub agent_name : String
  pub metadata : Option (Dict String)

pub data CommandKind : Type 0 where
  append_user_message append_assistant_message append_tool_results execute_tools : CommandKind
  apply_transfer checkpoint save_session emit_output trace_event : CommandKind

-- The `Data` map of a command, by the keys that are set in it.
pub data Payload : Type 0 where
  no_data : Payload
  message : Message → Payload
  results : Slice ToolResult → Payload
  calls : ℤ → Slice ToolCall → ℤ → Payload
  transfer_to : String → String → String → Option (Dict String) → Payload
  output : String → Option String → Payload
  step_event : String → String → Payload

pub record Command : Type 0 where
  pub kind : CommandKind
  pub payload : Payload

pub record TurnStep : Type 0 where
  pub index : ℤ
  pub input : Option StepInput
  pub output : Option TurnStepOutput
  pub action : Option StepAction
  pub commands : List Command
