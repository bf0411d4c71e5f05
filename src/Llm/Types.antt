-- ===== src/Llm/Types.antt =====
-- llm/provider.go: the records of the provider contract.
use kae_agent_public.Base.{ℕ, ℤ, String, List, Option, Slice, Dict}
use kae_agent_public.Llm.Value.{AnyMap}

pub record ToolCall : Type 0 where
  pub id : String
  pub name : String
  pub input : AnyMap

pub record Usage : Type 0 where
  pub input_tokens : ℤ
  pub output_tokens : ℤ
  pub total_tokens : ℤ

pub record Message : Type 0 where
  pub role : String
  pub content : String
  pub name : String
  pub tool_call_id : String
  pub tool_calls : Slice ToolCall

-- `llm.ToolDef`, as a provider receives it.
pub record ToolDef : Type 0 where
  pub name : String
  pub description : String
  pub parameters : AnyMap

pub record ContentBlock : Type 0 where
  pub kind : String  -- the field `Type`
  pub text : String
  pub tool_call : Option ToolCall

pub record Response : Type 0 where
  pub content : List ContentBlock
  pub usage : Usage
  pub finish_reason : String

pub record ExecutionContext : Type 0 where
  pub session_id : String
  pub user_id : String
  pub agent_id : String
  pub run_id : String
  pub step_index : ℤ
  pub metadata : Option (Dict String)

-- The temperature is a float32 behind a pointer: its bit pattern, or nil. The source sets no
-- `Options` where it builds a request.
pub record Request : Type 0 where
  pub model : String
  pub messages : Slice Message
  pub tools : List ToolDef
  pub max_tokens : ℤ
  pub temperature : Option ℕ
  pub execution : Option ExecutionContext
