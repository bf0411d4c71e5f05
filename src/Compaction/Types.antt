-- ===== src/Compaction/Types.antt =====
-- compaction/compaction.go: what a trigger and a strategy are given and return, and the functions of
-- Go's standard library that the package calls.
use kae_agent_public.Base.{ℕ, ℤ, Bool, String, List, Option, none, some, Slice, Dict, Result}
use kae_agent_public.Llm.{Message, ToolCall, ToolDef}
use kae_agent_public.Llm.Value.{int, int32, int64, float64, AnyMap, get}

-- `len(data)` of `json.Marshal`, 0 where it fails, and the conversion `int(v)` of a float64.
pub record GoStd : Type 0 where
  pub calls_json_len : List ToolCall → ℕ
  pub tools_json_len : List ToolDef → ℕ
  pub float_to_int : ℕ → ℤ

pub record Input : Type 0 where
  pub session_id : String
  pub messages : Slice Message
  pub tools : List ToolDef
  pub metadata : Option (Dict String)

pub record Output : Type 0 where
  pub messages : Slice Message
  pub compacted : Bool
  pub reason : String
  pub metadata : Option (Dict String)
  pub tokens_before : ℤ
  pub tokens_after : ℤ

-- The errors of the package; `foreign` is one that a trigger, a strategy or a summarizer of the
-- caller's returns.
pub data Error : Type 0 where
  too_many_system : ℤ → ℕ → Error
  exceeds_max_tokens : ℤ → ℤ → Error
  unknown_strategy : String → Error
  foreign : String → Error

-- `Strategy.Compact` and `Trigger.ShouldCompact`.
abbrev pub Strategy : Type 0
Strategy = Input → Result Error Output

abbrev pub Trigger : Type 0
Trigger = Input → Result Error (Bool × String)

abbrev pub TokenEstimator : Type 0
TokenEstimator = Slice Message → ℤ

-- An `Output` of which only the messages are given.
abbrev pub output_of : Slice Message → Bool → String → Output
output_of ms compacted reason = record {
  messages = ms;
  compacted = compacted;
  reason = reason;
  metadata = none;
  tokens_before = ℤ.pos 0;
  tokens_after = ℤ.pos 0;
}

-- `intValue` of the strategies' factories.
unfoldable pub int_value : GoStd → AnyMap → String → ℤ → ℤ
int_value std config key fallback = elim (get key config) [
  | some (int n) ↦ n
  | some (int32 n) ↦ n
  | some (int64 n) ↦ n
  | some (float64 bits) ↦ std.float_to_int bits
  | _ ↦ fallback
]
