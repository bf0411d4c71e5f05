-- ===== src/Engine/Plan.antt =====
-- agent/runtime_engine_plan.go: the runtime takes a command list apart, and refuses one that does not
-- have the expected kinds.
pub mod Accepts
use kae_agent_public.Base.{
  ℕ, zero, suc, String, List, [], ◌∷◌, ◌++◌, length, Option, none, some, Result, ok, err, ◌>>=◌,
  eqb, Bool, true, false, if◌then◌else◌, Slice,
}
use kae_agent_public.Engine.Types.{
  CommandKind, append_user_message, append_assistant_message, append_tool_results, execute_tools,
  apply_transfer, checkpoint, save_session, emit_output, trace_event, Command, ToolResult,
}
use mathlib.Core.Logic.{ite}

pub CommandKind-discrete : Discrete CommandKind
CommandKind-discrete = hlevel

-- The errors of `validateCommandSequence`: a wrong number, or a wrong kind at a place.
pub data PlanError : Type 0 where
  wrong_length : String → ℕ → ℕ → PlanError
  wrong_kind : String → ℕ → CommandKind → CommandKind → PlanError

pub record FinalPlan : Type 0 where
  pub append_response : Command
  pub persist : List Command
  pub emit_final : Command
  pub trace_final : Command
  pub emit_done : Command

pub record ToolPlan : Type 0 where
  pub prepare : List Command
  pub run_tools : Command

pub record TransferCommands : Type 0 where
  pub prepare : List Command
  pub acknowledge : List Command
  pub apply : Command

-- The loop of `validateCommandSequence`; the lists have one length.
unfoldable pub validate_kinds : String → ℕ → List Command → List CommandKind → Option PlanError
validate_kinds name i (c ∷ cs) (k ∷ ks) =
    ite (CommandKind-discrete c.kind k) (validate_kinds name (suc i) cs ks)
      (some (wrong_kind name i k c.kind))
validate_kinds name i _ _ = none

unfoldable pub validate_command_sequence :
    String → List Command → List CommandKind → Option PlanError
unfolding validate_kinds
validate_command_sequence name cs ks =
    if eqb (length cs) (length ks)
    then validate_kinds name 0 cs ks
    else some (wrong_length name (length ks) (length cs))

abbrev pub final_kinds : List CommandKind
final_kinds =
    append_assistant_message ∷ checkpoint ∷ save_session ∷ emit_output ∷ trace_event ∷ emit_output
    ∷ []

abbrev pub tool_kinds : List CommandKind
tool_kinds = append_assistant_message ∷ checkpoint ∷ execute_tools ∷ []

abbrev pub transfer_kinds : List CommandKind
transfer_kinds =
    append_assistant_message ∷ checkpoint ∷ append_tool_results ∷ checkpoint ∷ apply_transfer ∷ []

abbrev pub result_kinds : List CommandKind
result_kinds = append_tool_results ∷ checkpoint ∷ []

-- The places of a list that was found to have the right length. The last clauses are not reached.
unfoldable pub take_final : List Command → Result PlanError FinalPlan
take_final (a ∷ b ∷ c ∷ d ∷ e ∷ f ∷ []) = ok (record {
  append_response = a;
  persist = b ∷ c ∷ [];
  emit_final = d;
  trace_final = e;
  emit_done = f;
})
take_final cs = err (wrong_length "final" 6 (length cs))

unfoldable pub take_tool : List Command → Result PlanError ToolPlan
take_tool (a ∷ b ∷ c ∷ []) = ok (record { prepare = a ∷ b ∷ []; run_tools = c })
take_tool cs = err (wrong_length "tool" 3 (length cs))

unfoldable pub take_transfer : List Command → Result PlanError TransferCommands
take_transfer (a ∷ b ∷ c ∷ d ∷ e ∷ []) =
    ok (record { prepare = a ∷ b ∷ []; acknowledge = c ∷ d ∷ []; apply = e })
take_transfer cs = err (wrong_length "transfer" 5 (length cs))

unfoldable pub take_results : List Command → Result PlanError (List Command)
take_results (a ∷ b ∷ []) = ok (a ∷ b ∷ [])
take_results cs = err (wrong_length "tool result" 2 (length cs))

-- A plan is taken apart after its kinds were found right.
abbrev checked {ℓ} : {A : Type ℓ} → Option PlanError → Result PlanError A → Result PlanError A
checked (some e) r = err e
checked none r = r

unfoldable pub parse_final_command_plan : List Command → Result PlanError FinalPlan
unfolding validate_command_sequence take_final
parse_final_command_plan cs =
    checked (validate_command_sequence "final" cs final_kinds) (take_final cs)

unfoldable pub parse_tool_command_plan : List Command → Result PlanError ToolPlan
unfolding validate_command_sequence take_tool
parse_tool_command_plan cs = checked (validate_command_sequence "tool" cs tool_kinds) (take_tool cs)

unfoldable pub parse_transfer_command_plan : List Command → Result PlanError TransferCommands
unfolding validate_command_sequence take_transfer
parse_transfer_command_plan cs =
    checked (validate_command_sequence "transfer" cs transfer_kinds) (take_transfer cs)

unfoldable pub parse_tool_result_command_plan : List Command → Result PlanError (List Command)
unfolding validate_command_sequence take_results
parse_tool_result_command_plan cs =
    checked (validate_command_sequence "tool result" cs result_kinds) (take_results cs)
