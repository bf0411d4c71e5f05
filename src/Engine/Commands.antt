-- ===== src/Engine/Commands.antt =====
-- agent/internal/engine/commands.go: the commands planned for a step.
use mathlib.Core.List.{map}
use kae_agent_public.Base.{
  pos, String, ◌+++◌, List, [], ◌∷◌, Option, none, some, Slice, nil, of, items, Dict, is_empty,
  ◌==◌, if◌then◌else◌,
}
use kae_agent_public.Llm.{ToolCall, Message}
use kae_agent_public.Llm.Value.{text}
use kae_agent_public.Llm.Clone.{clone_tool_call}
use kae_agent_public.Engine.Types.{
  ToolResult, StepAction, StepOutput, TransferPlan, TurnStepOutput, StepInput, CommandKind,
  append_assistant_message, append_tool_results, execute_tools, apply_transfer, checkpoint,
  save_session, emit_output, trace_event, Payload, no_data, message, results, calls, transfer_to,
  output, step_event, Command,
}

abbrev pub command : CommandKind → Payload → Command
command k p = record { kind = k; payload = p }

-- `cloneStringMap` of an association list, by its loop.
unfoldable pub copy_entries : Dict String → Dict String
copy_entries [] = []
copy_entries ((k, v) ∷ m) = (k, v) ∷ copy_entries m

unfoldable pub clone_string_map : Option (Dict String) → Option (Dict String)
clone_string_map none = none
clone_string_map (some m) = some (copy_entries m)

-- `cloneToolCalls`
unfoldable pub clone_calls : Slice ToolCall → Slice ToolCall
clone_calls nil = nil
clone_calls (of tcs) = of (map clone_tool_call tcs)

-- `assistantToolCallMessage`; `make` gives a slice that is not nil.
unfoldable pub assistant_tool_call_message : String → List ToolCall → Message
assistant_tool_call_message content tcs = record {
  role = "assistant";
  content = content;
  name = "";
  tool_call_id = "";
  tool_calls = of (map clone_tool_call tcs);
}

unfoldable pub assistant_message : String → Message
assistant_message content = record {
  role = "assistant";
  content = content;
  name = "";
  tool_call_id = "";
  tool_calls = nil;
}

unfoldable pub plan_final_commands : StepOutput → List Command
plan_final_commands out =
    command append_assistant_message (message (assistant_message out.text))
    ∷ command checkpoint no_data
    ∷ command save_session no_data
    ∷ command emit_output (output "final_text" (some out.text))
    ∷ command trace_event (step_event "final" out.text)
    ∷ command emit_output (output "done" none)
    ∷ []

unfoldable pub plan_tool_commands : StepInput → StepOutput → List Command
plan_tool_commands step out =
    command append_assistant_message
      (message (assistant_tool_call_message out.text (items out.tool_calls)))
    ∷ command checkpoint no_data
    ∷ command execute_tools (calls step.step_index (clone_calls out.tool_calls) (pos 0))
    ∷ []

-- The acknowledgment, or the standard one where it is empty.
unfoldable pub acknowledgment_of : TransferPlan → String
acknowledgment_of t =
    if t.acknowledgment == ""
    then "Transferred control to " +++ t.target_agent +++ "."
    else t.acknowledgment

unfoldable pub plan_transfer_commands : StepOutput → TransferPlan → List Command
plan_transfer_commands out t =
    command append_assistant_message (message (assistant_tool_call_message out.text (t.call ∷ [])))
    ∷ command checkpoint no_data
    ∷ command append_tool_results (
        results (
          of (
            record {
              call_id = t.call.id;
              name = t.call.name;
              content = text (acknowledgment_of t);
              error = none;
            }
            ∷ [])))
    ∷ command checkpoint no_data
    ∷ command apply_transfer
        (transfer_to t.target_agent t.input t.reason (clone_string_map t.metadata))
    ∷ []

-- `PlanStepCommands`
unfoldable pub plan_step_commands : StepInput → StepOutput → Option TransferPlan → List Command
unfolding plan_final_commands plan_tool_commands plan_transfer_commands
plan_step_commands step out (some t) = plan_transfer_commands out t
plan_step_commands step out none =
    if is_empty (items out.tool_calls) then plan_final_commands out else plan_tool_commands step out

-- `PlanToolResultCommands`; `cloneToolResults` copies the slice.
unfoldable pub clone_results : Slice ToolResult → Slice ToolResult
clone_results nil = nil
clone_results (of rs) = of (map (λ r. r) rs)

unfoldable pub plan_tool_result_commands : Slice ToolResult → List Command
plan_tool_result_commands rs =
    command append_tool_results (results (clone_results rs)) ∷ command checkpoint no_data ∷ []

-- agent/internal/engine/turn.go, `classifyTurnStep`
unfoldable pub classify_turn_step : TurnStepOutput → StepAction
classify_turn_step out = elim out.transfer [
  | some t ↦ StepAction.transfer
  | none ↦ if is_empty (items out.tool_calls) then StepAction.final else StepAction.tools
]
