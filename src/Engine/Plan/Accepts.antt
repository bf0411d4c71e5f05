-- ===== src/Engine/Plan/Accepts.antt =====
-- The planner of the engine and the parsers of the runtime agree.
use mathlib.Core.Logic.{if_pos, if_neg}
use kae_agent_public.Base.{
  pos, of, none, ℕ, suc, String, List, [], ◌∷◌, ◌++◌, length, Option, some, ok, ◌≡◌, refl, ap,
  arith, Bool-cases, inl, inr, Slice, items, is_empty, ◌↔◌, eqb, eqb_iff,
}
use kae_agent_public.Engine.Types.{
  StepAction, StepOutput, TransferPlan, CommandKind, Command, TurnStepOutput, StepInput, ToolResult,
  append_assistant_message, append_tool_results, execute_tools, apply_transfer, checkpoint,
  save_session, emit_output, trace_event, no_data, message, results, calls, transfer_to, output,
  step_event,
}
use kae_agent_public.Llm.Value.{text}
use kae_agent_public.Engine.Commands.{
  command, assistant_message, assistant_tool_call_message, clone_calls, clone_string_map,
  acknowledgment_of, plan_step_commands, plan_final_commands, plan_tool_commands,
  plan_transfer_commands, plan_tool_result_commands, classify_turn_step,
}
use kae_agent_public.Engine.Plan.{
  CommandKind-discrete, FinalPlan, ToolPlan, TransferCommands, validate_kinds,
  validate_command_sequence, parse_final_command_plan, parse_tool_command_plan,
  parse_transfer_command_plan, parse_tool_result_command_plan,
}

-- A command list is accepted by the parser that the action selects, and the parts that the runtime
-- runs one after the other are the list.
abbrev pub IsAccepted : StepAction → List Command → Type 0
IsAccepted StepAction.final cs =
    (p : FinalPlan) × (parse_final_command_plan cs ≡ ok p)
    × (p.append_response ∷ (p.persist ++ p.emit_final ∷ p.trace_final ∷ p.emit_done ∷ []) ≡ cs)
IsAccepted StepAction.tools cs =
    (p : ToolPlan) × (parse_tool_command_plan cs ≡ ok p) × (p.prepare ++ p.run_tools ∷ [] ≡ cs)
IsAccepted StepAction.transfer cs =
    (p : TransferCommands) × (parse_transfer_command_plan cs ≡ ok p)
    × (p.prepare ++ p.acknowledge ++ p.apply ∷ [] ≡ cs)

final-IsAccepted : (out : StepOutput) → IsAccepted StepAction.final (plan_final_commands out)
unfolding plan_final_commands parse_final_command_plan CommandKind-discrete
final-IsAccepted out = (_, refl, refl)

tools-IsAccepted :
    (step : StepInput) (out : StepOutput)
    → IsAccepted StepAction.tools (plan_tool_commands step out)
unfolding plan_tool_commands parse_tool_command_plan CommandKind-discrete
tools-IsAccepted step out = (_, refl, refl)

transfer-IsAccepted :
    (out : StepOutput) (t : TransferPlan)
    → IsAccepted StepAction.transfer (plan_transfer_commands out t)
unfolding plan_transfer_commands parse_transfer_command_plan CommandKind-discrete
transfer-IsAccepted out t = (_, refl, refl)

plan-IsAccepted_of :
    (step : StepInput) (out : StepOutput) (t : Option TransferPlan)
    → let o : TurnStepOutput = record { step = out; transfer = t } in
      IsAccepted (classify_turn_step o) (plan_step_commands step out t)
unfolding classify_turn_step
plan-IsAccepted_of step out (some t) = unfold plan_step_commands in transfer-IsAccepted out t
plan-IsAccepted_of step out none = elim (Bool-cases (is_empty (items out.tool_calls))) [
  | inl p ↦ rw p (unfold plan_step_commands in rw p (final-IsAccepted out))
  | inr p ↦ rw p (unfold plan_step_commands in rw p (tools-IsAccepted step out))
]

-- The runtime accepts every plan of the engine: whatever a step put out, the planned commands pass the
-- parser of the action that the step is classified as, and what the runtime then runs, part after part,
-- is the plan.
pub plan-IsAccepted :
    (step : StepInput) (out : TurnStepOutput)
    → IsAccepted (classify_turn_step out) (plan_step_commands step out.step out.transfer)
plan-IsAccepted step out = plan-IsAccepted_of step out.step out.transfer

-- What the parsers give for the engine's plans.
pub final_plan_parsed :
    (out : StepOutput)
    → parse_final_command_plan (plan_final_commands out)
      ≡ ok (record {
        append_response = command append_assistant_message (message (assistant_message out.text));
        persist = command checkpoint no_data ∷ command save_session no_data ∷ [];
        emit_final = command emit_output (output "final_text" (some out.text));
        trace_final = command trace_event (step_event "final" out.text);
        emit_done = command emit_output (output "done" none);
      })
unfolding plan_final_commands parse_final_command_plan CommandKind-discrete
final_plan_parsed out = refl

pub tool_plan_parsed :
    (step : StepInput) (out : StepOutput)
    → parse_tool_command_plan (plan_tool_commands step out)
      ≡ ok (record {
        prepare =
            command append_assistant_message
              (message (assistant_tool_call_message out.text (items out.tool_calls)))
            ∷ command checkpoint no_data
            ∷ [];
        run_tools =
            command execute_tools (calls step.step_index (clone_calls out.tool_calls) (pos 0));
      })
unfolding plan_tool_commands parse_tool_command_plan CommandKind-discrete
tool_plan_parsed step out = refl

pub transfer_plan_parsed :
    (out : StepOutput) (t : TransferPlan)
    → parse_transfer_command_plan (plan_transfer_commands out t)
      ≡ ok (record {
        prepare =
            command append_assistant_message
              (message (assistant_tool_call_message out.text (t.call ∷ [])))
            ∷ command checkpoint no_data
            ∷ [];
        acknowledge =
            command append_tool_results (
              results (
                of (
                  record {
                    call_id = t.call.id;
                    name = t.call.name;
                    content = text (acknowledgment_of t);
                    error = none;
                  }
                  ∷ [])))
            ∷ command checkpoint no_data
            ∷ [];
        apply =
            command apply_transfer
              (transfer_to t.target_agent t.input t.reason (clone_string_map t.metadata));
      })
unfolding plan_transfer_commands parse_transfer_command_plan CommandKind-discrete
transfer_plan_parsed out t = refl

-- The commands for tool results are accepted as they are.
pub tool_result_plan_accepted :
    (rs : Slice ToolResult)
    → parse_tool_result_command_plan (plan_tool_result_commands rs)
      ≡ ok (plan_tool_result_commands rs)
unfolding plan_tool_result_commands parse_tool_result_command_plan CommandKind-discrete
tool_result_plan_accepted rs = refl

abbrev pub kinds : List Command → List CommandKind
kinds [] = []
kinds (c ∷ cs) = c.kind ∷ kinds cs

head_kind {ℓ} : {A : Type ℓ} {a b : A} {xs ys : List A} → a ∷ xs ≡ b ∷ ys → (a ≡ b) × (xs ≡ ys)
head_kind h = (cc, cc)

validate_kinds_iff :
    (name : String) (i : ℕ) (cs : List Command) (ks : List CommandKind)
    → length cs ≡ length ks
    → (validate_kinds name i cs ks ≡ none) ↔ (kinds cs ≡ ks)
unfolding validate_kinds
validate_kinds_iff name i [] [] e = ((λ _. refl), (λ _. refl))
validate_kinds_iff name i [] (k ∷ ks) e = absurd (omega arith)
validate_kinds_iff name i (c ∷ cs) [] e = absurd (omega arith)
validate_kinds_iff name i (c ∷ cs) (k ∷ ks) e =
    let ih = validate_kinds_iff name (suc i) cs ks (omega arith) in
    elim (CommandKind-discrete c.kind k) [
      | yes p ↦ rw (if_pos _ p) ((λ h. cc (p, ih.0 h)), (λ h. ih.1 (head_kind h).1))
      | no p ↦ rw (if_neg _ p) ((λ h. cc), (λ h. absurd (p (head_kind h).0)))
    ]

length-kinds : (cs : List Command) → length (kinds cs) ≡ length cs
length-kinds [] = refl
length-kinds (c ∷ cs) = ap suc (length-kinds cs)

-- The sequence check passes exactly the lists that have the expected kinds, in their order.
pub validate_command_sequence_iff :
    (name : String) (cs : List Command) (ks : List CommandKind)
    → (validate_command_sequence name cs ks ≡ none) ↔ (kinds cs ≡ ks)
unfolding validate_command_sequence
validate_command_sequence_iff name cs ks = elim (Bool-cases (eqb (length cs) (length ks))) [
  | inl e ↦ rw e (validate_kinds_iff name 0 cs ks ((eqb_iff (length cs) (length ks)).0 e))
  | inr e ↦ rw e (
    (λ h. cc),
    (λ h. absurd (ground (arith, eqb_iff (length cs) (length ks), ap length h, length-kinds cs))),
  )
]
