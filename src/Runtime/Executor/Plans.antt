-- ===== src/Runtime/Executor/Plans.antt =====
-- agent/runtime_engine_plan.go and agent/runtime_engine_turn.go: the runtime carries out the commands of
-- a step.
use kae_agent_public.Base.{
  ℤ, pos, ltb_ℤ, List, [], ◌∷◌, Option, none, some, Slice, of, Result, ok, err, if◌then◌else◌,
}
use kae_agent_public.Engine.{StepAction, TurnStep, Command, ToolResult}
use kae_agent_public.Engine.Commands.{plan_tool_result_commands}
use kae_agent_public.Engine.Plan.{
  PlanError, FinalPlan, ToolPlan, TransferCommands, parse_final_command_plan,
  parse_tool_command_plan, parse_transfer_command_plan, parse_tool_result_command_plan,
}
use kae_agent_public.Compaction.{Error}
use kae_agent_public.Conversation.{Conversation}
use kae_agent_public.Runtime.State.{publish_run_state}
use kae_agent_public.Runtime.Request.{compact_conversation}
use kae_agent_public.Runtime.Executor.{
  Exec, Ended, Output, Env, plan_refused, compaction_failed, unsupported_action, and_then,
  with_world,
}
use kae_agent_public.Runtime.Executor.Commands.{apply_engine_commands}
use kae_agent_public.Runtime.Executor.Tools.{available_tool_defs, tool_defs_to_llm}
use kae_agent_public.Runtime.Executor.Requests.{with_conv}

module _ {F Sch W E : Type 0} where
  -- A plan, or the refusal of its commands.
  abbrev pub parsed : {P : Type 0} → Result PlanError P → Exec F Sch W → Ended F Sch W E P
  parsed (err e) x = (err (plan_refused e), x)
  parsed (ok p) x = (ok p, x)

  unfoldable pub after_compaction :
      Exec F Sch W → Option Error × Conversation → Ended F Sch W E Unit
  after_compaction x (some e, c) = (err (compaction_failed e), with_conv c x)
  after_compaction x (none, c) = (ok tt, with_conv c x)

  -- `dispatchWithTracing`, whose results stand in a made slice.
  abbrev pub dispatched : Exec F Sch W → List ToolResult × W → Ended F Sch W E (Slice ToolResult)
  dispatched x (rs, w) = (ok (of rs), with_world w x)

module _ {F Sch W J E : Type 0} (env : Env F Sch W J E) where
  -- `compactConversation` of the executor.
  unfoldable pub compact : Exec F Sch W → Ended F Sch W E Unit
  unfolding after_compaction
  compact x = after_compaction x (
      compact_conversation env.limits x.run.session_id
        (tool_defs_to_llm env (available_tool_defs env x.run)) x.run.conv)

  -- `publishRunState(e.rs)`
  abbrev pub publish : Exec F Sch W → Exec F Sch W
  publish x = record x { rt = publish_run_state x.run x.rt }

  -- `executeFinalCommandPlan`, behind the parser.
  unfoldable pub run_final_plan : Output W E → FinalPlan → Exec F Sch W → Ended F Sch W E Unit
  unfolding compact
  run_final_plan out p x =
      and_then (apply_engine_commands env none (p.append_response ∷ []) x) (λ a1 x1.
        and_then (compact x1) (λ u x2.
          and_then (apply_engine_commands env none p.persist x2) (λ a2 x3.
            and_then (apply_engine_commands env (some out) (p.emit_final ∷ []) (publish x3))
              (λ a3 x4. and_then (apply_engine_commands env none (p.trace_final ∷ []) x4) (λ a4 x5.
                and_then (apply_engine_commands env (some out) (p.emit_done ∷ []) x5)
                  (λ a5 x6. (ok tt, x6)))))))

  unfoldable pub execute_final_command_plan :
      Output W E → List Command → Exec F Sch W → Ended F Sch W E Unit
  unfolding run_final_plan
  execute_final_command_plan out cs x =
      and_then (parsed (parse_final_command_plan cs) x) (λ p y. run_final_plan out p y)

  -- `executeToolCommandPlan`, behind the parser.
  unfoldable pub run_tool_plan : Output W E → ℤ → ToolPlan → Exec F Sch W → Ended F Sch W E Unit
  run_tool_plan out i p x = and_then (apply_engine_commands env none p.prepare x) (λ a1 x1.
      and_then (apply_engine_commands env none (p.run_tools ∷ []) x1) (λ a2 x2.
        and_then (dispatched x2 (env.run_tools i a2.tool_calls x2.run x2.world)) (λ rs x3.
          and_then (parsed (parse_tool_result_command_plan (plan_tool_result_commands rs)) x3)
            (λ cs x4.
              and_then (apply_engine_commands env (some out) cs x4) (λ a3 x5. (ok tt, x5))))))

  unfoldable pub execute_tool_command_plan :
      Output W E → ℤ → List Command → Exec F Sch W → Ended F Sch W E Unit
  unfolding run_tool_plan
  execute_tool_command_plan out i cs x =
      and_then (parsed (parse_tool_command_plan cs) x) (λ p y. run_tool_plan out i p y)

  -- `executeTransferCommandPlan`, behind the parser.
  unfoldable pub run_transfer_plan :
      Output W E → TransferCommands → Exec F Sch W → Ended F Sch W E Unit
  run_transfer_plan out p x = and_then (apply_engine_commands env none p.prepare x) (λ a1 x1.
      and_then (apply_engine_commands env (some out) p.acknowledge x1) (λ a2 x2.
        and_then (apply_engine_commands env none (p.apply ∷ []) x2) (λ a3 x3. (ok tt, x3))))

  unfoldable pub execute_transfer_command_plan :
      Output W E → List Command → Exec F Sch W → Ended F Sch W E Unit
  unfolding run_transfer_plan
  execute_transfer_command_plan out cs x =
      and_then (parsed (parse_transfer_command_plan cs) x) (λ p y. run_transfer_plan out p y)

  -- The step's action.
  unfoldable pub apply_action :
      Output W E → ℤ → Option StepAction → List Command → Exec F Sch W → Ended F Sch W E Unit
  unfolding execute_final_command_plan execute_tool_command_plan execute_transfer_command_plan
  apply_action out i none cs x = (err unsupported_action, x)
  apply_action out i (some StepAction.final) cs x = execute_final_command_plan out cs x
  apply_action out i (some StepAction.tools) cs x = execute_tool_command_plan out i cs x
  apply_action out i (some StepAction.transfer) cs x = execute_transfer_command_plan out cs x

  -- `applyEngineTurnStep`
  unfoldable pub apply_engine_turn_step :
      Output W E → TurnStep → Exec F Sch W → Ended F Sch W E Unit
  unfolding apply_action
  apply_engine_turn_step out step x =
      if ltb_ℤ step.index (pos 0)
      then and_then (apply_engine_commands env none step.commands x) (λ a y. (ok tt, y))
      else apply_action out step.index step.action step.commands x
