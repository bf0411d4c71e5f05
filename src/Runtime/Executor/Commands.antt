-- ===== src/Runtime/Executor/Commands.antt =====
-- agent/runtime_engine_commands.go: a command of the engine, applied to the run. The trace event of a
-- final step changes nothing but spans.
use kae_agent_public.Base.{
  String, ◌==◌, List, [], ◌∷◌, Option, none, some, Slice, nil, items, append, Result, ok, err,
  if◌then◌else◌,
}
use kae_agent_public.Llm.{Message, ToolCall}
use kae_agent_public.Llm.Clone.{clone_message}
use kae_agent_public.Engine.{
  ToolResult, CommandKind, append_user_message, append_assistant_message, append_tool_results,
  execute_tools, apply_transfer, checkpoint, save_session, emit_output, trace_event, Payload,
  message, results, calls, transfer_to, output, step_event, Command,
}
use kae_agent_public.Engine.Commands.{clone_calls, clone_results, clone_string_map}
use kae_agent_public.Conversation.{append_owned}
use kae_agent_public.Runtime.Subagents.{TransferRequest, apply_transfer as transfer_run}
use kae_agent_public.Runtime.Executor.{
  Exec, Ended, Output, Env, ExecError, missing_message, missing_results, missing_calls,
  missing_event, missing_type, missing_text, missing_target, wrong_role, unsupported_output,
  transfer_failed, and_then, call_outside, checkpoint as save_checkpoint, save_session_data,
  result_to_string,
}

-- `appliedEngineCommands`
pub record Applied : Type 0 where
  pub tool_calls : Slice ToolCall
  pub tool_results : Slice ToolResult

abbrev pub nothing_applied : Applied
nothing_applied = record { tool_calls = nil; tool_results = nil }

abbrev pub tool_message : String → ToolResult → Message
tool_message content r = record {
  role = "tool";
  content = content;
  name = r.name;
  tool_call_id = r.call_id;
  tool_calls = nil;
}

module _ {F E : Type 0} where
  -- `transferRequestFromEngineCommand`
  unfoldable pub transfer_request_from_engine_command :
      Payload → Result (ExecError F E) (TransferRequest F E)
  transfer_request_from_engine_command (transfer_to target input reason metadata) =
      if target == ""
      then err missing_target
      else ok (record {
        agent_name = target;
        input = input;
        context = nil;
        metadata = clone_string_map metadata;
        filter = none;
      })
  transfer_request_from_engine_command _ = err missing_target

module _ {F Sch W : Type 0} where
  abbrev pub with_message : Message → Exec F Sch W → Exec F Sch W
  with_message m x = record x { run = record x.run { conv = append_owned m x.run.conv } }

  module _ {E : Type 0} where
    -- `opts.output.EmitToolResult` behind its test.
    abbrev pub emit_tool_result_to :
        Option (Output W E) → ToolResult → String → Exec F Sch W → Ended F Sch W E Unit
    emit_tool_result_to none r content x = (ok tt, x)
    emit_tool_result_to (some out) r content x =
        call_outside (out.emit_tool_result r.call_id r.name content) x

    -- `emitEngineOutput`
    unfoldable pub emit_engine_output : Output W E → Payload → Exec F Sch W → Ended F Sch W E Unit
    emit_engine_output out (output kind text) x =
        if kind == ""
        then (err missing_type, x)
        else if kind == "final_text"
        then (elim text [
          | none ↦ (err missing_text, x)
          | some t ↦ call_outside (out.emit_final_text t) x
        ])
        else if kind == "done"
        then call_outside out.emit_done x
        else (err (unsupported_output kind), x)
    emit_engine_output out _ x = (err missing_type, x)

module _ {F Sch W J E : Type 0} (env : Env F Sch W J E) where
  -- The loop over the results.
  unfoldable pub append_results :
      Option (Output W E) → List ToolResult → Exec F Sch W → Ended F Sch W E Unit
  append_results out [] x = (ok tt, x)
  append_results out (r ∷ rs) x =
      let content = result_to_string env r in
      and_then (emit_tool_result_to out r content (with_message (tool_message content r) x))
        (λ u y. append_results out rs y)

  -- `applyTransfer` in a run, whose error is wrapped.
  unfoldable pub transferred : TransferRequest F E → Exec F Sch W → Ended F Sch W E Unit
  transferred req x =
      elim (transfer_run env.floats env.trim env.resolver env.transfer_filter req x.run) [
        | err e ↦ (err (transfer_failed e), x)
        | ok rs ↦ (ok tt, record x { run = rs })
      ]

  -- A call whose answer is only an error.
  abbrev pub no_result : Ended F Sch W E Unit → Ended F Sch W E Applied
  no_result r = and_then r (λ u y. (ok nothing_applied, y))

  abbrev pub transfer_of :
      Result (ExecError F E) (TransferRequest F E) → Exec F Sch W → Ended F Sch W E Unit
  transfer_of (err e) x = (err e, x)
  transfer_of (ok req) x = transferred req x

  abbrev pub emit_to : Option (Output W E) → Payload → Exec F Sch W → Ended F Sch W E Unit
  emit_to none p x = (ok tt, x)
  emit_to (some out) p x = emit_engine_output out p x

  -- The cases of `applyEngineCommand`.
  unfoldable pub apply_kind :
      Option (Output W E) → CommandKind → Payload → Exec F Sch W → Ended F Sch W E Applied
  apply_kind out append_user_message (message m) x =
      if m.role == "user"
      then (ok nothing_applied, with_message (clone_message m) x)
      else (err wrong_role, x)
  apply_kind out append_user_message _ x = (err missing_message, x)
  apply_kind out append_assistant_message (message m) x =
      (ok nothing_applied, with_message (clone_message m) x)
  apply_kind out append_assistant_message _ x = (err missing_message, x)
  apply_kind out append_tool_results (results rs) x =
      and_then (append_results out (items rs) x)
        (λ u y. (ok (record { tool_calls = nil; tool_results = clone_results rs }), y))
  apply_kind out append_tool_results _ x = (err missing_results, x)
  apply_kind out execute_tools (calls step cs max) x =
      (ok (record { tool_calls = clone_calls cs; tool_results = nil }), x)
  apply_kind out execute_tools _ x = (err missing_calls, x)
  apply_kind out apply_transfer p x =
      no_result (transfer_of (transfer_request_from_engine_command p) x)
  apply_kind out checkpoint p x = no_result (save_checkpoint env x)
  apply_kind out save_session p x = no_result (save_session_data env x)
  apply_kind out emit_output p x = no_result (emit_to out p x)
  apply_kind out trace_event (step_event status text) x = (ok nothing_applied, x)
  apply_kind out trace_event _ x = (err missing_event, x)

  -- `applyEngineCommand`
  unfoldable pub apply_engine_command :
      Option (Output W E) → Command → Exec F Sch W → Ended F Sch W E Applied
  unfolding apply_kind
  apply_engine_command out c x = apply_kind out c.kind c.payload x

  -- `applyEngineCommandsWithOptions`
  unfoldable pub apply_engine_commands :
      Option (Output W E) → List Command → Exec F Sch W → Ended F Sch W E Applied
  unfolding apply_engine_command
  apply_engine_commands out [] x = (ok nothing_applied, x)
  apply_engine_commands out (c ∷ cs) x = and_then (apply_engine_command out c x) (λ a y.
      and_then (apply_engine_commands out cs y) (λ b z. (
        ok (record {
          tool_calls = append a.tool_calls (items b.tool_calls);
          tool_results = append a.tool_results (items b.tool_results);
        }),
        z,
      )))
