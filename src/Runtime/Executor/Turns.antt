-- ===== src/Runtime/Executor/Turns.antt =====
-- agent/runtime_engine_turn.go and agent/runtime_run.go: a turn of the engine over the executor's hooks,
-- and `Run`. A provider that is nil is left out, since `complete` stands for it.
use kae_agent_public.Base.{ℤ, String, ◌+++◌, List, Option, none, some, Result, ok, err}
use kae_agent_public.Llm.{Usage}
use kae_agent_public.Engine.{StepInput, TurnStepOutput, TransferPlan}
use kae_agent_public.Engine.Commands.{clone_calls, clone_string_map}
use kae_agent_public.Engine.Turn.{Hooks, TurnFailure, TurnOutput, execute_turn}
use kae_agent_public.Streaming.Budget.{check, add}
use kae_agent_public.Tools.Registry.{Registry}
use kae_agent_public.Agents.{Agent}
use kae_agent_public.Runtime.State.{Runtime, RunState, capture_run_state}
use kae_agent_public.Runtime.Executor.{
  Exec, Ended, Output, noop_output, Env, ExecError, TransferStep, nil_result, budget_exceeded,
  outside, and_then,
}
use kae_agent_public.Runtime.Executor.Plans.{apply_engine_turn_step}
use kae_agent_public.Runtime.Executor.Requests.{
  Handler, Middleware, StepResult, chain, execute_step, extract_response_text, build_step_input,
  step_of,
}

module _ {F E : Type 0} where
  unfoldable pub transfer_plan_from_step : Option (TransferStep F E) → Option TransferPlan
  transfer_plan_from_step none = none
  transfer_plan_from_step (some t) = some (record {
    call = t.call;
    target_agent = t.request.agent_name;
    input = t.request.input;
    reason = "";
    metadata = clone_string_map t.request.metadata;
    acknowledgment = "Transferred control to " +++ t.request.agent_name +++ ".";
  })

  -- `engineTurnStepOutput(normalizeStepResult(result))`
  unfoldable pub engine_turn_step_output : StepResult F E → TurnStepOutput
  unfolding transfer_plan_from_step
  engine_turn_step_output r = record {
    step = record {
      request = none;
      response = r.response;
      text = extract_response_text r.response;
      tool_calls = clone_calls r.tool_calls;
      usage = r.tokens_used;
    };
    transfer = transfer_plan_from_step r.transfer;
  }

  abbrev pub outside_error : Option E → Option (ExecError F E)
  outside_error none = none
  outside_error (some e) = some (outside e)

module _ {F Sch W : Type 0} where
  module _ {E : Type 0} where
    -- The result of the handler, which may be nil.
    unfoldable pub step_output :
        Option (StepResult F E) → Exec F Sch W → Ended F Sch W E TurnStepOutput
    step_output none x = (err nil_result, x)
    step_output (some r) x = (ok (engine_turn_step_output r), x)

    abbrev pub as_error : Ended F Sch W E Unit → Option (ExecError F E) × Exec F Sch W
    as_error (ok u, x) = (none, x)
    as_error (err e, x) = (some e, x)

module _ {F Sch W J E : Type 0} (env : Env F Sch W J E) where
  unfoldable pub check_run_budget : Exec F Sch W → Option (ExecError F E)
  check_run_budget x = elim (check env.floats x.run.budget) [
    | none ↦ none
    | some e ↦ some (budget_exceeded e)
  ]

  unfoldable pub add_run_usage : Usage → Exec F Sch W → Exec F Sch W
  add_run_usage u x = record x {
    run = record x.run { budget = add env.floats u.input_tokens u.output_tokens x.run.budget };
  }

  -- The hooks that `executeEngineTurnWithStep` sets; those for the spans change nothing.
  unfoldable pub turn_hooks :
      Output W E
      → (StepInput → Exec F Sch W → Ended F Sch W E TurnStepOutput)
      → Hooks (Exec F Sch W) (ExecError F E)
  turn_hooks out execute = record {
    ctx_err = λ x. outside_error (env.ctx_err x.world);
    check_budget = some (check_run_budget);
    add_usage = some (add_run_usage);
    current_step = some (λ i x. build_step_input env.provider_name i x.run);
    execute_turn_step = some execute;
    apply_turn_step = some (λ step x. as_error (apply_engine_turn_step env out step x));
    step_started = none;
    step_completed = none;
  }

  -- The step of `executeEngineTurn`.
  abbrev pub handled : Handler F Sch W E → StepInput → Exec F Sch W → Ended F Sch W E TurnStepOutput
  handled handler input x = and_then (handler (step_of env input x) x) step_output

  -- What a turn gives, with what it worked on.
  abbrev pub Turned : Type 0
  Turned =
      Result (TurnFailure (ExecError F E))
        (TurnOutput (RunState (Agent F Sch W) (Registry Sch W) F))
      × Exec F Sch W

  -- `executeEngineTurnWithStep`; the state of the output is a view of the run.
  unfoldable pub execute_engine_turn_with_step :
      Output W E
      → (StepInput → Exec F Sch W → Ended F Sch W E TurnStepOutput)
      → ℤ
      → String
      → Exec F Sch W
      → Turned
  unfolding turn_hooks
  execute_engine_turn_with_step out execute max text x =
      execute_turn (turn_hooks out execute) (some (λ y. y.run)) x.run max text x

  -- `executeEngineTurn`
  unfoldable pub execute_engine_turn :
      Output W E → Handler F Sch W E → ℤ → String → Exec F Sch W → Turned
  unfolding execute_engine_turn_with_step
  execute_engine_turn out handler max text x =
      execute_engine_turn_with_step out (handled handler) max text x

  -- `Run`, with the random id of the run and what `runtimeTurnError` makes a text of.
  unfoldable pub run :
      List (Middleware F Sch W E)
      → ℤ
      → String
      → String
      → Runtime (Agent F Sch W) (Registry Sch W) F
      → W
      → Turned
  unfolding execute_engine_turn
  run middleware max run_id text rt w =
      execute_engine_turn (noop_output W E) (chain (execute_step env) middleware) max text
        (record { run = capture_run_state run_id rt; rt = rt; world = w })
