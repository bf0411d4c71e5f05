-- ===== src/Runtime/Executor/Runs.antt =====
-- A run from its capture to its end.
use mathlib.Core.List.{append-nil}
use kae_agent_public.Base.{
  ℕ, ℤ, pos, ltb_ℤ, leb_ℤ, String, true, false, Bool, List, [], ◌∷◌, Option, none, some, Slice, nil,
  of, items, items-append, append, Result, ok, err, ◌≡◌, refl, sym, subst, ◌∙◌, ap, Bool-cases, inl,
  inr, map, is_empty, arith,
}
use kae_agent_public.Llm.{Message, ToolCall}
use kae_agent_public.Llm.Clone.{
  clone_message_id, clone_messages_id, clone_tool_call, clone_tool_call_id,
}
use kae_agent_public.Engine.{StepInput, StepOutput, TransferPlan, TurnStepOutput, Command}
use kae_agent_public.Engine.Commands.{
  clone_calls, clone_string_map, plan_step_commands, acknowledgment_of, classify_turn_step,
}
use kae_agent_public.Engine.Plan.Accepts.{final_plan_parsed, tool_plan_parsed, transfer_plan_parsed}
use kae_agent_public.Engine.Turn.{
  bad_max_steps, Ready, TurnFailure, validate_turn_input, turn_step, first_step, is_final, run_turn,
  output_turn, execute_turn,
}
use kae_agent_public.Engine.Turn.Rule.{Applied, KeepsTurn, run_turn-TurnKept, TurnKept}
use kae_agent_public.Tools.Registry.{Registry}
use kae_agent_public.Agents.{Agent}
use kae_agent_public.Runtime.State.{Runtime, RunState, publish_run_state}
use kae_agent_public.Runtime.Executor.{Exec, Ended, noop_output, Env, ExecError, and_then}
use kae_agent_public.Runtime.Executor.Commands.{apply_engine_command, apply_engine_commands}
use kae_agent_public.Runtime.Executor.Plans.{
  execute_final_command_plan, execute_tool_command_plan, execute_transfer_command_plan,
  apply_action, apply_engine_turn_step,
}
use kae_agent_public.Runtime.Executor.Requests.{Handler, StepResult, build_step_input, step_of}
use kae_agent_public.Conversation.{append_owned, messages_of}
use kae_agent_public.Runtime.Executor.Turns.{
  handled, execute_engine_turn_with_step, outside_error, check_run_budget, step_output, as_error,
  Turned, turn_hooks, execute_engine_turn, add_run_usage,
}
use kae_agent_public.Runtime.Executor.Rule.{Ends, Untouched}
use kae_agent_public.Runtime.Executor.Handlers.{Keeps, Passes}
use kae_agent_public.Runtime.Executor.Closed.{Closed}
use kae_agent_public.Runtime.Executor.Carried.{
  Going, Answered, tool_plan-Ends, final_plan-Ends, transfer_plan-Ends,
}

below_zero : (i : ℕ) → ltb_ℤ (pos i) (pos 0) ≡ false
below_zero i = ground arith

map_clone : (cs : List ToolCall) → map clone_tool_call cs ≡ cs
map_clone [] = refl
map_clone (c ∷ cs) = rw clone_tool_call_id (ap (λ l. c ∷ l) (map_clone cs))

items-clone_calls : (s : Slice ToolCall) → items (clone_calls s) ≡ items s
unfolding clone_calls
items-clone_calls nil = refl
items-clone_calls (of cs) = map_clone cs

calls_run : (s : Slice ToolCall) → items (append (clone_calls (clone_calls s)) []) ≡ items s
calls_run s =
    items-append (clone_calls (clone_calls s)) []
    ∙ append-nil _
    ∙ items-clone_calls (clone_calls s)
    ∙ items-clone_calls s

module _ {F Sch W J E : Type 0} (env : Env F Sch W J E) {I : List Message → Type 0}
    (closed : Closed env I) (rt : Runtime (Agent F Sch W) (Registry Sch W) F) where
  -- After a step with an action, final or not.
  abbrev Reached : Bool → Exec F Sch W → Type 0
  Reached true = Answered env closed rt
  Reached false = Going env closed rt

  acted-Ends :
      (i : ℤ) (input : StepInput) (o : StepOutput) (t : Option TransferPlan) (x : Exec F Sch W)
      → Going env closed rt x
      → let out : TurnStepOutput = record { step = o; transfer = t } in
        Ends
          (λ u y. Reached (is_final (classify_turn_step out)) y)
          (Untouched rt)
          (apply_action env
            (noop_output W E)
            i
            (some (classify_turn_step out))
            (plan_step_commands input o t)
            x)
  unfolding classify_turn_step apply_action execute_final_command_plan execute_tool_command_plan
      execute_transfer_command_plan
  acted-Ends i input o (some t) x g =
      unfold plan_step_commands in
      rw (transfer_plan_parsed o t) (
        transfer_plan-Ends env closed rt (noop_output W E) o.text (acknowledgment_of t)
          t.target_agent t.input t.reason t.call (clone_string_map t.metadata) x g)
  acted-Ends i input o none x g = elim (Bool-cases (is_empty (items o.tool_calls))) [
    | inl p ↦
        unfold plan_step_commands in
        rw (p, final_plan_parsed o) (final_plan-Ends env closed rt o.text x g)
    | inr p ↦
        unfold plan_step_commands in
        rw (p, tool_plan_parsed input o)
          (tool_plan-Ends env closed rt (noop_output W E) i input.step_index (pos 0) o.text
            (clone_calls o.tool_calls) (items o.tool_calls) x (calls_run o.tool_calls) g)
  ]

  applied_final :
      (r : Ended F Sch W E Unit) (b : Bool)
      → Ends (λ u y. Reached b y) (Untouched rt) r
      → Applied (Going env closed rt) (Answered env closed rt) (Untouched rt) b (as_error r)
  applied_final (ok u, x) true h = h.kept
  applied_final (ok u, x) false h = h.kept
  applied_final (err e, x) b h = h.kept

  turn_step-Applied :
      (i : ℕ) (input : StepInput) (out : TurnStepOutput) (x : Exec F Sch W)
      → Going env closed rt x
      → Applied
          (Going env closed rt)
          (Answered env closed rt)
          (Untouched rt)
          (is_final (classify_turn_step out))
          (as_error (apply_engine_turn_step env (noop_output W E) (turn_step i input out) x))
  unfolding apply_engine_turn_step
  turn_step-Applied i input out x g = rw (below_zero i) (
      applied_final _ (is_final (classify_turn_step out))
        (acted-Ends (pos i) input out.step out.transfer x g))

  first_step-Applied :
      (text : String) (x : Exec F Sch W)
      → Going env closed rt x
      → Applied
          (Going env closed rt)
          (Answered env closed rt)
          (Untouched rt)
          false
          (as_error (apply_engine_turn_step env (noop_output W E) (first_step text) x))
  unfolding apply_engine_turn_step apply_engine_commands apply_engine_command append_owned
  first_step-Applied text x (g, k, l) =
      rw (clone_message_id, items-append)
        (closed.user_kept (items x.run.conv.messages) text g, k, l)

  -- The hooks that `validateTurnInput` finds.
  abbrev ready : Handler F Sch W E → Ready (Exec F Sch W) (ExecError F E)
  ready handler = record {
    ctx_err = λ x. outside_error (env.ctx_err x.world);
    check_budget = check_run_budget env;
    add_usage = add_run_usage env;
    current_step = λ i x. build_step_input env.provider_name i x.run;
    execute = λ input x. and_then (handler (step_of env input x) x) step_output;
    apply = λ step x. as_error (apply_engine_turn_step env (noop_output W E) step x);
    started = λ input x. x;
    completed = λ i r x. x;
  }

  going_of : (x y : Exec F Sch W) → Going env closed rt x → Passes I x y → Going env closed rt y
  going_of x y (g, k, l) (h, m, n) = (h, m ∙ k, n ∙ l)

  step_output-Ends :
      (r : Option (StepResult F E)) (x : Exec F Sch W) → (step_output {E = E} r x).1 ≡ x
  unfolding step_output
  step_output-Ends none x = refl
  step_output-Ends (some r) x = refl

  executed-Going :
      (r : Ended F Sch W E (Option (StepResult F E)))
      → Going env closed rt r.1
      → Going env closed rt (and_then r step_output).1
  executed-Going (ok r, x) h = subst (Going env closed rt) (sym (step_output-Ends r x)) h
  executed-Going (err e, x) h = h

  execute-Going :
      (handler : Handler F Sch W E) (i : ℕ) (x : Exec F Sch W)
      → Keeps I handler
      → Going env closed rt x
      → let h = ready handler in Going env closed rt (h.execute (h.current_step i x) x).1
  execute-Going handler i x keeps (g, k, l) =
      let step = step_of env (build_step_input env.provider_name i x.run) x in
      executed-Going (handler step x) (
        going_of x (handler step x).1 (g, k, l)
          (keeps step x
            (unfold step_of in
              unfold build_step_input in
              unfold messages_of in rw (clone_messages_id, clone_messages_id, clone_messages_id) g)
            g))

  ready-KeepsTurn :
      (handler : Handler F Sch W E)
      → Keeps I handler
      → KeepsTurn (ready handler) (Going env closed rt) (Answered env closed rt) (Untouched rt)
  ready-KeepsTurn handler keeps = record {
    fails_from = λ x g. g.1;
    execute_keeps = λ i x g. execute-Going handler i x keeps g;
    add_usage_keeps = λ u x g. unfold add_run_usage in g;
    completed_keeps = λ i r x g. g;
    first_keeps = λ text x g. first_step-Applied text x g;
    apply_keeps = λ i input out x g. turn_step-Applied i input out x g;
  }

  -- How a run ends, in the state x: its error leaves the runtime as it was captured; its answer has
  -- published the run, whose messages have the property.
  abbrev pub RunEnds : Turned env → Type 0
  RunEnds (err f, x) = x.rt ≡ rt
  RunEnds (ok o, x) =
      I (items x.run.conv.messages)
      × (x.rt ≡ publish_run_state x.run rt)
      × (x.run.generation ≡ rt.generation)

  output-RunEnds :
      (handler : Handler F Sch W E) (keeps : Keeps I handler)
      (s : RunState (Agent F Sch W) (Registry Sch W) F)
      (r : Result (TurnFailure (ExecError F E)) (String × List Command) × Exec F Sch W)
      → TurnKept (ready handler) (ready-KeepsTurn handler keeps) r
      → RunEnds (output_turn (some (λ y. y.run)) s r)
  unfolding output_turn
  output-RunEnds handler keeps s (err f, x) h = h
  output-RunEnds handler keeps s (ok (text, cs), x) h = h

  validated :
      (handler : Handler F Sch W E) (max : ℤ)
      → leb_ℤ max (pos 0) ≡ false
      → validate_turn_input max (turn_hooks env (noop_output W E) (handled env handler))
        ≡ ok (ready handler)
  unfolding validate_turn_input turn_hooks
  validated handler max p = rw p refl

  refused :
      (handler : Handler F Sch W E) (max : ℤ)
      → leb_ℤ max (pos 0) ≡ true
      → validate_turn_input max (turn_hooks env (noop_output W E) (handled env handler))
        ≡ err bad_max_steps
  unfolding validate_turn_input
  refused handler max p = rw p refl

  pub execute_engine_turn-RunEnds :
      (handler : Handler F Sch W E) (max : ℤ) (text : String) (x : Exec F Sch W)
      → Keeps I handler
      → Going env closed rt x
      → RunEnds (execute_engine_turn env (noop_output W E) handler max text x)
  unfolding execute_engine_turn execute_engine_turn_with_step execute_turn
  execute_engine_turn-RunEnds handler max text x keeps g = elim (Bool-cases (leb_ℤ max (pos 0))) [
    | inl p ↦ rw (refused handler max p, execute_turn) g.1
    | inr p ↦
        rw (validated handler max p, execute_turn)
          (output-RunEnds handler keeps x.run (run_turn (ready handler) max text x)
            (run_turn-TurnKept (ready handler) (ready-KeepsTurn handler keeps) max text x g))
  ]
