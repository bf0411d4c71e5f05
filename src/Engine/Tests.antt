-- ===== src/Engine/Tests.antt =====
-- A turn of two steps, with hooks that count the steps.
use Prim.Native.String.{String}
use kae_agent_public.Base.{
  ℕ, ◌+◌, ◌≤◌, pos, List, [], ◌∷◌, ◌++◌, Option, none, some, nil, of, ok, err, ◌≡◌, refl, ap, arith,
  eqb, if◌then◌else◌, ◌↔◌,
}
use kae_agent_public.Llm.{ToolCall, Usage}
use kae_agent_public.Engine.Types.{StepInput, TurnStepOutput, Command}
use kae_agent_public.Engine.Commands.{plan_step_commands, classify_turn_step}
use kae_agent_public.Engine.Plan.{tool_kinds, validate_command_sequence}
use kae_agent_public.Engine.Plan.Accepts.{
  IsAccepted, plan-IsAccepted, kinds, validate_command_sequence_iff,
}
use kae_agent_public.Engine.Turn.{
  Hooks, Ready, TurnFailure, TurnOutput, FailureKind, execute_turn, validate_turn_input,
  append_user, run_turn, turn_loop, round, after_execute, after_apply, output_turn,
}
use kae_agent_public.Engine.Turn.Bounds.{CountsSteps, execute_turn_bounded}
use kae_agent_public.Engine.Turn.Trace.{Answered, TurnFails}
use kae_agent_public.Engine.Turn.Runs.{execute_turn-Answered, execute_turn_fails}

abbrev no_usage : Usage
no_usage = record { input_tokens = pos 0; output_tokens = pos 0; total_tokens = pos 0 }

abbrev answer : String → List ToolCall → TurnStepOutput
answer text tcs = record {
  step = record {
    request = none;
    response = none;
    text = text;
    tool_calls = of tcs;
    usage = no_usage;
  };
  transfer = none;
}

abbrev call : ToolCall
call = record { id = "call_1"; name = "lookup"; input = none }

abbrev input_at : ℕ → StepInput
input_at i = record {
  session_id = "s";
  run_id = "r";
  step_index = pos i;
  messages = nil;
  provider_name = "p";
  user_id = "";
  agent_id = "";
  agent_name = "";
  metadata = none;
}

-- The state counts the steps; the first asks for a tool, and the second answers.
abbrev hooks : Hooks ℕ String
hooks = record {
  ctx_err = λ s. none;
  check_budget = some (λ s. none);
  add_usage = some (λ u s. s);
  current_step = some (λ i s. input_at i);
  execute_turn_step =
      some (λ input s.
        (ok (if eqb s 0 then answer "looking" (call ∷ []) else answer "done" []), s + 1));
  apply_turn_step = some (λ t s. (none, s));
  step_started = none;
  step_completed = none;
}

abbrev ready : Ready ℕ String
ready = record {
  ctx_err = λ s. none;
  check_budget = λ s. none;
  add_usage = λ u s. s;
  current_step = λ i s. input_at i;
  execute =
      λ input s. (ok (if eqb s 0 then answer "looking" (call ∷ []) else answer "done" []), s + 1);
  apply = λ t s. (none, s);
  started = λ input s. s;
  completed = λ i r s. s;
}

is_ready : validate_turn_input (pos 5) hooks ≡ ok ready
unfolding validate_turn_input
is_ready = refl

is_ready_1 : validate_turn_input (pos 1) hooks ≡ ok ready
unfolding validate_turn_input
is_ready_1 = refl

counts : CountsSteps ready (λ s. s)
counts = record {
  execute_once = λ input s. omega arith;
  add_usage_none = λ u s. omega arith;
  apply_none = λ t s. omega arith;
  started_none = λ input s. omega arith;
  completed_none = λ i r s. omega arith;
}

abbrev snapshot : Option (ℕ → ℕ)
snapshot = some (λ s. s)

execute_turn_bounded_example : (execute_turn hooks snapshot 0 (pos 5) "hi" 0).1 ≤ 0 + 5
execute_turn_bounded_example =
    execute_turn_bounded hooks ready (λ s. s) counts snapshot 0 (pos 5) "hi" 0 is_ready

abbrev commands : List Command
commands =
    append_user "hi"
    ∷ (plan_step_commands (input_at 0) (answer "looking" (call ∷ [])).step none
        ++ plan_step_commands (input_at 1) (answer "done" []).step none)

turn_runs :
    execute_turn hooks snapshot 0 (pos 5) "hi" 0
    ≡ (ok (record { final_text = "done"; state = 2; commands = commands }), 2)
unfolding execute_turn validate_turn_input run_turn turn_loop round after_execute after_apply
    output_turn plan_step_commands classify_turn_step
turn_runs = refl

abbrev finished : TurnOutput ℕ
finished = record { final_text = "done"; state = 2; commands = commands }

execute_turn-Answered_example :
    Answered ready (pos 5) "hi" 0 "done" commands (execute_turn hooks snapshot 0 (pos 5) "hi" 0).1
execute_turn-Answered_example =
    execute_turn-Answered ready hooks snapshot 0 (pos 5) "hi" 0 finished is_ready
      (ap (λ r. r.0) turn_runs)

abbrev out_of_steps : TurnFailure String
out_of_steps = record {
  kind = FailureKind.max_steps;
  step = pos 1;
  max_steps = pos 1;
  error = none;
}

turn_fails : (execute_turn hooks snapshot 0 (pos 1) "hi" 0) ≡ (err out_of_steps, 1)
unfolding execute_turn validate_turn_input run_turn turn_loop round after_execute after_apply
    output_turn plan_step_commands classify_turn_step
turn_fails = refl

execute_turn_fails_example :
    TurnFails ready (pos 1) "hi" 0 out_of_steps (execute_turn hooks snapshot 0 (pos 1) "hi" 0).1
execute_turn_fails_example =
    execute_turn_fails ready hooks snapshot 0 (pos 1) "hi" 0 out_of_steps is_ready_1
      (ap (λ r. r.0) turn_fails)

plan-IsAccepted_example :
    IsAccepted
      (classify_turn_step (answer "looking" (call ∷ [])))
      (plan_step_commands (input_at 0) (answer "looking" (call ∷ [])).step none)
plan-IsAccepted_example = plan-IsAccepted (input_at 0) (answer "looking" (call ∷ []))

validate_command_sequence_iff_example :
    let cs = plan_step_commands (input_at 0) (answer "looking" (call ∷ [])).step none in
    (validate_command_sequence "tools" cs tool_kinds ≡ none) ↔ (kinds cs ≡ tool_kinds)
validate_command_sequence_iff_example =
    validate_command_sequence_iff "tools"
      (plan_step_commands (input_at 0) (answer "looking" (call ∷ [])).step none) tool_kinds
