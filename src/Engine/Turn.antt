-- ===== src/Engine/Turn.antt =====
-- agent/internal/engine/turn.go: `ExecuteTurn`. The hooks are the runtime's: they read and change a
-- state `S` that stands for the run, the session and what goes on outside, and fail with errors `E`.
pub mod Bounds
pub mod Trace
pub mod Runs
pub mod Rule
use kae_agent_public.Base.{
  ℕ, zero, suc, ◌+◌, ℤ, pos, negsuc, pos_part, leb_ℤ, String, List, [], ◌∷◌, ◌++◌, Option, none,
  some, Slice, nil, Result, ok, err, Bool, true, false, if◌then◌else◌, ◌≡◌, refl,
}
use kae_agent_public.Llm.{Message, Usage}
use kae_agent_public.Engine.Types.{
  StepAction, StepInput, TurnStepOutput, TurnStep, Command, append_user_message, message,
}
use kae_agent_public.Engine.Commands.{command, plan_step_commands, classify_turn_step}

pub data FailureKind : Type 0 where
  budget context step apply max_steps invalid_run : FailureKind

-- What `validateTurnInput` refuses.
pub data Invalid : Type 0 where
  bad_max_steps no_check_budget no_add_usage no_current_step no_execute no_apply : Invalid

-- `TurnFailure`; its error is a hook's, the context's, or one of the validation.
pub record TurnFailure (E : Type 0) : Type 0 where
  pub kind : FailureKind
  pub step : ℤ
  pub max_steps : ℤ
  pub error : Option (Result Invalid E)

-- The hooks of a turn that may be nil, and `ctx.Err()` as the state has it.
pub record Hooks (S E : Type 0) : Type 0 where
  pub ctx_err : S → Option E
  pub check_budget : Option (S → Option E)
  pub add_usage : Option (Usage → S → S)
  pub current_step : Option (ℕ → S → StepInput)
  pub execute_turn_step : Option (StepInput → S → Result E TurnStepOutput × S)
  pub apply_turn_step : Option (TurnStep → S → Option E × S)
  pub step_started : Option (StepInput → S → S)
  pub step_completed : Option (ℕ → Result E TurnStepOutput → S → S)

-- The hooks that the loop calls without a test.
pub record Ready (S E : Type 0) : Type 0 where
  pub ctx_err : S → Option E
  pub check_budget : S → Option E
  pub add_usage : Usage → S → S
  pub current_step : ℕ → S → StepInput
  pub execute : StepInput → S → Result E TurnStepOutput × S
  pub apply : TurnStep → S → Option E × S
  pub started : StepInput → S → S
  pub completed : ℕ → Result E TurnStepOutput → S → S

module _ {S : Type 0} where
  -- `if hook != nil { hook(…) }`
  abbrev started_or_skip : Option (StepInput → S → S) → StepInput → S → S
  started_or_skip none input s = s
  started_or_skip (some f) input s = f input s

module _ {S E : Type 0} where
  abbrev completed_or_skip :
      Option (ℕ → Result E TurnStepOutput → S → S) → ℕ → Result E TurnStepOutput → S → S
  completed_or_skip none i r s = s
  completed_or_skip (some f) i r s = f i r s

  -- `validateTurnInput`, which gives the hooks that it found; the tests in the source's order.
  unfoldable pub validate_turn_input : ℤ → Hooks S E → Result Invalid (Ready S E)
  validate_turn_input max h = if leb_ℤ max (pos 0) then err bad_max_steps else elim h.check_budget [
    | none ↦ err no_check_budget
    | some check ↦ elim h.add_usage [
      | none ↦ err no_add_usage
      | some add ↦ elim h.current_step [
        | none ↦ err no_current_step
        | some current ↦ elim h.execute_turn_step [
          | none ↦ err no_execute
          | some execute ↦ elim h.apply_turn_step [
            | none ↦ err no_apply
            | some apply_step ↦ ok (record {
              ctx_err = h.ctx_err;
              check_budget = check;
              add_usage = add;
              current_step = current;
              execute = execute;
              apply = apply_step;
              started = started_or_skip h.step_started;
              completed = completed_or_skip h.step_completed;
            })
          ]
        ]
      ]
    ]
  ]

-- `TurnOutput`; the source sets no events. `T` is the engine's view of the state.
pub record TurnOutput (T : Type 0) : Type 0 where
  pub final_text : String
  pub state : T
  pub commands : List Command

abbrev pub failed : {E : Type 0} → FailureKind → ℤ → Option (Result Invalid E) → TurnFailure E
failed kind i e = record { kind = kind; step = i; max_steps = pos 0; error = e }

-- What one round of the loop comes to.
pub data Round (E : Type 0) : Type 0 where
  fails : TurnFailure E → Round E
  finishes : String → List Command → Round E
  continues : List Command → Round E

-- To split on a round and keep the equation.
pub data RoundCases {E : Type 0} (r : Round E) : Type 0 where
  fails_case : (f : TurnFailure E) → r ≡ fails f → RoundCases r
  finishes_case : (text : String) (cs : List Command) → r ≡ finishes text cs → RoundCases r
  continues_case : (cs : List Command) → r ≡ continues cs → RoundCases r

pub Round-cases : {E : Type 0} (r : Round E) → RoundCases r
Round-cases (fails f) = fails_case f refl
Round-cases (finishes text cs) = finishes_case text cs refl
Round-cases (continues cs) = continues_case cs refl

-- The step that the loop hands to `ApplyTurnStep`.
abbrev pub turn_step : ℕ → StepInput → TurnStepOutput → TurnStep
turn_step i input out = record {
  index = pos i;
  input = some input;
  output = some out;
  action = some (classify_turn_step out);
  commands = plan_step_commands input out.step out.transfer;
}

abbrev pub is_final : StepAction → Bool
is_final StepAction.final = true
is_final _ = false

abbrev pub append_user : String → Command
append_user text = command append_user_message (
    message
      (record { role = "user"; content = text; name = ""; tool_call_id = ""; tool_calls = nil }))

-- The step before the first one, which appends the user's message.
abbrev pub first_step : String → TurnStep
first_step text = record {
  index = negsuc 0;
  input = none;
  output = none;
  action = none;
  commands = append_user text ∷ [];
}

module _ {S E : Type 0} (h : Ready S E) where
  -- The end of a round, after `ApplyTurnStep`.
  unfoldable pub after_apply : ℕ → StepInput → TurnStepOutput → Option E × S → Round E × S
  after_apply i input out (some e, s) = (fails (failed apply (pos i) (some (ok e))), s)
  after_apply i input out (none, s) =
      let cs = plan_step_commands input out.step out.transfer in
      (if is_final (classify_turn_step out) then finishes out.text cs else continues cs, s)

  -- A round, after `ExecuteTurnStep`.
  unfoldable pub after_execute : ℕ → StepInput → Result E TurnStepOutput × S → Round E × S
  unfolding after_apply
  after_execute i input (err e, s) =
      (fails (failed step (pos i) (some (ok e))), h.completed i (err e) s)
  after_execute i input (ok out, s) =
      after_apply i input out
        (h.apply (turn_step i input out) (h.add_usage out.usage (h.completed i (ok out) s)))

  -- One round of the loop.
  unfoldable pub round : ℕ → S → Round E × S
  unfolding after_execute
  round i s = elim (h.ctx_err s) [
    | some e ↦ (fails (failed context (pos i) (some (ok e))), s)
    | none ↦ elim (h.check_budget s) [
      | some e ↦ (fails (failed budget (pos i) (some (ok e))), s)
      | none ↦
          let input = h.current_step i s in
          after_execute i input (h.execute input (h.started input s))
    ]
  ]

  -- The loop with n rounds left, from round i; the rounds are bounded by `MaxSteps`.
  unfoldable pub turn_loop :
      ℤ → ℕ → ℕ → List Command → S → Result (TurnFailure E) (String × List Command) × S
  turn_loop max zero i commands s =
      (err (record { kind = max_steps; step = max; max_steps = max; error = none }), s)
  turn_loop max (suc n) i commands s =
      let (r, s') = round i s in
      elim r [
        | fails f ↦ (err f, s')
        | finishes text cs ↦ (ok (text, commands ++ cs), s')
        | continues cs ↦ turn_loop max n (suc i) (commands ++ cs) s'
      ]

  -- The turn after its validation.
  unfoldable pub run_turn : ℤ → String → S → Result (TurnFailure E) (String × List Command) × S
  run_turn max text s = elim (h.check_budget s) [
    | some e ↦ (err (failed budget (negsuc 0) (some (ok e))), s)
    | none ↦
        let (e, s') = h.apply (first_step text) s in
        elim e [
          | some x ↦ (err (failed apply (negsuc 0) (some (ok x))), s')
          | none ↦ turn_loop max (pos_part max) 0 (append_user text ∷ []) s'
        ]
  ]

module _ {S T : Type 0} where
  -- The state of the output: the snapshot, or the input's where the hook is nil.
  abbrev state_of : Option (S → T) → T → S → T
  state_of none initial s = initial
  state_of (some snapshot) initial s = snapshot s

module _ {S E T : Type 0} where
  -- The end of `ExecuteTurn`.
  unfoldable pub output_turn :
      Option (S → T)
      → T
      → Result (TurnFailure E) (String × List Command) × S
      → Result (TurnFailure E) (TurnOutput T) × S
  output_turn snapshot initial (err f, s) = (err f, s)
  output_turn snapshot initial (ok (text, commands), s) = (
    ok (record { final_text = text; state = state_of snapshot initial s; commands = commands }),
    s,
  )

  -- `ExecuteTurn`
  unfoldable pub execute_turn :
      Hooks S E → Option (S → T) → T → ℤ → String → S → Result (TurnFailure E) (TurnOutput T) × S
  execute_turn hooks snapshot initial max text s = elim (validate_turn_input max hooks) [
    | err x ↦ (err (failed invalid_run (negsuc 0) (some (err x))), s)
    | ok h ↦ output_turn snapshot initial (run_turn h max text s)
  ]
