-- ===== src/Engine/Turn/Bounds.antt =====
-- How many steps a turn runs.
use kae_agent_public.Base.{
  ℕ, zero, suc, ◌+◌, ◌≤◌, ◌≡◌, refl, ℤ, pos_part, String, List, Option, none, some, Result, ok, err,
  arith, Option-cases, inl, inr, ◌++◌, [], ◌∷◌,
}
use kae_agent_public.Llm.{Usage}
use kae_agent_public.Engine.Types.{StepInput, TurnStepOutput, TurnStep, Command}
use kae_agent_public.Engine.Turn.{
  Hooks, Ready, TurnFailure, round, after_execute, after_apply, turn_step, turn_loop, run_turn,
  output_turn, validate_turn_input, execute_turn, first_step, append_user, Round-cases, fails_case,
  finishes_case, continues_case,
}

-- A count on the state that one call of `ExecuteTurnStep` raises by at most 1 and that no other hook
-- raises.
pub record CountsSteps {S E : Type 0} (h : Ready S E) (f : S → ℕ) : Type 0 where
  pub execute_once : (input : StepInput) (s : S) → f (h.execute input s).1 ≤ f s + 1
  pub add_usage_none : (u : Usage) (s : S) → f (h.add_usage u s) ≤ f s
  pub apply_none : (t : TurnStep) (s : S) → f (h.apply t s).1 ≤ f s
  pub started_none : (input : StepInput) (s : S) → f (h.started input s) ≤ f s
  pub completed_none : (i : ℕ) (r : Result E TurnStepOutput) (s : S) → f (h.completed i r s) ≤ f s

module _ {S E : Type 0} (h : Ready S E) (f : S → ℕ) (c : CountsSteps h f) where
  after_apply_cost :
      (i : ℕ) (input : StepInput) (out : TurnStepOutput) (r : Option E × S)
      → f (after_apply h i input out r).1 ≤ f r.1
  unfolding after_apply
  after_apply_cost i input out (some e, s) = omega arith
  after_apply_cost i input out (none, s) = omega arith

  after_execute_cost :
      (i : ℕ) (input : StepInput) (r : Result E TurnStepOutput × S)
      → f (after_execute h i input r).1 ≤ f r.1
  unfolding after_execute
  after_execute_cost i input (err e, s) = c.completed_none i (err e) s
  after_execute_cost i input (ok out, s) =
      let s1 = h.completed i (ok out) s in
      let s2 = h.add_usage out.usage s1 in
      omega (
        arith,
        after_apply_cost i input out (h.apply (turn_step i input out) s2),
        c.apply_none (turn_step i input out) s2,
        c.add_usage_none out.usage s1,
        c.completed_none i (ok out) s,
      )

  round_cost : (i : ℕ) (s : S) → f (round h i s).1 ≤ f s + 1
  unfolding round
  round_cost i s = elim (Option-cases (h.ctx_err s)) [
    | inr (e, p) ↦ rw (p, round) (omega arith)
    | inl p ↦ elim (Option-cases (h.check_budget s)) [
      | inr (e, q) ↦ rw (p, q, round) (omega arith)
      | inl q ↦
          let input = h.current_step i s in
          let s1 = h.started input s in
          rw (p, q, round)
            (omega (
              arith,
              after_execute_cost i input (h.execute input s1),
              c.execute_once input s1,
              c.started_none input s,
            ))
    ]
  ]

  loop_cost :
      (max : ℤ) (n i : ℕ) (cs : List Command) (s : S) → f (turn_loop h max n i cs s).1 ≤ f s + n
  unfolding turn_loop
  loop_cost max zero i cs s = omega arith
  loop_cost max (suc n) i cs s = elim (Round-cases (round h i s).0) [
    | fails_case x p ↦ rw (p, turn_loop) (omega (arith, round_cost i s))
    | finishes_case text ds p ↦ rw (p, turn_loop) (omega (arith, round_cost i s))
    | continues_case ds p ↦
        rw (p, turn_loop)
          (omega (arith, round_cost i s, loop_cost max n (suc i) (cs ++ ds) (round h i s).1))
  ]

  run_turn_cost :
      (max : ℤ) (text : String) (s : S) → f (run_turn h max text s).1 ≤ f s + pos_part max
  unfolding run_turn
  run_turn_cost max text s = elim (Option-cases (h.check_budget s)) [
    | inr (e, p) ↦ rw (p, run_turn) (omega arith)
    | inl p ↦
        let r = h.apply (first_step text) s in
        elim (Option-cases r.0) [
          | inr (e, q) ↦ rw (p, q, run_turn) (omega (arith, c.apply_none (first_step text) s))
          | inl q ↦
              rw (p, q, run_turn)
                (omega (
                  arith,
                  c.apply_none (first_step text) s,
                  loop_cost max (pos_part max) 0 (append_user text ∷ []) r.1,
                ))
        ]
  ]

output_turn_state :
    {S E T : Type 0} (snapshot : Option (S → T)) (initial : T)
    (r : Result (TurnFailure E) (String × List Command) × S)
    → (output_turn snapshot initial r).1 ≡ r.1
unfolding output_turn
output_turn_state snapshot initial (err f, s) = refl
output_turn_state snapshot initial (ok (text, cs), s) = refl

-- However a turn ends, it has called `ExecuteTurnStep` at most `MaxSteps` times: a count that this hook
-- raises by at most 1, and the other hooks not at all, has risen by at most `MaxSteps`.
pub execute_turn_bounded :
    {S E T : Type 0} (hooks : Hooks S E) (h : Ready S E) (f : S → ℕ)
    → CountsSteps h f
    → (snapshot : Option (S → T)) (initial : T) (max : ℤ) (text : String) (s : S)
    → validate_turn_input max hooks ≡ ok h
    → f (execute_turn hooks snapshot initial max text s).1 ≤ f s + pos_part max
unfolding execute_turn
execute_turn_bounded hooks h f c snapshot initial max text s v =
    rw (v, execute_turn) (rw output_turn_state (run_turn_cost h f c max text s))
