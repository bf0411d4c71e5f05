-- ===== src/Engine/Turn/Rule.antt =====
-- What holds of the state of a turn when each hook keeps it.
use kae_agent_public.Base.{
  ℕ, zero, suc, ℤ, pos_part, String, List, [], ◌∷◌, ◌++◌, Option, none, some, Result, ok, err,
  Option-cases, Bool-cases, inl, inr, Bool, true, false,
}
use kae_agent_public.Llm.{Usage}
use kae_agent_public.Engine.Types.{StepInput, TurnStepOutput, Command}
use kae_agent_public.Engine.Commands.{classify_turn_step}
use kae_agent_public.Engine.Turn.{
  Ready, TurnFailure, Round, fails, finishes, continues, Round-cases, fails_case, finishes_case,
  continues_case, round, after_execute, after_apply, turn_step, is_final, turn_loop, run_turn,
  first_step, append_user,
}

module _ {S E : Type 0} where
  -- After the apply hook of a step: an error leaves `R`, a final step `Q`, and any other step `P`.
  abbrev pub Applied : (S → Type 0) → (S → Type 0) → (S → Type 0) → Bool → Option E × S → Type 0
  Applied P Q R final (some e, s) = R s
  Applied P Q R true (none, s) = Q s
  Applied P Q R false (none, s) = P s

-- The hooks keep `P` while the turn goes on, reach `Q` where it answers, and `R` where it fails.
pub record KeepsTurn {S E : Type 0} (h : Ready S E) (P Q R : S → Type 0) : Type 0 where
  pub fails_from : (s : S) → P s → R s
  pub execute_keeps :
      (i : ℕ) (s : S)
      → P s
      → P (h.execute (h.current_step i s) (h.started (h.current_step i s) s)).1
  pub add_usage_keeps : (u : Usage) (s : S) → P s → P (h.add_usage u s)
  pub completed_keeps : (i : ℕ) (r : Result E TurnStepOutput) (s : S) → P s → P (h.completed i r s)
  pub first_keeps :
      (text : String) (s : S) → P s → Applied P Q R false (h.apply (first_step text) s)
  pub apply_keeps :
      (i : ℕ) (input : StepInput) (out : TurnStepOutput) (s : S)
      → P s
      → Applied P Q R (is_final (classify_turn_step out)) (h.apply (turn_step i input out) s)

module _ {S E : Type 0} (h : Ready S E) {P Q R : S → Type 0} (k : KeepsTurn h P Q R) where
  abbrev RoundKept : Round E × S → Type 0
  RoundKept (fails f, s) = R s
  RoundKept (finishes text cs, s) = Q s
  RoundKept (continues cs, s) = P s

  after_apply_kept :
      (i : ℕ) (input : StepInput) (out : TurnStepOutput) (r : Option E × S)
      → Applied P Q R (is_final (classify_turn_step out)) r
      → RoundKept (after_apply h i input out r)
  unfolding after_apply
  after_apply_kept i input out (some e, s) a = a
  after_apply_kept i input out (none, s) a = elim (Bool-cases (is_final (classify_turn_step out))) [
    | inl p ↦ rw p (rw p at a)
    | inr p ↦ rw p (rw p at a)
  ]

  after_execute_kept :
      (i : ℕ) (input : StepInput) (r : Result E TurnStepOutput × S)
      → P r.1
      → RoundKept (after_execute h i input r)
  unfolding after_execute
  after_execute_kept i input (err e, s) p =
      k.fails_from (h.completed i (err e) s) (k.completed_keeps i (err e) s p)
  after_execute_kept i input (ok out, s) p =
      let s1 = h.completed i (ok out) s in
      let s2 = h.add_usage out.usage s1 in
      after_apply_kept i input out (h.apply (turn_step i input out) s2) (
        k.apply_keeps i input out s2
          (k.add_usage_keeps out.usage s1 (k.completed_keeps i (ok out) s p)))

  round_kept : (i : ℕ) (s : S) → P s → RoundKept (round h i s)
  unfolding round
  round_kept i s p = elim (Option-cases (h.ctx_err s)) [
    | inr (e, c) ↦ rw (c, round) (k.fails_from s p)
    | inl c ↦ elim (Option-cases (h.check_budget s)) [
      | inr (e, b) ↦ rw (c, b, round) (k.fails_from s p)
      | inl b ↦
          let input = h.current_step i s in
          let s1 = h.started input s in
          rw (c, b, round) (after_execute_kept i input (h.execute input s1) (k.execute_keeps i s p))
    ]
  ]

  -- What is left when the loop or the turn ends.
  abbrev pub TurnKept : Result (TurnFailure E) (String × List Command) × S → Type 0
  TurnKept (err f, s) = R s
  TurnKept (ok x, s) = Q s

  loop_kept :
      (max : ℤ) (n i : ℕ) (cs : List Command) (s : S) → P s → TurnKept (turn_loop h max n i cs s)
  unfolding turn_loop
  loop_kept max zero i cs s p = k.fails_from s p
  loop_kept max (suc n) i cs s p =
      let kept : RoundKept (round h i s) = round_kept i s p in
      elim (Round-cases (round h i s).0) [
        | fails_case f e ↦ rw (e, turn_loop) (rw e at kept)
        | finishes_case text ds e ↦ rw (e, turn_loop) (rw e at kept)
        | continues_case ds e ↦
            rw (e, turn_loop) (loop_kept max n (suc i) (cs ++ ds) (round h i s).1 (rw e at kept))
      ]

  -- A turn from a state with `P` ends in one with `Q` where it answers and with `R` where it fails.
  pub run_turn-TurnKept : (max : ℤ) (text : String) (s : S) → P s → TurnKept (run_turn h max text s)
  unfolding run_turn
  run_turn-TurnKept max text s p = elim (Option-cases (h.check_budget s)) [
    | inr (e, b) ↦ rw (b, run_turn) (k.fails_from s p)
    | inl b ↦
        let a : Applied P Q R false (h.apply (first_step text) s) = k.first_keeps text s p in
        elim (Option-cases (h.apply (first_step text) s).0) [
          | inr (e, q) ↦ rw (b, q, run_turn) (rw q at a)
          | inl q ↦
              rw (b, q, run_turn)
                (loop_kept max (pos_part max) 0 (append_user text ∷ [])
                  (h.apply (first_step text) s).1 (rw q at a))
        ]
  ]
