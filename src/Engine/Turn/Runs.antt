-- ===== src/Engine/Turn/Runs.antt =====
-- What a turn that answers has asked the runtime for, and why a turn fails.
use mathlib.Core.List.{append_assoc, append-nil}
use kae_agent_public.Base.{
  ℕ, zero, suc, ◌≡◌, refl, ◌∙◌, ap, subst, ℤ, negsuc, pos_part, String, List, [], ◌∷◌, ◌++◌, Option,
  none, some, Result, ok, err, arith, All, true, false, Bool-cases, Option-cases, inl, inr, ◌⊎◌,
  items, is_empty,
}
use kae_agent_public.Engine.Types.{StepInput, StepOutput, TurnStepOutput, TransferPlan, Command}
use kae_agent_public.Engine.Commands.{plan_step_commands, plan_final_commands, classify_turn_step}
use kae_agent_public.Engine.Turn.{
  Hooks, Ready, FailureKind, TurnFailure, TurnOutput, Round, fails, finishes, continues, round,
  after_execute, after_apply, is_final, turn_step, turn_loop, run_turn, output_turn,
  validate_turn_input, execute_turn, failed, first_step, append_user, Round-cases, fails_case,
  finishes_case, continues_case,
}
use kae_agent_public.Engine.Turn.Trace.{
  IsWork, Stepped, Went, FailsAt, LoopFails, Began, TurnFails, Answers, Answered,
}

plan_of :
    (input : StepInput) (out : StepOutput) (t : Option TransferPlan)
    → let o : TurnStepOutput = record { step = out; transfer = t } in
      let cs = plan_step_commands input out t in
      ((is_final (classify_turn_step o) ≡ true) × (cs ≡ plan_final_commands out))
      ⊎ ((is_final (classify_turn_step o) ≡ false) × All IsWork cs)
unfolding classify_turn_step
plan_of input out (some t) =
    inr (refl, unfold plan_step_commands in (refl, (refl, (refl, (refl, (refl, tt))))))
plan_of input out none = elim (Bool-cases (is_empty (items out.tool_calls))) [
  | inl p ↦ inl (rw p (refl, unfold plan_step_commands in rw p))
  | inr p ↦ inr (rw p (refl, unfold plan_step_commands in rw p (refl, (refl, (refl, tt)))))
]

All-IsWork : (xs ys : List Command) → All IsWork xs → All IsWork ys → All IsWork (xs ++ ys)
All-IsWork [] ys h k = k
All-IsWork (x ∷ xs) ys h k = (h.0, All-IsWork xs ys h.1 k)

module _ {S E : Type 0} (h : Ready S E) where
  abbrev RoundShape : ℕ → S → Round E → S → Type 0
  RoundShape i s (fails f) s' = FailsAt h i s f s'
  RoundShape i s (finishes text cs) s' =
      (out : TurnStepOutput) × Stepped h i s out s'
      × (is_final (classify_turn_step out) ≡ true)
      × (cs ≡ plan_final_commands out.step)
      × (text ≡ out.text)
  RoundShape i s (continues cs) s' =
      (out : TurnStepOutput) × Stepped h i s out s'
      × (is_final (classify_turn_step out) ≡ false)
      × (cs ≡ plan_step_commands (h.current_step i s) out.step out.transfer)
      × All IsWork cs

  module _ (i : ℕ) (s : S) (in_time : h.ctx_err s ≡ none)
      (in_budget : h.check_budget s ≡ none) where
    after_apply_shape :
        (out : TurnStepOutput) (s1 : S)
        → h.execute (h.current_step i s) (h.started (h.current_step i s) s) ≡ (ok out, s1)
        → (r : Option E × S)
        → h.apply
            (turn_step i (h.current_step i s) out)
            (h.add_usage out.usage (h.completed i (ok out) s1))
          ≡ r
        → let (x, s') = after_apply h i (h.current_step i s) out r in RoundShape i s x s'
    unfolding after_apply
    after_apply_shape out s1 a (some e, s') b =
        (e, refl, refl, inr (inr (inr (refl, out, s1, a, b))))
    after_apply_shape out s1 a (none, s') b =
        let done : Stepped h i s out s' = record {
          in_time = in_time;
          in_budget = in_budget;
          between = s1;
          executed = a;
          applied = b;
        } in
        elim (plan_of (h.current_step i s) out.step out.transfer) [
          | inl (p, q) ↦ rw p (out, done, p, q, refl)
          | inr (p, q) ↦ rw p (out, done, p, refl, q)
        ]

    after_execute_shape :
        (r : Result E TurnStepOutput × S)
        → h.execute (h.current_step i s) (h.started (h.current_step i s) s) ≡ r
        → let (x, s') = after_execute h i (h.current_step i s) r in RoundShape i s x s'
    unfolding after_execute
    after_execute_shape (err e, s1) a = (e, refl, refl, inr (inr (inl (refl, s1, a, refl))))
    after_execute_shape (ok out, s1) a = after_apply_shape out s1 a _ refl

  round_shape : (i : ℕ) (s : S) → let (x, s') = round h i s in RoundShape i s x s'
  unfolding round
  round_shape i s = elim (Option-cases (h.ctx_err s)) [
    | inr (e, p) ↦ rw (p, round) (e, refl, refl, inl (refl, p, refl))
    | inl p ↦ elim (Option-cases (h.check_budget s)) [
      | inr (e, q) ↦ rw (p, q, round) (e, refl, refl, inr (inl (refl, q, refl)))
      | inl q ↦ rw (p, q, round) (after_execute_shape i s p q _ refl)
    ]
  ]

  abbrev LoopShape :
      ℤ → ℕ → ℕ → List Command → S → Result (TurnFailure E) (String × List Command) × S → Type 0
  LoopShape max n i cs s (err f, s') = LoopFails h max n i s f s'
  LoopShape max n i cs s (ok (text, final), s') = Answers h n i cs s text final s'

  module _ (i : ℕ) (s : S) (out : TurnStepOutput) (s1 : S) (done : Stepped h i s out s1)
      (more : is_final (classify_turn_step out) ≡ false) (ds : List Command)
      (planned : ds ≡ plan_step_commands (h.current_step i s) out.step out.transfer) where
    one_more :
        (n : ℕ) (cs : List Command) (j : ℕ) (t : S)
        → Went h n (suc i) s1 cs j t
        → Went h (suc n) i s (ds ++ cs) j t
    one_more n cs j t w = (out, s1, cs, done, more, ap (λ l. l ++ cs) planned, w)

    later_fails :
        (max : ℤ) (n : ℕ) (f : TurnFailure E) (s' : S)
        → LoopFails h max n (suc i) s1 f s'
        → LoopFails h max (suc n) i s f s'
    later_fails max n f s' (inl (m, cs, j, t, a, w, k)) =
        inl (suc m, ds ++ cs, j, t, omega arith, one_more m cs j t w, k)
    later_fails max n f s' (inr (a, b, c, cs, j, w)) =
        inr (a, b, c, ds ++ cs, j, one_more n cs j s' w)

    later_answers :
        (n : ℕ) (cs : List Command) (text : String) (final : List Command) (s' : S)
        → All IsWork ds
        → Answers h n (suc i) (cs ++ ds) s1 text final s'
        → Answers h (suc n) i cs s text final s'
    later_answers n cs text final s' w a = record {
      steps = suc a.steps;
      within = omega (arith, a.within);
      earlier = ds ++ a.earlier;
      index = a.index;
      reached = a.reached;
      went = one_more a.steps a.earlier a.index a.reached a.went;
      last = a.last;
      stepped = a.stepped;
      is_last = a.is_last;
      split =
          a.split ∙ ap (λ l. l ++ plan_final_commands a.last.step) (append_assoc cs ds a.earlier);
      working = All-IsWork ds a.earlier w a.working;
      says = a.says;
    }

    later :
        (max : ℤ) (n : ℕ) (cs : List Command)
        (r : Result (TurnFailure E) (String × List Command) × S)
        → All IsWork ds
        → LoopShape max n (suc i) (cs ++ ds) s1 r
        → LoopShape max (suc n) i cs s r
    later max n cs (err f, s') w k = later_fails max n f s' k
    later max n cs (ok (text, final), s') w k = later_answers n cs text final s' w k

  finished :
      (n i : ℕ) (s : S) (cs : List Command) (text : String) (ds : List Command) (s' : S)
      → RoundShape i s (finishes text ds) s'
      → Answers h (suc n) i cs s text (cs ++ ds) s'
  finished n i s cs text ds s' (out, done, p, q, t) = record {
    steps = 0;
    within = omega arith;
    earlier = [];
    index = i;
    reached = s;
    went = (refl, refl, refl);
    last = out;
    stepped = done;
    is_last = p;
    split = rw (q, append-nil);
    working = tt;
    says = t;
  }

  loop_shape :
      (max : ℤ) (n i : ℕ) (cs : List Command) (s : S)
      → LoopShape max n i cs s (turn_loop h max n i cs s)
  unfolding turn_loop
  loop_shape max zero i cs s = inr (refl, refl, refl, [], i, (refl, refl, refl))
  loop_shape max (suc n) i cs s =
      let (x, s') = round h i s in
      let shape : RoundShape i s x s' = round_shape i s in
      elim (Round-cases x) [
        | fails_case f p ↦
            rw (p, turn_loop) (inl (0, [], i, s, omega arith, (refl, refl, refl), rw p at shape))
        | finishes_case text ds p ↦ rw (p, turn_loop) (finished n i s cs text ds s' (rw p at shape))
        | continues_case ds p ↦
            let (out, done, more, planned, work) : RoundShape i s (continues ds) s' =
              rw p at shape in
            rw (p, turn_loop)
              (later i s out s' done more ds planned max n cs _ work
                (loop_shape max n (suc i) (cs ++ ds) s'))
      ]

  abbrev TurnShape : ℤ → String → S → Result (TurnFailure E) (String × List Command) × S → Type 0
  TurnShape max user s (err f, s') = TurnFails h max user s f s'
  TurnShape max user s (ok (text, final), s') = Answered h max user s text final s'

  turn_of_loop :
      (max : ℤ) (user : String) (s s0 : S) (r : Result (TurnFailure E) (String × List Command) × S)
      → Began h user s s0
      → LoopShape max (pos_part max) 0 (append_user user ∷ []) s0 r
      → TurnShape max user s r
  turn_of_loop max user s s0 (err f, s') b k = inr (s0, b, k)
  turn_of_loop max user s s0 (ok (text, final), s') b k = (s0, b, k)

  turn_after :
      (max : ℤ) (user : String) (s : S) (r : Option E × S)
      → h.check_budget s ≡ none
      → h.apply (first_step user) s ≡ r
      → TurnShape max user s (elim r.0 [
        | some x ↦ (err (failed FailureKind.apply (negsuc 0) (some (ok x))), r.1)
        | none ↦ turn_loop h max (pos_part max) 0 (append_user user ∷ []) r.1
      ])
  turn_after max user s (some e, s') p q = inl (e, refl, refl, inr (refl, q))
  turn_after max user s (none, s') p q =
      turn_of_loop max user s s' _ (p, q)
        (loop_shape max (pos_part max) 0 (append_user user ∷ []) s')

  turn_shape : (max : ℤ) (user : String) (s : S) → TurnShape max user s (run_turn h max user s)
  unfolding run_turn
  turn_shape max user s = elim (Option-cases (h.check_budget s)) [
    | inr (e, p) ↦ rw (p, run_turn) (inl (e, refl, refl, inl (refl, p, refl)))
    | inl p ↦ rw (p, run_turn) (turn_after max user s (h.apply (first_step user) s) p refl)
  ]

  module _ {T : Type 0} (hooks : Hooks S E) (snapshot : Option (S → T)) (initial : T) where
    Answered-of :
        (max : ℤ) (user : String) (s : S) (r : Result (TurnFailure E) (String × List Command) × S)
        (out : TurnOutput T)
        → TurnShape max user s r
        → (output_turn snapshot initial r).0 ≡ ok out
        → Answered h max user s out.final_text out.commands (output_turn snapshot initial r).1
    unfolding output_turn
    Answered-of max user s (err f, s') out k e = cc
    Answered-of max user s (ok (text, cs), s') out k e =
        let a : text ≡ out.final_text = cc in let b : cs ≡ out.commands = cc in rw (← a, ← b) k

    fails_of :
        (max : ℤ) (user : String) (s : S) (r : Result (TurnFailure E) (String × List Command) × S)
        (f : TurnFailure E)
        → TurnShape max user s r
        → (output_turn snapshot initial r).0 ≡ err f
        → TurnFails h max user s f (output_turn snapshot initial r).1
    unfolding output_turn
    fails_of max user s (err x, s') f k e =
        let a : x ≡ f = cc in subst (λ y. TurnFails h max user s y s') a k
    fails_of max user s (ok (text, cs), s') f k e = cc

    -- A turn that answers has appended the user's message, then run fewer than `MaxSteps` steps that
    -- went on, each from the state that the one before left, and then a final step, whose text is the
    -- answer. The commands that it puts out are the user's message, those of the steps that went on, in
    -- their order, which all are work, and the final plan of the last step.
    pub execute_turn-Answered :
        (max : ℤ) (user : String) (s : S) (out : TurnOutput T)
        → validate_turn_input max hooks ≡ ok h
        → (execute_turn hooks snapshot initial max user s).0 ≡ ok out
        → Answered h max user s out.final_text out.commands
            (execute_turn hooks snapshot initial max user s).1
    unfolding execute_turn
    execute_turn-Answered max user s out v e =
        rw (v, execute_turn)
          (Answered-of max user s (run_turn h max user s) out (turn_shape max user s)
            (rw (v, execute_turn) at e))

    -- A turn whose hooks are all there fails only for the cause that its failure states, with the error
    -- of that cause: the budget was exceeded or the user's message could not be appended before the
    -- first step; after fewer than `MaxSteps` steps that went on, the step that the failure names found
    -- the context or the budget exceeded, or its execution or the application of its plan failed; or
    -- `MaxSteps` steps all went on.
    pub execute_turn_fails :
        (max : ℤ) (user : String) (s : S) (f : TurnFailure E)
        → validate_turn_input max hooks ≡ ok h
        → (execute_turn hooks snapshot initial max user s).0 ≡ err f
        → TurnFails h max user s f (execute_turn hooks snapshot initial max user s).1
    unfolding execute_turn
    execute_turn_fails max user s f v e =
        rw (v, execute_turn)
          (fails_of max user s (run_turn h max user s) f (turn_shape max user s)
            (rw (v, execute_turn) at e))
