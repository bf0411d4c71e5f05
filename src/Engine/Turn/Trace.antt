-- ===== src/Engine/Turn/Trace.antt =====
-- The steps of a turn, told by the hooks that they call, without the loop.
use kae_agent_public.Base.{
  ℕ, zero, suc, ◌<◌, ◌≡◌, ℤ, pos, negsuc, pos_part, String, List, [], ◌∷◌, ◌++◌, none, some, ok,
  err, All, Bool, true, false, ◌⊎◌,
}
use kae_agent_public.Engine.Types.{
  TurnStepOutput, Command, CommandKind, append_user_message, save_session, emit_output, trace_event,
}
use kae_agent_public.Engine.Commands.{plan_step_commands, plan_final_commands, classify_turn_step}
use kae_agent_public.Engine.Turn.{
  Ready, FailureKind, TurnFailure, is_final, first_step, append_user, turn_step,
}

-- The commands of a step that goes on: none of them appends a user message, saves the session or
-- writes output.
abbrev pub is_work : CommandKind → Bool
is_work append_user_message = false
is_work save_session = false
is_work emit_output = false
is_work trace_event = false
is_work _ = true

abbrev pub IsWork : Command → Type 0
IsWork c = is_work c.kind ≡ true

module _ {S E : Type 0} (h : Ready S E) where
  -- The step at index i, from the state s, has given `out` and left s': its four calls in their order.
  pub record Stepped (i : ℕ) (s : S) (out : TurnStepOutput) (s' : S) : Type 0 where
    pub in_time : h.ctx_err s ≡ none
    pub in_budget : h.check_budget s ≡ none
    pub between : S
    pub executed :
        h.execute (h.current_step i s) (h.started (h.current_step i s) s) ≡ (ok out, between)
    pub applied :
        h.apply
          (turn_step i (h.current_step i s) out)
          (h.add_usage out.usage (h.completed i (ok out) between))
        ≡ (none, s')

  -- So many steps that went on, from the index i and the state s to the index j and the state t; cs
  -- are their commands.
  abbrev pub Went : ℕ → ℕ → S → List Command → ℕ → S → Type 0
  Went zero i s cs j t = (cs ≡ []) × (i ≡ j) × (s ≡ t)
  Went (suc n) i s cs j t =
      (out : TurnStepOutput) × (s1 : S) × (ds : List Command) × Stepped i s out s1
      × (is_final (classify_turn_step out) ≡ false)
      × (cs ≡ plan_step_commands (h.current_step i s) out.step out.transfer ++ ds)
      × Went n (suc i) s1 ds j t

  -- The step at index i, from the state s, fails with f and leaves s'. It fails where the context or
  -- the budget is exceeded, or where its own call of a hook fails.
  abbrev pub FailsAt : ℕ → S → TurnFailure E → S → Type 0
  FailsAt i s f s' =
      (e : E) × (f.step ≡ pos i)
      × (f.error ≡ some (ok e))
      × (((f.kind ≡ FailureKind.context) × (h.ctx_err s ≡ some e) × (s ≡ s'))
          ⊎ ((f.kind ≡ FailureKind.budget) × (h.check_budget s ≡ some e) × (s ≡ s'))
          ⊎ ((f.kind ≡ FailureKind.step)
              × (s1 : S) × (h.execute (h.current_step i s) (h.started (h.current_step i s) s)
                  ≡ (err e, s1))
              × (h.completed i (err e) s1 ≡ s'))
          ⊎ ((f.kind ≡ FailureKind.apply)
              × (out : TurnStepOutput) × (s1 : S) × (h.execute (h.current_step i s)
                    (h.started (h.current_step i s) s)
                  ≡ (ok out, s1))
              × (h.apply (turn_step i (h.current_step i s) out)
                    (h.add_usage out.usage (h.completed i (ok out) s1))
                  ≡ (some e, s'))))

  -- With n rounds left: after fewer steps that went on a step fails, or n steps went on.
  abbrev pub LoopFails : ℤ → ℕ → ℕ → S → TurnFailure E → S → Type 0
  LoopFails max n i s f s' =
      ((m : ℕ) × (cs : List Command) × (j : ℕ) × (t : S) × (m < n)
        × Went m i s cs j t
        × FailsAt j t f s')
      ⊎ ((f.kind ≡ FailureKind.max_steps)
          × (f.step ≡ max)
          × (f.max_steps ≡ max)
          × (cs : List Command) × (j : ℕ) × Went n i s cs j s')

  -- The user's message was appended, from the state s to s'.
  abbrev pub Began : String → S → S → Type 0
  Began user s s' = (h.check_budget s ≡ none) × (h.apply (first_step user) s ≡ (none, s'))

  -- Why a turn fails whose hooks are all there: before the first step, by the budget or by appending
  -- the user's message, or in the loop.
  abbrev pub TurnFails : ℤ → String → S → TurnFailure E → S → Type 0
  TurnFails max user s f s' =
      ((e : E) × (f.step ≡ negsuc 0)
        × (f.error ≡ some (ok e))
        × (((f.kind ≡ FailureKind.budget) × (h.check_budget s ≡ some e) × (s ≡ s'))
            ⊎ ((f.kind ≡ FailureKind.apply) × (h.apply (first_step user) s ≡ (some e, s')))))
      ⊎ ((s0 : S) × Began user s s0 × LoopFails max (pos_part max) 0 s0 f s')

  -- An answer with at most n rounds: the commands before, those of the steps that went on, and the final
  -- plan of the step that came next, whose text is the answer.
  pub record Answers (n i : ℕ) (cs : List Command) (s : S) (text : String) (final : List Command)
      (s' : S) : Type 0 where
    pub steps : ℕ
    pub within : steps < n
    pub earlier : List Command
    pub index : ℕ
    pub reached : S
    pub went : Went steps i s earlier index reached
    pub last : TurnStepOutput
    pub stepped : Stepped index reached last s'
    pub is_last : is_final (classify_turn_step last) ≡ true
    pub split : final ≡ cs ++ earlier ++ plan_final_commands last.step
    pub working : All IsWork earlier
    pub says : text ≡ last.text

  -- A turn that answers.
  abbrev pub Answered : ℤ → String → S → String → List Command → S → Type 0
  Answered max user s text final s' =
      (s0 : S) × Began user s s0 × Answers (pos_part max) 0 (append_user user ∷ []) s0 text final s'
