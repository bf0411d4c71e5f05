-- ===== src/Tools/Dispatcher/Sequence.antt =====
-- The calls of a batch that run one after the other.
use kae_agent_public.Base.{String, List, [], ◌∷◌, Option, Result, refl, Option-cases, inl, inr}
use kae_agent_public.Llm.{ToolCall}
use kae_agent_public.Engine.{ToolResult}
use kae_agent_public.Tools.Dispatcher.{
  DispatchError, dispatch_safely, dispatch_sequential, cancelled_results, error_result,
}
use kae_agent_public.Tools.Dispatcher.Runs.{Answers, AnswersCalls, dispatch_safely-Answers}

-- Result by result, the answers of the calls in their order.
abbrev pub AllAnswer : List ToolCall → List ToolResult → Type 0
AllAnswer [] [] = Unit
AllAnswer (c ∷ cs) (r ∷ rs) = Answers c r × AllAnswer cs rs
AllAnswer _ _ = ⊥

module _ (text : DispatchError → String) where
  cancelled-AllAnswer :
      (e : String) (cs : List ToolCall) → AllAnswer cs (cancelled_results text e cs)
  unfolding cancelled_results error_result
  cancelled-AllAnswer e [] = tt
  cancelled-AllAnswer e (c ∷ cs) = ((refl, refl), cancelled-AllAnswer e cs)

  module _ {S : Type 0} (ctx_err : S → Option String)
      (d : ToolCall → S → Result String ToolResult × S) where
    -- One after the other, every call is answered, in the order of the calls and under its id and name,
    -- also the calls that panic and those that a cancelled context keeps from starting.
    pub sequential-AllAnswer :
        (cs : List ToolCall) (s : S)
        → AnswersCalls d
        → AllAnswer cs (dispatch_sequential text ctx_err d cs s).0
    unfolding dispatch_sequential
    sequential-AllAnswer [] s h = tt
    sequential-AllAnswer (c ∷ cs) s h = elim (Option-cases (ctx_err s)) [
      | inl p ↦
          rw (p, dispatch_sequential)
            (
              dispatch_safely-Answers text d c s h,
              sequential-AllAnswer cs (dispatch_safely text d c s).1 h,
            )
      | inr (e, p) ↦ rw (p, dispatch_sequential) (cancelled-AllAnswer e (c ∷ cs))
    ]
