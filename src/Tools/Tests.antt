-- ===== src/Tools/Tests.antt =====
-- A registry of one tool, which counts its calls, and a batch of two calls that overlap.
use kae_agent_public.Base.{
  ℕ, suc, ◌≤◌, ◌*◌, ◌+◌, String, List, [], ◌∷◌, Option, none, some, ◌≡◌, refl, ◌⊎◌, inr, arith,
  get_elem?, length,
}
use kae_agent_public.Llm.{ToolCall}
use kae_agent_public.Llm.Value.{AnyMap, text}
use kae_agent_public.Engine.{ToolResult}
use kae_agent_public.Tools.Registry.{returns, ToolDef, Registry, register, new_registry}
use kae_agent_public.Tools.Registry.Usable.{AllUsable, register-AllUsable}
use kae_agent_public.Tools.Dispatcher.{DispatchError, dispatch, dispatch_sequential}
use kae_agent_public.Tools.Dispatcher.Runs.{
  RunsValid, dispatch-RunsValid, dispatch-AnswersCalls, Answers,
}
use kae_agent_public.Tools.Dispatcher.Sequence.{AllAnswer, sequential-AllAnswer}
use kae_agent_public.Tools.Dispatcher.Batches.{
  Batch, new_batch, Step, Steps, stay, step, launch, finish, IsOver,
}
use kae_agent_public.Tools.Dispatcher.Batches.Order.{batch-Answers}
use kae_agent_public.Tools.Dispatcher.Batches.Progress.{count, batch_ends}

abbrev say : DispatchError → String
say e = "error"

-- A schema is the name that it wants; any input passes.
abbrev coerce : String → AnyMap → AnyMap × List String
coerce schema input = (input, [])

abbrev tool : ToolDef String ℕ
tool = record {
  name = "echo";
  description = "";
  schema = some "any";
  tags = [];
  handler = some (λ input n. (returns (text "done"), suc n));
}

abbrev tools : Registry String ℕ
tools = (register (λ s. s) tool new_registry).1

register-AllUsable_example : AllUsable tools
unfolding new_registry
register-AllUsable_example = register-AllUsable (λ s. s) tool new_registry (λ n t e. cc)

tools_usable : AllUsable tools
unfolding new_registry
tools_usable = register-AllUsable (λ s. s) tool new_registry (λ n t e. cc)

abbrev call : String → ToolCall
call id = record { id = id; name = "echo"; input = none }

dispatch-RunsValid_example : RunsValid say coerce tools (call "a") 0
dispatch-RunsValid_example = dispatch-RunsValid say coerce tools (call "a") 0 tools_usable

abbrev calls : List ToolCall
calls = call "a" ∷ call "b" ∷ []

abbrev never : ℕ → Option String
never s = none

sequential-AllAnswer_example :
    AllAnswer calls (dispatch_sequential say never (dispatch say coerce tools) calls 0).0
sequential-AllAnswer_example =
    sequential-AllAnswer say never (dispatch say coerce tools) calls 0
      (dispatch-AnswersCalls say coerce tools)

-- Both calls are started, and the second one ends first.
overlap :
    (b : Batch ℕ) × Steps say never (dispatch say coerce tools) 2 calls (new_batch calls 0) b
    × IsOver calls b
unfolding new_batch
overlap = (
  _,
  step
      (step
        (step (step stay (launch (call "a") refl refl (omega arith)))
          (launch (call "b") refl refl (omega arith)))
        (finish [] 1 (call "b") ((0, call "a") ∷ []) refl))
      (finish [] 0 (call "a") [] refl),
  (refl, inr (omega arith)),
)

batch-Answers_example :
    (r : ToolResult) × (get_elem? overlap.0.results 1 ≡ some (some r)) × Answers (call "b") r
batch-Answers_example =
    batch-Answers say never (dispatch say coerce tools) 2 calls 0 1 (call "b")
      (dispatch-AnswersCalls say coerce tools) overlap.1 overlap.2 refl

batch_ends_example :
    (count say never (dispatch say coerce tools) 2 calls overlap.1 ≤ 2 * length calls + 1)
    × (IsOver calls overlap.0
        ⊎ ((b : Batch ℕ) × Step say never (dispatch say coerce tools) 2 calls overlap.0 b))
batch_ends_example =
    batch_ends say never (dispatch say coerce tools) 2 calls 0 overlap.1 (omega arith)
