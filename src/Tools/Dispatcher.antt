-- ===== src/Tools/Dispatcher.antt =====
-- tools/dispatcher.go: `Dispatcher`. The schema package's `CoerceAndValidate` and the texts of the
-- errors are parameters.
pub mod Runs
pub mod Sequence
pub mod Batches
use kae_agent_public.Base.{
  ℕ, zero, suc, String, List, [], ◌∷◌, ◌++◌, Option, none, some, Result, ok, err, ◌≡◌, ◌<◌, length,
  get_elem?, set, Bool, true, false, map, replicate, leb_ℤ,
}
use kae_agent_public.Llm.{ToolCall}
use kae_agent_public.Llm.Value.{Value, null, AnyMap}
use kae_agent_public.Engine.{ToolResult}
use kae_agent_public.Tools.Registry.{Outcome, returns, fails, panics, ToolDef, Registry, get}

pub data DispatchError : Type 0 where
  unknown_tool no_handler : String → DispatchError
  invalid_input : String → List String → DispatchError
  execution cancelled panicked : String → String → DispatchError

module _ (text : DispatchError → String) where
  -- A result that holds only an error.
  unfoldable pub error_result : ToolCall → DispatchError → ToolResult
  error_result call e = record {
    call_id = call.id;
    name = call.name;
    content = null;
    error = some (text e);
  }

  -- The results of calls that are not started.
  unfoldable pub cancelled_results : String → List ToolCall → List ToolResult
  unfolding error_result
  cancelled_results e [] = []
  cancelled_results e (c ∷ cs) = error_result c (cancelled c.name e) ∷ cancelled_results e cs

  -- A dispatch answers, or panics with what `recover` gives.
  abbrev pub Dispatch : Type 0 → Type 0
  Dispatch S = ToolCall → S → Result String ToolResult × S

  module _ {S : Type 0} where
    -- `dispatchSafely`
    unfoldable pub recovered : ToolCall → Result String ToolResult × S → ToolResult × S
    unfolding error_result
    recovered call (ok r, s) = (r, s)
    recovered call (err p, s) = (error_result call (panicked call.name p), s)

    unfoldable pub dispatch_safely : Dispatch S → ToolCall → S → ToolResult × S
    unfolding recovered
    dispatch_safely dispatch call s = recovered call (dispatch call s)

    -- The end of `Dispatch`, after the handler.
    unfoldable pub after_handler : ToolCall → Outcome × S → Result String ToolResult × S
    unfolding error_result
    after_handler call (returns v, s) =
        (ok (record { call_id = call.id; name = call.name; content = v; error = none }), s)
    after_handler call (fails e, s) = (ok (error_result call (execution call.name e)), s)
    after_handler call (panics p, s) = (err p, s)

    -- The handler runs on an input that has passed the validation.
    unfoldable pub run_valid :
        (AnyMap → S → Outcome × S)
        → ToolCall
        → AnyMap × List String
        → S
        → Result String ToolResult × S
    unfolding after_handler
    run_valid handler call (coerced, []) s = after_handler call (handler coerced s)
    run_valid handler call (coerced, e ∷ es) s =
        (ok (error_result call (invalid_input call.name (e ∷ es))), s)

    module _ {Sch : Type 0} (coerce_and_validate : Sch → AnyMap → AnyMap × List String) where
      -- `Dispatch`
      unfoldable pub dispatch : Registry Sch S → Dispatch S
      unfolding run_valid get
      dispatch registry call s = elim (get call.name registry) [
        | none ↦ (ok (error_result call (unknown_tool call.name)), s)
        | some tool ↦ elim tool.handler [
          | none ↦ (ok (error_result call (no_handler call.name)), s)
          | some handler ↦ elim tool.schema [
            | none ↦ after_handler call (handler call.input s)
            | some schema ↦ run_valid handler call (coerce_and_validate schema call.input) s
          ]
        ]
      ]

    module _ (ctx_err : S → Option String) (dispatch : Dispatch S) where
      -- `DispatchAllWith` where at most one call runs at a time.
      unfoldable pub dispatch_sequential : List ToolCall → S → List ToolResult × S
      unfolding dispatch_safely
      dispatch_sequential [] s = ([], s)
      dispatch_sequential (c ∷ cs) s =
          let (r, s1) = dispatch_safely dispatch c s in
          let (rs, s2) = dispatch_sequential cs s1 in
          elim (ctx_err s) [ some e ↦ (cancelled_results e (c ∷ cs), s) | none ↦ (r ∷ rs, s2) ]
