-- ===== src/Tools/Dispatcher/Batches.antt =====
-- tools/dispatcher.go, `DispatchAllWith` where several calls run at a time: a step relation between
-- the states of a batch. A call that is running ends at any moment, as one step on the shared state;
-- the launcher starts the next call while there is room, or stops when the context is cancelled.
pub mod Order
pub mod Progress
use kae_agent_public.Base.{
  ℕ, zero, suc, ◌<◌, ◌≤◌, String, Bool, true, false, List, [], ◌∷◌, ◌++◌, Option, none, some,
  Result, ◌≡◌, ◌⊎◌, length, get_elem?, set, replicate,
}
use kae_agent_public.Llm.{ToolCall}
use kae_agent_public.Engine.{ToolResult}
use kae_agent_public.Tools.Dispatcher.{DispatchError, cancelled, error_result, dispatch_safely}

-- The result slots, of which one that is not written yet is none; the index of the next call; the
-- calls that are running with their indices; and whether the launcher has stopped.
pub record Batch (S : Type 0) : Type 0 where
  pub results : List (Option ToolResult)
  pub next : ℕ
  pub running : List (ℕ × ToolCall)
  pub stopped : Bool
  pub state : S

unfoldable pub new_batch : {S : Type 0} → List ToolCall → S → Batch S
new_batch calls s = record {
  results = replicate (length calls) none;
  next = 0;
  running = [];
  stopped = false;
  state = s;
}

module _ (text : DispatchError → String) where
  -- The loop over j, which fills the slots from the index on.
  unfoldable pub cancel_from :
      String → ℕ → List ToolCall → List (Option ToolResult) → List (Option ToolResult)
  cancel_from e i [] rs = rs
  cancel_from e i (c ∷ cs) [] = []
  cancel_from e zero (c ∷ cs) (r ∷ rs) =
      some (error_result text c (cancelled c.name e)) ∷ cancel_from e zero cs rs
  cancel_from e (suc i) (c ∷ cs) (r ∷ rs) = r ∷ cancel_from e i cs rs

  module _ {S : Type 0} (ctx_err : S → Option String)
      (d : ToolCall → S → Result String ToolResult × S) (max_concurrent : ℕ)
      (calls : List ToolCall) where
    pub data Step : Batch S → Batch S → Type 0 where
      launch :
          {b : Batch S} (c : ToolCall)
          → b.stopped ≡ false
          → get_elem? calls b.next ≡ some c
          → length b.running < max_concurrent
          → Step b (record b { next = suc b.next; running = (b.next, c) ∷ b.running })
      stop :
          {b : Batch S} (e : String)
          → b.stopped ≡ false
          → b.next < length calls
          → ctx_err b.state ≡ some e
          → Step b (record b { results = cancel_from e b.next calls b.results; stopped = true })
      finish :
          {b : Batch S} (before : List (ℕ × ToolCall)) (i : ℕ) (c : ToolCall)
          (after : List (ℕ × ToolCall))
          → b.running ≡ before ++ (i, c) ∷ after
          → Step b (record b {
            results = set b.results i (some (dispatch_safely text d c b.state).0);
            running = before ++ after;
            state = (dispatch_safely text d c b.state).1;
          })

    pub data Steps : Batch S → Batch S → Type 0 where
      stay : {b : Batch S} → Steps b b
      step : {a b c : Batch S} → Steps a b → Step b c → Steps a c

-- `wg.Wait()` returns: the launcher has started every call or stopped, and none is running.
abbrev pub IsOver : {S : Type 0} → List ToolCall → Batch S → Type 0
IsOver calls b = (b.running ≡ []) × ((b.stopped ≡ true) ⊎ (length calls ≤ b.next))
