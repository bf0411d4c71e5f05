-- ===== src/Tools/Dispatcher/Batches/Progress.antt =====
-- A batch of calls never waits for ever.
use kae_agent_public.Base.{
  get_elem?-below, get_elem?-bound, ℕ, suc, ◌+◌, ◌-◌, ◌*◌, ◌<◌, ◌≤◌, String, List, [], ◌∷◌, Option,
  Result, ◌≡◌, refl, ◌⊎◌, inl, inr, length, length-append, if◌then◌else◌, ltb, arith, ap,
  Bool-cases,
}
use kae_agent_public.Llm.{ToolCall}
use kae_agent_public.Engine.{ToolResult}
use kae_agent_public.Tools.Dispatcher.{DispatchError}
use kae_agent_public.Tools.Dispatcher.Batches.{
  Batch, new_batch, Step, launch, stop, finish, Steps, stay, step, IsOver,
}

-- The steps that a batch can still take: two for a call that is not started, one for a call that is
-- running, and one for the launcher.
abbrev work : {S : Type 0} → List ToolCall → Batch S → ℕ
work calls b = 2 * (length calls - b.next) + length b.running + (if b.stopped then 0 else 1)

module _ (text : DispatchError → String) {S : Type 0} (ctx_err : S → Option String)
    (d : ToolCall → S → Result String ToolResult × S) (max : ℕ) (calls : List ToolCall) where
  step_work :
      {a b : Batch S} → Step text ctx_err d max calls a b → suc (work calls b) ≤ work calls a
  step_work {a} (launch c p q r) = ground (arith, p, get_elem?-bound calls a.next c q)
  step_work {a} (stop e p q r) = ground (arith, p)
  step_work {a} (finish before i c after e) =
      ground (arith, ap length e, length-append before ((i, c) ∷ after), length-append before after)

  abbrev pub count : {a b : Batch S} → Steps text ctx_err d max calls a b → ℕ
  count stay = 0
  count (step st x) = suc (count st)

  count-work :
      {a b : Batch S} (st : Steps text ctx_err d max calls a b)
      → count st + work calls b ≤ work calls a
  count-work stay = omega arith
  count-work (step st x) = omega (arith, count-work st, step_work x)

  go_on :
      (b : Batch S)
      → 0 < max
      → IsOver calls b ⊎ ((b' : Batch S) × Step text ctx_err d max calls b b')
  go_on b h =
      elim b.running
          as (λ r.
            b.running ≡ r
            → IsOver calls b ⊎ ((b' : Batch S) × Step text ctx_err d max calls b b')) [
              | (i, c) ∷ ps ↦ λ e. inr (_, finish [] i c ps e)
              | [] ↦ λ e. elim (Bool-cases b.stopped) [
                | inl p ↦ inl (e, inl p)
                | inr p ↦ elim (Bool-cases (ltb b.next (length calls))) [
                  | inr q ↦ inl (e, inr (ground (arith, q)))
                  | inl q ↦
                      let (c, k) = get_elem?-below calls b.next (ground (arith, q)) in
                      inr (_, launch c p k (omega (arith, ap length e, h)))
                ]
              ]
            ]
        refl

  -- A batch with room for a call takes a step until it is over, and after at most two steps for each
  -- call and one more it is over: a run of steps is never longer.
  pub batch_ends :
      {b : Batch S} (s : S) (st : Steps text ctx_err d max calls (new_batch calls s) b)
      → 0 < max
      → (count st ≤ 2 * length calls + 1)
        × (IsOver calls b ⊎ ((b' : Batch S) × Step text ctx_err d max calls b b'))
  unfolding new_batch
  batch_ends {b} s st h = (omega (arith, count-work st), go_on b h)
