-- ===== src/Tools/Dispatcher/Runs.antt =====
-- What a dispatch does with one call.
use kae_agent_public.Base.{
  String, true, false, List, [], ◌∷◌, none, some, Result, ok, err, ◌≡◌, refl, Option-cases, inl,
  inr, ◌⊎◌,
}
use kae_agent_public.Llm.{ToolCall}
use kae_agent_public.Llm.Value.{AnyMap}
use kae_agent_public.Engine.{ToolResult}
use kae_agent_public.Tools.Registry.{Outcome, returns, fails, panics, ToolDef, Registry, get}
use kae_agent_public.Tools.Registry.Usable.{AllUsable}
use kae_agent_public.Tools.Dispatcher.{
  DispatchError, unknown_tool, panicked, invalid_input, error_result, recovered, dispatch_safely,
  after_handler, run_valid, dispatch,
}

-- A result that names the call that it answers.
abbrev pub Answers : ToolCall → ToolResult → Type 0
Answers c r = (r.call_id ≡ c.id) × (r.name ≡ c.name)

-- A dispatch function whose results name the call.
abbrev pub AnswersCalls : {S : Type 0} → (ToolCall → S → Result String ToolResult × S) → Type 0
AnswersCalls {S} d = (c : ToolCall) (s : S) (r : ToolResult) → (d c s).0 ≡ ok r → Answers c r

module _ (text : DispatchError → String) where
  error_result-Answers : (c : ToolCall) (e : DispatchError) → Answers c (error_result text c e)
  unfolding error_result
  error_result-Answers c e = (refl, refl)

  module _ {S : Type 0} where
    recovered-Answers :
        (c : ToolCall) (x : Result String ToolResult × S)
        → ((r : ToolResult) → x.0 ≡ ok r → Answers c r)
        → Answers c (recovered text c x).0
    unfolding recovered
    recovered-Answers c (ok r, s) h = h r refl
    recovered-Answers c (err p, s) h = error_result-Answers c (panicked c.name p)

    -- A call that is dispatched safely is answered under its own id and name, also where it panics.
    pub dispatch_safely-Answers :
        (d : ToolCall → S → Result String ToolResult × S) (c : ToolCall) (s : S)
        → AnswersCalls d
        → Answers c (dispatch_safely text d c s).0
    unfolding dispatch_safely
    dispatch_safely-Answers d c s h = recovered-Answers c (d c s) (h c s)

    after_handler-Answers :
        (c : ToolCall) (x : Outcome × S) (r : ToolResult)
        → (after_handler text c x).0 ≡ ok r
        → Answers c r
    unfolding after_handler error_result
    after_handler-Answers c (returns v, s) r e = (cc, cc)
    after_handler-Answers c (fails m, s) r e = (cc, cc)
    after_handler-Answers c (panics p, s) r e = cc

    run_valid-Answers :
        (f : AnyMap → S → Outcome × S) (c : ToolCall) (v : AnyMap × List String) (s : S)
        (r : ToolResult)
        → (run_valid text f c v s).0 ≡ ok r
        → Answers c r
    unfolding run_valid error_result
    run_valid-Answers f c (m, []) s r e = after_handler-Answers c (f m s) r e
    run_valid-Answers f c (m, x ∷ xs) s r e = (cc, cc)

    module _ {Sch : Type 0} (coerce : Sch → AnyMap → AnyMap × List String) where
      -- `Dispatch` answers every call under its own id and name.
      pub dispatch-AnswersCalls :
          (registry : Registry Sch S) → AnswersCalls (dispatch text coerce registry)
      unfolding dispatch error_result
      dispatch-AnswersCalls registry c s r e = elim (Option-cases (get c.name registry)) [
        | inl p ↦ let q : ok _ ≡ ok r = rw (p, dispatch) at e in (cc, cc)
        | inr (t, p) ↦ elim (Option-cases t.handler) [
          | inl k ↦ let q : ok _ ≡ ok r = rw (p, k, dispatch) at e in (cc, cc)
          | inr (f, k) ↦ elim (Option-cases t.schema) [
            | inl l ↦ after_handler-Answers c (f c.input s) r (rw (p, k, l, dispatch) at e)
            | inr (sch, l) ↦
                run_valid-Answers f c (coerce sch c.input) s r (rw (p, k, l, dispatch) at e)
          ]
        ]
      ]

      -- A call of a usable registry, by its tool's name and its input: the tool is unknown and nothing
      -- runs; or the input fails the validation and nothing runs; or the handler runs once, on the
      -- coerced input that has passed the validation.
      abbrev pub RunsValid : Registry Sch S → ToolCall → S → Type 0
      RunsValid registry c s =
          ((get c.name registry ≡ none)
            × (dispatch text coerce registry c s
                ≡ (ok (error_result text c (unknown_tool c.name)), s)))
          ⊎ ((t : ToolDef Sch S) × (sch : Sch) × (f : AnyMap → S → Outcome × S) × (get c.name
                  registry
                ≡ some t)
              × (t.schema ≡ some sch)
              × (t.handler ≡ some f)
              × (((e : String) × (es : List String) × ((coerce sch c.input).1 ≡ e ∷ es)
                    × (dispatch text coerce registry c s
                        ≡ (ok (error_result text c (invalid_input c.name (e ∷ es))), s)))
                  ⊎ (((coerce sch c.input).1 ≡ [])
                      × (dispatch text coerce registry c s
                          ≡ after_handler text c (f (coerce sch c.input).0 s)))))

      run_valid_cases :
          (f : AnyMap → S → Outcome × S) (c : ToolCall) (v : AnyMap × List String) (s : S)
          → ((e : String) × (es : List String) × (v.1 ≡ e ∷ es)
              × (run_valid text f c v s
                  ≡ (ok (error_result text c (invalid_input c.name (e ∷ es))), s)))
            ⊎ ((v.1 ≡ []) × (run_valid text f c v s ≡ after_handler text c (f v.0 s)))
      unfolding run_valid
      run_valid_cases f c (m, []) s = inr (refl, refl)
      run_valid_cases f c (m, x ∷ xs) s = inl (x, xs, refl, refl)

      -- In a registry whose tools are all usable, no call reaches a handler with an input that has not
      -- passed the validation by the tool's schema, and a refused call leaves the state as it is.
      pub dispatch-RunsValid :
          (registry : Registry Sch S) (c : ToolCall) (s : S)
          → AllUsable registry
          → RunsValid registry c s
      unfolding dispatch
      dispatch-RunsValid registry c s u = elim (Option-cases (get c.name registry)) [
        | inl p ↦ inl (p, rw (p, dispatch) refl)
        | inr (t, p) ↦
            let (n, (a, b)) = u c.name t (unfold get in p) in
            elim (Option-cases t.handler) [
              | inl k ↦ absurd (let e : false ≡ true = rw k at b in cc)
              | inr (f, k) ↦ elim (Option-cases t.schema) [
                | inl l ↦ absurd (let e : false ≡ true = rw l at a in cc)
                | inr (sch, l) ↦ inr (
                  t,
                  sch,
                  f,
                  p,
                  l,
                  k,
                  rw (p, k, l, dispatch) (run_valid_cases f c (coerce sch c.input) s),
                )
              ]
            ]
      ]
