-- ===== src/Runtime/Executor/Handlers.antt =====
-- What the handler of a step, and the middleware around it, may do to a run.
use kae_agent_public.Base.{
  String, List, [], ◌∷◌, Option, none, some, Slice, items, Result, ok, err, ◌≡◌, refl, Option-cases,
  Result-cases, Bool-cases, inl, inr, All,
}
use kae_agent_public.Llm.{Message, ToolDef as LlmToolDef, Request, Response}
use kae_agent_public.Llm.Clone.{clone_messages, clone_messages_id}
use kae_agent_public.Engine.{StepOutput}
use kae_agent_public.Compaction.{Output as Compacted}
use kae_agent_public.Conversation.{Conversation, replace_messages}
use kae_agent_public.Runtime.Request.{
  RequestError, keep_compacted, prepare_messages_for_request, should_force_preflight_compaction,
  force, after_answer, after_force, checked, input_for, current_after, ensure_single_system_message,
}
use kae_agent_public.Runtime.Executor.{Exec, Ended, Env, ExecError, TransferStep}
use kae_agent_public.Runtime.Executor.Tools.{tool_defs_to_llm}
use kae_agent_public.Runtime.Executor.Requests.{
  Handler, Middleware, Step, chain, execute_step, prepared, execute_engine_step, completed,
  with_transfer, after_prepare, after_complete,
}
use kae_agent_public.Runtime.Executor.Rule.{Ends, and_then-Ends}
use kae_agent_public.Runtime.Executor.Closed.{Closed}

module _ {F Sch W : Type 0} (I : List Message → Type 0) where
  -- From x to y a run keeps the property, and its runtime.
  abbrev pub Passes : Exec F Sch W → Exec F Sch W → Type 0
  Passes x y = I (items y.run.conv.messages) × (y.rt ≡ x.rt) × (y.run.generation ≡ x.run.generation)

  abbrev pub Keeps : {E : Type 0} → Handler F Sch W E → Type 0
  Keeps h =
      (step : Step Sch W) (x : Exec F Sch W)
      → I (items step.messages)
      → I (items x.run.conv.messages)
      → Passes x (h step x).1

  -- A middleware that keeps the property if the handler inside does.
  abbrev pub KeepsAround : {E : Type 0} → Middleware F Sch W E → Type 0
  KeepsAround {E} m = (h : Handler F Sch W E) → Keeps h → Keeps (m h)

  pub chain-Keeps :
      {E : Type 0} (h : Handler F Sch W E) (ms : List (Middleware F Sch W E))
      → Keeps h
      → All KeepsAround ms
      → Keeps (chain h ms)
  unfolding chain
  chain-Keeps h [] k a = k
  chain-Keeps h (m ∷ ms) k (b, a) = b (chain h ms) (chain-Keeps h ms k a)

module _ {F Sch W J E : Type 0} (env : Env F Sch W J E) {I : List Message → Type 0}
    (closed : Closed env I) where
  compacted-I :
      (out : Compacted) (c : Conversation)
      → I (items out.messages)
      → I (items c.messages)
      → I (items (keep_compacted out c).messages)
  unfolding keep_compacted replace_messages
  compacted-I out c h g = elim (Bool-cases out.compacted) [
    | inl p ↦ rw (p, clone_messages_id) h
    | inr p ↦ rw p g
  ]

  checked-I :
      (ms : Slice Message) (c : Conversation)
      → I (items c.messages)
      → I (items (checked env.std ms c).1.messages)
  unfolding checked
  checked-I ms c g = elim (Option-cases (ensure_single_system_message (items ms))) [
    | inl p ↦ rw (p, checked) g
    | inr (e, p) ↦ rw (p, checked) g
  ]

  after_force-I :
      (tools : List LlmToolDef) (ms : Slice Message) (c : Conversation) (out : Compacted)
      → I (items out.messages)
      → I (items c.messages)
      → I (items (after_force env.std env.limits tools ms c out).1.messages)
  unfolding after_force
  after_force-I tools ms c out h g =
      elim (Bool-cases (
        should_force_preflight_compaction env.std env.limits (current_after env.std out ms)
          tools)) [
            | inl p ↦ rw (p, after_force) (compacted-I out c h g)
            | inr p ↦
                rw (p, after_force)
                  (checked-I (current_after env.std out ms) (keep_compacted out c)
                    (compacted-I out c h g))
          ]

  force-I :
      (session_id : String) (ms : Slice Message) (tools : List LlmToolDef) (c : Conversation)
      → I (items ms)
      → I (items c.messages)
      → I (items (force env.std env.limits session_id ms tools c env.limits.compactor).1.messages)
  unfolding force after_answer
  force-I session_id ms tools c h g = elim (Option-cases env.limits.compactor) [
    | inl p ↦ rw (p, force) g
    | inr (k, p) ↦ elim (Result-cases (k.force_compact (input_for session_id ms tools))) [
      | inr (e, q) ↦ rw (p, q, force) g
      | inl (out, q) ↦
          rw (p, q, force)
            (after_force-I tools ms c out
              (closed.force_kept k p (input_for session_id ms tools) out q h) g)
    ]
  ]

  prepare-I :
      (session_id : String) (ms : Slice Message) (tools : List LlmToolDef) (c : Conversation)
      → I (items ms)
      → I (items c.messages)
      → I (items (prepare_messages_for_request env.std env.limits session_id ms tools c).1.messages)
  unfolding prepare_messages_for_request
  prepare-I session_id ms tools c h g =
      elim (Bool-cases
        (should_force_preflight_compaction env.std env.limits (clone_messages ms) tools)) [
          | inl p ↦
              rw (p, prepare_messages_for_request)
                (force-I session_id (clone_messages ms) tools c (rw clone_messages_id h) g)
          | inr p ↦ rw (p, prepare_messages_for_request) (checked-I (clone_messages ms) c g)
        ]

  -- Both where a call answers and where it fails.
  abbrev EndsPassing : {A : Type 0} → Exec F Sch W → Ended F Sch W E A → Type 0
  EndsPassing x r = Ends (λ a y. Passes I x y) (λ y. Passes I x y) r

  passing :
      {A : Type 0} (x : Exec F Sch W) (r : Ended F Sch W E A) → EndsPassing x r → Passes I x r.1
  passing x (ok a, y) h = h.kept
  passing x (err e, y) h = h.kept

  prepared-Ends :
      (x : Exec F Sch W) (r : Result RequestError (Slice Message) × Conversation)
      → I (items r.1.messages)
      → EndsPassing x (prepared env x r)
  unfolding prepared
  prepared-Ends x (ok ms, c) h = record { kept = (h, refl, refl) }
  prepared-Ends x (err e, c) h = record { kept = (h, refl, refl) }

  completed-Ends :
      (x y : Exec F Sch W) (req : Request) (r : Result E (Option Response) × W)
      → Passes I x y
      → EndsPassing x (completed env req y r)
  unfolding completed
  completed-Ends x y req (err e, w) h = record { kept = h }
  completed-Ends x y req (ok none, w) h = record { kept = h }
  completed-Ends x y req (ok (some a), w) h = record { kept = h }

  with_transfer-Ends :
      (x y : Exec F Sch W) (out : StepOutput)
      (r : Result (ExecError F E) (Option (TransferStep F E)))
      → Passes I x y
      → EndsPassing x (with_transfer env out y r)
  unfolding with_transfer
  with_transfer-Ends x y out (err e) h = record { kept = h }
  with_transfer-Ends x y out (ok none) h = record { kept = h }
  with_transfer-Ends x y out (ok (some t)) h = record { kept = h }

  engine_step-Ends :
      (x y : Exec F Sch W) (step : Step Sch W) (ms : Slice Message)
      → Passes I x y
      → EndsPassing x (execute_engine_step env step ms y)
  unfolding execute_engine_step
  engine_step-Ends x y step ms h = completed-Ends x y _ (env.complete _ y.world) h

  after_prepare-Ends :
      (x y : Exec F Sch W) (step : Step Sch W) (ms : Slice Message)
      → Passes I x y
      → EndsPassing x (after_prepare env step ms y)
  unfolding after_prepare after_complete
  after_prepare-Ends x y step ms h =
      and_then-Ends (execute_engine_step env step ms y) (after_complete env)
        (engine_step-Ends x y step ms h) (λ out z k. with_transfer-Ends x z out _ k)

  execute_step-Ends :
      (step : Step Sch W) (x : Exec F Sch W)
      → I (items step.messages)
      → I (items x.run.conv.messages)
      → EndsPassing x (execute_step env step x)
  unfolding execute_step
  execute_step-Ends step x h g =
      let ms =
        prepare_messages_for_request env.std env.limits step.session_id step.messages
          (tool_defs_to_llm env step.avail_tools) x.run.conv in
      and_then-Ends (prepared env x ms) (after_prepare env step)
        (prepared-Ends x ms (
          prepare-I step.session_id step.messages (tool_defs_to_llm env step.avail_tools) x.run.conv
            h g))
        (λ m y k. after_prepare-Ends x y step m k)

  pub execute_step-Keeps : Keeps I (execute_step env)
  execute_step-Keeps step x h g = passing x (execute_step env step x) (execute_step-Ends step x h g)
