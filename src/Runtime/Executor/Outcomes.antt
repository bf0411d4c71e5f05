-- ===== src/Runtime/Executor/Outcomes.antt =====
-- What a run leaves behind in the runtime.
use kae_agent_public.Base.{
  ℤ, String, List, [], Option, none, some, Dict, ap, items, ok, err, eqb_iff, ◌≡◌, refl, sym, subst,
  ◌∙◌, All,
}
use kae_agent_public.Llm.{Message}
use kae_agent_public.Llm.Clone.{clone_messages_id}
use kae_agent_public.Conversation.{
  new_conversation_from_state, snapshot as conversation_snapshot, restore as restore_conversation,
}
use kae_agent_public.Tools.Registry.{Registry}
use kae_agent_public.Agents.{Agent}
use kae_agent_public.Streaming.Budget.{
  snapshot as budget_snapshot, restore as restore_budget, new_budget_from_snapshot,
}
use kae_agent_public.Session.{clone_session_config, copy_metadata, restore as restore_session}
use kae_agent_public.Session.Stored.{clone_session_config_id, clone_string_map_id}
use kae_agent_public.Conversation.Range.{restore-snapshot}
use kae_agent_public.Runtime.State.{
  Runtime, RunState, capture_run_state, publish_run_state, published,
}
use kae_agent_public.Runtime.Executor.{Env}
use kae_agent_public.Runtime.Executor.Requests.{Middleware, chain, execute_step}
use kae_agent_public.Runtime.Executor.Turns.{run, Turned}
use kae_agent_public.Runtime.Executor.Closed.{Closed}
use kae_agent_public.Runtime.Executor.Handlers.{KeepsAround, chain-Keeps, execute_step-Keeps}
use kae_agent_public.Runtime.Executor.Runs.{RunEnds, execute_engine_turn-RunEnds}

module _ {F Sch W J E : Type 0} (env : Env F Sch W J E) where
  -- Every property holds of nothing at all.
  anything : Closed env (λ ms. Unit)
  anything = record {
    user_kept = λ ms content h. tt;
    final_kept = λ ms content h. tt;
    tools_kept = λ ms content i cs calls rs w p h. tt;
    acknowledged_kept = λ ms content c a h. tt;
    prompt_kept = λ ms prompt h. tt;
    filter_kept = λ f p d h. tt;
    compact_kept = λ k p input out q h. tt;
    force_kept = λ k p input out q h. tt;
  }

module _ {F Sch W J E : Type 0} (env : Env F Sch W J E) {I : List Message → Type 0}
    (closed : Closed env I) where
  run-RunEnds :
      (middleware : List (Middleware F Sch W E)) (max : ℤ) (run_id text : String)
      (rt : Runtime (Agent F Sch W) (Registry Sch W) F) (w : W)
      → All (KeepsAround I) middleware
      → I (items rt.conv.messages)
      → RunEnds env closed rt (run env middleware max run_id text rt w)
  unfolding run
  run-RunEnds middleware max run_id text rt w a h =
      execute_engine_turn-RunEnds env closed rt (chain (execute_step env) middleware) max text _
        (chain-Keeps I (execute_step env) middleware (execute_step-Keeps env closed) a)
        (
          unfold capture_run_state in
              unfold new_conversation_from_state in
              unfold conversation_snapshot in rw (clone_messages_id, clone_messages_id) h,
          refl,
          unfold capture_run_state in refl,
        )

  publish_run_state-published :
      (rs : RunState (Agent F Sch W) (Registry Sch W) F)
      (rt : Runtime (Agent F Sch W) (Registry Sch W) F)
      → rs.generation ≡ rt.generation
      → publish_run_state rs rt ≡ published rs rt
  unfolding publish_run_state
  publish_run_state-published rs rt g = rw ((eqb_iff rt.generation rs.generation).1 (sym g)) refl

  published_conv :
      (rs : RunState (Agent F Sch W) (Registry Sch W) F)
      (rt : Runtime (Agent F Sch W) (Registry Sch W) F)
      → I (items rs.conv.messages)
      → I (items (published rs rt).conv.messages)
  unfolding published restore_conversation conversation_snapshot
  published_conv rs rt h = rw (clone_messages_id, clone_messages_id) h

  -- The runtime after a run that has answered, and after one that has failed.
  abbrev pub Left : Runtime (Agent F Sch W) (Registry Sch W) F → Turned env → Type 0
  Left rt (err f, x) = x.rt ≡ rt
  Left rt (ok o, x) = (x.rt ≡ published x.run rt) × I (items x.rt.conv.messages)

  RunEnds-Left :
      (rt : Runtime (Agent F Sch W) (Registry Sch W) F) (r : Turned env)
      → RunEnds env closed rt r
      → Left rt r
  RunEnds-Left rt (err f, x) h = h
  RunEnds-Left rt (ok o, x) (h, k, g) =
      let p = k ∙ publish_run_state-published x.run rt g in
      (p, subst (λ y. I (items y.conv.messages)) (sym p) (published_conv x.run rt h))

  pub run-Left :
      (middleware : List (Middleware F Sch W E)) (max : ℤ) (run_id text : String)
      (rt : Runtime (Agent F Sch W) (Registry Sch W) F) (w : W)
      → All (KeepsAround I) middleware
      → I (items rt.conv.messages)
      → Left rt (run env middleware max run_id text rt w)
  run-Left middleware max run_id text rt w a h =
      RunEnds-Left rt _ (run-RunEnds middleware max run_id text rt w a h)

-- A map of metadata, made where there is none.
abbrev pub made : Option (Dict String) → Option (Dict String)
made none = some []
made (some m) = some m

copy_metadata-made : (m : Option (Dict String)) → copy_metadata m ≡ made m
unfolding copy_metadata
copy_metadata-made none = refl
copy_metadata-made (some m) = refl

module _ {F Sch W : Type 0} where
  -- The runtime rt' has what the run rs has made of itself, and the rest of the runtime rt.
  abbrev pub HasRun :
      RunState (Agent F Sch W) (Registry Sch W) F
      → Runtime (Agent F Sch W) (Registry Sch W) F
      → Runtime (Agent F Sch W) (Registry Sch W) F
      → Type 0
  HasRun rs rt rt' =
      (rt'.session.id ≡ rs.session_id)
      × (rt'.session.config ≡ rs.config)
      × (rt'.session.budget ≡ rs.budget)
      × (rt'.session.metadata ≡ made rs.metadata)
      × (rt'.conv ≡ rs.conv)
      × (rt'.agent ≡ rs.active_agent)
      × (rt'.agent_id ≡ rs.agent_id)
      × (rt'.tools ≡ rs.tools)
      × (rt'.root_agent ≡ rt.root_agent)
      × (rt'.user_id ≡ rt.user_id)
      × (rt'.generation ≡ rt.generation)

  published-HasRun :
      (rs : RunState (Agent F Sch W) (Registry Sch W) F)
      (rt : Runtime (Agent F Sch W) (Registry Sch W) F)
      → HasRun rs rt (published rs rt)
  unfolding published restore_session restore_budget new_budget_from_snapshot budget_snapshot
  published-HasRun rs rt = (
    refl,
    clone_session_config_id (clone_session_config rs.config) ∙ clone_session_config_id rs.config,
    refl,
    ap copy_metadata (clone_string_map_id rs.metadata) ∙ copy_metadata-made rs.metadata,
    (restore-snapshot rs.conv rt.conv).0,
    refl,
    refl,
    refl,
    refl,
    refl,
    refl,
  )

module _ {F Sch W J E : Type 0} (env : Env F Sch W J E) where
  -- A failed run leaves the runtime as it was; one that has answered has published itself.
  abbrev pub IsAtomic : Runtime (Agent F Sch W) (Registry Sch W) F → Turned env → Type 0
  IsAtomic rt (err f, x) = x.rt ≡ rt
  IsAtomic rt (ok o, x) = HasRun x.run rt x.rt

  Left-IsAtomic :
      (rt : Runtime (Agent F Sch W) (Registry Sch W) F) (r : Turned env)
      → Left env (anything env) rt r
      → IsAtomic rt r
  Left-IsAtomic rt (err f, x) h = h
  Left-IsAtomic rt (ok o, x) (h, k) = subst (HasRun x.run rt) (sym h) (published-HasRun x.run rt)

  -- A run is atomic for the runtime, if its middleware touches the run only through the handler and
  -- no other call changes the runtime in the meantime: whatever the provider, the tools, the stores,
  -- the compactor and the filter answer, a run that fails leaves the runtime as it was, and one that
  -- answers leaves it with the run's session, conversation, agent and tools, with a made map for nil
  -- metadata, and with its own root agent, user and generation.
  pub run-IsAtomic :
      (middleware : List (Middleware F Sch W E)) (max : ℤ) (run_id text : String)
      (rt : Runtime (Agent F Sch W) (Registry Sch W) F) (w : W)
      → All (KeepsAround (λ ms. Unit)) middleware
      → IsAtomic rt (run env middleware max run_id text rt w)
  run-IsAtomic middleware max run_id text rt w a =
      Left-IsAtomic rt _ (run-Left env (anything env) middleware max run_id text rt w a tt)
