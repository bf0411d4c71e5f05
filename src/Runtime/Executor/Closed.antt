-- ===== src/Runtime/Executor/Closed.antt =====
-- A property of message lists that the parts of a run keep, and the plans that then keep it.
use kae_agent_public.Base.{
  ℕ, ℤ, String, List, [], ◌∷◌, ◌++◌, ◌==◌, Option, none, some, Dict, Slice, nil, items,
  items-append, Result, ok, err, ◌≡◌, refl, Option-cases, Result-cases, Bool-cases, inl, inr,
}
use kae_agent_public.Llm.{Message, ToolCall}
use kae_agent_public.Llm.Value.{text}
use kae_agent_public.Llm.Clone.{clone_messages, clone_messages_id}
use kae_agent_public.Engine.Commands.{
  clone_string_map, assistant_message, assistant_tool_call_message,
}
use kae_agent_public.Compaction.{Input, Output as Compacted}
use kae_agent_public.Conversation.{
  Conversation, messages_of, append_owned, new_conversation_from_state,
}
use kae_agent_public.Streaming.Budget.{snapshot as budget_snapshot}
use kae_agent_public.Session.{SessionSnapshot, clone_session_config}
use kae_agent_public.Tools.Registry.{Registry}
use kae_agent_public.Agents.{Agent, session_config}
use kae_agent_public.Runtime.State.{RunState}
use kae_agent_public.Runtime.Request.{Compactor}
use kae_agent_public.Runtime.Transfer.{TransferInputData, TransferInputFilter}
use kae_agent_public.Runtime.Subagents.{
  TransferRequest, TransferError, TransferState, with_agent_system_prompt, with_input, hand_over,
  after_filter, target_session, resolve_transfer_state_from, resolve_transfer_agent,
  ensure_transfer_allowed_for, taken_over, apply_transfer,
}
use kae_agent_public.Runtime.Executor.{Env}
use kae_agent_public.Runtime.Executor.Rule.{tool_messages}

abbrev pub user_message : String → Message
user_message content = record {
  role = "user";
  content = content;
  name = "";
  tool_call_id = "";
  tool_calls = nil;
}

-- The request of a tool call, which has no context and no filter of its own.
abbrev pub asked : {F E : Type 0} → String → String → Option (Dict String) → TransferRequest F E
asked name input metadata = record {
  agent_name = name;
  input = input;
  context = nil;
  metadata = metadata;
  filter = none;
}

-- The property is kept by what a run does to its messages.
pub record Closed {F Sch W J E : Type 0} (env : Env F Sch W J E) (I : List Message → Type 0)
    : Type 0 where
  pub user_kept :
      (ms : List Message) (content : String) → I ms → I (ms ++ user_message content ∷ [])
  pub final_kept :
      (ms : List Message) (content : String) → I ms → I (ms ++ assistant_message content ∷ [])
  pub tools_kept :
      (ms : List Message) (content : String) (i : ℤ) (cs : Slice ToolCall) (calls : List ToolCall)
      (rs : RunState (Agent F Sch W) (Registry Sch W) F) (w : W)
      → items cs ≡ calls
      → I ms
      → I (
          ms
          ++ assistant_tool_call_message content calls
            ∷ tool_messages env (env.run_tools i cs rs w).0)
  pub acknowledged_kept :
      (ms : List Message) (content : String) (c : ToolCall) (acknowledgment : String)
      → I ms
      → I (
          ms
          ++ assistant_tool_call_message content (c ∷ [])
            ∷ tool_messages env (
                record {
                  call_id = c.id;
                  name = c.name;
                  content = text acknowledgment;
                  error = none;
                }
                ∷ []))
  pub prompt_kept :
      (ms : Slice Message) (prompt : String)
      → I (items ms)
      → I (items (with_agent_system_prompt env.trim ms prompt))
  pub filter_kept :
      (f : TransferInputFilter (SessionSnapshot F) E)
      → env.transfer_filter ≡ some f
      → (d : TransferInputData (SessionSnapshot F)) → I (items d.messages)
      → I (items (f d).0.messages)
  pub compact_kept :
      (k : Compactor)
      → env.limits.compactor ≡ some k
      → (input : Input) (out : Compacted) → k.compact input ≡ ok out
      → I (items input.messages)
      → I (items out.messages)
  pub force_kept :
      (k : Compactor)
      → env.limits.compactor ≡ some k
      → (input : Input) (out : Compacted) → k.force_compact input ≡ ok out
      → I (items input.messages)
      → I (items out.messages)

module _ {F Sch W J E : Type 0} (env : Env F Sch W J E) {I : List Message → Type 0}
    (closed : Closed env I) where
  -- Of the result of a transfer.
  abbrev StateKept : Result (TransferError E) (TransferState F Sch W) → Type 0
  StateKept (err e) = Unit
  StateKept (ok t) = I (items t.conversation.messages)

  handed_kept :
      (ms : Slice Message) (prompt : String)
      → I (items ms)
      → I (items (with_agent_system_prompt env.trim (clone_messages ms) prompt))
  handed_kept ms prompt h = closed.prompt_kept (clone_messages ms) prompt (rw clone_messages_id h)

  after_filter-StateKept :
      (target : Agent F Sch W) (name : String) (snap : SessionSnapshot F)
      (x : TransferInputData (SessionSnapshot F) × Option E)
      → I (items x.0.messages)
      → StateKept (after_filter env.trim target name snap x)
  unfolding after_filter
  after_filter-StateKept target name snap (data', some e) h = tt
  after_filter-StateKept target name snap (data', none) h =
      handed_kept data'.messages (session_config target).system_prompt h

  hand_over-StateKept :
      (target : Agent F Sch W) (snap : SessionSnapshot F) (ms : Slice Message)
      (req : TransferRequest F E) (filter : Option (TransferInputFilter (SessionSnapshot F) E))
      → env.transfer_filter ≡ filter
      → I (items ms)
      → StateKept (hand_over env.trim target snap ms req filter nil)
  unfolding hand_over
  hand_over-StateKept target snap ms req none p h =
      handed_kept ms (session_config target).system_prompt h
  hand_over-StateKept target snap ms req (some f) p h =
      after_filter-StateKept target req.agent_name snap (f _)
        (closed.filter_kept f p _ (rw clone_messages_id h))

  resolve-StateKept :
      (caller root : Option (Agent F Sch W)) (snap : SessionSnapshot F) (ms : Slice Message)
      (name input : String) (metadata : Option (Dict String))
      → I (items ms)
      → StateKept (
          resolve_transfer_state_from env.floats env.trim caller snap ms
            (asked name input metadata)
            env.resolver
            root
            env.transfer_filter)
  unfolding resolve_transfer_state_from
  resolve-StateKept caller root snap ms name input metadata h =
      let req : TransferRequest F E = asked name input metadata in
      elim (Option-cases (ensure_transfer_allowed_for {E = E} caller root name)) [
        | inr (e, p) ↦ rw (p, resolve_transfer_state_from) tt
        | inl p ↦ elim (Result-cases (resolve_transfer_agent {E = E} env.resolver root name)) [
          | inr (e, q) ↦ rw (p, q, resolve_transfer_state_from) tt
          | inl (target, q) ↦
              rw (p, q, resolve_transfer_state_from)
                (hand_over-StateKept target (target_session env.floats target snap req) ms req
                  env.transfer_filter refl h)
        ]
      ]

  with_input_kept :
      (input : String) (c : Conversation)
      → I (items c.messages)
      → I (items (with_input env.trim input c).messages)
  unfolding with_input append_owned
  with_input_kept input c h = elim (Bool-cases (env.trim input == "")) [
    | inl p ↦ rw p h
    | inr p ↦ rw (p, items-append) (closed.user_kept (items c.messages) input h)
  ]

  abbrev RunKept :
      ℕ → Result (TransferError E) (RunState (Agent F Sch W) (Registry Sch W) F) → Type 0
  RunKept n (err e) = Unit
  RunKept n (ok rs) = I (items rs.conv.messages) × (rs.generation ≡ n)

  -- A transfer that a tool call asks for, which has no context and no filter of its own.
  pub apply_transfer-RunKept :
      (name input : String) (metadata : Option (Dict String))
      (rs : RunState (Agent F Sch W) (Registry Sch W) F)
      → I (items rs.conv.messages)
      → RunKept rs.generation (
          apply_transfer env.floats env.trim env.resolver env.transfer_filter
            (asked name input metadata)
            rs)
  unfolding apply_transfer taken_over new_conversation_from_state
  apply_transfer-RunKept name input metadata rs h =
      let snap : SessionSnapshot F = record {
        id = rs.session_id;
        config = clone_session_config rs.config;
        budget = budget_snapshot rs.budget;
        metadata = clone_string_map rs.metadata;
      } in
      let k =
        resolve-StateKept rs.active_agent rs.root_agent snap (messages_of rs.conv) name input
          metadata (unfold messages_of in rw clone_messages_id h) in
      elim (Result-cases (
        resolve_transfer_state_from env.floats env.trim rs.active_agent snap (messages_of rs.conv)
          (asked name input metadata) env.resolver rs.root_agent env.transfer_filter)) [
            | inr (e, r) ↦ rw (r, apply_transfer) tt
            | inl (t, r) ↦
                rw (r, apply_transfer)
                  (
                    with_input_kept input (new_conversation_from_state t.conversation)
                        (rw clone_messages_id (rw r at k)),
                    refl,
                  )
          ]
