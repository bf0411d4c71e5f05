-- ===== src/Runtime/Subagents/Handover.antt =====
-- agent/runtime_subagent.go, `applyTransfer`: what a run is after a transfer.
use kae_agent_public.Base.{
  String, List, [], ◌∷◌, Option, none, some, Slice, nil, of, items, items-append, Dict,
  lookup-insert, Result, ok, err, ◌==◌, ◌≡◌, refl, ◌∙◌, ap, Option-cases, Result-cases, Bool-cases,
  subst, sym, pos, inl, inr, All,
}
use kae_agent_public.Llm.{Message}
use kae_agent_public.Llm.Clone.{clone_messages, clone_message_id, clone_messages_id}
use kae_agent_public.Engine.Commands.{clone_string_map}
use kae_agent_public.Streaming.Budget.{
  Floats, Budget, BudgetConfig, BudgetSnapshot, new_budget_from_snapshot,
  snapshot as budget_snapshot,
}
use kae_agent_public.Conversation.{
  Conversation, append_owned, new_conversation_from_state, messages_of,
}
use kae_agent_public.Conversation.System.{IsOther, Led, Led-append}
use kae_agent_public.Session.{SessionSnapshot, clone_session_config}
use kae_agent_public.Session.Stored.{clone_session_config_id, clone_string_map_id}
use kae_agent_public.Tools.Registry.{Registry}
use kae_agent_public.Agents.{
  Agent, Resolver, session_config, name_of, tool_registry, meta_value, active_agent_metadata_key,
}
use kae_agent_public.Runtime.State.{RunState}
use kae_agent_public.Runtime.Transfer.{TransferInputData, TransferInputFilter}
use kae_agent_public.Runtime.Subagents.{
  TransferRequest, TransferError, TransferState, mark_active, without_system,
  with_agent_system_prompt, rebase_budget_snapshot, with_input, target_session, after_filter,
  hand_over, resolve_transfer_state_from, resolve_transfer_agent, ensure_transfer_allowed_for,
  filter_or, taken_over, apply_transfer,
}

marked :
    (name : String) (m : Option (Dict String))
    → meta_value active_agent_metadata_key (mark_active name m) ≡ name
unfolding mark_active
marked name none = refl
marked name (some m) = rw (lookup-insert active_agent_metadata_key active_agent_metadata_key name m)

without_system-All : (ms : List Message) → All IsOther (without_system ms)
unfolding without_system
without_system-All [] = tt
without_system-All (m ∷ ms) = elim (Bool-cases (m.role == "system")) [
  | inl p ↦ rw p (without_system-All ms)
  | inr p ↦ rw (p, clone_message_id) (p, without_system-All ms)
]

Others-Led : (ms : List Message) → All IsOther ms → Led ms
Others-Led [] h = tt
Others-Led (m ∷ ms) (a, h) = h

prompt-Led :
    (trim : String → String) (ms : Slice Message) (prompt : String)
    → Led (items (with_agent_system_prompt trim ms prompt))
unfolding with_agent_system_prompt
prompt-Led trim ms prompt = elim (Bool-cases (trim prompt == "")) [
  | inl p ↦ rw p (Others-Led (without_system (items ms)) (without_system-All (items ms)))
  | inr p ↦ rw p (without_system-All (items ms))
]

with_input-Led :
    (trim : String → String) (input : String) (c : Conversation)
    → Led (items c.messages)
    → Led (items (with_input trim input c).messages)
unfolding with_input append_owned
with_input-Led trim input c h = elim (Bool-cases (trim input == "")) [
  | inl p ↦ rw p h
  | inr p ↦
      rw (p, items-append)
        (Led-append (items c.messages)
          (record { role = "user"; content = input; name = ""; tool_call_id = ""; tool_calls = nil }
            ∷ [])
          h (refl, tt))
]

module _ {F Sch W : Type 0} (fl : Floats F) where
  -- What a transfer hands to the target.
  abbrev pub Handed : Agent F Sch W → BudgetSnapshot F → String → TransferState F Sch W → Type 0
  Handed target budget name t =
      (t.target ≡ target)
      × (t.session.config ≡ session_config target)
      × (t.session.budget ≡ rebase_budget_snapshot fl budget (session_config target).budget_config)
      × (meta_value active_agent_metadata_key t.session.metadata ≡ name)
      × Led (items t.conversation.messages)

module _ {F Sch W E : Type 0} (fl : Floats F) where
  abbrev AllHanded :
      Agent F Sch W
      → BudgetSnapshot F
      → String
      → Result (TransferError E) (TransferState F Sch W)
      → Type 0
  AllHanded target budget name (err e) = Unit
  AllHanded target budget name (ok t) = Handed fl target budget name t

module _ {F Sch W E : Type 0} (fl : Floats F) (trim : String → String) where
  after_filter-Handed :
      (target : Agent F Sch W) (snap : SessionSnapshot F) (req : TransferRequest F E)
      (x : TransferInputData (SessionSnapshot F) × Option E)
      → AllHanded {E = E} fl target snap.budget req.agent_name
          (after_filter trim target req.agent_name (target_session fl target snap req) x)
  unfolding after_filter target_session
  after_filter-Handed target snap req (data', some e) = tt
  after_filter-Handed target snap req (data', none) = (
    refl,
    refl,
    refl,
    marked req.agent_name _,
    prompt-Led trim (clone_messages data'.messages) (session_config target).system_prompt,
  )

  hand_over-Handed :
      (target : Agent F Sch W) (snap : SessionSnapshot F) (ms : Slice Message)
      (req : TransferRequest F E) (filter : Option (TransferInputFilter (SessionSnapshot F) E))
      (context : Slice Message)
      → AllHanded {E = E} fl target snap.budget req.agent_name
          (hand_over trim target (target_session fl target snap req) ms req filter context)
  unfolding hand_over
  hand_over-Handed target snap ms req filter (of context) = (
    refl,
    unfold target_session in refl,
    unfold target_session in refl,
    unfold target_session in marked req.agent_name _,
    prompt-Led trim (clone_messages (of context)) (session_config target).system_prompt,
  )
  hand_over-Handed target snap ms req none nil = (
    refl,
    unfold target_session in refl,
    unfold target_session in refl,
    unfold target_session in marked req.agent_name _,
    prompt-Led trim (clone_messages ms) (session_config target).system_prompt,
  )
  hand_over-Handed target snap ms req (some filter) nil =
      after_filter-Handed target snap req (filter _)

module _ {F : Type 0} (fl : Floats F) where
  -- The limits and prices of a budget: those of the config, or none at all.
  abbrev pub IsLimited : Option (BudgetConfig F) → Budget F → Type 0
  IsLimited none b =
      (b.max_tokens ≡ pos 0)
      × (b.max_cost_usd ≡ fl.of_int (pos 0))
      × (b.cost_per_input_token ≡ fl.of_int (pos 0))
      × (b.cost_per_output_token ≡ fl.of_int (pos 0))
  IsLimited (some cfg) b =
      (b.max_tokens ≡ cfg.max_tokens)
      × (b.max_cost_usd ≡ cfg.max_cost_usd)
      × (b.cost_per_input_token ≡ cfg.cost_per_input_token)
      × (b.cost_per_output_token ≡ cfg.cost_per_output_token)

  -- What was spent before is spent after, under the limits of the config.
  abbrev pub Rebased : Option (BudgetConfig F) → Budget F → Budget F → Type 0
  Rebased config b b' =
      (b'.total_input ≡ b.total_input)
      × (b'.total_output ≡ b.total_output)
      × (b'.total_cost_usd ≡ b.total_cost_usd)
      × IsLimited config b'

  rebase-Rebased :
      (config : Option (BudgetConfig F)) (b : Budget F)
      → Rebased config b
          (new_budget_from_snapshot (rebase_budget_snapshot fl (budget_snapshot b) config))
  unfolding new_budget_from_snapshot rebase_budget_snapshot budget_snapshot
  rebase-Rebased none b = (refl, refl, refl, (refl, refl, refl, refl))
  rebase-Rebased (some cfg) b = (refl, refl, refl, (refl, refl, refl, refl))

module _ {F Sch W : Type 0} (fl : Floats F) (trim : String → String) where
  -- The run after the transfer that found the target.
  abbrev pub TakenOver :
      Agent F Sch W
      → String
      → RunState (Agent F Sch W) (Registry Sch W) F
      → RunState (Agent F Sch W) (Registry Sch W) F
      → Type 0
  TakenOver target name rs rs' =
      (rs'.active_agent ≡ some target)
      × (rs'.agent_id ≡ name_of target)
      × (rs'.config ≡ session_config target)
      × (rs'.tools ≡ tool_registry trim target)
      × Rebased fl (session_config target).budget_config rs.budget rs'.budget
      × (meta_value active_agent_metadata_key rs'.metadata ≡ name)
      × Led (items rs'.conv.messages)

  taken_over-TakenOver :
      (target : Agent F Sch W) (name input : String)
      (rs : RunState (Agent F Sch W) (Registry Sch W) F) (t : TransferState F Sch W)
      → Handed fl target (budget_snapshot rs.budget) name t
      → TakenOver target name rs (taken_over trim input t rs)
  unfolding taken_over new_conversation_from_state
  taken_over-TakenOver target name input rs t (a, b, c, d, e) = (
    ap some a,
    ap name_of a,
    clone_session_config_id t.session.config ∙ b,
    ap (tool_registry trim) a,
    subst (Rebased fl (session_config target).budget_config rs.budget)
        (sym (ap new_budget_from_snapshot c))
        (rebase-Rebased fl (session_config target).budget_config rs.budget),
    rw clone_string_map_id d,
    with_input-Led trim input (new_conversation_from_state t.conversation) (rw clone_messages_id e),
  )

module _ {F Sch W : Type 0} where
  -- The target is an agent that the caller may go to.
  abbrev pub MayReach :
      (E : Type 0)
      → Option (Resolver F Sch W)
      → Option (Agent F Sch W)
      → Option (Agent F Sch W)
      → String
      → Agent F Sch W
      → Type 0
  MayReach E resolver caller root name target =
      (resolve_transfer_agent {E = E} resolver root name ≡ ok target)
      × (ensure_transfer_allowed_for {E = E} caller root name ≡ none)

module _ {F Sch W E : Type 0} (fl : Floats F) (trim : String → String) where
  abbrev Found :
      Option (Resolver F Sch W)
      → Option (Agent F Sch W)
      → Option (Agent F Sch W)
      → String
      → BudgetSnapshot F
      → Result (TransferError E) (TransferState F Sch W)
      → Type 0
  Found resolver caller root name budget (err e) = Unit
  Found resolver caller root name budget (ok t) =
      (target : Agent F Sch W) × MayReach E resolver caller root name target
      × Handed fl target budget name t

  Found-of :
      (resolver : Option (Resolver F Sch W)) (caller root : Option (Agent F Sch W)) (name : String)
      (budget : BudgetSnapshot F) (target : Agent F Sch W)
      (r : Result (TransferError E) (TransferState F Sch W))
      → MayReach E resolver caller root name target
      → AllHanded {E = E} fl target budget name r
      → Found resolver caller root name budget r
  Found-of resolver caller root name budget target (err e) m h = tt
  Found-of resolver caller root name budget target (ok t) m h = (target, m, h)

  resolve-Found :
      (resolver : Option (Resolver F Sch W)) (caller root : Option (Agent F Sch W))
      (snap : SessionSnapshot F) (ms : Slice Message) (req : TransferRequest F E)
      (filter : Option (TransferInputFilter (SessionSnapshot F) E))
      → Found resolver caller root req.agent_name snap.budget
          (resolve_transfer_state_from fl trim caller snap ms req resolver root filter)
  unfolding resolve_transfer_state_from
  resolve-Found resolver caller root snap ms req filter =
      elim (Option-cases (ensure_transfer_allowed_for {E = E} caller root req.agent_name)) [
        | inr (e, p) ↦ rw (p, resolve_transfer_state_from) tt
        | inl p ↦
            elim (Result-cases (resolve_transfer_agent {E = E} resolver root req.agent_name)) [
              | inr (e, q) ↦ rw (p, q, resolve_transfer_state_from) tt
              | inl (target, q) ↦
                  rw (p, q, resolve_transfer_state_from)
                    (Found-of resolver caller root req.agent_name snap.budget target _ (q, p)
                      (hand_over-Handed fl trim target snap ms req filter req.context))
            ]
      ]

  -- A transfer that is granted has found its target among the agents that the caller may go to.
  abbrev Granted :
      Option (Resolver F Sch W)
      → String
      → RunState (Agent F Sch W) (Registry Sch W) F
      → Result (TransferError E) (RunState (Agent F Sch W) (Registry Sch W) F)
      → Type 0
  Granted resolver name rs (err e) = Unit
  Granted resolver name rs (ok rs') =
      (target : Agent F Sch W) × MayReach E resolver rs.active_agent rs.root_agent name target
      × TakenOver fl trim target name rs rs'

  granted :
      (resolver : Option (Resolver F Sch W))
      (default : Option (TransferInputFilter (SessionSnapshot F) E)) (req : TransferRequest F E)
      (rs : RunState (Agent F Sch W) (Registry Sch W) F)
      → Granted resolver req.agent_name rs (apply_transfer fl trim resolver default req rs)
  unfolding apply_transfer
  granted resolver default req rs =
      let snap : SessionSnapshot F = record {
        id = rs.session_id;
        config = clone_session_config rs.config;
        budget = budget_snapshot rs.budget;
        metadata = clone_string_map rs.metadata;
      } in
      let found =
        resolve-Found resolver rs.active_agent rs.root_agent snap (messages_of rs.conv) req
          (filter_or req.filter default) in
      elim (Result-cases (
        resolve_transfer_state_from fl trim rs.active_agent snap (messages_of rs.conv) req resolver
          rs.root_agent (filter_or req.filter default))) [
            | inr (e, r) ↦ rw (r, apply_transfer) tt
            | inl (t, r) ↦
                let (target, reach, handed) = rw r at found in
                rw (r, apply_transfer)
                  (
                    target,
                    reach,
                    taken_over-TakenOver fl trim target req.agent_name req.input rs t handed,
                  )
          ]

  -- A transfer in a run that succeeds has found, by the requested name, an agent that the active agent
  -- may transfer to. The run then has that agent, its name, its configuration and its tools; its budget
  -- has the tokens and the cost spent so far, and the new agent's limits and prices, or zero for each
  -- where that agent has no budget config; and it has the name as the active agent in the metadata, and a
  -- conversation with no system message behind the first message.
  pub apply_transfer-TakenOver :
      (resolver : Option (Resolver F Sch W))
      (default : Option (TransferInputFilter (SessionSnapshot F) E)) (req : TransferRequest F E)
      (rs rs' : RunState (Agent F Sch W) (Registry Sch W) F)
      → apply_transfer fl trim resolver default req rs ≡ ok rs'
      → (target : Agent F Sch W) × MayReach E resolver rs.active_agent rs.root_agent req.agent_name
          target
        × TakenOver fl trim target req.agent_name rs rs'
  apply_transfer-TakenOver resolver default req rs rs' h =
      subst (Granted resolver req.agent_name rs) h (granted resolver default req rs)
