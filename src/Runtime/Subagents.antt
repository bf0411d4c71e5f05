-- ===== src/Runtime/Subagents.antt =====
-- agent/subagents.go: which agent may call and transfer to which, and the state after a transfer.
-- `strings.TrimSpace` is a parameter.
pub mod Handover
use kae_agent_public.Base.{
  ℕ, ℤ, pos, String, ◌==◌, List, [], ◌∷◌, ◌++◌, Option, none, some, Slice, nil, of, items, Dict,
  lookup, insert, Result, ok, err, Bool, true, false, not, ◌||◌, ◌&&◌, if◌then◌else◌,
}
use kae_agent_public.Llm.{Message}
use kae_agent_public.Llm.Clone.{clone_message, clone_messages}
use kae_agent_public.Engine.Commands.{clone_string_map}
use kae_agent_public.Streaming.Budget.{
  Floats, BudgetConfig, BudgetSnapshot, new_budget_from_snapshot, snapshot as budget_snapshot,
}
use kae_agent_public.Compaction.Turns.{is_system}
use kae_agent_public.Conversation.{
  ConversationState, Conversation, system_message, messages_of, append_owned,
  new_conversation_from_state, snapshot as conversation_snapshot, restore as restore_conversation,
}
use kae_agent_public.Session.{
  SessionConfig, SessionSnapshot, clone_session_config, snapshot as session_snapshot,
  restore as restore_session,
}
use kae_agent_public.Tools.Registry.{Registry}
use kae_agent_public.Agents.{
  Agent, Resolver, name_of, has_subagent, session_config, tool_registry, active_agent_metadata_key,
}
use kae_agent_public.Runtime.State.{Runtime, RunState, next_generation}
use kae_agent_public.Runtime.Transfer.{TransferInputData, TransferInputFilter}

pub record TransferRequest (F E : Type 0) : Type 0 where
  pub agent_name : String
  pub input : String
  pub context : Slice Message
  pub metadata : Option (Dict String)
  pub filter : Option (TransferInputFilter (SessionSnapshot F) E)

pub data TransferError (E : Type 0) : Type 0 where
  resolver_nil name_required : TransferError E
  subagent_not_found : String → TransferError E
  call_not_allowed transfer_not_allowed : String → String → TransferError E
  filter_failed : E → TransferError E

-- `for k, v := range override { out[k] = v }`
unfoldable pub override_with : Dict String → Dict String → Dict String
override_with [] out = out
override_with ((k, v) ∷ m) out = override_with m (insert k v out)

unfoldable pub merge_string_maps :
    Option (Dict String) → Option (Dict String) → Option (Dict String)
merge_string_maps none none = none
merge_string_maps none (some m) = some (override_with m [])
merge_string_maps (some b) none = some b
merge_string_maps (some b) (some m) = some (override_with m b)

-- `metadata[ActiveAgentMetadataKey] = name`, after a nil map has been replaced by a made one.
unfoldable pub mark_active : String → Option (Dict String) → Option (Dict String)
mark_active name none = some (insert active_agent_metadata_key name [])
mark_active name (some m) = some (insert active_agent_metadata_key name m)

-- The loop of `withAgentSystemPrompt`, which drops the system messages.
unfoldable pub without_system : List Message → List Message
without_system [] = []
without_system (m ∷ ms) =
    if is_system m then without_system ms else clone_message m ∷ without_system ms

unfoldable pub with_agent_system_prompt : (String → String) → Slice Message → String → Slice Message
unfolding without_system
with_agent_system_prompt trim ms prompt =
    if trim prompt == ""
    then of (without_system (items ms))
    else of (system_message prompt ∷ without_system (items ms))

module _ {F : Type 0} (fl : Floats F) where
  -- `rebaseBudgetSnapshot`: the totals stay, the limits and the costs are those of the config.
  unfoldable pub rebase_budget_snapshot :
      BudgetSnapshot F → Option (BudgetConfig F) → BudgetSnapshot F
  rebase_budget_snapshot snap none = record snap {
    max_tokens = pos 0;
    max_cost_usd = fl.of_int (pos 0);
    cost_per_input_token = fl.of_int (pos 0);
    cost_per_output_token = fl.of_int (pos 0);
  }
  rebase_budget_snapshot snap (some cfg) = record snap {
    max_tokens = cfg.max_tokens;
    max_cost_usd = cfg.max_cost_usd;
    cost_per_input_token = cfg.cost_per_input_token;
    cost_per_output_token = cfg.cost_per_output_token;
  }

module _ {F Sch W : Type 0} where
  unfoldable pub resolve_subagent :
      {E : Type 0} → Option (Resolver F Sch W) → String → Result (TransferError E) (Agent F Sch W)
  resolve_subagent none name = err resolver_nil
  resolve_subagent (some get) name =
      if name == ""
      then err name_required
      else (elim (get name) [ none ↦ err (subagent_not_found name) | some a ↦ ok a ])

  unfoldable pub ensure_subagent_allowed_for :
      {E : Type 0} → Option (Agent F Sch W) → String → Option (TransferError E)
  ensure_subagent_allowed_for caller name =
      if name == "" then some name_required else (elim caller [
        | none ↦ none
        | some a ↦ if has_subagent name a then none else some (call_not_allowed (name_of a) name)
      ])

  -- `transferRootNameFor`: the root's name, where the caller is another agent.
  unfoldable pub transfer_root_name_for : Option (Agent F Sch W) → Option (Agent F Sch W) → String
  transfer_root_name_for none root = ""
  transfer_root_name_for (some a) none = ""
  transfer_root_name_for (some a) (some root) =
      if name_of root == "" || name_of a == name_of root then "" else name_of root

  -- The sibling test of `isTransferAllowedFor`.
  unfoldable pub is_sibling : Agent F Sch W → Option (Agent F Sch W) → String → Bool
  is_sibling a none name = false
  is_sibling a (some root) name = not (name_of a == name_of root) && has_subagent name root

  unfoldable pub is_transfer_allowed_for :
      Option (Agent F Sch W) → Option (Agent F Sch W) → String → Bool
  unfolding is_sibling
  is_transfer_allowed_for none root name = true
  is_transfer_allowed_for (some a) root name =
      has_subagent name a
      || is_sibling a root name
      || (transfer_root_name_for (some a) root == name)

  unfoldable pub ensure_transfer_allowed_for :
      {E : Type 0}
      → Option (Agent F Sch W)
      → Option (Agent F Sch W)
      → String
      → Option (TransferError E)
  ensure_transfer_allowed_for caller root name =
      if name == "" then some name_required else (elim caller [
        | none ↦ none
        | some a ↦
            if is_transfer_allowed_for (some a) root name
            then none
            else some (transfer_not_allowed (name_of a) name)
      ])

  unfoldable pub resolve_transfer_agent :
      {E : Type 0}
      → Option (Resolver F Sch W)
      → Option (Agent F Sch W)
      → String
      → Result (TransferError E) (Agent F Sch W)
  resolve_transfer_agent resolver none name = resolve_subagent resolver name
  resolve_transfer_agent resolver (some root) name =
      if name == name_of root then ok root else resolve_subagent resolver name

-- What `resolveTransferStateFrom` gives; the tools are made from the target.
pub record TransferState (F Sch W : Type 0) : Type 0 where
  pub target : Agent F Sch W
  pub session : SessionSnapshot F
  pub conversation : ConversationState

abbrev pub state_of : Slice Message → ConversationState
state_of ms = record { messages = ms; strategy = ""; max_msgs = pos 0; max_chars = pos 0 }

-- The user message that a transfer puts behind the conversation.
unfoldable pub with_input : (String → String) → String → Conversation → Conversation
with_input trim input c =
    if trim input == ""
    then c
    else append_owned
        (record { role = "user"; content = input; name = ""; tool_call_id = ""; tool_calls = nil })
        c

module _ {F E : Type 0} where
  -- `resolveTransferInputFilter`
  abbrev pub filter_or :
      Option (TransferInputFilter (SessionSnapshot F) E)
      → Option (TransferInputFilter (SessionSnapshot F) E)
      → Option (TransferInputFilter (SessionSnapshot F) E)
  filter_or (some f) d = some f
  filter_or none d = d

module _ {F Sch W : Type 0} (trim : String → String) where
  abbrev pub handed_to : Agent F Sch W → SessionSnapshot F → Slice Message → TransferState F Sch W
  handed_to target snap ms = record {
    target = target;
    session = snap;
    conversation =
        state_of (with_agent_system_prompt trim ms (session_config target).system_prompt);
  }

  -- What a transfer in a run makes of the run's state.
  unfoldable pub taken_over :
      String
      → TransferState F Sch W
      → RunState (Agent F Sch W) (Registry Sch W) F
      → RunState (Agent F Sch W) (Registry Sch W) F
  taken_over input t rs = record rs {
    config = clone_session_config t.session.config;
    metadata = clone_string_map t.session.metadata;
    budget = new_budget_from_snapshot t.session.budget;
    conv = with_input trim input (new_conversation_from_state t.conversation);
    active_agent = some t.target;
    agent_id = name_of t.target;
    tools = tool_registry trim t.target;
  }

module _ {F Sch W E : Type 0} (fl : Floats F) where
  -- The session of the target, before the filter.
  unfoldable pub target_session :
      Agent F Sch W → SessionSnapshot F → TransferRequest F E → SessionSnapshot F
  target_session target snap req =
      let config = session_config target in
      record {
        id = snap.id;
        config = config;
        budget = rebase_budget_snapshot fl snap.budget config.budget_config;
        metadata = mark_active req.agent_name (merge_string_maps snap.metadata req.metadata);
      }

module _ {F Sch W E : Type 0} (trim : String → String) where
  -- What the filter's answer makes of it.
  unfoldable pub after_filter :
      Agent F Sch W
      → String
      → SessionSnapshot F
      → TransferInputData (SessionSnapshot F) × Option E
      → Result (TransferError E) (TransferState F Sch W)
  after_filter target name snap (data', some e) = err (filter_failed e)
  after_filter target name snap (data', none) = ok (
      handed_to trim target
        (record snap {
          metadata = mark_active name (merge_string_maps snap.metadata data'.metadata);
        })
        (clone_messages data'.messages))

  -- The part of `resolveTransferStateFrom` that finds the messages: the request's context, or the
  -- filtered ones, or those of the conversation.
  unfoldable pub hand_over :
      Agent F Sch W
      → SessionSnapshot F
      → Slice Message
      → TransferRequest F E
      → Option (TransferInputFilter (SessionSnapshot F) E)
      → Slice Message
      → Result (TransferError E) (TransferState F Sch W)
  unfolding after_filter
  hand_over target snap ms req filter (of context) =
      ok (handed_to trim target snap (clone_messages (of context)))
  hand_over target snap ms req none nil = ok (handed_to trim target snap (clone_messages ms))
  hand_over target snap ms req (some filter) nil = after_filter target req.agent_name snap (
      filter (record {
        session = snap;
        messages = clone_messages ms;
        input = req.input;
        metadata = clone_string_map snap.metadata;
      }))

module _ {F Sch W E : Type 0} (fl : Floats F) (trim : String → String) where
  -- `resolveTransferStateFrom`
  unfoldable pub resolve_transfer_state_from :
      Option (Agent F Sch W)
      → SessionSnapshot F
      → Slice Message
      → TransferRequest F E
      → Option (Resolver F Sch W)
      → Option (Agent F Sch W)
      → Option (TransferInputFilter (SessionSnapshot F) E)
      → Result (TransferError E) (TransferState F Sch W)
  resolve_transfer_state_from caller snap ms req resolver root filter =
      elim (ensure_transfer_allowed_for {E = E} caller root req.agent_name) [
        | some e ↦ err e
        | none ↦ elim (resolve_transfer_agent {E = E} resolver root req.agent_name) [
          | err e ↦ err e
          | ok target ↦
              hand_over trim target (target_session fl target snap req) ms req filter req.context
        ]
      ]

  -- agent/runtime_subagent.go, `applyTransfer`
  unfoldable pub apply_transfer :
      Option (Resolver F Sch W)
      → Option (TransferInputFilter (SessionSnapshot F) E)
      → TransferRequest F E
      → RunState (Agent F Sch W) (Registry Sch W) F
      → Result (TransferError E) (RunState (Agent F Sch W) (Registry Sch W) F)
  apply_transfer resolver default req rs =
      elim (resolve_transfer_state_from rs.active_agent
        (record {
          id = rs.session_id;
          config = clone_session_config rs.config;
          budget = budget_snapshot rs.budget;
          metadata = clone_string_map rs.metadata;
        })
        (messages_of rs.conv) req resolver rs.root_agent (filter_or req.filter default)) [
          | err e ↦ err e
          | ok t ↦ ok (taken_over trim req.input t rs)
        ]

  -- `Runtime.ApplyTransfer`
  unfoldable pub apply_transfer_to_runtime :
      Option (Resolver F Sch W)
      → Option (TransferInputFilter (SessionSnapshot F) E)
      → TransferRequest F E
      → Runtime (Agent F Sch W) (Registry Sch W) F
      → Result (TransferError E) (Runtime (Agent F Sch W) (Registry Sch W) F)
  apply_transfer_to_runtime resolver default req r =
      elim (resolve_transfer_state_from r.agent (session_snapshot r.session)
        (conversation_snapshot r.conv).messages req resolver r.root_agent
        (filter_or req.filter default)) [
          | err e ↦ err e
          | ok t ↦ ok (record r {
            generation = next_generation r.generation;
            agent = some t.target;
            agent_id = name_of t.target;
            session = restore_session t.session r.session;
            conv = restore_conversation t.conversation r.conv;
            tools = tool_registry trim t.target;
          })
        ]
