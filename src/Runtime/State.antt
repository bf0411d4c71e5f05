-- ===== src/Runtime/State.antt =====
-- agent/runtime_state.go: the state of a runtime, the copy that a run works on, and its publication.
-- `NewRuntime` sets the session and the conversation, and nothing makes them nil again. An agent
-- definition `A` and a tool registry `T` are pointers that are only handed on. Each operation holds the
-- mutex and is one step.
pub mod Stale
use kae_agent_public.Base.{
  ℕ, suc, Bool, true, false, ◌+◌, ◌%◌, ◌^◌, eqb, String, Option, none, some, Slice, Dict,
  if◌then◌else◌,
}
use kae_agent_public.Llm.{Message}
use kae_agent_public.Engine.Commands.{clone_string_map}
use kae_agent_public.Streaming.Budget.{
  Budget, new_budget_from_snapshot, snapshot as budget_snapshot,
}
use kae_agent_public.Conversation.{
  Conversation, ConversationState, append_message, append_all, clear, set_system,
  snapshot as conversation_snapshot, restore as restore_conversation, new_conversation_from_state,
}
use kae_agent_public.Session.{
  SessionConfig, Session, SessionSnapshot, clone_session_config, set_meta,
  snapshot as session_snapshot, restore as restore_session, new_session_from_snapshot,
}

-- The fields of `Runtime` that change; the others are fixed by `NewRuntime`. The dispatcher is made
-- from the tools.
pub record Runtime (A T F : Type 0) : Type 0 where
  pub generation : ℕ
  pub agent : Option A
  pub root_agent : Option A
  pub session : Session F
  pub conv : Conversation
  pub tools : T
  pub user_id : String
  pub agent_id : String

pub record RunState (A T F : Type 0) : Type 0 where
  pub generation : ℕ
  pub session_id : String
  pub run_id : String
  pub config : SessionConfig F
  pub metadata : Option (Dict String)
  pub budget : Budget F
  pub conv : Conversation
  pub user_id : String
  pub agent_id : String
  pub active_agent : Option A
  pub root_agent : Option A
  pub tools : T

-- `generation++` on a uint64.
abbrev pub next_generation : ℕ → ℕ
next_generation n = suc n % 2 ^ 64

module _ {A T F : Type 0} where
  -- `captureRunState`, with the random id of the run as an argument. The source copies the session and
  -- the conversation after it has released the lock of the runtime; here it is one step.
  unfoldable pub capture_run_state : String → Runtime A T F → RunState A T F
  capture_run_state run_id r =
      let snap = session_snapshot r.session in
      record {
        generation = r.generation;
        session_id = snap.id;
        run_id = run_id;
        config = clone_session_config snap.config;
        metadata = clone_string_map snap.metadata;
        budget = new_budget_from_snapshot snap.budget;
        conv = new_conversation_from_state (conversation_snapshot r.conv);
        user_id = r.user_id;
        agent_id = r.agent_id;
        active_agent = r.agent;
        root_agent = r.root_agent;
        tools = r.tools;
      }

  -- `publishRunState` behind its test.
  unfoldable pub published : RunState A T F → Runtime A T F → Runtime A T F
  published rs r = record r {
    session =
        restore_session
          (record {
            id = rs.session_id;
            config = clone_session_config rs.config;
            budget = budget_snapshot rs.budget;
            metadata = clone_string_map rs.metadata;
          })
          r.session;
    conv = restore_conversation (conversation_snapshot rs.conv) r.conv;
    agent = rs.active_agent;
    agent_id = rs.agent_id;
    tools = rs.tools;
  }

  -- `publishRunState`
  unfoldable pub publish_run_state : RunState A T F → Runtime A T F → Runtime A T F
  unfolding published
  publish_run_state rs r = if eqb r.generation rs.generation then published rs r else r

  unfoldable pub append_conversation_message : Message → Runtime A T F → Runtime A T F
  append_conversation_message msg r = record r {
    generation = next_generation r.generation;
    conv = append_message msg r.conv;
  }

  unfoldable pub append_conversation_messages : Slice Message → Runtime A T F → Runtime A T F
  append_conversation_messages msgs r = record r {
    generation = next_generation r.generation;
    conv = append_all msgs r.conv;
  }

  unfoldable pub clear_conversation : Runtime A T F → Runtime A T F
  clear_conversation r = record r { generation = next_generation r.generation; conv = clear r.conv }

  unfoldable pub set_conversation_system : String → Runtime A T F → Runtime A T F
  set_conversation_system content r = record r {
    generation = next_generation r.generation;
    conv = set_system content r.conv;
  }

  -- `SetSessionMetadata`, and whether it returns: false is the panic of `SetMeta`, which comes after
  -- the generation has been raised.
  unfoldable pub set_session_metadata : String → String → Runtime A T F → Bool × Runtime A T F
  set_session_metadata key value r = elim (set_meta key value r.session) [
    | none ↦ (false, record r { generation = next_generation r.generation })
    | some s ↦ (true, record r { generation = next_generation r.generation; session = s })
  ]

  unfoldable pub load_state : SessionSnapshot F → ConversationState → Runtime A T F → Runtime A T F
  load_state snap conv r = record r {
    generation = next_generation r.generation;
    session = new_session_from_snapshot snap;
    conv = new_conversation_from_state conv;
  }
