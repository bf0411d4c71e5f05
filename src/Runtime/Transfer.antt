-- ===== src/Runtime/Transfer.antt =====
-- agent/transfer_input.go: the filters of what a transfer hands to the next agent. The session snapshot
-- is a parameter with its copy.
pub mod Windows
use kae_agent_public.Base.{
  ℕ, ℤ, pos, pos_part, ltb, leb_ℤ, String, List, [], ◌∷◌, ◌++◌, Option, none, some, Slice, nil, of,
  items, Dict, Result, ok, err, Bool, true, false, length, last_n, is_empty, not, ◌==◌, ◌||◌,
  if◌then◌else◌,
}
use kae_agent_public.Llm.{Message}
use kae_agent_public.Llm.Clone.{clone_message, clone_messages}
use kae_agent_public.Engine.Commands.{clone_string_map}
use kae_agent_public.Compaction.Turns.{is_system}

pub record TransferInputData (P : Type 0) : Type 0 where
  pub session : P
  pub messages : Slice Message
  pub input : String
  pub metadata : Option (Dict String)

-- A filter; an error comes with the data that the filter returned beside it.
abbrev pub TransferInputFilter : Type 0 → Type 0 → Type 0
TransferInputFilter P E = TransferInputData P → TransferInputData P × Option E

-- `msg.Role == "tool"`, or the message makes or answers a tool call.
unfoldable pub is_tool_message : Message → Bool
is_tool_message m =
    if m.role == "tool"
    then true
    else not (is_empty (items m.tool_calls)) || not (m.tool_call_id == "")

-- The loop of `RemoveToolTransferInput`.
unfoldable pub remove_tool_messages : List Message → List Message
unfolding is_tool_message
remove_tool_messages [] = []
remove_tool_messages (m ∷ ms) =
    if is_tool_message m then remove_tool_messages ms else clone_message m ∷ remove_tool_messages ms

-- The loop of `RecentWindowTransferInput` for a window that is not positive.
unfoldable pub system_messages : List Message → List Message
system_messages [] = []
system_messages (m ∷ ms) =
    if is_system m then clone_message m ∷ system_messages ms else system_messages ms

-- The loop for a positive window, which gives the system messages and the others.
unfoldable pub part : List Message → List Message × List Message
part [] = ([], [])
part (m ∷ ms) =
    let (system, other) = part ms in
    if is_system m then (clone_message m ∷ system, other) else (system, clone_message m ∷ other)

unfoldable pub recent_messages : ℤ → List Message → List Message
unfolding system_messages part
recent_messages n ms =
    if leb_ℤ n (pos 0)
    then system_messages ms
    else (let (system, other) = part ms in
        system ++ (if ltb (pos_part n) (length other) then last_n (pos_part n) other else other))

module _ {P E : Type 0} where
  -- `ComposeTransferInput`: nil filters are skipped, and the first error ends the chain.
  unfoldable pub compose_transfer_input :
      List (Option (TransferInputFilter P E)) → TransferInputFilter P E
  compose_transfer_input [] data' = (data', none)
  compose_transfer_input (none ∷ fs) data' = compose_transfer_input fs data'
  compose_transfer_input (some f ∷ fs) data' =
      let (current, e) = f data' in
      let rest = compose_transfer_input fs current in
      elim e [ some x ↦ (current, some x) | none ↦ rest ]

module _ {P E : Type 0} (clone_session : P → P) where
  unfoldable pub pass_through_transfer_input : TransferInputFilter P E
  pass_through_transfer_input data' = (
    record {
      session = clone_session data'.session;
      messages = clone_messages data'.messages;
      input = data'.input;
      metadata = clone_string_map data'.metadata;
    },
    none,
  )

  unfoldable pub remove_tool_transfer_input : TransferInputFilter P E
  remove_tool_transfer_input data' = (
    record {
      session = clone_session data'.session;
      messages = of (remove_tool_messages (items data'.messages));
      input = data'.input;
      metadata = clone_string_map data'.metadata;
    },
    none,
  )

  unfoldable pub recent_window_transfer_input : ℤ → TransferInputFilter P E
  recent_window_transfer_input n data' = (
    record {
      session = clone_session data'.session;
      messages = of (recent_messages n (items data'.messages));
      input = data'.input;
      metadata = clone_string_map data'.metadata;
    },
    none,
  )
