-- ===== src/Conversation.antt =====
-- agent/conversation.go: `Conversation`, the message list of a run. The mutex makes every operation
-- one step, and the values of the model have no aliases, so that the owned variants of an operation
-- differ from the others only where the source leaves out a copy.
pub mod System
pub mod Range
pub mod Tests
use kae_agent_public.Base.{
  ℤ, pos, pos_part, ◌*◌, suc, negsuc, sub_ℕ, wrap64, ltb_ℤ, leb_ℤ, String, List, [], ◌∷◌, Slice,
  nil, of, items, append, length, drop, take, Option, none, some, ◌&&◌, ◌-◌, ◌==◌, if◌then◌else◌,
  is_nil, Bool,
}
use kae_agent_public.Llm.{Message}
use kae_agent_public.Llm.Clone.{clone_message, clone_messages}

pub record Conversation : Type 0 where
  pub messages : Slice Message
  pub strategy : String
  pub max_msgs : ℤ
  pub max_chars : ℤ

-- The state that a checkpoint stores.
pub record ConversationState : Type 0 where
  pub messages : Slice Message
  pub strategy : String
  pub max_msgs : ℤ
  pub max_chars : ℤ

-- `n * charsPerToken` on a 64-bit int.
unfoldable pub times_chars : ℤ → ℤ
times_chars (pos n) = wrap64 (pos (n * 4))
times_chars (negsuc n) = wrap64 (sub_ℕ 0 (suc n * 4))

unfoldable pub new_conversation : String → ℤ → ℤ → Conversation
unfolding times_chars
new_conversation strategy max_messages token_budget = record {
  messages = nil;
  strategy = strategy;
  max_msgs = max_messages;
  max_chars = times_chars token_budget;
}

unfoldable pub append_message : Message → Conversation → Conversation
append_message msg c = record c { messages = append c.messages (clone_message msg ∷ []) }

unfoldable pub append_all : Slice Message → Conversation → Conversation
append_all msgs c = record c { messages = append c.messages (items (clone_messages msgs)) }

unfoldable pub append_owned : Message → Conversation → Conversation
append_owned msg c = record c { messages = append c.messages (msg ∷ []) }

unfoldable pub append_all_owned : Slice Message → Conversation → Conversation
append_all_owned msgs c = record c { messages = append c.messages (items msgs) }

-- `Messages` and `messagesOwned`, which are the same.
unfoldable pub messages_of : Conversation → Slice Message
messages_of c = clone_messages c.messages

unfoldable pub len : Conversation → ℤ
len c = pos (length (items c.messages))

unfoldable pub clear : Conversation → Conversation
clear c = record c { messages = nil }

-- `ReplaceMessages` and `replaceMessagesOwned`, which are the same.
unfoldable pub replace_messages : Slice Message → Conversation → Conversation
replace_messages ms c = record c { messages = clone_messages ms }

abbrev pub system_message : String → Message
system_message content = record {
  role = "system";
  content = content;
  name = "";
  tool_call_id = "";
  tool_calls = nil;
}

-- The messages after `SetSystem`.
unfoldable pub with_system : String → List Message → List Message
with_system content [] = system_message content ∷ []
with_system content (m ∷ ms) =
    if m.role == "system" then system_message content ∷ ms else system_message content ∷ m ∷ ms

unfoldable pub set_system : String → Conversation → Conversation
unfolding with_system
set_system content c = record c { messages = of (with_system content (items c.messages)) }

-- `ms[a:b]`; none is the panic of bounds that are not 0 <= a <= b <= len(ms).
unfoldable pub slice_of : ℤ → ℤ → List Message → Option (List Message)
slice_of a b ms =
    if leb_ℤ (pos 0) a && leb_ℤ a b && leb_ℤ b (pos (length ms))
    then some (take (pos_part b - pos_part a) (drop (pos_part a) ms))
    else none

-- The copy of a range that is there.
unfoldable pub range_copy : Option (List Message) → Option (Slice Message)
range_copy none = none
range_copy (some ms) = some (clone_messages (of ms))

-- `Slice`: bounds out of range are moved to the ends, and an empty range gives nil. None is a panic.
unfoldable pub slice : ℤ → ℤ → Conversation → Option (Slice Message)
unfolding slice_of range_copy
slice start end c =
    let ms = items c.messages in
    let n = pos (length ms) in
    let a = if ltb_ℤ start (pos 0) then pos 0 else start in
    let b = if ltb_ℤ n end then n else end in
    if leb_ℤ b a then some nil else range_copy (slice_of a b ms)

unfoldable pub snapshot : Conversation → ConversationState
snapshot c = record {
  messages = clone_messages c.messages;
  strategy = c.strategy;
  max_msgs = c.max_msgs;
  max_chars = c.max_chars;
}

unfoldable pub restore : ConversationState → Conversation → Conversation
restore s c = record {
  messages = clone_messages s.messages;
  strategy = s.strategy;
  max_msgs = s.max_msgs;
  max_chars = s.max_chars;
}

unfoldable pub new_conversation_from_state : ConversationState → Conversation
new_conversation_from_state s = record {
  messages = clone_messages s.messages;
  strategy = s.strategy;
  max_msgs = s.max_msgs;
  max_chars = s.max_chars;
}
