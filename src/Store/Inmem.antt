-- ===== src/Store/Inmem.antt =====
-- store/inmem/inmem.go: `ConversationStore`, a map of conversations. The mutex makes every operation
-- one step; the context is read before the lock is asked for and again when it is held, and what is
-- read there is a pair of arguments.
pub mod History
use kae_agent_public.Base.{
  String, List, [], Option, none, some, Slice, nil, items, append, Result, ok, err, Dict, lookup,
  insert, erase,
}
use kae_agent_public.Llm.{Message}
use kae_agent_public.Llm.Clone.{clone_messages}

abbrev pub ConversationStore : Type 0
ConversationStore = Dict (Slice Message)

unfoldable pub new_conversation_store : ConversationStore
new_conversation_store = []

-- `ctx.Err()` before and under the lock.
abbrev pub Context : Type 0 → Type 0
Context E = Option E × Option E

-- `s.store[convID]`: a nil slice where there is none.
abbrev pub or_nil : Option (Slice Message) → Slice Message
or_nil none = nil
or_nil (some ms) = ms

module _ {E : Type 0} where
  unfoldable pub save :
      Context E → String → Slice Message → ConversationStore → Option E × ConversationStore
  save (some e, _) id ms s = (some e, s)
  save (none, some e) id ms s = (some e, s)
  save (none, none) id ms s = (none, insert id (clone_messages ms) s)

  unfoldable pub load : Context E → String → ConversationStore → Result E (Slice Message)
  load (some e, _) id s = err e
  load (none, some e) id s = err e
  load (none, none) id s = elim (lookup id s) [ none ↦ ok nil | some ms ↦ ok (clone_messages ms) ]

  unfoldable pub append_to :
      Context E → String → Slice Message → ConversationStore → Option E × ConversationStore
  append_to (some e, _) id ms s = (some e, s)
  append_to (none, some e) id ms s = (some e, s)
  append_to (none, none) id ms s =
      (none, insert id (append (or_nil (lookup id s)) (items (clone_messages ms))) s)

  unfoldable pub delete : Context E → String → ConversationStore → Option E × ConversationStore
  delete (some e, _) id s = (some e, s)
  delete (none, some e) id s = (some e, s)
  delete (none, none) id s = (none, erase id s)
