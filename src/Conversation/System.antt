-- ===== src/Conversation/System.antt =====
-- The system message of a conversation stands at its head.
use kae_agent_public.Base.{
  String, false, List, [], ◌∷◌, ◌++◌, Slice, items, items-append, ◌≡◌, Bool-cases, inl, inr, ◌==◌,
  All,
}
use kae_agent_public.Llm.{Message}
use kae_agent_public.Llm.Clone.{clone_message_id, clone_messages_id}
use kae_agent_public.Conversation.{
  Conversation, append_message, append_all, append_owned, append_all_owned, clear, set_system,
  replace_messages, with_system,
}

abbrev pub IsOther : Message → Type 0
IsOther m = (m.role == "system") ≡ false

-- No message behind the first is a system message.
abbrev pub Led : List Message → Type 0
Led [] = Unit
Led (m ∷ ms) = All IsOther ms

-- An operation on the messages of a conversation.
pub data Op : Type 0 where
  set : String → Op
  add : Message → Op
  add_all : Slice Message → Op
  add_owned : Message → Op
  add_all_owned : Slice Message → Op
  replaced : Slice Message → Op
  cleared : Op

unfoldable pub apply_op : Op → Conversation → Conversation
apply_op (set content) c = set_system content c
apply_op (add m) c = append_message m c
apply_op (add_all ms) c = append_all ms c
apply_op (add_owned m) c = append_owned m c
apply_op (add_all_owned ms) c = append_all_owned ms c
apply_op (replaced ms) c = replace_messages ms c
apply_op cleared c = clear c

-- What is appended is no system message, and what is put in place of all has none behind the first.
abbrev pub IsFit : Op → Type 0
IsFit (set content) = Unit
IsFit (add m) = IsOther m
IsFit (add_all ms) = All IsOther (items ms)
IsFit (add_owned m) = IsOther m
IsFit (add_all_owned ms) = All IsOther (items ms)
IsFit (replaced ms) = Led (items ms)
IsFit cleared = Unit

unfoldable pub apply_ops : List Op → Conversation → Conversation
apply_ops [] c = c
apply_ops (o ∷ os) c = apply_ops os (apply_op o c)

All-append : (xs ys : List Message) → All IsOther xs → All IsOther ys → All IsOther (xs ++ ys)
All-append [] ys h k = k
All-append (x ∷ xs) ys (a, h) k = (a, All-append xs ys h k)

pub Led-append : (ms ns : List Message) → Led ms → All IsOther ns → Led (ms ++ ns)
Led-append [] [] h k = tt
Led-append [] (n ∷ ns) h (a, k) = k
Led-append (m ∷ ms) ns h k = All-append ms ns h k

with_system-Led : (content : String) (ms : List Message) → Led ms → Led (with_system content ms)
unfolding with_system
with_system-Led content [] h = tt
with_system-Led content (m ∷ ms) h = elim (Bool-cases (m.role == "system")) [
  | inl p ↦ rw p h
  | inr p ↦ rw p (p, h)
]

apply_op-Led :
    (o : Op) (c : Conversation)
    → IsFit o
    → Led (items c.messages)
    → Led (items (apply_op o c).messages)
unfolding apply_op set_system append_message append_all append_owned append_all_owned clear
    replace_messages
apply_op-Led (set content) c k h = with_system-Led content (items c.messages) h
apply_op-Led (add m) c k h =
    rw (items-append, clone_message_id) (Led-append (items c.messages) (m ∷ []) h (k, tt))
apply_op-Led (add_all ms) c k h =
    rw (items-append, clone_messages_id) (Led-append (items c.messages) (items ms) h k)
apply_op-Led (add_owned m) c k h =
    rw items-append (Led-append (items c.messages) (m ∷ []) h (k, tt))
apply_op-Led (add_all_owned ms) c k h =
    rw items-append (Led-append (items c.messages) (items ms) h k)
apply_op-Led (replaced ms) c k h = rw clone_messages_id k
apply_op-Led cleared c k h = tt

-- A conversation in which no system message stands behind the first message keeps that, whatever is
-- set, appended, replaced and cleared, if no system message is appended and none stands behind the
-- first of the messages that replace the others.
pub apply_ops-Led :
    (os : List Op) (c : Conversation)
    → All IsFit os
    → Led (items c.messages)
    → Led (items (apply_ops os c).messages)
unfolding apply_ops
apply_ops-Led [] c k h = h
apply_ops-Led (o ∷ os) c (a, k) h = apply_ops-Led os (apply_op o c) k (apply_op-Led o c a h)
