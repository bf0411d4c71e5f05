-- ===== src/Store/Inmem/History.antt =====
-- The store refines its history: each conversation is what the calls for it have written.
use kae_agent_public.Base.{
  String, List, [], ◌∷◌, ◌++◌, none, some, Slice, items, append, items-append, Result, ok, err,
  lookup, insert, erase, lookup-insert, lookup-erase, ◌==◌, if◌then◌else◌, ◌≡◌, refl, ap, ◌∙◌,
  Bool-cases, Option-cases, inl, inr, eq_iff, arith,
}
use kae_agent_public.Llm.{Message}
use kae_agent_public.Llm.Clone.{clone_messages, clone_messages_id}
use kae_agent_public.Store.Inmem.{
  ConversationStore, Context, or_nil, save, load, append_to, delete, new_conversation_store,
}

-- A call that changes the store.
pub data Call (E : Type 0) : Type 0 where
  saves : Context E → String → Slice Message → Call E
  appends : Context E → String → Slice Message → Call E
  deletes : Context E → String → Call E

module _ {E : Type 0} where
  unfoldable pub apply_call : Call E → ConversationStore → ConversationStore
  apply_call (saves ctx id ms) s = (save ctx id ms s).1
  apply_call (appends ctx id ms) s = (append_to ctx id ms s).1
  apply_call (deletes ctx id) s = (delete ctx id s).1

  unfoldable pub apply_calls : List (Call E) → ConversationStore → ConversationStore
  apply_calls [] s = s
  apply_calls (c ∷ cs) s = apply_calls cs (apply_call c s)

  -- What a call means for one conversation: a call whose context is cancelled at either reading, or
  -- which is for another conversation, nothing.
  abbrev pub meaning : String → Call E → List Message → List Message
  meaning id (saves (none, none) j ms) old = if j == id then items ms else old
  meaning id (appends (none, none) j ms) old = if j == id then old ++ items ms else old
  meaning id (deletes (none, none) j) old = if j == id then [] else old
  meaning id _ old = old

  abbrev pub history : String → List (Call E) → List Message → List Message
  history id [] old = old
  history id (c ∷ cs) old = history id cs (meaning id c old)

-- The messages that a store holds for a conversation.
abbrev pub held : String → ConversationStore → List Message
held id s = items (or_nil (lookup id s))

held-insert :
    (k id : String) (ms : Slice Message) (s : ConversationStore)
    → held id (insert k ms s) ≡ (if k == id then items ms else held id s)
held-insert k id ms s = elim (Bool-cases (k == id)) [
  | inl p ↦ rw (lookup-insert, p) refl
  | inr p ↦ rw (lookup-insert, p) refl
]

held-erase :
    (k id : String) (s : ConversationStore)
    → held id (erase k s) ≡ (if k == id then [] else held id s)
held-erase k id s = elim (Bool-cases (k == id)) [
  | inl p ↦ rw (lookup-erase, p) refl
  | inr p ↦ rw (lookup-erase, p) refl
]

module _ {E : Type 0} where
  held-apply_call :
      (id : String) (c : Call E) (s : ConversationStore)
      → held id (apply_call c s) ≡ meaning id c (held id s)
  unfolding apply_call save append_to delete
  held-apply_call id (saves (some e, b) j ms) s = refl
  held-apply_call id (saves (none, some e) j ms) s = refl
  held-apply_call id (saves (none, none) j ms) s =
      held-insert j id (clone_messages ms) s
      ∙ ap (λ m. if j == id then items m else held id s) (clone_messages_id ms)
  held-apply_call id (appends (some e, b) j ms) s = refl
  held-apply_call id (appends (none, some e) j ms) s = refl
  held-apply_call id (appends (none, none) j ms) s = ground (
    arith,
    eq_iff j id,
    held-insert j id (append (or_nil (lookup j s)) (items (clone_messages ms))) s,
    items-append (or_nil (lookup j s)) (items (clone_messages ms)),
    clone_messages_id ms,
  )
  held-apply_call id (deletes (some e, b) j) s = refl
  held-apply_call id (deletes (none, some e) j) s = refl
  held-apply_call id (deletes (none, none) j) s = held-erase j id s

  held-apply_calls :
      (id : String) (cs : List (Call E)) (s : ConversationStore)
      → held id (apply_calls cs s) ≡ history id cs (held id s)
  unfolding apply_calls
  held-apply_calls id [] s = refl
  held-apply_calls id (c ∷ cs) s =
      held-apply_calls id cs (apply_call c s) ∙ ap (history id cs) (held-apply_call id c s)

  -- The answer of a load, as a list.
  abbrev pub loaded : Result E (Slice Message) → Result E (List Message)
  loaded (ok ms) = ok (items ms)
  loaded (err e) = err e

  load-held :
      (id : String) (s : ConversationStore)
      → loaded (load {E = E} (none, none) id s) ≡ ok (held id s)
  unfolding load
  load-held id s = elim (Option-cases (lookup id s)) [
    | inl p ↦ rw (p, load) refl
    | inr (ms, p) ↦ rw (p, load) (rw clone_messages_id refl)
  ]

  -- After any sequence of calls on a new store, some of them cancelled before or under the lock, a load
  -- of a conversation gives what the calls for it, in their order, have saved, appended and deleted,
  -- and the calls for other conversations and the cancelled ones have not changed it.
  pub load-history :
      (id : String) (cs : List (Call E))
      → loaded (load {E = E} (none, none) id (apply_calls cs new_conversation_store))
        ≡ ok (history id cs [])
  unfolding new_conversation_store
  load-history id cs = load-held id (apply_calls cs []) ∙ ap ok (held-apply_calls id cs [])
