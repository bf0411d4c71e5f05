-- ===== src/Conversation/Range.antt =====
-- Ranges of a conversation, and its way through a checkpoint.
use kae_agent_public.Base.{
  get_elem?-take, get_elem?-drop, ℕ, ◌+◌, ◌-◌, ℤ, pos, pos_part, ltb, ltb_ℤ, leb_ℤ, items, length,
  drop, take, get_elem?, none, some, List, Slice, nil, of, true, if◌then◌else◌, ◌≡◌, refl, arith,
  Bool-cases, inl, inr,
}
use kae_agent_public.Llm.{Message}
use kae_agent_public.Llm.Clone.{clone_messages_id}
use kae_agent_public.Conversation.{
  Conversation, slice, slice_of, range_copy, snapshot, restore, new_conversation_from_state,
}

-- The end of a range, not below 0 and not past n.
abbrev pub end_of : ℕ → ℤ → ℕ
end_of n end = if ltb n (pos_part end) then n else pos_part end

slice_of_in :
    (a b : ℤ) (ms : List Message)
    → leb_ℤ (pos 0) a ≡ true
    → leb_ℤ a b ≡ true
    → leb_ℤ b (pos (length ms)) ≡ true
    → slice_of a b ms ≡ some (take (pos_part b - pos_part a) (drop (pos_part a) ms))
unfolding slice_of
slice_of_in a b ms h k l = rw (h, k, l) refl

-- `Slice` never panics: whatever the bounds, a negative one and one past the end included, it gives
-- an answer, which holds at each index what the conversation holds at that index counted from the
-- start, below the end of the range and of the conversation, and nothing else.
pub get_elem?-slice :
    (start end : ℤ) (c : Conversation)
    → (r : Slice Message) × (slice start end c ≡ some r)
      × ((i : ℕ)
          → get_elem? (items r) i ≡ (
              if ltb i (end_of (length (items c.messages)) end - pos_part start)
              then get_elem? (items c.messages) (pos_part start + i)
              else none))
unfolding slice
get_elem?-slice start end c =
    let ms = items c.messages in
    let n = pos (length ms) in
    let a = if ltb_ℤ start (pos 0) then pos 0 else start in
    let b = if ltb_ℤ n end then n else end in
    elim (Bool-cases (leb_ℤ b a)) [
      | inl p ↦ (nil, rw p refl, λ i. ground (arith, p))
      | inr p ↦ (
        of (take (pos_part b - pos_part a) (drop (pos_part a) ms)),
        rw (p, slice_of_in a b ms (ground (arith, p)) (ground (arith, p)) (ground (arith, p)))
            (unfold range_copy in rw clone_messages_id refl),
        λ i. ground (
          arith,
          p,
          get_elem?-take (pos_part b - pos_part a) i (drop (pos_part a) ms),
          get_elem?-drop (pos_part a) i ms,
        ),
      )
    ]

-- A conversation that is restored from its snapshot, over another conversation or as a new one, is the
-- conversation.
pub restore-snapshot :
    (c d : Conversation)
    → (restore (snapshot c) d ≡ c) × (new_conversation_from_state (snapshot c) ≡ c)
unfolding restore snapshot new_conversation_from_state
restore-snapshot c d =
    (rw (clone_messages_id, clone_messages_id) refl, rw (clone_messages_id, clone_messages_id) refl)
