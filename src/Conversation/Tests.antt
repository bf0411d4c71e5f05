-- ===== src/Conversation/Tests.antt =====
-- A conversation of three messages.
use kae_agent_public.Base.{
  String, pos, negsuc, List, [], ◌∷◌, of, nil, items, get_elem?, some, none, Slice, ℕ, ◌+◌, ◌-◌,
  ltb, length, if◌then◌else◌, ◌≡◌, refl,
}
use kae_agent_public.Llm.{Message}
use kae_agent_public.Llm.Clone.{clone_messages, clone_message, clone_tool_calls}
use kae_agent_public.Conversation.{
  Conversation, new_conversation, slice, slice_of, range_copy, snapshot, restore,
  new_conversation_from_state,
}
use kae_agent_public.Conversation.System.{Op, set, add, apply_ops, Led, apply_ops-Led}
use kae_agent_public.Conversation.Range.{end_of, get_elem?-slice, restore-snapshot}

abbrev say : String → String → Message
say role content = record {
  role = role;
  content = content;
  name = "";
  tool_call_id = "";
  tool_calls = nil;
}

abbrev talk : Conversation
talk = record {
  messages = of (say "user" "a" ∷ say "assistant" "b" ∷ say "user" "c" ∷ []);
  strategy = "";
  max_msgs = pos 50;
  max_chars = pos 0;
}

abbrev ops : List Op
ops = set "you help" ∷ add (say "user" "hi") ∷ set "you help more" ∷ []

apply_ops-Led_example :
    Led (items (apply_ops ops (new_conversation "sliding_window" (pos 50) (pos 1000))).messages)
unfolding new_conversation
apply_ops-Led_example =
    apply_ops-Led ops (new_conversation "sliding_window" (pos 50) (pos 1000)) (tt, (refl, (tt, tt)))
      tt

-- The second and third message.
tail_of_talk : slice (pos 1) (pos 9) talk ≡ some (of (say "assistant" "b" ∷ say "user" "c" ∷ []))
unfolding slice slice_of range_copy clone_messages clone_message clone_tool_calls
tail_of_talk = refl

get_elem?-slice_example :
    (r : Slice Message) × (slice (negsuc 3) (pos 9) talk ≡ some r)
    × ((i : ℕ)
        → get_elem? (items r) i ≡ (
            if ltb i (end_of (length (items talk.messages)) (pos 9) - 0)
            then get_elem? (items talk.messages) (0 + i)
            else none))
get_elem?-slice_example = get_elem?-slice (negsuc 3) (pos 9) talk

restore-snapshot_example :
    (restore (snapshot talk) (new_conversation "" (pos 1) (pos 1)) ≡ talk)
    × (new_conversation_from_state (snapshot talk) ≡ talk)
restore-snapshot_example = restore-snapshot talk (new_conversation "" (pos 1) (pos 1))
