-- ===== src/Llm/Tests.antt =====
-- The deep copy at a conversation with a nested argument.
use kae_agent_public.Base.{[], ◌∷◌, some, of, ◌≡◌, refl, Slice}
use kae_agent_public.Llm.Types.{Message, ToolCall}
use kae_agent_public.Llm.Value.{text, list, dict, done, item, end, field}
use kae_agent_public.Llm.Clone.{
  clone_messages, clone_message, clone_tool_calls, clone_tool_call, clone_map,
}

abbrev lookup_call : ToolCall
lookup_call = record {
  id = "call_1";
  name = "lookup";
  input = some (field "items" (list (item (text "a") (item (dict end) done))) end);
}

abbrev calling : Slice Message
calling = of (
    record {
      role = "assistant";
      content = "calling tool";
      name = "";
      tool_call_id = "";
      tool_calls = of (lookup_call ∷ []);
    }
    ∷ [])

copied : clone_messages calling ≡ calling
unfolding clone_messages clone_message clone_tool_calls clone_tool_call clone_map
copied = refl
