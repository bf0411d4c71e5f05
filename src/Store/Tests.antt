-- ===== src/Store/Tests.antt =====
-- A store with two conversations and a cancelled call.
use kae_agent_public.Base.{String, List, [], ◌∷◌, none, some, of, ok, ◌≡◌}
use kae_agent_public.Llm.{Message}
use kae_agent_public.Store.Inmem.{load, new_conversation_store}
use kae_agent_public.Store.Inmem.History.{
  Call, saves, appends, deletes, apply_calls, loaded, load-history,
}

abbrev say : String → Message
say content = record {
  role = "user";
  content = content;
  name = "";
  tool_call_id = "";
  tool_calls = of [];
}

abbrev calls : List (Call String)
calls =
    saves (none, none) "a" (of (say "1" ∷ []))
    ∷ appends (none, none) "b" (of (say "2" ∷ []))
    ∷ appends (none, some "cancelled") "a" (of (say "3" ∷ []))
    ∷ appends (none, none) "a" (of (say "4" ∷ []))
    ∷ deletes (none, none) "b"
    ∷ []

load-history_example :
    loaded (load {E = String} (none, none) "a" (apply_calls calls new_conversation_store))
    ≡ ok (say "1" ∷ say "4" ∷ [])
load-history_example = load-history "a" calls
