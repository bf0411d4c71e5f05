-- ===== src/Llm/Clone.antt =====
-- compaction/compaction.go: the deep copies of messages. agent/clone.go, agent/internal/engine/
-- builders.go and store/inmem/inmem.go have the same functions.
use kae_agent_public.Base.{List, [], ◌∷◌, map, none, some, Slice, nil, of, ◌≡◌, refl, ap}
use kae_agent_public.Llm.Value.{
  Value, null, text, bool, int, int32, int64, float64, nil_list, list, nil_dict, dict, other, Items,
  done, item, Fields, end, field, AnyMap,
}
use kae_agent_public.Llm.Types.{ToolCall, Message}

unfoldable mutual
  -- `cloneValue`; a nil map or slice inside an `any` is cloned to a nil one.
  pub clone_value : Value → Value
  clone_value nil_list = nil_list
  clone_value (list xs) = list (clone_items xs)
  clone_value nil_dict = nil_dict
  clone_value (dict fs) = dict (clone_fields fs)
  clone_value null = null
  clone_value (text s) = text s
  clone_value (bool b) = bool b
  clone_value (int n) = int n
  clone_value (int32 n) = int32 n
  clone_value (int64 n) = int64 n
  clone_value (float64 n) = float64 n
  clone_value (other n) = other n

  -- The loop of `cloneSlice`.
  pub clone_items : Items → Items
  clone_items done = done
  clone_items (item v xs) = item (clone_value v) (clone_items xs)

  -- The loop of `cloneMap`.
  pub clone_fields : Fields → Fields
  clone_fields end = end
  clone_fields (field k v fs) = field k (clone_value v) (clone_fields fs)

-- `cloneMap`: nil stays nil.
unfoldable pub clone_map : AnyMap → AnyMap
unfolding clone_value
clone_map none = none
clone_map (some fs) = some (clone_fields fs)

unfoldable pub clone_tool_call : ToolCall → ToolCall
unfolding clone_map
clone_tool_call tc = record { id = tc.id; name = tc.name; input = clone_map tc.input }

-- `if len(msg.ToolCalls) > 0 { … }`: a nil or empty slice is left as it is.
unfoldable pub clone_tool_calls : Slice ToolCall → Slice ToolCall
unfolding clone_tool_call
clone_tool_calls nil = nil
clone_tool_calls (of []) = of []
clone_tool_calls (of (tc ∷ tcs)) = of (map clone_tool_call (tc ∷ tcs))

unfoldable pub clone_message : Message → Message
unfolding clone_tool_calls
clone_message msg = record msg { tool_calls = clone_tool_calls msg.tool_calls }

unfoldable pub clone_messages : Slice Message → Slice Message
unfolding clone_message
clone_messages nil = nil
clone_messages (of ms) = of (map clone_message ms)

mutual
  unfolding clone_value clone_items clone_fields

  clone_value_id : (v : Value) → clone_value v ≡ v
  clone_value_id nil_list = refl
  clone_value_id (list xs) = ap list (clone_items_id xs)
  clone_value_id nil_dict = refl
  clone_value_id (dict fs) = ap dict (clone_fields_id fs)
  clone_value_id null = refl
  clone_value_id (text s) = refl
  clone_value_id (bool b) = refl
  clone_value_id (int n) = refl
  clone_value_id (int32 n) = refl
  clone_value_id (int64 n) = refl
  clone_value_id (float64 n) = refl
  clone_value_id (other n) = refl

  clone_items_id : (xs : Items) → clone_items xs ≡ xs
  clone_items_id done = refl
  clone_items_id (item v xs) = cc (clone_value_id v, clone_items_id xs)

  clone_fields_id : (fs : Fields) → clone_fields fs ≡ fs
  clone_fields_id end = refl
  clone_fields_id (field k v fs) = cc (clone_value_id v, clone_fields_id fs)

pub clone_map_id : (m : AnyMap) → clone_map m ≡ m
unfolding clone_map
clone_map_id none = refl
clone_map_id (some fs) = ap some (clone_fields_id fs)

pub clone_tool_call_id : (tc : ToolCall) → clone_tool_call tc ≡ tc
unfolding clone_tool_call
clone_tool_call_id tc =
    ap (λ m. let r : ToolCall = record { id = tc.id; name = tc.name; input = m } in r)
      (clone_map_id tc.input)

map_id {ℓ} : {A : Type ℓ} (f : A → A) → ((a : A) → f a ≡ a) → (xs : List A) → map f xs ≡ xs
map_id f h [] = refl
map_id f h (x ∷ xs) = cc (h x, map_id f h xs)

pub clone_tool_calls_id : (s : Slice ToolCall) → clone_tool_calls s ≡ s
unfolding clone_tool_calls
clone_tool_calls_id nil = refl
clone_tool_calls_id (of []) = refl
clone_tool_calls_id (of (tc ∷ tcs)) = ap of (map_id clone_tool_call clone_tool_call_id (tc ∷ tcs))

pub clone_message_id : (msg : Message) → clone_message msg ≡ msg
unfolding clone_message
clone_message_id msg =
    ap (λ s. let r : Message = record msg { tool_calls = s } in r)
      (clone_tool_calls_id msg.tool_calls)

-- A deep copy of a conversation equals it in every field of every message, arguments of tool calls
-- at every depth included, and the copy of a nil slice is nil.
pub clone_messages_id : (s : Slice Message) → clone_messages s ≡ s
unfolding clone_messages
clone_messages_id nil = refl
clone_messages_id (of ms) = ap of (map_id clone_message clone_message_id ms)
