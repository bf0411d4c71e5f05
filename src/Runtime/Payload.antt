-- ===== src/Runtime/Payload.antt =====
-- agent/internal/subagent/tool.go: the arguments of the tools that consult another agent and transfer to
-- one. `strings.TrimSpace` is a parameter; the iteration over a Go map is the order of its fields.
use kae_agent_public.Base.{
  String, ◌+++◌, ◌==◌, [], ◌∷◌, Option, none, some, Dict, insert, Result, ok, err, if◌then◌else◌,
  ◌>>=◌,
}
use kae_agent_public.Llm.Value.{Value, text, dict, nil_dict, Fields, end, field, AnyMap, get}

abbrev pub consult_tool_prefix : String
consult_tool_prefix = "consult_"

abbrev pub transfer_tool_prefix : String
transfer_tool_prefix = "transfer_to_"

abbrev pub transfer_reason_metadata_key : String
transfer_reason_metadata_key = "transfer_reason"

abbrev pub consult_reason_metadata_key : String
consult_reason_metadata_key = "consult_reason"

unfoldable pub consult_tool_name : String → String
consult_tool_name name = consult_tool_prefix +++ name

unfoldable pub transfer_tool_name : String → String
transfer_tool_name name = transfer_tool_prefix +++ name

-- `ConsultPayload` and `TransferPayload`, which have the same fields.
pub record Payload : Type 0 where
  pub agent_name : String
  pub input : String
  pub metadata : Option (Dict String)

pub data PayloadError : Type 0 where
  input_required input_not_text : String → PayloadError
  reason_not_text metadata_not_object : String → PayloadError
  metadata_not_text : String → String → PayloadError

-- `v.(string)`
abbrev pub text_of : Value → Option String
text_of (text s) = some s
text_of _ = none

-- `v.(map[string]any)`
abbrev pub object_of : Value → Option AnyMap
object_of nil_dict = some none
object_of (dict fs) = some (some fs)
object_of _ = none

abbrev text_or {ℓ} : {E : Type ℓ} → E → Option String → Result E String
text_or e none = err e
text_or e (some s) = ok s

-- The loop over the metadata object.
unfoldable pub add_metadata : String → Fields → Dict String → Result PayloadError (Dict String)
add_metadata mode end m = ok m
add_metadata mode (field k v fs) m =
    let rest : Dict String → Result PayloadError (Dict String) = add_metadata mode fs in
    if k == ""
    then rest m
    else (elim (text_of v) [ none ↦ err (metadata_not_text mode k) | some s ↦ rest (insert k s m) ])

-- `if len(metadata) == 0 { return nil, nil }`
abbrev pub nil_if_empty : Dict String → Option (Dict String)
nil_if_empty [] = none
nil_if_empty (e ∷ m) = some (e ∷ m)

module _ (trim : String → String) where
  -- The reason of the call, under the key of the mode.
  unfoldable pub reason_metadata :
      String → String → Option Value → Result PayloadError (Dict String)
  reason_metadata mode key none = ok []
  reason_metadata mode key (some v) = elim (text_of v) [
    | none ↦ err (reason_not_text mode)
    | some reason ↦ ok (if trim reason == "" then [] else (key, reason) ∷ [])
  ]

  unfoldable pub with_metadata :
      String → Option Value → Dict String → Result PayloadError (Dict String)
  unfolding add_metadata
  with_metadata mode none m = ok m
  with_metadata mode (some v) m = elim (object_of v) [
    | none ↦ err (metadata_not_object mode)
    | some none ↦ ok m
    | some (some fs) ↦ add_metadata mode fs m
  ]

  unfoldable pub parse_metadata :
      AnyMap → String → String → Result PayloadError (Option (Dict String))
  unfolding reason_metadata with_metadata
  parse_metadata input mode key = reason_metadata mode key (get "reason" input) >>= λ m.
      with_metadata mode (get "metadata" input) m >>= λ n. ok (nil_if_empty n)

  unfoldable pub consult_input : Option Value → Result PayloadError String
  consult_input none = err (input_required "consult")
  consult_input (some v) = elim (text_of v) [
    | none ↦ err (input_not_text "consult")
    | some s ↦ if trim s == "" then err (input_required "consult") else ok s
  ]

  unfoldable pub parse_consult_payload : String → AnyMap → Result PayloadError Payload
  unfolding consult_input parse_metadata
  parse_consult_payload target input = consult_input (get "input" input) >>= λ s.
      parse_metadata input "consult" consult_reason_metadata_key >>= λ m.
      ok (record { agent_name = target; input = s; metadata = m })

  unfoldable pub transfer_input : Option Value → String → Result PayloadError String
  transfer_input none fallback = ok fallback
  transfer_input (some v) fallback = elim (text_of v) [
    | none ↦ err (input_not_text "transfer")
    | some s ↦ ok (if trim s == "" then fallback else s)
  ]

  unfoldable pub parse_transfer_payload : String → AnyMap → String → Result PayloadError Payload
  unfolding transfer_input parse_metadata
  parse_transfer_payload target input fallback =
      transfer_input (get "input" input) fallback >>= λ s.
      parse_metadata input "transfer" transfer_reason_metadata_key >>= λ m.
      ok (record { agent_name = target; input = s; metadata = m })
