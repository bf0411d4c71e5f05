-- ===== src/Runtime/Request.antt =====
-- agent/runtime_compaction.go: what a run does to its messages before a request. The tool definitions
-- are those that `toLLMToolDefs` gives.
pub mod Fits
use kae_agent_public.Base.{
  ℕ, zero, suc, ℤ, pos, ltb, ltb_ℤ, leb_ℤ, ◌+ℤ◌, wrap64, String, List, [], ◌∷◌, Option, none, some,
  Slice, items, Result, ok, err, Bool, true, false, if◌then◌else◌,
}
use kae_agent_public.Llm.{Message, ToolDef}
use kae_agent_public.Llm.Clone.{clone_messages}
use kae_agent_public.Compaction.{GoStd, Input, Output, Error}
use kae_agent_public.Compaction.Estimator.{estimate_prompt_tokens}
use kae_agent_public.Compaction.Turns.{is_system}
use kae_agent_public.Conversation.{Conversation, messages_of, replace_messages}

-- `compaction.Compactor`
pub record Compactor : Type 0 where
  pub compact : Input → Result Error Output
  pub force_compact : Input → Result Error Output

-- What the runtime holds for requests.
pub record Limits : Type 0 where
  pub compactor : Option Compactor
  pub model_context_limit : ℤ
  pub output_reserve : ℤ

pub data RequestError : Type 0 where
  no_compactor still_exceeds : RequestError
  many_system : ℕ → RequestError
  compaction : Error → RequestError

abbrev pub input_for : String → Slice Message → List ToolDef → Input
input_for session_id ms tools = record {
  session_id = session_id;
  messages = ms;
  tools = tools;
  metadata = none;
}

-- The conversation after a compaction.
unfoldable pub keep_compacted : Output → Conversation → Conversation
keep_compacted out c = if out.compacted then replace_messages out.messages c else c

-- `compactConversation`
unfoldable pub compact_conversation :
    Limits → String → List ToolDef → Conversation → Option Error × Conversation
compact_conversation rt session_id tools c = elim rt.compactor [
  | none ↦ (none, c)
  | some k ↦ elim (k.compact (input_for session_id (messages_of c) tools)) [
    | err e ↦ (some e, c)
    | ok out ↦ (none, keep_compacted out c)
  ]
]

-- The loop of `ensureSingleSystemMessage`.
unfoldable pub count_system : List Message → ℕ
count_system [] = 0
count_system (m ∷ ms) = if is_system m then suc (count_system ms) else count_system ms

unfoldable pub ensure_single_system_message : List Message → Option RequestError
unfolding count_system
ensure_single_system_message ms =
    if ltb 1 (count_system ms) then some (many_system (count_system ms)) else none

module _ (std : GoStd) where
  unfoldable pub should_force_preflight_compaction : Limits → Slice Message → List ToolDef → Bool
  should_force_preflight_compaction rt ms tools =
      if leb_ℤ rt.model_context_limit (pos 0)
      then false
      else ltb_ℤ rt.model_context_limit
          (wrap64 (estimate_prompt_tokens std ms tools none +ℤ rt.output_reserve))

  -- A request with the messages, if it has at most one system message.
  unfoldable pub checked :
      Slice Message → Conversation → Result RequestError (Slice Message) × Conversation
  checked ms c = elim (ensure_single_system_message (items ms)) [
    | some e ↦ (err e, c)
    | none ↦ (ok ms, c)
  ]

  -- The messages after a forced compaction.
  unfoldable pub current_after : Output → Slice Message → Slice Message
  current_after out ms = if out.compacted then clone_messages out.messages else ms

  -- The part of `prepareMessagesForRequest` behind a forced compaction.
  unfoldable pub after_force :
      Limits
      → List ToolDef
      → Slice Message
      → Conversation
      → Output
      → Result RequestError (Slice Message) × Conversation
  after_force rt tools ms c out =
      if should_force_preflight_compaction rt (current_after out ms) tools
      then (err still_exceeds, keep_compacted out c)
      else checked (current_after out ms) (keep_compacted out c)

  -- What `prepareMessagesForRequest` does with the answer of `ForceCompact`.
  unfoldable pub after_answer :
      Limits
      → List ToolDef
      → Slice Message
      → Conversation
      → Result Error Output
      → Result RequestError (Slice Message) × Conversation
  unfolding after_force
  after_answer rt tools ms c (err e) = (err (compaction e), c)
  after_answer rt tools ms c (ok out) = after_force rt tools ms c out

  -- The part behind the test of the limit.
  unfoldable pub force :
      Limits
      → String
      → Slice Message
      → List ToolDef
      → Conversation
      → Option Compactor
      → Result RequestError (Slice Message) × Conversation
  unfolding after_answer
  force rt session_id ms tools c none = (err no_compactor, c)
  force rt session_id ms tools c (some k) =
      after_answer rt tools ms c (k.force_compact (input_for session_id ms tools))

  -- `prepareMessagesForRequest`
  unfoldable pub prepare_messages_for_request :
      Limits
      → String
      → Slice Message
      → List ToolDef
      → Conversation
      → Result RequestError (Slice Message) × Conversation
  unfolding force
  prepare_messages_for_request rt session_id ms tools c =
      let current = clone_messages ms in
      if should_force_preflight_compaction rt current tools
      then force rt session_id current tools c rt.compactor
      else checked current c
