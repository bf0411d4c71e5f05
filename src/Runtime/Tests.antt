-- ===== src/Runtime/Tests.antt =====
-- A request over the limit of the model, which a compactor cuts to its last message.
use kae_agent_public.Base.{
  pos, String, List, [], ◌∷◌, none, some, Slice, nil, of, items, Result, ok, ◌≡◌, refl, ap, true,
  last_n, wrap64, ◌+ℤ◌,
}
use kae_agent_public.Llm.{Message}
use kae_agent_public.Llm.Clone.{clone_messages}
use kae_agent_public.Compaction.{GoStd, Input, Output, Error, output_of}
use kae_agent_public.Compaction.Estimator.{
  estimate_prompt_tokens, add_overhead, chars_to_tokens, approx_estimate, total_chars,
  message_chars, chars_per_token,
}
use kae_agent_public.Conversation.{Conversation, replace_messages}
use kae_agent_public.Runtime.Transfer.{TransferInputData, recent_window_transfer_input}
use kae_agent_public.Runtime.Transfer.Windows.{recent_window_lem}
use kae_agent_public.Runtime.Request.{
  Limits, prepare_messages_for_request, ensure_single_system_message,
  should_force_preflight_compaction, force, after_answer, after_force, checked, current_after,
  keep_compacted, count_system,
}
use kae_agent_public.Runtime.Request.Fits.{Sendable, prepare-Sendable, ensure_single-Led}

abbrev std : GoStd
std = record { calls_json_len = λ cs. 0; tools_json_len = λ ts. 0; float_to_int = λ b. pos b }

abbrev say : String → String → Message
say role content = record {
  role = role;
  content = content;
  name = "";
  tool_call_id = "";
  tool_calls = nil;
}

abbrev talk : List Message
talk = say "system" "sys" ∷ say "user" "a" ∷ say "assistant" "b" ∷ say "user" "c" ∷ []

abbrev cut : Input → Result Error Output
cut input = ok (output_of (of (last_n 1 (items input.messages))) true "")

abbrev limits : Limits
limits = record {
  compactor = some (record { compact = cut; force_compact = cut });
  model_context_limit = pos 30;
  output_reserve = pos 10;
}

abbrev conversation : Conversation
conversation = record { messages = of talk; strategy = ""; max_msgs = pos 50; max_chars = pos 0 }

abbrev left : Slice Message
left = of (say "user" "c" ∷ [])

prepared :
    prepare_messages_for_request std limits "s" (of talk) [] conversation
    ≡ (ok left, record conversation { messages = left })
unfolding prepare_messages_for_request force after_answer after_force checked current_after
    keep_compacted should_force_preflight_compaction ensure_single_system_message count_system
    replace_messages clone_messages estimate_prompt_tokens add_overhead chars_to_tokens
    approx_estimate total_chars message_chars chars_per_token wrap64 ◌+ℤ◌
prepared = refl

prepare-Sendable_example :
    Sendable std limits []
      (of talk)
      conversation
      left
      (prepare_messages_for_request std limits "s" (of talk) [] conversation).1
prepare-Sendable_example =
    prepare-Sendable std limits [] "s" (of talk) conversation left (ap (λ r. r.0) prepared)

ensure_single-Led_example : ensure_single_system_message talk ≡ none
ensure_single-Led_example = ensure_single-Led talk (refl, (refl, (refl, tt)))

abbrev handed : TransferInputData String
handed = record { session = "s"; messages = of talk; input = "go on"; metadata = none }

recent_window_lem_example :
    let (given, e) = recent_window_transfer_input {E = String} (λ s. s) (pos 2) handed in
    (items given.messages ≡ say "system" "sys" ∷ say "assistant" "b" ∷ say "user" "c" ∷ [])
    × (e ≡ none)
    × (given.input ≡ "go on")
unfolding recent_window_transfer_input
recent_window_lem_example = recent_window_lem (λ s. s) (pos 2) handed
