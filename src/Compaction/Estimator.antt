-- ===== src/Compaction/Estimator.antt =====
-- compaction/estimator.go: the token estimate of a prompt.
use Prim.Native.String.{len}
use kae_agent_public.Base.{
  ℕ, ◌+◌, ◌-◌, ◌/◌, ℤ, pos, ◌+ℤ◌, wrap64, leb_ℤ, pos_part, eqb, List, [], ◌∷◌, Option, none, some,
  Slice, items, is_empty, if◌then◌else◌,
}
use kae_agent_public.Llm.{Message, ToolDef}
use kae_agent_public.Compaction.Types.{GoStd, TokenEstimator}

abbrev pub default_chars_per_token : ℕ
default_chars_per_token = 4

abbrev pub default_message_overhead_chars : ℕ
default_message_overhead_chars = 32

abbrev pub default_tools_overhead_chars : ℕ
default_tools_overhead_chars = 64

-- The length in characters that the loop of `Estimate` adds for one message.
unfoldable pub message_chars : GoStd → Message → ℕ
message_chars std m =
    len m.content
    + len m.role
    + len m.name
    + len m.tool_call_id
    + (if is_empty (items m.tool_calls) then 0 else std.calls_json_len (items m.tool_calls))

unfoldable pub total_chars : GoStd → List Message → ℕ
unfolding message_chars
total_chars std [] = 0
total_chars std (m ∷ ms) = message_chars std m + total_chars std ms

-- `NewApproxTokenEstimator`: the unexported field is never 0 or less.
unfoldable pub chars_per_token : ℤ → ℕ
chars_per_token n = if leb_ℤ n (pos 0) then default_chars_per_token else pos_part n

-- `ApproxTokenEstimator.Estimate`: the sum rounded up to whole tokens. String lengths add up to less
-- than the memory, so the sum does not overflow.
unfoldable pub approx_estimate : GoStd → ℤ → TokenEstimator
unfolding total_chars chars_per_token
approx_estimate std n ms =
    let total = total_chars std (items ms) in
    if eqb total 0 then pos 0 else pos ((total + chars_per_token n - 1) / chars_per_token n)

unfoldable pub chars_to_tokens : ℕ → ℕ
chars_to_tokens total =
    if eqb total 0 then 0 else (total + default_chars_per_token - 1) / default_chars_per_token

-- `for range messages { totalTokens += charsToTokens(defaultMessageOverheadChars) }`
unfoldable pub add_overhead : ℤ → List Message → ℤ
unfolding chars_to_tokens
add_overhead total [] = total
add_overhead total (m ∷ ms) =
    add_overhead (wrap64 (total +ℤ pos (chars_to_tokens default_message_overhead_chars))) ms

-- `EstimatePromptTokens`; a nil estimator is the default one.
unfoldable pub estimate_prompt_tokens :
    GoStd → Slice Message → List ToolDef → Option TokenEstimator → ℤ
unfolding approx_estimate add_overhead chars_to_tokens
estimate_prompt_tokens std ms tools estimator =
    let base : ℤ = elim estimator [
      | none ↦ approx_estimate std (pos default_chars_per_token) ms
      | some estimate ↦ estimate ms
    ] in
    let total = add_overhead base (items ms) in
    if is_empty tools
    then total
    else wrap64
        (total +ℤ pos (chars_to_tokens (std.tools_json_len tools + default_tools_overhead_chars)))
