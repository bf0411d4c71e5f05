-- ===== src/Compaction/Trigger.antt =====
-- compaction/trigger.go: when to compact.
use kae_agent_public.Base.{
  ℕ, ◌+◌, ℤ, pos, ltb_ℤ, leb_ℤ, Bool, true, false, String, List, [], ◌∷◌, Option, none, some, items,
  Result, ok, err, length, ◌==◌, if◌then◌else◌,
}
use kae_agent_public.Llm.{Message}
use kae_agent_public.Compaction.Types.{GoStd, Error, Trigger, TokenEstimator}
use kae_agent_public.Compaction.Estimator.{estimate_prompt_tokens}

unfoldable pub count_turns : List Message → ℕ
count_turns [] = 0
count_turns (m ∷ ms) = (if m.role == "user" then 1 else 0) + count_turns ms

unfoldable pub max_turns_trigger : ℤ → Trigger
unfolding count_turns
max_turns_trigger max_turns input =
    if leb_ℤ max_turns (pos 0)
    then ok (false, "")
    else if ltb_ℤ max_turns (pos (count_turns (items input.messages)))
    then ok (true, "max turns exceeded")
    else ok (false, "")

unfoldable pub max_messages_trigger : ℤ → Trigger
max_messages_trigger max_messages input =
    if leb_ℤ max_messages (pos 0)
    then ok (false, "")
    else if ltb_ℤ max_messages (pos (length (items input.messages)))
    then ok (true, "max messages exceeded")
    else ok (false, "")

unfoldable pub max_tokens_trigger : GoStd → ℤ → Option TokenEstimator → Trigger
max_tokens_trigger std max_tokens estimator input =
    if leb_ℤ max_tokens (pos 0)
    then ok (false, "")
    else if ltb_ℤ max_tokens (estimate_prompt_tokens std input.messages input.tools estimator)
    then ok (true, "max tokens exceeded")
    else ok (false, "")

-- One round of the loop of `AnyTrigger.ShouldCompact`, after the trigger's answer.
unfoldable pub any_next :
    Result Error (Bool × String) → Result Error (Bool × String) → Result Error (Bool × String)
any_next (err e) rest = err e
any_next (ok (fires, reason)) rest = if fires then ok (true, reason) else rest

-- `AnyTrigger.ShouldCompact`: nil triggers are skipped, and the first that fires or fails decides.
unfoldable pub any_trigger : List (Option Trigger) → Trigger
unfolding any_next
any_trigger [] input = ok (false, "")
any_trigger (none ∷ ts) input = any_trigger ts input
any_trigger (some t ∷ ts) input = any_next (t input) (any_trigger ts input)
