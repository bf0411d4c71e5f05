-- ===== src/Compaction/Default.antt =====
-- agent/runtime.go, `defaultCompactor`: the compactor of a session that is given none.
pub mod Settles
use kae_agent_public.Base.{
  ℕ, suc, ◌*◌, ◌/◌, ℤ, pos, negsuc, sub_ℕ, wrap64, leb_ℤ, String, Option, none, some, ◌==◌,
  if◌then◌else◌,
}
use kae_agent_public.Compaction.Types.{GoStd}
use kae_agent_public.Compaction.Engine.{Engine, new_engine}
use kae_agent_public.Compaction.Trigger.{max_turns_trigger, max_tokens_trigger}
use kae_agent_public.Compaction.TurnWindow
use kae_agent_public.Compaction.TokenLimit

-- `n * 80 / 100` on a 64-bit int; `/` rounds towards 0.
unfoldable pub times80 : ℤ → ℤ
times80 (pos n) = wrap64 (pos (80 * n))
times80 (negsuc n) = wrap64 (sub_ℕ 0 (80 * suc n))

unfoldable pub over100 : ℤ → ℤ
over100 (pos n) = pos (n / 100)
over100 (negsuc n) = sub_ℕ 0 (suc n / 100)

unfoldable pub soft_limit : ℤ → ℤ
unfolding times80 over100
soft_limit budget =
    let limit = over100 (times80 budget) in if leb_ℤ limit (pos 0) then budget else limit

unfoldable pub turns_engine : GoStd → ℤ → Engine
unfolding new_engine
turns_engine std max_history =
    new_engine std (some (max_turns_trigger max_history)) (some (TurnWindow.compact max_history))
      none

unfoldable pub tokens_engine : GoStd → ℤ → Engine
unfolding new_engine
tokens_engine std limit =
    new_engine std (some (max_tokens_trigger std limit none)) (some (TokenLimit.new std limit none))
      none

unfoldable pub default_compactor : GoStd → String → ℤ → ℤ → Option Engine
unfolding turns_engine tokens_engine
default_compactor std strategy max_history token_budget =
    if strategy == "sliding_window"
    then some (turns_engine std max_history)
    else if strategy == "token_count"
    then some (tokens_engine std (soft_limit token_budget))
    else none
