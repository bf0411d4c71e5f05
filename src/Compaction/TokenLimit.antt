-- ===== src/Compaction/TokenLimit.antt =====
-- compaction/strategy/tokenlimit/tokenlimit.go: drop the oldest turns until the estimate fits.
pub mod Cut
pub mod Keeps
use kae_agent_public.Base.{
  ℕ, zero, suc, ◌+◌, ℤ, pos, ltb_ℤ, leb_ℤ, Bool, true, false, not, ◌&&◌, List, [], ◌∷◌, ◌++◌,
  Option, none, some, is_some, Slice, nil, of, items, Result, ok, err, length, eqb, take, drop,
  if◌then◌else◌,
}
use kae_agent_public.Llm.{Message, ToolDef}
use kae_agent_public.Llm.Value.{AnyMap}
use kae_agent_public.Llm.Clone.{clone_messages}
use kae_agent_public.Compaction.Types.{
  GoStd, Input, Output, Error, exceeds_max_tokens, Strategy, TokenEstimator, output_of, int_value,
}
use kae_agent_public.Compaction.Estimator.{
  estimate_prompt_tokens, approx_estimate, default_chars_per_token,
}
use kae_agent_public.Compaction.Turns.{is_user}

-- The loop of `firstUserIndex` from index i; `none` is -1.
unfoldable pub user_index_from : ℕ → List Message → Option ℕ
user_index_from i [] = none
user_index_from i (m ∷ ms) = if is_user m then some i else user_index_from (suc i) ms

unfoldable pub first_user_index : List Message → Option ℕ
first_user_index ms = user_index_from 0 ms

unfoldable pub has_droppable_turns : List Message → Bool
has_droppable_turns ms = is_some (first_user_index ms)

-- The search for the next user message from index i, of which `ms` is what follows; `len(messages)`
-- if there is none.
unfoldable pub turn_end : ℕ → List Message → ℕ
turn_end i [] = i
turn_end i (m ∷ ms) = if is_user m then i else turn_end (suc i) ms

-- The rest of `dropOldestTurn` after its first line.
unfoldable pub drop_turn : Slice Message → Option ℕ → Slice Message
drop_turn ms none = ms
drop_turn ms (some start) =
    let end_index = turn_end (suc start) (drop (suc start) (items ms)) in
    of (take start (items ms) ++ drop end_index (items ms))

unfoldable pub drop_oldest_turn : Slice Message → Slice Message
unfolding drop_turn
drop_oldest_turn ms = drop_turn ms (first_user_index (items ms))

-- The test of the loop of `Compact`.
unfoldable pub goes_on : GoStd → ℤ → List ToolDef → Option TokenEstimator → Slice Message → Bool
goes_on std max tools estimator ms =
    ltb_ℤ max (estimate_prompt_tokens std ms tools estimator) && has_droppable_turns (items ms)

-- The loop of `Compact`, on fuel: every round drops a message, so the number of messages is enough.
unfoldable pub trim :
    GoStd → ℤ → List ToolDef → Option TokenEstimator → ℕ → Slice Message → Slice Message
trim std max tools estimator zero ms = ms
trim std max tools estimator (suc fuel) ms = elim (goes_on std max tools estimator ms) [
  | true ↦ trim std max tools estimator fuel (drop_oldest_turn ms)
  | false ↦ ms
]

-- The rest of `Compact` after the loop.
unfoldable pub check_limit :
    GoStd → ℤ → Option TokenEstimator → Input → Slice Message → Result Error Output
check_limit std max estimator input ms =
    let tokens = estimate_prompt_tokens std ms input.tools estimator in
    if ltb_ℤ max tokens
    then err (exceeds_max_tokens tokens max)
    else ok (output_of ms (not (eqb (length (items ms)) (length (items input.messages)))) "")

-- `Strategy.Compact`
unfoldable pub compact : GoStd → ℤ → Option TokenEstimator → Strategy
unfolding check_limit
compact std max estimator input =
    let ms = clone_messages input.messages in
    if leb_ℤ max (pos 0)
    then ok (output_of ms false "")
    else check_limit std max estimator input
        (trim std max input.tools estimator (length (items ms)) ms)

-- `New`: a nil estimator is replaced by the default one.
unfoldable pub new : GoStd → ℤ → Option TokenEstimator → Strategy
new std max none = compact std max (some (approx_estimate std (pos default_chars_per_token)))
new std max (some e) = compact std max (some e)

-- `Factory`
unfoldable pub factory : GoStd → AnyMap → Strategy
factory std config = new std (int_value std config "max_tokens" (pos 0)) none
