-- ===== src/Compaction/SlidingWindow.antt =====
-- compaction/strategy/slidingwindow/slidingwindow.go: keep the system messages and the last others.
pub mod Keeps
use kae_agent_public.Base.{
  ℕ, ℤ, pos, pos_part, ◌-ℤ◌, ltb_ℤ, leb_ℤ, Bool, true, false, not, List, [], ◌∷◌, ◌++◌, Slice, nil,
  of, items, append, Result, ok, err, length, ltb, eqb, last_n, keep_if, if◌then◌else◌,
}
use kae_agent_public.Llm.{Message}
use kae_agent_public.Llm.Value.{AnyMap}
use kae_agent_public.Llm.Clone.{clone_messages}
use kae_agent_public.Compaction.Types.{
  GoStd, Input, Output, Error, too_many_system, Strategy, output_of, int_value,
}
use kae_agent_public.Compaction.Turns.{is_system}

-- The variables `systemMsgs` and `otherMsgs`, both nil at first.
pub record Parts : Type 0 where
  pub system : Slice Message
  pub other : Slice Message

-- One round of the loop.
unfoldable pub partition_step : Parts → Message → Parts
partition_step p m =
    if is_system m
    then record p { system = append p.system (m ∷ []) }
    else record p { other = append p.other (m ∷ []) }

unfoldable pub partition : List Message → Parts → Parts
unfolding partition_step
partition [] p = p
partition (m ∷ ms) p = partition ms (partition_step p m)

-- `otherMsgs[len(otherMsgs)-keep:]`, of a slice that is longer than `keep`.
unfoldable pub keep_last : ℕ → Slice Message → Slice Message
keep_last keep nil = nil
keep_last keep (of ms) = if ltb keep (length ms) then of (last_n keep ms) else of ms

unfoldable pub window : ℤ → Input → Parts → Result Error Output
unfolding keep_last
window max input p =
    if ltb_ℤ max (pos (length (items p.system)))
    then err (too_many_system max (length (items p.system)))
    else let keep = pos_part (max -ℤ pos (length (items p.system))) in
      let out =
        append (clone_messages p.system) (items (clone_messages (keep_last keep p.other))) in
      ok (output_of out (not (eqb (length (items out)) (length (items input.messages)))) "")

-- `Strategy.Compact`
unfoldable pub compact : ℤ → Strategy
unfolding window
compact max input =
    if leb_ℤ max (pos 0)
    then ok (output_of (clone_messages input.messages) false "")
    else if leb_ℤ (pos (length (items input.messages))) max
    then ok (output_of (clone_messages input.messages) false "")
    else window max input (partition (items input.messages) (record { system = nil; other = nil }))

-- `Factory`
unfoldable pub factory : GoStd → AnyMap → Strategy
factory std config = compact (int_value std config "max_messages" (pos 0))
