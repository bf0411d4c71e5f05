-- ===== src/Compaction/TurnWindow.antt =====
-- compaction/strategy/turnwindow/turnwindow.go: keep the system messages and the last turns.
pub mod Keeps
use kae_agent_public.Base.{
  ℕ, ℤ, pos, pos_part, ltb_ℤ, leb_ℤ, Bool, true, false, not, ◌&&◌, List, [], ◌∷◌, Slice, nil, of,
  items, append, Result, ok, err, length, eqb, last_n, if◌then◌else◌,
}
use kae_agent_public.Llm.{Message}
use kae_agent_public.Llm.Value.{AnyMap}
use kae_agent_public.Llm.Clone.{clone_messages}
use kae_agent_public.Compaction.Types.{GoStd, Input, Output, Error, Strategy, output_of, int_value}
use kae_agent_public.Compaction.Turns.{split_turns}

-- `for _, turn := range turns { out = append(out, turn...) }`
unfoldable pub append_turns : Slice Message → List (List Message) → Slice Message
append_turns out [] = out
append_turns out (turn ∷ turns) = append_turns (append out turn) turns

unfoldable pub window : ℤ → Input → List Message → List (List Message) → Output
window max input system turns =
    let out = append_turns (clone_messages (of system)) (last_n (pos_part max) turns) in
    output_of out (not (eqb (length (items out)) (length (items input.messages)))) ""

-- `Strategy.Compact`; it has no error.
unfoldable pub compact : ℤ → Strategy
unfolding window
compact max input =
    if leb_ℤ max (pos 0)
    then ok (output_of (clone_messages input.messages) false "")
    else let (system, turns) = split_turns (items input.messages) in
      if leb_ℤ (pos (length turns)) max
      then ok (output_of (clone_messages input.messages) false "")
      else ok (window max input system turns)

-- `Factory`: `max_history` is read where `max_turns` is 0 or missing.
unfoldable pub factory : GoStd → AnyMap → Strategy
factory std config =
    let max = int_value std config "max_turns" (pos 0) in
    compact (
      if leb_ℤ max (pos 0) && leb_ℤ (pos 0) max
      then int_value std config "max_history" (pos 0)
      else max)
