-- ===== src/Compaction/Default/Settles.antt =====
-- The default compactors do what their triggers ask for.
use kae_agent_public.Base.{
  ℕ, zero, suc, ltb, ◌⊎◌, ◌<◌, ◌≡◌, ℤ, pos, negsuc, ◌≤ℤ◌, true, false, Slice, of, items, ok, arith,
  none, Bool-cases, inl, inr, length,
}
use kae_agent_public.Llm.{Message}
use kae_agent_public.Llm.Clone.{clone_messages_id}
use kae_agent_public.Compaction.Types.{GoStd, Input, Output}
use kae_agent_public.Compaction.Trigger.{count_turns, max_turns_trigger}
use kae_agent_public.Compaction.Estimator.{estimate_prompt_tokens}
use kae_agent_public.Compaction.Engine.{compact}
use kae_agent_public.Compaction.Turns.{split_turns}
use kae_agent_public.Compaction.Turns.Count.{last_turns, count_turns-le-length_split}
use kae_agent_public.Compaction.TurnWindow
use kae_agent_public.Compaction.TurnWindow.Keeps.{kept, turn_window_over}
use kae_agent_public.Compaction.Default.{turns_engine}

trigger_fires :
    (n : ℕ) (input : Input)
    → 0 < n
    → n < count_turns (items input.messages)
    → max_turns_trigger (pos n) input ≡ ok (true, "max turns exceeded")
unfolding max_turns_trigger
trigger_fires n input h k = ground arith

trigger_rests :
    (max : ℤ) (input : Input)
    → (max ≤ℤ pos 0) ⊎ (pos (count_turns (items input.messages)) ≤ℤ max)
    → max_turns_trigger max input ≡ ok (false, "")
unfolding max_turns_trigger
trigger_rests max input h = ground arith

module _ (std : GoStd) (n : ℕ) (input : Input) where
  abbrev estimate : Slice Message → ℤ
  estimate ms = estimate_prompt_tokens std ms input.tools (turns_engine std (pos n)).estimator

  -- Where the turn trigger of the default compactor fires, the turn window compacts: all system
  -- messages and the last n turns stay, and the estimates are those of the input and of what stays.
  pub turns_engine_fires :
      0 < n
      → n < count_turns (items input.messages)
      → compact std (turns_engine std (pos n)) input
        ≡ ok (record {
          messages = of (kept n (items input.messages));
          compacted = true;
          reason = "max turns exceeded";
          metadata = none;
          tokens_before = estimate input.messages;
          tokens_after = estimate (of (kept n (items input.messages)));
        })
  unfolding compact turns_engine
  turns_engine_fires h k =
      let over : n < length (split_turns (items input.messages)).1 =
        omega (arith, count_turns-le-length_split (items input.messages)) in
      rw (clone_messages_id, trigger_fires n input h k, turn_window_over n input h over)

turns_engine_rests :
    (std : GoStd) (max : ℤ) (input : Input)
    → (max ≤ℤ pos 0) ⊎ (pos (count_turns (items input.messages)) ≤ℤ max)
    → (out : Output) → compact std (turns_engine std max) input ≡ ok out
    → out.messages ≡ input.messages
unfolding compact turns_engine
turns_engine_rests std max input h out e =
    ground (arith, trigger_rests max input h, clone_messages_id input.messages)

fired_count :
    (std : GoStd) (k : ℕ) (input : Input) (out : Output)
    → suc k < count_turns (items input.messages)
    → compact std (turns_engine std (pos (suc k))) input ≡ ok out
    → pos (count_turns (items out.messages)) ≤ℤ pos (suc k)
unfolding TurnWindow.Keeps.kept
fired_count std k input out h e =
    let over : suc k < length (split_turns (items input.messages)).1 =
      omega (arith, count_turns-le-length_split (items input.messages)) in
    ground (
      arith,
      turns_engine_fires std (suc k) input (omega arith) h,
      last_turns (suc k) (items input.messages) over,
    )

-- One successful run of the default compactor by turns settles it, whatever its limit and whether it
-- compacts or not: on the messages that it puts out, the turn trigger of that limit does not fire.
pub turns_engine_settles :
    (std : GoStd) (max : ℤ) (input : Input) (out : Output)
    → compact std (turns_engine std max) input ≡ ok out
    → max_turns_trigger max (record input { messages = out.messages }) ≡ ok (false, "")
turns_engine_settles std (negsuc k) input out e = trigger_rests (negsuc k) _ (inl (omega arith))
turns_engine_settles std (pos zero) input out e = trigger_rests (pos zero) _ (inl (omega arith))
turns_engine_settles std (pos (suc k)) input out e =
    elim (Bool-cases (ltb (suc k) (count_turns (items input.messages)))) [
      | inl over ↦
          trigger_rests (pos (suc k)) _ (inr (fired_count std k input out (ground arith) e))
      | inr within ↦
          let same = turns_engine_rests std (pos (suc k)) input (inr (ground arith)) out e in
          rw same (trigger_rests (pos (suc k)) input (inr (ground arith)))
    ]
