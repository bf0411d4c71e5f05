-- ===== src/Compaction/TurnWindow/Keeps.antt =====
-- What the turn window keeps, and that it settles the turn trigger.
use mathlib.Core.List.{append_assoc, append-nil}
use kae_agent_public.Base.{
  ℕ, ◌<◌, ◌≡◌, sym, ◌∙◌, ap, ℤ, pos, true, false, List, [], ◌∷◌, ◌++◌, of, items, ok, length,
  last_n, keep_if, length-append, length-keep_if-not, arith, leb_ℤ, ◌≤ℤ◌, ◌⊎◌,
}
use kae_agent_public.Llm.{Message}
use kae_agent_public.Llm.Clone.{clone_messages_id}
use kae_agent_public.Compaction.Types.{Input, output_of}
use kae_agent_public.Compaction.Turns.{is_system, split_turns}
use kae_agent_public.Compaction.Turns.Split.{joined, split_turns_keeps}
use kae_agent_public.Compaction.Turns.Count.{last_turns}
use kae_agent_public.Compaction.TurnWindow.{append_turns, compact}

append_turns-joined :
    (xs : List Message) (ts : List (List Message)) → append_turns (of xs) ts ≡ of (xs ++ joined ts)
unfolding append_turns
append_turns-joined xs [] = ap of (sym (append-nil xs))
append_turns-joined xs (t ∷ ts) =
    append_turns-joined (xs ++ t) ts ∙ ap of (append_assoc xs t (joined ts))

leb_false : (a b : ℕ) → b < a → leb_ℤ (pos a) (pos b) ≡ false
leb_false a b h = ground arith

-- The messages that stay where more than n turns are there.
unfoldable pub kept : ℕ → List Message → List Message
kept n ms = keep_if is_system ms ++ joined (last_n n (split_turns ms).1)

kept_shorter :
    (n : ℕ) (ms : List Message) → n < length (split_turns ms).1 → length (kept n ms) < length ms
unfolding kept
kept_shorter n ms h = omega (
  arith,
  length-append (keep_if is_system ms) (joined (last_n n (split_turns ms).1)),
  last_turns n ms h,
  length-keep_if-not is_system ms,
)

-- With a positive window that the turns exceed, the output holds all system messages in their order
-- and then the last turns whole, and is marked as compacted.
pub turn_window_over :
    (n : ℕ) (input : Input)
    → 0 < n
    → n < length (split_turns (items input.messages)).1
    → compact (pos n) input ≡ ok (output_of (of (kept n (items input.messages))) true "")
unfolding compact kept
turn_window_over n input h k =
    let ms = items input.messages in
    rw (leb_false n 0 h, leb_false (length (split_turns ms).1) n k)
      (rw (clone_messages_id, (split_turns_keeps ms).0, append_turns-joined)
        (ground (arith, kept_shorter n ms k)))

-- With no window, or one that the turns do not exceed, the messages are left as they are and the
-- output is not marked as compacted.
pub turn_window_within :
    (max : ℤ) (input : Input)
    → (max ≤ℤ pos 0) ⊎ (pos (length (split_turns (items input.messages)).1) ≤ℤ max)
    → compact max input ≡ ok (output_of input.messages false "")
unfolding compact
turn_window_within max input h = rw clone_messages_id (ground arith)
