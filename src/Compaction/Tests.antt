-- ===== src/Compaction/Tests.antt =====
-- The strategies and the default compactor at small conversations.
use Prim.Native.String.{String}
use kae_agent_public.Base.{
  pos, List, [], ◌∷◌, Option, none, some, Slice, nil, of, items, ok, err, ◌≡◌, refl, ◌≤ℤ◌, ◌<ℤ◌,
  ◌≤◌, length, keep_if, wrap64, ◌+ℤ◌, ◌-ℤ◌, arith, true, false,
}
use kae_agent_public.Llm.{Message}
use kae_agent_public.Llm.Clone.{clone_messages}
use kae_agent_public.Compaction.Types.{
  GoStd, Input, Output, output_of, exceeds_max_tokens, TokenEstimator,
}
use kae_agent_public.Compaction.Estimator.{estimate_prompt_tokens}
use kae_agent_public.Compaction.Engine
use kae_agent_public.Compaction.Trigger.{count_turns, max_turns_trigger}
use kae_agent_public.Compaction.Turns.{split_turns, is_system}
use kae_agent_public.Compaction.Turns.Split.{joined, not_system, split_turns_keeps}
use kae_agent_public.Compaction.Turns.Shape.{AreTurns, split_turns-AreTurns}
use kae_agent_public.Compaction.SlidingWindow
use kae_agent_public.Compaction.SlidingWindow.Keeps
use kae_agent_public.Compaction.TurnWindow
use kae_agent_public.Compaction.TurnWindow.Keeps as TurnKeeps
use kae_agent_public.Compaction.TokenLimit
use kae_agent_public.Compaction.TokenLimit.Keeps as LimitKeeps
use kae_agent_public.Compaction.TokenLimit.Keeps.{Keeps as Kept}
use kae_agent_public.Compaction.TokenLimit.Cut.{leading}
use kae_agent_public.Compaction.Default.{turns_engine}
use kae_agent_public.Compaction.Default.Settles.{turns_engine_fires, turns_engine_settles}

abbrev std : GoStd
std = record {
  calls_json_len = λ cs. length cs;
  tools_json_len = λ ts. length ts;
  float_to_int = λ b. pos b;
}

abbrev say : String → String → Message
say role content = record {
  role = role;
  content = content;
  name = "";
  tool_call_id = "";
  tool_calls = nil;
}

-- One system message and three turns.
abbrev talk : List Message
talk =
    say "system" "sys"
    ∷ say "user" "a"
    ∷ say "assistant" "b"
    ∷ say "tool" "c"
    ∷ say "user" "d"
    ∷ say "assistant" "e"
    ∷ say "user" "f"
    ∷ []

abbrev input_of : List Message → Input
input_of ms = record { session_id = "s"; messages = of ms; tools = []; metadata = none }

split_talk : split_turns talk ≡ (
  say "system" "sys" ∷ [],
  (say "user" "a" ∷ say "assistant" "b" ∷ say "tool" "c" ∷ [])
      ∷ (say "user" "d" ∷ say "assistant" "e" ∷ [])
      ∷ (say "user" "f" ∷ [])
      ∷ [],
)
unfolding split_turns
split_talk = refl

split_turns_keeps_example :
    ((split_turns talk).0 ≡ keep_if is_system talk)
    × (joined (split_turns talk).1 ≡ keep_if not_system talk)
split_turns_keeps_example = split_turns_keeps talk

split_turns-AreTurns_example : AreTurns (split_turns talk).1
split_turns-AreTurns_example = split_turns-AreTurns talk

-- A window of 3 over one system message keeps two others: the documentation's example keeps as many
-- others as the window says.
sliding_window_over_example :
    SlidingWindow.compact (pos 3) (input_of talk)
    ≡ ok (output_of (of (say "system" "sys" ∷ say "assistant" "e" ∷ say "user" "f" ∷ [])) true "")
unfolding SlidingWindow.Keeps.kept
sliding_window_over_example =
    SlidingWindow.Keeps.sliding_window_over 3 (input_of talk) (omega arith) (omega arith)

sliding_window_bounded_example :
    length (items (output_of (of (say "system" "sys" ∷ say "user" "f" ∷ [])) true "").messages) ≤ 2
unfolding ◌-ℤ◌
sliding_window_bounded_example =
    SlidingWindow.Keeps.sliding_window_bounded 2 (input_of talk)
      (output_of (of (say "system" "sys" ∷ say "user" "f" ∷ [])) true "") (omega arith)
      (unfold SlidingWindow.compact SlidingWindow.partition clone_messages in refl)

turn_window_over_example :
    TurnWindow.compact (pos 2) (input_of talk) ≡ ok (output_of (of (TurnKeeps.kept 2 talk)) true "")
unfolding split_turns
turn_window_over_example = TurnKeeps.turn_window_over 2 (input_of talk) (omega arith) (omega arith)

-- An estimator that counts messages; the overhead adds 8 for each.
abbrev by_count : Option TokenEstimator
by_count = some (λ ms. pos (length (items ms)))

abbrev trimmed : List Message
trimmed = say "system" "sys" ∷ say "user" "d" ∷ say "assistant" "e" ∷ say "user" "f" ∷ []

trimmed_runs :
    TokenLimit.compact std (pos 40) by_count (input_of talk) ≡ ok (output_of (of trimmed) true "")
unfolding TokenLimit.compact TokenLimit.trim TokenLimit.goes_on TokenLimit.drop_oldest_turn
    TokenLimit.first_user_index TokenLimit.user_index_from TokenLimit.turn_end
    TokenLimit.has_droppable_turns clone_messages estimate_prompt_tokens wrap64 ◌+ℤ◌
trimmed_runs = refl

token_limit_fits_example :
    (estimate_prompt_tokens std (of trimmed) [] by_count ≤ℤ pos 40) × Kept talk trimmed
token_limit_fits_example =
    LimitKeeps.token_limit_fits std 40 by_count (input_of talk) (output_of (of trimmed) true "")
      (omega arith) trimmed_runs

too_small :
    TokenLimit.compact std (pos 5) by_count (input_of talk)
    ≡ err (exceeds_max_tokens (pos 9) (pos 5))
unfolding TokenLimit.compact TokenLimit.trim TokenLimit.goes_on TokenLimit.drop_oldest_turn
    TokenLimit.first_user_index TokenLimit.user_index_from TokenLimit.turn_end
    TokenLimit.has_droppable_turns clone_messages estimate_prompt_tokens wrap64 ◌+ℤ◌
too_small = refl

token_limit_fails_example :
    (ms : Slice Message) × (items ms ≡ leading talk)
    × (pos 5 <ℤ estimate_prompt_tokens std ms [] by_count)
    × (exceeds_max_tokens (pos 9) (pos 5)
        ≡ exceeds_max_tokens (estimate_prompt_tokens std ms [] by_count) (pos 5))
token_limit_fails_example =
    LimitKeeps.token_limit_fails std 5 by_count (input_of talk) (exceeds_max_tokens (pos 9) (pos 5))
      (omega arith) too_small

-- A system message inside a turn is dropped with the turn.
system_dropped :
    TokenLimit.compact std
      (pos 10)
      by_count
      (input_of (say "user" "a" ∷ say "system" "note" ∷ say "user" "b" ∷ []))
    ≡ ok (output_of (of (say "user" "b" ∷ [])) true "")
unfolding TokenLimit.compact TokenLimit.trim TokenLimit.goes_on TokenLimit.drop_oldest_turn
    TokenLimit.first_user_index TokenLimit.user_index_from TokenLimit.turn_end
    TokenLimit.has_droppable_turns clone_messages estimate_prompt_tokens wrap64 ◌+ℤ◌
system_dropped = refl

abbrev fired : Output
fired = record {
  messages = of (TurnKeeps.kept 2 talk);
  compacted = true;
  reason = "max turns exceeded";
  metadata = none;
  tokens_before = estimate_prompt_tokens std (of talk) [] (turns_engine std (pos 2)).estimator;
  tokens_after =
      estimate_prompt_tokens std (of (TurnKeeps.kept 2 talk)) []
        (turns_engine std (pos 2)).estimator;
}

turns_engine_fires_example :
    Engine.compact std (turns_engine std (pos 2)) (input_of talk) ≡ ok fired
unfolding count_turns
turns_engine_fires_example = turns_engine_fires std 2 (input_of talk) (omega arith) (omega arith)

turns_engine_settles_example :
    max_turns_trigger
      (pos 2)
      (record { session_id = "s"; messages = fired.messages; tools = []; metadata = none })
    ≡ ok (false, "")
turns_engine_settles_example =
    turns_engine_settles std (pos 2) (input_of talk) fired turns_engine_fires_example
