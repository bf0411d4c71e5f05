-- ===== src/Runtime/Executor/Streams/Tests.antt =====
-- A stream with two texts, a call in two fragments, a blank fragment and its usage.
use kae_agent_public.Base.{ℕ, suc, ℤ, pos, String, List, [], ◌∷◌, none, Result, ok, refl}
use kae_agent_public.Llm.Value.{AnyMap}
use kae_agent_public.Streaming.Assembler.{ToolCallDelta}
use kae_agent_public.Runtime.Executor.{Exec}
use kae_agent_public.Runtime.Executor.Tests.{started, rt}
use kae_agent_public.Runtime.Executor.Streams.{DeltaOutput, read_stream, new_stream_state}
use kae_agent_public.Runtime.Executor.Streams.Described.{Delta, says, calls, spends, stream_of}
use kae_agent_public.Runtime.Executor.Streams.Told.{Told, read_stream-Told}

abbrev parse : String → Result String AnyMap
parse s = ok none

abbrev print : ℤ → String
print i = "n"

-- The world counts the events.
abbrev counting : DeltaOutput ℕ String
counting = record {
  send_text = λ t w. (none, suc w);
  send_tool = λ i d w. (none, suc w);
  send_usage = λ u w. (none, suc w);
}

abbrev fragment : String → String → String → ToolCallDelta
fragment id name input = record { id = id; name = name; input = input }

abbrev deltas : List Delta
deltas =
    says "he"
    ∷ calls (pos 0) (fragment "c1" "echo" "")
    ∷ calls (pos 1) (fragment "" "" "")
    ∷ calls (pos 0) (fragment "" "" "{}")
    ∷ says "llo"
    ∷ spends (record { input_tokens = pos 1; output_tokens = pos 2; total_tokens = pos 3 })
    ∷ []

abbrev at_start : Exec ℤ String ℕ
at_start = record { run = started; rt = rt; world = 0 }

read_stream-Told_example :
    Told parse print deltas
      (read_stream parse print counting (stream_of deltas) new_stream_state at_start).0
read_stream-Told_example =
    read_stream-Told parse print counting deltas at_start
      ((λ t w. refl), (λ i d w. refl), (λ u w. refl))
