-- ===== src/Streaming/Tests.antt =====
-- A budget of ten tokens, with costs counted in whole units, and a stream of two tool calls.
use kae_agent_public.Llm.Value.{AnyMap}
use kae_agent_public.Streaming.Assembler.Fragments
use kae_agent_public.Streaming.Assembler.Described.{Assembled, assemble-Assembled}
use kae_agent_public.Streaming.Assembler.{
  ToolCallDelta, assemble, assemble_from, call_of, write_delta, new_assembler,
}
use kae_agent_public.Base.{
  String, Result, ok, none, of, ℕ, ℤ, pos, ◌+ℤ◌, ◌-ℤ◌, ltb_ℤ, List, [], ◌∷◌, some, ◌≡◌, refl, ◌≢◌,
  arith,
}
use kae_agent_public.Streaming.Budget.{
  Floats, BudgetConfig, tokens_exceeded, new_budget, check, remaining_tokens,
}
use kae_agent_public.Streaming.Budget.Limits.{add_all, Counts-new, budget_over, budget_within}

abbrev units : Floats ℤ
units = record {
  of_int = λ n. n;
  plus = λ a b. a +ℤ b;
  minus = λ a b. a -ℤ b;
  times = λ a b. b;
  less = ltb_ℤ;
}

abbrev config : BudgetConfig ℤ
config = record {
  max_tokens = pos 10;
  max_cost_usd = pos 0;
  cost_per_input_token = pos 0;
  cost_per_output_token = pos 0;
}

abbrev usages : List (ℕ × ℕ)
usages = (3, 1) ∷ (5, 2) ∷ []

budget_over_example :
    (check units (add_all units usages (new_budget units config))
      ≡ some (tokens_exceeded (pos 11) (pos 10)))
    × (remaining_tokens units (add_all units usages (new_budget units config)) ≡ pos 0)
unfolding new_budget
budget_over_example =
    budget_over units usages 0 10 (new_budget units config) (Counts-new units config) (omega arith)
      refl (omega arith) (omega arith)

budget_within_example :
    (remaining_tokens units (add_all units ((3, 1) ∷ []) (new_budget units config)) ≡ pos 6)
    × (check units (add_all units ((3, 1) ∷ []) (new_budget units config))
        ≢ some (tokens_exceeded (pos 4) (pos 10)))
unfolding new_budget
budget_within_example =
    budget_within units ((3, 1) ∷ []) 0 10 (new_budget units config) (pos 4) (pos 10)
      (Counts-new units config) (omega arith) refl (omega arith) (omega arith)

abbrev piece : String → String → String → ToolCallDelta
piece id name input = record { id = id; name = name; input = input }

-- Two calls whose fragments interleave.
abbrev pieces : List (ℤ × ToolCallDelta)
pieces =
    (pos 1, piece "b" "sea" "") ∷ (pos 0, piece "" "weather" "") ∷ (pos 1, piece "" "rch" "x") ∷ []

abbrev reads : String → Result String AnyMap
reads s = ok none

abbrev prints : ℤ → String
prints i = "0"

pieces_joined :
    assemble reads prints (Fragments.add_all pieces new_assembler)
    ≡ ok (
        of (
          record { id = "b"; name = "search"; input = none }
          ∷ record { id = "call_0"; name = "weather"; input = none }
          ∷ []))
unfolding assemble_from call_of write_delta
pieces_joined = Fragments.assemble-add_all reads prints pieces

assemble-Assembled_example :
    Assembled reads prints pieces
      (Fragments.firsts pieces [])
      (assemble reads prints (Fragments.add_all pieces new_assembler))
assemble-Assembled_example = assemble-Assembled reads prints pieces
