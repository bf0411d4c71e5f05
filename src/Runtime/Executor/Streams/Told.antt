-- ===== src/Runtime/Executor/Streams/Told.antt =====
-- What a stream of deltas comes to, told without the loop and the assembler.
use text.Mathlib.TextLemmas.{nil-append}
use kae_agent_public.Base.{
  ℤ, pos, ◌+ℤ◌, wrap64, String, List, [], ◌∷◌, Slice, Result, ok, err, ◌≡◌, refl, sym, ap, subst,
  ◌∙◌,
}
use kae_agent_public.Llm.{ToolCall, Usage}
use kae_agent_public.Llm.Value.{AnyMap}
use kae_agent_public.Streaming.Assembler.{ParseError}
use kae_agent_public.Streaming.Assembler.Fragments.{firsts}
use kae_agent_public.Streaming.Assembler.Described.{Assembled, assemble-Assembled}
use kae_agent_public.Runtime.Executor.{Exec, ExecError, assembly_failed}
use kae_agent_public.Runtime.Executor.Streams.{
  DeltaOutput, StreamState, no_usage, new_stream_state, add_usage_delta, read_stream,
}
use kae_agent_public.Runtime.Executor.Streams.Described.{
  Delta, says, calls, spends, stream_of, text_of, fragments_of, usage_of, Takes, Gives,
  stream-Gives,
}

-- A count of tokens over the reports of usage among the deltas, from n on, in 64 bits.
abbrev pub tokens_of : (Usage → ℤ) → ℤ → List Delta → ℤ
tokens_of f n [] = n
tokens_of f n (says t ∷ ds) = tokens_of f n ds
tokens_of f n (calls i d ∷ ds) = tokens_of f n ds
tokens_of f n (spends u ∷ ds) = tokens_of f (wrap64 (n +ℤ f u)) ds

tokens_of_usage :
    (f : Usage → ℤ)
    → ((u v : Usage) → f (add_usage_delta u v) ≡ wrap64 (f u +ℤ f v))
    → (ds : List Delta) (u : Usage) → f (usage_of u ds) ≡ tokens_of f (f u) ds
tokens_of_usage f h [] u = refl
tokens_of_usage f h (says t ∷ ds) u = tokens_of_usage f h ds u
tokens_of_usage f h (calls i d ∷ ds) u = tokens_of_usage f h ds u
tokens_of_usage f h (spends v ∷ ds) u =
    tokens_of_usage f h ds (add_usage_delta u v) ∙ ap (λ n. tokens_of f n ds) (h u v)

-- The usage of a stream.
abbrev pub Summed : List Delta → Usage → Type 0
Summed ds u =
    (u.input_tokens ≡ tokens_of (λ v. v.input_tokens) (pos 0) ds)
    × (u.output_tokens ≡ tokens_of (λ v. v.output_tokens) (pos 0) ds)
    × (u.total_tokens ≡ tokens_of (λ v. v.total_tokens) (pos 0) ds)

usage_of-Summed : (ds : List Delta) → Summed ds (usage_of no_usage ds)
unfolding add_usage_delta
usage_of-Summed ds = (
  tokens_of_usage (λ u. u.input_tokens) (λ u v. refl) ds no_usage,
  tokens_of_usage (λ u. u.output_tokens) (λ u v. refl) ds no_usage,
  tokens_of_usage (λ u. u.total_tokens) (λ u v. refl) ds no_usage,
)

module _ (parse : String → Result String AnyMap) (print : ℤ → String) where
  -- What the assembler makes of the fragments of a stream, which are not blank.
  abbrev pub Joined : List Delta → Result ParseError (Slice ToolCall) → Type 0
  Joined ds r = Assembled parse print (fragments_of ds) (firsts (fragments_of ds) []) r

  -- What the loop gives for a stream of deltas with an end.
  abbrev pub Told :
      {F E : Type 0} → List Delta → Result (ExecError F E) (StreamState × Slice ToolCall) → Type 0
  Told ds (err e) = (p : ParseError) × (e ≡ assembly_failed p) × Joined ds (err p)
  Told ds (ok (t, cs)) = (t.streamed ≡ text_of ds) × Summed ds t.usage_so_far × Joined ds (ok cs)

  Gives-Told :
      {F E : Type 0} (ds : List Delta) (r : Result (ExecError F E) (StreamState × Slice ToolCall))
      → Gives parse print new_stream_state ds r
      → Told ds r
  Gives-Told ds (err e) (p, a, b) =
      (p, a, subst (Joined ds) b (assemble-Assembled parse print (fragments_of ds)))
  Gives-Told ds (ok (t, cs)) (a, b, c) = (
    a ∙ nil-append (text_of ds),
    subst (Summed ds) (sym b) (usage_of-Summed ds),
    subst (Joined ds) c (assemble-Assembled parse print (fragments_of ds)),
  )

module _ {F Sch W E : Type 0} (parse : String → Result String AnyMap) (print : ℤ → String)
    (out : DeltaOutput W E) where
  -- For a receiver that takes every event, a stream of deltas with an end gives the texts one after
  -- the other, each count of tokens summed in 64 bits over the reports of usage, and one call for each
  -- index of the fragments that are not blank, made of the joined fragments of that index; its only
  -- error is an input of a call that is no object.
  pub read_stream-Told :
      (ds : List Delta) (x : Exec F Sch W)
      → Takes out
      → Told parse print ds (read_stream parse print out (stream_of ds) new_stream_state x).0
  read_stream-Told ds x takes =
      Gives-Told parse print ds _ (stream-Gives parse print out ds new_stream_state x takes)
