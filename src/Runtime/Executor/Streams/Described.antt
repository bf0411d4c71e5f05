-- ===== src/Runtime/Executor/Streams/Described.antt =====
-- What the loop of a streaming step makes of a stream of deltas.
use kae_agent_public.Base.{
  ℤ, String, ◌+++◌, List, [], ◌∷◌, Option, none, some, Slice, Result, ok, err, true, false, ◌≡◌,
  refl, sym, ◌∙◌, Bool-cases, inl, inr, if◌then◌else◌,
}
use text.Mathlib.TextLemmas.{append_assoc, append-nil}
use kae_agent_public.Base.{◌==◌, ◌&&◌, Bool}
use kae_agent_public.Llm.{ToolCall, Usage}
use kae_agent_public.Llm.Value.{AnyMap}
use kae_agent_public.Streaming.Assembler.{ToolCallDelta, ParseError, add_fragment, assemble}
use kae_agent_public.Streaming.Assembler.Fragments.{add_all}
use kae_agent_public.Runtime.Executor.{
  Exec, Ended, ExecError, assembly_failed, and_then, called, with_world,
}
use kae_agent_public.Runtime.Executor.Streams.{
  text_delta, tool_call, usage, done, Event, Received, received, DeltaOutput, StreamState,
  add_usage_delta, is_blank, assembled, read_stream,
}

-- The deltas that a provider sends before the end, which are neither an error nor the end.
pub data Delta : Type 0 where
  says : String → Delta
  calls : ℤ → ToolCallDelta → Delta
  spends : Usage → Delta

abbrev pub event_of : {E : Type 0} → Delta → Event E
event_of (says t) = record {
  kind = text_delta;
  text = some t;
  tool = none;
  usage_delta = none;
  failure = none;
}
event_of (calls i d) = record {
  kind = tool_call;
  text = none;
  tool = some (i, d);
  usage_delta = none;
  failure = none;
}
event_of (spends u) = record {
  kind = usage;
  text = none;
  tool = none;
  usage_delta = some u;
  failure = none;
}

abbrev pub ending : {E : Type 0} → Event E
ending = record { kind = done; text = none; tool = none; usage_delta = none; failure = none }

-- The deltas, and then the end.
abbrev pub stream_of : {E : Type 0} → List Delta → List (Received E)
stream_of [] = received ending ∷ []
stream_of (d ∷ ds) = received (event_of d) ∷ stream_of ds

-- A fragment without an id, a name and a text.
abbrev pub says_nothing : ToolCallDelta → Bool
says_nothing d = (d.id == "") && (d.name == "") && (d.input == "")

-- The text, the fragments and the usage among the deltas.
abbrev pub text_of : List Delta → String
text_of [] = ""
text_of (says t ∷ ds) = t +++ text_of ds
text_of (calls i d ∷ ds) = text_of ds
text_of (spends u ∷ ds) = text_of ds

abbrev pub fragments_of : List Delta → List (ℤ × ToolCallDelta)
fragments_of [] = []
fragments_of (says t ∷ ds) = fragments_of ds
fragments_of (calls i d ∷ ds) = if says_nothing d then fragments_of ds else (i, d) ∷ fragments_of ds
fragments_of (spends u ∷ ds) = fragments_of ds

abbrev pub usage_of : Usage → List Delta → Usage
usage_of v [] = v
usage_of v (says t ∷ ds) = usage_of v ds
usage_of v (calls i d ∷ ds) = usage_of v ds
usage_of v (spends u ∷ ds) = usage_of (add_usage_delta v u) ds

-- A receiver that takes every event.
abbrev pub Takes : {W E : Type 0} → DeltaOutput W E → Type 0
Takes {W} out =
    ((t : String) (w : W) → (out.send_text t w).0 ≡ none)
    × ((i : ℤ) (d : ToolCallDelta) (w : W) → (out.send_tool i d w).0 ≡ none)
    × ((u : Usage) (w : W) → (out.send_usage u w).0 ≡ none)

module _ (parse : String → Result String AnyMap) (print : ℤ → String) where
  -- What a stream gives from the state s, for the deltas that are left.
  abbrev pub Gives :
      {F E : Type 0}
      → StreamState
      → List Delta
      → Result (ExecError F E) (StreamState × Slice ToolCall)
      → Type 0
  Gives s ds (err e) =
      (p : ParseError) × (e ≡ assembly_failed p)
      × (assemble parse print (add_all (fragments_of ds) s.assembler) ≡ err p)
  Gives s ds (ok (t, cs)) =
      (t.streamed ≡ s.streamed +++ text_of ds)
      × (t.usage_so_far ≡ usage_of s.usage_so_far ds)
      × (assemble parse print (add_all (fragments_of ds) s.assembler) ≡ ok cs)

  says-Gives :
      {F E : Type 0} (t : String) (s : StreamState) (ds : List Delta)
      (r : Result (ExecError F E) (StreamState × Slice ToolCall))
      → Gives (record s { streamed = s.streamed +++ t }) ds r
      → Gives s (says t ∷ ds) r
  says-Gives t s ds (err e) h = h
  says-Gives t s ds (ok (u, cs)) (a, b, c) = (a ∙ append_assoc s.streamed t (text_of ds), b, c)

  calls-Gives :
      {F E : Type 0} (i : ℤ) (d : ToolCallDelta) (s : StreamState) (ds : List Delta)
      (r : Result (ExecError F E) (StreamState × Slice ToolCall))
      → is_blank d ≡ false
      → Gives (record s { assembler = add_fragment i d s.assembler }) ds r
      → Gives s (calls i d ∷ ds) r
  calls-Gives i d s ds (err e) p h = rw p h
  calls-Gives i d s ds (ok (u, cs)) p h = rw p h

  blank-Gives :
      {F E : Type 0} (i : ℤ) (d : ToolCallDelta) (s : StreamState) (ds : List Delta)
      (r : Result (ExecError F E) (StreamState × Slice ToolCall))
      → is_blank d ≡ true
      → Gives s ds r
      → Gives s (calls i d ∷ ds) r
  blank-Gives i d s ds (err e) p h = rw p h
  blank-Gives i d s ds (ok (u, cs)) p h = rw p h

  spends-Gives :
      {F E : Type 0} (v : Usage) (s : StreamState) (ds : List Delta)
      (r : Result (ExecError F E) (StreamState × Slice ToolCall))
      → Gives (record s { usage_so_far = add_usage_delta s.usage_so_far v }) ds r
      → Gives s (spends v ∷ ds) r
  spends-Gives v s ds (err e) h = h
  spends-Gives v s ds (ok (u, cs)) h = h

  end-Gives :
      {F Sch W : Type 0} (E : Type 0) (s : StreamState) (x : Exec F Sch W)
      (r : Result ParseError (Slice ToolCall))
      → assemble parse print s.assembler ≡ r
      → Gives s [] (assembled {E = E} r (λ cs. ok (s, cs)) x).0
  unfolding assembled
  end-Gives E s x (ok cs) p = (sym (append-nil s.streamed), refl, p)
  end-Gives E s x (err e) p = (e, refl, p)

-- A call that the receiver takes goes on.
sent :
    {F Sch W E B : Type 0} (x : Exec F Sch W) (r : Option E × W)
    (f : Unit → Exec F Sch W → Ended F Sch W E B)
    → r.0 ≡ none
    → and_then (called x r) f ≡ f tt (with_world r.1 x)
sent x (none, w) f h = refl
sent x (some e, w) f h = cc

module _ {F Sch W E : Type 0} (parse : String → Result String AnyMap) (print : ℤ → String)
    (out : DeltaOutput W E) where
  pub stream-Gives :
      (ds : List Delta) (s : StreamState) (x : Exec F Sch W)
      → Takes out
      → Gives parse print s ds (read_stream parse print out (stream_of ds) s x).0
  unfolding read_stream
  stream-Gives [] s x takes = end-Gives parse print E s x _ refl
  stream-Gives (says t ∷ ds) s x takes =
      rw
        (sent x (out.send_text t x.world)
          (λ u y.
            read_stream parse print out (stream_of ds) (record s { streamed = s.streamed +++ t }) y)
          (takes.0 t x.world))
        (says-Gives parse print t s ds _ (stream-Gives ds _ _ takes))
  stream-Gives (calls i d ∷ ds) s x takes = elim (Bool-cases (is_blank d)) [
    | inl p ↦ rw p (blank-Gives parse print i d s ds _ p (stream-Gives ds s x takes))
    | inr p ↦
        rw
          (
            p,
            sent x (out.send_tool i d x.world)
                (λ u y.
                  read_stream parse print out (stream_of ds)
                    (record s { assembler = add_fragment i d s.assembler }) y)
                (takes.1 i d x.world),
          )
          (calls-Gives parse print i d s ds _ p (stream-Gives ds _ _ takes))
  ]
  stream-Gives (spends v ∷ ds) s x takes =
      rw
        (sent x (out.send_usage v x.world)
          (λ u y.
            read_stream parse print out (stream_of ds)
              (record s { usage_so_far = add_usage_delta s.usage_so_far v }) y)
          (takes.2 v x.world))
        (spends-Gives parse print v s ds _ (stream-Gives ds _ _ takes))
