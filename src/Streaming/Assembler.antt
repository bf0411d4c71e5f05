-- ===== src/Streaming/Assembler.antt =====
-- agent/internal/streaming/tool_call_assembler.go: `ToolCallAssembler`, which joins the fragments of
-- tool calls that a stream interleaves. `json.Unmarshal` and the printed index are parameters.
pub mod Fragments
pub mod Described
use kae_agent_public.Base.{
  ℕ, ◌+◌, ℤ, pos_part, neg_part, eqb, String, ◌+++◌, ◌==◌, List, [], ◌∷◌, ◌++◌, Option, none, some,
  Slice, nil, of, Result, ok, err, Bool, if◌then◌else◌,
}
use kae_agent_public.Llm.{ToolCall}
use kae_agent_public.Llm.Value.{AnyMap}

pub record ToolCallDelta : Type 0 where
  pub id : String
  pub name : String
  pub input : String

pub record Accum : Type 0 where
  pub id : String
  pub name : String
  pub input : String

pub record Assembler : Type 0 where
  pub accumulators : List (ℤ × Accum)
  pub order : List ℤ

abbrev pub eqb_ℤ : ℤ → ℤ → Bool
eqb_ℤ a b = eqb (pos_part a + neg_part b) (pos_part b + neg_part a)

abbrev pub find : ℤ → List (ℤ × Accum) → Option Accum
find i [] = none
find i ((j, a) ∷ m) = if eqb_ℤ j i then some a else find i m

abbrev pub put : ℤ → Accum → List (ℤ × Accum) → List (ℤ × Accum)
put i v [] = (i, v) ∷ []
put i v ((j, a) ∷ m) = if eqb_ℤ j i then (j, v) ∷ m else (j, a) ∷ put i v m

-- `make(map[int]*toolCallAccum)` and no order; `Reset` sets both so, too.
unfoldable pub new_assembler : Assembler
new_assembler = record { accumulators = []; order = [] }

abbrev pub new_accum : Accum
new_accum = record { id = ""; name = ""; input = "" }

-- The accumulator of an index, or a new one.
abbrev pub accum_or_new : Option Accum → Accum
accum_or_new none = new_accum
accum_or_new (some a) = a

-- What a fragment adds to its call.
unfoldable pub write_delta : ToolCallDelta → Accum → Accum
write_delta d a = record {
  id = if d.id == "" then a.id else d.id;
  name = if d.name == "" then a.name else a.name +++ d.name;
  input = if d.input == "" then a.input else a.input +++ d.input;
}

unfoldable pub add_fragment : ℤ → ToolCallDelta → Assembler → Assembler
add_fragment i d s = elim (find i s.accumulators) [
  | none ↦ record {
    accumulators = put i (write_delta d new_accum) s.accumulators;
    order = s.order ++ i ∷ [];
  }
  | some a ↦ record { accumulators = put i (write_delta d a) s.accumulators; order = s.order }
]

-- The error of an input that is no JSON object, with the name of the call.
pub data ParseError : Type 0 where
  bad_input : String → String → ParseError

abbrev pub as_slice : Result ParseError (List ToolCall) → Result ParseError (Slice ToolCall)
as_slice (err e) = err e
as_slice (ok []) = ok nil
as_slice (ok (c ∷ cs)) = ok (of (c ∷ cs))

-- One round of the loop of `Assemble`: the first error stops it.
abbrev pub cons_call :
    Result ParseError ToolCall
    → Result ParseError (List ToolCall)
    → Result ParseError (List ToolCall)
cons_call (err e) rest = err e
cons_call (ok c) (err e) = err e
cons_call (ok c) (ok cs) = ok (c ∷ cs)

module _ (parse : String → Result String AnyMap) (print : ℤ → String) where
  -- The input of a call: a nil map where no fragment had any.
  abbrev pub input_of : Accum → Result ParseError AnyMap
  input_of a =
      if a.input == ""
      then ok none
      else (elim (parse a.input) [ ok m ↦ ok m | err e ↦ err (bad_input a.name e) ])

  unfoldable pub call_of : ℤ → Accum → Result ParseError ToolCall
  call_of i a = elim (input_of a) [
    | err e ↦ err e
    | ok m ↦
        ok (record {
          id = if a.id == "" then "call_" +++ print i else a.id;
          name = a.name;
          input = m;
        })
  ]

  -- The loop of `Assemble` over the order.
  unfoldable pub assemble_from : (ℤ → Option Accum) → List ℤ → Result ParseError (List ToolCall)
  assemble_from at [] = ok []
  assemble_from at (i ∷ is) = cons_call (call_of i (accum_or_new (at i))) (assemble_from at is)

  -- `Assemble`: nil where there was no fragment.
  unfoldable pub assemble : Assembler → Result ParseError (Slice ToolCall)
  unfolding assemble_from
  assemble s = as_slice (assemble_from (λ i. find i s.accumulators) s.order)
