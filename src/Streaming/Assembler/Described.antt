-- ===== src/Streaming/Assembler/Described.antt =====
-- The calls that come of the fragments of a stream, told without the assembler.
use text.Mathlib.TextLemmas.{append_assoc, append-nil, nil-append}
use kae_agent_public.Base.{
  ℤ, String, ◌+++◌, ◌==◌, ◌&&◌, not, List, [], ◌∷◌, ◌++◌, Option, none, some, Slice, nil, of,
  Result, ok, err, Bool, true, false, if◌then◌else◌, ◌≡◌, refl, sym, subst, ap, ◌∙◌, Bool-cases,
  Result-cases, inl, inr, ◌⊎◌, eq_iff,
}
use kae_agent_public.Llm.{ToolCall}
use kae_agent_public.Llm.Value.{AnyMap}
use kae_agent_public.Streaming.Assembler.{
  ToolCallDelta, Accum, ParseError, bad_input, eqb_ℤ, new_assembler, write_delta, accum_or_new,
  call_of, cons_call, assemble_from, as_slice, assemble,
}
use kae_agent_public.Streaming.Assembler.Fragments.{add_all, own, firsts, assemble-add_all}

-- The texts of a field in the fragments of an index, one after the other.
abbrev pub joined : (ToolCallDelta → String) → ℤ → List (ℤ × ToolCallDelta) → String
joined f i [] = ""
joined f i ((j, d) ∷ ds) = if eqb_ℤ j i then f d +++ joined f i ds else joined f i ds

-- The last id that is not empty in the fragments of an index, or s.
abbrev pub last_id : ℤ → List (ℤ × ToolCallDelta) → String → String
last_id i [] s = s
last_id i ((j, d) ∷ ds) s = last_id i ds (if eqb_ℤ j i && not (d.id == "") then d.id else s)

module _ (parse : String → Result String AnyMap) (print : ℤ → String) where
  -- The input that a text stands for: nil for no text, and the object that is read otherwise.
  abbrev pub Reads : String → AnyMap → Type 0
  Reads text m = ((text ≡ "") × (m ≡ none)) ⊎ (((text == "") ≡ false) × (parse text ≡ ok m))

  -- The call of an index that has an id, a name and a text as its input, or the error of the text.
  abbrev pub Made : ℤ → String → String → String → Result ParseError ToolCall → Type 0
  Made i id name text (ok c) =
      (c.id ≡ (if id == "" then "call_" +++ print i else id)) × (c.name ≡ name) × Reads text c.input
  Made i id name text (err (bad_input n e)) =
      (n ≡ name) × ((text == "") ≡ false) × (parse text ≡ err e)

  -- What the fragments of an index come to.
  abbrev pub MadeOf : List (ℤ × ToolCallDelta) → ℤ → Result ParseError ToolCall → Type 0
  MadeOf ds i r =
      Made i (last_id i ds "") (joined (λ d. d.name) i ds) (joined (λ d. d.input) i ds) r

  -- One call for each index, in their order.
  abbrev pub AreCalls : List (ℤ × ToolCallDelta) → List ℤ → List ToolCall → Type 0
  AreCalls ds [] [] = Unit
  AreCalls ds (i ∷ is) (c ∷ cs) = MadeOf ds i (ok c) × AreCalls ds is cs
  AreCalls ds _ _ = ⊥

  -- The calls of all indices, or the error of one index after the calls of those before it.
  abbrev pub AllMade :
      List (ℤ × ToolCallDelta) → List ℤ → Result ParseError (List ToolCall) → Type 0
  AllMade ds is (ok cs) = AreCalls ds is cs
  AllMade ds is (err e) =
      (before : List ℤ) × (i : ℤ) × (after : List ℤ) × (cs : List ToolCall) × (is
        ≡ before ++ i ∷ after)
      × AreCalls ds before cs
      × MadeOf ds i (err e)

  -- The same for a slice, which is nil where there is no index.
  abbrev pub Assembled :
      List (ℤ × ToolCallDelta) → List ℤ → Result ParseError (Slice ToolCall) → Type 0
  Assembled ds is (err e) = AllMade ds is (err e)
  Assembled ds [] (ok s) = s ≡ nil
  Assembled ds (i ∷ is) (ok s) = (cs : List ToolCall) × (s ≡ of cs) × AreCalls ds (i ∷ is) cs

  call_of-Made : (i : ℤ) (a : Accum) → Made i a.id a.name a.input (call_of parse print i a)
  unfolding call_of
  call_of-Made i a = elim (Bool-cases (a.input == "")) [
    | inl p ↦ rw (p, call_of) (refl, refl, inl ((eq_iff a.input "").0 p, refl))
    | inr p ↦ elim (Result-cases (parse a.input)) [
      | inl (m, q) ↦ rw (p, q, call_of) (refl, refl, inr (p, q))
      | inr (e, q) ↦ rw (p, q, call_of) (refl, p, q)
    ]
  ]

-- A text is appended also where it is empty.
written : (s t : String) → (if t == "" then s else s +++ t) ≡ s +++ t
written s t = elim (Bool-cases (t == "")) [
  | inl p ↦ rw p (sym (append-nil s) ∙ ap (λ u. s +++ u) (sym ((eq_iff t "").0 p)))
  | inr p ↦ rw p refl
]

-- A text that each fragment extends by its own field is extended by the joined fields.
text_of_own :
    (f : ToolCallDelta → String) (g : Accum → String) (i : ℤ)
    → ((d : ToolCallDelta) (a : Accum) → g (write_delta d a) ≡ g a +++ f d)
    → (ds : List (ℤ × ToolCallDelta)) (o : Option Accum)
    → g (accum_or_new (own i ds o)) ≡ g (accum_or_new o) +++ joined f i ds
text_of_own f g i h [] o = sym (append-nil _)
text_of_own f g i h ((j, d) ∷ ds) o = elim (Bool-cases (eqb_ℤ j i)) [
  | inl p ↦ rw p (
      text_of_own f g i h ds (some (write_delta d (accum_or_new o)))
      ∙ ap (λ t. t +++ joined f i ds) (h d (accum_or_new o))
      ∙ append_assoc (g (accum_or_new o)) (f d) (joined f i ds))
  | inr p ↦ rw p (text_of_own f g i h ds o)
]

if-not : (b : Bool) (s t : String) → (if b then s else t) ≡ (if not b then t else s)
if-not true s t = refl
if-not false s t = refl

id_of_own :
    (i : ℤ) (ds : List (ℤ × ToolCallDelta)) (o : Option Accum)
    → (accum_or_new (own i ds o)).id ≡ last_id i ds (accum_or_new o).id
unfolding write_delta
id_of_own i [] o = refl
id_of_own i ((j, d) ∷ ds) o = elim (Bool-cases (eqb_ℤ j i)) [
  | inr p ↦ rw p (id_of_own i ds o)
  | inl p ↦ rw p (
      id_of_own i ds (some (write_delta d (accum_or_new o)))
      ∙ ap (last_id i ds) (if-not (d.id == "") (accum_or_new o).id d.id))
]

name_of_own :
    (i : ℤ) (ds : List (ℤ × ToolCallDelta))
    → (accum_or_new (own i ds none)).name ≡ joined (λ d. d.name) i ds
unfolding write_delta
name_of_own i ds =
    text_of_own (λ d. d.name) (λ a. a.name) i (λ d a. written a.name d.name) ds none
    ∙ nil-append (joined (λ d. d.name) i ds)

input_of_own :
    (i : ℤ) (ds : List (ℤ × ToolCallDelta))
    → (accum_or_new (own i ds none)).input ≡ joined (λ d. d.input) i ds
unfolding write_delta
input_of_own i ds =
    text_of_own (λ d. d.input) (λ a. a.input) i (λ d a. written a.input d.input) ds none
    ∙ nil-append (joined (λ d. d.input) i ds)

module _ (parse : String → Result String AnyMap) (print : ℤ → String)
    (ds : List (ℤ × ToolCallDelta)) where
  own-MadeOf :
      (i : ℤ) → MadeOf parse print ds i (call_of parse print i (accum_or_new (own i ds none)))
  own-MadeOf i =
      let a = accum_or_new (own i ds none) in
      let r = call_of parse print i a in
      subst (λ s. Made parse print i s (joined (λ d. d.name) i ds) (joined (λ d. d.input) i ds) r)
        (id_of_own i ds none)
        (subst (λ s. Made parse print i a.id s (joined (λ d. d.input) i ds) r) (name_of_own i ds)
          (subst (λ s. Made parse print i a.id a.name s r) (input_of_own i ds)
            (call_of-Made parse print i a)))

  cons-AllMade :
      (i : ℤ) (is : List ℤ) (c : Result ParseError ToolCall) (r : Result ParseError (List ToolCall))
      → MadeOf parse print ds i c
      → AllMade parse print ds is r
      → AllMade parse print ds (i ∷ is) (cons_call c r)
  cons-AllMade i is (err e) r h k = ([], i, is, [], refl, tt, h)
  cons-AllMade i is (ok c) (err e) h (before, j, after, cs, p, calls, k) =
      (i ∷ before, j, after, c ∷ cs, ap (λ l. i ∷ l) p, (h, calls), k)
  cons-AllMade i is (ok c) (ok cs) h k = (h, k)

  from-AllMade :
      (is : List ℤ) → AllMade parse print ds is (assemble_from parse print (λ i. own i ds none) is)
  unfolding assemble_from
  from-AllMade [] = tt
  from-AllMade (i ∷ is) = cons-AllMade i is _ _ (own-MadeOf i) (from-AllMade is)

  as_slice-Assembled :
      (is : List ℤ) (r : Result ParseError (List ToolCall))
      → AllMade parse print ds is r
      → Assembled parse print ds is (as_slice r)
  as_slice-Assembled is (err e) h = h
  as_slice-Assembled [] (ok []) h = refl
  as_slice-Assembled (i ∷ is) (ok (c ∷ cs)) h = (c ∷ cs, refl, h)
  as_slice-Assembled [] (ok (c ∷ cs)) h = absurd h
  as_slice-Assembled (i ∷ is) (ok []) h = absurd h

  -- Whatever fragments a stream gives, in whatever interleaving, the assembler gives one call for each
  -- index, in the order of the first fragments: its id is the last one that is not empty, or is made
  -- of the index, and its name and its input are those of the fragments of that index alone, joined in
  -- the order in which they came. It fails with the first call, in that order, whose input is neither
  -- empty nor an object.
  pub assemble-Assembled :
      Assembled parse print ds (firsts ds []) (assemble parse print (add_all ds new_assembler))
  assemble-Assembled =
      subst (Assembled parse print ds (firsts ds [])) (sym (assemble-add_all parse print ds))
        (as_slice-Assembled (firsts ds []) _ (from-AllMade (firsts ds [])))
