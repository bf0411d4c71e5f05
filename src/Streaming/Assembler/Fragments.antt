-- ===== src/Streaming/Assembler/Fragments.antt =====
-- The calls are made of their own fragments, however a stream interleaves them.
use kae_agent_public.Base.{
  ℤ, String, List, [], ◌∷◌, ◌++◌, Option, none, some, Result, Bool, true, false, if◌then◌else◌, ◌≡◌,
  refl, ap, ◌∙◌, arith, Bool-cases, Option-cases, inl, inr, is_some,
}
use kae_agent_public.Llm.Value.{AnyMap}
use kae_agent_public.Streaming.Assembler.{
  ToolCallDelta, Accum, Assembler, eqb_ℤ, find, put, new_assembler, write_delta, add_fragment,
  accum_or_new, call_of, cons_call, assemble_from, as_slice, assemble,
}

abbrev pub add_all : List (ℤ × ToolCallDelta) → Assembler → Assembler
add_all [] s = s
add_all ((i, d) ∷ ds) s = add_all ds (add_fragment i d s)

-- What the fragments of one index alone make of it.
abbrev pub own : ℤ → List (ℤ × ToolCallDelta) → Option Accum → Option Accum
own i [] a = a
own i ((j, d) ∷ ds) a = own i ds (if eqb_ℤ j i then some (write_delta d (accum_or_new a)) else a)

abbrev pub seen : ℤ → List ℤ → Bool
seen i [] = false
seen i (j ∷ js) = if eqb_ℤ j i then true else seen i js

-- The indices in the order of their first fragments, behind those of a list.
abbrev pub firsts : List (ℤ × ToolCallDelta) → List ℤ → List ℤ
firsts [] js = js
firsts ((i, d) ∷ ds) js = firsts ds (if seen i js then js else js ++ i ∷ [])

find-put :
    (i j : ℤ) (v : Accum) (m : List (ℤ × Accum))
    → find j (put i v m) ≡ (if eqb_ℤ i j then some v else find j m)
find-put i j v [] = refl
find-put i j v ((k, a) ∷ m) = ground (arith, find-put i j v m)

seen-append :
    (i j : ℤ) (js : List ℤ) → seen j (js ++ i ∷ []) ≡ (if eqb_ℤ i j then true else seen j js)
seen-append i j [] = refl
seen-append i j (k ∷ js) = ground (arith, seen-append i j js)

find_same : (i j : ℤ) (m : List (ℤ × Accum)) → eqb_ℤ i j ≡ true → find i m ≡ find j m
find_same i j [] h = refl
find_same i j ((k, a) ∷ m) h = ground (arith, h, find_same i j m h)

find-add_fragment :
    (i j : ℤ) (d : ToolCallDelta) (s : Assembler)
    → find j (add_fragment i d s).accumulators ≡ (
        if eqb_ℤ i j
        then some (write_delta d (accum_or_new (find j s.accumulators)))
        else find j s.accumulators)
unfolding add_fragment
find-add_fragment i j d s = elim (Bool-cases (eqb_ℤ i j)) [
  | inl e ↦
      let same = find_same i j s.accumulators e in
      elim (Option-cases (find i s.accumulators)) [
        | inl p ↦ rw (p, add_fragment) (rw (find-put, e, ← same, p) refl)
        | inr (a, p) ↦ rw (p, add_fragment) (rw (find-put, e, ← same, p) refl)
      ]
  | inr e ↦ elim (Option-cases (find i s.accumulators)) [
    | inl p ↦ rw (p, add_fragment) (rw (find-put, e) refl)
    | inr (a, p) ↦ rw (p, add_fragment) (rw (find-put, e) refl)
  ]
]

-- An index is in the order exactly when it has an accumulator.
abbrev Agrees : Assembler → Type 0
Agrees s = (j : ℤ) → seen j s.order ≡ is_some (find j s.accumulators)

order-add_fragment :
    (i : ℤ) (d : ToolCallDelta) (s : Assembler)
    → Agrees s
    → (add_fragment i d s).order ≡ (if seen i s.order then s.order else s.order ++ i ∷ [])
unfolding add_fragment
order-add_fragment i d s h = elim (Option-cases (find i s.accumulators)) [
  | inl p ↦ rw (h i, p, add_fragment) refl
  | inr (a, p) ↦ rw (h i, p, add_fragment) refl
]

is_some-if :
    (b : Bool) (a : Accum) (o : Option Accum)
    → is_some (if b then some a else o) ≡ (if b then true else is_some o)
is_some-if true a o = refl
is_some-if false a o = refl

seen-if :
    (b : Bool) (j : ℤ) (x y : List ℤ)
    → seen j (if b then x else y) ≡ (if b then seen j x else seen j y)
seen-if true j x y = refl
seen-if false j x y = refl

seen_same : (i j : ℤ) (js : List ℤ) → eqb_ℤ i j ≡ true → seen i js ≡ seen j js
seen_same i j [] h = refl
seen_same i j (k ∷ js) h = ground (arith, h, seen_same i j js h)

add_fragment-Agrees :
    (i : ℤ) (d : ToolCallDelta) (s : Assembler) → Agrees s → Agrees (add_fragment i d s)
add_fragment-Agrees i d s h j =
    let o =
      ap (seen j) (order-add_fragment i d s h)
      ∙ seen-if (seen i s.order) j s.order (s.order ++ i ∷ []) in
    let f =
      ap is_some (find-add_fragment i j d s)
      ∙ is_some-if (eqb_ℤ i j) (write_delta d (accum_or_new (find j s.accumulators)))
          (find j s.accumulators) in
    ground (arith, o, f, h j, seen-append i j s.order, seen_same i j s.order)

find-add_all :
    (ds : List (ℤ × ToolCallDelta)) (s : Assembler) (j : ℤ)
    → find j (add_all ds s).accumulators ≡ own j ds (find j s.accumulators)
find-add_all [] s j = refl
find-add_all ((i, d) ∷ ds) s j =
    find-add_all ds (add_fragment i d s) j ∙ ap (own j ds) (find-add_fragment i j d s)

order-add_all :
    (ds : List (ℤ × ToolCallDelta)) (s : Assembler)
    → Agrees s
    → (add_all ds s).order ≡ firsts ds s.order
order-add_all [] s h = refl
order-add_all ((i, d) ∷ ds) s h =
    order-add_all ds (add_fragment i d s) (add_fragment-Agrees i d s h)
    ∙ ap (firsts ds) (order-add_fragment i d s h)

module _ (parse : String → Result String AnyMap) (print : ℤ → String) where
  assemble_same :
      (f g : ℤ → Option Accum) (is : List ℤ)
      → ((i : ℤ) → f i ≡ g i)
      → assemble_from parse print f is ≡ assemble_from parse print g is
  unfolding assemble_from
  assemble_same f g [] h = refl
  assemble_same f g (i ∷ is) h =
      ap (λ o. cons_call (call_of parse print i (accum_or_new o)) (assemble_from parse print f is))
        (h i)
      ∙ ap (cons_call (call_of parse print i (accum_or_new (g i)))) (assemble_same f g is h)

  -- Whatever fragments a stream gives, in whatever interleaving, the assembler gives one call for each
  -- index, in the order of the first fragments, and makes it of the fragments of that index alone, in
  -- the order in which they came; it fails with the first call, in that order, whose input is no
  -- object.
  pub assemble-add_all :
      (ds : List (ℤ × ToolCallDelta))
      → assemble parse print (add_all ds new_assembler)
        ≡ as_slice (assemble_from parse print (λ i. own i ds none) (firsts ds []))
  unfolding assemble new_assembler
  assemble-add_all ds =
      let s : Assembler = record { accumulators = []; order = [] } in
      ap as_slice (
        ap (assemble_from parse print (λ i. find i (add_all ds s).accumulators))
          (order-add_all ds s (λ j. refl))
        ∙ assemble_same _ _ (firsts ds []) (λ i. find-add_all ds s i))
