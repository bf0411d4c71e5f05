-- ===== src/Llm/Registry/Longest.antt =====
-- The provider that `Resolve` finds.
use Prim.Native.String.{len}
use kae_agent_public.Base.{
  ℕ, suc, String, starts_with, ◌≤◌, true, false, List, [], ◌∷◌, Option, none, some, Result, ok, err,
  ◌≡◌, refl, sym, subst, All, get_elem?, ◌⊎◌, inl, inr, arith, Bool-cases,
}
use kae_agent_public.Llm.Registry.{
  ProviderRegistry, ResolveError, no_provider, beats, best_of, chosen, resolve,
}

-- The text is no prefix of the model, or has at most n bytes.
abbrev pub IsShort : String → ℕ → String → Type 0
IsShort model n prefix = (starts_with model prefix ≡ false) ⊎ (len prefix ≤ n)

beats-IsShort :
    (model prefix : String) (n : ℕ) → beats model n prefix ≡ false → IsShort model n prefix
unfolding beats
beats-IsShort model prefix n h = elim (Bool-cases (starts_with model prefix)) [
  | inl p ↦ inr (ground arith)
  | inr p ↦ inl p
]

more-IsShort :
    (model prefix : String) (n m : ℕ) → n ≤ m → IsShort model n prefix → IsShort model m prefix
more-IsShort model prefix n m h (inl p) = inl p
more-IsShort model prefix n m h (inr p) = inr (omega arith)

beats→starts :
    (model prefix : String) (n : ℕ)
    → beats model n prefix ≡ true
    → (starts_with model prefix ≡ true) × (suc n ≤ len prefix)
unfolding beats
beats→starts model prefix n k = elim (Bool-cases (starts_with model prefix)) [
  | inl p ↦ (p, ground arith)
  | inr p ↦ ground arith
]

module _ {P : Type 0} where
  -- No registered prefix of the model has more than n bytes.
  abbrev pub NoneBeats : String → ℕ → List (String × P) → Type 0
  NoneBeats model n r = All (λ (e : String × P). IsShort model n e.0) r

  -- What the loop holds is what it started from, or an entry.
  abbrev FoundIn : String → List (String × P) → Option P × ℕ → Type 0
  FoundIn model r (none, n) = ◌≡◌ (suc 0) 0
  FoundIn model r (some p, n) =
      (k : String) × (i : ℕ) × (get_elem? r i ≡ some (k, p))
      × (starts_with model k ≡ true)
      × (len k ≡ n)
      × (1 ≤ n)

  FoundIn-further :
      (model : String) (e : String × P) (r : List (String × P)) (b : Option P × ℕ)
      → FoundIn model r b
      → FoundIn model (e ∷ r) b
  FoundIn-further model e r (none, n) h = h
  FoundIn-further model e r (some p, n) (k, i, a, b, c, d) = (k, suc i, a, b, c, d)

  best_of_better :
      (model k : String) (p : P) (r : List (String × P)) (b : Option P × ℕ)
      → beats model b.1 k ≡ true
      → best_of model ((k, p) ∷ r) b ≡ best_of model r (some p, len k)
  unfolding best_of
  best_of_better model k p r b q = rw q refl

  best_of_worse :
      (model k : String) (p : P) (r : List (String × P)) (b : Option P × ℕ)
      → beats model b.1 k ≡ false
      → best_of model ((k, p) ∷ r) b ≡ best_of model r b
  unfolding best_of
  best_of_worse model k p r b q = rw q refl

  best_of-grows :
      (model : String) (r : List (String × P)) (b : Option P × ℕ) → b.1 ≤ (best_of model r b).1
  unfolding best_of
  best_of-grows model [] b = ground arith
  best_of-grows model ((k, p) ∷ r) b = elim (Bool-cases (beats model b.1 k)) [
    | inl q ↦
        let rest = best_of-grows model r (some p, len k) in
        let more = beats→starts model k b.1 q in rw (best_of_better model k p r b q) (omega arith)
    | inr q ↦ rw (best_of_worse model k p r b q) (best_of-grows model r b)
  ]

  best_of-NoneBeats :
      (model : String) (r : List (String × P)) (b : Option P × ℕ)
      → NoneBeats model (best_of model r b).1 r
  best_of-NoneBeats model [] b = tt
  best_of-NoneBeats model ((k, p) ∷ r) b = elim (Bool-cases (beats model b.1 k)) [
    | inl q ↦
        subst (λ (c : Option P × ℕ). NoneBeats model c.1 ((k, p) ∷ r))
          (sym (best_of_better model k p r b q))
          (
            more-IsShort model k (len k) _ (best_of-grows model r (some p, len k))
                (inr (omega arith)),
            best_of-NoneBeats model r (some p, len k),
          )
    | inr q ↦
        subst (λ (c : Option P × ℕ). NoneBeats model c.1 ((k, p) ∷ r))
          (sym (best_of_worse model k p r b q))
          (
            more-IsShort model k b.1 _ (best_of-grows model r b) (beats-IsShort model k b.1 q),
            best_of-NoneBeats model r b,
          )
  ]

  FoundIn-here :
      (model k : String) (p : P) (r : List (String × P)) (n : ℕ) (c : Option P × ℕ)
      → beats model n k ≡ true
      → (c ≡ (some p, len k)) ⊎ FoundIn model r c
      → FoundIn model ((k, p) ∷ r) c
  FoundIn-here model k p r n c q (inl e) =
      let (starts, more) = beats→starts model k n q in
      subst (λ c. FoundIn model ((k, p) ∷ r) c) (sym e) (k, 0, refl, starts, refl, omega arith)
  FoundIn-here model k p r n c q (inr h) = FoundIn-further model (k, p) r c h

  best_of-FoundIn :
      (model : String) (r : List (String × P)) (b : Option P × ℕ)
      → (best_of model r b ≡ b) ⊎ FoundIn model r (best_of model r b)
  unfolding best_of
  best_of-FoundIn model [] b = inl refl
  best_of-FoundIn model ((k, p) ∷ r) b = elim (Bool-cases (beats model b.1 k)) [
    | inl q ↦
        rw (best_of_better model k p r b q)
          (inr (FoundIn-here model k p r b.1 _ q (best_of-FoundIn model r (some p, len k))))
    | inr q ↦ rw (best_of_worse model k p r b q) (elim (best_of-FoundIn model r b) [
      | inl e ↦ inl e
      | inr h ↦ inr (FoundIn-further model (k, p) r _ h)
    ])
  ]

  -- What a provider that is found, or an error, says of the registry.
  abbrev pub Longest : String → ProviderRegistry P → Result ResolveError P → Type 0
  Longest model r (err e) = (e ≡ no_provider model) × NoneBeats model 0 r
  Longest model r (ok p) =
      (k : String) × (i : ℕ) × (get_elem? r i ≡ some (k, p))
      × (starts_with model k ≡ true)
      × NoneBeats model (len k) r

  chosen-Longest :
      (model : String) (r : ProviderRegistry P) (c : Option P × ℕ)
      → NoneBeats model c.1 r
      → (c ≡ (none, 0)) ⊎ FoundIn model r c
      → Longest model r (chosen model c.0)
  unfolding chosen
  chosen-Longest model r (none, n) h (inl e) =
      (refl, subst (λ (c : Option P × ℕ). NoneBeats model c.1 r) e h)
  chosen-Longest model r (some p, n) h (inl e) = cc
  chosen-Longest model r (none, n) h (inr k) = grind arith
  chosen-Longest model r (some p, n) h (inr (k, i, a, b, c, d)) =
      (k, i, a, b, subst (λ m. NoneBeats model m r) (sym c) h)

  -- In whatever order the map is read: a provider that is found stands under a prefix of the model,
  -- and no registered prefix of the model is longer; without one, no registered prefix of the model
  -- has a byte.
  pub resolve-Longest :
      (model : String) (r : ProviderRegistry P) → Longest model r (resolve model r)
  unfolding resolve
  resolve-Longest model r =
      chosen-Longest model r (best_of model r (none, 0)) (best_of-NoneBeats model r (none, 0))
        (best_of-FoundIn model r (none, 0))
