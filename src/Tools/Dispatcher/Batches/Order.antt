-- ===== src/Tools/Dispatcher/Batches/Order.antt =====
-- However the calls of a batch overlap, each slot gets the answer of its own call.
use kae_agent_public.Base.{
  get_elem?-set, length-set, get_elem?-bound, length-replicate, ℕ, zero, suc, ◌<◌, ◌≤◌, String,
  Bool, true, false, List, [], ◌∷◌, ◌++◌, Option, none, some, Result, ◌≡◌, refl, ◌⊎◌, inl, inr,
  length, get_elem?, set, eqb, eqb_iff, if◌then◌else◌, All, arith, ap, ◌∙◌, sym, Bool-cases, subst,
}
use kae_agent_public.Llm.{ToolCall}
use kae_agent_public.Engine.{ToolResult}
use kae_agent_public.Tools.Dispatcher.{DispatchError, cancelled, error_result, dispatch_safely}
use kae_agent_public.Tools.Dispatcher.Runs.{Answers, AnswersCalls, dispatch_safely-Answers}
use kae_agent_public.Tools.Dispatcher.Batches.{
  Batch, new_batch, cancel_from, Step, launch, stop, finish, Steps, stay, step, IsOver,
}

-- Whether the call at an index is running.
abbrev has : ℕ → List (ℕ × ToolCall) → Bool
has i [] = false
has i ((j, c) ∷ ps) = if eqb j i then true else has i ps

has-remove :
    (i j : ℕ) (c : ToolCall) (before after : List (ℕ × ToolCall))
    → eqb j i ≡ false
    → has i (before ++ (j, c) ∷ after) ≡ has i (before ++ after)
has-remove i j c [] after h = rw h refl
has-remove i j c ((k, d) ∷ before) after h =
    ap (λ b. if eqb k i then true else b) (has-remove i j c before after h)

module _ (text : DispatchError → String) where
  length-cancel_from :
      (e : String) (n : ℕ) (cs : List ToolCall) (rs : List (Option ToolResult))
      → length (cancel_from text e n cs rs) ≡ length rs
  unfolding cancel_from
  length-cancel_from e n [] rs = refl
  length-cancel_from e n (c ∷ cs) [] = refl
  length-cancel_from e zero (c ∷ cs) (r ∷ rs) = ap suc (length-cancel_from e zero cs rs)
  length-cancel_from e (suc n) (c ∷ cs) (r ∷ rs) = ap suc (length-cancel_from e n cs rs)

  get_elem?-cancel_from :
      (e : String) (n i : ℕ) (c : ToolCall) (cs : List ToolCall) (rs : List (Option ToolResult))
      → length rs ≡ length cs
      → get_elem? cs i ≡ some c
      → ((i < n) × (get_elem? (cancel_from text e n cs rs) i ≡ get_elem? rs i))
        ⊎ (get_elem? (cancel_from text e n cs rs) i
            ≡ some (some (error_result text c (cancelled c.name e))))
  unfolding cancel_from
  get_elem?-cancel_from e n i c [] rs l h = cc
  get_elem?-cancel_from e n i c (x ∷ cs) [] l h = absurd (omega arith)
  get_elem?-cancel_from e zero zero c (x ∷ cs) (r ∷ rs) l h = let k : x ≡ c = cc in inr (rw k refl)
  get_elem?-cancel_from e zero (suc i) c (x ∷ cs) (r ∷ rs) l h =
      elim (get_elem?-cancel_from e zero i c cs rs (omega (arith, l)) h) [
        | inl (b, p) ↦ absurd (omega arith)
        | inr p ↦ inr p
      ]
  get_elem?-cancel_from e (suc n) zero c (x ∷ cs) (r ∷ rs) l h = inl (omega arith, refl)
  get_elem?-cancel_from e (suc n) (suc i) c (x ∷ cs) (r ∷ rs) l h =
      elim (get_elem?-cancel_from e n i c cs rs (omega (arith, l)) h) [
        | inl (b, p) ↦ inl (omega (arith, b), p)
        | inr p ↦ inr p
      ]

-- What slot i holds: the answer of its call, or the call is running, or it is still to be started.
abbrev Slot : {S : Type 0} → Batch S → ℕ → ToolCall → Type 0
Slot b i c =
    ((r : ToolResult) × (get_elem? b.results i ≡ some (some r)) × Answers c r)
    ⊎ (has i b.running ≡ true)
    ⊎ ((b.next ≤ i) × (b.stopped ≡ false))

abbrev Placed : List ToolCall → ℕ × ToolCall → Type 0
Placed calls p = get_elem? calls p.0 ≡ some p.1

record InOrder {S : Type 0} (calls : List ToolCall) (b : Batch S) : Type 0 where
  len : length b.results ≡ length calls
  placed : All (Placed calls) b.running
  slots : (i : ℕ) (c : ToolCall) → get_elem? calls i ≡ some c → Slot b i c

Placed-at :
    (calls : List ToolCall) (before : List (ℕ × ToolCall)) (p : ℕ × ToolCall)
    (after : List (ℕ × ToolCall))
    → All (Placed calls) (before ++ p ∷ after)
    → Placed calls p × All (Placed calls) (before ++ after)
Placed-at calls [] p after (h, k) = (h, k)
Placed-at calls (q ∷ before) p after (h, k) =
    let (a, b) = Placed-at calls before p after k in (a, (h, b))

module _ {S : Type 0} (calls : List ToolCall) where
  new_batch-InOrder : (s : S) → InOrder calls (new_batch calls s)
  unfolding new_batch
  new_batch-InOrder s = record {
    len = length-replicate (length calls) none;
    placed = tt;
    slots = λ i c h. inr (inr (omega arith, refl));
  }

  launch-InOrder :
      (b : Batch S) (c : ToolCall)
      → get_elem? calls b.next ≡ some c
      → InOrder calls b
      → InOrder calls (record b { next = suc b.next; running = (b.next, c) ∷ b.running })
  launch-InOrder b c h o = record {
    len = o.len;
    placed = (h, o.placed);
    slots = λ i x k. elim (o.slots i x k) [
      | inl a ↦ inl a
      | inr (inl a) ↦ inr (inl (ground (arith, a)))
      | inr (inr (a, q)) ↦ elim (Bool-cases (eqb b.next i)) [
        | inl p ↦ inr (inl (rw p refl))
        | inr p ↦ inr (inr (ground (arith, p, a), q))
      ]
    ];
  }

  module _ (text : DispatchError → String) where
    stop-InOrder :
        (b : Batch S) (e : String)
        → InOrder calls b
        → InOrder calls
            (record b { results = cancel_from text e b.next calls b.results; stopped = true })
    unfolding error_result
    stop-InOrder b e o = record {
      len = length-cancel_from text e b.next calls b.results ∙ o.len;
      placed = o.placed;
      slots = λ i x k. elim (get_elem?-cancel_from text e b.next i x calls b.results o.len k) [
        | inr p ↦ inl (error_result text x (cancelled x.name e), p, (refl, refl))
        | inl (l, p) ↦ elim (o.slots i x k) [
          | inl (r, q, a) ↦ inl (r, p ∙ q, a)
          | inr (inl a) ↦ inr (inl a)
          | inr (inr (a, q)) ↦ absurd (omega (arith, a, l))
        ]
      ];
    }

    finish-InOrder :
        (b : Batch S) (before : List (ℕ × ToolCall)) (i : ℕ) (c : ToolCall)
        (after : List (ℕ × ToolCall)) (r : ToolResult) (s : S)
        → b.running ≡ before ++ (i, c) ∷ after
        → Answers c r
        → InOrder calls b
        → InOrder calls
            (record b { results = set b.results i (some r); running = before ++ after; state = s })
    finish-InOrder b before i c after r s e a o =
        let (at_i, rest) = Placed-at calls before (i, c) after (rw e at o.placed) in
        record {
          len = length-set b.results i (some r) ∙ o.len;
          placed = rest;
          slots = λ j x k. elim (Bool-cases (eqb i j)) [
            | inl p ↦
                let same : i ≡ j = (eqb_iff i j).0 p in
                let eq : c ≡ x = cc (same, at_i, k) in
                inl (
                  r,
                  ground (
                    arith,
                    get_elem?-set b.results i j (some r),
                    p,
                    o.len,
                    get_elem?-bound calls i c at_i,
                  ),
                  subst (λ y. Answers y r) eq a,
                )
            | inr p ↦ elim (o.slots j x k) [
              | inl (q, h, w) ↦
                  inl (q, ground (arith, get_elem?-set b.results i j (some r), p, h), w)
              | inr (inl h) ↦ inr (inl (sym (has-remove j i c before after p) ∙ (rw e at h)))
              | inr (inr h) ↦ inr (inr h)
            ]
          ];
        }

module _ (text : DispatchError → String) {S : Type 0} (ctx_err : S → Option String)
    (d : ToolCall → S → Result String ToolResult × S) (max : ℕ) (calls : List ToolCall) where
  step-InOrder :
      {a b : Batch S}
      → AnswersCalls d
      → InOrder calls a
      → Step text ctx_err d max calls a b
      → InOrder calls b
  step-InOrder {a} h o (launch c p q r) = launch-InOrder calls a c q o
  step-InOrder {a} h o (stop e p q r) = stop-InOrder calls text a e o
  step-InOrder {a} h o (finish before i c after e) =
      finish-InOrder calls text a before i c after (dispatch_safely text d c a.state).0
        (dispatch_safely text d c a.state).1 e (dispatch_safely-Answers text d c a.state h) o

  steps-InOrder :
      {a b : Batch S}
      → AnswersCalls d
      → InOrder calls a
      → Steps text ctx_err d max calls a b
      → InOrder calls b
  steps-InOrder h o stay = o
  steps-InOrder h o (step st x) = step-InOrder h (steps-InOrder h o st) x

  -- When a batch is over that began with no call started, whatever the order in which its calls were
  -- running, ended and were kept from starting, every slot holds a result, and it answers the call that
  -- stands at the slot's index among the calls.
  pub batch-Answers :
      {b : Batch S} (s : S) (i : ℕ) (c : ToolCall)
      → AnswersCalls d
      → Steps text ctx_err d max calls (new_batch calls s) b
      → IsOver calls b
      → get_elem? calls i ≡ some c
      → (r : ToolResult) × (get_elem? b.results i ≡ some (some r)) × Answers c r
  batch-Answers {b} s i c h st (idle, over) k =
      elim ((steps-InOrder h (new_batch-InOrder calls s) st).slots i c k) [
        | inl a ↦ a
        | inr (inl a) ↦ absurd (let e : false ≡ true = rw idle at a in cc)
        | inr (inr (a, q)) ↦
            absurd
              (elim over [ inl p ↦ cc | inr p ↦ omega (arith, p, a, get_elem?-bound calls i c k) ])
      ]
