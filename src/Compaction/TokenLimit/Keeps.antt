-- ===== src/Compaction/TokenLimit/Keeps.antt =====
-- The loop of the token limit ends, and what it leaves.
use mathlib.Core.List.{append_assoc, append-nil}
use kae_agent_public.Base.{
  ℕ, zero, suc, ◌≤◌, ◌<◌, ◌≡◌, refl, sym, ◌∙◌, ap, Bool, true, false, not, List, [], ◌∷◌, ◌++◌,
  Option, Slice, items, length, is_empty, length-append, arith, Bool-cases, inl, inr, ℤ, pos, ◌<ℤ◌,
  ◌≤ℤ◌, ok, err,
}
use kae_agent_public.Llm.{Message, ToolDef}
use kae_agent_public.Llm.Clone.{clone_messages_id}
use kae_agent_public.Compaction.Types.{
  GoStd, TokenEstimator, Input, Output, Error, exceeds_max_tokens,
}
use kae_agent_public.Compaction.Estimator.{estimate_prompt_tokens}
use kae_agent_public.Compaction.TokenLimit.{
  drop_oldest_turn, has_droppable_turns, goes_on, trim, check_limit, compact,
}
use kae_agent_public.Compaction.TokenLimit.Cut.{
  leading, trailing, tail, StartsUser, trailing-StartsUser, leading-append-trailing, leading_again,
  has_droppable, items-drop_oldest_turn,
}

-- What is left of the messages `ms`: those before the first user message, and a tail of the
-- conversation that a user message opens.
pub record Keeps (ms kept : List Message) : Type 0 where
  pub dropped : List Message
  pub later : List Message
  pub whole : ms ≡ leading ms ++ dropped ++ later
  pub left : kept ≡ leading ms ++ later
  pub opened : StartsUser later

Keeps-refl : (ms : List Message) → Keeps ms ms
Keeps-refl ms = record {
  dropped = [];
  later = trailing ms;
  whole = rw append-nil (sym (leading-append-trailing ms));
  left = sym (leading-append-trailing ms);
  opened = trailing-StartsUser ms;
}

length-trailing : (ms : List Message) → length (trailing ms) ≤ length ms
length-trailing ms =
    omega (arith, ap length (leading-append-trailing ms), length-append (leading ms) (trailing ms))

empty_list : (ms : List Message) → is_empty ms ≡ true → ms ≡ []
empty_list [] h = refl
empty_list (m ∷ ms) h = cc

length-tail : (ms : List Message) → not (is_empty ms) ≡ true → length (tail ms) < length ms
length-tail [] h = cc
length-tail (m ∷ ms) h = omega arith

dropped_shorter :
    (ms : Slice Message)
    → has_droppable_turns (items ms) ≡ true
    → length (items (drop_oldest_turn ms)) < length (items ms)
dropped_shorter ms h =
    let l = leading (items ms) in
    let t = trailing (items ms) in
    rw items-drop_oldest_turn (
      omega (
        arith,
        length-append l (trailing (tail t)),
        length-trailing (tail t),
        length-tail t (sym (has_droppable (items ms)) ∙ h),
        length-append l t,
        ap length (leading-append-trailing (items ms)),
      ))

-- The message that opens a turn.
abbrev opener : List Message → List Message
opener [] = []
opener (m ∷ ms) = m ∷ []

opener-tail : (t : List Message) → opener t ++ tail t ≡ t
opener-tail [] = refl
opener-tail (m ∷ t) = refl

suffix_split : (t : List Message) → (d : List Message) × (tail t ≡ d ++ trailing (tail t))
suffix_split t = (leading (tail t), sym (leading-append-trailing (tail t)))

regroup :
    (l dropped t d later : List Message)
    → tail t ≡ d ++ later
    → l ++ dropped ++ t ≡ l ++ (dropped ++ opener t ++ d) ++ later
regroup l dropped t d later g =
    append_assoc l dropped t
    ∙ ap (λ x. l ++ (dropped ++ x)) (sym (opener-tail t) ∙ ap (λ y. opener t ++ y) g)
    ∙ sym (simp append_assoc)

-- One round keeps the shape.
Keeps-drop :
    (ms : List Message) (kept : Slice Message)
    → Keeps ms (items kept)
    → has_droppable_turns (items kept) ≡ true
    → Keeps ms (items (drop_oldest_turn kept))
Keeps-drop ms kept k h =
    let t = k.later in
    let (e, f) = leading_again ms t k.opened in
    let (d, g) = suffix_split t in
    record {
      dropped = k.dropped ++ opener t ++ d;
      later = trailing (tail t);
      whole = k.whole ∙ regroup (leading ms) k.dropped t d (trailing (tail t)) g;
      left = rw items-drop_oldest_turn (rw k.left (rw (e, f)));
      opened = trailing-StartsUser (tail t);
    }

-- Where nothing can be dropped any more, the tail is empty.
only_leading :
    (ms kept : List Message) → Keeps ms kept → has_droppable_turns kept ≡ false → kept ≡ leading ms
only_leading ms kept k h =
    let (e, f) = leading_again ms k.later k.opened in
    let gone : is_empty k.later ≡ true = ground (arith, has_droppable kept, f, k.left) in
    k.left ∙ rw (empty_list k.later gone) (append-nil (leading ms))

module _ (std : GoStd) (max : ℤ) (tools : List ToolDef) (estimator : Option TokenEstimator) where
  abbrev test : Slice Message → Bool
  test = goes_on std max tools estimator

  test_droppable : (ms : Slice Message) → test ms ≡ true → has_droppable_turns (items ms) ≡ true
  unfolding goes_on
  test_droppable ms h = ground arith

  -- The number of messages is enough fuel: at the end the test of the loop fails.
  pub trim_done :
      (fuel : ℕ) (ms : Slice Message)
      → length (items ms) ≤ fuel
      → test (trim std max tools estimator fuel ms) ≡ false
  unfolding trim
  trim_done zero ms h = elim (Bool-cases (test ms)) [
    | inl p ↦ absurd (omega (arith, dropped_shorter ms (test_droppable ms p)))
    | inr p ↦ p
  ]
  trim_done (suc fuel) ms h = elim (Bool-cases (test ms)) [
    | inl p ↦
        rw (p, trim)
          (trim_done fuel (drop_oldest_turn ms)
            (omega (arith, dropped_shorter ms (test_droppable ms p))))
    | inr p ↦ rw (p, trim) p
  ]

  pub trim-Keeps :
      (ms : List Message) (fuel : ℕ) (kept : Slice Message)
      → Keeps ms (items kept)
      → Keeps ms (items (trim std max tools estimator fuel kept))
  unfolding trim
  trim-Keeps ms zero kept k = k
  trim-Keeps ms (suc fuel) kept k = elim (Bool-cases (test kept)) [
    | inl p ↦
        rw (p, trim)
          (trim-Keeps ms fuel (drop_oldest_turn kept)
            (Keeps-drop ms kept k (test_droppable kept p)))
    | inr p ↦ rw (p, trim) k
  ]

module _ (std : GoStd) (n : ℕ) (estimator : Option TokenEstimator) (input : Input) where
  abbrev estimate : Slice Message → ℤ
  estimate ms = estimate_prompt_tokens std ms input.tools estimator

  abbrev left : Slice Message
  left = trim std (pos n) input.tools estimator (length (items input.messages)) input.messages

  compact_lem :
      0 < n → compact std (pos n) estimator input ≡ check_limit std (pos n) estimator input left
  unfolding compact
  compact_lem h = rw clone_messages_id (ground arith)

  check_ok :
      (ms : Slice Message) (out : Output)
      → check_limit std (pos n) estimator input ms ≡ ok out
      → (ms ≡ out.messages) × (estimate ms ≤ℤ pos n)
  unfolding check_limit
  check_ok ms out e = ground arith

  check_err :
      (ms : Slice Message) (x : Error)
      → check_limit std (pos n) estimator input ms ≡ err x
      → (x ≡ exceeds_max_tokens (estimate ms) (pos n)) × (pos n <ℤ estimate ms)
  unfolding check_limit
  check_err ms x e = ground arith

  left-Keeps : Keeps (items input.messages) (items left)
  left-Keeps =
      trim-Keeps std (pos n) input.tools estimator (items input.messages)
        (length (items input.messages)) input.messages (Keeps-refl (items input.messages))

  -- With a positive limit, a successful answer is within it by the estimate, and holds the messages
  -- before the first user message and a tail of the conversation that is empty or opened by a user
  -- message.
  pub token_limit_fits :
      (out : Output)
      → 0 < n
      → compact std (pos n) estimator input ≡ ok out
      → (estimate out.messages ≤ℤ pos n) × Keeps (items input.messages) (items out.messages)
  token_limit_fits out h e =
      let (same, fits) = check_ok left out (sym (compact_lem h) ∙ e) in
      rw (← same) (fits, left-Keeps)

  left_over : pos n <ℤ estimate left → has_droppable_turns (items left) ≡ false
  unfolding goes_on
  left_over h = ground (
    arith,
    trim_done std (pos n) input.tools estimator (length (items input.messages)) input.messages
        (omega arith),
  )

  -- With a positive limit, an error means that nothing is left to drop: the messages before the
  -- first user message alone are estimated above the limit, by the number that the error states.
  pub token_limit_fails :
      (x : Error)
      → 0 < n
      → compact std (pos n) estimator input ≡ err x
      → (ms : Slice Message) × (items ms ≡ leading (items input.messages))
        × (pos n <ℤ estimate ms)
        × (x ≡ exceeds_max_tokens (estimate ms) (pos n))
  token_limit_fails x h e =
      let (same, over) = check_err left x (sym (compact_lem h) ∙ e) in
      (left, only_leading _ _ left-Keeps (left_over over), over, same)
