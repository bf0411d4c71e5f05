-- ===== src/Streaming/Budget/Limits.antt =====
-- What a budget has counted, and when it refuses.
use kae_agent_public.Base.{
  ℕ, ℤ, pos, ◌+ℤ◌, ◌-ℤ◌, wrap64_in_range, ◌+◌, ◌-◌, ◌^◌, ◌≤◌, ◌<◌, ◌≡◌, refl, List, [], ◌∷◌, some,
  arith, ◌∙◌, subst, ap, ◌≢◌,
}
use kae_agent_public.Streaming.Budget.{
  Floats, tokens_exceeded, Budget, BudgetConfig, new_budget, add, add_int, check, remaining_tokens,
}

-- The tokens of a list of usages.
abbrev pub tokens : List (ℕ × ℕ) → ℕ
tokens [] = 0
tokens ((i, o) ∷ us) = i + o + tokens us

module _ {F : Type 0} (fl : Floats F) where
  -- The usages recorded one after the other.
  abbrev pub add_all : List (ℕ × ℕ) → Budget F → Budget F
  add_all [] b = b
  add_all ((i, o) ∷ us) b = add_all us (add fl (pos i) (pos o) b)

-- A budget that has counted n tokens in all.
pub record Counts {F : Type 0} (n : ℕ) (b : Budget F) : Type 0 where
  pub input_count : ℕ
  pub output_count : ℕ
  pub input_is : b.total_input ≡ pos input_count
  pub output_is : b.total_output ≡ pos output_count
  pub sum_is : input_count + output_count ≡ n

add_int_pos : (a b : ℕ) → a + b < 2 ^ 63 → add_int (pos a) (pos b) ≡ pos (a + b)
add_int_pos a b h =
    let e : pos a +ℤ pos b ≡ pos (a + b) = unfold ◌+ℤ◌ in ground arith in
    rw e (wrap64_in_range (pos (a + b)) h (omega arith))

module _ {F : Type 0} (fl : Floats F) where
  Counts-add :
      (i o n : ℕ) (b : Budget F)
      → n + i + o < 2 ^ 63
      → Counts n b
      → Counts (n + i + o) (add fl (pos i) (pos o) b)
  unfolding add
  Counts-add i o n b h c = record {
    input_count = c.input_count + i;
    output_count = c.output_count + o;
    input_is = rw c.input_is (add_int_pos c.input_count i (omega (arith, c.sum_is, h)));
    output_is = rw c.output_is (add_int_pos c.output_count o (omega (arith, c.sum_is, h)));
    sum_is = omega (arith, c.sum_is);
  }

  Counts-add_all :
      (us : List (ℕ × ℕ)) (n : ℕ) (b : Budget F)
      → n + tokens us < 2 ^ 63
      → Counts n b
      → Counts (n + tokens us) (add_all fl us b)
  Counts-add_all [] n b h c = subst (λ k. Counts k b) (omega arith) c
  Counts-add_all ((i, o) ∷ us) n b h c =
      subst (λ k. Counts k (add_all fl us (add fl (pos i) (pos o) b))) (omega arith)
        (Counts-add_all us (n + i + o) (add fl (pos i) (pos o) b) (omega (arith, h))
          (Counts-add i o n b (omega (arith, h)) c))

  limit-add_all : (us : List (ℕ × ℕ)) (b : Budget F) → (add_all fl us b).max_tokens ≡ b.max_tokens
  unfolding add
  limit-add_all [] b = refl
  limit-add_all ((i, o) ∷ us) b = limit-add_all us (add fl (pos i) (pos o) b)

  total_of :
      (n : ℕ) (b : Budget F)
      → n < 2 ^ 63
      → Counts n b
      → add_int b.total_input b.total_output ≡ pos n
  total_of n b h c =
      rw (c.input_is, c.output_is)
        (add_int_pos c.input_count c.output_count (omega (arith, c.sum_is)) ∙ ap pos c.sum_is)

  over_of :
      (n limit : ℕ) (b : Budget F)
      → n < 2 ^ 63
      → Counts n b
      → b.max_tokens ≡ pos limit
      → 0 < limit
      → limit < n
      → (check fl b ≡ some (tokens_exceeded (pos n) (pos limit))) × (remaining_tokens fl b ≡ pos 0)
  unfolding check remaining_tokens ◌-ℤ◌
  over_of n limit b h c m p q =
      rw (total_of n b h c, m)
        (
          ground arith,
          rw (wrap64_in_range (pos limit -ℤ pos n) (ground arith) (ground arith)) (ground arith),
        )

  within_of :
      (n limit : ℕ) (b : Budget F) (t m : ℤ)
      → limit < 2 ^ 63
      → Counts n b
      → b.max_tokens ≡ pos limit
      → 0 < limit
      → n ≤ limit
      → (remaining_tokens fl b ≡ pos (limit - n)) × (check fl b ≢ some (tokens_exceeded t m))
  unfolding check remaining_tokens ◌-ℤ◌
  within_of n limit b t m h c e p q =
      rw (total_of n b (omega arith) c, e)
        (
          rw (wrap64_in_range (pos limit -ℤ pos n) (ground arith) (ground arith)) (ground arith),
          ground arith,
        )

  -- A budget that has counted n tokens, with a positive token limit that n and the usages recorded
  -- after that exceed, is refused with the whole number of tokens and the limit, and no tokens
  -- remain, while the sum fits 63 bits.
  pub budget_over :
      (us : List (ℕ × ℕ)) (n limit : ℕ) (b : Budget F)
      → Counts n b
      → n + tokens us < 2 ^ 63
      → b.max_tokens ≡ pos limit
      → 0 < limit
      → limit < n + tokens us
      → (check fl (add_all fl us b) ≡ some (tokens_exceeded (pos (n + tokens us)) (pos limit)))
        × (remaining_tokens fl (add_all fl us b) ≡ pos 0)
  budget_over us n limit b c h m p q =
      over_of (n + tokens us) limit (add_all fl us b) h (Counts-add_all us n b h c)
        (limit-add_all us b ∙ m) p q

  -- A budget that has counted n tokens, with a positive token limit below 2^63 that n and the usages
  -- recorded after that do not exceed, has what the limit leaves remaining, and is not refused for its
  -- tokens.
  pub budget_within :
      (us : List (ℕ × ℕ)) (n limit : ℕ) (b : Budget F) (t m : ℤ)
      → Counts n b
      → limit < 2 ^ 63
      → b.max_tokens ≡ pos limit
      → 0 < limit
      → n + tokens us ≤ limit
      → (remaining_tokens fl (add_all fl us b) ≡ pos (limit - (n + tokens us)))
        × (check fl (add_all fl us b) ≢ some (tokens_exceeded t m))
  budget_within us n limit b t m c h e p q =
      within_of (n + tokens us) limit (add_all fl us b) t m h
        (Counts-add_all us n b (omega (arith, h, q)) c) (limit-add_all us b ∙ e) p q

  -- A new budget has counted no token.
  pub Counts-new : (cfg : BudgetConfig F) → Counts 0 (new_budget fl cfg)
  unfolding new_budget
  Counts-new cfg = record {
    input_count = 0;
    output_count = 0;
    input_is = refl;
    output_is = refl;
    sum_is = refl;
  }
