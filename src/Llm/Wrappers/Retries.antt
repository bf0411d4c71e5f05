-- ===== src/Llm/Wrappers/Retries.antt =====
-- The loop of retries ends where the policy gives up.
use kae_agent_public.Base.{
  ℕ, zero, suc, ℤ, pos, ◌+◌, ◌≤◌, String, Option, none, some, Result, ok, err, Bool, true, false,
  ◌≡◌, refl, subst, arith,
}
use kae_agent_public.Llm.Wrappers.{
  Call, RetryPolicy, Clock, wait_for_retry, after_wait, after_policy, after_call, retrying,
}

-- From any world, one result for each fuel from d on.
abbrev Settled : {A W E : Type 0} → ℕ → (ℕ → Option (Result E A × W)) → Type 0
Settled {A} {W} {E} d f = (r : Result E A × W) × ((m : ℕ) → d ≤ m → f m ≡ some r)

given_zero : (n attempt : ℕ) → attempt + 0 ≡ n → n ≡ attempt
given_zero n attempt h = omega arith

-- A fuel above suc d is a suc of one above d.
from_suc :
    {A W E : Type 0} (d : ℕ) (f : ℕ → Option (Result E A × W)) (r : Result E A × W)
    → ((m : ℕ) → d ≤ m → f (suc m) ≡ some r)
    → (m : ℕ) → suc d ≤ m
    → f m ≡ some r
from_suc d f r h zero k = grind arith
from_suc d f r h (suc m) k = h m (omega arith)

module _ {A W E : Type 0} (wrap : String → E → E) where
  after_wait_settles :
      (d : ℕ) (c : Option E × W) (again : ℕ → W → Option (Result E A × W))
      → ((v : W) → Settled d (λ m. again m v))
      → Settled d (λ m. after_wait wrap c (again m))
  unfolding after_wait
  after_wait_settles d (some e, w) again h = ((err e, w), λ m k. refl)
  after_wait_settles d (none, w) again h = h w

  after_policy_settles :
      (clock : Clock W E) (d : ℕ) (e : E) (q : (ℤ × Bool) × W)
      (again : ℕ → W → Option (Result E A × W))
      → ((v : W) → Settled d (λ m. again m v))
      → Settled d (λ m. after_policy wrap clock e q (again m))
  unfolding after_policy
  after_policy_settles clock d e ((wait, false), w) again h = ((err e, w), λ m k. refl)
  after_policy_settles clock d e ((wait, true), w) again h =
      after_wait_settles d (wait_for_retry wrap clock wait w) again h

  after_policy_stops :
      (clock : Clock W E) (e : E) (q : (ℤ × Bool) × W) (again : W → Option (Result E A × W))
      → q.0.1 ≡ false
      → after_policy wrap clock e q again ≡ some (err e, q.1)
  unfolding after_policy
  after_policy_stops clock e ((wait, false), w) again h = refl
  after_policy_stops clock e ((wait, true), w) again h = cc

module _ {Req A W E : Type 0} (wrap : String → E → E) (policy : RetryPolicy Req W E)
    (clock : Clock W E) (next : Call Req A W E) (req : Req) where
  after_call_settles :
      (d attempt : ℕ) (c : Result E A × W) (again : ℕ → W → Option (Result E A × W))
      → ((v : W) → Settled d (λ m. again m v))
      → Settled d (λ m. after_call wrap policy clock req attempt c (again m))
  unfolding after_call
  after_call_settles d attempt (ok a, w) again h = ((ok a, w), λ m k. refl)
  after_call_settles d attempt (err e, w) again h =
      after_policy_settles wrap clock d e (policy req e (pos attempt) w) again h

  after_call_stops :
      (attempt : ℕ) (c : Result E A × W) (again : ℕ → W → Option (Result E A × W))
      → ((e : E) (w : W) → (policy req e (pos attempt) w).0.1 ≡ false)
      → Settled 0 (λ m. after_call wrap policy clock req attempt c (again m))
  unfolding after_call
  after_call_stops attempt (ok a, w) again h = ((ok a, w), λ m k. refl)
  after_call_stops attempt (err e, w) again h = (
    (err e, (policy req e (pos attempt) w).1),
    λ m k. after_policy_stops wrap clock e (policy req e (pos attempt) w) (again m) (h e w),
  )

  retrying_settles :
      (n : ℕ)
      → ((e : E) (w : W) → (policy req e (pos n) w).0.1 ≡ false)
      → (d attempt : ℕ) (v : W) → attempt + d ≡ n
      → Settled d (λ m. retrying wrap policy clock next (suc m) attempt req v)
  unfolding retrying
  retrying_settles n stops zero attempt v p =
      after_call_stops attempt (next req v)
        (λ m. retrying wrap policy clock next m (suc attempt) req)
        (subst (λ i. (e : E) (w : W) → (policy req e (pos i) w).0.1 ≡ false)
          (given_zero n attempt p) stops)
  retrying_settles n stops (suc d) attempt v p =
      let rest =
        after_call_settles d attempt (next req v)
          (λ m. retrying wrap policy clock next (suc m) (suc attempt) req)
          (λ w. retrying_settles n stops d (suc attempt) w (omega arith)) in
      (rest.0, from_suc d _ rest.0 rest.1)

  -- A policy that gives up at the attempt n (counted from zero) ends the loop: after at most n + 1
  -- calls there is a result, the same for every larger fuel.
  pub retrying_ends :
      (n : ℕ) (w : W)
      → ((e : E) (v : W) → (policy req e (pos n) v).0.1 ≡ false)
      → (r : Result E A × W) × ((k : ℕ)
          → retrying wrap policy clock next (suc (n + k)) 0 req w ≡ some r)
  retrying_ends n w stops =
      let rest = retrying_settles n stops n 0 w (omega arith) in
      (rest.0, λ k. rest.1 (n + k) (omega arith))
