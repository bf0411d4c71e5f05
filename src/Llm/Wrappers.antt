-- ===== src/Llm/Wrappers.antt =====
-- llm/wrappers.go: wrappers of a provider, for a call of any kind (`Complete` and `Stream` are wrapped
-- the same way). The world is what a provider, a limiter, a policy, the context and the timers read and
-- change; the bound on calls in flight is left out.
pub mod Retries
mod Tests
use kae_agent_public.Base.{
  ℕ, zero, suc, ℤ, pos, leb_ℤ, String, List, [], ◌∷◌, Option, none, some, Result, ok, err, Bool,
  true, false, if◌then◌else◌,
}

-- A call of the provider with a request.
abbrev pub Call : (Req A W E : Type 0) → Type 0
Call Req A W E = Req → W → Result E A × W

-- `ProviderMiddleware`, of one method.
abbrev pub CallMiddleware : (Req A W E : Type 0) → Type 0
CallMiddleware Req A W E = Call Req A W E → Call Req A W E

-- `WrapProvider`: the first middleware is the outermost.
unfoldable pub wrap_provider :
    {Req A W E : Type 0} → Call Req A W E → List (CallMiddleware Req A W E) → Call Req A W E
wrap_provider base [] = base
wrap_provider base (m ∷ ms) = m (wrap_provider base ms)

-- `RetryPolicy`: for a request, an error and the number of the attempt, the time to wait and whether
-- to go on.
abbrev pub RetryPolicy : (Req W E : Type 0) → Type 0
RetryPolicy Req W E = Req → E → ℤ → W → (ℤ × Bool) × W

-- The context, and a timer beside it: the end of the context, or none after the time.
pub record Clock (W E : Type 0) : Type 0 where
  pub ctx_err : W → Option E
  pub sleep : ℤ → W → Option E × W

module _ {W E : Type 0} (wrap : String → E → E) where
  unfoldable pub cancelled : Option E × W → Option E × W
  cancelled (none, w) = (none, w)
  cancelled (some e, w) = (some (wrap "llm: retry cancelled" e), w)

  -- `waitForRetry`
  unfoldable pub wait_for_retry : Clock W E → ℤ → W → Option E × W
  unfolding cancelled
  wait_for_retry clock wait w =
      cancelled (if leb_ℤ wait (pos 0) then (clock.ctx_err w, w) else clock.sleep wait w)

  module _ {A : Type 0} where
    -- What follows a wait.
    unfoldable pub after_wait :
        Option E × W → (W → Option (Result E A × W)) → Option (Result E A × W)
    after_wait (some e, w) again = some (err e, w)
    after_wait (none, w) again = again w

    -- What follows the answer of the policy for the error e.
    unfoldable pub after_policy :
        Clock W E → E → (ℤ × Bool) × W → (W → Option (Result E A × W)) → Option (Result E A × W)
    unfolding wait_for_retry after_wait
    after_policy clock e ((wait, false), w) again = some (err e, w)
    after_policy clock e ((wait, true), w) again = after_wait (wait_for_retry clock wait w) again

  module _ {Req A : Type 0} where
    -- `rateLimitedProvider`, after the answer of the limiter.
    unfoldable pub let_through : Call Req A W E → Req → Option E × W → Result E A × W
    let_through next req (none, w) = next req w
    let_through next req (some e, w) = (err (wrap "llm: rate limit wait" e), w)

    unfoldable pub with_rate_limit : (Req → W → Option E × W) → CallMiddleware Req A W E
    unfolding let_through
    with_rate_limit limiter next req w = let_through next req (limiter req w)

    unfoldable pub after_call :
        RetryPolicy Req W E
        → Clock W E
        → Req
        → ℕ
        → Result E A × W
        → (W → Option (Result E A × W))
        → Option (Result E A × W)
    unfolding after_policy
    after_call policy clock req attempt (ok a, w) again = some (ok a, w)
    after_call policy clock req attempt (err e, w) again =
        after_policy clock e (policy req e (pos attempt) w) again

    -- The loop of `retryingProvider`, for at most as many calls as the fuel; none where it goes on.
    unfoldable pub retrying :
        RetryPolicy Req W E → Clock W E → Call Req A W E → ℕ → ℕ → Req → W → Option (Result E A × W)
    unfolding after_call
    retrying policy clock next zero attempt req w = none
    retrying policy clock next (suc fuel) attempt req w =
        after_call policy clock req attempt (next req w)
          (λ v. retrying policy clock next fuel (suc attempt) req v)
