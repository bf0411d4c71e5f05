-- ===== src/Runtime/Executor/Retry.antt =====
-- agent/middleware.go, `RetryMiddleware`. `pause` is the `select` of the context and a timer of the given
-- multiple of the backoff: the end of the context, or none after the time.
pub mod Keeps
use kae_agent_public.Base.{ℕ, zero, suc, ◌^◌, ℤ, pos_part, Option, none, some, ok, err}
use kae_agent_public.Runtime.Executor.{
  Exec, Ended, ExecError, retry_cancelled, never_tried, retry_exhausted, with_world,
}
use kae_agent_public.Runtime.Executor.Requests.{Middleware, Handler, Step, StepResult}

module _ {F E : Type 0} where
  -- The error after the last attempt.
  unfoldable pub exhausted : ℤ → Option (ExecError F E) → ExecError F E
  exhausted max none = never_tried max
  exhausted max (some e) = retry_exhausted max e

module _ {F Sch W E : Type 0} where
  -- What follows an attempt.
  unfoldable pub after_try :
      Ended F Sch W E (Option (StepResult F E))
      → (ExecError F E → Exec F Sch W → Ended F Sch W E (Option (StepResult F E)))
      → Ended F Sch W E (Option (StepResult F E))
  after_try (ok r, x) again = (ok r, x)
  after_try (err e, x) again = again e x

  -- What follows the pause before an attempt.
  unfoldable pub after_pause :
      Exec F Sch W
      → Option E × W
      → (Exec F Sch W → Ended F Sch W E (Option (StepResult F E)))
      → Ended F Sch W E (Option (StepResult F E))
  after_pause x (some e, w) again = (err (retry_cancelled e), with_world w x)
  after_pause x (none, w) again = again (with_world w x)

  -- There is no pause before the attempt with the number 0.
  unfoldable pub paused :
      (ℕ → W → Option E × W)
      → ℕ
      → Exec F Sch W
      → (Exec F Sch W → Ended F Sch W E (Option (StepResult F E)))
      → Ended F Sch W E (Option (StepResult F E))
  unfolding after_pause
  paused pause zero x again = again x
  paused pause (suc attempt) x again = after_pause x (pause (2 ^ attempt) x.world) again

  module _ (pause : ℕ → W → Option E × W) (max : ℤ) (next : Handler F Sch W E)
      (step : Step Sch W) where
    -- The loop, with the number of attempts that are left.
    unfoldable pub attempts :
        ℕ → ℕ → Option (ExecError F E) → Exec F Sch W → Ended F Sch W E (Option (StepResult F E))
    unfolding paused after_try exhausted
    attempts zero attempt last x = (err (exhausted max last), x)
    attempts (suc left) attempt last x =
        paused pause attempt x
          (λ y. after_try (next step y) (λ e z. attempts left (suc attempt) (some e) z))

  unfoldable pub retry : (ℕ → W → Option E × W) → ℤ → Middleware F Sch W E
  unfolding attempts
  retry pause max next step x = attempts pause max next step (pos_part max) 0 none x
