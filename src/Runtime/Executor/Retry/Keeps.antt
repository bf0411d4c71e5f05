-- ===== src/Runtime/Executor/Retry/Keeps.antt =====
-- A step that is tried again keeps what one attempt keeps.
use kae_agent_public.Base.{
  ℕ, zero, suc, ◌^◌, ℤ, pos_part, List, items, Option, none, some, ok, err, refl, ◌∙◌,
}
use kae_agent_public.Llm.{Message}
use kae_agent_public.Runtime.Executor.{Exec, Ended, ExecError}
use kae_agent_public.Runtime.Executor.Requests.{Handler, Step, StepResult}
use kae_agent_public.Runtime.Executor.Handlers.{Passes, Keeps, KeepsAround}
use kae_agent_public.Runtime.Executor.Retry.{after_try, after_pause, paused, attempts, retry}

module _ {F Sch W : Type 0} (I : List Message → Type 0) where
  Passes_trans : (x y z : Exec F Sch W) → Passes I x y → Passes I y z → Passes I x z
  Passes_trans x y z (a, b, c) (d, e, f) = (d, e ∙ b, f ∙ c)

module _ {F Sch W E : Type 0} (I : List Message → Type 0) where
  after_pause-Passes :
      (x : Exec F Sch W) (c : Option E × W)
      (again : Exec F Sch W → Ended F Sch W E (Option (StepResult F E)))
      → I (items x.run.conv.messages)
      → ((y : Exec F Sch W) → I (items y.run.conv.messages) → Passes I y (again y).1)
      → Passes I x (after_pause x c again).1
  unfolding after_pause
  after_pause-Passes x (some e, w) again h k = (h, refl, refl)
  after_pause-Passes x (none, w) again h k = k _ h

  paused-Passes :
      (pause : ℕ → W → Option E × W) (attempt : ℕ) (x : Exec F Sch W)
      (again : Exec F Sch W → Ended F Sch W E (Option (StepResult F E)))
      → I (items x.run.conv.messages)
      → ((y : Exec F Sch W) → I (items y.run.conv.messages) → Passes I y (again y).1)
      → Passes I x (paused pause attempt x again).1
  unfolding paused
  paused-Passes pause zero x again h k = k x h
  paused-Passes pause (suc attempt) x again h k =
      after_pause-Passes x (pause (2 ^ attempt) x.world) again h k

  after_try-Passes :
      (x : Exec F Sch W) (r : Ended F Sch W E (Option (StepResult F E)))
      (again : ExecError F E → Exec F Sch W → Ended F Sch W E (Option (StepResult F E)))
      → Passes I x r.1
      → ((e : ExecError F E) (y : Exec F Sch W)
          → I (items y.run.conv.messages)
          → Passes I y (again e y).1)
      → Passes I x (after_try r again).1
  unfolding after_try
  after_try-Passes x (ok r, y) again h k = h
  after_try-Passes x (err e, y) again h k = Passes_trans I x y (again e y).1 h (k e y h.0)

  module _ (pause : ℕ → W → Option E × W) (max : ℤ) (next : Handler F Sch W E)
      (keeps : Keeps I next) (step : Step Sch W) where
    attempts-Passes :
        (left attempt : ℕ) (last : Option (ExecError F E)) (x : Exec F Sch W)
        → I (items step.messages)
        → I (items x.run.conv.messages)
        → Passes I x (attempts pause max next step left attempt last x).1
    unfolding attempts
    attempts-Passes zero attempt last x g h = (h, refl, refl)
    attempts-Passes (suc left) attempt last x g h = paused-Passes pause attempt x _ h (λ y k.
        after_try-Passes y (next step y) _ (keeps step y g k)
          (λ e z i. attempts-Passes left (suc attempt) (some e) z g i))

  pub retry-KeepsAround :
      (pause : ℕ → W → Option E × W) (max : ℤ) → KeepsAround {F = F} {Sch = Sch} I (retry pause max)
  unfolding retry
  retry-KeepsAround pause max next keeps step x g h =
      attempts-Passes pause max next keeps step (pos_part max) 0 none x g h
