-- ===== src/Llm/Wrappers/Tests.antt =====
-- A provider that fails twice and then answers, under a policy of three attempts.
use kae_agent_public.Base.{
  ℕ, zero, suc, pos, ltb_ℤ, String, ◌+◌, none, some, Result, ok, err, ◌≡◌, refl,
}
use kae_agent_public.Llm.Wrappers.{
  Call, RetryPolicy, Clock, cancelled, wait_for_retry, after_wait, after_policy, after_call,
  retrying,
}
use kae_agent_public.Llm.Wrappers.Retries.{retrying_ends}

-- The world counts the calls.
abbrev next : Call String String ℕ String
next req zero = (err "busy", 1)
next req (suc zero) = (err "busy", 2)
next req (suc (suc n)) = (ok "answer", suc (suc (suc n)))

abbrev policy : RetryPolicy String ℕ String
policy req e attempt w = ((pos 0, ltb_ℤ attempt (pos 2)), w)

abbrev clock : Clock ℕ String
clock = record { ctx_err = λ w. none; sleep = λ t w. (none, w) }

abbrev wrap : String → String → String
wrap s e = s

third_answers : retrying wrap policy clock next 3 0 "req" 0 ≡ some (ok "answer", 3)
unfolding retrying after_call after_policy after_wait wait_for_retry cancelled
third_answers = refl

retrying_ends_example :
    (r : Result String String × ℕ) × ((k : ℕ)
      → retrying wrap policy clock next (suc (2 + k)) 0 "req" 0 ≡ some r)
retrying_ends_example = retrying_ends wrap policy clock next "req" 2 0 (λ e v. refl)
