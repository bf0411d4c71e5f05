-- ===== src/Compaction/Engine.antt =====
-- compaction/compaction.go: `Engine`, which joins a trigger and a strategy.
use kae_agent_public.Base.{
  ℤ, Bool, true, false, String, Option, none, some, Slice, is_nil, Result, ok, err, ◌==◌,
  if◌then◌else◌,
}
use kae_agent_public.Llm.{Message}
use kae_agent_public.Llm.Clone.{clone_messages}
use kae_agent_public.Compaction.Types.{
  GoStd, Input, Output, Error, Strategy, Trigger, TokenEstimator,
}
use kae_agent_public.Compaction.Estimator.{
  estimate_prompt_tokens, default_chars_per_token, approx_estimate,
}

pub record Engine : Type 0 where
  pub trigger : Option Trigger
  pub strategy : Option Strategy
  pub estimator : Option TokenEstimator

abbrev pub forced_compaction_reason : String
forced_compaction_reason = "forced compaction"

-- `NewEngine`
unfoldable pub new_engine :
    GoStd → Option Trigger → Option Strategy → Option TokenEstimator → Engine
new_engine std trigger strategy none = record {
  trigger = trigger;
  strategy = strategy;
  estimator = some (approx_estimate std (ℤ.pos default_chars_per_token));
}
new_engine std trigger strategy (some e) = record {
  trigger = trigger;
  strategy = strategy;
  estimator = some e;
}

-- The output where nothing is compacted.
unfoldable pub unchanged : Slice Message → ℤ → Output
unchanged before tokens = record {
  messages = before;
  compacted = false;
  reason = "";
  metadata = none;
  tokens_before = tokens;
  tokens_after = tokens;
}

-- What both methods make of the strategy's answer.
unfoldable pub finish :
    GoStd → Engine → Input → Slice Message → ℤ → String → Result Error Output → Result Error Output
finish std e input before tokens reason (err x) = err x
finish std e input before tokens reason (ok out) =
    let ms = if is_nil out.messages then before else out.messages in
    ok (record out {
      messages = ms;
      reason = if out.reason == "" then reason else out.reason;
      tokens_before = tokens;
      tokens_after = estimate_prompt_tokens std ms input.tools e.estimator;
    })

-- The rest of `Compact` after the trigger's answer.
unfoldable pub compact_if :
    GoStd
    → Engine
    → Strategy
    → Input
    → Slice Message
    → ℤ
    → Result Error (Bool × String)
    → Result Error Output
unfolding finish unchanged
compact_if std e strategy input before tokens (err x) = err x
compact_if std e strategy input before tokens (ok (false, reason)) = ok (unchanged before tokens)
compact_if std e strategy input before tokens (ok (true, reason)) =
    finish std e input before tokens reason (strategy input)

-- `Engine.Compact`
unfoldable pub compact : GoStd → Engine → Input → Result Error Output
unfolding compact_if unchanged
compact std e input =
    let before = clone_messages input.messages in
    let tokens = estimate_prompt_tokens std before input.tools e.estimator in
    elim e.trigger [
      | none ↦ ok (unchanged before tokens)
      | some trigger ↦ elim e.strategy [
        | none ↦ ok (unchanged before tokens)
        | some strategy ↦ compact_if std e strategy input before tokens (trigger input)
      ]
    ]

-- `Engine.ForceCompact`
unfoldable pub force_compact : GoStd → Engine → Input → Result Error Output
unfolding finish unchanged
force_compact std e input =
    let before = clone_messages input.messages in
    let tokens = estimate_prompt_tokens std before input.tools e.estimator in
    elim e.strategy [
      | none ↦ ok (unchanged before tokens)
      | some strategy ↦ finish std e input before tokens forced_compaction_reason (strategy input)
    ]
