-- ===== src/Runtime/Request/Fits.antt =====
-- What a prepared request promises, and which conversations are always accepted.
use kae_agent_public.Base.{
  pos, ◌≤◌, ◌≤ℤ◌, ◌+ℤ◌, wrap64, leb_ℤ, String, List, [], ◌∷◌, Option, none, some, Slice, items,
  Result, ok, err, false, ◌≡◌, refl, ◌⊎◌, inl, inr, arith, Bool-cases, Option-cases, All, subst,
}
use kae_agent_public.Llm.{Message, ToolDef}
use kae_agent_public.Llm.Clone.{clone_messages_id}
use kae_agent_public.Compaction.{GoStd, Output, Error}
use kae_agent_public.Compaction.Estimator.{estimate_prompt_tokens}
use kae_agent_public.Conversation.{Conversation, replace_messages}
use kae_agent_public.Conversation.System.{Led, IsOther}
use kae_agent_public.Runtime.Request.{
  Compactor, Limits, RequestError, input_for, keep_compacted, count_system,
  ensure_single_system_message, should_force_preflight_compaction, checked, current_after,
  after_force, after_answer, force, prepare_messages_for_request,
}

-- The estimate of a request and the reserve for the answer stay within the limit of the model, where
-- there is one.
abbrev pub Fits : GoStd → Limits → List ToolDef → Slice Message → Type 0
Fits std rt tools ms =
    (rt.model_context_limit ≤ℤ pos 0)
    ⊎ (wrap64 (estimate_prompt_tokens std ms tools none +ℤ rt.output_reserve)
        ≤ℤ rt.model_context_limit)

-- A request that may be sent: it fits, has at most one system message, and is either made of the
-- messages given, with the conversation left as it is, or of those that the conversation now holds.
pub record Sendable (std : GoStd) (rt : Limits) (tools : List ToolDef) (given : Slice Message)
    (before : Conversation) (ms : Slice Message) (after : Conversation) : Type 0 where
  pub fits : Fits std rt tools ms
  pub single : count_system (items ms) ≤ 1
  pub source : ((ms ≡ given) × (after ≡ before)) ⊎ (after ≡ record before { messages = ms })

single_of : (ms : List Message) → ensure_single_system_message ms ≡ none → count_system ms ≤ 1
unfolding ensure_single_system_message
single_of ms h = ground arith

module _ (std : GoStd) (rt : Limits) (tools : List ToolDef) where
  Fits-of :
      (ms : Slice Message)
      → should_force_preflight_compaction std rt ms tools ≡ false
      → Fits std rt tools ms
  unfolding should_force_preflight_compaction
  Fits-of ms h = elim (Bool-cases (leb_ℤ rt.model_context_limit (pos 0))) [
    | inl p ↦ inl (ground (arith, p))
    | inr p ↦ inr (ground (arith, p, h))
  ]

  -- Where the answer of a run of the checks is a request, it may be sent.
  abbrev AllSendable :
      Slice Message → Conversation → Result RequestError (Slice Message) × Conversation → Type 0
  AllSendable given before (ok ms, after) = Sendable std rt tools given before ms after
  AllSendable given before (err e, after) = Unit

  checked-AllSendable :
      (given ms : Slice Message) (before after : Conversation)
      → should_force_preflight_compaction std rt ms tools ≡ false
      → ((ms ≡ given) × (after ≡ before)) ⊎ (after ≡ record before { messages = ms })
      → AllSendable given before (checked std ms after)
  unfolding checked
  checked-AllSendable given ms before after h s =
      elim (Option-cases (ensure_single_system_message (items ms))) [
        | inl p ↦
            rw (p, checked)
              (record { fits = Fits-of ms h; single = single_of (items ms) p; source = s })
        | inr (e, p) ↦ rw (p, checked) tt
      ]

  source_of :
      (out : Output) (given : Slice Message) (c : Conversation)
      → ((current_after std out given ≡ given) × (keep_compacted out c ≡ c))
        ⊎ (keep_compacted out c ≡ record c { messages = current_after std out given })
  unfolding current_after keep_compacted replace_messages
  source_of out given c = elim (Bool-cases out.compacted) [
    | inl p ↦ inr (rw p refl)
    | inr p ↦ inl (rw p refl, rw p refl)
  ]

  after_force-AllSendable :
      (given : Slice Message) (c : Conversation) (out : Output)
      → AllSendable given c (after_force std rt tools given c out)
  unfolding after_force
  after_force-AllSendable given c out =
      elim (Bool-cases
        (should_force_preflight_compaction std rt (current_after std out given) tools)) [
          | inl p ↦ rw p tt
          | inr p ↦ rw p (
              checked-AllSendable given (current_after std out given) c (keep_compacted out c) p
                (source_of out given c))
        ]

  answer-AllSendable :
      (given : Slice Message) (c : Conversation) (r : Result Error Output)
      → AllSendable given c (after_answer std rt tools given c r)
  unfolding after_answer
  answer-AllSendable given c (err e) = tt
  answer-AllSendable given c (ok out) = after_force-AllSendable given c out

  force-AllSendable :
      (session_id : String) (given : Slice Message) (c : Conversation) (k : Option Compactor)
      → AllSendable given c (force std rt session_id given tools c k)
  unfolding force
  force-AllSendable session_id given c none = tt
  force-AllSendable session_id given c (some k) =
      answer-AllSendable given c (k.force_compact (input_for session_id given tools))

  prepare-AllSendable :
      (session_id : String) (ms : Slice Message) (c : Conversation)
      → AllSendable ms c (prepare_messages_for_request std rt session_id ms tools c)
  unfolding prepare_messages_for_request
  prepare-AllSendable session_id ms c =
      rw clone_messages_id (elim (Bool-cases (should_force_preflight_compaction std rt ms tools)) [
        | inr p ↦ rw p (checked-AllSendable ms ms c c p (inl (refl, refl)))
        | inl p ↦ rw p (force-AllSendable session_id ms c rt.compactor)
      ])

  Sendable-of :
      (given : Slice Message) (c : Conversation)
      (r : Result RequestError (Slice Message) × Conversation) (ms : Slice Message)
      → AllSendable given c r
      → r.0 ≡ ok ms
      → Sendable std rt tools given c ms r.1
  Sendable-of given c (ok x, d) ms h e =
      let p : x ≡ ms = cc in subst (λ y. Sendable std rt tools given c y d) p h
  Sendable-of given c (err x, d) ms h e = cc

  -- Whatever the compactor does, a request that is prepared fits the limit of the model, has at most
  -- one system message, and holds what the conversation holds where a compaction has changed it.
  pub prepare-Sendable :
      (session_id : String) (given : Slice Message) (c : Conversation) (ms : Slice Message)
      → (prepare_messages_for_request std rt session_id given tools c).0 ≡ ok ms
      → Sendable std rt tools given c ms
          (prepare_messages_for_request std rt session_id given tools c).1
  prepare-Sendable session_id given c ms e =
      Sendable-of given c _ ms (prepare-AllSendable session_id given c) e

count_others : (ms : List Message) → All IsOther ms → count_system ms ≡ 0
unfolding count_system
count_others [] h = refl
count_others (m ∷ ms) (a, h) = rw a (count_others ms h)

count-Led : (ms : List Message) → Led ms → count_system ms ≤ 1
unfolding count_system
count-Led [] h = omega arith
count-Led (m ∷ ms) h = ground (arith, count_others ms h)

-- A conversation whose system message stands at most at its head passes the check for one system
-- message.
pub ensure_single-Led : (ms : List Message) → Led ms → ensure_single_system_message ms ≡ none
unfolding ensure_single_system_message
ensure_single-Led ms h = ground (arith, count-Led ms h)
