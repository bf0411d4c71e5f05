-- ===== src/Runtime/State/Stale.antt =====
-- A run that a change of the runtime has overtaken is not published.
use kae_agent_public.Base.{
  false, ℕ, zero, suc, Option, Result, ok, ap, ◌∙◌, Option-cases, Result-cases, inl, inr, ◌+◌, ◌<◌,
  ◌%◌, ◌^◌, eqb, String, Slice, ◌≡◌, refl, arith, sym,
}
use kae_agent_public.Llm.{Message}
use kae_agent_public.Conversation.{ConversationState, snapshot as conversation_snapshot}
use kae_agent_public.Session.{SessionSnapshot, set_meta, snapshot as session_snapshot}
use kae_agent_public.Streaming.Budget.{Floats}
use kae_agent_public.Tools.Registry.{Registry}
use kae_agent_public.Agents.{Agent, Resolver}
use kae_agent_public.Runtime.Transfer.{TransferInputFilter}
use kae_agent_public.Runtime.Subagents.{
  TransferRequest, TransferError, apply_transfer_to_runtime, resolve_transfer_state_from, filter_or,
}
use kae_agent_public.Runtime.State.{
  Runtime, RunState, publish_run_state, append_conversation_message, append_conversation_messages,
  clear_conversation, set_conversation_system, set_session_metadata, load_state, next_generation,
}

module _ {F Sch W : Type 0} (fl : Floats F) (trim : String → String) where
  -- A call from outside a run that changes the runtime: each one that raises the generation.
  pub data Changed (E : Type 0) (r r' : Runtime (Agent F Sch W) (Registry Sch W) F) : Type 0 where
    appends : (m : Message) → r' ≡ append_conversation_message m r → Changed E r r'
    appends_all : (ms : Slice Message) → r' ≡ append_conversation_messages ms r → Changed E r r'
    clears : r' ≡ clear_conversation r → Changed E r r'
    sets_system : (s : String) → r' ≡ set_conversation_system s r → Changed E r r'
    sets_metadata :
        (key value : String) → r' ≡ (set_session_metadata key value r).1 → Changed E r r'
    loads :
        (snap : SessionSnapshot F) (conv : ConversationState)
        → r' ≡ load_state snap conv r
        → Changed E r r'
    transfers :
        (resolver : Option (Resolver F Sch W))
        (filter : Option (TransferInputFilter (SessionSnapshot F) E)) (req : TransferRequest F E)
        → apply_transfer_to_runtime fl trim resolver filter req r ≡ ok r'
        → Changed E r r'

  -- So many changes, one after the other.
  abbrev pub Changes :
      Type 0
      → ℕ
      → Runtime (Agent F Sch W) (Registry Sch W) F
      → Runtime (Agent F Sch W) (Registry Sch W) F
      → Type 0
  Changes E zero r r' = r ≡ r'
  Changes E (suc n) r r' =
      (s : Runtime (Agent F Sch W) (Registry Sch W) F) × Changed E r s × Changes E n s r'

  generation-set_session_metadata :
      (key value : String) (r : Runtime (Agent F Sch W) (Registry Sch W) F)
      → (set_session_metadata key value r).1.generation ≡ next_generation r.generation
  unfolding set_session_metadata
  generation-set_session_metadata key value r = elim (Option-cases (set_meta key value r.session)) [
    | inl p ↦ rw (p, set_session_metadata) refl
    | inr (s, p) ↦ rw (p, set_session_metadata) refl
  ]

  raised :
      {E : Type 0} (g : ℕ) (r' s : Runtime (Agent F Sch W) (Registry Sch W) F)
      → s.generation ≡ g
      → (let x : Result (TransferError E) (Runtime (Agent F Sch W) (Registry Sch W) F) = ok s in
          x ≡ ok r')
      → r'.generation ≡ g
  raised g r' s p h = let q : s ≡ r' = cc in ap (λ x. x.generation) (sym q) ∙ p

  generation-transfer :
      {E : Type 0} (resolver : Option (Resolver F Sch W))
      (filter : Option (TransferInputFilter (SessionSnapshot F) E)) (req : TransferRequest F E)
      (r r' : Runtime (Agent F Sch W) (Registry Sch W) F)
      → apply_transfer_to_runtime fl trim resolver filter req r ≡ ok r'
      → r'.generation ≡ next_generation r.generation
  unfolding apply_transfer_to_runtime
  generation-transfer resolver filter req r r' h =
      elim (Result-cases (
        resolve_transfer_state_from fl trim r.agent (session_snapshot r.session)
          (conversation_snapshot r.conv).messages req resolver r.root_agent
          (filter_or req.filter filter))) [
            | inl (t, p) ↦
                raised (next_generation r.generation) r' _ refl
                  (rw (p, apply_transfer_to_runtime) at h)
            | inr (e, p) ↦ (let k = rw (p, apply_transfer_to_runtime) at h in cc)
          ]

  generation-change :
      {E : Type 0} (r r' : Runtime (Agent F Sch W) (Registry Sch W) F)
      → Changed E r r'
      → r'.generation ≡ next_generation r.generation
  unfolding append_conversation_message append_conversation_messages clear_conversation
      set_conversation_system load_state
  generation-change r r' (appends m h) = ap (λ s. s.generation) h
  generation-change r r' (appends_all ms h) = ap (λ s. s.generation) h
  generation-change r r' (clears h) = ap (λ s. s.generation) h
  generation-change r r' (sets_system s h) = ap (λ s. s.generation) h
  generation-change r r' (sets_metadata key value h) =
      ap (λ s. s.generation) h ∙ generation-set_session_metadata key value r
  generation-change r r' (loads snap conv h) = ap (λ s. s.generation) h
  generation-change r r' (transfers resolver filter req h) =
      generation-transfer resolver filter req r r' h

  generation-Changes :
      (E : Type 0) (n : ℕ) (r r' : Runtime (Agent F Sch W) (Registry Sch W) F)
      → r.generation < 2 ^ 64
      → Changes E n r r'
      → r'.generation ≡ (r.generation + n) % 2 ^ 64
  generation-Changes E zero r r' h c = ground (arith, ap (λ s. s.generation) c)
  generation-Changes E (suc n) r r' h (s, c, cs) =
      let g = generation-change r s c in
      ground (arith, g, generation-Changes E n s r' (ground (arith, g)) cs)

  publish_other :
      (rs : RunState (Agent F Sch W) (Registry Sch W) F)
      (r : Runtime (Agent F Sch W) (Registry Sch W) F)
      → eqb r.generation rs.generation ≡ false
      → publish_run_state rs r ≡ r
  unfolding publish_run_state
  publish_other rs r h = rw h refl

  -- A run that was captured before one or more changes of the runtime from outside, fewer than 2^64,
  -- is not published: whatever the run has made of its state, the runtime keeps what the changes made
  -- of it. The changes are those of the conversation, the load of a state, the writes of session
  -- metadata, also one that panics, and the transfers of the runtime that succeed.
  pub publish_run_state-Changes :
      (E : Type 0) (rs : RunState (Agent F Sch W) (Registry Sch W) F)
      (r r' : Runtime (Agent F Sch W) (Registry Sch W) F) (n : ℕ)
      → rs.generation ≡ r.generation
      → r.generation < 2 ^ 64
      → 0 < n
      → n < 2 ^ 64
      → Changes E n r r'
      → publish_run_state rs r' ≡ r'
  publish_run_state-Changes E rs r r' n e h p k c =
      publish_other rs r' (ground (arith, e, generation-Changes E n r r' h c))
