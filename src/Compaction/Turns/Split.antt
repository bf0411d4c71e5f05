-- ===== src/Compaction/Turns/Split.antt =====
-- What `splitTurns` keeps and where it cuts.
use mathlib.Core.List.{append-nil, append_assoc}
use kae_agent_public.Base.{
  ◌≡◌, refl, sym, ◌∙◌, ap, Bool, true, false, not, List, [], ◌∷◌, ◌++◌, keep_if, keep_if-append,
  arith, Bool-cases, inl, inr,
}
use kae_agent_public.Llm.{Message}
use kae_agent_public.Compaction.Turns.{
  is_system, is_user, SplitState, flush, split_step, split_loop, split_turns,
}

-- The turns put end to end.
abbrev pub joined : List (List Message) → List Message
joined [] = []
joined (t ∷ ts) = t ++ joined ts

pub joined-append : (ts us : List (List Message)) → joined (ts ++ us) ≡ joined ts ++ joined us
joined-append [] us = refl
joined-append (t ∷ ts) us = rw (joined-append ts us) (sym (append_assoc t (joined ts) (joined us)))

joined-flush : (ts : List (List Message)) (c : List Message) → joined (flush ts c) ≡ joined ts ++ c
unfolding flush
joined-flush ts [] = sym (append-nil (joined ts))
joined-flush ts (m ∷ ms) = rw joined-append (rw append-nil)

abbrev pub not_system : Message → Bool
not_system m = not (is_system m)

-- The messages of a state that are no system messages.
abbrev rest_of : SplitState → List Message
rest_of s = joined s.turns ++ s.current

append_one :
    (ts : List (List Message)) (c : List Message) (m : Message)
    → joined (flush ts c) ++ m ∷ [] ≡ (joined ts ++ c) ++ m ∷ []
append_one ts c m = rw joined-flush

step_system :
    (s : SplitState) (m : Message)
    → (split_step s m).system ≡ s.system ++ keep_if is_system (m ∷ [])
unfolding split_step
step_system s m = elim (Bool-cases (is_system m)) [
  | inl p ↦ rw p
  | inr p ↦ rw p (rw append-nil (ground arith))
]

module _ (s : SplitState) (m : Message) where
  step_rest_user :
      is_system m ≡ false → is_user m ≡ true → rest_of (split_step s m) ≡ rest_of s ++ m ∷ []
  unfolding split_step
  step_rest_user p q = rw (p, q) (append_one s.turns s.current m)

step_rest_other :
    (sys : List Message) (ts : List (List Message)) (c : List Message) (m : Message)
    → is_system m ≡ false
    → is_user m ≡ false
    → let s : SplitState = record { system = sys; turns = ts; current = c } in
      rest_of (split_step s m) ≡ rest_of s ++ m ∷ []
unfolding split_step
step_rest_other sys ts [] m p q = rw (p, q) (rw append-nil)
step_rest_other sys ts (x ∷ c) m p q = rw (p, q) (sym (append_assoc (joined ts) (x ∷ c) (m ∷ [])))

step_rest :
    (s : SplitState) (m : Message)
    → rest_of (split_step s m) ≡ rest_of s ++ keep_if not_system (m ∷ [])
step_rest s m = elim (Bool-cases (is_system m)) [
  | inl p ↦ rw p (rw append-nil (unfold split_step in rw p))
  | inr p ↦ rw p (elim (Bool-cases (is_user m)) [
    | inl q ↦ step_rest_user s m p q
    | inr q ↦ step_rest_other s.system s.turns s.current m p q
  ])
]

loop_keeps :
    (ms : List Message) (s : SplitState)
    → ((split_loop ms s).system ≡ s.system ++ keep_if is_system ms)
      × (rest_of (split_loop ms s) ≡ rest_of s ++ keep_if not_system ms)
unfolding split_loop
loop_keeps [] s = (sym (append-nil s.system), sym (append-nil (rest_of s)))
loop_keeps (m ∷ ms) s =
    let (a, b) = loop_keeps ms (split_step s m) in
    (
      a
          ∙ rw (step_system s m) (
              append_assoc s.system (keep_if is_system (m ∷ [])) (keep_if is_system ms)
              ∙ ap (λ l. s.system ++ l) (sym (keep_if-append is_system (m ∷ []) ms))),
      b
          ∙ rw (step_rest s m) (
              append_assoc (rest_of s) (keep_if not_system (m ∷ [])) (keep_if not_system ms)
              ∙ ap (λ l. rest_of s ++ l) (sym (keep_if-append not_system (m ∷ []) ms))),
    )

-- Splitting a conversation loses no message: the first part is its system messages, and the turns put
-- end to end are its other messages, both in the order of the conversation.
pub split_turns_keeps :
    (ms : List Message)
    → ((split_turns ms).0 ≡ keep_if is_system ms)
      × (joined (split_turns ms).1 ≡ keep_if not_system ms)
unfolding split_turns
split_turns_keeps ms =
    let s0 : SplitState = record { system = []; turns = []; current = [] } in
    let (a, b) = loop_keeps ms s0 in
    (a, joined-flush (split_loop ms s0).turns (split_loop ms s0).current ∙ b)
