-- ===== src/Runtime/Executor/Pairs/Turns.antt =====
-- The turn window of the compaction cuts between turns, and so between no call and its answer.
use mathlib.Core.List.{append_assoc, append-nil}
use kae_agent_public.Base.{
  ℕ, zero, suc, ◌-◌, ℤ, pos, leb_ℤ, pos_part, String, true, false, List, [], ◌∷◌, ◌++◌, ◌==◌, Slice,
  items, items-append, append, Result, ok, err, ◌≡◌, refl, sym, subst, All, Bool-cases, inl, inr,
  is_empty, drop, last_n, length,
}
use kae_agent_public.Llm.{Message}
use kae_agent_public.Llm.Clone.{clone_messages_id}
use kae_agent_public.Compaction.{Input, Output as Compacted, Error}
use kae_agent_public.Compaction.Turns.{
  is_system, is_user, SplitState, flush, split_step, split_loop, split_turns,
}
use kae_agent_public.Compaction.TurnWindow.{append_turns, window, compact}
use kae_agent_public.Runtime.Executor.Pairs.{PairedFrom, Paired, made_by, append-PairedFrom}

-- Behind the messages, the calls with the given ids wait.
abbrev Leaves : List String → List Message → Type 0
Leaves is ms = (ns : List Message) → PairedFrom is ns → Paired (ms ++ ns)

-- The loop's variables, where the calls with the given ids wait.
abbrev Cut : List String → SplitState → Type 0
Cut is s = Paired s.system × All Paired s.turns × Leaves is s.current

Leaves-Paired : (ms : List Message) → Leaves [] ms → Paired ms
Leaves-Paired ms h = subst Paired (append-nil ms) (h [] tt)

All-last :
    (ts : List (List Message)) (t : List Message)
    → All Paired ts
    → Paired t
    → All Paired (ts ++ t ∷ [])
All-last [] t h k = (k, tt)
All-last (u ∷ ts) t (g, h) k = (g, All-last ts t h k)

flush-All :
    (ts : List (List Message)) (t : List Message)
    → All Paired ts
    → Paired t
    → All Paired (flush ts t)
unfolding flush
flush-All ts [] h k = h
flush-All ts (m ∷ ms) h k = All-last ts (m ∷ ms) h k

-- The message goes to the end of the current turn.
grown :
    (is js : List String) (m : Message) (ms : List Message)
    → Leaves is ms
    → ((ns : List Message) → PairedFrom js ns → PairedFrom is (m ∷ ns))
    → Leaves js (ms ++ m ∷ [])
grown is js m ms l k ns h = subst Paired (sym (append_assoc ms (m ∷ []) ns)) (l (m ∷ ns) (k ns h))

system-Cut :
    (m : Message) (s : SplitState)
    → is_system m ≡ true
    → (m.role == "tool") ≡ false
    → Cut [] s
    → Cut (made_by m) (split_step s m)
unfolding split_step
system-Cut m s p r (a, b, c) = rw p (append-PairedFrom [] s.system (m ∷ []) a (r, rw p tt), b, c)

no_items : (ms : List Message) → is_empty ms ≡ true → ms ≡ []
no_items [] h = refl
no_items (m ∷ ms) h = cc

other-Cut :
    (is js : List String) (m : Message) (s : SplitState)
    → is_system m ≡ false
    → is_user m ≡ false
    → ((ns : List Message) → PairedFrom js ns → PairedFrom is (m ∷ ns))
    → Cut is s
    → Cut js (split_step s m)
unfolding split_step
other-Cut is js m s p u k (a, b, c) =
    let l = grown is js m s.current c k in
    elim (Bool-cases (is_empty s.current)) [
      | inl e ↦ rw (p, u, e) (a, b, subst (λ ms. Leaves js (ms ++ m ∷ [])) (no_items s.current e) l)
      | inr e ↦ rw (p, u, e) (a, b, l)
    ]

user-Cut :
    (js : List String) (m : Message) (s : SplitState)
    → is_system m ≡ false
    → is_user m ≡ true
    → ((ns : List Message) → PairedFrom js ns → PairedFrom [] (m ∷ ns))
    → Cut [] s
    → Cut js (split_step s m)
unfolding split_step
user-Cut js m s p u k (a, b, c) =
    rw (p, u) (a, flush-All s.turns s.current b (Leaves-Paired s.current c), k)

loop-Cut :
    (is : List String) (ms : List Message) (s : SplitState)
    → PairedFrom is ms
    → Cut is s
    → Cut [] (split_loop ms s)
unfolding split_loop
loop-Cut [] [] s h c = c
loop-Cut (i ∷ is) [] s h c = absurd h
loop-Cut [] (m ∷ ms) s (r, h) c = elim (Bool-cases (is_system m)) [
  | inl p ↦ loop-Cut (made_by m) ms (split_step s m) h (system-Cut m s p r c)
  | inr p ↦ elim (Bool-cases (is_user m)) [
    | inl u ↦
        loop-Cut (made_by m) ms (split_step s m) h (user-Cut (made_by m) m s p u (λ ns k. (r, k)) c)
    | inr u ↦
        loop-Cut (made_by m) ms (split_step s m) h
          (other-Cut [] (made_by m) m s p u (λ ns k. (r, k)) c)
  ]
]
loop-Cut (i ∷ is) (m ∷ ms) s (r, e, h) c =
    loop-Cut is ms (split_step s m) h
      (other-Cut (i ∷ is) is m s (rw r refl) (rw r refl) (λ ns k. (r, e, k)) c)

split-Paired :
    (ms : List Message)
    → Paired ms
    → let (system, turns) = split_turns ms in Paired system × All Paired turns
unfolding split_turns
split-Paired ms h =
    let (a, b, c) =
      loop-Cut [] ms (record { system = []; turns = []; current = [] }) h (tt, tt, (λ ns k. k)) in
    (a, flush-All _ _ b (Leaves-Paired _ c))

All-drop : (n : ℕ) (ts : List (List Message)) → All Paired ts → All Paired (drop n ts)
All-drop zero ts h = h
All-drop (suc n) [] h = h
All-drop (suc n) (t ∷ ts) (g, h) = All-drop n ts h

append_turns-Paired :
    (out : Slice Message) (ts : List (List Message))
    → Paired (items out)
    → All Paired ts
    → Paired (items (append_turns out ts))
unfolding append_turns
append_turns-Paired out [] h k = h
append_turns-Paired out (t ∷ ts) h (g, k) =
    append_turns-Paired (append out t) ts (rw items-append (append-PairedFrom [] (items out) t h g))
      k

window-Paired :
    (max : ℤ) (input : Input) (system : List Message) (turns : List (List Message))
    → Paired system
    → All Paired turns
    → Paired (items (window max input system turns).messages)
unfolding window
window-Paired max input system turns h k =
    append_turns-Paired _ (last_n (pos_part max) turns) (rw clone_messages_id h)
      (All-drop (length turns - pos_part max) turns k)

-- Of an answer's messages.
abbrev KeptPairs : Result Error Compacted → Type 0
KeptPairs (err e) = Unit
KeptPairs (ok out) = Paired (items out.messages)

compact-KeptPairs :
    (max : ℤ) (input : Input) → Paired (items input.messages) → KeptPairs (compact max input)
unfolding compact
compact-KeptPairs max input h = elim (Bool-cases (leb_ℤ max (pos 0))) [
  | inl p ↦ rw (p, clone_messages_id) h
  | inr p ↦
      let parts = split_turns (items input.messages) in
      let (a, b) = split-Paired (items input.messages) h in
      elim (Bool-cases (leb_ℤ (pos (length parts.1)) max)) [
        | inl q ↦ rw (p, q, clone_messages_id) h
        | inr q ↦ rw (p, q) (window-Paired max input parts.0 parts.1 a b)
      ]
]

-- The turn window keeps calls and answers together: where it is given messages in which they are
-- paired, so are they in what it keeps.
pub compact-Paired :
    (max : ℤ) (input : Input) (out : Compacted)
    → compact max input ≡ ok out
    → Paired (items input.messages)
    → Paired (items out.messages)
compact-Paired max input out e h = subst KeptPairs e (compact-KeptPairs max input h)
