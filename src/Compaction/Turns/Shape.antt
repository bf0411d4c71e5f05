-- ===== src/Compaction/Turns/Shape.antt =====
-- The shape of the turns that `splitTurns` makes, and how many there are.
use kae_agent_public.Base.{◌≡◌, refl, true, false, List, [], ◌∷◌, ◌++◌, All, Bool-cases, inl, inr}
use kae_agent_public.Llm.{Message}
use kae_agent_public.Compaction.Turns.{
  is_system, is_user, SplitState, flush, split_step, split_loop, split_turns,
}

-- An assistant or tool message, or one of a role that the program does not know.
abbrev pub IsReply : Message → Type 0
IsReply m = (is_system m ≡ false) × (is_user m ≡ false)

-- A turn has a first message, and after it only replies.
abbrev pub IsTurn : List Message → Type 0
IsTurn [] = ⊥
IsTurn (m ∷ ms) = (is_system m ≡ false) × All IsReply ms

-- A turn that a user message opens.
abbrev pub IsUserTurn : List Message → Type 0
IsUserTurn [] = ⊥
IsUserTurn (m ∷ ms) = is_user m ≡ true

-- Every turn is one, and every turn after the first is opened by a user message.
abbrev pub AreTurns : List (List Message) → Type 0
AreTurns [] = Unit
AreTurns (t ∷ ts) = IsTurn t × All IsTurn ts × All IsUserTurn ts

All-append {ℓ κ} :
    {A : Type ℓ} (P : A → Type κ) (xs ys : List A) → All P xs → All P ys → All P (xs ++ ys)
All-append P [] ys h k = k
All-append P (x ∷ xs) ys h k = (h.0, All-append P xs ys h.1 k)

-- Once a turn is closed, the next ones are opened by user messages.
abbrev Opened : List (List Message) → List Message → Type 0
Opened [] c = Unit
Opened (t ∷ ts) c = IsUserTurn c

AreTurns-append :
    (ts : List (List Message)) (t : List Message)
    → AreTurns ts
    → IsTurn t
    → Opened ts t
    → AreTurns (ts ++ t ∷ [])
AreTurns-append [] t h k u = (k, tt, tt)
AreTurns-append (x ∷ ts) t h k u =
    (h.0, All-append IsTurn ts (t ∷ []) h.1 (k, tt), All-append IsUserTurn ts (t ∷ []) h.2 (u, tt))

-- The loop's invariant: before the first turn there is none, and then the current turn is one.
abbrev Good : List (List Message) → List Message → Type 0
Good ts [] = ts ≡ []
Good ts (x ∷ c) = AreTurns ts × IsTurn (x ∷ c) × Opened ts (x ∷ c)

Opened-user : (ts : List (List Message)) (m : Message) → is_user m ≡ true → Opened ts (m ∷ [])
Opened-user [] m q = tt
Opened-user (t ∷ ts) m q = q

Opened-longer :
    (ts : List (List Message)) (x : Message) (c d : List Message)
    → Opened ts (x ∷ c)
    → Opened ts (x ∷ d)
Opened-longer [] x c d h = tt
Opened-longer (t ∷ ts) x c d h = h

module _ (sys : List Message) (m : Message) where
  abbrev state : List (List Message) → List Message → SplitState
  state ts c = record { system = sys; turns = ts; current = c }

  step_user :
      (ts : List (List Message)) (c : List Message)
      → is_system m ≡ false
      → is_user m ≡ true
      → Good ts c
      → let s = split_step (state ts c) m in Good s.turns s.current
  unfolding split_step
  step_user ts [] p q h = rw (p, q, h) (tt, (p, tt), tt)
  step_user ts (x ∷ c) p q h =
      rw (p, q)
        (AreTurns-append ts (x ∷ c) h.0 h.1 h.2, (p, tt), Opened-user (ts ++ (x ∷ c) ∷ []) m q)

  step_reply :
      (ts : List (List Message)) (c : List Message)
      → is_system m ≡ false
      → is_user m ≡ false
      → Good ts c
      → let s = split_step (state ts c) m in Good s.turns s.current
  unfolding split_step
  step_reply ts [] p q h = rw (p, q, h) (tt, (p, tt), tt)
  step_reply ts (x ∷ c) p q h =
      rw (p, q)
        (
          h.0,
          (h.1.0, All-append IsReply c (m ∷ []) h.1.1 ((p, q), tt)),
          Opened-longer ts x c (c ++ m ∷ []) h.2,
        )

step-Good :
    (s : SplitState) (m : Message)
    → Good s.turns s.current
    → Good (split_step s m).turns (split_step s m).current
step-Good s m h = elim (Bool-cases (is_system m)) [
  | inl p ↦ unfold split_step in rw p h
  | inr p ↦ elim (Bool-cases (is_user m)) [
    | inl q ↦ step_user s.system m s.turns s.current p q h
    | inr q ↦ step_reply s.system m s.turns s.current p q h
  ]
]

loop-Good :
    (ms : List Message) (s : SplitState)
    → Good s.turns s.current
    → Good (split_loop ms s).turns (split_loop ms s).current
unfolding split_loop
loop-Good [] s h = h
loop-Good (m ∷ ms) s h = loop-Good ms (split_step s m) (step-Good s m h)

flush-AreTurns : (ts : List (List Message)) (c : List Message) → Good ts c → AreTurns (flush ts c)
unfolding flush
flush-AreTurns ts [] h = rw h tt
flush-AreTurns ts (x ∷ c) h = AreTurns-append ts (x ∷ c) h.0 h.1 h.2

-- Every turn of a split conversation is not empty and holds no system message and no user message
-- behind its first message, and every turn but the first is opened by a user message.
pub split_turns-AreTurns : (ms : List Message) → AreTurns (split_turns ms).1
unfolding split_turns
split_turns-AreTurns ms =
    let s0 : SplitState = record { system = []; turns = []; current = [] } in
    flush-AreTurns (split_loop ms s0).turns (split_loop ms s0).current (loop-Good ms s0 refl)

pub AreTurns-All : (ts : List (List Message)) → AreTurns ts → All IsTurn ts
AreTurns-All [] h = tt
AreTurns-All (t ∷ ts) h = (h.0, h.1)
