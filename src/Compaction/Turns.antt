-- ===== src/Compaction/Turns.antt =====
-- `splitTurns` of compaction/strategy/turnwindow and compaction/strategy/summary, which have the
-- same text: a conversation as its system messages and its turns.
pub mod Split
pub mod Shape
pub mod Count
use kae_agent_public.Base.{Bool, List, [], ◌∷◌, ◌++◌, is_empty, ◌==◌, if◌then◌else◌}
use kae_agent_public.Llm.{Message}

abbrev pub is_system : Message → Bool
is_system m = m.role == "system"

abbrev pub is_user : Message → Bool
is_user m = m.role == "user"

-- The variables of the loop.
pub record SplitState : Type 0 where
  pub system : List Message
  pub turns : List (List Message)
  pub current : List Message

-- `if len(current) > 0 { turns = append(turns, current) }`
unfoldable pub flush : List (List Message) → List Message → List (List Message)
flush turns [] = turns
flush turns (m ∷ ms) = turns ++ (m ∷ ms) ∷ []

-- One round of the loop.
unfoldable pub split_step : SplitState → Message → SplitState
unfolding flush
split_step s m =
    if is_system m
    then record s { system = s.system ++ m ∷ [] }
    else if is_user m
    then record s { turns = flush s.turns s.current; current = m ∷ [] }
    else if is_empty s.current
    then record s { current = m ∷ [] }
    else record s { current = s.current ++ m ∷ [] }

unfoldable pub split_loop : List Message → SplitState → SplitState
unfolding split_step
split_loop [] s = s
split_loop (m ∷ ms) s = split_loop ms (split_step s m)

unfoldable pub split_turns : List Message → List Message × List (List Message)
unfolding split_loop flush
split_turns ms =
    let s = split_loop ms (record { system = []; turns = []; current = [] }) in
    (s.system, flush s.turns s.current)
