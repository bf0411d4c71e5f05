-- ===== src/Compaction/TokenLimit/Cut.antt =====
-- Where `dropOldestTurn` cuts: the messages before the first user message, and those from it on.
use native.Mathlib.Nat.{zero-add, suc-add}
use kae_agent_public.Base.{
  ℕ, zero, suc, ◌+◌, ◌≡◌, refl, sym, ◌∙◌, ap, true, not, List, [], ◌∷◌, ◌++◌, none, some, Slice,
  items, length, is_empty, take, drop, arith, if◌then◌else◌, Bool-cases, inl, inr,
}
use kae_agent_public.Llm.{Message}
use kae_agent_public.Compaction.Turns.{is_user}
use kae_agent_public.Compaction.TokenLimit.{
  user_index_from, first_user_index, turn_end, drop_oldest_turn, has_droppable_turns,
}

abbrev pub leading : List Message → List Message
leading [] = []
leading (m ∷ ms) = if is_user m then [] else m ∷ leading ms

abbrev pub trailing : List Message → List Message
trailing [] = []
trailing (m ∷ ms) = if is_user m then m ∷ ms else trailing ms

abbrev pub tail : List Message → List Message
tail [] = []
tail (m ∷ ms) = ms

-- Nothing, or messages that a user message opens.
abbrev pub StartsUser : List Message → Type 0
StartsUser [] = Unit
StartsUser (m ∷ ms) = is_user m ≡ true

pub trailing-StartsUser : (ms : List Message) → StartsUser (trailing ms)
trailing-StartsUser [] = tt
trailing-StartsUser (m ∷ ms) = elim (Bool-cases (is_user m)) [
  | inl p ↦ rw p p
  | inr p ↦ rw p (trailing-StartsUser ms)
]

pub leading-append-trailing : (ms : List Message) → leading ms ++ trailing ms ≡ ms
leading-append-trailing [] = refl
leading-append-trailing (m ∷ ms) = ground (arith, leading-append-trailing ms)

leading_self : (t : List Message) → StartsUser t → (leading t ≡ []) × (trailing t ≡ t)
leading_self [] h = (refl, refl)
leading_self (m ∷ t) h = rw h (refl, refl)

pub leading_again :
    (ms t : List Message)
    → StartsUser t
    → (leading (leading ms ++ t) ≡ leading ms) × (trailing (leading ms ++ t) ≡ t)
leading_again [] t h = leading_self t h
leading_again (m ∷ ms) t h = elim (Bool-cases (is_user m)) [
  | inl p ↦ rw p (leading_self t h)
  | inr p ↦ let (a, b) = leading_again ms t h in rw p (rw p (ap (λ l. m ∷ l) a, b))
]

take-leading : (ms : List Message) → take (length (leading ms)) ms ≡ leading ms
take-leading [] = refl
take-leading (m ∷ ms) = ground (arith, take-leading ms)

drop-leading : (ms : List Message) → drop (length (leading ms)) ms ≡ trailing ms
drop-leading [] = refl
drop-leading (m ∷ ms) = ground (arith, drop-leading ms)

drop-tail : (ms : List Message) → drop (suc (length (leading ms))) ms ≡ tail (trailing ms)
drop-tail [] = refl
drop-tail (m ∷ ms) = ground (arith, drop-tail ms)

drop_add : (a b : ℕ) (ms : List Message) → drop b (drop a ms) ≡ drop (a + b) ms
drop_add zero b ms = rw zero-add
drop_add (suc a) zero [] = rw suc-add
drop_add (suc a) (suc b) [] = rw suc-add
drop_add (suc a) b (x ∷ ms) = rw suc-add (drop_add a b ms)

index_leading :
    (i : ℕ) (ms : List Message)
    → user_index_from i ms
      ≡ (if is_empty (trailing ms) then none else some (i + length (leading ms)))
unfolding user_index_from
index_leading i [] = refl
index_leading i (m ∷ ms) = ground (arith, index_leading (suc i) ms)

end_leading : (i : ℕ) (ms : List Message) → turn_end i ms ≡ i + length (leading ms)
unfolding turn_end
end_leading i [] = omega arith
end_leading i (m ∷ ms) = ground (arith, end_leading (suc i) ms)

first_leading :
    (ms : List Message)
    → first_user_index ms ≡ (if is_empty (trailing ms) then none else some (length (leading ms)))
unfolding first_user_index
first_leading ms = ground (arith, index_leading 0 ms)

pub has_droppable : (ms : List Message) → has_droppable_turns ms ≡ not (is_empty (trailing ms))
unfolding has_droppable_turns
has_droppable ms = ground (arith, first_leading ms)

empty_trailing : (ms : List Message) → is_empty ms ≡ true → ms ≡ []
empty_trailing [] h = refl
empty_trailing (m ∷ ms) h = cc

pub end_drop :
    (ms : List Message)
    → drop (turn_end (suc (length (leading ms))) (drop (suc (length (leading ms))) ms)) ms
      ≡ trailing (tail (trailing ms))
end_drop ms =
    rw (end_leading, drop-tail) (rw (← drop_add) (rw drop-tail (drop-leading (tail (trailing ms)))))

-- The oldest turn is what lies between the first user message and the next one.
pub items-drop_oldest_turn :
    (ms : Slice Message)
    → items (drop_oldest_turn ms) ≡ leading (items ms) ++ trailing (tail (trailing (items ms)))
unfolding drop_oldest_turn
items-drop_oldest_turn ms = elim (Bool-cases (is_empty (trailing (items ms)))) [
  | inl gone ↦
      rw (first_leading, gone)
        (rw (empty_trailing _ gone) (
          sym (leading-append-trailing (items ms))
          ∙ ap (λ t. leading (items ms) ++ t) (empty_trailing _ gone)))
  | inr left ↦ rw (first_leading, left) (rw (take-leading (items ms), end_drop (items ms)))
]
