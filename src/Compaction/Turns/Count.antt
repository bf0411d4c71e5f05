-- ===== src/Compaction/Turns/Count.antt =====
-- The turn trigger counts user messages, the turn strategies count turns: how the numbers compare.
use kae_agent_public.Base.{
  ℕ, zero, suc, ◌+◌, ◌-◌, ◌≤◌, ◌<◌, ◌≡◌, refl, sym, true, false, List, [], ◌∷◌, ◌++◌, length, drop,
  last_n, keep_if, All, length-append, length-drop, arith, eq_iff,
}
use kae_agent_public.Llm.{Message}
use kae_agent_public.Compaction.Turns.{is_system, is_user, split_turns}
use kae_agent_public.Compaction.Turns.Split.{joined, not_system, split_turns_keeps}
use kae_agent_public.Compaction.Turns.Shape.{IsReply, IsTurn, split_turns-AreTurns, AreTurns-All}
use kae_agent_public.Compaction.Trigger.{count_turns}

pub count_turns-append :
    (xs ys : List Message) → count_turns (xs ++ ys) ≡ count_turns xs + count_turns ys
unfolding count_turns
count_turns-append [] ys = omega arith
count_turns-append (x ∷ xs) ys = omega (arith, count_turns-append xs ys)

replies_no_turn : (ms : List Message) → All IsReply ms → count_turns ms ≡ 0
unfolding count_turns
replies_no_turn [] h = refl
replies_no_turn (m ∷ ms) h = ground (arith, replies_no_turn ms h.1)

turn_counts_once : (t : List Message) → IsTurn t → (count_turns t ≤ 1) × (0 < length t)
unfolding count_turns
turn_counts_once [] h = absurd h
turn_counts_once (m ∷ ms) h = ground (arith, replies_no_turn ms h.1)

pub count_turns-joined :
    (ts : List (List Message)) → All IsTurn ts → count_turns (joined ts) ≤ length ts
unfolding count_turns
count_turns-joined [] h = omega arith
count_turns-joined (t ∷ ts) h =
    omega
      (arith, count_turns-append t (joined ts), turn_counts_once t h.0, count_turns-joined ts h.1)

pub length-joined : (ts : List (List Message)) → All IsTurn ts → length ts ≤ length (joined ts)
length-joined [] h = omega arith
length-joined (t ∷ ts) h =
    omega (arith, length-append t (joined ts), turn_counts_once t h.0, length-joined ts h.1)

text_ne : (m : Message) → is_system m ≡ true → is_user m ≡ false
text_ne m p = rw ((eq_iff m.role "system").0 p)

pub system_no_turn : (ms : List Message) → count_turns (keep_if is_system ms) ≡ 0
unfolding count_turns
system_no_turn [] = refl
system_no_turn (m ∷ ms) = ground (arith, text_ne m, system_no_turn ms)

count_split :
    (ms : List Message)
    → count_turns ms ≡ count_turns (keep_if is_system ms) + count_turns (keep_if not_system ms)
unfolding count_turns
count_split [] = refl
count_split (m ∷ ms) = ground (arith, text_ne m, count_split ms)

-- A conversation has at least as many turns as the turn trigger counts in it.
pub count_turns-le-length_split : (ms : List Message) → count_turns ms ≤ length (split_turns ms).1
count_turns-le-length_split ms =
    let (a, b) = split_turns_keeps ms in
    let c = count_turns-joined (split_turns ms).1 (AreTurns-All _ (split_turns-AreTurns ms)) in
    omega (arith, count_split ms, system_no_turn ms, rw b at c)

All-drop {ℓ κ} : {A : Type ℓ} (P : A → Type κ) (n : ℕ) (xs : List A) → All P xs → All P (drop n xs)
All-drop P zero xs h = h
All-drop P (suc n) [] h = h
All-drop P (suc n) (x ∷ xs) h = All-drop P n xs h.1

-- Every dropped turn takes a message away.
length-joined-drop :
    (k : ℕ) (ts : List (List Message))
    → All IsTurn ts
    → k ≤ length ts
    → length (joined (drop k ts)) + k ≤ length (joined ts)
length-joined-drop zero ts h b = omega arith
length-joined-drop (suc k) [] h b = absurd (omega arith)
length-joined-drop (suc k) (t ∷ ts) h b = omega (
  arith,
  length-append t (joined ts),
  turn_counts_once t h.0,
  length-joined-drop k ts h.1 (omega arith),
)

-- The last n of more than n turns are fewer messages, and count as at most n turns.
pub last_turns :
    (n : ℕ) (ms : List Message)
    → n < length (split_turns ms).1
    → (length (joined (last_n n (split_turns ms).1)) < length (keep_if not_system ms))
      × (count_turns (keep_if is_system ms ++ joined (last_n n (split_turns ms).1)) ≤ n)
last_turns n ms h =
    let ts = (split_turns ms).1 in
    let k = length ts - n in
    let good : All IsTurn ts = AreTurns-All ts (split_turns-AreTurns ms) in
    (
      rw (sym (split_turns_keeps ms).1) (omega (arith, length-joined-drop k ts good (omega arith))),
      omega (
        arith,
        count_turns-append (keep_if is_system ms) (joined (drop k ts)),
        system_no_turn ms,
        count_turns-joined (drop k ts) (All-drop IsTurn k ts good),
        length-drop k ts,
      ),
    )
