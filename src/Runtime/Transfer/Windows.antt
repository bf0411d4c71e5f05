-- ===== src/Runtime/Transfer/Windows.antt =====
-- What the window of a transfer leaves.
use mathlib.Core.List.{append-nil}
use kae_agent_public.Base.{
  drop-length, none, ℕ, ℤ, pos, pos_part, ltb, leb_ℤ, ◌-◌, List, [], ◌∷◌, ◌++◌, items, keep_if,
  length, last_n, ◌≡◌, refl, arith, Bool-cases, inl, inr, ap, if◌then◌else◌,
}
use kae_agent_public.Llm.{Message}
use kae_agent_public.Llm.Clone.{clone_message_id}
use kae_agent_public.Compaction.Turns.{is_system}
use kae_agent_public.Compaction.Turns.Split.{not_system}
use kae_agent_public.Runtime.Transfer.{
  system_messages, part, recent_messages, TransferInputData, recent_window_transfer_input,
}

system_messages_lem : (ms : List Message) → system_messages ms ≡ keep_if is_system ms
unfolding system_messages
system_messages_lem [] = refl
system_messages_lem (m ∷ ms) = ground (arith, clone_message_id m, system_messages_lem ms)

part_lem :
    (ms : List Message) → (part ms).0 ≡ keep_if is_system ms × (part ms).1 ≡ keep_if not_system ms
unfolding part
part_lem [] = (refl, refl)
part_lem (m ∷ ms) =
    let (a, b) = part_lem ms in
    elim (Bool-cases (is_system m)) [
      | inl p ↦ rw (p, clone_message_id) (ap (λ l. m ∷ l) a, b)
      | inr p ↦ rw (p, clone_message_id) (a, ap (λ l. m ∷ l) b)
    ]

last_none {ℓ} : {A : Type ℓ} (n : ℕ) (xs : List A) → n ≡ 0 → last_n n xs ≡ []
last_none n xs h = let e : length xs - n ≡ length xs = omega (arith, h) in rw e (drop-length xs)

last_all {ℓ} :
    {A : Type ℓ} (n : ℕ) (xs : List A)
    → (if ltb n (length xs) then last_n n xs else xs) ≡ last_n n xs
last_all n xs = elim (Bool-cases (ltb n (length xs))) [
  | inl p ↦ rw p refl
  | inr p ↦ let e : length xs - n ≡ 0 = ground (arith, p) in rw (p, e) refl
]

recent_messages_lem :
    (n : ℤ) (ms : List Message)
    → recent_messages n ms ≡ keep_if is_system ms ++ last_n (pos_part n) (keep_if not_system ms)
unfolding recent_messages
recent_messages_lem n ms = elim (Bool-cases (leb_ℤ n (pos 0))) [
  | inl p ↦
      rw (p, last_none (pos_part n) (keep_if not_system ms) (ground (arith, p)))
        (rw append-nil (system_messages_lem ms))
  | inr p ↦
      let (a, b) = part_lem ms in
      rw p (rw (a, b) (rw (last_all (pos_part n) (keep_if not_system ms)) refl))
]

module _ {P E : Type 0} (clone_session : P → P) where
  -- The window of a transfer, whatever its size, leaves all system messages in their order, and behind
  -- them the last n of the others, none where n is not positive and all where there are fewer; it never
  -- fails and leaves the input.
  pub recent_window_lem :
      (n : ℤ) (given : TransferInputData P)
      → let (left, e) = recent_window_transfer_input {E = E} clone_session n given in
        (items left.messages
          ≡ keep_if is_system (items given.messages)
            ++ last_n (pos_part n) (keep_if not_system (items given.messages)))
        × (e ≡ none)
        × (left.input ≡ given.input)
  unfolding recent_window_transfer_input
  recent_window_lem n given = (recent_messages_lem n (items given.messages), refl, refl)
