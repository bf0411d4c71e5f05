-- ===== src/Compaction/SlidingWindow/Keeps.antt =====
-- What the sliding window keeps.
use mathlib.Core.List.{append_assoc, append-nil}
use kae_agent_public.Base.{
  ℕ, ◌-◌, ◌≤◌, ◌<◌, ◌≡◌, refl, sym, ◌∙◌, ap, ℤ, pos, pos_part, ◌-ℤ◌, Bool, true, false, List, [],
  ◌∷◌, ◌++◌, Slice, of, nil, items, append, items-append, ok, err, length, ltb, last_n, keep_if,
  length-append, length-last_n, length-keep_if-not, keep_if-append, arith, if◌then◌else◌,
  Bool-cases, inl, inr, ◌⊎◌, ◌≤ℤ◌,
}
use kae_agent_public.Llm.{Message}
use kae_agent_public.Llm.Clone.{clone_messages_id}
use kae_agent_public.Compaction.Types.{Input, Output, output_of, too_many_system}
use kae_agent_public.Compaction.Turns.{is_system}
use kae_agent_public.Compaction.Turns.Split.{not_system}
use kae_agent_public.Compaction.SlidingWindow.{
  Parts, partition_step, partition, keep_last, window, compact,
}

step_keeps :
    (m : Message) (p : Parts)
    → (items (partition_step p m).system ≡ items p.system ++ keep_if is_system (m ∷ []))
      × (items (partition_step p m).other ≡ items p.other ++ keep_if not_system (m ∷ []))
unfolding partition_step
step_keeps m p = elim (Bool-cases (is_system m)) [
  | inl q ↦ rw q (items-append p.system (m ∷ []), sym (append-nil (items p.other)))
  | inr q ↦ rw q (sym (append-nil (items p.system)), items-append p.other (m ∷ []))
]

then_rest :
    (test : Message → Bool) (l k r : List Message) (m : Message) (ms : List Message)
    → r ≡ k ++ keep_if test ms
    → k ≡ l ++ keep_if test (m ∷ [])
    → r ≡ l ++ keep_if test (m ∷ ms)
then_rest test l k r m ms e f =
    e
    ∙ rw f (
        append_assoc l (keep_if test (m ∷ [])) (keep_if test ms)
        ∙ ap (λ x. l ++ x) (sym (keep_if-append test (m ∷ []) ms)))

partition_keeps :
    (ms : List Message) (p : Parts)
    → (items (partition ms p).system ≡ items p.system ++ keep_if is_system ms)
      × (items (partition ms p).other ≡ items p.other ++ keep_if not_system ms)
unfolding partition
partition_keeps [] p = (sym (append-nil (items p.system)), sym (append-nil (items p.other)))
partition_keeps (m ∷ ms) p =
    let (a, b) = partition_keeps ms (partition_step p m) in
    let (c, d) = step_keeps m p in
    (
      then_rest is_system (items p.system) _ _ m ms a c,
      then_rest not_system (items p.other) _ _ m ms b d,
    )

-- The system messages, and the last of the others as far as the window has room.
unfoldable pub kept : ℕ → List Message → List Message
kept n ms =
    keep_if is_system ms ++ last_n (n - length (keep_if is_system ms)) (keep_if not_system ms)

pub length-kept :
    (n : ℕ) (ms : List Message)
    → length (keep_if is_system ms) ≤ n
    → n ≤ length ms
    → length (kept n ms) ≡ n
unfolding kept
length-kept n ms h k = omega (
  arith,
  length-append (keep_if is_system ms)
      (last_n (n - length (keep_if is_system ms)) (keep_if not_system ms)),
  length-keep_if-not is_system ms,
  length-last_n (n - length (keep_if is_system ms)) (keep_if not_system ms),
)

of_items : (s : Slice Message) (n : ℕ) → 0 < n → length (items s) ≡ n → s ≡ of (items s)
of_items nil n h e = absurd (omega arith)
of_items (of xs) n h e = refl

items-keep_last :
    (k : ℕ) (s : Slice Message) → k < length (items s) → items (keep_last k s) ≡ last_n k (items s)
unfolding keep_last
items-keep_last k nil h = absurd (omega arith)
items-keep_last k (of ms) h = ground arith

pos_sub : (a b : ℕ) → pos_part (pos a -ℤ pos b) ≡ a - b
unfolding ◌-ℤ◌
pos_sub a b = ground arith

module _ (n : ℕ) (ms : List Message) (p : Parts) where
  window_out :
      0 < n
      → n < length ms
      → length (keep_if is_system ms) ≤ n
      → items p.system ≡ keep_if is_system ms
      → items p.other ≡ keep_if not_system ms
      → append p.system (items (keep_last (n - length (keep_if is_system ms)) p.other))
        ≡ of (kept n ms)
  window_out h k fits a b =
      let keep = n - length (keep_if is_system ms) in
      let out = append p.system (items (keep_last keep p.other)) in
      let e : items out ≡ kept n ms =
        items-append p.system (items (keep_last keep p.other))
        ∙ rw
            (
              a,
              items-keep_last keep p.other (rw b (omega (arith, length-keep_if-not is_system ms))),
              b,
            )
            (unfold kept in refl) in
      of_items out n h (rw e (length-kept n ms fits (omega arith))) ∙ ap of e

-- The messages that `window` is given stand for the input's.
window_keeps :
    (n : ℕ) (input : Input) (p : Parts)
    → 0 < n
    → n < length (items input.messages)
    → items p.system ≡ keep_if is_system (items input.messages)
    → items p.other ≡ keep_if not_system (items input.messages)
    → window (pos n) input p ≡ (
        if ltb n (length (keep_if is_system (items input.messages)))
        then err (too_many_system (pos n) (length (keep_if is_system (items input.messages))))
        else ok (output_of (of (kept n (items input.messages))) true ""))
unfolding window
window_keeps n input p h k a b =
    let ms = items input.messages in
    elim (Bool-cases (ltb n (length (keep_if is_system ms)))) [
      | inl big ↦ rw a (ground arith)
      | inr fits ↦
          rw (a, clone_messages_id, clone_messages_id, pos_sub)
            (rw (window_out n ms p h k (ground arith) a b) (ground (arith, length-kept n ms)))
    ]

-- With a positive window that the messages exceed: more system messages than fit are an error, and
-- otherwise the output holds all system messages and behind them the last of the others, as many as
-- the window has room for beside the system messages, and is marked as compacted.
pub sliding_window_over :
    (n : ℕ) (input : Input)
    → 0 < n
    → n < length (items input.messages)
    → compact (pos n) input ≡ (
        if ltb n (length (keep_if is_system (items input.messages)))
        then err (too_many_system (pos n) (length (keep_if is_system (items input.messages))))
        else ok (output_of (of (kept n (items input.messages))) true ""))
unfolding compact
sliding_window_over n input h k =
    let p0 : Parts = record { system = nil; other = nil } in
    let (a, b) = partition_keeps (items input.messages) p0 in
    ground (arith, window_keeps n input (partition (items input.messages) p0) h k a b)

-- With no window, or one that the messages do not exceed, they are left as they are.
pub sliding_window_within :
    (max : ℤ) (input : Input)
    → (max ≤ℤ pos 0) ⊎ (pos (length (items input.messages)) ≤ℤ max)
    → compact max input ≡ ok (output_of input.messages false "")
unfolding compact
sliding_window_within max input h = rw clone_messages_id (ground arith)

-- No successful answer of a positive window is longer than the window.
pub sliding_window_bounded :
    (n : ℕ) (input : Input) (out : Output)
    → 0 < n
    → compact (pos n) input ≡ ok out
    → length (items out.messages) ≤ n
sliding_window_bounded n input out h e = elim (Bool-cases (ltb n (length (items input.messages)))) [
  | inl over ↦ ground (arith, sliding_window_over n input h, length-kept n (items input.messages))
  | inr within ↦ ground (arith, sliding_window_within (pos n) input (inr (ground arith)))
]
