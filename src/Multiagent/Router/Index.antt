-- ===== src/Multiagent/Router/Index.antt =====
-- The tag index of a router agrees with the tags of its agents.
use kae_agent_public.Base.{
  String, Bool, true, false, List, [], ◌∷◌, ◌++◌, Option, none, some, Dict, lookup, insert, erase,
  ◌==◌, if◌then◌else◌, is_empty, ◌≡◌, refl, arith, eq_iff, lookup-insert, lookup-erase, Bool-cases,
  inl, inr, ◌&&◌, ap, ◌∙◌,
}
use kae_agent_public.Multiagent.Router.{
  contains_agent_name, remove_agent_name, names_of, or_empty, remove_tags, add_tags,
}

contains-remove :
    (ns : List String) (t n : String)
    → contains_agent_name (remove_agent_name ns t) n
      ≡ (if t == n then false else contains_agent_name ns n)
unfolding contains_agent_name remove_agent_name
contains-remove [] t n = ground arith
contains-remove (x ∷ ns) t n =
    ground (arith, eq_iff t n, eq_iff x t, eq_iff x n, contains-remove ns t n)

contains-append :
    (ns : List String) (t n : String)
    → contains_agent_name (ns ++ t ∷ []) n ≡ (if t == n then true else contains_agent_name ns n)
unfolding contains_agent_name
contains-append [] t n = ground arith
contains-append (x ∷ ns) t n = ground (arith, contains-append ns t n)

or_empty-if :
    (b : Bool) (v m : Option (List String))
    → or_empty (if b then v else m) ≡ (if b then or_empty v else or_empty m)
or_empty-if true v m = refl
or_empty-if false v m = refl

names_of-insert :
    (k t : String) (v : List String) (m : Dict (List String))
    → names_of t (insert k v m) ≡ (if k == t then v else names_of t m)
unfolding names_of
names_of-insert k t v m =
    ap or_empty (lookup-insert k t v m) ∙ or_empty-if (k == t) (some v) (lookup t m)

names_of-erase :
    (k t : String) (m : Dict (List String))
    → names_of t (erase k m) ≡ (if k == t then [] else names_of t m)
unfolding names_of
names_of-erase k t m = ap or_empty (lookup-erase k t m) ∙ or_empty-if (k == t) none (lookup t m)

-- The index after one step of the removal.
names_of-left :
    (k t : String) (left : List String) (m : Dict (List String))
    → names_of t (if is_empty left then erase k m else insert k left m)
      ≡ (if k == t then left else names_of t m)
names_of-left k t [] m = names_of-erase k t m
names_of-left k t (x ∷ xs) m = names_of-insert k t (x ∷ xs) m

pub names_of-remove_tags :
    (name : String) (tags : List String) (idx : Dict (List String)) (t n : String)
    → contains_agent_name (names_of t (remove_tags name tags idx)) n ≡ (
        if contains_agent_name tags t && name == n
        then false
        else contains_agent_name (names_of t idx) n)
unfolding remove_tags contains_agent_name
names_of-remove_tags name [] idx t n = refl
names_of-remove_tags name (k ∷ tags) idx t n =
    let left = remove_agent_name (names_of k idx) name in
    let idx' = if is_empty left then erase k idx else insert k left idx in
    ground (
      arith,
      eq_iff k t,
      names_of-left k t left idx,
      contains-remove (names_of k idx) name n,
      names_of-remove_tags name tags idx' t n,
    )

pub names_of-add_tags :
    (name : String) (tags : List String) (idx : Dict (List String)) (t n : String)
    → contains_agent_name (names_of t (add_tags name tags idx)) n ≡ (
        if contains_agent_name tags t && name == n
        then true
        else contains_agent_name (names_of t idx) n)
unfolding add_tags contains_agent_name
names_of-add_tags name [] idx t n = refl
names_of-add_tags name (k ∷ tags) idx t n =
    elim (Bool-cases (contains_agent_name (names_of k idx) name)) [
      | inl p ↦
          rw p (ground (arith, eq_iff k t, eq_iff name n, p, names_of-add_tags name tags idx t n))
      | inr p ↦
          let idx' = insert k (names_of k idx ++ name ∷ []) idx in
          rw p (
            ground (
              arith,
              eq_iff k t,
              names_of-insert k t (names_of k idx ++ name ∷ []) idx,
              contains-append (names_of k idx) name n,
              names_of-add_tags name tags idx' t n,
            ))
    ]

-- No name stands twice.
abbrev pub Distinct : List String → Type 0
Distinct [] = Unit
Distinct (x ∷ xs) = (contains_agent_name xs x ≡ false) × Distinct xs

remove-Distinct : (ns : List String) (t : String) → Distinct ns → Distinct (remove_agent_name ns t)
unfolding remove_agent_name
remove-Distinct [] t h = tt
remove-Distinct (x ∷ ns) t (a, h) = elim (Bool-cases (x == t)) [
  | inl p ↦ rw p (remove-Distinct ns t h)
  | inr p ↦ rw p (ground (arith, contains-remove ns t x, a), remove-Distinct ns t h)
]

append-Distinct :
    (ns : List String) (t : String)
    → contains_agent_name ns t ≡ false
    → Distinct ns
    → Distinct (ns ++ t ∷ [])
unfolding contains_agent_name
append-Distinct [] t k h = (refl, tt)
append-Distinct (x ∷ ns) t k (a, h) = (
  ground (arith, contains-append ns t x, eq_iff t x, eq_iff x t, a, k),
  append-Distinct ns t (ground (arith, k)) h,
)

-- An index whose lists hold no name twice.
abbrev pub AllDistinct : Dict (List String) → Type 0
AllDistinct idx = (t : String) → Distinct (names_of t idx)

if-Distinct :
    (b : Bool) (xs ys : List String) → Distinct xs → Distinct ys → Distinct (if b then xs else ys)
if-Distinct true xs ys h k = h
if-Distinct false xs ys h k = k

pub remove_tags-AllDistinct :
    (name : String) (tags : List String) (idx : Dict (List String))
    → AllDistinct idx
    → AllDistinct (remove_tags name tags idx)
unfolding remove_tags
remove_tags-AllDistinct name [] idx h = h
remove_tags-AllDistinct name (k ∷ tags) idx h =
    let left = remove_agent_name (names_of k idx) name in
    remove_tags-AllDistinct name tags (if is_empty left then erase k idx else insert k left idx)
      (λ t. rw (names_of-left k t left idx) (
        if-Distinct (k == t) left (names_of t idx) (remove-Distinct (names_of k idx) name (h k))
          (h t)))

pub add_tags-AllDistinct :
    (name : String) (tags : List String) (idx : Dict (List String))
    → AllDistinct idx
    → AllDistinct (add_tags name tags idx)
unfolding add_tags
add_tags-AllDistinct name [] idx h = h
add_tags-AllDistinct name (k ∷ tags) idx h =
    elim (Bool-cases (contains_agent_name (names_of k idx) name)) [
      | inl p ↦ rw p (add_tags-AllDistinct name tags idx h)
      | inr p ↦ rw p (
          add_tags-AllDistinct name tags (insert k (names_of k idx ++ name ∷ []) idx) (λ t.
            rw (names_of-insert k t (names_of k idx ++ name ∷ []) idx) (
              if-Distinct (k == t) (names_of k idx ++ name ∷ []) (names_of t idx)
                (append-Distinct (names_of k idx) name p (h k)) (h t))))
    ]
