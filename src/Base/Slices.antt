-- ===== src/Base/Slices.antt =====
-- Go slices of values: the nil slice is told from the empty one.
use mathlib.Core.Path.{◌≡◌, refl}
use mathlib.Core.Bool.{Bool, true, false}
use mathlib.Core.List.{List, [], ◌∷◌, ◌++◌}

pub data Slice {ℓ} (A : Type ℓ) : Type ℓ where
  nil : Slice A
  of : List A → Slice A

module _ {ℓ} {A : Type ℓ} where
  abbrev pub items : Slice A → List A
  items nil = []
  items (of xs) = xs

  abbrev pub is_nil : Slice A → Bool
  is_nil nil = true
  is_nil (of xs) = false

  -- `append(s, xs...)`: appending nothing to nil gives nil.
  abbrev pub append : Slice A → List A → Slice A
  append nil [] = nil
  append nil (x ∷ xs) = of (x ∷ xs)
  append (of ys) xs = of (ys ++ xs)

  pub items-append : (s : Slice A) (xs : List A) → items (append s xs) ≡ items s ++ xs
  items-append nil [] = refl
  items-append nil (x ∷ xs) = refl
  items-append (of ys) xs = refl
