-- ===== src/Tools/Registry/Usable.antt =====
-- A registry holds only tools that can be dispatched.
use kae_agent_public.Base.{
  String, true, some, lookup, insert, lookup-insert, lookup-erase, is_some, ◌==◌, ◌≡◌, refl, arith,
  eq_iff, Bool-cases, Option-cases, inl, inr,
}
use kae_agent_public.Tools.Registry.{ToolDef, Registry, register, remove}

module _ {Sch S : Type 0} where
  -- A tool that has a schema and a handler.
  abbrev pub IsUsable : ToolDef Sch S → Type 0
  IsUsable t = (is_some t.schema ≡ true) × (is_some t.handler ≡ true)

  -- Every tool is usable and stands under its own name.
  abbrev pub AllUsable : Registry Sch S → Type 0
  AllUsable r =
      (name : String) (t : ToolDef Sch S) → lookup name r ≡ some t → (t.name ≡ name) × IsUsable t

  insert-AllUsable :
      (t : ToolDef Sch S) (r : Registry Sch S)
      → IsUsable t
      → AllUsable r
      → AllUsable (insert t.name t r)
  insert-AllUsable t r u h name x e = elim (Bool-cases (t.name == name)) [
    | inl p ↦
        let same : t ≡ x = ground (arith, lookup-insert t.name name t r, p, e) in
        rw (← same) ((eq_iff t.name name).0 p, u)
    | inr p ↦ h name x (ground (arith, lookup-insert t.name name t r, p, e))
  ]

  -- Whatever tool is offered, accepted or refused, a registration keeps every tool usable and under
  -- its own name.
  pub register-AllUsable :
      (trim : String → String) (t : ToolDef Sch S) (r : Registry Sch S)
      → AllUsable r
      → AllUsable (register trim t r).1
  unfolding register
  register-AllUsable trim t r h = elim (Bool-cases (trim t.name == "")) [
    | inl p ↦ rw p h
    | inr p ↦ elim (Option-cases t.schema) [
      | inl q ↦ rw (p, q) h
      | inr (sch, q) ↦ elim (Option-cases t.handler) [
        | inl k ↦ rw (p, q, k) h
        | inr (f, k) ↦ elim (Option-cases (lookup t.name r)) [
          | inl l ↦ rw (p, q, k, l) (insert-AllUsable t r (rw q refl, rw k refl) h)
          | inr (old, l) ↦ rw (p, q, k, l) h
        ]
      ]
    ]
  ]

  pub remove-AllUsable :
      (name : String) (r : Registry Sch S) → AllUsable r → AllUsable (remove name r).1
  unfolding remove
  remove-AllUsable name r h = elim (Option-cases (lookup name r)) [
    | inl p ↦ rw (p, remove) h
    | inr (t, p) ↦ rw (p, remove) (λ n x e. h n x (ground (arith, lookup-erase name n r, e)))
  ]
