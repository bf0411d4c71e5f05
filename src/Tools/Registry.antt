-- ===== src/Tools/Registry.antt =====
-- tools/registry.go: `Registry`. A schema is a value of the schema package, which this file only
-- stores; a handler reads and changes a state that stands for everything outside. The mutex makes
-- every operation one step.
pub mod Usable
use kae_agent_public.Base.{
  ℕ, String, Bool, true, false, List, [], ◌∷◌, Option, none, some, Result, ok, err, Dict, lookup,
  insert, erase, length, keys, keep_if, sort_strings, ◌==◌, if◌then◌else◌,
}
use kae_agent_public.Llm.Value.{Value, AnyMap}

-- What a handler does: it returns a value or an error, or panics.
pub data Outcome : Type 0 where
  returns : Value → Outcome
  fails : String → Outcome
  panics : String → Outcome

pub record ToolDef (Sch S : Type 0) : Type 0 where
  pub name : String
  pub description : String
  pub schema : Option Sch
  pub tags : List String
  pub handler : Option (AnyMap → S → Outcome × S)

abbrev pub Registry : Type 0 → Type 0 → Type 0
Registry Sch S = Dict (ToolDef Sch S)

pub data RegistryError : Type 0 where
  name_required : RegistryError
  schema_required handler_required already_registered not_found : String → RegistryError

-- `for _, tt := range t.Tags { if tt == tag { …; break } }`
unfoldable pub has_tag : String → List String → Bool
has_tag tag [] = false
has_tag tag (t ∷ ts) = if t == tag then true else has_tag tag ts

module _ {Sch S : Type 0} where
  unfoldable pub new_registry : Registry Sch S
  new_registry = []

  -- `Register`, with `strings.TrimSpace` as a parameter; on an error the registry is left as it is.
  unfoldable pub register :
      (String → String) → ToolDef Sch S → Registry Sch S → Option RegistryError × Registry Sch S
  register trim_space t r =
      if trim_space t.name == "" then (some name_required, r) else elim t.schema [
        | none ↦ (some (schema_required t.name), r)
        | some schema ↦ elim t.handler [
          | none ↦ (some (handler_required t.name), r)
          | some handler ↦ elim (lookup t.name r) [
            | some old ↦ (some (already_registered t.name), r)
            | none ↦ (none, insert t.name t r)
          ]
        ]
      ]

  unfoldable pub get : String → Registry Sch S → Option (ToolDef Sch S)
  get name r = lookup name r

  unfoldable pub count : Registry Sch S → ℕ
  count r = length r

  unfoldable pub remove : String → Registry Sch S → Option RegistryError × Registry Sch S
  remove name r = elim (lookup name r) [
    | none ↦ (some (not_found name), r)
    | some t ↦ (none, erase name r)
  ]

  -- `sortedTools`, by the names; a name of the list always has a tool.
  unfoldable pub tools_of : List String → Registry Sch S → List (ToolDef Sch S)
  tools_of [] r = []
  tools_of (name ∷ names) r = elim (lookup name r) [
    | none ↦ tools_of names r
    | some t ↦ t ∷ tools_of names r
  ]

  unfoldable pub names : Registry Sch S → List String
  names r = sort_strings (keys r)

  unfoldable pub sorted_tools : Registry Sch S → List (ToolDef Sch S)
  unfolding names tools_of
  sorted_tools r = tools_of (names r) r

  -- `All`, which copies the sorted tools.
  unfoldable pub all : Registry Sch S → List (ToolDef Sch S)
  unfolding sorted_tools
  all r = sorted_tools r

  unfoldable pub by_tag : String → Registry Sch S → List (ToolDef Sch S)
  unfolding sorted_tools has_tag
  by_tag tag r = keep_if (λ t. has_tag tag t.tags) (sorted_tools r)

  -- `for _, t := range ts { r.Register(t) }`, whose errors are dropped.
  unfoldable pub register_all :
      (String → String) → List (ToolDef Sch S) → Registry Sch S → Registry Sch S
  register_all trim_space [] r = r
  register_all trim_space (t ∷ ts) r = register_all trim_space ts (register trim_space t r).1
