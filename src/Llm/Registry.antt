-- ===== src/Llm/Registry.antt =====
-- llm/registry.go: `ProviderRegistry`. A provider is a value of a type that is a parameter, and not
-- nil; the list is the map in the order of one iteration, which Go leaves open.
pub mod Longest
mod Tests
use Prim.Native.String.{len}
use kae_agent_public.Base.{
  ℕ, ltb, String, starts_with, ◌&&◌, if◌then◌else◌, Bool, List, [], ◌∷◌, Option, none, some, Result,
  ok, err, Dict, insert, map,
}

abbrev pub ProviderRegistry : Type 0 → Type 0
ProviderRegistry P = Dict P

pub data ResolveError : Type 0 where
  no_provider : String → ResolveError

-- The condition of the loop of `Resolve`, for a best prefix of n bytes.
unfoldable pub beats : String → ℕ → String → Bool
beats model n prefix = starts_with model prefix && ltb n (len prefix)

module _ {P : Type 0} where
  unfoldable pub new_provider_registry : ProviderRegistry P
  new_provider_registry = []

  unfoldable pub register : String → P → ProviderRegistry P → ProviderRegistry P
  register prefix p r = insert prefix p r

  -- The loop: `best` and `bestLen`.
  unfoldable pub best_of : String → List (String × P) → Option P × ℕ → Option P × ℕ
  best_of model [] b = b
  best_of model ((prefix, p) ∷ rs) b =
      best_of model rs (if beats model b.1 prefix then (some p, len prefix) else b)

  unfoldable pub chosen : String → Option P → Result ResolveError P
  chosen model none = err (no_provider model)
  chosen model (some p) = ok p

  unfoldable pub resolve : String → ProviderRegistry P → Result ResolveError P
  unfolding best_of chosen
  resolve model r = chosen model (best_of model r (none, 0)).0

  -- `List`, with `Name` of a provider.
  unfoldable pub list_names : (P → String) → List (String × P) → Dict String
  list_names name [] = []
  list_names name ((prefix, p) ∷ rs) = insert prefix (name p) (list_names name rs)
