-- ===== src/Llm/Registry/Tests.antt =====
-- Two prefixes, one of which starts with the other.
use kae_agent_public.Base.{ℕ, []}
use kae_agent_public.Llm.Registry.{ProviderRegistry, register, resolve}
use kae_agent_public.Llm.Registry.Longest.{Longest, resolve-Longest}

abbrev registry : ProviderRegistry ℕ
registry = register "gpt-4" 2 (register "gpt-" 1 [])

resolve-Longest_example : Longest "gpt-4o" registry (resolve "gpt-4o" registry)
resolve-Longest_example = resolve-Longest "gpt-4o" registry
