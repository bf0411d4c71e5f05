-- ===== src/Agents.antt =====
-- agent/agent.go, agent/registry.go and agent/active_agent.go: agent definitions, their registry, and
-- what a session takes over from them. An agent is a pointer; its value stands for it, since nothing
-- compares two of them but by name.
use kae_agent_public.Base.{
  ℕ, ℤ, pos, leb_ℤ, String, ◌==◌, List, [], ◌∷◌, ◌++◌, Option, none, some, Dict, lookup, insert,
  Bool, true, false, if◌then◌else◌,
}
use kae_agent_public.Streaming.Budget.{BudgetConfig}
use kae_agent_public.Session.{
  SessionConfig, Session, SessionSnapshot, clone_budget_config, snapshot as session_snapshot,
  restore as restore_session,
}
use kae_agent_public.Tools.Registry.{Registry, ToolDef, register, register_all, all, new_registry}

pub record AgentConfig (F : Type 0) : Type 0 where
  pub name : String
  pub model : String
  pub system_prompt : String
  pub max_tokens : ℤ
  pub temperature : Option ℕ
  pub trim_strategy : String
  pub max_history : ℤ
  pub token_budget : ℤ
  pub budget_config : Option (BudgetConfig F)
  pub subagents : List String
  pub max_steps : ℤ

pub record Agent (F Sch W : Type 0) : Type 0 where
  pub config : AgentConfig F
  pub tools : Registry Sch W
  pub subagents : List String

-- `HasSubagent`, the loop.
unfoldable pub has_name : String → List String → Bool
has_name name [] = false
has_name name (s ∷ ss) = if s == name then true else has_name name ss

module _ {F : Type 0} where
  unfoldable pub clone_agent_config : AgentConfig F → AgentConfig F
  clone_agent_config cfg = record {
    name = cfg.name;
    model = cfg.model;
    system_prompt = cfg.system_prompt;
    max_tokens = cfg.max_tokens;
    temperature = cfg.temperature;
    trim_strategy = cfg.trim_strategy;
    max_history = cfg.max_history;
    token_budget = cfg.token_budget;
    budget_config = clone_budget_config cfg.budget_config;
    subagents = cfg.subagents;
    max_steps = cfg.max_steps;
  }

module _ {F Sch W : Type 0} where
  unfoldable pub new_agent : AgentConfig F → Agent F Sch W
  new_agent cfg = record {
    config = clone_agent_config cfg;
    tools = new_registry;
    subagents = cfg.subagents;
  }

  unfoldable pub snapshot : Agent F Sch W → AgentConfig F
  snapshot a = record (clone_agent_config a.config) { subagents = a.subagents }

  unfoldable pub session_config : Agent F Sch W → SessionConfig F
  session_config a = record {
    model = a.config.model;
    system_prompt = a.config.system_prompt;
    max_tokens = a.config.max_tokens;
    temperature = a.config.temperature;
    trim_strategy = a.config.trim_strategy;
    max_history = a.config.max_history;
    token_budget = a.config.token_budget;
    budget_config = clone_budget_config a.config.budget_config;
  }

  abbrev pub name_of : Agent F Sch W → String
  name_of a = a.config.name

  -- `RegisterTool`, which drops the registry's error.
  unfoldable pub register_tool : (String → String) → ToolDef Sch W → Agent F Sch W → Agent F Sch W
  register_tool trim_space t a = record a { tools = (register trim_space t a.tools).1 }

  -- `ToolRegistry`: a new registry with the tools of the agent.
  unfoldable pub tool_registry : (String → String) → Agent F Sch W → Registry Sch W
  tool_registry trim_space a = register_all trim_space (all a.tools) new_registry

  unfoldable pub add_subagent : String → Agent F Sch W → Agent F Sch W
  add_subagent name a = record a { subagents = a.subagents ++ name ∷ [] }

  unfoldable pub has_subagent : String → Agent F Sch W → Bool
  unfolding has_name
  has_subagent name a = has_name name a.subagents

  -- `Registry.Register`; a nil agent and one without a name are dropped.
  unfoldable pub register_agent :
      Option (Agent F Sch W) → Dict (Agent F Sch W) → Dict (Agent F Sch W)
  register_agent none r = r
  register_agent (some a) r = if name_of a == "" then r else insert (name_of a) a r

  unfoldable pub get_agent : String → Dict (Agent F Sch W) → Option (Agent F Sch W)
  get_agent name r = lookup name r

-- `Registry`, the map of the agents.
abbrev pub AgentRegistry : Type 0 → Type 0 → Type 0 → Type 0
AgentRegistry F Sch W = Dict (Agent F Sch W)

-- `SubagentResolver`: its `Get`, which finds no nil agent.
abbrev pub Resolver : Type 0 → Type 0 → Type 0 → Type 0
Resolver F Sch W = String → Option (Agent F Sch W)

abbrev pub active_agent_metadata_key : String
active_agent_metadata_key = "active_agent"

abbrev pub or_blank : Option String → String
or_blank none = ""
or_blank (some s) = s

-- `m[key]` of a map that may be nil.
abbrev pub meta_value : String → Option (Dict String) → String
meta_value key none = ""
meta_value key (some m) = or_blank (lookup key m)

module _ {F Sch W : Type 0} where
  abbrev pub found_or : Agent F Sch W → Option (Agent F Sch W) → Agent F Sch W
  found_or root none = root
  found_or root (some a) = a

  -- `ResolveSessionAgent` for a root that is not nil.
  unfoldable pub resolve_session_agent :
      Agent F Sch W → SessionSnapshot F → Option (String → Option (Agent F Sch W)) → Agent F Sch W
  resolve_session_agent root snap none = root
  resolve_session_agent root snap (some get) =
      let name = meta_value active_agent_metadata_key snap.metadata in
      if name == "" then root else found_or root (get name)

abbrev pub or_else_text : String → String → String
or_else_text s default = if s == "" then default else s

abbrev pub or_else {ℓ} : {B : Type ℓ} → Option B → Option B → Option B
or_else none b = b
or_else (some a) b = some a

module _ {F Sch W : Type 0} where
  -- The fields that `bindSessionToAgent` and `applyAgentDefaultsToSession` fill in alike.
  unfoldable pub with_defaults : Agent F Sch W → SessionConfig F → SessionConfig F
  with_defaults a cfg =
      let d = session_config a in
      record {
        model = cfg.model;
        system_prompt = cfg.system_prompt;
        max_tokens = if leb_ℤ cfg.max_tokens (pos 0) then d.max_tokens else cfg.max_tokens;
        temperature = or_else cfg.temperature d.temperature;
        trim_strategy = or_else_text cfg.trim_strategy d.trim_strategy;
        max_history = if leb_ℤ cfg.max_history (pos 0) then d.max_history else cfg.max_history;
        token_budget = if leb_ℤ cfg.token_budget (pos 0) then d.token_budget else cfg.token_budget;
        budget_config = or_else cfg.budget_config (clone_budget_config d.budget_config);
      }

  -- `bindSessionToAgent`: the model and the prompt are the agent's.
  unfoldable pub bind_session_to_agent : Session F → Agent F Sch W → Session F
  bind_session_to_agent s a =
      let snap = session_snapshot s in
      restore_session
        (record snap {
          config = record (with_defaults a snap.config) {
            model = (session_config a).model;
            system_prompt = (session_config a).system_prompt;
          };
        })
        s

  -- `applyAgentDefaultsToSession`: the session's own model and prompt stay where they are set.
  unfoldable pub apply_agent_defaults_to_session : Session F → Agent F Sch W → Session F
  apply_agent_defaults_to_session s a =
      let snap = session_snapshot s in
      restore_session
        (record snap {
          config = record (with_defaults a snap.config) {
            model = or_else_text snap.config.model (session_config a).model;
            system_prompt = or_else_text snap.config.system_prompt (session_config a).system_prompt;
          };
        })
        s

module _ {Sch W : Type 0} where
  -- `mergeToolRegistries`, of which either may be nil.
  unfoldable pub merge_tool_registries :
      (String → String)
      → Option (Registry Sch W)
      → Option (Registry Sch W)
      → Option (Registry Sch W)
  merge_tool_registries trim_space none none = none
  merge_tool_registries trim_space none (some cfg) = some cfg
  merge_tool_registries trim_space (some agent) none = some agent
  merge_tool_registries trim_space (some agent) (some cfg) =
      some (register_all trim_space (all cfg) (register_all trim_space (all agent) new_registry))
