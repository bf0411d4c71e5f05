-- ===== src/Multiagent/Router.antt =====
-- multiagent/router.go: `Router`. An agent is a value of the agent package, which this file only
-- stores; making one from a config is a parameter. The mutex makes every operation one step.
pub mod Index
pub mod Register
use kae_agent_public.Base.{
  ℤ, String, Bool, true, false, List, [], ◌∷◌, ◌++◌, Option, none, some, Result, ok, err, Dict,
  lookup, insert, erase, ◌==◌, if◌then◌else◌, is_empty,
}

pub record AgentConfig (A : Type 0) : Type 0 where
  pub agent : Option A
  pub name : String
  pub description : String
  pub system_prompt : String
  pub model : String
  pub tags : List String
  pub max_steps : ℤ
  pub subagents : List String

-- `Router`: the agents by name, and the names by tag.
pub record Router (A : Type 0) : Type 0 where
  pub agents : Dict (AgentConfig A)
  pub tag_idx : Dict (List String)

pub data RouteError : Type 0 where
  no_agent_for_tag : String → RouteError
  agent_not_found : String → RouteError

unfoldable pub contains_agent_name : List String → String → Bool
contains_agent_name [] target = false
contains_agent_name (name ∷ names) target =
    if name == target then true else contains_agent_name names target

unfoldable pub remove_agent_name : List String → String → List String
remove_agent_name [] target = []
remove_agent_name (name ∷ names) target =
    if name == target then remove_agent_name names target else name ∷ remove_agent_name names target

abbrev pub or_empty : Option (List String) → List String
or_empty none = []
or_empty (some names) = names

-- `r.tagIdx[tag]`: no names where the tag is missing.
unfoldable pub names_of : String → Dict (List String) → List String
names_of tag idx = or_empty (lookup tag idx)

-- The loop over `prev.Tags`, which takes the name out of the index.
unfoldable pub remove_tags : String → List String → Dict (List String) → Dict (List String)
remove_tags name [] idx = idx
remove_tags name (tag ∷ tags) idx =
    let left = remove_agent_name (names_of tag idx) name in
    remove_tags name tags (if is_empty left then erase tag idx else insert tag left idx)

-- The loop over `cfg.Tags`, which puts the name into the index.
unfoldable pub add_tags : String → List String → Dict (List String) → Dict (List String)
add_tags name [] idx = idx
add_tags name (tag ∷ tags) idx =
    let names = names_of tag idx in
    add_tags name tags
      (if contains_agent_name names name then idx else insert tag (names ++ name ∷ []) idx)

module _ {A : Type 0} where
  unfoldable pub new_router : Router A
  new_router = record { agents = []; tag_idx = [] }

  -- `materializeAgent`, with `agent.NewAgent` as a parameter.
  unfoldable pub materialize_agent : (AgentConfig A → A) → AgentConfig A → A
  materialize_agent new_agent c = elim c.agent [ some a ↦ a | none ↦ new_agent c ]

  -- The index without an agent that was registered under the name before.
  unfoldable pub forget : String → Option (AgentConfig A) → Dict (List String) → Dict (List String)
  forget name none idx = idx
  forget name (some prev) idx = remove_tags name prev.tags idx

  unfoldable pub register : (AgentConfig A → A) → AgentConfig A → Router A → Router A
  unfolding materialize_agent
  register new_agent cfg r =
      let cfg' : AgentConfig A = record cfg { agent = some (materialize_agent new_agent cfg) } in
      record {
        agents = insert cfg'.name cfg' r.agents;
        tag_idx =
            add_tags cfg'.name cfg'.tags (forget cfg'.name (lookup cfg'.name r.agents) r.tag_idx);
      }

  -- What `Route` does with the names of the tag.
  unfoldable pub route_first :
      String → List String → Dict (AgentConfig A) → Result RouteError (AgentConfig A)
  route_first tag [] agents = err (no_agent_for_tag tag)
  route_first tag (name ∷ names) agents = elim (lookup name agents) [
    | none ↦ err (agent_not_found name)
    | some cfg ↦ ok cfg
  ]

  -- `Route`: a missing tag and one without names give the same error.
  unfoldable pub route : String → Router A → Result RouteError (AgentConfig A)
  unfolding route_first
  route tag r = route_first tag (names_of tag r.tag_idx) r.agents

  unfoldable pub configs_of : List String → Dict (AgentConfig A) → List (AgentConfig A)
  configs_of [] agents = []
  configs_of (name ∷ names) agents = elim (lookup name agents) [
    | none ↦ configs_of names agents
    | some cfg ↦ cfg ∷ configs_of names agents
  ]

  unfoldable pub route_all : String → Router A → List (AgentConfig A)
  unfolding configs_of
  route_all tag r = configs_of (names_of tag r.tag_idx) r.agents

  unfoldable pub get : String → Router A → Option (AgentConfig A)
  get name r = lookup name r.agents
