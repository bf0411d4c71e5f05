-- ===== src/Multiagent/Tests.antt =====
-- A router of two agents, one of which is registered again with other tags.
use kae_agent_public.Base.{String, List, [], ◌∷◌, none, pos, ◌≡◌}
use kae_agent_public.Multiagent.Router.{AgentConfig, Router, new_router, register, route, route_all}
use kae_agent_public.Multiagent.Router.Register.{
  WellIndexed, new_router-WellIndexed, register-WellIndexed, AreTagged, first_of,
  route_all-WellIndexed, route-first_of,
}

abbrev agent_of : AgentConfig String → String
agent_of c = c.name

abbrev config : String → List String → AgentConfig String
config name tags = record {
  agent = none;
  name = name;
  description = "";
  system_prompt = "";
  model = "";
  tags = tags;
  max_steps = pos 0;
  subagents = [];
}

abbrev one : Router String
one = register agent_of (config "billing" ("money" ∷ "help" ∷ [])) new_router

abbrev two : Router String
two = register agent_of (config "support" ("help" ∷ [])) one

abbrev three : Router String
three = register agent_of (config "billing" ("refunds" ∷ [])) two

one_ok : WellIndexed one
one_ok =
    register-WellIndexed agent_of (config "billing" ("money" ∷ "help" ∷ [])) new_router
      new_router-WellIndexed

register-WellIndexed_example : WellIndexed two
register-WellIndexed_example =
    register-WellIndexed agent_of (config "support" ("help" ∷ [])) one one_ok

three_ok : WellIndexed three
three_ok =
    register-WellIndexed agent_of (config "billing" ("refunds" ∷ [])) two
      (register-WellIndexed agent_of (config "support" ("help" ∷ [])) one one_ok)

route_all-WellIndexed_example : AreTagged "help" three (route_all "help" three)
route_all-WellIndexed_example = route_all-WellIndexed three "help" three_ok

route-first_of_example : route "help" three ≡ first_of "help" (route_all "help" three)
route-first_of_example = route-first_of three "help" three_ok
