-- ===== src/Runtime/Executor/Tools.antt =====
-- agent/runtime_subagent.go: the tools that a run offers, and the tool call that asks for a transfer.
use kae_agent_public.Base.{
  ℕ, ltb, String, ◌+++◌, ◌==◌, starts_with, List, [], ◌∷◌, ◌++◌, length, Option, none, some, Slice,
  nil, items, Result, ok, err, Bool, true, false, not, ◌&&◌, is_some, if◌then◌else◌, map,
}
use kae_agent_public.Llm.{ToolCall, ToolDef as LlmToolDef}
use kae_agent_public.Llm.Clone.{clone_map}
use kae_agent_public.Tools.Registry.{Registry, ToolDef, all}
use kae_agent_public.Agents.{Agent, Resolver, name_of, has_name}
use kae_agent_public.Runtime.State.{RunState}
use kae_agent_public.Runtime.Payload.{
  Payload, PayloadError, consult_tool_name, transfer_tool_name, transfer_tool_prefix,
  parse_transfer_payload,
}
use kae_agent_public.Runtime.Subagents.{
  resolve_transfer_agent, is_transfer_allowed_for, transfer_root_name_for,
}
use kae_agent_public.Runtime.Executor.{
  Env, ExecError, TransferStep, transfer_unavailable, transfer_combined, payload_refused,
}

-- `Agent.Name()` of the active agent, or the run's agent id where there is none or it has no name.
abbrev pub name_or : {F Sch W : Type 0} → String → Option (Agent F Sch W) → String
name_or id none = id
name_or id (some a) = if name_of a == "" then id else name_of a

module _ {F Sch W J E : Type 0} (env : Env F Sch W J E) where
  -- `_, err := resolveTransferAgent(…)`, where only the error is read.
  abbrev pub is_resolved : Option (Agent F Sch W) → String → Bool
  is_resolved root name = elim (resolve_transfer_agent {E = E} env.resolver root name) [
    | ok a ↦ true
    | err e ↦ false
  ]

  -- `add` of `transferTargetNames`; the seen names are those that are listed.
  unfoldable pub add_name : Option (Agent F Sch W) → String → List String → List String
  add_name root name names =
      if not (name == "") && is_resolved root name && not (has_name name names)
      then names ++ name ∷ []
      else names

  unfoldable pub add_names : Option (Agent F Sch W) → List String → List String → List String
  unfolding add_name
  add_names root [] names = names
  add_names root (n ∷ ns) names = add_names root ns (add_name root n names)

  -- The loop over the subagents of the root, without the active agent.
  unfoldable pub add_siblings :
      Option (Agent F Sch W) → String → List String → List String → List String
  unfolding add_name
  add_siblings root me [] names = names
  add_siblings root me (n ∷ ns) names =
      add_siblings root me ns (if n == me then names else add_name root n names)

  abbrev pub subagents_of : Option (Agent F Sch W) → List String
  subagents_of none = []
  subagents_of (some a) = a.subagents

  -- `transferTargetNames` of the active agent.
  unfoldable pub transfer_target_names : Agent F Sch W → Option (Agent F Sch W) → List String
  unfolding add_names add_siblings
  transfer_target_names a root =
      let own = add_names root a.subagents [] in
      let root_name = transfer_root_name_for (some a) root in
      if root_name == ""
      then own
      else add_siblings root (name_of a) (subagents_of root) (add_name root root_name own)

  unfoldable pub transfer_tool_def : String → ToolDef Sch W
  transfer_tool_def name = record {
    name = transfer_tool_name name;
    description = "Transfer control to subagent " +++ env.quote name +++ ".";
    schema = some env.transfer_schema;
    tags = [];
    handler = none;
  }

  unfoldable pub transfer_tool_defs :
      RunState (Agent F Sch W) (Registry Sch W) F → List (ToolDef Sch W)
  unfolding transfer_target_names transfer_tool_def
  transfer_tool_defs rs = elim rs.active_agent [
    | none ↦ []
    | some a ↦ map transfer_tool_def (transfer_target_names a rs.root_agent)
  ]

  unfoldable pub consult_tool_def : String → ToolDef Sch W
  consult_tool_def name = record {
    name = consult_tool_name name;
    description =
        "Consult subagent " +++ env.quote name +++ " and return its result to the current agent.";
    schema = some env.consult_schema;
    tags = [];
    handler = none;
  }

  -- The loop of `consultToolDefs`.
  unfoldable pub consult_defs_of : Resolver F Sch W → List String → List (ToolDef Sch W)
  unfolding consult_tool_def
  consult_defs_of get [] = []
  consult_defs_of get (n ∷ ns) =
      if is_some (get n)
      then consult_tool_def n ∷ consult_defs_of get ns
      else consult_defs_of get ns

  unfoldable pub consult_tool_defs :
      RunState (Agent F Sch W) (Registry Sch W) F → List (ToolDef Sch W)
  unfolding consult_defs_of
  consult_tool_defs rs = elim env.resolver [
    | none ↦ []
    | some get ↦ consult_defs_of get (subagents_of rs.active_agent)
  ]

  unfoldable pub available_tool_defs :
      RunState (Agent F Sch W) (Registry Sch W) F → List (ToolDef Sch W)
  unfolding consult_tool_defs transfer_tool_defs
  available_tool_defs rs = all rs.tools ++ consult_tool_defs rs ++ transfer_tool_defs rs

  -- `ToolDefsToLLM`
  unfoldable pub tool_def_to_llm : ToolDef Sch W → LlmToolDef
  tool_def_to_llm t = record {
    name = t.name;
    description = t.description;
    parameters = elim t.schema [ none ↦ none | some s ↦ clone_map (env.schema_map s) ];
  }

  unfoldable pub tool_defs_to_llm : List (ToolDef Sch W) → List LlmToolDef
  unfolding tool_def_to_llm
  tool_defs_to_llm ts = map tool_def_to_llm ts

  -- `transferTargetForTool`, for a name that has the prefix.
  unfoldable pub transfer_target_for_tool :
      RunState (Agent F Sch W) (Registry Sch W) F → String → Option String
  transfer_target_for_tool rs tool_name =
      let target = env.trim_prefix tool_name transfer_tool_prefix in
      elim rs.active_agent [
        | none ↦ none
        | some a ↦
            if not (target == "")
              && is_transfer_allowed_for (some a) rs.root_agent target
              && is_resolved rs.root_agent target
            then some target
            else none
      ]

  -- The transfer that a parsed payload asks for.
  unfoldable pub transfer_step_of :
      ToolCall → Result PayloadError Payload → Result (ExecError F E) (Option (TransferStep F E))
  transfer_step_of call (err e) = err (payload_refused e)
  transfer_step_of call (ok p) = ok (
      some (record {
        call = call;
        request = record {
          agent_name = p.agent_name;
          input = p.input;
          context = nil;
          metadata = p.metadata;
          filter = none;
        };
      }))

  -- The loop of `extractTransfer`, with the number of all calls.
  unfoldable pub extract_from :
      RunState (Agent F Sch W) (Registry Sch W) F
      → String
      → ℕ
      → List ToolCall
      → Result (ExecError F E) (Option (TransferStep F E))
  unfolding transfer_step_of
  extract_from rs fallback n [] = ok none
  extract_from rs fallback n (c ∷ cs) =
      let rest = extract_from rs fallback n cs in
      if starts_with c.name transfer_tool_prefix
      then (elim (transfer_target_for_tool rs c.name) [
        | none ↦ err (
            transfer_unavailable (env.trim_prefix c.name transfer_tool_prefix)
              (name_or rs.agent_id rs.active_agent))
        | some target ↦
            if ltb 1 n
            then err (transfer_combined c.name)
            else transfer_step_of c (parse_transfer_payload env.trim target c.input fallback)
      ])
      else rest

  unfoldable pub extract_transfer :
      RunState (Agent F Sch W) (Registry Sch W) F
      → Slice ToolCall
      → String
      → Result (ExecError F E) (Option (TransferStep F E))
  unfolding extract_from
  extract_transfer rs calls fallback = extract_from rs fallback (length (items calls)) (items calls)
