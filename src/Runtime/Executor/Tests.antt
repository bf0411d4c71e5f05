-- ===== src/Runtime/Executor/Tests.antt =====
-- An agent with one tool, a provider that calls the tool once, and a window of two turns.
use kae_agent_public.Base.{
  ℕ, zero, suc, ℤ, pos, ◌+ℤ◌, ◌-ℤ◌, ltb_ℤ, String, true, false, List, [], ◌∷◌, Option, none, some,
  Slice, nil, of, items, Result, ok, err, ◌≡◌, refl, arith, ap, ◌∙◌,
}
use kae_agent_public.Llm.{Message, ToolCall, Request, Response}
use kae_agent_public.Llm.Value.{AnyMap, text}
use kae_agent_public.Engine.{ToolResult}
use kae_agent_public.Compaction.{GoStd, Input, output_of}
use kae_agent_public.Compaction.TurnWindow.{compact, window, append_turns}
use kae_agent_public.Compaction.Turns.{split_turns, split_loop, split_step, flush}
use kae_agent_public.Llm.Clone.{
  clone_messages, clone_message, clone_tool_calls, clone_tool_call, clone_map,
}
use kae_agent_public.Conversation.{append_owned, new_conversation_from_state, messages_of}
use kae_agent_public.Streaming.Budget.{
  Floats, new_budget, new_budget_from_snapshot, snapshot as budget_snapshot,
}
use kae_agent_public.Session.{Session, Json, clone_session_config, clone_budget_config}
use kae_agent_public.Engine.Commands.{clone_string_map, copy_entries}
use kae_agent_public.Tools.Registry.{
  returns, ToolDef, Registry, register, register_all, all as all_tools, new_registry,
}
use kae_agent_public.Tools.Dispatcher.{DispatchError, dispatch, dispatch_sequential}
use kae_agent_public.Tools.Dispatcher.Runs.{dispatch-AnswersCalls}
use kae_agent_public.Tools.Dispatcher.Sequence.{sequential-AllAnswer}
use kae_agent_public.Agents.{
  Agent, new_agent, has_subagent, clone_agent_config, tool_registry, session_config,
}
use kae_agent_public.Runtime.State.{
  Runtime, RunState, publish_run_state, append_conversation_message, set_session_metadata,
}
use kae_agent_public.Runtime.State.Stale.{appends, sets_metadata, publish_run_state-Changes}
use kae_agent_public.Runtime.Subagents.{
  TransferRequest, apply_transfer, resolve_transfer_state_from, ensure_transfer_allowed_for,
  is_transfer_allowed_for, transfer_root_name_for, resolve_transfer_agent, hand_over, taken_over,
  with_input, target_session, mark_active, rebase_budget_snapshot, merge_string_maps,
  with_agent_system_prompt,
}
use kae_agent_public.Runtime.Subagents.Handover.{MayReach, TakenOver, apply_transfer-TakenOver}
use kae_agent_public.Runtime.Request.{Compactor}
use kae_agent_public.Runtime.Executor.{Env}
use kae_agent_public.Runtime.Executor.Requests.{Middleware}
use kae_agent_public.Runtime.Executor.Retry.{retry}
use kae_agent_public.Runtime.Executor.Retry.Keeps.{retry-KeepsAround}
use kae_agent_public.Runtime.Executor.Turns.{run}
use kae_agent_public.Runtime.Executor.Outcomes.{IsAtomic, run-IsAtomic}
use kae_agent_public.Runtime.Executor.Pairs.{Paired, KeepsPairs, EndsPaired, run-EndsPaired}
use kae_agent_public.Runtime.Executor.Pairs.Turns.{compact-Paired}

abbrev units : Floats ℤ
units = record { of_int = λ n. n; plus = ◌+ℤ◌; minus = ◌-ℤ◌; times = λ a b. a; less = ltb_ℤ }

abbrev std : GoStd
std = record { calls_json_len = λ cs. 0; tools_json_len = λ ts. 0; float_to_int = λ b. pos b }

abbrev json : Json ℤ Unit
json = record {
  config_text = λ c. tt;
  config_of = λ t. err "no text";
  budget_text = λ b. tt;
  budget_of = λ t. err "no text";
  is_empty = λ t. false;
  zero_budget = record {
    max_tokens = pos 0;
    max_cost_usd = pos 0;
    total_input = pos 0;
    total_output = pos 0;
    total_cost_usd = pos 0;
    cost_per_input_token = pos 0;
    cost_per_output_token = pos 0;
  };
}

abbrev call : String → ToolCall
call id = record { id = id; name = "echo"; input = none }

abbrev respond : String → Option ToolCall → Response
respond kind c = record {
  content = record { kind = kind; text = "done"; tool_call = c } ∷ [];
  usage = record { input_tokens = pos 1; output_tokens = pos 1; total_tokens = pos 2 };
  finish_reason = "stop";
}

-- The world counts: the provider calls a tool at first, and then answers.
abbrev complete : Request → ℕ → Result String (Option Response) × ℕ
complete req zero = (ok (some (respond "tool_call" (some (call "c1")))), 1)
complete req (suc n) = (ok (some (respond "text" none)), suc (suc n))

abbrev say : DispatchError → String
say e = "error"

abbrev coerce : String → AnyMap → AnyMap × List String
coerce schema input = (input, [])

abbrev never : ℕ → Option String
never w = none

abbrev pub State : Type 0
State = RunState (Agent ℤ String ℕ) (Registry String ℕ) ℤ

abbrev run_tools : ℤ → Slice ToolCall → State → ℕ → List ToolResult × ℕ
run_tools i cs rs w = dispatch_sequential say never (dispatch say coerce rs.tools) (items cs) w

abbrev env : Env ℤ String ℕ Unit String
env = record {
  floats = units;
  std = std;
  json = json;
  trim = λ s. s;
  trim_prefix = λ s p. s;
  quote = λ s. s;
  content_text = λ v. "value";
  provider_name = "test";
  complete = complete;
  save_conversation = none;
  save_session = none;
  resolver = none;
  transfer_filter = none;
  limits = record {
    compactor = some (record { compact = compact (pos 2); force_compact = compact (pos 1) });
    model_context_limit = pos 0;
    output_reserve = pos 0;
  };
  consult_schema = "consult";
  transfer_schema = "transfer";
  schema_map = λ s. none;
  ctx_err = λ w. none;
  run_tools = run_tools;
}

abbrev agent : Agent ℤ String ℕ
agent = new_agent (record {
  name = "helper";
  model = "m";
  system_prompt = "";
  max_tokens = pos 100;
  temperature = none;
  trim_strategy = "";
  max_history = pos 0;
  token_budget = pos 0;
  budget_config = none;
  subagents = [];
  max_steps = pos 5;
})

abbrev tool : ToolDef String ℕ
tool = record {
  name = "echo";
  description = "";
  schema = some "any";
  tags = [];
  handler = some (λ input n. (returns (text "done"), suc n));
}

abbrev session : Session ℤ
session = record {
  id = "s";
  config = record {
    model = "m";
    system_prompt = "";
    max_tokens = pos 100;
    temperature = none;
    trim_strategy = "";
    max_history = pos 0;
    token_budget = pos 0;
    budget_config = none;
  };
  budget = new_budget units (record {
    max_tokens = pos 100;
    max_cost_usd = pos 0;
    cost_per_input_token = pos 0;
    cost_per_output_token = pos 0;
  });
  metadata = some [];
}

abbrev pub rt : Runtime (Agent ℤ String ℕ) (Registry String ℕ) ℤ
rt = record {
  generation = 7;
  agent = some agent;
  root_agent = some agent;
  session = session;
  conv = record { messages = nil; strategy = ""; max_msgs = pos 0; max_chars = pos 0 };
  tools = (register (λ s. s) tool new_registry).1;
  user_id = "u";
  agent_id = "helper";
}

-- A middleware that only passes on.
abbrev passing : Middleware ℤ String ℕ String
passing h = h

given : (k l : Compactor) → some k ≡ some l → k ≡ l
given k l h = cc

keeps : KeepsPairs env
keeps = record {
  tools_answer = λ i cs rs w.
      sequential-AllAnswer say never (dispatch say coerce rs.tools) (items cs) w
        (dispatch-AnswersCalls say coerce rs.tools);
  filter_pairs = λ f p d h. cc;
  compact_pairs = λ k p input out q h.
      compact-Paired (pos 2) input out (ap (λ (c : Compactor). c.compact input) (given _ k p) ∙ q)
        h;
  force_pairs = λ k p input out q h.
      compact-Paired (pos 1) input out
        (ap (λ (c : Compactor). c.force_compact input) (given _ k p) ∙ q) h;
}

-- A pause that ends with its time.
abbrev pause : ℕ → ℕ → Option String × ℕ
pause n w = (none, w)

run-IsAtomic_example :
    IsAtomic env rt (run env (retry pause (pos 3) ∷ passing ∷ []) (pos 5) "r" "hi" rt 0)
run-IsAtomic_example =
    run-IsAtomic env (retry pause (pos 3) ∷ passing ∷ []) (pos 5) "r" "hi" rt 0
      (retry-KeepsAround (λ ms. Unit) pause (pos 3), ((λ h k. k), tt))

run-EndsPaired_example : EndsPaired env rt (run env (passing ∷ []) (pos 5) "r" "hi" rt 0)
run-EndsPaired_example =
    run-EndsPaired env (passing ∷ []) (pos 5) "r" "hi" rt 0 keeps ((λ h k. k), tt) tt

abbrev message : String → String → String → Slice ToolCall → Message
message role content id cs = record {
  role = role;
  content = content;
  name = "";
  tool_call_id = id;
  tool_calls = cs;
}

abbrev last_turn : List Message
last_turn =
    message "user" "again" "" nil
    ∷ message "assistant" "" "" (of (call "c2" ∷ []))
    ∷ message "tool" "done" "c2" nil
    ∷ []

abbrev two_turns : Input
two_turns = record {
  session_id = "s";
  messages = of (
      message "user" "hi" "" nil
      ∷ message "assistant" "" "" (of (call "c1" ∷ []))
      ∷ message "tool" "done" "c1" nil
      ∷ last_turn);
  tools = [];
  metadata = none;
}

window_of_one : compact (pos 1) two_turns ≡ ok (output_of (of last_turn) true "")
unfolding compact window split_turns split_loop split_step flush append_turns clone_messages
    clone_message clone_tool_calls clone_tool_call clone_map
window_of_one = refl

compact-Paired_example : Paired last_turn
compact-Paired_example =
    compact-Paired (pos 1) two_turns (output_of (of last_turn) true "") window_of_one
      (refl, (refl, (refl, refl, (refl, (refl, (refl, refl, tt))))))

abbrev writer : Agent ℤ String ℕ
writer = record agent { config = record agent.config { name = "writer"; system_prompt = "write" } }

-- The run of another agent than the root.
abbrev pub started : State
started = record {
  generation = 7;
  session_id = "s";
  run_id = "r";
  config = session.config;
  metadata = some [];
  budget = session.budget;
  conv = record {
    messages = of (message "system" "write" "" nil ∷ message "user" "hi" "" nil ∷ []);
    strategy = "";
    max_msgs = pos 0;
    max_chars = pos 0;
  };
  user_id = "u";
  agent_id = "writer";
  active_agent = some writer;
  root_agent = some agent;
  tools = [];
}

abbrev back : TransferRequest ℤ String
back = record {
  agent_name = "helper";
  input = "go on";
  context = nil;
  metadata = none;
  filter = none;
}

abbrev returned : State
returned = record started {
  metadata = some (("active_agent", "helper") ∷ []);
  budget = record session.budget { max_tokens = pos 0 };
  conv = record {
    messages = of (message "user" "hi" "" nil ∷ message "user" "go on" "" nil ∷ []);
    strategy = "";
    max_msgs = pos 0;
    max_chars = pos 0;
  };
  agent_id = "helper";
  active_agent = some agent;
}

transferred_back : apply_transfer units (λ s. s) none none back started ≡ ok returned
unfolding apply_transfer resolve_transfer_state_from ensure_transfer_allowed_for
    is_transfer_allowed_for has_subagent new_agent clone_agent_config transfer_root_name_for
    resolve_transfer_agent hand_over taken_over clone_session_config clone_string_map
    new_budget_from_snapshot with_input tool_registry target_session clone_budget_config new_budget
    append_owned register_all session_config mark_active rebase_budget_snapshot
    new_conversation_from_state all_tools merge_string_maps budget_snapshot clone_messages
    new_registry copy_entries with_agent_system_prompt messages_of
transferred_back = refl

apply_transfer-TakenOver_example :
    (target : Agent ℤ String ℕ) × MayReach String none started.active_agent started.root_agent
      "helper" target
    × TakenOver units (λ s. s) target "helper" started returned
apply_transfer-TakenOver_example =
    apply_transfer-TakenOver units (λ s. s) none none back started returned transferred_back

abbrev added : Message
added = message "user" "wait" "" nil

abbrev overtaken : Runtime (Agent ℤ String ℕ) (Registry String ℕ) ℤ
overtaken = (set_session_metadata "k" "v" (append_conversation_message added rt)).1

publish_run_state-Changes_example : publish_run_state started overtaken ≡ overtaken
publish_run_state-Changes_example =
    publish_run_state-Changes units (λ s. s) String started rt overtaken 2 refl (ground arith)
      (ground arith) (ground arith)
      (
        append_conversation_message added rt,
        appends added refl,
        (overtaken, sets_metadata "k" "v" refl, refl),
      )
