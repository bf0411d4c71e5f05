-- ===== src/Session.antt =====
-- agent/session.go and agent/clone.go, `cloneSessionConfig`: the session of a runtime. The mutex makes
-- every operation one step. The budget of a session is never nil, since every constructor sets it.
pub mod Stored
pub mod Meta
pub mod Tests
use kae_agent_public.Base.{
  ℕ, ℤ, pos, leb_ℤ, String, ◌==◌, [], Option, none, some, Result, ok, err, Dict, lookup, insert,
  Bool, if◌then◌else◌,
}
use kae_agent_public.Engine.Commands.{clone_string_map}
use kae_agent_public.Streaming.Budget.{
  Floats, Budget, BudgetConfig, BudgetSnapshot, Exceeded, new_budget, check,
  snapshot as budget_snapshot, restore as restore_budget, new_budget_from_snapshot,
}

-- A float32 pointer is nil or a bit pattern.
pub record SessionConfig (F : Type 0) : Type 0 where
  pub model : String
  pub system_prompt : String
  pub max_tokens : ℤ
  pub temperature : Option ℕ
  pub trim_strategy : String
  pub max_history : ℤ
  pub token_budget : ℤ
  pub budget_config : Option (BudgetConfig F)

pub record Session (F : Type 0) : Type 0 where
  pub id : String
  pub config : SessionConfig F
  pub budget : Budget F
  pub metadata : Option (Dict String)

pub record SessionSnapshot (F : Type 0) : Type 0 where
  pub id : String
  pub config : SessionConfig F
  pub budget : BudgetSnapshot F
  pub metadata : Option (Dict String)

abbrev pub trim_sliding_window : String
trim_sliding_window = "sliding_window"

abbrev pub trim_token_count : String
trim_token_count = "token_count"

abbrev pub default_session_max_history : ℤ
default_session_max_history = pos 50

abbrev pub default_session_token_budget : ℤ
default_session_token_budget = pos 128000

abbrev pub default_session_max_tokens : ℤ
default_session_max_tokens = pos 4096

-- `if n <= 0 { n = default }`
abbrev pub or_default : ℤ → ℤ → ℤ
or_default n default = if leb_ℤ n (pos 0) then default else n

-- `for k, v := range m { out[k] = v }` into a made map, which is not nil.
unfoldable pub copy_metadata : Option (Dict String) → Option (Dict String)
copy_metadata none = some []
copy_metadata (some m) = some m

module _ {F : Type 0} where
  unfoldable pub clone_budget_config : Option (BudgetConfig F) → Option (BudgetConfig F)
  clone_budget_config none = none
  clone_budget_config (some cfg) = some cfg

  unfoldable pub clone_session_config : SessionConfig F → SessionConfig F
  clone_session_config cfg = record {
    model = cfg.model;
    system_prompt = cfg.system_prompt;
    max_tokens = cfg.max_tokens;
    temperature = cfg.temperature;
    trim_strategy = cfg.trim_strategy;
    max_history = cfg.max_history;
    token_budget = cfg.token_budget;
    budget_config = clone_budget_config cfg.budget_config;
  }

  -- `SetMeta`; none is the panic of a write to a nil map.
  unfoldable pub set_meta : String → String → Session F → Option (Session F)
  set_meta key value s = elim s.metadata [
    | none ↦ none
    | some m ↦ some (record s { metadata = some (insert key value m) })
  ]

  unfoldable pub get_meta : String → Session F → Option String
  get_meta key s = elim s.metadata [ none ↦ none | some m ↦ lookup key m ]

  unfoldable pub snapshot : Session F → SessionSnapshot F
  snapshot s = record {
    id = s.id;
    config = clone_session_config s.config;
    budget = budget_snapshot s.budget;
    metadata = copy_metadata s.metadata;
  }

  unfoldable pub restore : SessionSnapshot F → Session F → Session F
  restore snap s = record {
    id = snap.id;
    config = clone_session_config snap.config;
    budget = restore_budget snap.budget s.budget;
    metadata = copy_metadata snap.metadata;
  }

  unfoldable pub new_session_from_snapshot : SessionSnapshot F → Session F
  new_session_from_snapshot snap = record {
    id = snap.id;
    config = clone_session_config snap.config;
    budget = new_budget_from_snapshot snap.budget;
    metadata = clone_string_map snap.metadata;
  }

module _ {F : Type 0} (fl : Floats F) where
  -- `streaming.BudgetConfig{}`
  abbrev pub no_limits : BudgetConfig F
  no_limits = record {
    max_tokens = pos 0;
    max_cost_usd = fl.of_int (pos 0);
    cost_per_input_token = fl.of_int (pos 0);
    cost_per_output_token = fl.of_int (pos 0);
  }

  abbrev pub config_or_none : Option (BudgetConfig F) → BudgetConfig F
  config_or_none none = no_limits
  config_or_none (some cfg) = cfg

  -- `NewSession`, with the random id as an argument.
  unfoldable pub new_session : String → SessionConfig F → Session F
  new_session id cfg = record {
    id = id;
    config = record cfg {
      trim_strategy = if cfg.trim_strategy == "" then trim_sliding_window else cfg.trim_strategy;
      max_history = or_default cfg.max_history default_session_max_history;
      token_budget = or_default cfg.token_budget default_session_token_budget;
      max_tokens = or_default cfg.max_tokens default_session_max_tokens;
    };
    budget = new_budget fl (config_or_none cfg.budget_config);
    metadata = some [];
  }

  -- `CheckBudget`; the source puts the session's id before the error's text.
  unfoldable pub check_budget : Session F → Option (String × Exceeded F)
  check_budget s = elim (check fl s.budget) [ none ↦ none | some e ↦ some (s.id, e) ]

-- `store.SessionData`, with the texts of JSON as a parameter.
pub record SessionData (J : Type 0) : Type 0 where
  pub id : String
  pub user_id : String
  pub agent_id : String
  pub config : J
  pub budget : J
  pub metadata : Option (Dict String)

-- encoding/json, for the two types that are stored; `is_empty` is `len(data) == 0`.
pub record Json (F J : Type 0) : Type 0 where
  pub config_text : SessionConfig F → J
  pub config_of : J → Result String (SessionConfig F)
  pub budget_text : BudgetSnapshot F → J
  pub budget_of : J → Result String (BudgetSnapshot F)
  pub is_empty : J → Bool
  pub zero_budget : BudgetSnapshot F

pub data LoadError : Type 0 where
  bad_config bad_budget : String → LoadError

module _ {F J : Type 0} (json : Json F J) where
  unfoldable pub to_store_data : String → String → Session F → SessionData J
  to_store_data user_id agent_id s =
      let snap = snapshot s in
      record {
        id = snap.id;
        user_id = user_id;
        agent_id = agent_id;
        config = json.config_text snap.config;
        budget = json.budget_text snap.budget;
        metadata = snap.metadata;
      }

  -- The budget of the data: all zero where there is no text.
  unfoldable pub stored_budget : SessionData J → Result String (BudgetSnapshot F)
  stored_budget data' =
      if json.is_empty data'.budget then ok json.zero_budget else json.budget_of data'.budget

  -- The end of `SessionFromStoreData`.
  unfoldable pub from_parts :
      SessionData J
      → Result String (SessionConfig F)
      → Result String (BudgetSnapshot F)
      → Result LoadError (Session F)
  from_parts data' (err e) b = err (bad_config e)
  from_parts data' (ok cfg) (err e) = err (bad_budget e)
  from_parts data' (ok cfg) (ok b) = ok (
      new_session_from_snapshot
        (record { id = data'.id; config = cfg; budget = b; metadata = data'.metadata }))

  unfoldable pub session_from_store_data : SessionData J → Result LoadError (Session F)
  unfolding from_parts
  session_from_store_data data' =
      from_parts data' (json.config_of data'.config) (stored_budget data')
