-- ===== src/Session/Tests.antt =====
-- A session with a whole-number budget, stored as a value.
use kae_agent_public.Base.{ℤ, pos, String, none, Result, ok, err, ◌≡◌, refl, ◌↔◌, false}
use kae_agent_public.Streaming.Budget.{BudgetSnapshot, snapshot as budget_snapshot}
use kae_agent_public.Session.{
  Session, SessionConfig, SessionSnapshot, Json, new_session_from_snapshot, set_meta, to_store_data,
  session_from_store_data, copy_metadata,
}
use kae_agent_public.Session.Meta.{set_meta-from_snapshot}
use kae_agent_public.Session.Stored.{ReadsBack, session_from_store_data-to_store_data}

abbrev config : SessionConfig ℤ
config = record {
  model = "m";
  system_prompt = "be kind";
  max_tokens = pos 100;
  temperature = none;
  trim_strategy = "sliding_window";
  max_history = pos 5;
  token_budget = pos 1000;
  budget_config = none;
}

abbrev counted : BudgetSnapshot ℤ
counted = record {
  max_tokens = pos 10;
  max_cost_usd = pos 0;
  total_input = pos 3;
  total_output = pos 1;
  total_cost_usd = pos 0;
  cost_per_input_token = pos 0;
  cost_per_output_token = pos 0;
}

abbrev bare : SessionSnapshot ℤ
bare = record { id = "s"; config = config; budget = counted; metadata = none }

abbrev session : Session ℤ
session = new_session_from_snapshot bare

-- A text of JSON is the value that it stands for.
abbrev Text : Type 0
Text = Result (SessionConfig ℤ) (BudgetSnapshot ℤ)

abbrev read_config : Text → Result String (SessionConfig ℤ)
read_config (err c) = ok c
read_config (ok b) = err "no config"

abbrev read_budget : Text → Result String (BudgetSnapshot ℤ)
read_budget (ok b) = ok b
read_budget (err c) = err "no budget"

abbrev json : Json ℤ Text
json = record {
  config_text = λ c. err c;
  config_of = read_config;
  budget_text = λ b. ok b;
  budget_of = read_budget;
  is_empty = λ t. false;
  zero_budget = counted;
}

reads_back : ReadsBack json session
unfolding budget_snapshot
reads_back = record { config_back = refl; budget_back = refl; not_empty = refl }

session_from_store_data-to_store_data_example :
    session_from_store_data json (to_store_data json "u" "a" session)
    ≡ ok (record session { metadata = copy_metadata session.metadata })
session_from_store_data-to_store_data_example =
    session_from_store_data-to_store_data json "u" "a" session reads_back

set_meta-from_snapshot_example :
    (set_meta "k" "v" (new_session_from_snapshot bare) ≡ none) ↔ (bare.metadata ≡ none)
set_meta-from_snapshot_example = set_meta-from_snapshot "k" "v" bare
