-- ===== src/Session/Stored.antt =====
-- A session on its way through a store.
use kae_agent_public.Base.{String, [], ◌∷◌, false, Option, none, some, Dict, ok, ◌≡◌, refl, ap, ◌∙◌}
use kae_agent_public.Engine.Commands.{clone_string_map, copy_entries}
use kae_agent_public.Streaming.Budget.{
  BudgetConfig, BudgetSnapshot, snapshot as budget_snapshot, new_budget_from_snapshot,
}
use kae_agent_public.Session.{
  Session, SessionConfig, Json, SessionData, copy_metadata, clone_budget_config,
  clone_session_config, snapshot, new_session_from_snapshot, to_store_data, stored_budget,
  session_from_store_data,
}

-- The config and the budget of the session are read back from their JSON texts, and its budget is not
-- written as the empty text.
pub record ReadsBack {F J : Type 0} (json : Json F J) (s : Session F) : Type 0 where
  pub config_back : json.config_of (json.config_text s.config) ≡ ok s.config
  pub budget_back :
      json.budget_of (json.budget_text (budget_snapshot s.budget)) ≡ ok (budget_snapshot s.budget)
  pub not_empty : json.is_empty (json.budget_text (budget_snapshot s.budget)) ≡ false

copy_entries_id : (m : Dict String) → copy_entries m ≡ m
unfolding copy_entries
copy_entries_id [] = refl
copy_entries_id ((k, v) ∷ m) = ap (λ l. (k, v) ∷ l) (copy_entries_id m)

pub clone_string_map_id : (m : Option (Dict String)) → clone_string_map m ≡ m
unfolding clone_string_map
clone_string_map_id none = refl
clone_string_map_id (some m) = ap some (copy_entries_id m)

module _ {F : Type 0} where
  clone_budget_config_id : (c : Option (BudgetConfig F)) → clone_budget_config c ≡ c
  unfolding clone_budget_config
  clone_budget_config_id none = refl
  clone_budget_config_id (some c) = refl

  pub clone_session_config_id : (c : SessionConfig F) → clone_session_config c ≡ c
  unfolding clone_session_config
  clone_session_config_id c =
      ap (λ b. let r : SessionConfig F = record c { budget_config = b } in r)
        (clone_budget_config_id c.budget_config)

  -- A session from its snapshot is the session, with a made map for nil metadata.
  pub new_session-snapshot :
      (s : Session F)
      → new_session_from_snapshot (snapshot s) ≡ record s { metadata = copy_metadata s.metadata }
  unfolding new_session_from_snapshot snapshot budget_snapshot new_budget_from_snapshot
  new_session-snapshot s =
      rw (clone_session_config_id, clone_session_config_id, clone_string_map_id) refl

  module _ {J : Type 0} (json : Json F J) where
    parts_of :
        (data' : SessionData J) (c : SessionConfig F) (b : BudgetSnapshot F)
        → json.config_of data'.config ≡ ok c
        → stored_budget json data' ≡ ok b
        → session_from_store_data json data'
          ≡ ok (
              new_session_from_snapshot
                (record { id = data'.id; config = c; budget = b; metadata = data'.metadata }))
    unfolding session_from_store_data
    parts_of data' c b p q = rw (p, q) refl

    -- A session that is written for a store and read back is the session, in its id, config, budget and
    -- metadata, where a nil map of metadata has become an empty one, if JSON reads back what it writes of
    -- the config and the budget of this session.
    pub session_from_store_data-to_store_data :
        (user_id agent_id : String) (s : Session F)
        → ReadsBack json s
        → session_from_store_data json (to_store_data json user_id agent_id s)
          ≡ ok (record s { metadata = copy_metadata s.metadata })
    unfolding to_store_data
    session_from_store_data-to_store_data user_id agent_id s r =
        parts_of (to_store_data json user_id agent_id s) (snapshot s).config (snapshot s).budget
          (unfold snapshot in rw clone_session_config_id r.config_back)
          (unfold stored_budget in unfold snapshot in rw r.not_empty r.budget_back)
        ∙ ap ok (new_session-snapshot s)
