-- ===== src/Multiagent/Router/Register.antt =====
-- A registration keeps the index of a router right, and the lookups by tag answer from it.
use kae_agent_public.Base.{
  String, Bool, true, false, List, [], ◌∷◌, Option, none, some, Result, ok, err, lookup, ◌==◌,
  if◌then◌else◌, ◌≡◌, refl, arith, eq_iff, lookup-insert, Option-cases, ◌&&◌, inl, inr, map, ap,
  ◌∙◌, Dict, All, subst, sym,
}
use kae_agent_public.Multiagent.Router.{
  AgentConfig, Router, RouteError, no_agent_for_tag, contains_agent_name, names_of, forget,
  register, materialize_agent, new_router, route, route_first, route_all, configs_of,
}
use kae_agent_public.Multiagent.Router.Index.{
  Distinct, AllDistinct, names_of-remove_tags, names_of-add_tags, remove_tags-AllDistinct,
  add_tags-AllDistinct,
}

module _ {A : Type 0} where
  abbrev pub tagged : String → Option (AgentConfig A) → Bool
  tagged tag none = false
  tagged tag (some cfg) = contains_agent_name cfg.tags tag

  -- Whether the agent that is registered under a name has the tag.
  abbrev pub has_tag : String → String → Router A → Bool
  has_tag tag name r = tagged tag (lookup name r.agents)

-- The index lists under each tag exactly the names whose agents have the tag, each once, and each
-- agent stands under its own name.
pub record WellIndexed {A : Type 0} (r : Router A) : Type 0 where
  pub indexed :
      (tag name : String) → contains_agent_name (names_of tag r.tag_idx) name ≡ has_tag tag name r
  pub distinct : AllDistinct r.tag_idx
  pub named :
      (name : String) (cfg : AgentConfig A) → lookup name r.agents ≡ some cfg → cfg.name ≡ name

module _ {A : Type 0} where
  forget_lem :
      (name : String) (prev : Option (AgentConfig A)) (idx : Dict (List String)) (t n : String)
      → contains_agent_name (names_of t (forget name prev idx)) n
        ≡ (if tagged t prev && name == n then false else contains_agent_name (names_of t idx) n)
  unfolding forget
  forget_lem name none idx t n = refl
  forget_lem name (some prev) idx t n = names_of-remove_tags name prev.tags idx t n

  forget-AllDistinct :
      (name : String) (prev : Option (AgentConfig A)) (idx : Dict (List String))
      → AllDistinct idx
      → AllDistinct (forget name prev idx)
  unfolding forget
  forget-AllDistinct name none idx h = h
  forget-AllDistinct name (some prev) idx h = remove_tags-AllDistinct name prev.tags idx h

  tagged-if :
      (b : Bool) (t : String) (x y : Option (AgentConfig A))
      → tagged t (if b then x else y) ≡ (if b then tagged t x else tagged t y)
  tagged-if true t x y = refl
  tagged-if false t x y = refl

  module _ (new_agent : AgentConfig A → A) where
    -- Registering an agent, under a name that is free or taken, keeps the index right.
    pub register-WellIndexed :
        (cfg : AgentConfig A) (r : Router A)
        → WellIndexed r
        → WellIndexed (register new_agent cfg r)
    unfolding register
    register-WellIndexed cfg r w =
        let cfg' : AgentConfig A = record cfg { agent = some (materialize_agent new_agent cfg) } in
        let prev = lookup cfg.name r.agents in
        record {
          indexed = λ t n. ground (
            arith,
            names_of-add_tags cfg.name cfg.tags (forget cfg.name prev r.tag_idx) t n,
            forget_lem cfg.name prev r.tag_idx t n,
            w.indexed t n,
            eq_iff cfg.name n,
            ap (tagged t) (lookup-insert cfg.name n cfg' r.agents),
            tagged-if (cfg.name == n) t (some cfg') (lookup n r.agents),
          );
          distinct =
              add_tags-AllDistinct cfg.name cfg.tags _
                (forget-AllDistinct cfg.name prev r.tag_idx w.distinct);
          named = λ n c h.
              ground
                (arith, lookup-insert cfg.name n cfg' r.agents, eq_iff cfg.name n, w.named n c, h);
        }

  found :
      (r : Router A) (tag name : String)
      → has_tag tag name r ≡ true
      → (cfg : AgentConfig A) × (lookup name r.agents ≡ some cfg)
  found r tag name h = elim (Option-cases (lookup name r.agents)) [
    | inl p ↦ absurd (let e : false ≡ true = rw p at h in cc)
    | inr q ↦ q
  ]

  -- The names of a config list.
  abbrev pub names : List (AgentConfig A) → List String
  names cfgs = map (λ c. c.name) cfgs

  -- Every name of the list stands for an agent.
  abbrev AllFound : Dict (AgentConfig A) → List String → Type 0
  AllFound agents [] = Unit
  AllFound agents (n ∷ ns) =
      ((cfg : AgentConfig A) × (lookup n agents ≡ some cfg) × (cfg.name ≡ n)) × AllFound agents ns

  all_found :
      (r : Router A) (w : WellIndexed r) (tag : String) (ns : List String)
      → ((n : String) → contains_agent_name ns n ≡ true → has_tag tag n r ≡ true)
      → AllFound r.agents ns
  unfolding contains_agent_name
  all_found r w tag [] h = tt
  all_found r w tag (n ∷ ns) h =
      let (cfg, e) = found r tag n (h n (ground (arith, eq_iff n n))) in
      ((cfg, e, w.named n cfg e), all_found r w tag ns (λ k c. h k (ground (arith, c))))

  names-configs_of :
      (agents : Dict (AgentConfig A)) (ns : List String)
      → AllFound agents ns
      → names (configs_of ns agents) ≡ ns
  unfolding configs_of
  names-configs_of agents [] h = refl
  names-configs_of agents (n ∷ ns) ((cfg, e, p), h) =
      rw (e, configs_of) (cc (p, names-configs_of agents ns h))

  listed :
      (r : Router A) (tag : String) → WellIndexed r → AllFound r.agents (names_of tag r.tag_idx)
  listed r tag w = all_found r w tag (names_of tag r.tag_idx) (λ n h. cc (h, w.indexed tag n))

  configs_of-registered :
      (agents : Dict (AgentConfig A)) (ns : List String)
      → AllFound agents ns
      → All (λ cfg. lookup cfg.name agents ≡ some cfg) (configs_of ns agents)
  unfolding configs_of
  configs_of-registered agents [] h = tt
  configs_of-registered agents (n ∷ ns) ((cfg, e, p), h) =
      rw (e, configs_of)
        (subst (λ k. lookup k agents ≡ some cfg) (sym p) e, configs_of-registered agents ns h)

  -- A list of agents with a tag: each one registered under its name, none twice, and a name among
  -- them exactly where the agent of that name has the tag.
  abbrev pub AreTagged : String → Router A → List (AgentConfig A) → Type 0
  AreTagged tag r cfgs =
      All (λ cfg. lookup cfg.name r.agents ≡ some cfg) cfgs
      × Distinct (names cfgs)
      × ((name : String) → contains_agent_name (names cfgs) name ≡ has_tag tag name r)

  -- With a right index, `RouteAll` gives the agents that have the tag, each once: each of its configs
  -- is registered under its own name, no name stands in the answer twice, and a name stands in it
  -- exactly when the agent of that name has the tag.
  pub route_all-WellIndexed :
      (r : Router A) (tag : String) → WellIndexed r → AreTagged tag r (route_all tag r)
  unfolding route_all
  route_all-WellIndexed r tag w =
      let found = listed r tag w in
      let same = names-configs_of r.agents (names_of tag r.tag_idx) found in
      (
        configs_of-registered r.agents (names_of tag r.tag_idx) found,
        subst Distinct (sym same) (w.distinct tag),
        λ name. ap (λ ns. contains_agent_name ns name) same ∙ w.indexed tag name,
      )

  -- The answer of `Route` that goes with an answer of `RouteAll`.
  abbrev pub first_of : String → List (AgentConfig A) → Result RouteError (AgentConfig A)
  first_of tag [] = err (no_agent_for_tag tag)
  first_of tag (cfg ∷ cfgs) = ok cfg

  first_found :
      (tag : String) (agents : Dict (AgentConfig A)) (ns : List String)
      → AllFound agents ns
      → route_first tag ns agents ≡ first_of tag (configs_of ns agents)
  unfolding route_first configs_of
  first_found tag agents [] h = refl
  first_found tag agents (n ∷ ns) ((cfg, e, p), h) = rw (e, route_first, configs_of) refl

  -- With a right index, `Route` gives the first agent of `RouteAll`, and fails only where there is
  -- none: an agent that the index names is never missing.
  pub route-first_of :
      (r : Router A) (tag : String) → WellIndexed r → route tag r ≡ first_of tag (route_all tag r)
  unfolding route route_all
  route-first_of r tag w = first_found tag r.agents (names_of tag r.tag_idx) (listed r tag w)

  pub new_router-WellIndexed : WellIndexed (new_router {A = A})
  unfolding new_router names_of contains_agent_name
  new_router-WellIndexed = record { indexed = λ t n. refl; distinct = λ t. tt; named = λ n c h. cc }
