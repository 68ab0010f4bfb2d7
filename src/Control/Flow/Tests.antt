-- ===== src/Control/Flow/Tests.antt =====
-- A flow with two roles, and a team with a parent.
use casper_agops_server.Prelude.{
  ℕ, suc, true, none, some, List, [], ◌∷◌, length, All, ◌≡◌, refl, is_some, arith,
}
use casper_agops_server.Control.Policy.{casper_x402, AllocationPolicy}
use casper_agops_server.Control.Store.{
  allocation_rules, org_scope, Store, AgentRow, retired, active, allocation, has_org, find_team,
  create_team, retire_agent, reinstate_agent, update_agent,
}
use casper_agops_server.Control.Layers.{team_ancestry, find_agent}
use casper_agops_server.Control.Store.Ancestry.{create_teams, team_ancestry-create_teams}
use casper_agops_server.Control.Flow.{FlowRole, role_agent, attach_trading_flow, flow_role}
use casper_agops_server.Control.Flow.Enforced.{IsLayered, IsStaffed, attach-IsLayered}
use casper_agops_server.Control.Flow.Ceiling.{allocation_layers_of, attach-allocation_layers}

abbrev ceiling : AllocationPolicy
ceiling = record {
  total_budget = 100;
  per_agent_max = 50;
  cooldown_seconds = 0;
  allowed_destinations = [];
}

abbrev reads : FlowRole
reads = flow_role ceiling (record {
  role = "data";
  allowed_actions = casper_x402 ∷ [];
  service_scope = "svc" ∷ [];
  sub_cap = 10;
  velocity_limit_per_hour = 60;
})

abbrev reader : AgentRow
reader = record {
  agent_id = 9;
  org_id = 1;
  team_id = none;
  api_key_hash = 99;
  name = "reader";
  status = retired;
}

abbrev store : Store
store = record {
  orgs = record { org_id = 1; policy_epoch = 0 } ∷ [];
  teams = [];
  agents = reader ∷ [];
  policies = [];
  assignments = [];
  next_id = 20;
}

attach-IsLayered_example :
    (is_some (attach_trading_flow 1 (reads ∷ []) (("data", 9) ∷ []) store).1 ≡ true)
    × All
        (IsLayered 1
          (("data", 9) ∷ [])
          (attach_trading_flow 1 (reads ∷ []) (("data", 9) ∷ []) store).0)
        (reads ∷ [])
unfolding has_org role_agent IsStaffed find_agent team_ancestry
attach-IsLayered_example = attach-IsLayered 1 (reads ∷ []) (("data", 9) ∷ []) store refl tt (
  (9, refl, record { row = reader; found = refl; same_org = refl; teams = []; walked = refl }),
  tt,
)

-- The org has an allocation policy of its own.
abbrev funded_store : Store
funded_store = record store {
  policies =
      record { policy_id = 3; version = 1; org_id = 1; rules = allocation_rules ceiling } ∷ [];
  assignments =
      record { org_id = 1; scope = org_scope; scope_id = 1; policy_id = 3; class = allocation }
      ∷ [];
}

attach-allocation_layers_example :
    allocation_layers_of 9 (attach_trading_flow 1 (reads ∷ []) (("data", 9) ∷ []) funded_store).0
    ≡ allocation_layers_of 9 funded_store
unfolding has_org role_agent
attach-allocation_layers_example =
    attach-allocation_layers 1 (reads ∷ []) (("data", 9) ∷ []) funded_store 9 refl (omega arith, tt)
      (omega arith, tt) (refl, tt)

team_ancestry-create_teams_example :
    (l : List ℕ) × (team_ancestry
        (suc (length (create_teams ((1, none) ∷ (1, some 20) ∷ []) store).teams))
        (some 21)
        (create_teams ((1, none) ∷ (1, some 20) ∷ []) store).teams
      ≡ some l)
unfolding create_teams create_team find_team has_org
team_ancestry-create_teams_example =
    team_ancestry-create_teams ((1, none) ∷ (1, some 20) ∷ []) store (some 21) refl refl

-- An agent that is retired is active again once it is reinstated.
reinstate-retire_agent : (reinstate_agent 1 9 (retire_agent 1 9 store).0).0.agents ≡ (
    record {
      agent_id = 9;
      org_id = 1;
      team_id = none;
      api_key_hash = 99;
      name = "reader";
      status = active;
    }
    ∷ [])
unfolding reinstate_agent retire_agent update_agent
reinstate-retire_agent = refl
