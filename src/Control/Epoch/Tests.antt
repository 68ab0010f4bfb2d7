-- ===== src/Control/Epoch/Tests.antt =====
-- Mirror writes that arrive out of order, and a cache that trails.
use casper_agops_server.Prelude.{ℕ, ◌≤◌, true, false, none, some, [], ◌∷◌, ◌≡◌, ◌⊎◌, refl, arith}
use casper_agops_server.Control.Policy.{
  raw_x402, SpendPolicy, AllocationPolicy, EffectivePolicy, compile_effective_policy, compile_spend,
  compile_allocation, meet_spend, meet_allocation, reduce, smaller, larger, intersect_all, in_every,
}
use casper_agops_server.Control.Epoch.{
  Cache, bump, bump_all, is_cache_fresh, recompile_agent_policy, serve, resolve_effective_policy,
}
use casper_agops_server.Control.Epoch.Freshness.{resolve-IsFresh}

abbrev spend : SpendPolicy
spend = record {
  spend_cap = 60;
  per_transaction_max = 20;
  service_scope = [];
  rail_permission = raw_x402 ∷ [];
  velocity_limit_per_hour = 5;
}

abbrev allocation : AllocationPolicy
allocation = record {
  total_budget = 500;
  per_agent_max = 50;
  cooldown_seconds = 60;
  allowed_destinations = [];
}

abbrev policy_at : ℕ → EffectivePolicy
policy_at epoch = record {
  agent_id = 1;
  org_id = 2;
  policy_id = "policy_a@v1";
  policy_epoch = epoch;
  spend = spend;
  allocation = allocation;
}

-- The blob is of epoch 3, the mirror at 4, Postgres at 5.
abbrev trailing : Cache
trailing = record {
  layers = λ agent. record {
    agent_id = 1;
    org_id = 2;
    policy_id = "policy_a@v1";
    policy_epoch = 5;
    spend_layers = spend ∷ [];
    allocation_layers = allocation ∷ [];
  };
  blobs = λ agent. some (policy_at 3);
  epochs = λ org. some 4;
}

bump_all-out_of_order : bump_all none (1 ∷ 3 ∷ 2 ∷ []) ≡ some 3
unfolding bump_all bump
bump_all-out_of_order = refl

trailing-recompiles : (resolve_effective_policy 1 2 trailing).1 ≡ some (policy_at 5, true)
unfolding resolve_effective_policy serve is_cache_fresh recompile_agent_policy
    compile_effective_policy compile_spend compile_allocation meet_spend meet_allocation reduce
    smaller larger intersect_all in_every
trailing-recompiles = refl

resolve-IsFresh_example :
    (4 ≤ 5) × ((true ≡ false) ⊎ (compile_effective_policy (trailing.layers 1) ≡ some (policy_at 5)))
resolve-IsFresh_example =
    resolve-IsFresh 1 2 4 trailing (policy_at 5) true (omega arith) refl trailing-recompiles
