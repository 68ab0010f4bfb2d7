-- ===== src/Control/Policy/Tests.antt =====
-- The compilation of two layers.
use casper_agops_server.Prelude.{some, [], ◌∷◌, ◌≡◌, refl}
use casper_agops_server.Control.Policy.{
  raw_x402, casper_x402, SpendPolicy, AllocationPolicy, CompileInput, compile_effective_policy,
  compile_spend, meet_spend, reduce, smaller, intersect_all, in_every,
}
use casper_agops_server.Control.Policy.Meet.{Compiled, compile_effective_policy-IsMeet}

abbrev org_spend : SpendPolicy
org_spend = record {
  spend_cap = 100;
  per_transaction_max = 20;
  service_scope = "svc:a" ∷ "svc:b" ∷ [];
  rail_permission = raw_x402 ∷ casper_x402 ∷ [];
  velocity_limit_per_hour = 5;
}

abbrev agent_spend : SpendPolicy
agent_spend = record {
  spend_cap = 60;
  per_transaction_max = 30;
  service_scope = "svc:b" ∷ [];
  rail_permission = casper_x402 ∷ [];
  velocity_limit_per_hour = 9;
}

abbrev org_allocation : AllocationPolicy
org_allocation = record {
  total_budget = 500;
  per_agent_max = 50;
  cooldown_seconds = 60;
  allowed_destinations = "00aa" ∷ [];
}

abbrev input : CompileInput
input = record {
  agent_id = 1;
  org_id = 2;
  policy_id = "policy_a";
  policy_epoch = 3;
  spend_layers = org_spend ∷ agent_spend ∷ [];
  allocation_layers = org_allocation ∷ [];
}

compile_spend-layers :
    compile_spend (org_spend ∷ agent_spend ∷ [])
    ≡ some (record {
      spend_cap = 60;
      per_transaction_max = 20;
      service_scope = "svc:b" ∷ [];
      rail_permission = casper_x402 ∷ [];
      velocity_limit_per_hour = 5;
    })
unfolding compile_spend meet_spend reduce smaller intersect_all in_every
compile_spend-layers = refl

compile_effective_policy-IsMeet_example : Compiled input (compile_effective_policy input)
compile_effective_policy-IsMeet_example = compile_effective_policy-IsMeet input
