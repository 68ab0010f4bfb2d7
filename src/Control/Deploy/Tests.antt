-- ===== src/Control/Deploy/Tests.antt =====
-- A fleet whose two agents have the same role.
use casper_agops_server.Prelude.{ℕ, some, none, [], ◌∷◌, select, ◌≡◌, refl}
use casper_agops_server.Control.Policy.{casper_x402, compile_spend}
use casper_agops_server.Control.Store.{
  Store, register_agent, has_org, create_policy_version, assign_policy, max_version, bump_epoch,
}
use casper_agops_server.Control.Graph.{
  org_ceilings, fleets, flows, agents, guardrails, grants, rails, children_of, get_guardrails,
  get_guardrail, attached_guardrails, compile_graph_to_config, compile_parts, compile_role,
  flow_name, flow_version,
}
use casper_agops_server.Control.Canvas.{
  named, org_ceiling, fleet, agent, delegated_key_grant, pending, contains, Agent, Graph,
}
use casper_agops_server.Control.Graph.Validate.{
  validate_graph, shape_errors, fleet_errors, containment_errors, trade_errors, org_errors,
  cap_errors, cap_error, spend_error,
}
use casper_agops_server.Control.Flow.{
  attach_trading_flow, attach_role, attach_allocation, attach_assignment, role_agent,
}
use casper_agops_server.Control.Deploy.{
  DeployedAgent, deployed, policy_of_role, pending_grants, created_at, attach_created,
  create_agents, node_of_role, to_compiled_trading_flow, deploy_graph,
}
use casper_agops_server.Control.Deploy.Shadowed.{is_for, deploy_graph-shadowed}

abbrev reader : Agent
reader = record {
  name = "reader";
  role = "data";
  allowed_actions = casper_x402 ∷ [];
  service_scope = "svc" ∷ [];
  sub_cap = 10;
  velocity_limit_per_hour = 60;
}

abbrev canvas : Graph
canvas = record {
  nodes =
      record {
        id = named "org";
        config = org_ceiling (record {
          total_budget = 100;
          per_agent_max = 50;
          cooldown_seconds = 0;
          allowed_destinations = [];
        });
      }
      ∷ record { id = named "fleet"; config = fleet "desk" }
      ∷ record { id = named "one"; config = agent reader }
      ∷ record { id = named "two"; config = agent reader }
      ∷ record {
        id = named "grant";
        config = delegated_key_grant (record { agent_ref = named "two"; status = pending });
      }
      ∷ [];
  edges =
      record { from = named "org"; to = named "fleet"; kind = contains }
      ∷ record { from = named "fleet"; to = named "one"; kind = contains }
      ∷ record { from = named "fleet"; to = named "two"; kind = contains }
      ∷ [];
}

abbrev store : Store
store = record {
  orgs = record { org_id = 1; policy_epoch = 0 } ∷ [];
  teams = [];
  agents = [];
  policies = [];
  assignments = [];
  next_id = 2;
}

-- The two agents that are created: both stand for the later node, and have its policy by name.
abbrev deployed_agent : ℕ → DeployedAgent
deployed_agent id = record {
  created = record {
    node_id = named "two";
    role = "data";
    agent_id = id;
    name = "reader";
    delegated_public_key = none;
  };
  policy_id = some 6;
}

canvas-deployed :
    (deploy_graph none (λ n. n) 1 canvas store).1
    ≡ deployed (deployed_agent 2 ∷ deployed_agent 3 ∷ []) []
unfolding deploy_graph validate_graph shape_errors fleet_errors containment_errors trade_errors
    org_errors cap_errors cap_error spend_error compile_spend org_ceilings fleets flows agents
    guardrails grants rails children_of get_guardrails get_guardrail attached_guardrails
    compile_graph_to_config compile_parts compile_role flow_name flow_version create_agents
    node_of_role register_agent attach_created to_compiled_trading_flow attach_trading_flow
    attach_role attach_allocation attach_assignment role_agent has_org create_policy_version
    assign_policy max_version bump_epoch policy_of_role pending_grants created_at
canvas-deployed = refl

-- The graph is valid and the deployment succeeds, but no policy is on the first agent.
deploy_graph-shadowed_example :
    select (is_for 2) (deploy_graph none (λ n. n) 1 canvas store).0.assignments ≡ []
unfolding role_agent
deploy_graph-shadowed_example =
    deploy_graph-shadowed none (λ n. n) 1 canvas store (deployed_agent 2) (deployed_agent 3 ∷ []) []
      tt canvas-deployed refl
