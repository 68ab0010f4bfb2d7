-- ===== src/Control/Graph/Tests.antt =====
-- A fleet with one trader.
use casper_agops_server.Prelude.{◌≤◌, none, some, [], ◌∷◌, ◌≡◌, ◌≢◌, refl, All}
use casper_agops_server.Control.Policy.{cspr_trade, casper_x402, rail_eq, compile_spend}
use casper_agops_server.Control.Graph.{
  CompiledFlowRole, CompiledGraphConfig, compile_graph_to_config, config_to_graph, org_ceilings,
  fleets, agents, guardrails, attached_guardrails, children_of, get_guardrails, get_guardrail,
  role_nodes, role_edges, grant_nodes, grant_edges, rail_nodes, guardrail_nodes, guardrail_edges,
}
use casper_agops_server.Control.Canvas.{agent_id, fleet_id, contains, pending, Graph}
use casper_agops_server.Control.Graph.Validate.{
  validate_graph, shape_errors, fleet_errors, containment_errors, trade_errors, org_errors,
  cap_errors, cap_error, spend_error,
}
use casper_agops_server.Control.Graph.RoundTrip.{IsCompiledRole, compile-config_to_graph}
use casper_agops_server.Control.Graph.Validity.{
  IsGuarded, validate-compile_graph_to_config, config_to_graph-invalid,
}

abbrev trader : CompiledFlowRole
trader = record {
  role = "trader";
  agent_name = "swap bot";
  allowed_actions = cspr_trade ∷ casper_x402 ∷ [];
  service_scope = "cspr.trade:swap" ∷ [];
  spend = record {
    spend_cap = 40;
    per_transaction_max = 40;
    service_scope = "cspr.trade:swap" ∷ [];
    rail_permission = cspr_trade ∷ casper_x402 ∷ [];
    velocity_limit_per_hour = 10;
  };
  guardrails =
      record {
        kind = cspr_trade;
        slippage_bps = some 50;
        allowed_pairs = none;
        risk_labels = some ("low" ∷ []);
      }
      ∷ [];
}

abbrev fleet_config : CompiledGraphConfig
fleet_config = record {
  fleet_name = "desk";
  org_ceiling = record {
    total_budget = 100;
    per_agent_max = 50;
    cooldown_seconds = 60;
    allowed_destinations = "00aa" ∷ [];
  };
  flow = record { name = "swaps"; version = 2; roles = trader ∷ [] };
  grant_intents = record { agent_ref = agent_id 0 "trader"; status = pending } ∷ [];
  service_rails = record { resource_id = "svc"; destination = "00aa" } ∷ [];
}

-- The drawing with the edge that the canvas asks for.
abbrev canvas : Graph
canvas =
    let g = config_to_graph fleet_config in
    record g {
      edges = record { from = fleet_id; to = agent_id 0 "trader"; kind = contains } ∷ g.edges;
    }

trader-IsCompiledRole : All IsCompiledRole fleet_config.flow.roles
unfolding IsCompiledRole
trader-IsCompiledRole = (refl, tt)

canvas-valid : validate_graph canvas ≡ []
unfolding validate_graph shape_errors fleet_errors containment_errors trade_errors org_errors
    cap_errors cap_error spend_error compile_spend config_to_graph org_ceilings fleets agents
    guardrails attached_guardrails children_of get_guardrails get_guardrail role_nodes role_edges
    grant_nodes grant_edges rail_nodes guardrail_nodes guardrail_edges
canvas-valid = refl

compile-config_to_graph_example :
    compile_graph_to_config (config_to_graph fleet_config) ≡ some fleet_config
compile-config_to_graph_example = compile-config_to_graph fleet_config trader-IsCompiledRole

validate-compile_graph_to_config_example :
    (c : CompiledGraphConfig) × (compile_graph_to_config canvas ≡ some c)
    × All (λ r. r.spend.spend_cap ≤ c.org_ceiling.per_agent_max) c.flow.roles
    × All IsGuarded c.flow.roles
validate-compile_graph_to_config_example = validate-compile_graph_to_config canvas canvas-valid

config_to_graph-invalid_example : validate_graph (config_to_graph fleet_config) ≢ []
config_to_graph-invalid_example = config_to_graph-invalid fleet_config trader [] refl
