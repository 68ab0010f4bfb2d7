-- ===== src/Control/Graph.antt =====
-- control/graph-builder/compiler.ts: the compilation of a canvas to a configuration, and back.
pub mod Validate
pub mod Drawing
pub mod RoundTrip
pub mod Validity
mod Tests
use casper_agops_server.Control.Canvas.{
  NodeId, same_id, Agent, Guardrail, GrantStatus, GrantIntent, ServiceRail, Config, Node, EdgeKind,
  is_kind, Edge, Graph, named, org_ceiling_id, fleet_id, trading_flow_id, agent_id, guardrail_id,
  grant_id, rail_id, pending, granted, revoked, org_ceiling, fleet, agent, guardrail, trading_flow,
  delegated_key_grant, service_rail, contains, governed_by, attaches_to,
}
use casper_agops_server.Prelude.{
  ℕ, suc, String, Bool, true, false, not, ◌&&◌, Option, none, some, List, [], ◌∷◌, ◌++◌, map,
  length, select, find, ltb, ◌=?◌, ◌==◌, string_eq, includes, is_some, if◌then◌else◌,
}
use casper_agops_server.Control.Policy.{
  Rail, cspr_trade, rail_eq, SpendPolicy, AllocationPolicy, compile_spend, compile_allocation,
}

-- `nodesByType`, at each type.
unfoldable pub org_ceilings : List Node → List (NodeId × AllocationPolicy)
org_ceilings [] = []
org_ceilings (n ∷ ns) = elim n.config [
  | org_ceiling a ↦ (n.id, a) ∷ org_ceilings ns
  | _ ↦ org_ceilings ns
]

unfoldable pub fleets : List Node → List (NodeId × String)
fleets [] = []
fleets (n ∷ ns) = elim n.config [ fleet s ↦ (n.id, s) ∷ fleets ns | _ ↦ fleets ns ]

unfoldable pub flows : List Node → List (String × ℕ)
flows [] = []
flows (n ∷ ns) = elim n.config [ trading_flow s v ↦ (s, v) ∷ flows ns | _ ↦ flows ns ]

unfoldable pub agents : List Node → List (NodeId × Agent)
agents [] = []
agents (n ∷ ns) = elim n.config [ agent a ↦ (n.id, a) ∷ agents ns | _ ↦ agents ns ]

unfoldable pub guardrails : List Node → List (NodeId × Guardrail)
guardrails [] = []
guardrails (n ∷ ns) = elim n.config [ guardrail g ↦ (n.id, g) ∷ guardrails ns | _ ↦ guardrails ns ]

unfoldable pub grants : List Node → List GrantIntent
grants [] = []
grants (n ∷ ns) = elim n.config [ delegated_key_grant g ↦ g ∷ grants ns | _ ↦ grants ns ]

unfoldable pub rails : List Node → List ServiceRail
rails [] = []
rails (n ∷ ns) = elim n.config [ service_rail r ↦ r ∷ rails ns | _ ↦ rails ns ]

abbrev pub goes_from : NodeId → EdgeKind → Edge → Bool
goes_from id k e = same_id e.from id && is_kind e.kind k

-- `childrenOf`.
unfoldable pub children_of : NodeId → EdgeKind → List Edge → List NodeId
children_of id k es = map (λ e. e.to) (select (goes_from id k) es)

-- `Map.get` of a map that is built from a list: the last entry of an id counts.
unfoldable pub get_guardrail : NodeId → List (NodeId × Guardrail) → Option Guardrail
get_guardrail id [] = none
get_guardrail id ((k, g) ∷ l) =
    let rest = get_guardrail id l in
    elim rest [ some h ↦ some h | none ↦ if same_id k id then some g else none ]

unfoldable pub get_guardrails : List NodeId → List (NodeId × Guardrail) → List Guardrail
unfolding get_guardrail
get_guardrails [] l = []
get_guardrails (id ∷ ids) l =
    let rest = get_guardrails ids l in elim (get_guardrail id l) [ none ↦ rest | some g ↦ g ∷ rest ]

-- The guardrails that govern an agent.
unfoldable pub attached_guardrails : NodeId → Graph → List Guardrail
unfolding children_of get_guardrails guardrails
attached_guardrails id g = get_guardrails (children_of id governed_by g.edges) (guardrails g.nodes)

pub record CompiledFlowRole : Type 0 where
  pub role : String
  pub agent_name : String
  pub allowed_actions : List Rail
  pub service_scope : List String
  pub spend : SpendPolicy
  pub guardrails : List Guardrail

pub record CompiledFlow : Type 0 where
  pub name : String
  pub version : ℕ
  pub roles : List CompiledFlowRole

pub record CompiledGraphConfig : Type 0 where
  pub fleet_name : String
  pub org_ceiling : AllocationPolicy
  pub flow : CompiledFlow
  pub grant_intents : List GrantIntent
  pub service_rails : List ServiceRail

abbrev pub spend_layer : Agent → SpendPolicy
spend_layer a = record {
  spend_cap = a.sub_cap;
  per_transaction_max = a.sub_cap;
  service_scope = a.service_scope;
  rail_permission = a.allowed_actions;
  velocity_limit_per_hour = a.velocity_limit_per_hour;
}

unfoldable pub compile_role : Graph → NodeId × Agent → CompiledFlowRole
unfolding attached_guardrails
compile_role g (id, a) = record {
  role = a.role;
  agent_name = a.name;
  allowed_actions = a.allowed_actions;
  service_scope = a.service_scope;
  spend = spend_layer a;
  guardrails = attached_guardrails id g;
}

unfoldable pub flow_name : String → List (String × ℕ) → String
flow_name fleet_name [] = fleet_name
flow_name fleet_name ((s, v) ∷ l) = s

unfoldable pub flow_version : List (String × ℕ) → ℕ
flow_version [] = 1
flow_version ((s, v) ∷ l) = v

unfoldable pub compile_parts :
    List (NodeId × AllocationPolicy) → List (NodeId × String) → Graph → Option CompiledGraphConfig
unfolding compile_role flow_name flow_version
compile_parts [] fs g = none
compile_parts (o ∷ os) [] g = none
compile_parts ((oid, o) ∷ os) ((fid, f) ∷ fs) g = some (record {
  fleet_name = f;
  org_ceiling = o;
  flow = record {
    name = flow_name f (flows g.nodes);
    version = flow_version (flows g.nodes);
    roles = map (compile_role g) (agents g.nodes);
  };
  grant_intents = grants g.nodes;
  service_rails = rails g.nodes;
})

-- `compileGraphToConfig`; `none` is the throw.
unfoldable pub compile_graph_to_config : Graph → Option CompiledGraphConfig
unfolding compile_parts
compile_graph_to_config g = compile_parts (org_ceilings g.nodes) (fleets g.nodes) g

-- `configToGraph`: the nodes and edges of each role's guardrails, of the roles, and of the grants.
pub guardrail_nodes : ℕ → ℕ → List Guardrail → List Node
guardrail_nodes i j [] = []
guardrail_nodes i j (g ∷ gs) =
    record { id = guardrail_id i j; config = guardrail g } ∷ guardrail_nodes i (suc j) gs

pub guardrail_edges : NodeId → ℕ → ℕ → List Guardrail → List Edge
guardrail_edges from i j [] = []
guardrail_edges from i j (g ∷ gs) =
    record { from = from; to = guardrail_id i j; kind = governed_by }
    ∷ guardrail_edges from i (suc j) gs

abbrev pub agent_of : CompiledFlowRole → Agent
agent_of r = record {
  name = r.agent_name;
  role = r.role;
  allowed_actions = r.allowed_actions;
  service_scope = r.service_scope;
  sub_cap = r.spend.spend_cap;
  velocity_limit_per_hour = r.spend.velocity_limit_per_hour;
}

pub role_nodes : ℕ → List CompiledFlowRole → List Node
unfolding guardrail_nodes
role_nodes i [] = []
role_nodes i (r ∷ rs) =
    record { id = agent_id i r.role; config = agent (agent_of r) }
      ∷ guardrail_nodes i 0 r.guardrails
    ++ role_nodes (suc i) rs

pub role_edges : ℕ → List CompiledFlowRole → List Edge
unfolding guardrail_edges
role_edges i [] = []
role_edges i (r ∷ rs) =
    record { from = trading_flow_id; to = agent_id i r.role; kind = attaches_to }
      ∷ guardrail_edges (agent_id i r.role) i 0 r.guardrails
    ++ role_edges (suc i) rs

pub grant_nodes : ℕ → List GrantIntent → List Node
grant_nodes i [] = []
grant_nodes i (g ∷ gs) =
    record { id = grant_id i; config = delegated_key_grant g } ∷ grant_nodes (suc i) gs

pub grant_edges : List (NodeId × Agent) → ℕ → List GrantIntent → List Edge
grant_edges owners i [] = []
grant_edges owners i (g ∷ gs) =
    let rest = grant_edges owners (suc i) gs in
    elim (find (λ o. same_id o.0 g.agent_ref) owners) [
      | none ↦ rest
      | some o ↦ record { from = o.0; to = grant_id i; kind = attaches_to } ∷ rest
    ]

pub rail_nodes : ℕ → List ServiceRail → List Node
rail_nodes i [] = []
rail_nodes i (r ∷ rs) = record { id = rail_id i; config = service_rail r } ∷ rail_nodes (suc i) rs

pub config_to_graph : CompiledGraphConfig → Graph
unfolding role_nodes role_edges grant_nodes grant_edges rail_nodes agents
config_to_graph c = record {
  nodes =
      record { id = org_ceiling_id; config = org_ceiling c.org_ceiling }
        ∷ record { id = fleet_id; config = fleet c.fleet_name }
        ∷ record { id = trading_flow_id; config = trading_flow c.flow.name c.flow.version }
        ∷ role_nodes 0 c.flow.roles
      ++ (grant_nodes 0 c.grant_intents ++ rail_nodes 0 c.service_rails);
  edges =
      record { from = org_ceiling_id; to = fleet_id; kind = contains }
        ∷ record { from = fleet_id; to = trading_flow_id; kind = contains }
        ∷ role_edges 0 c.flow.roles
      ++ grant_edges (agents (role_nodes 0 c.flow.roles)) 0 c.grant_intents;
}
