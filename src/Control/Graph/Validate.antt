-- ===== src/Control/Graph/Validate.antt =====
-- control/graph-builder/validate.ts on a graph that `GraphSchema` has parsed. The texts of the errors
-- are left out, and what they mention is kept.
use casper_agops_server.Prelude.{
  ℕ, String, Bool, not, ◌&&◌, Option, none, some, List, [], ◌∷◌, ◌++◌, length, select, find, ltb,
  ◌=?◌, ◌==◌, includes, is_some, if◌then◌else◌,
}
use casper_agops_server.Control.Policy.{
  cspr_trade, rail_eq, AllocationPolicy, compile_spend, compile_allocation,
}
use casper_agops_server.Control.Graph.{
  org_ceilings, fleets, agents, attached_guardrails, spend_layer,
}
use casper_agops_server.Control.Canvas.{NodeId, same_id, Agent, is_kind, contains, Edge, Graph}

-- What `validateGraph` reports.
pub data GraphError : Type 0 where
  org_ceiling_count : (found : ℕ) → GraphError
  no_fleet fleet_not_contained : GraphError
  agent_not_contained : NodeId → (found : ℕ) → GraphError
  no_trade_guardrail : NodeId → GraphError
  sub_cap_exceeded :
      NodeId → (sub_cap per_agent_max : ℕ) → (compiled : Option AllocationPolicy) → GraphError
  spend_layer_invalid : NodeId → GraphError

unfoldable pub shape_errors :
    List (NodeId × AllocationPolicy) → List (NodeId × String) → List GraphError
shape_errors os fs =
    (if length os =? 1 then [] else org_ceiling_count (length os) ∷ [])
    ++ (if length fs =? 0 then no_fleet ∷ [] else [])

abbrev pub links : NodeId → NodeId → Edge → Bool
links a b e = same_id e.from a && same_id e.to b && is_kind e.kind contains

unfoldable pub fleet_errors :
    List (NodeId × AllocationPolicy) → List (NodeId × String) → List Edge → List GraphError
fleet_errors ((oid, o) ∷ os) ((fid, f) ∷ fs) es =
    if is_some (find (links oid fid) es) then [] else fleet_not_contained ∷ []
fleet_errors _ _ es = []

abbrev pub is_parent : List (NodeId × String) → NodeId → Edge → Bool
is_parent fs id e =
    same_id e.to id && is_kind e.kind contains && is_some (find (λ f. same_id f.0 e.from) fs)

unfoldable pub containment_errors :
    List (NodeId × String) → List Edge → List (NodeId × Agent) → List GraphError
containment_errors fs es [] = []
containment_errors fs es ((id, a) ∷ as') =
    let rest = containment_errors fs es as' in
    if length (select (is_parent fs id) es) =? 1
    then rest
    else agent_not_contained id (length (select (is_parent fs id) es)) ∷ rest

abbrev pub trades : Agent → Bool
trades a = includes a.allowed_actions cspr_trade

unfoldable pub trade_errors : Graph → List (NodeId × Agent) → List GraphError
unfolding attached_guardrails
trade_errors g [] = []
trade_errors g ((id, a) ∷ as') =
    let rest = trade_errors g as' in
    if not (trades a)
    then rest
    else if is_some (find (λ r. r.kind == cspr_trade) (attached_guardrails id g))
    then rest
    else no_trade_guardrail id ∷ rest

abbrev pub allocation_layer : AllocationPolicy → Agent → AllocationPolicy
allocation_layer o a = record o { total_budget = a.sub_cap; per_agent_max = a.sub_cap }

unfoldable pub cap_error : AllocationPolicy → NodeId → Agent → List GraphError
cap_error o id a =
    if ltb o.per_agent_max a.sub_cap
    then sub_cap_exceeded id a.sub_cap o.per_agent_max
        (compile_allocation (o ∷ allocation_layer o a ∷ []))
      ∷ []
    else []

unfoldable pub spend_error : NodeId → Agent → List GraphError
spend_error id a = elim (compile_spend (spend_layer a ∷ [])) [
  | none ↦ spend_layer_invalid id ∷ []
  | some p ↦ []
]

unfoldable pub cap_errors : AllocationPolicy → List (NodeId × Agent) → List GraphError
unfolding cap_error spend_error
cap_errors o [] = []
cap_errors o ((id, a) ∷ as') = cap_error o id a ++ (spend_error id a ++ cap_errors o as')

unfoldable pub org_errors :
    List (NodeId × AllocationPolicy) → List (NodeId × Agent) → List GraphError
unfolding cap_errors
org_errors [] as' = []
org_errors ((oid, o) ∷ os) as' = cap_errors o as'

-- `validateGraph`: a graph is valid when this is empty.
unfoldable pub validate_graph : Graph → List GraphError
unfolding shape_errors fleet_errors containment_errors trade_errors org_errors
validate_graph g =
    shape_errors (org_ceilings g.nodes) (fleets g.nodes)
    ++ (fleet_errors (org_ceilings g.nodes) (fleets g.nodes) g.edges
        ++ (containment_errors (fleets g.nodes) g.edges (agents g.nodes)
            ++ (trade_errors g (agents g.nodes)
                ++ org_errors (org_ceilings g.nodes) (agents g.nodes))))
