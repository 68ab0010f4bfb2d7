-- ===== src/Control/Graph/Validity.antt =====
-- What a graph that passes validation has, and that a drawn fleet does not pass.
use mathlib.Core.List.{append_assoc}
use casper_agops_server.Prelude.{
  ℕ, suc, ◌≤◌, String, true, some, List, [], ◌∷◌, ◌++◌, map, ◌≡◌, ◌≢◌, inl, inr, refl, arith, ◌∙◌,
  ap, sym, All, select, find, is_some, includes, ◌==◌, if◌then◌else◌, Bool-cases,
}
use casper_agops_server.Control.Policy.{AllocationPolicy, cspr_trade, rail_eq}
use casper_agops_server.Control.Graph.{
  agent_of, guardrail_nodes, grant_nodes, rail_nodes, org_ceilings, fleets, agents,
  CompiledFlowRole, CompiledGraphConfig, compile_role, compile_parts, compile_graph_to_config,
  attached_guardrails, guardrail_edges, role_nodes, role_edges, grant_edges, config_to_graph,
}
use casper_agops_server.Control.Canvas.{
  NodeId, agent_id, Agent, Guardrail, Edge, Graph, GrantIntent,
}
use casper_agops_server.Control.Graph.Validate.{
  is_parent, containment_errors, trades, trade_errors, cap_error, spend_error, cap_errors,
  org_errors, shape_errors, fleet_errors, validate_graph,
}

nil_append : {A : Type 0} (xs ys : List A) → xs ++ ys ≡ [] → (xs ≡ []) × (ys ≡ [])
nil_append [] ys e = (refl, e)
nil_append (x ∷ xs) ys e = absurd (cc)

-- A trading role has a guardrail of the trading rail.
pub IsGuarded : CompiledFlowRole → Type 0
IsGuarded r =
    (if includes r.allowed_actions cspr_trade
      then is_some (find (λ g. g.kind == cspr_trade) r.guardrails)
      else true)
    ≡ true

cap_errors-within :
    (o : AllocationPolicy) (g : Graph) (as' : List (NodeId × Agent))
    → cap_errors o as' ≡ []
    → All (λ r. r.spend.spend_cap ≤ o.per_agent_max) (map (compile_role g) as')
unfolding cap_errors cap_error compile_role
cap_errors-within o g [] e = tt
cap_errors-within o g ((id, a) ∷ as') e =
    let parts = nil_append (cap_error o id a) (spend_error id a ++ cap_errors o as') e in
    (
      ground (arith, parts.0),
      cap_errors-within o g as' (nil_append (spend_error id a) (cap_errors o as') parts.1).1,
    )

trade_errors-IsGuarded :
    (g : Graph) (as' : List (NodeId × Agent))
    → trade_errors g as' ≡ []
    → All IsGuarded (map (compile_role g) as')
unfolding trade_errors compile_role IsGuarded
trade_errors-IsGuarded g [] e = tt
trade_errors-IsGuarded g ((id, a) ∷ as') e = elim (Bool-cases (trades a)) [
  | inr idle ↦ (ground (arith, idle, e), trade_errors-IsGuarded g as' (ground (arith, idle, e)))
  | inl busy ↦
      elim (Bool-cases (is_some (find (λ r. r.kind == cspr_trade) (attached_guardrails id g)))) [
        | inl has ↦ (
          ground (arith, busy, has, e),
          trade_errors-IsGuarded g as' (ground (arith, busy, has, e)),
        )
        | inr lacks ↦ absurd (ground (arith, busy, lacks, e))
      ]
]

valid_parts :
    (g : Graph) (os : List (NodeId × AllocationPolicy)) (fs : List (NodeId × String))
    → shape_errors os fs ≡ []
    → trade_errors g (agents g.nodes) ≡ []
    → org_errors os (agents g.nodes) ≡ []
    → (c : CompiledGraphConfig) × (compile_parts os fs g ≡ some c)
      × All (λ r. r.spend.spend_cap ≤ c.org_ceiling.per_agent_max) c.flow.roles
      × All IsGuarded c.flow.roles
unfolding compile_parts shape_errors org_errors
valid_parts g [] fs shape trade org = absurd (ground (arith, shape))
valid_parts g (o ∷ os) [] shape trade org = absurd (ground (arith, shape))
valid_parts g ((oid, o) ∷ os) ((fid, f) ∷ fs) shape trade org = (
  _,
  refl,
  cap_errors-within o g (agents g.nodes) org,
  trade_errors-IsGuarded g (agents g.nodes) trade,
)

-- A graph that passes validation compiles; in what it compiles to no role may spend more than the
-- ceiling of an agent, and every role that may trade has a guardrail for it.
pub validate-compile_graph_to_config :
    (g : Graph)
    → validate_graph g ≡ []
    → (c : CompiledGraphConfig) × (compile_graph_to_config g ≡ some c)
      × All (λ r. r.spend.spend_cap ≤ c.org_ceiling.per_agent_max) c.flow.roles
      × All IsGuarded c.flow.roles
unfolding validate_graph compile_graph_to_config
validate-compile_graph_to_config g e =
    let os = org_ceilings g.nodes in
    let fs = fleets g.nodes in
    let shape = nil_append (shape_errors os fs) _ e in
    let contained = nil_append (fleet_errors os fs g.edges) _ shape.1 in
    let parents = nil_append (containment_errors fs g.edges (agents g.nodes)) _ contained.1 in
    let trade = nil_append (trade_errors g (agents g.nodes)) _ parents.1 in
    valid_parts g os fs shape.0 trade.0 trade.1

guardrail_edges-parents :
    (fs : List (NodeId × String)) (id from : NodeId) (i j : ℕ) (gs : List Guardrail)
    (es : List Edge)
    → select (is_parent fs id) (guardrail_edges from i j gs ++ es) ≡ select (is_parent fs id) es
unfolding guardrail_edges
guardrail_edges-parents fs id from i j [] es = refl
guardrail_edges-parents fs id from i j (g ∷ gs) es =
    ground (arith, guardrail_edges-parents fs id from i (suc j) gs es)

-- No edge that is drawn for the roles and the grants contains a node.
role_edges-parents :
    (fs : List (NodeId × String)) (id : NodeId) (i : ℕ) (rs : List CompiledFlowRole)
    (es : List Edge)
    → select (is_parent fs id) (role_edges i rs ++ es) ≡ select (is_parent fs id) es
unfolding role_edges
role_edges-parents fs id i [] es = refl
role_edges-parents fs id i (r ∷ rs) es = ground (
  arith,
  append_assoc (guardrail_edges (agent_id i r.role) i 0 r.guardrails) (role_edges (suc i) rs) es,
  guardrail_edges-parents fs id (agent_id i r.role) i 0 r.guardrails (role_edges (suc i) rs ++ es),
  role_edges-parents fs id (suc i) rs es,
)

grant_edges-parents :
    (fs : List (NodeId × String)) (id : NodeId) (owners : List (NodeId × Agent)) (i : ℕ)
    (gs : List GrantIntent)
    → select (is_parent fs id) (grant_edges owners i gs) ≡ []
unfolding grant_edges
grant_edges-parents fs id owners i [] = refl
grant_edges-parents fs id owners i (g ∷ gs) =
    ground (arith, grant_edges-parents fs id owners (suc i) gs)

drawn_parents :
    (fs : List (NodeId × String)) (i : ℕ) (role : String) (c : CompiledGraphConfig)
    → select (is_parent fs (agent_id i role)) (config_to_graph c).edges ≡ []
unfolding config_to_graph
drawn_parents fs i role c = ground (
  arith,
  role_edges-parents fs (agent_id i role) 0 c.flow.roles
      (grant_edges (agents (role_nodes 0 c.flow.roles)) 0 c.grant_intents),
  grant_edges-parents fs (agent_id i role) (agents (role_nodes 0 c.flow.roles)) 0 c.grant_intents,
)

containment_errors-orphan :
    (fs : List (NodeId × String)) (es : List Edge) (id : NodeId) (a : Agent)
    (as' : List (NodeId × Agent))
    → select (is_parent fs id) es ≡ []
    → containment_errors fs es ((id, a) ∷ as') ≢ []
unfolding containment_errors
containment_errors-orphan fs es id a as' none_found e = ground (arith, none_found, e)

drawn_agents :
    (c : CompiledGraphConfig) (r : CompiledFlowRole) (rs : List CompiledFlowRole)
    → c.flow.roles ≡ r ∷ rs
    → agents (config_to_graph c).nodes
      ≡ (agent_id 0 r.role, agent_of r)
        ∷ agents (
            guardrail_nodes 0 0 r.guardrails
            ++ role_nodes 1 rs
            ++ (grant_nodes 0 c.grant_intents ++ rail_nodes 0 c.service_rails))
unfolding config_to_graph agents role_nodes
drawn_agents c r rs e = ground (arith, e)

-- The drawing of a configuration that has a role is not valid: no fleet contains the role's agent.
pub config_to_graph-invalid :
    (c : CompiledGraphConfig) (r : CompiledFlowRole) (rs : List CompiledFlowRole)
    → c.flow.roles ≡ r ∷ rs
    → validate_graph (config_to_graph c) ≢ []
unfolding validate_graph
config_to_graph-invalid c r rs e valid =
    let g = config_to_graph c in
    let fs = fleets g.nodes in
    let contained =
      nil_append (fleet_errors (org_ceilings g.nodes) fs g.edges) _
        (nil_append (shape_errors (org_ceilings g.nodes) fs) _ valid).1 in
    let parents = nil_append (containment_errors fs g.edges (agents g.nodes)) _ contained.1 in
    containment_errors-orphan fs g.edges (agent_id 0 r.role) (agent_of r) _
      (drawn_parents fs 0 r.role c)
      (sym (ap (containment_errors fs g.edges) (drawn_agents c r rs e)) ∙ parents.0)
