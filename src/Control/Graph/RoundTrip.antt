-- ===== src/Control/Graph/RoundTrip.antt =====
-- A configuration that is drawn on the canvas compiles to itself.
use mathlib.Core.List.{append_assoc, append-nil}
use casper_agops_server.Prelude.{
  ℕ, suc, ◌≤◌, String, some, List, [], ◌∷◌, ◌++◌, map, ◌≡◌, ◌∙◌, ap, refl, arith, All,
}
use casper_agops_server.Control.Graph.{
  org_ceilings, fleets, flows, agents, guardrails, grants, rails, children_of, get_guardrail,
  get_guardrails, attached_guardrails, CompiledFlowRole, CompiledGraphConfig, spend_layer,
  compile_role, compile_graph_to_config, compile_parts, flow_name, flow_version, guardrail_nodes,
  agent_of, role_nodes, role_edges, grant_nodes, grant_edges, rail_nodes, config_to_graph,
}
use casper_agops_server.Control.Canvas.{
  NodeId, agent_id, guardrail_id, Agent, Guardrail, Node, Edge, Graph, governed_by, GrantIntent,
  ServiceRail,
}
use casper_agops_server.Control.Graph.Drawing.{
  guardrail_ids, role_edges-other, role_edges-own, guardrails-guardrail_nodes,
  get_guardrails-entries, role_nodes-other, role_nodes-before,
}

-- The spend policy of a role is the one that the compiler makes of the role's agent.
unfoldable pub IsCompiledRole : CompiledFlowRole → Type 0
IsCompiledRole r = r.spend ≡ spend_layer (agent_of r)

agents-guardrail_nodes :
    (i j : ℕ) (gs : List Guardrail) (ns : List Node)
    → agents (guardrail_nodes i j gs ++ ns) ≡ agents ns
unfolding agents guardrail_nodes
agents-guardrail_nodes i j [] ns = refl
agents-guardrail_nodes i j (g ∷ gs) ns = agents-guardrail_nodes i (suc j) gs ns

get_guardrails-same :
    (i j : ℕ) (gs : List Guardrail) (l m : List (NodeId × Guardrail))
    → ((p : ℕ) → get_guardrail (guardrail_id i p) l ≡ get_guardrail (guardrail_id i p) m)
    → get_guardrails (guardrail_ids i j gs) l ≡ get_guardrails (guardrail_ids i j gs) m
unfolding get_guardrails
get_guardrails-same i j [] l m e = refl
get_guardrails-same i j (g ∷ gs) l m e = ground (arith, e j, get_guardrails-same i (suc j) gs l m e)

-- A graph that has the edges and the guardrails of the roles from an index on.
record Draws (i : ℕ) (rs : List CompiledFlowRole) (g : Graph) : Type 0 where
  on_edges :
      (k : ℕ) (role : String)
      → i ≤ k
      → children_of (agent_id k role) governed_by g.edges
        ≡ children_of (agent_id k role) governed_by (role_edges i rs)
  on_guardrails :
      (k p : ℕ)
      → i ≤ k
      → get_guardrail (guardrail_id k p) (guardrails g.nodes)
        ≡ get_guardrail (guardrail_id k p) (guardrails (role_nodes i rs))

drawn_guardrails :
    (i : ℕ) (r : CompiledFlowRole) (rs : List CompiledFlowRole) (g : Graph)
    → Draws i (r ∷ rs) g
    → attached_guardrails (agent_id i r.role) g ≡ r.guardrails
unfolding attached_guardrails role_nodes guardrails
drawn_guardrails i r rs g d =
    rw (d.on_edges i r.role (omega arith), role_edges-own i r rs)
      (get_guardrails-same i 0 r.guardrails _ _ (λ p. d.on_guardrails i p (omega arith))
        ∙ ap (get_guardrails (guardrail_ids i 0 r.guardrails))
            (guardrails-guardrail_nodes i 0 r.guardrails (role_nodes (suc i) rs))
        ∙ get_guardrails-entries i 0 r.guardrails (guardrails (role_nodes (suc i) rs))
            (λ l. role_nodes-before i l (suc i) rs (omega arith)))

drawn_rest :
    (i : ℕ) (r : CompiledFlowRole) (rs : List CompiledFlowRole) (g : Graph)
    → Draws i (r ∷ rs) g
    → Draws (suc i) rs g
drawn_rest i r rs g d = record {
  on_edges =
      λ k role n. d.on_edges k role (omega arith) ∙ role_edges-other role k i r rs (ground arith);
  on_guardrails =
      λ k p n. d.on_guardrails k p (omega arith) ∙ role_nodes-other k p i r rs (ground arith);
}

compile-role_nodes :
    (i : ℕ) (rs : List CompiledFlowRole) (g : Graph)
    → All IsCompiledRole rs
    → Draws i rs g
    → map (compile_role g) (agents (role_nodes i rs)) ≡ rs
unfolding agents role_nodes compile_role IsCompiledRole
compile-role_nodes i [] g all d = refl
compile-role_nodes i (r ∷ rs) g all d = ground (
  arith,
  all.0,
  agents-guardrail_nodes i 0 r.guardrails (role_nodes (suc i) rs),
  drawn_guardrails i r rs g d,
  compile-role_nodes (suc i) rs g all.1 (drawn_rest i r rs g d),
)

-- What follows the roles' nodes has neither agents nor guardrails.
agents-role_nodes :
    (i : ℕ) (rs : List CompiledFlowRole) (ns : List Node)
    → agents ns ≡ []
    → agents (role_nodes i rs ++ ns) ≡ agents (role_nodes i rs)
unfolding agents role_nodes
agents-role_nodes i [] ns e = e
agents-role_nodes i (r ∷ rs) ns e = ground (
  arith,
  append_assoc (guardrail_nodes i 0 r.guardrails) (role_nodes (suc i) rs) ns,
  agents-guardrail_nodes i 0 r.guardrails (role_nodes (suc i) rs),
  agents-guardrail_nodes i 0 r.guardrails (role_nodes (suc i) rs ++ ns),
  agents-role_nodes (suc i) rs ns e,
)

guardrails-append : (ms ns : List Node) → guardrails (ms ++ ns) ≡ guardrails ms ++ guardrails ns
unfolding guardrails
guardrails-append [] ns = refl
guardrails-append (m ∷ ms) ns = ground (arith, guardrails-append ms ns)

grant_nodes-parts :
    (i : ℕ) (gs : List GrantIntent) (ns : List Node)
    → (agents (grant_nodes i gs ++ ns) ≡ agents ns)
      × (guardrails (grant_nodes i gs ++ ns) ≡ guardrails ns)
      × (grants (grant_nodes i gs ++ ns) ≡ gs ++ grants ns)
      × (rails (grant_nodes i gs ++ ns) ≡ rails ns)
unfolding agents guardrails grants rails grant_nodes
grant_nodes-parts i [] ns = (refl, refl, refl, refl)
grant_nodes-parts i (g ∷ gs) ns =
    let rest = grant_nodes-parts (suc i) gs ns in (rest.0, rest.1, ap (λ l. g ∷ l) rest.2, rest.3)

rail_nodes-parts :
    (i : ℕ) (rs : List ServiceRail)
    → (agents (rail_nodes i rs) ≡ [])
      × (guardrails (rail_nodes i rs) ≡ [])
      × (grants (rail_nodes i rs) ≡ [])
      × (rails (rail_nodes i rs) ≡ rs)
unfolding agents guardrails grants rails rail_nodes
rail_nodes-parts i [] = (refl, refl, refl, refl)
rail_nodes-parts i (r ∷ rs) =
    let rest = rail_nodes-parts (suc i) rs in (rest.0, rest.1, rest.2, ap (λ l. r ∷ l) rest.3)

guardrail_nodes-skip :
    (i j : ℕ) (gs : List Guardrail) (ns : List Node)
    → (grants (guardrail_nodes i j gs ++ ns) ≡ grants ns)
      × (rails (guardrail_nodes i j gs ++ ns) ≡ rails ns)
unfolding grants rails guardrail_nodes
guardrail_nodes-skip i j [] ns = (refl, refl)
guardrail_nodes-skip i j (g ∷ gs) ns = guardrail_nodes-skip i (suc j) gs ns

role_nodes-skip :
    (i : ℕ) (rs : List CompiledFlowRole) (ns : List Node)
    → (grants (role_nodes i rs ++ ns) ≡ grants ns) × (rails (role_nodes i rs ++ ns) ≡ rails ns)
unfolding grants rails role_nodes
role_nodes-skip i [] ns = (refl, refl)
role_nodes-skip i (r ∷ rs) ns =
    let rest = role_nodes-skip (suc i) rs ns in
    let own = guardrail_nodes-skip i 0 r.guardrails (role_nodes (suc i) rs ++ ns) in
    let same = append_assoc (guardrail_nodes i 0 r.guardrails) (role_nodes (suc i) rs) ns in
    (ap grants same ∙ own.0 ∙ rest.0, ap rails same ∙ own.1 ∙ rest.1)

children_of-grant_edges :
    (id : NodeId) (owners : List (NodeId × Agent)) (i : ℕ) (gs : List GrantIntent) (es : List Edge)
    → children_of id governed_by (es ++ grant_edges owners i gs) ≡ children_of id governed_by es
unfolding children_of grant_edges
children_of-grant_edges id owners i [] [] = refl
children_of-grant_edges id owners i (g ∷ gs) [] =
    ground (arith, children_of-grant_edges id owners (suc i) gs [])
children_of-grant_edges id owners i gs (e ∷ es) =
    ground (arith, children_of-grant_edges id owners i gs es)

abbrev tail_nodes : CompiledGraphConfig → List Node
tail_nodes c = grant_nodes 0 c.grant_intents ++ rail_nodes 0 c.service_rails

tail_nodes-parts :
    (c : CompiledGraphConfig)
    → (agents (tail_nodes c) ≡ [])
      × (guardrails (tail_nodes c) ≡ [])
      × (grants (tail_nodes c) ≡ c.grant_intents)
      × (rails (tail_nodes c) ≡ c.service_rails)
tail_nodes-parts c =
    let gs = grant_nodes-parts 0 c.grant_intents (rail_nodes 0 c.service_rails) in
    let rs = rail_nodes-parts 0 c.service_rails in
    (
      gs.0 ∙ rs.0,
      gs.1 ∙ rs.1,
      gs.2 ∙ ap (λ l. c.grant_intents ++ l) rs.2 ∙ append-nil _,
      gs.3 ∙ rs.3,
    )

config_to_graph-Draws : (c : CompiledGraphConfig) → Draws 0 c.flow.roles (config_to_graph c)
unfolding config_to_graph children_of guardrails get_guardrail
config_to_graph-Draws c = record {
  on_edges = λ k role n.
      children_of-grant_edges (agent_id k role) (agents (role_nodes 0 c.flow.roles)) 0
        c.grant_intents (role_edges 0 c.flow.roles);
  on_guardrails = λ k p n. ap (get_guardrail (guardrail_id k p)) (
      guardrails-append (role_nodes 0 c.flow.roles) (tail_nodes c)
      ∙ ap (λ l. guardrails (role_nodes 0 c.flow.roles) ++ l) (tail_nodes-parts c).1
      ∙ append-nil _);
}

-- A configuration whose roles have the spend policies of their agents is what the compiler makes of
-- its drawing: `configToGraph` loses nothing that `compileGraphToConfig` reads.
pub compile-config_to_graph :
    (c : CompiledGraphConfig)
    → All IsCompiledRole c.flow.roles
    → compile_graph_to_config (config_to_graph c) ≡ some c
unfolding compile_graph_to_config compile_parts config_to_graph org_ceilings fleets flows agents
    grants rails flow_name flow_version
compile-config_to_graph c all = ground (
  arith,
  ap (map (compile_role (config_to_graph c)))
        (agents-role_nodes 0 c.flow.roles (tail_nodes c) (tail_nodes-parts c).0)
      ∙ compile-role_nodes 0 c.flow.roles (config_to_graph c) all (config_to_graph-Draws c),
  (role_nodes-skip 0 c.flow.roles (tail_nodes c)).0,
  (role_nodes-skip 0 c.flow.roles (tail_nodes c)).1,
  (tail_nodes-parts c).2,
  (tail_nodes-parts c).3,
)
