-- ===== src/Control/Graph/Drawing.antt =====
-- The edges and guardrails of the agents that `configToGraph` draws.
use casper_agops_server.Prelude.{
  ℕ, suc, ◌<◌, String, none, List, [], ◌∷◌, ◌++◌, ◌≡◌, ◌≢◌, refl, arith, string_eq, nat_eq,
  beq_refl, =?_refl,
}
use casper_agops_server.Control.Graph.{
  guardrails, children_of, get_guardrail, get_guardrails, CompiledFlowRole, guardrail_nodes,
  guardrail_edges, role_nodes, role_edges,
}
use casper_agops_server.Control.Canvas.{
  NodeId, agent_id, guardrail_id, Guardrail, Node, Edge, governed_by,
}

-- The ids of the guardrails of a role, from a position on.
abbrev pub guardrail_ids : ℕ → ℕ → List Guardrail → List NodeId
guardrail_ids i j [] = []
guardrail_ids i j (g ∷ gs) = guardrail_id i j ∷ guardrail_ids i (suc j) gs

guardrail_edges-own :
    (role : String) (i j : ℕ) (gs : List Guardrail) (es : List Edge)
    → children_of (agent_id i role) governed_by es ≡ []
    → children_of (agent_id i role) governed_by (guardrail_edges (agent_id i role) i j gs ++ es)
      ≡ guardrail_ids i j gs
unfolding children_of guardrail_edges
guardrail_edges-own role i j [] es e = ground (arith, e)
guardrail_edges-own role i j (g ∷ gs) es e =
    ground (arith, beq_refl role, =?_refl i, guardrail_edges-own role i (suc j) gs es e)

guardrail_edges-other :
    (role other : String) (i k j : ℕ) (gs : List Guardrail) (es : List Edge)
    → i ≢ k
    → children_of (agent_id i role) governed_by (guardrail_edges (agent_id k other) k j gs ++ es)
      ≡ children_of (agent_id i role) governed_by es
unfolding children_of guardrail_edges
guardrail_edges-other role other i k j [] es n = refl
guardrail_edges-other role other i k j (g ∷ gs) es n =
    ground (arith, n, guardrail_edges-other role other i k (suc j) gs es n)

pub role_edges-other :
    (role : String) (k i : ℕ) (r : CompiledFlowRole) (rs : List CompiledFlowRole)
    → k ≢ i
    → children_of (agent_id k role) governed_by (role_edges i (r ∷ rs))
      ≡ children_of (agent_id k role) governed_by (role_edges (suc i) rs)
unfolding children_of role_edges
role_edges-other role k i r rs n =
    ground (arith, guardrail_edges-other role r.role k i 0 r.guardrails (role_edges (suc i) rs) n)

role_edges-before :
    (role : String) (k i : ℕ) (rs : List CompiledFlowRole)
    → k < i
    → children_of (agent_id k role) governed_by (role_edges i rs) ≡ []
unfolding children_of role_edges
role_edges-before role k i [] n = refl
role_edges-before role k i (r ∷ rs) n = ground (
  arith,
  role_edges-other role k i r rs (ground arith),
  role_edges-before role k (suc i) rs (omega arith),
)

pub role_edges-own :
    (i : ℕ) (r : CompiledFlowRole) (rs : List CompiledFlowRole)
    → children_of (agent_id i r.role) governed_by (role_edges i (r ∷ rs))
      ≡ guardrail_ids i 0 r.guardrails
unfolding children_of role_edges
role_edges-own i r rs = ground (
  arith,
  guardrail_edges-own r.role i 0 r.guardrails (role_edges (suc i) rs)
      (role_edges-before r.role i (suc i) rs (omega arith)),
)

abbrev pub entries : ℕ → ℕ → List Guardrail → List (NodeId × Guardrail)
entries i j [] = []
entries i j (g ∷ gs) = (guardrail_id i j, g) ∷ entries i (suc j) gs

pub guardrails-guardrail_nodes :
    (i j : ℕ) (gs : List Guardrail) (ns : List Node)
    → guardrails (guardrail_nodes i j gs ++ ns) ≡ entries i j gs ++ guardrails ns
unfolding guardrails guardrail_nodes
guardrails-guardrail_nodes i j [] ns = refl
guardrails-guardrail_nodes i j (g ∷ gs) ns =
    ground (arith, guardrails-guardrail_nodes i (suc j) gs ns)

get-entries_other :
    (k l i j : ℕ) (gs : List Guardrail) (es : List (NodeId × Guardrail))
    → k ≢ i
    → get_guardrail (guardrail_id k l) (entries i j gs ++ es) ≡ get_guardrail (guardrail_id k l) es
unfolding get_guardrail
get-entries_other k l i j [] es n = refl
get-entries_other k l i j (g ∷ gs) es n = ground (arith, n, get-entries_other k l i (suc j) gs es n)

get-entries_before :
    (i l j : ℕ) (gs : List Guardrail) (es : List (NodeId × Guardrail))
    → l < j
    → get_guardrail (guardrail_id i l) es ≡ none
    → get_guardrail (guardrail_id i l) (entries i j gs ++ es) ≡ none
unfolding get_guardrail
get-entries_before i l j [] es n e = e
get-entries_before i l j (g ∷ gs) es n e =
    ground (arith, n, get-entries_before i l (suc j) gs es (omega arith) e)

get_guardrails-skip :
    (i l j : ℕ) (g : Guardrail) (gs : List Guardrail) (es : List (NodeId × Guardrail))
    → j < l
    → get_guardrails (guardrail_ids i l gs) ((guardrail_id i j, g) ∷ es)
      ≡ get_guardrails (guardrail_ids i l gs) es
unfolding get_guardrails get_guardrail
get_guardrails-skip i l j g [] es n = refl
get_guardrails-skip i l j g (h ∷ gs) es n =
    ground (arith, n, get_guardrails-skip i (suc l) j g gs es (omega arith))

pub get_guardrails-entries :
    (i j : ℕ) (gs : List Guardrail) (es : List (NodeId × Guardrail))
    → ((l : ℕ) → get_guardrail (guardrail_id i l) es ≡ none)
    → get_guardrails (guardrail_ids i j gs) (entries i j gs ++ es) ≡ gs
unfolding get_guardrails get_guardrail
get_guardrails-entries i j [] es e = refl
get_guardrails-entries i j (g ∷ gs) es e = ground (
  arith,
  =?_refl i,
  =?_refl j,
  get-entries_before i j (suc j) gs es (omega arith) (e j),
  get_guardrails-skip i (suc j) j g gs (entries i (suc j) gs ++ es) (omega arith),
  get_guardrails-entries i (suc j) gs es e,
)

pub role_nodes-other :
    (k l i : ℕ) (r : CompiledFlowRole) (rs : List CompiledFlowRole)
    → k ≢ i
    → get_guardrail (guardrail_id k l) (guardrails (role_nodes i (r ∷ rs)))
      ≡ get_guardrail (guardrail_id k l) (guardrails (role_nodes (suc i) rs))
unfolding guardrails role_nodes
role_nodes-other k l i r rs n = ground (
  arith,
  guardrails-guardrail_nodes i 0 r.guardrails (role_nodes (suc i) rs),
  get-entries_other k l i 0 r.guardrails (guardrails (role_nodes (suc i) rs)) n,
)

pub role_nodes-before :
    (k l i : ℕ) (rs : List CompiledFlowRole)
    → k < i
    → get_guardrail (guardrail_id k l) (guardrails (role_nodes i rs)) ≡ none
unfolding guardrails role_nodes get_guardrail
role_nodes-before k l i [] n = refl
role_nodes-before k l i (r ∷ rs) n = ground (
  arith,
  role_nodes-other k l i r rs (ground arith),
  role_nodes-before k l (suc i) rs (omega arith),
)
