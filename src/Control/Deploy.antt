-- ===== src/Control/Deploy.antt =====
-- control/graph-builder/deploy.ts. The vault is a parameter: `provision` is `provisionDelegatedKey` if
-- one is configured, and its `none` is a throw. `mint` is the digest of the key of an agent.
pub mod Shadowed
mod Tests
use casper_agops_server.Prelude.{
  ℕ, String, Bool, true, false, Option, none, some, List, [], ◌∷◌, map, ◌⊎◌, inl, inr, ◌==◌,
  string_eq, if◌then◌else◌,
}
use casper_agops_server.Control.Store.{Store, register_agent}
use casper_agops_server.Control.Graph.{
  agents, CompiledFlowRole, CompiledGraphConfig, compile_graph_to_config,
}
use casper_agops_server.Control.Canvas.{
  NodeId, same_id, Agent, Config, delegated_key_grant, Node, Graph,
}
use casper_agops_server.Control.Graph.Validate.{GraphError, validate_graph}
use casper_agops_server.Control.Flow.{Flow, FlowRole, attach_trading_flow}

-- `toCompiledTradingFlow`.
pub to_compiled_trading_flow : CompiledGraphConfig → Flow
to_compiled_trading_flow c = record {
  name = c.flow.name;
  version = c.flow.version;
  roles =
      map
        (λ (r : CompiledFlowRole). record {
          role = r.role;
          allowed_actions = r.allowed_actions;
          spend = r.spend;
          allocation = c.org_ceiling;
        })
        c.flow.roles;
}

-- `nodeIdByRole.get`: the last agent of a role counts.
pub node_of_role : String → List (NodeId × Agent) → Option NodeId
node_of_role role [] = none
node_of_role role ((id, a) ∷ l) =
    let rest = node_of_role role l in
    elim rest [ some k ↦ some k | none ↦ if a.role == role then some id else none ]

pub record Created : Type 0 where
  pub node_id : NodeId
  pub role : String
  pub agent_id : ℕ
  pub name : String
  pub delegated_public_key : Option ℕ

pub data DeployError : Type 0 where
  invalid_graph : List GraphError → DeployError
  role_node_missing : String → DeployError
  compile_throws register_throws attach_throws : DeployError

pub record DeployedAgent : Type 0 where
  pub created : Created
  pub policy_id : Option ℕ

pub data DeployOutcome : Type 0 where
  deployed : List DeployedAgent → (pending_grants : List (NodeId × ℕ)) → DeployOutcome
  deploy_failed : DeployError → DeployOutcome

-- `roleAssignments`.
abbrev pub role_assignments : List Created → List (String × ℕ)
role_assignments cs = map (λ (c : Created). (c.role, c.agent_id)) cs

pub policy_of_role : String → List (String × (ℕ × ℕ)) → Option ℕ
policy_of_role role [] = none
policy_of_role role ((r, x) ∷ l) =
    let rest = policy_of_role role l in
    elim rest [ some p ↦ some p | none ↦ if r == role then some x.1 else none ]

-- `agentIdByNodeId.get`.
pub created_at : NodeId → List Created → Option Created
created_at id [] = none
created_at id (c ∷ cs) =
    let rest = created_at id cs in
    elim rest [ some d ↦ some d | none ↦ if same_id c.node_id id then some c else none ]

abbrev offer : NodeId → Option Created → List (NodeId × ℕ) → List (NodeId × ℕ)
offer id none l = l
offer id (some c) l = elim c.delegated_public_key [ none ↦ l | some k ↦ (id, c.agent_id) ∷ l ]

pub pending_grants : List Created → List Node → List (NodeId × ℕ)
unfolding created_at
pending_grants cs [] = []
pending_grants cs (n ∷ ns) =
    let rest = pending_grants cs ns in
    elim n.config [ delegated_key_grant g ↦ offer n.id (created_at g.agent_ref cs) rest | _ ↦ rest ]

abbrev pub public_key : Option (ℕ → Option ℕ) → ℕ → Option ℕ
public_key none agent = none
public_key (some provision) agent = provision agent

abbrev pub created_more :
    Created → Store × (DeployError ⊎ List Created) → Store × (DeployError ⊎ List Created)
created_more c (s, inl e) = (s, inl e)
created_more c (s, inr cs) = (s, inr (c ∷ cs))

-- The policies of what was created, and the grants that are left to sign.
pub attach_created :
    ℕ → Graph → CompiledGraphConfig → Store × (DeployError ⊎ List Created) → Store × DeployOutcome
unfolding to_compiled_trading_flow policy_of_role pending_grants
attach_created org g c (s, inl e) = (s, deploy_failed e)
attach_created org g c (s, inr cs) =
    let (s', attached) =
      attach_trading_flow org (to_compiled_trading_flow c).roles (role_assignments cs) s in
    (
      s',
      elim attached [
        | none ↦ deploy_failed attach_throws
        | some l ↦
            deployed
              (map (λ (x : Created). record { created = x; policy_id = policy_of_role x.role l })
                cs)
              (pending_grants cs g.nodes)
      ],
    )

module _ (provision : Option (ℕ → Option ℕ)) (mint : ℕ → ℕ) where
  -- The agents of the roles, in their order.
  pub create_agents :
      ℕ
      → List (NodeId × Agent)
      → List CompiledFlowRole
      → Store
      → Store × (DeployError ⊎ List Created)
  unfolding node_of_role
  create_agents org nodes [] s = (s, inr [])
  create_agents org nodes (r ∷ rs) s = elim (node_of_role r.role nodes) [
    | none ↦ (s, inl (role_node_missing r.role))
    | some node ↦ elim (register_agent org none r.agent_name (mint s.next_id) s) [
      | none ↦ (s, inl register_throws)
      | some x ↦
          created_more
            (record {
              node_id = node;
              role = r.role;
              agent_id = x.1;
              name = r.agent_name;
              delegated_public_key = public_key provision x.1;
            })
            (create_agents org nodes rs x.0)
    ]
  ]

  -- `deployGraph`.
  pub deploy_graph : ℕ → Graph → Store → Store × DeployOutcome
  unfolding create_agents attach_created
  deploy_graph org g s = elim (validate_graph g) [
    | e ∷ es ↦ (s, deploy_failed (invalid_graph (e ∷ es)))
    | [] ↦ elim (compile_graph_to_config g) [
      | none ↦ (s, deploy_failed compile_throws)
      | some c ↦ attach_created org g c (create_agents org (agents g.nodes) c.flow.roles s)
    ]
  ]
