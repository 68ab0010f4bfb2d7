-- ===== src/Control/Canvas.antt =====
-- control/graph-builder/graph-schema.ts: a graph as `GraphSchema` has parsed it. An amount is the number
-- that its string of digits denotes. A `NodeId` is the string that an id is: the shapes are the ones
-- that `configToGraph` gives out, which have no string in common, and `named` is any other string.
use casper_agops_server.Prelude.{
  ℕ, String, Bool, true, false, ◌&&◌, Option, List, ◌=?◌, ◌==◌, string_eq,
}
use casper_agops_server.Control.Policy.{Rail, rail_eq, AllocationPolicy}

pub data NodeId : Type 0 where
  named : String → NodeId
  org_ceiling_id fleet_id trading_flow_id : NodeId
  agent_id : (index : ℕ) (role : String) → NodeId
  guardrail_id : (index position : ℕ) → NodeId
  grant_id rail_id : (index : ℕ) → NodeId

-- `===`.
abbrev pub same_id : NodeId → NodeId → Bool
same_id (named s) (named t) = s == t
same_id org_ceiling_id org_ceiling_id = true
same_id fleet_id fleet_id = true
same_id trading_flow_id trading_flow_id = true
same_id (agent_id i r) (agent_id k s) = i =? k && r == s
same_id (guardrail_id i j) (guardrail_id k l) = i =? k && j =? l
same_id (grant_id i) (grant_id k) = i =? k
same_id (rail_id i) (rail_id k) = i =? k
same_id _ _ = false

pub record Agent : Type 0 where
  pub name : String
  pub role : String
  pub allowed_actions : List Rail
  pub service_scope : List String
  pub sub_cap : ℕ
  pub velocity_limit_per_hour : ℕ

pub record Guardrail : Type 0 where
  pub kind : Rail
  pub slippage_bps : Option ℕ
  pub allowed_pairs : Option (List String)
  pub risk_labels : Option (List String)

pub data GrantStatus : Type 0 where
  pending granted revoked : GrantStatus

-- The weight of a grant is 1.
pub record GrantIntent : Type 0 where
  pub agent_ref : NodeId
  pub status : GrantStatus

pub record ServiceRail : Type 0 where
  pub resource_id : String
  pub destination : String

pub data Config : Type 0 where
  org_ceiling : AllocationPolicy → Config
  fleet : (name : String) → Config
  agent : Agent → Config
  guardrail : Guardrail → Config
  trading_flow : (name : String) (version : ℕ) → Config
  delegated_key_grant : GrantIntent → Config
  service_rail : ServiceRail → Config

pub record Node : Type 0 where
  pub id : NodeId
  pub config : Config

pub data EdgeKind : Type 0 where
  contains governed_by attaches_to : EdgeKind

abbrev pub is_kind : EdgeKind → EdgeKind → Bool
is_kind contains contains = true
is_kind governed_by governed_by = true
is_kind attaches_to attaches_to = true
is_kind _ _ = false

pub record Edge : Type 0 where
  pub from : NodeId
  pub to : NodeId
  pub kind : EdgeKind

pub record Graph : Type 0 where
  pub nodes : List Node
  pub edges : List Edge
