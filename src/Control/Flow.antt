-- ===== src/Control/Flow.antt =====
-- control/trading-flow.ts and control/attach-trading-flow.ts. `none` is a throw. The policies of a role
-- are three calls of the store, of which the ones before a throw stand. A `Record` is the list of its
-- writes, the later ones last.
pub mod Attached
pub mod Enforced
pub mod Ceiling
pub mod Untouched
mod Tests
use casper_agops_server.Prelude.{
  ℕ, ◌/◌, String, Bool, true, false, Option, none, some, List, [], ◌∷◌, map, length, ltb, ◌=?◌,
  ◌==◌, string_eq, if◌then◌else◌,
}
use casper_agops_server.Control.Policy.{
  Rail, casper_x402, cspr_trade, SpendPolicy, AllocationPolicy,
}
use casper_agops_server.Control.Store.{
  Store, Rules, spend_rules, allocation_rules, spend, agent_scope, Assignment,
  create_policy_version, assign_policy,
}

pub record RoleDefinition : Type 0 where
  pub role : String
  pub allowed_actions : List Rail
  pub service_scope : List String
  pub sub_cap : ℕ
  pub velocity_limit_per_hour : ℕ

pub record FlowDefinition : Type 0 where
  pub name : String
  pub version : ℕ
  pub org_ceiling : AllocationPolicy
  pub roles : List RoleDefinition

pub record FlowRole : Type 0 where
  pub role : String
  pub allowed_actions : List Rail
  pub spend : SpendPolicy
  pub allocation : AllocationPolicy

pub record Flow : Type 0 where
  pub name : String
  pub version : ℕ
  pub roles : List FlowRole

abbrev pub flow_role : AllocationPolicy → RoleDefinition → FlowRole
flow_role ceiling r = record {
  role = r.role;
  allowed_actions = r.allowed_actions;
  spend = record {
    spend_cap = r.sub_cap;
    per_transaction_max = r.sub_cap;
    service_scope = r.service_scope;
    rail_permission = r.allowed_actions;
    velocity_limit_per_hour = r.velocity_limit_per_hour;
  };
  allocation = ceiling;
}

pub compile_flow_roles : AllocationPolicy → List RoleDefinition → Option (List FlowRole)
compile_flow_roles ceiling [] = some []
compile_flow_roles ceiling (r ∷ rs) =
    let rest = compile_flow_roles ceiling rs in
    if ltb ceiling.per_agent_max r.sub_cap
    then none
    else elim rest [ none ↦ none | some l ↦ some (flow_role ceiling r ∷ l) ]

-- `compileTradingFlow`.
pub compile_trading_flow : FlowDefinition → Option Flow
unfolding compile_flow_roles
compile_trading_flow f = elim (compile_flow_roles f.org_ceiling f.roles) [
  | none ↦ none
  | some rs ↦ some (record { name = f.name; version = f.version; roles = rs })
]

-- A role of a template is a definition without its cap.
pub record TemplateRole : Type 0 where
  pub role : String
  pub allowed_actions : List Rail
  pub service_scope : List String
  pub velocity_limit_per_hour : ℕ

pub record FleetTemplate : Type 0 where
  pub name : String
  pub roles : List TemplateRole

-- `instantiateFleetTemplate`; a division by zero throws.
pub instantiate_fleet_template : FleetTemplate → AllocationPolicy → Option Flow
unfolding compile_trading_flow
instantiate_fleet_template t ceiling =
    if length t.roles =? 0
    then none
    else compile_trading_flow (record {
      name = t.name;
      version = 1;
      org_ceiling = ceiling;
      roles =
          map
            (λ (r : TemplateRole). record {
              role = r.role;
              allowed_actions = r.allowed_actions;
              service_scope = r.service_scope;
              sub_cap = ceiling.per_agent_max / length t.roles;
              velocity_limit_per_hour = r.velocity_limit_per_hour;
            })
            t.roles;
    })

-- The agent of a role.
unfoldable pub role_agent : String → List (String × ℕ) → Option ℕ
role_agent role [] = none
role_agent role ((r, a) ∷ l) =
    let rest = role_agent role l in
    elim rest [ some b ↦ some b | none ↦ if r == role then some a else none ]

unfoldable pub attach_assignment : ℕ → ℕ → ℕ → Store → Store × Option ℕ
attach_assignment org agent policy s =
    elim (assign_policy
      (record {
        org_id = org;
        scope = agent_scope;
        scope_id = agent;
        policy_id = policy;
        class = spend;
      })
      s) [ none ↦ (s, none) | some s' ↦ (s', some policy) ]

unfoldable pub attach_allocation : ℕ → FlowRole → ℕ → ℕ → Store → Store × Option ℕ
unfolding attach_assignment
attach_allocation org r agent policy s =
    elim (create_policy_version none org (allocation_rules r.allocation) s) [
      | none ↦ (s, none)
      | some x ↦ attach_assignment org agent policy x.0
    ]

-- The policies of one role, and the id of its spend policy.
unfoldable pub attach_role : ℕ → FlowRole → ℕ → Store → Store × Option ℕ
unfolding attach_allocation
attach_role org r agent s = elim (create_policy_version none org (spend_rules r.spend) s) [
  | none ↦ (s, none)
  | some x ↦ attach_allocation org r agent x.1.0 x.0
]

abbrev pub attached_more :
    String × (ℕ × ℕ)
    → Store × Option (List (String × (ℕ × ℕ)))
    → Store × Option (List (String × (ℕ × ℕ)))
attached_more entry (s, none) = (s, none)
attached_more entry (s, some l) = (s, some (entry ∷ l))

-- `attachTradingFlow`: the agent and the spend policy of each role.
unfoldable pub attach_trading_flow :
    ℕ → List FlowRole → List (String × ℕ) → Store → Store × Option (List (String × (ℕ × ℕ)))
unfolding role_agent attach_role
attach_trading_flow org [] given s = (s, some [])
attach_trading_flow org (r ∷ rs) given s = elim (role_agent r.role given) [
  | none ↦ (s, none)
  | some agent ↦ elim (attach_role org r agent s).1 [
    | none ↦ ((attach_role org r agent s).0, none)
    | some policy ↦
        attached_more (r.role, (agent, policy))
          (attach_trading_flow org rs given (attach_role org r agent s).0)
  ]
]
