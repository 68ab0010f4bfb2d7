-- ===== src/Control/Store.antt =====
-- control/store.ts and the agents' status in control/kill-switch.ts, over the tables of
-- src/db/migrations/0002_control.sql. A function is one statement or transaction; `none` is a throw. The
-- ids that the code mints are random and taken to be new: they are counted up. A row keeps the rules
-- that `codec.ts` encodes. Rows stand in the order of their creation, the newest first, and a statement
-- on a primary key takes the first that matches.
pub mod Ancestry
use casper_agops_server.Prelude.{
  ℕ, zero, suc, ◌+◌, String, Bool, true, false, not, ◌&&◌, Option, none, some, List, [], ◌∷◌, ◌++◌,
  map, length, select, ltb, ◌=?◌, includes, nat_eq, is_some, if◌then◌else◌,
}
use casper_agops_server.Control.Policy.{SpendPolicy, AllocationPolicy}

pub record Team : Type 0 where
  pub team_id : ℕ
  pub parent_team_id : Option ℕ

pub data AgentStatus : Type 0 where
  active suspended retired : AgentStatus

abbrev pub is_retired : AgentStatus → Bool
is_retired retired = true
is_retired _ = false

pub record AgentRow : Type 0 where
  pub agent_id : ℕ
  pub org_id : ℕ
  pub team_id : Option ℕ
  pub api_key_hash : ℕ
  pub name : String
  pub status : AgentStatus

pub data Rules : Type 0 where
  spend_rules : SpendPolicy → Rules
  allocation_rules : AllocationPolicy → Rules

pub data PolicyClass : Type 0 where
  spend allocation : PolicyClass

abbrev pub is_class : PolicyClass → PolicyClass → Bool
is_class spend spend = true
is_class allocation allocation = true
is_class _ _ = false

pub record PolicyVersion : Type 0 where
  pub policy_id : ℕ
  pub version : ℕ
  pub org_id : ℕ
  pub rules : Rules

pub data Scope : Type 0 where
  org_scope team_scope agent_scope : Scope

pub record Assignment : Type 0 where
  pub org_id : ℕ
  pub scope : Scope
  pub scope_id : ℕ
  pub policy_id : ℕ
  pub class : PolicyClass

pub record OrgRow : Type 0 where
  pub org_id : ℕ
  pub policy_epoch : ℕ

pub record Store : Type 0 where
  pub orgs : List OrgRow
  pub teams : List Team
  pub agents : List AgentRow
  pub policies : List PolicyVersion
  pub assignments : List Assignment
  pub next_id : ℕ

-- The key of an org that rows refer to.
unfoldable pub has_org : ℕ → List OrgRow → Bool
has_org org [] = false
has_org org (o ∷ os) = if o.org_id =? org then true else has_org org os

-- `createOrg`.
unfoldable pub create_org : Store → Store × ℕ
create_org s = (
  record s {
    orgs = record { org_id = s.next_id; policy_epoch = 0 } ∷ s.orgs;
    next_id = suc s.next_id;
  },
  s.next_id,
)

unfoldable pub find_team : ℕ → List Team → Option Team
find_team id [] = none
find_team id (t ∷ ts) = if t.team_id =? id then some t else find_team id ts

abbrev pub is_team : Option ℕ → List Team → Bool
is_team none ts = true
is_team (some id) ts = is_some (find_team id ts)

-- `createTeam`; a parent that does not exist is a throw.
unfoldable pub create_team : ℕ → Option ℕ → Store → Option (Store × ℕ)
unfolding has_org find_team
create_team org parent s =
    if has_org org s.orgs && is_team parent s.teams
    then some (
      record s {
        teams = record { team_id = s.next_id; parent_team_id = parent } ∷ s.teams;
        next_id = suc s.next_id;
      },
      s.next_id,
    )
    else none

-- `registerAgent`, with the digest of the key that it mints.
unfoldable pub register_agent : ℕ → Option ℕ → String → ℕ → Store → Option (Store × ℕ)
unfolding has_org find_team
register_agent org team name key_hash s =
    if has_org org s.orgs && is_team team s.teams
    then some (
      record s {
        agents =
            record {
              agent_id = s.next_id;
              org_id = org;
              team_id = team;
              api_key_hash = key_hash;
              name = name;
              status = active;
            }
            ∷ s.agents;
        next_id = suc s.next_id;
      },
      s.next_id,
    )
    else none

-- An update of the agents of an org with an id, and whether it matched.
unfoldable pub update_agent :
    (AgentRow → Bool) → (AgentRow → AgentRow) → ℕ → ℕ → List AgentRow → List AgentRow × Bool
update_agent guard change org id [] = ([], false)
update_agent guard change org id (a ∷ as') =
    let (rest, found) = update_agent guard change org id as' in
    if a.agent_id =? id && a.org_id =? org && guard a
    then (change a ∷ rest, true)
    else (a ∷ rest, found)

abbrev pub with_agents : List AgentRow × Bool → Store → Store × Bool
with_agents (as', found) s = (record s { agents = as' }, found)

-- `renameAgent`, `retireAgent`, `rotateAgentKey`, and `suspendAgent` and `reinstateAgent`.
pub rename_agent : ℕ → ℕ → String → Store → Store × Bool
unfolding update_agent
rename_agent org id name s =
    with_agents (update_agent (λ a. true) (λ a. record a { name = name }) org id s.agents) s

unfoldable pub retire_agent : ℕ → ℕ → Store → Store × Bool
unfolding update_agent
retire_agent org id s =
    with_agents
      (update_agent (λ a. not (is_retired a.status)) (λ a. record a { status = retired }) org id
        s.agents)
      s

pub rotate_agent_key : ℕ → ℕ → ℕ → Store → Store × Bool
unfolding update_agent
rotate_agent_key org id key_hash s =
    with_agents
      (update_agent (λ a. true) (λ a. record a { api_key_hash = key_hash }) org id s.agents) s

pub suspend_agent : ℕ → ℕ → Store → Store × Bool
unfolding update_agent
suspend_agent org id s =
    with_agents (update_agent (λ a. true) (λ a. record a { status = suspended }) org id s.agents) s

unfoldable pub reinstate_agent : ℕ → ℕ → Store → Store × Bool
unfolding update_agent
reinstate_agent org id s =
    with_agents (update_agent (λ a. true) (λ a. record a { status = active }) org id s.agents) s

-- `COALESCE(MAX(version), 0)`.
unfoldable pub max_version : ℕ → List PolicyVersion → ℕ
max_version id [] = 0
max_version id (p ∷ ps) =
    let rest = max_version id ps in
    if p.policy_id =? id && ltb rest p.version then p.version else rest

unfoldable pub bump_epoch : ℕ → List OrgRow → List OrgRow
bump_epoch org [] = []
bump_epoch org (o ∷ os) =
    if o.org_id =? org
    then record o { policy_epoch = suc o.policy_epoch } ∷ os
    else o ∷ bump_epoch org os

abbrev pub policy_id_of : Option ℕ → ℕ → ℕ
policy_id_of none fresh = fresh
policy_id_of (some id) fresh = id

-- `createPolicyVersion`: the id and the version. The `none` of the argument is a new policy.
unfoldable pub create_policy_version : Option ℕ → ℕ → Rules → Store → Option (Store × (ℕ × ℕ))
unfolding has_org max_version bump_epoch
create_policy_version policy org rules s =
    let id = policy_id_of policy s.next_id in
    let version = suc (max_version id s.policies) in
    if has_org org s.orgs
    then some (
      record s {
        policies =
            record { policy_id = id; version = version; org_id = org; rules = rules } ∷ s.policies;
        orgs = bump_epoch org s.orgs;
        next_id = suc s.next_id;
      },
      (id, version),
    )
    else none

-- `getPolicyVersion`.
pub get_policy_version : ℕ → ℕ → List PolicyVersion → Option PolicyVersion
get_policy_version id version [] = none
get_policy_version id version (p ∷ ps) =
    if p.policy_id =? id && p.version =? version then some p else get_policy_version id version ps

-- `getLatestPolicyVersion`.
unfoldable pub get_latest_policy_version : ℕ → List PolicyVersion → Option PolicyVersion
get_latest_policy_version id [] = none
get_latest_policy_version id (p ∷ ps) =
    let rest = get_latest_policy_version id ps in
    if p.policy_id =? id
    then elim rest [ none ↦ some p | some q ↦ if ltb q.version p.version then some p else some q ]
    else rest

-- `assignPolicy`.
unfoldable pub assign_policy : Assignment → Store → Option Store
unfolding has_org
assign_policy a s =
    if has_org a.org_id s.orgs then some (record s { assignments = a ∷ s.assignments }) else none
