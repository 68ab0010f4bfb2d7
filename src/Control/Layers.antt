-- ===== src/Control/Layers.antt =====
-- control/store.ts, `layersForClass` and `getEffectiveLayers`: the policies that apply to an agent, in
-- one snapshot of the tables. The policies are not decoded, and the references are left out.
use casper_agops_server.Prelude.{
  ℕ, zero, suc, Bool, false, ◌&&◌, Option, none, some, List, [], ◌∷◌, ◌++◌, ◌=?◌, includes, nat_eq,
  length, if◌then◌else◌,
}
use casper_agops_server.Control.Store.{
  Team, PolicyClass, is_class, PolicyVersion, Scope, Assignment, Store, find_team, AgentRow, OrgRow,
  spend, allocation, get_latest_policy_version, org_scope, team_scope, agent_scope,
}

-- `team_ancestry`: a team and its parents. `none` when the steps run out.
unfoldable pub team_ancestry : ℕ → Option ℕ → List Team → Option (List ℕ)
unfolding find_team
team_ancestry steps none ts = some []
team_ancestry zero (some id) ts = none
team_ancestry (suc steps) (some id) ts = elim (find_team id ts) [
  | none ↦ some []
  | some t ↦ elim (team_ancestry steps t.parent_team_id ts) [
    | none ↦ none
    | some rest ↦ some (id ∷ rest)
  ]
]

-- The assignments of a class that apply to an agent, at one scope.
abbrev pub applies : Scope → ℕ → List ℕ → ℕ → Scope → ℕ → Bool
applies org_scope org teams agent org_scope id = id =? org
applies team_scope org teams agent team_scope id = includes teams id
applies agent_scope org teams agent agent_scope id = id =? agent
applies _ org teams agent _ id = false

unfoldable pub layers_at :
    Scope → ℕ → List ℕ → ℕ → PolicyClass → List PolicyVersion → List Assignment → List PolicyVersion
unfolding get_latest_policy_version
layers_at at org teams agent cls ps [] = []
layers_at at org teams agent cls ps (a ∷ as') =
    let rest = layers_at at org teams agent cls ps as' in
    if a.org_id =? org && is_class a.class cls && applies at org teams agent a.scope a.scope_id
    then elim (get_latest_policy_version a.policy_id ps) [ none ↦ rest | some p ↦ p ∷ rest ]
    else rest

-- `layersForClass`: root to leaf. What it answers for the leaf is left out.
unfoldable pub layers_for_class : ℕ → List ℕ → ℕ → PolicyClass → Store → List PolicyVersion
unfolding layers_at
layers_for_class org teams agent cls s =
    layers_at org_scope org teams agent cls s.policies s.assignments
    ++ (layers_at team_scope org teams agent cls s.policies s.assignments
        ++ layers_at agent_scope org teams agent cls s.policies s.assignments)

unfoldable pub find_agent : ℕ → List AgentRow → Option AgentRow
find_agent id [] = none
find_agent id (a ∷ as') = if a.agent_id =? id then some a else find_agent id as'

unfoldable pub find_org : ℕ → List OrgRow → Option OrgRow
find_org id [] = none
find_org id (o ∷ os) = if o.org_id =? id then some o else find_org id os

pub record EffectiveLayers : Type 0 where
  pub org_id : ℕ
  pub policy_epoch : ℕ
  pub spend_layers : List PolicyVersion
  pub allocation_layers : List PolicyVersion

-- The walk over the teams takes as many steps as there are teams, and one.
abbrev pub teams_of : AgentRow → Store → Option (List ℕ)
teams_of a s = team_ancestry (suc (length s.teams)) a.team_id s.teams

-- `getEffectiveLayers`: the org is that of the agent's row; `none` is a throw.
unfoldable pub get_effective_layers : ℕ → Store → Option EffectiveLayers
unfolding find_agent find_org layers_for_class team_ancestry
get_effective_layers agent s = elim (find_agent agent s.agents) [
  | none ↦ none
  | some a ↦ elim (find_org a.org_id s.orgs) [
    | none ↦ none
    | some o ↦ elim (teams_of a s) [
      | none ↦ none
      | some teams ↦ some (record {
        org_id = a.org_id;
        policy_epoch = o.policy_epoch;
        spend_layers = layers_for_class a.org_id teams agent spend s;
        allocation_layers = layers_for_class a.org_id teams agent allocation s;
      })
    ]
  ]
]
