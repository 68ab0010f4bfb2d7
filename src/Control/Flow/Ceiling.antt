-- ===== src/Control/Flow/Ceiling.antt =====
-- What becomes of the org's ceiling when a flow is attached.
use casper_agops_server.Prelude.{
  ℕ, suc, ◌<◌, ◌≤◌, String, true, false, Option, none, some, List, [], ◌∷◌, All, ◌≡◌, refl, sym, ap,
  ◌∙◌, inl, inr, arith, Bool-cases, Option-cases, is_some, nat_eq,
}
use casper_agops_server.Control.Store.{
  Store, AgentRow, OrgRow, PolicyVersion, Assignment, PolicyClass, is_class, allocation, Scope,
  org_scope, team_scope, agent_scope, has_org, bump_epoch, get_latest_policy_version,
}
use casper_agops_server.Control.Layers.{
  layers_at, layers_for_class, find_agent, find_org, teams_of, get_effective_layers,
}
use casper_agops_server.Control.Flow.{FlowRole, role_agent, attach_trading_flow}
use casper_agops_server.Control.Flow.Attached.{
  IsCounted, attached, has_org-bump_epoch, IsCounted-attached,
}
use casper_agops_server.Control.Flow.Enforced.{attach_step, attached_org}

-- The allocation layers of an agent; `none` is a throw of `getEffectiveLayers`.
abbrev pub allocation_layers_of : ℕ → Store → Option (List PolicyVersion)
allocation_layers_of agent s = elim (get_effective_layers agent s) [
  | none ↦ none
  | some l ↦ some l.allocation_layers
]

-- The assignments are to policies whose numbers were given out.
abbrev pub IsAssigned : ℕ → List Assignment → Type 0
IsAssigned n as' = All (λ a. a.policy_id < n) as'

IsAssigned-later : (n m : ℕ) (as' : List Assignment) → n ≤ m → IsAssigned n as' → IsAssigned m as'
IsAssigned-later n m [] le h = tt
IsAssigned-later n m (a ∷ as') le h = (omega (arith, h.0, le), IsAssigned-later n m as' le h.1)

-- A policy with a new number is a layer of no assignment.
layers_at-fresh :
    (at : Scope) (org agent n : ℕ) (teams : List ℕ) (cls : PolicyClass) (p : PolicyVersion)
    (ps : List PolicyVersion) (as' : List Assignment)
    → n ≤ p.policy_id
    → IsAssigned n as'
    → layers_at at org teams agent cls (p ∷ ps) as' ≡ layers_at at org teams agent cls ps as'
unfolding layers_at get_latest_policy_version
layers_at-fresh at org agent n teams cls p ps [] le h = refl
layers_at-fresh at org agent n teams cls p ps (a ∷ as') le h =
    ground (arith, le, h.0, layers_at-fresh at org agent n teams cls p ps as' le h.1)

layers_at-spend :
    (at : Scope) (org agent : ℕ) (teams : List ℕ) (ps : List PolicyVersion) (a : Assignment)
    (as' : List Assignment)
    → is_class a.class allocation ≡ false
    → layers_at at org teams agent allocation ps (a ∷ as')
      ≡ layers_at at org teams agent allocation ps as'
unfolding layers_at
layers_at-spend at org agent teams ps a as' e = ground (arith, e)

-- The policies of a role are in no allocation layer.
layers_at-attached :
    (at : Scope) (org o agent other : ℕ) (teams : List ℕ) (r : FlowRole) (s : Store)
    → IsAssigned s.next_id s.assignments
    → let s' = attached org r agent s in
      layers_at at o teams other allocation s'.policies s'.assignments
      ≡ layers_at at o teams other allocation s.policies s.assignments
layers_at-attached at org o agent other teams r s h =
    layers_at-spend at o other teams (attached org r agent s).policies _ s.assignments refl
    ∙ layers_at-fresh at o other s.next_id teams allocation _ _ s.assignments (omega arith) h
    ∙ layers_at-fresh at o other s.next_id teams allocation _ _ s.assignments (omega arith) h

layers-attached :
    (org o agent other : ℕ) (teams : List ℕ) (r : FlowRole) (s : Store)
    → IsAssigned s.next_id s.assignments
    → layers_for_class o teams other allocation (attached org r agent s)
      ≡ layers_for_class o teams other allocation s
unfolding layers_for_class
layers-attached org o agent other teams r s h = ground (
  arith,
  layers_at-attached org_scope org o agent other teams r s h,
  layers_at-attached team_scope org o agent other teams r s h,
  layers_at-attached agent_scope org o agent other teams r s h,
)

find_org-some : (org : ℕ) (os : List OrgRow) → is_some (find_org org os) ≡ has_org org os
unfolding find_org has_org
find_org-some org [] = refl
find_org-some org (o ∷ os) = ground (arith, find_org-some org os)

org_stays :
    (org o agent : ℕ) (r : FlowRole) (s : Store)
    → is_some (find_org o (attached org r agent s).orgs) ≡ is_some (find_org o s.orgs)
org_stays org o agent r s =
    find_org-some o (attached org r agent s).orgs
    ∙ has_org-bump_epoch o org (bump_epoch org s.orgs)
    ∙ has_org-bump_epoch o org s.orgs
    ∙ sym (find_org-some o s.orgs)

-- What an agent's allocation layers are read from.
effective-allocation :
    (agent : ℕ) (s : Store) (a : AgentRow) (teams : List ℕ)
    → find_agent agent s.agents ≡ some a
    → teams_of a s ≡ some teams
    → is_some (find_org a.org_id s.orgs) ≡ true
    → allocation_layers_of agent s ≡ some (layers_for_class a.org_id teams agent allocation s)
unfolding get_effective_layers
effective-allocation agent s a teams found walked known =
    elim (Option-cases (find_org a.org_id s.orgs)) [
      | inl missing ↦ absurd (ground (arith, missing, known))
      | inr (o, e) ↦ ground (arith, found, walked, e)
    ]

throws-agent :
    (agent : ℕ) (s : Store) → find_agent agent s.agents ≡ none → allocation_layers_of agent s ≡ none
unfolding get_effective_layers
throws-agent agent s e = ground (arith, e)

throws-org :
    (agent : ℕ) (s : Store) (a : AgentRow)
    → find_agent agent s.agents ≡ some a
    → is_some (find_org a.org_id s.orgs) ≡ false
    → allocation_layers_of agent s ≡ none
unfolding get_effective_layers
throws-org agent s a e unknown = elim (Option-cases (find_org a.org_id s.orgs)) [
  | inl missing ↦ ground (arith, e, missing)
  | inr (o, found) ↦ absurd (ground (arith, found, unknown))
]

throws-teams :
    (agent : ℕ) (s : Store) (a : AgentRow)
    → find_agent agent s.agents ≡ some a
    → teams_of a s ≡ none
    → allocation_layers_of agent s ≡ none
unfolding get_effective_layers
throws-teams agent s a e stuck = elim (Option-cases (find_org a.org_id s.orgs)) [
  | inl missing ↦ ground (arith, e, missing)
  | inr (o, found) ↦ ground (arith, e, found, stuck)
]

attached-allocation_layers :
    (org agent other : ℕ) (r : FlowRole) (s : Store)
    → IsAssigned s.next_id s.assignments
    → allocation_layers_of other (attached org r agent s) ≡ allocation_layers_of other s
attached-allocation_layers org agent other r s h =
    let s' = attached org r agent s in
    elim (Option-cases (find_agent other s.agents)) [
      | inl missing ↦ throws-agent other s' missing ∙ sym (throws-agent other s missing)
      | inr (a, found) ↦ elim (Option-cases (teams_of a s)) [
        | inl stuck ↦ throws-teams other s' a found stuck ∙ sym (throws-teams other s a found stuck)
        | inr (teams, walked) ↦ elim (Bool-cases (is_some (find_org a.org_id s.orgs))) [
          | inr unknown ↦
              throws-org other s' a found (org_stays org a.org_id agent r s ∙ unknown)
              ∙ sym (throws-org other s a found unknown)
          | inl known ↦
              effective-allocation other s' a teams found walked
                (org_stays org a.org_id agent r s ∙ known)
              ∙ ap some (layers-attached org a.org_id agent other teams r s h)
              ∙ sym (effective-allocation other s a teams found walked known)
        ]
      ]
    ]

-- Attaching a flow whose every role is given an agent, in an org that exists and where the policies
-- and the assignments are to numbers that were given out, changes no allocation layer of any agent:
-- the org's ceiling, which is a policy version of each role, becomes a layer of none.
pub attach-allocation_layers :
    (org : ℕ) (rs : List FlowRole) (given : List (String × ℕ)) (s : Store) (agent : ℕ)
    → has_org org s.orgs ≡ true
    → IsCounted s.next_id s.policies
    → IsAssigned s.next_id s.assignments
    → All (λ r. is_some (role_agent r.role given) ≡ true) rs
    → allocation_layers_of agent (attach_trading_flow org rs given s).0
      ≡ allocation_layers_of agent s
unfolding attach_trading_flow
attach-allocation_layers org [] given s other known c h all = refl
attach-allocation_layers org (r ∷ rs) given s other known c h all =
    elim (Option-cases (role_agent r.role given)) [
      | inl missing ↦ absurd (ground (arith, missing, all.0))
      | inr (agent, e) ↦
          ap (allocation_layers_of other) (attach_step org r rs given agent s known c e).0
          ∙ attach-allocation_layers org rs given (attached org r agent s) other
              (attached_org org r agent s known) (IsCounted-attached org r agent s c)
              (
                omega arith,
                IsAssigned-later s.next_id (suc (suc s.next_id)) s.assignments (omega arith) h,
              )
              all.1
          ∙ attached-allocation_layers org agent other r s h
    ]
