-- ===== src/Control/Flow/Enforced.antt =====
-- What attaching a flow enforces, and on which agents.
use mathlib.Core.List.{Mem, mem-cons_self, mem-cons_of_mem, mem-append_right}
use mathlib.Core.Path.{subst}
use casper_agops_server.Prelude.{
  ℕ, String, Bool, true, ◌&&◌, Option, none, some, List, [], ◌∷◌, All, All-map, ◌≡◌, refl, sym, ◌∙◌,
  ◌⊎◌, inl, inr, arith, Bool-cases, Option-cases, ◌=?◌, is_some, string_eq, ap, suc, length,
}
use casper_agops_server.Control.Store.{
  Store, AgentRow, OrgRow, allocation, PolicyVersion, spend_rules, Assignment, spend, is_class,
  agent_scope, org_scope, team_scope, has_org, bump_epoch, get_latest_policy_version,
}
use casper_agops_server.Control.Layers.{
  applies, layers_at, layers_for_class, team_ancestry, find_agent, find_org, EffectiveLayers,
  teams_of, get_effective_layers,
}
use casper_agops_server.Control.Flow.{FlowRole, role_agent, attached_more, attach_trading_flow}
use casper_agops_server.Control.Flow.Attached.{
  IsCounted, version_one, attached, attach_role-attached, has_org-bump_epoch, is_agent_scope,
  is_assigned, IsEnforced, IsCounted-attached, attached-IsEnforced, attached-keeps,
}

pub attached_more-store :
    (entry : String × (ℕ × ℕ)) (x : Store × Option (List (String × (ℕ × ℕ))))
    → ((attached_more entry x).0 ≡ x.0) × (is_some (attached_more entry x).1 ≡ is_some x.1)
attached_more-store entry (s, none) = (refl, refl)
attached_more-store entry (s, some l) = (refl, refl)

-- The agent's row is of the org, and the walk from its team ends.
pub record IsOwn (org : ℕ) (s : Store) (agent : ℕ) : Type 0 where
  pub row : AgentRow
  pub found : find_agent agent s.agents ≡ some row
  pub same_org : row.org_id ≡ org
  pub teams : List ℕ
  pub walked : teams_of row s ≡ some teams

-- A role has an agent of the org.
unfoldable pub IsStaffed : ℕ → List (String × ℕ) → Store → FlowRole → Type 0
IsStaffed org given s r = (agent : ℕ) × (role_agent r.role given ≡ some agent) × IsOwn org s agent

-- The effective spend layers of the agent of a role have a policy with the rules of the role.
pub IsLayered : ℕ → List (String × ℕ) → Store → FlowRole → Type 0
IsLayered org given s r =
    (agent : ℕ) × (role_agent r.role given ≡ some agent)
    × (layers : EffectiveLayers) × (get_effective_layers agent s ≡ some layers)
    × (policy : ℕ) × Mem (version_one org policy (spend_rules r.spend)) layers.spend_layers

-- The first role of a flow is attached, and then the others.
pub attach_step :
    (org : ℕ) (r : FlowRole) (rs : List FlowRole) (given : List (String × ℕ)) (agent : ℕ)
    (s : Store)
    → has_org org s.orgs ≡ true
    → IsCounted s.next_id s.policies
    → role_agent r.role given ≡ some agent
    → ((attach_trading_flow org (r ∷ rs) given s).0
        ≡ (attach_trading_flow org rs given (attached org r agent s)).0)
      × (is_some (attach_trading_flow org (r ∷ rs) given s).1
          ≡ is_some (attach_trading_flow org rs given (attached org r agent s)).1)
unfolding attach_trading_flow
attach_step org r rs given agent s known c e =
    let more =
      attached_more-store (r.role, (agent, s.next_id))
        (attach_trading_flow org rs given (attached org r agent s)) in
    ground (arith, e, attach_role-attached org r agent s known c, more.0, more.1)

IsGiven : ℕ → List (String × ℕ) → Store → FlowRole → Type 0
IsGiven org given s r =
    (agent : ℕ) × (role_agent r.role given ≡ some agent) × IsEnforced org r agent s

pub attached_org :
    (org : ℕ) (r : FlowRole) (agent : ℕ) (s : Store)
    → has_org org s.orgs ≡ true
    → has_org org (attached org r agent s).orgs ≡ true
attached_org org r agent s known =
    has_org-bump_epoch org org (bump_epoch org s.orgs) ∙ has_org-bump_epoch org org s.orgs ∙ known

attach-keeps :
    (org : ℕ) (rs : List FlowRole) (given : List (String × ℕ)) (s : Store)
    → has_org org s.orgs ≡ true
    → IsCounted s.next_id s.policies
    → All (λ r. is_some (role_agent r.role given) ≡ true) rs
    → (q : FlowRole) (b : ℕ) → IsEnforced org q b s
    → IsEnforced org q b (attach_trading_flow org rs given s).0
unfolding attach_trading_flow
attach-keeps org [] given s known c all q b h = h
attach-keeps org (r ∷ rs) given s known c all q b h =
    elim (Option-cases (role_agent r.role given)) [
      | inl missing ↦ absurd (ground (arith, missing, all.0))
      | inr (agent, e) ↦ rw ((attach_step org r rs given agent s known c e).0) (
          attach-keeps org rs given (attached org r agent s) (attached_org org r agent s known)
            (IsCounted-attached org r agent s c) all.1 q b (attached-keeps org r q agent b s c h))
    ]

attach-IsGiven :
    (org : ℕ) (rs : List FlowRole) (given : List (String × ℕ)) (s : Store)
    → has_org org s.orgs ≡ true
    → IsCounted s.next_id s.policies
    → All (λ r. is_some (role_agent r.role given) ≡ true) rs
    → (is_some (attach_trading_flow org rs given s).1 ≡ true)
      × All (IsGiven org given (attach_trading_flow org rs given s).0) rs
unfolding attach_trading_flow IsGiven
attach-IsGiven org [] given s known c all = (refl, tt)
attach-IsGiven org (r ∷ rs) given s known c all = elim (Option-cases (role_agent r.role given)) [
  | inl missing ↦ absurd (ground (arith, missing, all.0))
  | inr (agent, e) ↦
      let step = attach_step org r rs given agent s known c e in
      let known' = attached_org org r agent s known in
      let c' = IsCounted-attached org r agent s c in
      let rest = attach-IsGiven org rs given (attached org r agent s) known' c' all.1 in
      subst
        (λ x.
          (is_some (attach_trading_flow org (r ∷ rs) given s).1 ≡ true)
          × All (IsGiven org given x) (r ∷ rs))
        (sym step.0)
        (
          step.1 ∙ rest.0,
          (
            (
              agent,
              e,
              attach-keeps org rs given (attached org r agent s) known' c' all.1 r agent
                  (attached-IsEnforced org r agent s c),
            ),
            rest.1,
          ),
        )
]

abbrev is_own : ℕ → ℕ → ℕ → Assignment → Bool
is_own org agent policy a =
    a.org_id =? org
    && is_agent_scope a.scope
    && a.scope_id =? agent
    && a.policy_id =? policy
    && is_class a.class spend

layers_own :
    (org agent policy : ℕ) (teams : List ℕ) (v : PolicyVersion) (ps : List PolicyVersion)
    (a : Assignment) (as' : List Assignment)
    → is_own org agent policy a ≡ true
    → get_latest_policy_version policy ps ≡ some v
    → layers_at agent_scope org teams agent spend ps (a ∷ as')
      ≡ v ∷ layers_at agent_scope org teams agent spend ps as'
unfolding layers_at
layers_own org agent policy teams v ps a as' own latest = ground (arith, own, latest)

layers_more :
    (org agent : ℕ) (teams : List ℕ) (ps : List PolicyVersion) (a : Assignment)
    (as' : List Assignment)
    → (layers_at agent_scope org teams agent spend ps (a ∷ as')
        ≡ layers_at agent_scope org teams agent spend ps as')
      ⊎ (p : PolicyVersion) × (layers_at agent_scope org teams agent spend ps (a ∷ as')
          ≡ p ∷ layers_at agent_scope org teams agent spend ps as')
unfolding layers_at
layers_more org agent teams ps a as' =
    elim (Bool-cases (
      a.org_id =? org
      && is_class a.class spend
      && applies agent_scope org teams agent a.scope a.scope_id)) [
        | inr other ↦ inl (ground (arith, other))
        | inl here ↦ elim (Option-cases (get_latest_policy_version a.policy_id ps)) [
          | inl missing ↦ inl (ground (arith, here, missing))
          | inr (p, found) ↦ inr (p, ground (arith, here, found))
        ]
      ]

-- The layers of an agent have the latest version of each policy that is assigned to it.
assigned_layer :
    (org agent policy : ℕ) (teams : List ℕ) (v : PolicyVersion) (ps : List PolicyVersion)
    (as' : List Assignment)
    → is_assigned org agent policy as' ≡ true
    → get_latest_policy_version policy ps ≡ some v
    → Mem v (layers_at agent_scope org teams agent spend ps as')
unfolding layers_at
assigned_layer org agent policy teams v ps [] e latest = absurd (cc)
assigned_layer org agent policy teams v ps (a ∷ as') e latest =
    elim (Bool-cases (is_own org agent policy a)) [
      | inl own ↦ rw (layers_own org agent policy teams v ps a as' own latest) mem-cons_self
      | inr other ↦
          let rest =
            assigned_layer org agent policy teams v ps as' (ground (arith, other, e)) latest in
          elim (layers_more org agent teams ps a as') [
            | inl same ↦ rw same rest
            | inr (p, more) ↦ rw more (mem-cons_of_mem p rest)
          ]
    ]

-- Attaching a flow leaves the agents and the teams as they were, and the org in its table.
attach-rows :
    (org : ℕ) (rs : List FlowRole) (given : List (String × ℕ)) (s : Store)
    → has_org org s.orgs ≡ true
    → IsCounted s.next_id s.policies
    → All (λ r. is_some (role_agent r.role given) ≡ true) rs
    → let s' = (attach_trading_flow org rs given s).0 in
      (s'.agents ≡ s.agents) × (s'.teams ≡ s.teams) × (has_org org s'.orgs ≡ true)
unfolding attach_trading_flow
attach-rows org [] given s known c all = (refl, refl, known)
attach-rows org (r ∷ rs) given s known c all = elim (Option-cases (role_agent r.role given)) [
  | inl missing ↦ absurd (ground (arith, missing, all.0))
  | inr (agent, e) ↦ rw ((attach_step org r rs given agent s known c e).0) (
      attach-rows org rs given (attached org r agent s) (attached_org org r agent s known)
        (IsCounted-attached org r agent s c) all.1)
]

has_org-find_org :
    (org : ℕ) (os : List OrgRow) → has_org org os ≡ true → (o : OrgRow) × (find_org org os ≡ some o)
unfolding has_org find_org
has_org-find_org org [] e = absurd (cc)
has_org-find_org org (o ∷ os) e = elim (Bool-cases (o.org_id =? org)) [
  | inl same ↦ (o, ground (arith, same))
  | inr other ↦
      let (o', found) = has_org-find_org org os (ground (arith, other, e)) in
      (o', ground (arith, other, found))
]

effective :
    (org agent : ℕ) (s : Store) (a : AgentRow) (o : OrgRow) (teams : List ℕ)
    → find_agent agent s.agents ≡ some a
    → a.org_id ≡ org
    → find_org org s.orgs ≡ some o
    → teams_of a s ≡ some teams
    → (layers : EffectiveLayers) × (get_effective_layers agent s ≡ some layers)
      × (layers.spend_layers ≡ layers_for_class org teams agent spend s)
unfolding get_effective_layers
effective org agent s a o teams found own known walked = (
  record {
    org_id = a.org_id;
    policy_epoch = o.policy_epoch;
    spend_layers = layers_for_class a.org_id teams agent spend s;
    allocation_layers = layers_for_class a.org_id teams agent allocation s;
  },
  ground (arith, found, own, known, walked),
  ap (λ x. layers_for_class x teams agent spend s) own,
)

enforced_layer :
    (org : ℕ) (given : List (String × ℕ)) (s s' : Store) (r : FlowRole)
    → (s'.agents ≡ s.agents) × (s'.teams ≡ s.teams) × (has_org org s'.orgs ≡ true)
    → IsStaffed org given s r
    → IsGiven org given s' r
    → IsLayered org given s' r
unfolding IsStaffed IsGiven IsLayered IsEnforced layers_for_class
enforced_layer org given s s' r (agents, teams, known) (b, named, own)
      (agent, e, (policy, assigned, latest)) =
    let same : b ≡ agent = ground (arith, named, e) in
    let (o, org_found) = has_org-find_org org s'.orgs known in
    let (layers, answer, spends) =
      effective org agent s' own.row o own.teams
        (ap (find_agent agent) agents ∙ ap (λ x. find_agent x s.agents) (sym same) ∙ own.found)
        own.same_org org_found
        (ap (λ t. team_ancestry (suc (length t)) own.row.team_id t) teams ∙ own.walked) in
    (
      agent,
      e,
      layers,
      answer,
      policy,
      subst (Mem (version_one org policy (spend_rules r.spend))) (sym spends) (
          mem-append_right
            (layers_at org_scope org own.teams agent spend s'.policies s'.assignments)
            (mem-append_right
              (layers_at team_scope org own.teams agent spend s'.policies s'.assignments)
              (assigned_layer org agent policy own.teams _ s'.policies s'.assignments assigned
                latest))),
    )

staffed-some :
    (org : ℕ) (given : List (String × ℕ)) (s : Store) (r : FlowRole)
    → IsStaffed org given s r
    → is_some (role_agent r.role given) ≡ true
unfolding IsStaffed
staffed-some org given s r (agent, e, own) = ap is_some e

enforced_layers :
    (org : ℕ) (given : List (String × ℕ)) (s s' : Store) (rs : List FlowRole)
    → (s'.agents ≡ s.agents) × (s'.teams ≡ s.teams) × (has_org org s'.orgs ≡ true)
    → All (IsStaffed org given s) rs
    → All (IsGiven org given s') rs
    → All (IsLayered org given s') rs
enforced_layers org given s s' [] rows staffed given' = tt
enforced_layers org given s s' (r ∷ rs) rows staffed given' = (
  enforced_layer org given s s' r rows staffed.0 given'.0,
  enforced_layers org given s s' rs rows staffed.1 given'.1,
)

-- A flow is attached without a throw, in an org that exists and where the policies were all given out
-- by number, if every role has an agent whose row is of the org, with a walk over its teams that ends.
-- Then `getEffectiveLayers` answers for the agent of each role, and its spend layers have a policy
-- with the rules of the role.
pub attach-IsLayered :
    (org : ℕ) (rs : List FlowRole) (given : List (String × ℕ)) (s : Store)
    → has_org org s.orgs ≡ true
    → IsCounted s.next_id s.policies
    → All (IsStaffed org given s) rs
    → (is_some (attach_trading_flow org rs given s).1 ≡ true)
      × All (IsLayered org given (attach_trading_flow org rs given s).0) rs
attach-IsLayered org rs given s known c staffed =
    let named = All-map (staffed-some org given s) rs staffed in
    let out = attach-IsGiven org rs given s known c named in
    (
      out.0,
      enforced_layers org given s (attach_trading_flow org rs given s).0 rs
          (attach-rows org rs given s known c named) staffed out.1,
    )
