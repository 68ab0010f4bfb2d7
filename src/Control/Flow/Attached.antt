-- ===== src/Control/Flow/Attached.antt =====
-- Which policies an attached flow puts on which agents.
use casper_agops_server.Prelude.{
  ℕ, suc, ◌≤◌, ◌<◌, Bool, true, false, ◌&&◌, ◌||◌, none, some, List, [], ◌∷◌, All, ◌≡◌, refl, inl,
  inr, arith, Bool-cases, ◌=?◌, string_eq, =?_refl,
}
use casper_agops_server.Control.Store.{
  Store, OrgRow, PolicyVersion, Rules, spend_rules, allocation_rules, Assignment, spend, is_class,
  Scope, agent_scope, has_org, create_policy_version, assign_policy, max_version, bump_epoch,
  get_latest_policy_version,
}
use casper_agops_server.Control.Flow.{FlowRole, attach_assignment, attach_allocation, attach_role}

pub has_org-bump_epoch :
    (org o : ℕ) (os : List OrgRow) → has_org org (bump_epoch o os) ≡ has_org org os
unfolding has_org bump_epoch
has_org-bump_epoch org o [] = refl
has_org-bump_epoch org o (r ∷ os) = ground (arith, has_org-bump_epoch org o os)

-- The numbers of the policies were all given out.
abbrev pub IsCounted : ℕ → List PolicyVersion → Type 0
IsCounted n ps = All (λ p. p.policy_id < n) ps

IsCounted-later : (n m : ℕ) (ps : List PolicyVersion) → n ≤ m → IsCounted n ps → IsCounted m ps
IsCounted-later n m [] le c = tt
IsCounted-later n m (p ∷ ps) le c = (ground (arith, c.0), IsCounted-later n m ps le c.1)

counted_fresh : (n : ℕ) (ps : List PolicyVersion) → IsCounted n ps → max_version n ps ≡ 0
unfolding max_version
counted_fresh n [] c = refl
counted_fresh n (p ∷ ps) c = ground (arith, c.0, counted_fresh n ps c.1)

counted_none :
    (n : ℕ) (ps : List PolicyVersion) → IsCounted n ps → get_latest_policy_version n ps ≡ none
unfolding get_latest_policy_version
counted_none n [] c = refl
counted_none n (p ∷ ps) c = ground (arith, c.0, counted_none n ps c.1)

latest_below :
    (id n : ℕ) (v : PolicyVersion) (ps : List PolicyVersion)
    → IsCounted n ps
    → get_latest_policy_version id ps ≡ some v
    → id < n
unfolding get_latest_policy_version
latest_below id n v [] c e = absurd (cc)
latest_below id n v (p ∷ ps) c e = elim (Bool-cases (p.policy_id =? id)) [
  | inl same ↦ ground (arith, same, c.0)
  | inr other ↦ latest_below id n v ps c.1 (ground (arith, other, e))
]

abbrev pub version_one : ℕ → ℕ → Rules → PolicyVersion
version_one org id rules = record { policy_id = id; version = 1; org_id = org; rules = rules }

abbrev pub agent_assignment : ℕ → ℕ → ℕ → Assignment
agent_assignment org agent policy = record {
  org_id = org;
  scope = agent_scope;
  scope_id = agent;
  policy_id = policy;
  class = spend;
}

-- What the policies of a role add to a store.
abbrev pub attached : ℕ → FlowRole → ℕ → Store → Store
attached org r agent s = record s {
  policies =
      version_one org (suc s.next_id) (allocation_rules r.allocation)
      ∷ version_one org s.next_id (spend_rules r.spend)
      ∷ s.policies;
  assignments = agent_assignment org agent s.next_id ∷ s.assignments;
  orgs = bump_epoch org (bump_epoch org s.orgs);
  next_id = suc (suc s.next_id);
}

pub attach_role-attached :
    (org : ℕ) (r : FlowRole) (agent : ℕ) (s : Store)
    → has_org org s.orgs ≡ true
    → IsCounted s.next_id s.policies
    → attach_role org r agent s ≡ (attached org r agent s, some s.next_id)
unfolding attach_role attach_allocation attach_assignment create_policy_version assign_policy
    max_version
attach_role-attached org r agent s known c = ground (
  arith,
  known,
  counted_fresh s.next_id s.policies c,
  counted_fresh (suc s.next_id) s.policies
      (IsCounted-later s.next_id (suc s.next_id) s.policies (omega arith) c),
  has_org-bump_epoch org org s.orgs,
  has_org-bump_epoch org org (bump_epoch org s.orgs),
)

abbrev pub is_agent_scope : Scope → Bool
is_agent_scope agent_scope = true
is_agent_scope _ = false

-- An agent has a spend policy assigned, and the policy's latest version has the rules of the role.
abbrev pub is_assigned : ℕ → ℕ → ℕ → List Assignment → Bool
is_assigned org agent policy [] = false
is_assigned org agent policy (a ∷ as') =
    (a.org_id =? org
      && is_agent_scope a.scope
      && a.scope_id =? agent
      && a.policy_id =? policy
      && is_class a.class spend)
    || is_assigned org agent policy as'

unfoldable pub IsEnforced : ℕ → FlowRole → ℕ → Store → Type 0
IsEnforced org r agent s =
    (policy : ℕ) × (is_assigned org agent policy s.assignments ≡ true)
    × (get_latest_policy_version policy s.policies
        ≡ some (version_one org policy (spend_rules r.spend)))

pub IsCounted-attached :
    (org : ℕ) (r : FlowRole) (agent : ℕ) (s : Store)
    → IsCounted s.next_id s.policies
    → IsCounted (attached org r agent s).next_id (attached org r agent s).policies
IsCounted-attached org r agent s c = (
  omega arith,
  (omega arith, IsCounted-later s.next_id (suc (suc s.next_id)) s.policies (omega arith) c),
)

pub attached-IsEnforced :
    (org : ℕ) (r : FlowRole) (agent : ℕ) (s : Store)
    → IsCounted s.next_id s.policies
    → IsEnforced org r agent (attached org r agent s)
unfolding IsEnforced get_latest_policy_version
attached-IsEnforced org r agent s c = (
  s.next_id,
  ground (arith, =?_refl org, =?_refl agent, =?_refl s.next_id),
  ground (arith, =?_refl s.next_id, counted_none s.next_id s.policies c),
)

pub attached-keeps :
    (org : ℕ) (r q : FlowRole) (agent b : ℕ) (s : Store)
    → IsCounted s.next_id s.policies
    → IsEnforced org q b s
    → IsEnforced org q b (attached org r agent s)
unfolding IsEnforced get_latest_policy_version
attached-keeps org r q agent b s c (policy, assigned, latest) = (
  policy,
  ground (arith, assigned),
  ground (arith, latest, latest_below policy s.next_id _ s.policies c latest),
)
