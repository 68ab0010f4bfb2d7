-- ===== src/Control/Flow/Untouched.antt =====
-- The assignments that attaching a flow leaves as they were.
use casper_agops_server.Prelude.{
  ℕ, String, Bool, false, some, List, [], ◌∷◌, select, ◌≡◌, refl, ◌⊎◌, inl, inr, arith, Bool-cases,
  Option-cases,
}
use casper_agops_server.Control.Store.{
  Store, Assignment, allocation, is_class, has_org, bump_epoch, create_policy_version,
  assign_policy,
}
use casper_agops_server.Control.Flow.{
  FlowRole, role_agent, attach_assignment, attach_allocation, attach_role, attach_trading_flow,
}
use casper_agops_server.Control.Flow.Attached.{has_org-bump_epoch, agent_assignment}
use casper_agops_server.Control.Flow.Enforced.{attached_more-store}

-- The policies of a role add one assignment, or none.
attach_role-assignments :
    (org : ℕ) (r : FlowRole) (agent : ℕ) (s : Store)
    → ((attach_role org r agent s).0.assignments ≡ s.assignments)
      ⊎ (policy : ℕ) × ((attach_role org r agent s).0.assignments
          ≡ agent_assignment org agent policy ∷ s.assignments)
unfolding attach_role attach_allocation attach_assignment create_policy_version assign_policy
attach_role-assignments org r agent s = elim (Bool-cases (has_org org s.orgs)) [
  | inr unknown ↦ inl (ground (arith, unknown))
  | inl known ↦ inr (
    s.next_id,
    ground (
      arith,
      known,
      has_org-bump_epoch org org s.orgs,
      has_org-bump_epoch org org (bump_epoch org s.orgs),
    ),
  )
]

module _ (keep : Assignment → Bool) (org : ℕ) (given : List (String × ℕ))
    (others : (role : String) (agent policy : ℕ)
      → role_agent role given ≡ some agent
      → keep (agent_assignment org agent policy) ≡ false) where
  role-select :
      (r : FlowRole) (agent : ℕ) (s : Store)
      → role_agent r.role given ≡ some agent
      → select keep (attach_role org r agent s).0.assignments ≡ select keep s.assignments
  role-select r agent s e = elim (attach_role-assignments org r agent s) [
    | inl same ↦ rw same refl
    | inr (policy, more) ↦ rw more (ground (arith, others r.role agent policy e))
  ]

  -- What is kept of the assignments is nothing that the flow's agents are given.
  pub attach-select :
      (rs : List FlowRole) (s : Store)
      → select keep (attach_trading_flow org rs given s).0.assignments ≡ select keep s.assignments
  unfolding attach_trading_flow
  attach-select [] s = refl
  attach-select (r ∷ rs) s = elim (Option-cases (role_agent r.role given)) [
    | inl missing ↦ ground (arith, missing)
    | inr (agent, e) ↦ elim (Option-cases (attach_role org r agent s).1) [
      | inl throws ↦ ground (arith, e, throws, role-select r agent s e)
      | inr (policy, p) ↦ ground (
        arith,
        e,
        p,
        (attached_more-store (r.role, (agent, policy))
            (attach_trading_flow org rs given (attach_role org r agent s).0)).0,
        attach-select rs (attach_role org r agent s).0,
        role-select r agent s e,
      )
    ]
  ]

-- Attaching a flow, whether it throws or not, leaves the assignments of the allocation class as they
-- were.
pub attach-allocation :
    (org : ℕ) (rs : List FlowRole) (given : List (String × ℕ)) (s : Store)
    → select (λ a. is_class a.class allocation) (attach_trading_flow org rs given s).0.assignments
      ≡ select (λ a. is_class a.class allocation) s.assignments
attach-allocation org rs given s =
    attach-select (λ a. is_class a.class allocation) org given (λ role agent policy e. refl) rs s
