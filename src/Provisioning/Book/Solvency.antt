-- ===== src/Provisioning/Book/Solvency.antt =====
-- The budget and the deposited funds bound what an org has promised to its agents.
use casper_agops_server.Prelude.{
  ℕ, ◌+◌, ◌≤◌, Bool, true, Option, none, some, List, [], ◌∷◌, ◌≡◌, refl, sym, ◌∙◌, inl, inr, arith,
  All, ltb, false,
}
use casper_agops_server.Provisioning.Book.{
  Lua, exceeds, max_exact, IsExact, Allocation, Book, AllocationParams, Funding, record_pending,
  submit_deposit, deposit_for, find_allocation, promote, confirm_record, confirm_deposit,
  cancel_allocation, sweep_record, sweep_all, reclaim, teardown_agent, Operation, deposits,
  confirms, tears_down, operate, run, float_of,
}
use casper_agops_server.Provisioning.Book.Sums.{
  pending_sum, delete-pending_sum, take_float-float_sum, float_of-take_float,
}
use casper_agops_server.Provisioning.Book.Balance.{
  IsBalanced, evaluate_cases, deposit-denied, sweep_record-IsBalanced, sweep_all-IsBalanced,
  operate-IsBalanced,
}

-- What the org has promised: the float of its agents and the deposits in flight.
abbrev pub outstanding : Book → ℕ
outstanding b = b.committed + b.reserved

confirm_record-outstanding :
    (final : Option Bool) (id : ℕ) (o : Option Allocation) (b : Book)
    → find_allocation id b.allocations ≡ o
    → IsBalanced b
    → outstanding (confirm_record final id o b).0 ≡ outstanding b
unfolding confirm_record promote
confirm_record-outstanding final id none b e c = refl
confirm_record-outstanding final id (some a) b e c =
    ground (arith, c.reserved_sum, delete-pending_sum id a b.allocations e)

confirm_deposit-outstanding :
    (final : Option Bool) (id : ℕ) (b : Book)
    → IsBalanced b
    → outstanding (confirm_deposit final id b).0 ≡ outstanding b
unfolding confirm_deposit
confirm_deposit-outstanding final id b c =
    confirm_record-outstanding final id (find_allocation id b.allocations) b refl c

sweep_record-outstanding :
    (final : ℕ → Option Bool) (agent id : ℕ) (o : Option Allocation) (b : Book)
    → IsBalanced b
    → outstanding (sweep_record final agent id o b) ≤ outstanding b
unfolding sweep_record cancel_allocation
sweep_record-outstanding final agent id none b c = ground arith
sweep_record-outstanding final agent id (some a) b c =
    ground (arith, confirm_deposit-outstanding (final id) id b c)

sweep_all-outstanding :
    (final : ℕ → Option Bool) (agent : ℕ) (ids : List ℕ) (b : Book)
    → IsBalanced b
    → outstanding (sweep_all final agent ids b) ≤ outstanding b
unfolding sweep_all
sweep_all-outstanding final agent [] b c = ground arith
sweep_all-outstanding final agent (id ∷ ids) b c =
    let o = find_allocation id b.allocations in
    omega (
      arith,
      sweep_record-outstanding final agent id o b c,
      sweep_all-outstanding final agent ids (sweep_record final agent id o b)
          (sweep_record-IsBalanced final agent id o b refl c),
    )

reclaim-outstanding :
    (reclaims : Bool) (agent : ℕ) (b : Book)
    → outstanding (reclaim reclaims agent b).0 ≤ outstanding b
unfolding reclaim
reclaim-outstanding reclaims agent b = ground arith

-- The operation's limits are at most the given ones, and its amount is exact as a double.
abbrev pub IsWithin : ℕ → ℕ → Operation → Type 0
IsWithin budget funds (deposits submits funding id p) =
    (p.total_budget ≤ budget) × (p.funded_total ≤ funds) × (p.requested ≤ max_exact)
IsWithin budget funds (confirms final id) = Unit
IsWithin budget funds (tears_down final reclaims agent) = Unit

within :
    (lua : Lua) (ceiling limit : ℕ) (p : AllocationParams) (b : Book)
    → IsExact lua
    → exceeds lua ceiling b.committed b.reserved p.requested ≡ false
    → ceiling ≤ limit
    → limit ≤ max_exact
    → p.requested ≤ max_exact
    → outstanding b ≤ max_exact
    → b.committed + b.reserved + p.requested ≤ limit
within lua ceiling limit p b exact e le bound requested small =
    let test =
      exact ceiling b.committed b.reserved p.requested (omega (arith, le, bound)) (omega arith)
        (omega arith) requested in
    let tested : ltb ceiling (b.committed + b.reserved + p.requested) ≡ false = sym test ∙ e in
    ground (arith, tested, le)

deposit_for-outstanding :
    (lua : Lua) (submits : Bool) (funding : Funding) (id : ℕ) (p : AllocationParams) (b : Book)
    (budget funds : ℕ)
    → IsExact lua
    → budget ≤ max_exact
    → funds ≤ max_exact
    → p.total_budget ≤ budget
    → p.funded_total ≤ funds
    → p.requested ≤ max_exact
    → outstanding b ≤ budget
    → outstanding b ≤ funds
    → (outstanding (deposit_for lua submits funding id p b).0 ≤ budget)
      × (outstanding (deposit_for lua submits funding id p b).0 ≤ funds)
unfolding deposit_for submit_deposit record_pending
deposit_for-outstanding lua submits funding id p b budget funds exact k l t f q x y =
    elim (evaluate_cases lua p b) [
      | inl (r, e) ↦ rw (deposit-denied lua submits funding id p b r e) (x, y)
      | inr (allowed, backed, e) ↦
          let small : outstanding b ≤ max_exact = omega (arith, x, k) in
          (
            ground (arith, e, within lua p.total_budget budget p b exact allowed t k q small, x),
            ground (arith, e, within lua p.funded_total funds p b exact backed f l q small, y),
          )
    ]

operate-outstanding :
    (lua : Lua) (b : Book) (x : Operation) (budget funds : ℕ)
    → IsExact lua
    → budget ≤ max_exact
    → funds ≤ max_exact
    → IsBalanced b
    → IsWithin budget funds x
    → outstanding b ≤ budget
    → outstanding b ≤ funds
    → (outstanding (operate lua b x) ≤ budget) × (outstanding (operate lua b x) ≤ funds)
unfolding operate teardown_agent
operate-outstanding lua b (deposits submits funding id p) budget funds exact k l c w x y =
    deposit_for-outstanding lua submits funding id p b budget funds exact k l w.0 w.1 w.2 x y
operate-outstanding lua b (confirms final id) budget funds exact k l c w x y = (
  omega (arith, confirm_deposit-outstanding final id b c),
  omega (arith, confirm_deposit-outstanding final id b c),
)
operate-outstanding lua b (tears_down final reclaims agent) budget funds exact k l c w x y =
    let swept = sweep_all final agent (b.pending agent) b in
    let less = sweep_all-outstanding final agent (b.pending agent) b c in
    (
      omega (arith, less, reclaim-outstanding reclaims agent swept),
      omega (arith, less, reclaim-outstanding reclaims agent swept),
    )

-- Whatever deposits, confirmations and teardowns run: if no deposit was judged by a larger budget or
-- by larger deposited funds than the given ones, the org has never promised more than either, provided
-- that Lua's test is exact up to 2 ^ 53 and neither the limits nor the requested amounts are larger.
pub run-IsSolvent :
    (lua : Lua) (b : Book) (xs : List Operation) (budget funds : ℕ)
    → IsExact lua
    → budget ≤ max_exact
    → funds ≤ max_exact
    → IsBalanced b
    → All (IsWithin budget funds) xs
    → outstanding b ≤ budget
    → outstanding b ≤ funds
    → (outstanding (run lua b xs) ≤ budget) × (outstanding (run lua b xs) ≤ funds)
unfolding run
run-IsSolvent lua b [] budget funds exact k l c w x y = (x, y)
run-IsSolvent lua b (o ∷ xs) budget funds exact k l c w x y =
    let (x', y') = operate-outstanding lua b o budget funds exact k l c w.0 x y in
    run-IsSolvent lua (operate lua b o) xs budget funds exact k l (operate-IsBalanced lua b o c) w.1
      x' y'

-- A teardown whose reclaim does not throw returns the agent's confirmed float as it is after the
-- sweep, leaves the agent none, and takes exactly that amount from the committed budget.
pub teardown_agent-reclaims :
    (final : ℕ → Option Bool) (agent : ℕ) (b : Book)
    → IsBalanced b
    → let swept = sweep_all final agent (b.pending agent) b in
      let after = (teardown_agent final true agent b).0 in
      ((teardown_agent final true agent b).1 ≡ some (float_of agent swept.float_confirmed))
      × (float_of agent after.float_confirmed ≡ 0)
      × (after.committed + float_of agent swept.float_confirmed ≡ swept.committed)
      × (after.reserved ≡ pending_sum after.allocations)
unfolding teardown_agent reclaim
teardown_agent-reclaims final agent b c =
    let swept = sweep_all final agent (b.pending agent) b in
    let k = sweep_all-IsBalanced final agent (b.pending agent) b c in
    (
      ground arith,
      ground (arith, float_of-take_float agent swept.float_confirmed),
      ground (arith, k.committed_sum, take_float-float_sum agent swept.float_confirmed),
      ground (arith, k.reserved_sum),
    )
