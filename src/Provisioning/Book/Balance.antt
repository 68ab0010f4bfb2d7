-- ===== src/Provisioning/Book/Balance.antt =====
-- The counters of an org are the sums over its allocations and its agents' float.
use casper_agops_server.Prelude.{
  false, ℕ, ◌+◌, Bool, true, Option, none, some, List, [], ◌∷◌, ◌≡◌, refl, inl, inr, arith,
  Bool-cases, Option-cases, ◌⊎◌,
}
use casper_agops_server.Provisioning.Book.{
  Lua, exceeds, Allocation, Book, AllocationParams, DenyReason, Funding, reserve_allocation,
  evaluate_allocation, record_pending, submit_deposit, deposit_for, find_allocation, promote,
  confirm_record, confirm_deposit, cancel_allocation, sweep_record, sweep_all, reclaim,
  teardown_agent, Operation, deposits, confirms, tears_down, operate, run, noop, still_pending,
  confirmed, ConfirmResult,
}
use casper_agops_server.Provisioning.Book.Sums.{
  pending_sum, float_sum, delete-pending_sum, delete-set_confirmed, add_float-float_sum,
  take_float-float_sum,
}

pub record IsBalanced (b : Book) : Type 0 where
  pub reserved_sum : b.reserved ≡ pending_sum b.allocations
  pub committed_sum : b.committed ≡ float_sum b.float_confirmed

-- An allocation either reserves its amount, or is denied and changes nothing.
pub evaluate_cases :
    (lua : Lua) (p : AllocationParams) (b : Book)
    → ((r : DenyReason) × (evaluate_allocation lua p b ≡ (b, some r)))
      ⊎ (exceeds lua p.total_budget b.committed b.reserved p.requested ≡ false)
        × (exceeds lua p.funded_total b.committed b.reserved p.requested ≡ false)
        × (evaluate_allocation lua p b ≡ (record b { reserved = b.reserved + p.requested }, none))
unfolding evaluate_allocation reserve_allocation
evaluate_cases lua p b = elim (Option-cases (evaluate_allocation lua p b).1) [
  | inr (r, e) ↦ inl (r, ground (arith, e))
  | inl e ↦ inr (ground (arith, e), ground (arith, e), ground (arith, e))
]

pub deposit-denied :
    (lua : Lua) (submits : Bool) (funding : Funding) (id : ℕ) (p : AllocationParams) (b : Book)
    (r : DenyReason)
    → evaluate_allocation lua p b ≡ (b, some r)
    → (deposit_for lua submits funding id p b).0 ≡ b
unfolding deposit_for
deposit-denied lua submits funding id p b r e = ground (arith, e)

pub deposit_for-IsBalanced :
    (lua : Lua) (submits : Bool) (funding : Funding) (id : ℕ) (p : AllocationParams) (b : Book)
    → IsBalanced b
    → IsBalanced (deposit_for lua submits funding id p b).0
unfolding deposit_for submit_deposit record_pending pending_sum
deposit_for-IsBalanced lua submits funding id p b c = elim (evaluate_cases lua p b) [
  | inl (r, e) ↦ rw (deposit-denied lua submits funding id p b r e) c
  | inr (within, funds, e) ↦ record {
    reserved_sum = ground (arith, e, c.reserved_sum);
    committed_sum = ground (arith, e, c.committed_sum);
  }
]

confirm_record-IsBalanced :
    (final : Option Bool) (id : ℕ) (o : Option Allocation) (b : Book)
    → find_allocation id b.allocations ≡ o
    → IsBalanced b
    → IsBalanced (confirm_record final id o b).0
unfolding confirm_record promote
confirm_record-IsBalanced final id none b e c = c
confirm_record-IsBalanced final id (some a) b e c = record {
  reserved_sum = ground (
    arith,
    c.reserved_sum,
    delete-pending_sum id a b.allocations e,
    delete-set_confirmed id b.allocations,
  );
  committed_sum =
      ground (arith, c.committed_sum, add_float-float_sum a.agent_id a.amount b.float_confirmed);
}

pub confirm_deposit-IsBalanced :
    (final : Option Bool) (id : ℕ) (b : Book)
    → IsBalanced b
    → IsBalanced (confirm_deposit final id b).0
unfolding confirm_deposit
confirm_deposit-IsBalanced final id b c =
    confirm_record-IsBalanced final id (find_allocation id b.allocations) b refl c

confirm_record-unchanged :
    (final : Option Bool) (id : ℕ) (o : Option Allocation) (b : Book)
    → (confirm_record final id o b).1 ≡ still_pending
    → (confirm_record final id o b).0 ≡ b
unfolding confirm_record
confirm_record-unchanged final id none b e = refl
confirm_record-unchanged final id (some a) b e = ground (arith, e)

pub confirm-unchanged :
    (final : Option Bool) (id : ℕ) (b : Book)
    → (confirm_deposit final id b).1 ≡ still_pending
    → (confirm_deposit final id b).0 ≡ b
unfolding confirm_deposit
confirm-unchanged final id b e =
    confirm_record-unchanged final id (find_allocation id b.allocations) b e

pub cancel-IsBalanced :
    (agent id : ℕ) (a : Allocation) (b : Book)
    → find_allocation id b.allocations ≡ some a
    → a.is_pending ≡ true
    → IsBalanced b
    → IsBalanced (cancel_allocation agent id a.amount b)
unfolding cancel_allocation
cancel-IsBalanced agent id a b e live c = record {
  reserved_sum = ground (arith, live, c.reserved_sum, delete-pending_sum id a b.allocations e);
  committed_sum = c.committed_sum;
}

pub sweep_record-IsBalanced :
    (final : ℕ → Option Bool) (agent id : ℕ) (o : Option Allocation) (b : Book)
    → find_allocation id b.allocations ≡ o
    → IsBalanced b
    → IsBalanced (sweep_record final agent id o b)
unfolding sweep_record
sweep_record-IsBalanced final agent id none b e c = record {
  reserved_sum = c.reserved_sum;
  committed_sum = c.committed_sum;
}
sweep_record-IsBalanced final agent id (some a) b e c = elim (Bool-cases a.is_pending) [
  | inr done ↦
      rw (sweep_record, done)
        (record { reserved_sum = c.reserved_sum; committed_sum = c.committed_sum })
  | inl live ↦ go live (confirm_deposit (final id) id b).1 refl
]
  where
    go :
        a.is_pending ≡ true
        → (r : ConfirmResult) → (confirm_deposit (final id) id b).1 ≡ r
        → IsBalanced (sweep_record final agent id (some a) b)
    go live noop f = rw (sweep_record, live, f) (confirm_deposit-IsBalanced (final id) id b c)
    go live confirmed f = rw (sweep_record, live, f) (confirm_deposit-IsBalanced (final id) id b c)
    go live still_pending f =
        rw (sweep_record, live, f, confirm-unchanged (final id) id b f)
          (cancel-IsBalanced agent id a b e live c)

pub sweep_all-IsBalanced :
    (final : ℕ → Option Bool) (agent : ℕ) (ids : List ℕ) (b : Book)
    → IsBalanced b
    → IsBalanced (sweep_all final agent ids b)
unfolding sweep_all
sweep_all-IsBalanced final agent [] b c = c
sweep_all-IsBalanced final agent (id ∷ ids) b c =
    sweep_all-IsBalanced final agent ids _
      (sweep_record-IsBalanced final agent id (find_allocation id b.allocations) b refl c)

reclaim-IsBalanced :
    (reclaims : Bool) (agent : ℕ) (b : Book)
    → IsBalanced b
    → IsBalanced (reclaim reclaims agent b).0
unfolding reclaim
reclaim-IsBalanced reclaims agent b c = record {
  reserved_sum = ground (arith, c.reserved_sum);
  committed_sum = ground (arith, c.committed_sum, take_float-float_sum agent b.float_confirmed);
}

pub operate-IsBalanced :
    (lua : Lua) (b : Book) (x : Operation) → IsBalanced b → IsBalanced (operate lua b x)
unfolding operate teardown_agent
operate-IsBalanced lua b (deposits submits funding id p) c =
    deposit_for-IsBalanced lua submits funding id p b c
operate-IsBalanced lua b (confirms final id) c = confirm_deposit-IsBalanced final id b c
operate-IsBalanced lua b (tears_down final reclaims agent) c =
    reclaim-IsBalanced reclaims agent (sweep_all final agent (b.pending agent) b)
      (sweep_all-IsBalanced final agent (b.pending agent) b c)

-- Whatever deposits, confirmations and teardowns run, in any order and with any failure of the
-- gateway, the funding or the finality reads, the reserved budget is the sum of the pending
-- allocations and the committed budget is the sum of the agents' confirmed float.
pub run-IsBalanced :
    (lua : Lua) (b : Book) (xs : List Operation) → IsBalanced b → IsBalanced (run lua b xs)
unfolding run
run-IsBalanced lua b [] c = c
run-IsBalanced lua b (x ∷ xs) c =
    run-IsBalanced lua (operate lua b x) xs (operate-IsBalanced lua b x c)
