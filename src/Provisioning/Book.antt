-- ===== src/Provisioning/Book.antt =====
-- enforcement/allocation-eval.ts, provisioning/deposit.ts, confirm.ts and teardown.ts with
-- allocation-reserve.lua, confirm-allocation.lua and cancel-allocation.lua. A `Book` holds the keys
-- of one org and of its agents. The gateway, the funding and the finality of an operation are
-- arguments, and so is the arithmetic of Lua; a `none` of the former is a throw. An allocation id is new, as `randomUUID` makes it.
-- Subtraction stops at zero here and goes below it in Redis: the counters `reserved` and `committed`
-- are always the sums that are taken from them, so they do not differ.
pub mod Sums
pub mod Balance
pub mod Solvency
mod Tests
use casper_agops_server.Prelude.{
  ℕ, ◌+◌, ◌-◌, String, Bool, true, false, not, ◌&&◌, ◌||◌, Option, none, some, List, [], ◌∷◌, ◌≤◌,
  ◌≡◌, ltb, ◌=?◌, includes, string_eq, update, select, if◌then◌else◌,
}

pub record Allocation : Type 0 where
  pub agent_id : ℕ
  pub amount : ℕ
  pub is_pending : Bool

pub record Book : Type 0 where
  pub committed : ℕ
  pub reserved : ℕ
  pub float_pending : ℕ → ℕ
  pub float_confirmed : List (ℕ × ℕ)
  pub allocations : List (ℕ × Allocation)
  pub pending : ℕ → List ℕ
  pub deny_all : Bool

pub data DenyReason : Type 0 where
  org_suspended allocation_exceeded service_not_allowed allocation_cooldown : DenyReason
  treasury_insufficient_funds : DenyReason

pub record AllocationParams : Type 0 where
  pub agent_id : ℕ
  pub requested : ℕ
  pub destination : String
  pub seconds_since_last_allocation : Option ℕ
  pub total_budget : ℕ
  pub per_agent_max : ℕ
  pub allowed_destinations : List String
  pub cooldown_seconds : ℕ
  pub funded_total : ℕ

-- The numbers that Lua computes with.
pub record Lua : Type 1 where
  pub Number : Type 0
  pub tonumber : ℕ → Number
  pub minus : Number → Number → Number
  pub is_greater : Number → Number → Bool

-- `requested > ceiling - committed - reserved`.
abbrev pub exceeds : Lua → ℕ → ℕ → ℕ → ℕ → Bool
exceeds lua ceiling committed reserved requested =
    let available =
      lua.minus (lua.minus (lua.tonumber ceiling) (lua.tonumber committed))
        (lua.tonumber reserved) in
    lua.is_greater (lua.tonumber requested) available

-- Lua's numbers are doubles, with which the test is exact on integers up to 2 ^ 53.
abbrev pub max_exact : ℕ
max_exact = 9_007_199_254_740_992

abbrev pub IsExact : Lua → Type 0
IsExact lua =
    (ceiling committed reserved requested : ℕ)
    → ceiling ≤ max_exact
    → committed ≤ max_exact
    → reserved ≤ max_exact
    → requested ≤ max_exact
    → exceeds lua ceiling committed reserved requested
      ≡ ltb ceiling (committed + reserved + requested)

-- allocation-reserve.lua.
pub reserve_allocation : Lua → AllocationParams → Book → Book × Option DenyReason
reserve_allocation lua p b =
    if exceeds lua p.total_budget b.committed b.reserved p.requested
    then (b, some allocation_exceeded)
    else if exceeds lua p.funded_total b.committed b.reserved p.requested
    then (b, some treasury_insufficient_funds)
    else (record b { reserved = b.reserved + p.requested }, none)

pub is_cooling : ℕ → Option ℕ → Bool
is_cooling cooldown none = false
is_cooling cooldown (some gap) = ltb 0 cooldown && ltb gap cooldown

-- `evaluateAllocation`; `none` allows.
pub evaluate_allocation : Lua → AllocationParams → Book → Book × Option DenyReason
unfolding is_cooling reserve_allocation
evaluate_allocation lua p b =
    if b.deny_all
    then (b, some org_suspended)
    else if ltb p.per_agent_max p.requested
    then (b, some allocation_exceeded)
    else if not (includes p.allowed_destinations p.destination)
    then (b, some service_not_allowed)
    else if is_cooling p.cooldown_seconds p.seconds_since_last_allocation
    then (b, some allocation_cooldown)
    else reserve_allocation lua p b

pub data Funding : Type 0 where
  not_configured funded funding_throws : Funding

pub data DepositResult : Type 0 where
  submitted : (allocation_id : ℕ) → DepositResult
  deposit_denied : DenyReason → DepositResult
  funding_failed submit_threw : DepositResult

abbrev pub give_back : ℕ → Book → Book
give_back amount b = record b { reserved = b.reserved - amount }

pub record_pending : ℕ → ℕ → ℕ → Book → Book
record_pending id agent amount b = record b {
  float_pending = update b.float_pending agent (b.float_pending agent + amount);
  allocations =
      (id, record { agent_id = agent; amount = amount; is_pending = true }) ∷ b.allocations;
  pending = update b.pending agent (id ∷ b.pending agent);
}

-- After the reserve: the submission through the gateway, then the on-chain funding.
pub submit_deposit : Bool → Funding → ℕ → AllocationParams → Book → Book × DepositResult
unfolding record_pending
submit_deposit false funding id p b = (give_back p.requested b, submit_threw)
submit_deposit true funding_throws id p b = (give_back p.requested b, funding_failed)
submit_deposit true funded id p b = (record_pending id p.agent_id p.requested b, submitted id)
submit_deposit true not_configured id p b =
    (record_pending id p.agent_id p.requested b, submitted id)

-- `depositFor`.
pub deposit_for : Lua → Bool → Funding → ℕ → AllocationParams → Book → Book × DepositResult
unfolding evaluate_allocation submit_deposit
deposit_for lua submits funding id p b =
    let (b', denied) = evaluate_allocation lua p b in
    elim denied [ none ↦ submit_deposit submits funding id p b' | some r ↦ (b', deposit_denied r) ]

pub find_allocation : ℕ → List (ℕ × Allocation) → Option Allocation
find_allocation id [] = none
find_allocation id ((k, a) ∷ l) = if k =? id then some a else find_allocation id l

pub set_confirmed : ℕ → List (ℕ × Allocation) → List (ℕ × Allocation)
set_confirmed id [] = []
set_confirmed id ((k, a) ∷ l) =
    if k =? id then (k, record a { is_pending = false }) ∷ l else (k, a) ∷ set_confirmed id l

-- `DEL`.
pub delete_allocation : ℕ → List (ℕ × Allocation) → List (ℕ × Allocation)
delete_allocation id [] = []
delete_allocation id ((k, a) ∷ l) = if k =? id then l else (k, a) ∷ delete_allocation id l

-- `GET` and `INCRBY` of the agents' confirmed float.
pub float_of : ℕ → List (ℕ × ℕ) → ℕ
float_of agent [] = 0
float_of agent ((k, f) ∷ l) = if k =? agent then f else float_of agent l

pub add_float : ℕ → ℕ → List (ℕ × ℕ) → List (ℕ × ℕ)
add_float agent amount [] = (agent, amount) ∷ []
add_float agent amount ((k, f) ∷ l) =
    if k =? agent then (k, f + amount) ∷ l else (k, f) ∷ add_float agent amount l

pub take_float : ℕ → ℕ → List (ℕ × ℕ) → List (ℕ × ℕ)
take_float agent amount [] = []
take_float agent amount ((k, f) ∷ l) =
    if k =? agent then (k, f - amount) ∷ l else (k, f) ∷ take_float agent amount l

-- `SREM`.
abbrev pub drop_pending : ℕ → ℕ → Book → Book
drop_pending agent id b = record b {
  pending = update b.pending agent (select (λ k. not (k =? id)) (b.pending agent));
}

-- confirm-allocation.lua on a record that is pending.
pub promote : ℕ → Allocation → Book → Book
unfolding set_confirmed add_float
promote id a b = record b {
  allocations = set_confirmed id b.allocations;
  float_pending = update b.float_pending a.agent_id (b.float_pending a.agent_id - a.amount);
  float_confirmed = add_float a.agent_id a.amount b.float_confirmed;
  reserved = b.reserved - a.amount;
  committed = b.committed + a.amount;
}

pub data ConfirmResult : Type 0 where
  noop still_pending confirmed : ConfirmResult

pub confirm_record : Option Bool → ℕ → Option Allocation → Book → Book × ConfirmResult
unfolding promote delete_allocation
confirm_record final id none b = (b, noop)
confirm_record final id (some a) b = if not a.is_pending then (b, noop) else elim final [
  | none ↦ (b, still_pending)
  | some false ↦ (b, still_pending)
  | some true ↦
      let b' = drop_pending a.agent_id id (promote id a b) in
      (record b' { allocations = delete_allocation id b'.allocations }, confirmed)
]

-- `confirmDeposit`, with the answer of `isFinal`.
pub confirm_deposit : Option Bool → ℕ → Book → Book × ConfirmResult
unfolding find_allocation confirm_record
confirm_deposit final id b = confirm_record final id (find_allocation id b.allocations) b

-- cancel-allocation.lua on a record that is pending.
pub cancel_allocation : ℕ → ℕ → ℕ → Book → Book
unfolding delete_allocation
cancel_allocation agent id amount b =
    let b' = drop_pending agent id b in
    record b' {
      float_pending = update b.float_pending agent (b.float_pending agent - amount);
      reserved = b.reserved - amount;
      allocations = delete_allocation id b.allocations;
    }

-- One round of the loop of `teardownAgent`.
pub sweep_record : (ℕ → Option Bool) → ℕ → ℕ → Option Allocation → Book → Book
unfolding confirm_deposit cancel_allocation
sweep_record final agent id none b = drop_pending agent id b
sweep_record final agent id (some a) b =
    if not a.is_pending
    then drop_pending agent id b
    else let (b', result) = confirm_deposit (final id) id b in
      elim result [
        | still_pending ↦ cancel_allocation agent id a.amount b'
        | noop ↦ b'
        | confirmed ↦ b'
      ]

pub sweep_all : (ℕ → Option Bool) → ℕ → List ℕ → Book → Book
unfolding find_allocation sweep_record
sweep_all final agent [] b = b
sweep_all final agent (id ∷ ids) b =
    sweep_all final agent ids (sweep_record final agent id (find_allocation id b.allocations) b)

-- The reclaim of the confirmed float; the gateway may throw.
pub reclaim : Bool → ℕ → Book → Book × Option ℕ
unfolding float_of take_float
reclaim reclaims agent b =
    let amount = float_of agent b.float_confirmed in
    if not (ltb 0 amount) then (b, some 0) else if not reclaims then (b, none) else (
      record b {
        float_confirmed = take_float agent amount b.float_confirmed;
        committed = b.committed - amount;
      },
      some amount,
    )

-- `teardownAgent`; the suspension of the agent and the sweep of its own account touch no key here.
pub teardown_agent : (ℕ → Option Bool) → Bool → ℕ → Book → Book × Option ℕ
unfolding sweep_all reclaim
teardown_agent final reclaims agent b =
    reclaim reclaims agent (sweep_all final agent (b.pending agent) b)

pub data Operation : Type 0 where
  deposits : Bool → Funding → (id : ℕ) → AllocationParams → Operation
  confirms : Option Bool → (id : ℕ) → Operation
  tears_down : (ℕ → Option Bool) → Bool → (agent : ℕ) → Operation

pub operate : Lua → Book → Operation → Book
unfolding deposit_for confirm_deposit teardown_agent
operate lua b (deposits submits funding id p) = (deposit_for lua submits funding id p b).0
operate lua b (confirms final id) = (confirm_deposit final id b).0
operate lua b (tears_down final reclaims agent) = (teardown_agent final reclaims agent b).0

pub run : Lua → Book → List Operation → Book
unfolding operate
run lua b [] = b
run lua b (x ∷ xs) = run lua (operate lua b x) xs

-- An org before its first deposit.
pub empty_book : Book
empty_book = record {
  committed = 0;
  reserved = 0;
  float_pending = λ a. 0;
  float_confirmed = [];
  allocations = [];
  pending = λ a. [];
  deny_all = false;
}
