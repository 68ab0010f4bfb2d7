-- ===== src/Ledger/Hot.antt =====
-- ledger/window.ts with its Lua scripts: one agent's spend windows, holds and float counters. A
-- script is one atomic step. Payment ids are numbers, which the code only compares; times are
-- Unix seconds; amounts are base units, exact as in the scripts' decimal strings.
pub mod Closed
pub mod Windows
pub mod Invariant
pub mod Reserve
pub mod Resolve
mod Tests
use casper_agops_server.Prelude.{
  ℕ, ◌+◌, ◌-◌, ◌*◌, ◌/◌, Bool, true, false, Option, none, some, List, [], ◌∷◌, ltb, leb, ◌=?◌, ◌&&◌,
  not, update, is_some, if◌then◌else◌,
}

-- A sorted set as its members with their scores; only sums and counts over it are observed.
abbrev pub Zset : Type 0
Zset = List (ℕ × ℕ)

pub record Hot : Type 0 where
  pub hour : Zset
  pub day : Zset
  pub week : Zset
  pub month : Zset
  pub spend_amounts : ℕ → Option ℕ
  pub reserved : ℕ
  pub reserved_holds : ℕ → Bool
  pub settled_holds : ℕ → Bool
  pub float_confirmed : ℕ
  pub consumed : ℕ

-- `ZADD`: a member that is there gets the new score.
pub zadd : ℕ → ℕ → Zset → Zset
zadd score m [] = (m, score) ∷ []
zadd score m ((k, s) ∷ z) = if k =? m then (k, score) ∷ z else (k, s) ∷ zadd score m z

-- `ZREM`.
pub zrem : ℕ → Zset → Zset
zrem m [] = []
zrem m ((k, s) ∷ z) = if k =? m then z else (k, s) ∷ zrem m z

-- `ZCOUNT key min +inf`.
unfoldable pub zcount : ℕ → Zset → ℕ
zcount min [] = 0
zcount min ((k, s) ∷ z) = (if leb min s then 1 else 0) + zcount min z

-- A missing amount is left out of a sum.
abbrev pub or_zero : Option ℕ → ℕ
or_zero none = 0
or_zero (some a) = a

-- `ZRANGEBYSCORE key min +inf`, and the amounts of the members, added up.
unfoldable pub zsum : (ℕ → Option ℕ) → ℕ → Zset → ℕ
zsum amounts min [] = 0
zsum amounts min ((k, s) ∷ z) = (if leb min s then or_zero (amounts k) else 0) + zsum amounts min z

pub data Window : Type 0 where
  one_hour one_day seven_days thirty_days : Window

abbrev pub window_seconds : Window → ℕ
window_seconds one_hour = 60 * 60
window_seconds one_day = 24 * 60 * 60
window_seconds seven_days = 7 * 24 * 60 * 60
window_seconds thirty_days = 30 * 24 * 60 * 60

-- `Math.floor(now / width) * width`: the start of the tumbling bucket.
unfoldable pub snapshot_windows : ℕ → Window → ℕ
snapshot_windows now w = now / window_seconds w * window_seconds w

abbrev pub spend_window : Hot → Window → Zset
spend_window h one_hour = h.hour
spend_window h one_day = h.day
spend_window h seven_days = h.week
spend_window h thirty_days = h.month

pub window_sum : Hot → Window → ℕ → ℕ
window_sum h w min = zsum h.spend_amounts min (spend_window h w)

-- The writes that both reserve scripts end with.
unfoldable pub write_hold : ℕ → ℕ → ℕ → Hot → Hot
write_hold payment amount ts h = record h {
  hour = zadd ts payment h.hour;
  day = zadd ts payment h.day;
  week = zadd ts payment h.week;
  month = zadd ts payment h.month;
  spend_amounts = update h.spend_amounts payment (some amount);
  reserved = h.reserved + amount;
  reserved_holds = update h.reserved_holds payment true;
}

pub reserve_hold : ℕ → ℕ → ℕ → Hot → Hot × Bool
reserve_hold payment amount ts h =
    if is_some (h.spend_amounts payment) then (h, false) else (write_hold payment amount ts h, true)

pub data PolicyReserve : Type 0 where
  reserved duplicate cap_exceeded velocity_exceeded insufficient_float : PolicyReserve

pub record ReserveParams : Type 0 where
  pub payment_id : ℕ
  pub amount : ℕ
  pub enforcement_ts : ℕ
  pub spend_cap : ℕ
  pub velocity_limit_per_hour : ℕ
  pub enforce_solvency : Bool

-- The solvency leg of reserve-with-policy.lua: the amount is more than the agent has left.
unfoldable pub is_insolvent : Hot → ℕ → Bool
is_insolvent h amount =
    if leb h.float_confirmed (h.consumed + h.reserved)
    then true
    else ltb (h.float_confirmed - (h.consumed + h.reserved)) amount

-- reserve-with-policy.lua, with its two lower bounds.
unfoldable pub reserve_script : ℕ → ℕ → ReserveParams → Hot → Hot × PolicyReserve
reserve_script cap_min velocity_min p h =
    if is_some (h.spend_amounts p.payment_id)
    then (h, duplicate)
    else if leb p.velocity_limit_per_hour (zcount velocity_min h.hour)
    then (h, velocity_exceeded)
    else if ltb p.spend_cap (zsum h.spend_amounts cap_min h.month + p.amount)
    then (h, cap_exceeded)
    else if p.enforce_solvency && is_insolvent h p.amount
    then (h, insufficient_float)
    else (write_hold p.payment_id p.amount p.enforcement_ts h, reserved)

unfoldable pub reserve_hold_within_policy : ReserveParams → Hot → Hot × PolicyReserve
unfolding reserve_script
reserve_hold_within_policy p =
    reserve_script (snapshot_windows p.enforcement_ts thirty_days)
      (snapshot_windows p.enforcement_ts one_hour) p

-- settle.lua: the spend stays in the windows and leaves the reserved counter.
pub settle_amount : ℕ → Option ℕ → Hot → Hot × Bool
settle_amount payment none h =
    (record h { reserved_holds = update h.reserved_holds payment false }, false)
settle_amount payment (some amount) h = (
  record h {
    reserved = h.reserved - amount;
    reserved_holds = update h.reserved_holds payment false;
    settled_holds = update h.settled_holds payment true;
  },
  true,
)

pub settle_hold : ℕ → Hot → Hot × Bool
unfolding settle_amount
settle_hold payment h =
    if h.reserved_holds payment
    then settle_amount payment (h.spend_amounts payment) h
    else (h, false)

-- release.lua: the hold leaves every window, unless it is settled.
pub drop_hold : ℕ → ℕ → Hot → Hot
drop_hold payment amount h = record h {
  hour = zrem payment h.hour;
  day = zrem payment h.day;
  week = zrem payment h.week;
  month = zrem payment h.month;
  spend_amounts = update h.spend_amounts payment none;
  reserved = if h.reserved_holds payment then h.reserved - amount else h.reserved;
  reserved_holds = update h.reserved_holds payment false;
}

pub release_amount : ℕ → Option ℕ → Hot → Hot × Bool
unfolding drop_hold
release_amount payment none h = (h, false)
release_amount payment (some amount) h = (drop_hold payment amount h, true)

pub release_hold : ℕ → Hot → Hot × Bool
unfolding release_amount
release_hold payment h =
    if h.settled_holds payment
    then (h, false)
    else release_amount payment (h.spend_amounts payment) h

-- The scripts that write an agent's hot keys, as one type of commands; `reserves_unchecked` is
-- reserve.lua, which looks at no limit. `credits` and `reclaims` are
-- the writes of confirm-allocation.lua and of the teardown to the float counter.
pub data Command : Type 0 where
  reserves : ReserveParams → Command
  reserves_unchecked : (payment_id amount enforcement_ts : ℕ) → Command
  settles releases : ℕ → Command
  credits reclaims : ℕ → Command

pub step : Hot → Command → Hot
step h (reserves p) = (reserve_hold_within_policy p h).0
step h (reserves_unchecked payment amount ts) = (reserve_hold payment amount ts h).0
step h (settles payment) = (settle_hold payment h).0
step h (releases payment) = (release_hold payment h).0
step h (credits amount) = record h { float_confirmed = h.float_confirmed + amount }
step h (reclaims amount) = record h { float_confirmed = h.float_confirmed - amount }

pub run : Hot → List Command → Hot
run h [] = h
run h (c ∷ cs) = run (step h c) cs

-- The keys before the first write.
unfoldable pub empty_hot : Hot
empty_hot = record {
  hour = [];
  day = [];
  week = [];
  month = [];
  spend_amounts = λ k. none;
  reserved = 0;
  reserved_holds = λ k. false;
  settled_holds = λ k. false;
  float_confirmed = 0;
  consumed = 0;
}
