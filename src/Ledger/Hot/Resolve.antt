-- ===== src/Ledger/Hot/Resolve.antt =====
-- How holds end: settled once and then never released, or released without a trace.
use casper_agops_server.Prelude.{
  ℕ, suc, zero, ◌+◌, ◌-◌, ◌*◌, ◌≤◌, ◌<◌, true, false, none, some, List, [], ◌∷◌, ◌≡◌, refl, ap, ◌∙◌,
  inl, inr, arith, update, is_some, =?_refl, update_undo, Bool-cases, Option-cases,
}
use casper_agops_server.Ledger.Hot.{
  Hot, zadd, zcount, write_hold, ReserveParams, window_sum, thirty_days, one_hour, Window,
  snapshot_windows, settle_hold, settle_amount, release_hold, release_amount, drop_hold, Command,
  reserves, reserves_unchecked, settles, releases, credits, reclaims, step, run, reserve_hold,
  reserve_script, reserve_hold_within_policy,
}
use casper_agops_server.Ledger.Hot.Windows.{has, zrem-zadd, zcount-zadd}
use casper_agops_server.Ledger.Hot.Invariant.{
  IsValid, write_hold-IsValid, settle_hold-IsValid, step-IsValid,
}
use casper_agops_server.Ledger.Hot.Reserve.{
  IsAdmissible, IsAdmissible→reserved, reserve-writes, settle-window_sum, write_hold-window_sum,
  snapshot-le,
}

step-keeps_settled :
    (payment : ℕ) (h : Hot)
    → h.settled_holds payment ≡ true
    → (c : Command) → (step h c).settled_holds payment ≡ true
unfolding step settle_hold settle_amount release_hold release_amount drop_hold reserve_hold
    reserve_hold_within_policy reserve_script write_hold
step-keeps_settled payment h s (reserves p) = ground (arith, s)
step-keeps_settled payment h s (reserves_unchecked k amount ts) = ground (arith, s)
step-keeps_settled payment h s (settles k) = elim (Option-cases (h.spend_amounts k)) [
  | inl missing ↦ ground (arith, s, missing)
  | inr (a, e) ↦ ground (arith, s, e)
]
step-keeps_settled payment h s (releases k) = elim (Option-cases (h.spend_amounts k)) [
  | inl missing ↦ ground (arith, s, missing)
  | inr (a, e) ↦ ground (arith, s, e)
]
step-keeps_settled payment h s (credits amount) = s
step-keeps_settled payment h s (reclaims amount) = s

-- What is settled can be neither settled nor released again, whatever scripts run before.
settled_for_good :
    (payment : ℕ) (h : Hot) (cs : List Command)
    → IsValid h
    → h.settled_holds payment ≡ true
    → (settle_hold payment (run h cs) ≡ (run h cs, false))
      × (release_hold payment (run h cs) ≡ (run h cs, false))
unfolding run settle_hold release_hold
settled_for_good payment h [] v s = (ground (arith, v.exclusive payment, s), ground (arith, s))
settled_for_good payment h (c ∷ cs) v s =
    settled_for_good payment (step h c) cs (step-IsValid h c v) (step-keeps_settled payment h s c)

-- An outstanding hold is settled by the first call: its amount leaves the reserved counter, every
-- window keeps counting it, and the float counters stay. After any further scripts, a second settle
-- and a release answer `false` and change nothing.
pub settle_once :
    (payment amount : ℕ) (h : Hot)
    → IsValid h
    → h.reserved_holds payment ≡ true
    → h.spend_amounts payment ≡ some amount
    → let h' = (settle_hold payment h).0 in
      ((settle_hold payment h).1 ≡ true)
      × (h'.reserved ≡ h.reserved - amount)
      × ((w : Window) (min : ℕ) → window_sum h' w min ≡ window_sum h w min)
      × (h'.consumed ≡ h.consumed)
      × (h'.float_confirmed ≡ h.float_confirmed)
      × ((cs : List Command)
          → (settle_hold payment (run h' cs) ≡ (run h' cs, false))
            × (release_hold payment (run h' cs) ≡ (run h' cs, false)))
unfolding settle_hold settle_amount release_hold
settle_once payment amount h v held found = (
  ground arith,
  ground arith,
  λ w min. settle-window_sum payment min w h,
  ground arith,
  ground arith,
  λ cs.
      settled_for_good payment (settle_hold payment h).0 cs (settle_hold-IsValid payment h v)
        (ground (arith, held, found)),
)

-- Releasing a hold that was just written answers `true` and gives back the state before it.
pub release-write_hold :
    (payment amount ts : ℕ) (h : Hot)
    → IsValid h
    → h.spend_amounts payment ≡ none
    → release_hold payment (write_hold payment amount ts h) ≡ (h, true)
unfolding release_hold release_amount drop_hold write_hold
release-write_hold payment amount ts h v fresh = elim (Bool-cases (h.settled_holds payment)) [
  | inl settled ↦ absurd (cc (v.settled_listed payment settled, fresh))
  | inr unsettled ↦ rw (unsettled, =?_refl payment) (ap (λ k. (k, true)) undone)
]
  where
    absent : has payment h.month ≡ false
    absent = v.listed payment ∙ ap is_some fresh

    free : h.reserved_holds payment ≡ false
    free = elim (Bool-cases (h.reserved_holds payment)) [
      | inl held ↦ absurd (cc (v.held_listed payment held, fresh))
      | inr e ↦ e
    ]

    undone : drop_hold payment amount (write_hold payment amount ts h) ≡ h
    undone = λ i. record {
      hour = zrem-zadd ts payment h.hour (ap (has payment) v.hour_same ∙ absent) i;
      day = zrem-zadd ts payment h.day (ap (has payment) v.day_same ∙ absent) i;
      week = zrem-zadd ts payment h.week (ap (has payment) v.week_same ∙ absent) i;
      month = zrem-zadd ts payment h.month absent i;
      spend_amounts = update_undo h.spend_amounts payment (some amount) none fresh i;
      reserved = back i;
      reserved_holds = update_undo h.reserved_holds payment true false free i;
      settled_holds = h.settled_holds;
      float_confirmed = h.float_confirmed;
      consumed = h.consumed;
    }
      where
        back : (drop_hold payment amount (write_hold payment amount ts h)).reserved ≡ h.reserved
        back = ground arith

-- `n` payments of the same amount, each reserved and then settled.
abbrev pub cycles : ℕ → ReserveParams → List Command
cycles zero p = []
cycles (suc n) p =
    reserves p ∷ settles p.payment_id ∷ cycles n (record p { payment_id = suc p.payment_id })

cycle : ReserveParams → Hot → Hot
cycle p h = (settle_hold p.payment_id (write_hold p.payment_id p.amount p.enforcement_ts h)).0

cycle-step :
    (p : ReserveParams) (h : Hot)
    → IsAdmissible p h
    → step (step h (reserves p)) (settles p.payment_id) ≡ cycle p h
unfolding step cycle
cycle-step p h a =
    ap (λ k. (settle_hold p.payment_id k).0) (reserve-writes p h (IsAdmissible→reserved p h a))

cycle-fields :
    (p : ReserveParams) (h : Hot)
    → ((cycle p h).reserved ≡ h.reserved)
      × ((cycle p h).consumed ≡ h.consumed)
      × ((cycle p h).float_confirmed ≡ h.float_confirmed)
      × ((k : ℕ)
          → (cycle p h).spend_amounts k ≡ update h.spend_amounts p.payment_id (some p.amount) k)
      × ((cycle p h).hour ≡ zadd p.enforcement_ts p.payment_id h.hour)
unfolding cycle write_hold settle_hold settle_amount
cycle-fields p h = (ground arith, ground arith, ground arith, λ k. ground arith, ground arith)

cycle-IsValid : (p : ReserveParams) (h : Hot) → IsAdmissible p h → IsValid h → IsValid (cycle p h)
unfolding cycle
cycle-IsValid p h a v =
    settle_hold-IsValid p.payment_id _
      (write_hold-IsValid p.payment_id p.amount p.enforcement_ts h a.fresh v)

cycle-window_sum :
    (p : ReserveParams) (h : Hot)
    → IsAdmissible p h
    → IsValid h
    → window_sum (cycle p h) thirty_days (snapshot_windows p.enforcement_ts thirty_days)
      ≡ window_sum h thirty_days (snapshot_windows p.enforcement_ts thirty_days) + p.amount
unfolding cycle
cycle-window_sum p h a v = ground (
  arith,
  settle-window_sum p.payment_id (snapshot_windows p.enforcement_ts thirty_days) thirty_days
      (write_hold p.payment_id p.amount p.enforcement_ts h),
  write_hold-window_sum p.payment_id p.amount p.enforcement_ts
      (snapshot_windows p.enforcement_ts thirty_days) h a.fresh v,
  snapshot-le p.enforcement_ts thirty_days,
)

cycle-zcount :
    (p : ReserveParams) (h : Hot)
    → IsAdmissible p h
    → IsValid h
    → zcount (snapshot_windows p.enforcement_ts one_hour) (cycle p h).hour
      ≤ zcount (snapshot_windows p.enforcement_ts one_hour) h.hour + 1
cycle-zcount p h a v = ground (
  arith,
  (cycle-fields p h).4,
  zcount-zadd (snapshot_windows p.enforcement_ts one_hour) p.enforcement_ts p.payment_id h.hour
      (ap (has p.payment_id) v.hour_same ∙ v.listed p.payment_id ∙ ap is_some a.fresh),
)

-- Room for `n` payments of the cap and of the hour's limit, and float for one of them.
pub record HasRoom (n : ℕ) (p : ReserveParams) (h : Hot) : Type 0 where
  pub fresh : (k : ℕ) → p.payment_id ≤ k → h.spend_amounts k ≡ none
  pub velocity :
      zcount (snapshot_windows p.enforcement_ts one_hour) h.hour + n ≤ p.velocity_limit_per_hour
  pub within_cap :
      window_sum h thirty_days (snapshot_windows p.enforcement_ts thirty_days) + n * p.amount
      ≤ p.spend_cap
  pub positive : 0 < p.amount
  pub solvent : h.consumed + h.reserved + p.amount ≤ h.float_confirmed

HasRoom→IsAdmissible :
    (n : ℕ) (p : ReserveParams) (h : Hot) → HasRoom (suc n) p h → IsAdmissible p h
HasRoom→IsAdmissible n p h r = record {
  fresh = r.fresh p.payment_id (omega arith);
  velocity = omega (arith, r.velocity);
  within_cap = grind (arith, r.within_cap);
  above_zero = λ gated. omega (arith, r.solvent, r.positive);
  solvent = λ gated. r.solvent;
}

cycle-HasRoom :
    (n : ℕ) (p : ReserveParams) (h : Hot)
    → IsValid h
    → HasRoom (suc n) p h
    → HasRoom n (record p { payment_id = suc p.payment_id }) (cycle p h)
cycle-HasRoom n p h v r =
    let a = HasRoom→IsAdmissible n p h r in
    let f = cycle-fields p h in
    record {
      fresh = λ k le. ground (arith, f.3 k, r.fresh k);
      velocity = omega (arith, cycle-zcount p h a v, r.velocity);
      within_cap = grind (arith, cycle-window_sum p h a v, r.within_cap);
      positive = r.positive;
      solvent = omega (arith, f.0, f.1, f.2, r.solvent);
    }

run-cycle :
    (n : ℕ) (p : ReserveParams) (h : Hot)
    → IsAdmissible p h
    → run h (cycles (suc n) p)
      ≡ run (cycle p h) (cycles n (record p { payment_id = suc p.payment_id }))
unfolding run
run-cycle n p h a =
    ap (λ k. run k (cycles n (record p { payment_id = suc p.payment_id }))) (cycle-step p h a)

-- The solvency leg does not bound settled spend. An agent whose float covers one payment beside what
-- is consumed and reserved gets any number of payments of that amount through, one after the other,
-- while the policy cap and the hour's limit last: each is reserved and settled, the month's sum grows
-- by all of them, and the float, consumed and reserved counters end where they began.
pub run-cycles_overspends :
    (n : ℕ) (p : ReserveParams) (h : Hot)
    → IsValid h
    → HasRoom n p h
    → let h' = run h (cycles n p) in
      (window_sum h' thirty_days (snapshot_windows p.enforcement_ts thirty_days)
        ≡ window_sum h thirty_days (snapshot_windows p.enforcement_ts thirty_days) + n * p.amount)
      × (h'.float_confirmed ≡ h.float_confirmed)
      × (h'.consumed ≡ h.consumed)
      × (h'.reserved ≡ h.reserved)
run-cycles_overspends zero p h v r = unfold run in (omega arith, refl, refl, refl)
run-cycles_overspends (suc n) p h v r =
    let a = HasRoom→IsAdmissible n p h r in
    let f = cycle-fields p h in
    let (spent, float, consumed, reserved') =
      run-cycles_overspends n (record p { payment_id = suc p.payment_id }) (cycle p h)
        (cycle-IsValid p h a v) (cycle-HasRoom n p h v r) in
    rw (run-cycle n p h a)
      (grind (arith, spent, cycle-window_sum p h a v), float ∙ f.2, consumed ∙ f.1, reserved' ∙ f.0)
