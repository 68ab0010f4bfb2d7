-- ===== src/Ledger/Hot/Reserve.antt =====
-- What a policy-checked reserve decides, and the bounds that it keeps.
use casper_agops_server.Prelude.{
  ℕ, ◌+◌, ◌≤◌, ◌<◌, true, false, none, some, List, [], ◌∷◌, ◌≡◌, refl, ap, ◌∙◌, ◌≢◌, ◌↔◌, ◌⊎◌, inl,
  inr, arith, leb, update, is_some, if◌then◌else◌, Bool-cases, Option-cases, All,
}
use casper_agops_server.Ledger.Hot.{
  Hot, zadd, zrem, zcount, write_hold, ReserveParams, PolicyReserve, reserved, duplicate,
  cap_exceeded, velocity_exceeded, insufficient_float, is_insolvent, window_sum, thirty_days,
  one_hour, one_day, seven_days, snapshot_windows, Window, reserve_hold_within_policy, settle_hold,
  release_hold, drop_hold, Command, reserves, reserves_unchecked, settles, releases, credits,
  reclaims, step, run,
}
use casper_agops_server.Ledger.Hot.Windows.{
  has, weight, zsum-eq-sum_by, zcount-zadd, sum_by-zadd, sum_by-zrem, sum_by-ext, has-zrem,
}
use casper_agops_server.Ledger.Hot.Invariant.{IsValid, step-IsValid}

-- The hold is admitted: the payment is new, the hour's count is below the limit, the month's sum
-- with it stays within the cap, and, where solvency is enforced, the float covers it beside what is
-- consumed and reserved.
pub record IsAdmissible (p : ReserveParams) (h : Hot) : Type 0 where
  pub fresh : h.spend_amounts p.payment_id ≡ none
  pub velocity :
      zcount (snapshot_windows p.enforcement_ts one_hour) h.hour < p.velocity_limit_per_hour
  pub within_cap :
      window_sum h thirty_days (snapshot_windows p.enforcement_ts thirty_days) + p.amount
      ≤ p.spend_cap
  pub above_zero : p.enforce_solvency ≡ true → h.consumed + h.reserved < h.float_confirmed
  pub solvent : p.enforce_solvency ≡ true → h.consumed + h.reserved + p.amount ≤ h.float_confirmed

PolicyReserve-cases : (r : PolicyReserve) → (r ≡ reserved) ⊎ (r ≢ reserved)
PolicyReserve-cases reserved = inl refl
PolicyReserve-cases duplicate = inr (λ e. cc)
PolicyReserve-cases cap_exceeded = inr (λ e. cc)
PolicyReserve-cases velocity_exceeded = inr (λ e. cc)
PolicyReserve-cases insufficient_float = inr (λ e. cc)

pub IsAdmissible→reserved :
    (p : ReserveParams) (h : Hot) → IsAdmissible p h → (reserve_hold_within_policy p h).1 ≡ reserved
unfolding reserve_hold_within_policy is_insolvent window_sum
IsAdmissible→reserved p h a = elim (Bool-cases p.enforce_solvency) [
  | inl gated ↦
      ground (arith, a.fresh, a.velocity, a.within_cap, a.above_zero gated, a.solvent gated)
  | inr free ↦ ground (arith, a.fresh, a.velocity, a.within_cap)
]

pub reserved→IsAdmissible :
    (p : ReserveParams) (h : Hot) → (reserve_hold_within_policy p h).1 ≡ reserved → IsAdmissible p h
unfolding reserve_hold_within_policy is_insolvent window_sum
reserved→IsAdmissible p h e = record {
  fresh = ground arith;
  velocity = ground arith;
  within_cap = ground arith;
  above_zero = λ gated. ground arith;
  solvent = λ gated. ground arith;
}

-- Whether the answer is `reserved`.
pub is_reserved :
    (p : ReserveParams) (h : Hot)
    → ((reserve_hold_within_policy p h).1 ≡ reserved)
      ⊎ ((reserve_hold_within_policy p h).1 ≢ reserved)
unfolding reserve_hold_within_policy
is_reserved p h = PolicyReserve-cases (reserve_hold_within_policy p h).1

pub reserve-writes :
    (p : ReserveParams) (h : Hot)
    → (reserve_hold_within_policy p h).1 ≡ reserved
    → (reserve_hold_within_policy p h).0 ≡ write_hold p.payment_id p.amount p.enforcement_ts h
unfolding reserve_hold_within_policy
reserve-writes p h e = ground arith

pub reserve-refuses :
    (p : ReserveParams) (h : Hot)
    → (reserve_hold_within_policy p h).1 ≢ reserved
    → (reserve_hold_within_policy p h).0 ≡ h
unfolding reserve_hold_within_policy
reserve-refuses p h e = ground arith

-- A reserve answers `reserved` exactly when the hold is admissible; then it writes the hold, and
-- after any other answer the agent's keys are what they were.
pub reserve_iff_IsAdmissible :
    (p : ReserveParams) (h : Hot)
    → (((reserve_hold_within_policy p h).1 ≡ reserved) ↔ IsAdmissible p h)
      × ((((reserve_hold_within_policy p h).1 ≡ reserved)
            × ((reserve_hold_within_policy p h).0
                ≡ write_hold p.payment_id p.amount p.enforcement_ts h))
          ⊎ (((reserve_hold_within_policy p h).1 ≢ reserved)
              × ((reserve_hold_within_policy p h).0 ≡ h)))
reserve_iff_IsAdmissible p h = (
  (reserved→IsAdmissible p h, IsAdmissible→reserved p h),
  elim (is_reserved p h) [
    | inl e ↦ inl (e, reserve-writes p h e)
    | inr e ↦ inr (e, reserve-refuses p h e)
  ],
)

pub snapshot-le : (now : ℕ) (w : Window) → snapshot_windows now w ≤ now
unfolding snapshot_windows
snapshot-le now one_hour = omega arith
snapshot-le now one_day = omega arith
snapshot-le now seven_days = omega arith
snapshot-le now thirty_days = omega arith

-- What a new hold adds to the sum and to the count.
pub write_hold-window_sum :
    (payment amount ts min : ℕ) (h : Hot)
    → h.spend_amounts payment ≡ none
    → IsValid h
    → window_sum (write_hold payment amount ts h) thirty_days min
      ≡ window_sum h thirty_days min + (if leb min ts then amount else 0)
unfolding write_hold window_sum
write_hold-window_sum payment amount ts min h fresh v = ground (
  arith,
  zsum-eq-sum_by (update h.spend_amounts payment (some amount)) min (zadd ts payment h.month),
  zsum-eq-sum_by h.spend_amounts min h.month,
  sum_by-zadd (weight (update h.spend_amounts payment (some amount)) min) ts payment h.month absent,
  sum_by-ext (weight h.spend_amounts min)
      (weight (update h.spend_amounts payment (some amount)) min) payment h.month
      (λ k s n. ground arith) absent,
)
  where
    absent : has payment h.month ≡ false
    absent = v.listed payment ∙ ap is_some fresh

-- After an admitted hold the month's sum with the hold is within the cap, the hour's count within
-- the limit, and, where solvency is enforced, what is consumed and reserved within the float.
pub reserve_bounds :
    (p : ReserveParams) (h : Hot)
    → IsValid h
    → (reserve_hold_within_policy p h).1 ≡ reserved
    → let h' = (reserve_hold_within_policy p h).0 in
      (window_sum h' thirty_days (snapshot_windows p.enforcement_ts thirty_days) ≤ p.spend_cap)
      × (zcount (snapshot_windows p.enforcement_ts one_hour) h'.hour ≤ p.velocity_limit_per_hour)
      × ((p.enforce_solvency ≡ false) ⊎ (h'.consumed + h'.reserved ≤ h'.float_confirmed))
unfolding write_hold
reserve_bounds p h v e =
    let a = reserved→IsAdmissible p h e in
    let new : has p.payment_id h.hour ≡ false =
      ap (has p.payment_id) v.hour_same ∙ v.listed p.payment_id ∙ ap is_some a.fresh in
    rw (reserve-writes p h e) (
      ground (
        arith,
        a.within_cap,
        write_hold-window_sum p.payment_id p.amount p.enforcement_ts
            (snapshot_windows p.enforcement_ts thirty_days) h a.fresh v,
      ),
      ground (
        arith,
        a.velocity,
        zcount-zadd (snapshot_windows p.enforcement_ts one_hour) p.enforcement_ts p.payment_id
            h.hour new,
      ),
      elim (Bool-cases p.enforce_solvency) [
        | inl gated ↦ inr (omega (arith, a.solvent gated))
        | inr free ↦ inl free
      ],
    )

pub settle-window_sum :
    (payment min : ℕ) (w : Window) (h : Hot)
    → window_sum (settle_hold payment h).0 w min ≡ window_sum h w min
unfolding settle_hold window_sum
settle-window_sum payment min one_hour h = ground arith
settle-window_sum payment min one_day h = ground arith
settle-window_sum payment min seven_days h = ground arith
settle-window_sum payment min thirty_days h = ground arith

drop_hold-window_sum :
    (payment amount min : ℕ) (h : Hot)
    → h.spend_amounts payment ≡ some amount
    → IsValid h
    → window_sum (drop_hold payment amount h) thirty_days min ≤ window_sum h thirty_days min
unfolding drop_hold window_sum
drop_hold-window_sum payment amount min h found v = ground (
  arith,
  zsum-eq-sum_by (update h.spend_amounts payment none) min (zrem payment h.month),
  zsum-eq-sum_by h.spend_amounts min h.month,
  sum_by-zrem (weight h.spend_amounts min) payment h.month (v.listed payment ∙ ap is_some found),
  sum_by-ext (weight h.spend_amounts min) (weight (update h.spend_amounts payment none) min) payment
      (zrem payment h.month) (λ k s n. ground arith) absent,
)
  where
    absent : has payment (zrem payment h.month) ≡ false
    absent = ground (arith, has-zrem payment payment h.month v.distinct)

release-window_sum-le :
    (payment min : ℕ) (h : Hot)
    → IsValid h
    → window_sum (release_hold payment h).0 thirty_days min ≤ window_sum h thirty_days min
unfolding release_hold
release-window_sum-le payment min h v = elim (Bool-cases (h.settled_holds payment)) [
  | inl settled ↦ rw settled (omega arith)
  | inr unsettled ↦ elim (Option-cases (h.spend_amounts payment)) [
    | inl missing ↦ rw (unsettled, missing) (omega arith)
    | inr (a, e) ↦ rw (unsettled, e) (drop_hold-window_sum payment a min h e v)
  ]
]

-- The reserves among the commands carry this ceiling and fall into this 30-day bucket, and
-- none of them is unchecked.
abbrev pub InBucket : ℕ → ℕ → Command → Type 0
InBucket bucket ceiling (reserves p) =
    (p.spend_cap ≡ ceiling) × (snapshot_windows p.enforcement_ts thirty_days ≡ bucket)
InBucket bucket ceiling (reserves_unchecked payment amount ts) = ⊥
InBucket bucket ceiling (settles payment) = Unit
InBucket bucket ceiling (releases payment) = Unit
InBucket bucket ceiling (credits amount) = Unit
InBucket bucket ceiling (reclaims amount) = Unit

step-within_cap :
    (bucket ceiling : ℕ) (h : Hot) (c : Command)
    → IsValid h
    → InBucket bucket ceiling c
    → window_sum h thirty_days bucket ≤ ceiling
    → window_sum (step h c) thirty_days bucket ≤ ceiling
unfolding step window_sum
step-within_cap bucket ceiling h (reserves p) v (same, at) below = elim (is_reserved p h) [
  | inl e ↦ let bound = (reserve_bounds p h v e).0 in rw (← same, ← at) bound
  | inr e ↦ rw (reserve-refuses p h e) below
]
step-within_cap bucket ceiling h (reserves_unchecked payment amount ts) v b below = absurd b
step-within_cap bucket ceiling h (settles payment) v b below =
    rw (settle-window_sum payment bucket thirty_days h) below
step-within_cap bucket ceiling h (releases payment) v b below =
    omega (arith, release-window_sum-le payment bucket h v)
step-within_cap bucket ceiling h (credits amount) v b below = below
step-within_cap bucket ceiling h (reclaims amount) v b below = below

-- Within one 30-day bucket no sequence of policy reserves, settles, releases and writes of the float,
-- however the payments of an agent interleave, lets the sum of held and settled spend pass the cap that
-- the reserves carry. The reserve without a policy, reserve.lua, is not among them.
pub run-within_cap :
    (bucket ceiling : ℕ) (h : Hot) (cs : List Command)
    → IsValid h
    → All (InBucket bucket ceiling) cs
    → window_sum h thirty_days bucket ≤ ceiling
    → window_sum (run h cs) thirty_days bucket ≤ ceiling
unfolding run
run-within_cap bucket ceiling h [] v b below = below
run-within_cap bucket ceiling h (c ∷ cs) v b below =
    run-within_cap bucket ceiling (step h c) cs (step-IsValid h c v) b.1
      (step-within_cap bucket ceiling h c v b.0 below)
