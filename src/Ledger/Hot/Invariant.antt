-- ===== src/Ledger/Hot/Invariant.antt =====
-- The invariant of the hot tier, and that every script keeps it.
use casper_agops_server.Prelude.{
  ℕ, Bool, true, false, Option, none, some, List, [], ◌∷◌, ◌≡◌, refl, ap, ◌∙◌, inl, inr, arith,
  update, is_some, if◌then◌else◌, Bool-cases, Option-cases,
}
use casper_agops_server.Ledger.Hot.{
  Hot, zadd, zrem, or_zero, write_hold, drop_hold, reserve_hold, ReserveParams, reserve_script,
  reserve_hold_within_policy, settle_amount, settle_hold, release_hold, Command, reserves,
  reserves_unchecked, settles, releases, credits, reclaims, step, run, empty_hot, snapshot_windows,
  thirty_days, one_hour,
}
use casper_agops_server.Ledger.Hot.Windows.{
  has, IsDistinct, sum_by, sum_by-zadd, sum_by-zrem, sum_by-ext, has-zadd, has-zrem,
  zadd-IsDistinct, zrem-IsDistinct,
}

-- The amount of an outstanding hold, 0 for any other payment.
abbrev pub held : (ℕ → Option ℕ) → (ℕ → Bool) → ℕ → ℕ → ℕ
held amounts holds k s = if holds k then or_zero (amounts k) else 0

-- The four windows and the amounts hash list the same payments, each once; what is held or settled
-- is listed, never both; and the reserved counter is the sum of the outstanding holds.
pub record IsValid (h : Hot) : Type 0 where
  pub hour_same : h.hour ≡ h.month
  pub day_same : h.day ≡ h.month
  pub week_same : h.week ≡ h.month
  pub distinct : IsDistinct h.month
  pub listed : (k : ℕ) → has k h.month ≡ is_some (h.spend_amounts k)
  pub held_listed : (k : ℕ) → h.reserved_holds k ≡ true → is_some (h.spend_amounts k) ≡ true
  pub settled_listed : (k : ℕ) → h.settled_holds k ≡ true → is_some (h.spend_amounts k) ≡ true
  pub exclusive : (k : ℕ) → h.settled_holds k ≡ true → h.reserved_holds k ≡ false
  pub counted : h.reserved ≡ sum_by (held h.spend_amounts h.reserved_holds) h.month

pub write_hold-IsValid :
    (payment amount ts : ℕ) (h : Hot)
    → h.spend_amounts payment ≡ none
    → IsValid h
    → IsValid (write_hold payment amount ts h)
unfolding write_hold
write_hold-IsValid payment amount ts h fresh v = record {
  hour_same = ap (zadd ts payment) v.hour_same;
  day_same = ap (zadd ts payment) v.day_same;
  week_same = ap (zadd ts payment) v.week_same;
  distinct = zadd-IsDistinct ts payment h.month absent v.distinct;
  listed = λ k. ground (arith, has-zadd k ts payment h.month, v.listed k);
  held_listed = λ k e. ground (arith, v.held_listed k);
  settled_listed = λ k e. ground (arith, v.settled_listed k);
  exclusive = λ k e. ground (arith, v.settled_listed k, v.exclusive k);
  counted = ground (
    arith,
    v.counted,
    sum_by-zadd
        (held (update h.spend_amounts payment (some amount)) (update h.reserved_holds payment true))
        ts payment h.month absent,
    sum_by-ext (held h.spend_amounts h.reserved_holds)
        (held (update h.spend_amounts payment (some amount)) (update h.reserved_holds payment true))
        payment h.month (λ k s n. ground arith) absent,
  );
}
  where
    absent : has payment h.month ≡ false
    absent = v.listed payment ∙ ap is_some fresh

drop_hold-IsValid :
    (payment amount : ℕ) (h : Hot)
    → h.spend_amounts payment ≡ some amount
    → h.settled_holds payment ≡ false
    → IsValid h
    → IsValid (drop_hold payment amount h)
unfolding drop_hold
drop_hold-IsValid payment amount h found unsettled v = record {
  hour_same = ap (zrem payment) v.hour_same;
  day_same = ap (zrem payment) v.day_same;
  week_same = ap (zrem payment) v.week_same;
  distinct = zrem-IsDistinct payment h.month v.distinct;
  listed = λ k. ground (arith, has-zrem k payment h.month v.distinct, v.listed k);
  held_listed = λ k e. ground (arith, v.held_listed k);
  settled_listed = λ k e. ground (arith, v.settled_listed k);
  exclusive = λ k e. ground (arith, v.exclusive k);
  counted = ground (
    arith,
    v.counted,
    sum_by-zrem (held h.spend_amounts h.reserved_holds) payment h.month present,
    sum_by-ext (held h.spend_amounts h.reserved_holds)
        (held (update h.spend_amounts payment none) (update h.reserved_holds payment false)) payment
        (zrem payment h.month) (λ k s n. ground arith) absent,
  );
}
  where
    present : has payment h.month ≡ true
    present = v.listed payment ∙ ap is_some found

    absent : has payment (zrem payment h.month) ≡ false
    absent = ground (arith, has-zrem payment payment h.month v.distinct)

settle_amount-IsValid :
    (payment amount : ℕ) (h : Hot)
    → h.spend_amounts payment ≡ some amount
    → h.reserved_holds payment ≡ true
    → IsValid h
    → IsValid (settle_amount payment (some amount) h).0
unfolding settle_amount
settle_amount-IsValid payment amount h found outstanding v = record {
  hour_same = v.hour_same;
  day_same = v.day_same;
  week_same = v.week_same;
  distinct = v.distinct;
  listed = v.listed;
  held_listed = λ k e. ground (arith, v.held_listed k);
  settled_listed = λ k e. ground (arith, v.settled_listed k);
  exclusive = λ k e. ground (arith, v.exclusive k);
  counted = ground (
    arith,
    v.counted,
    sum_by-zrem (held h.spend_amounts h.reserved_holds) payment h.month present,
    sum_by-zrem (held h.spend_amounts (update h.reserved_holds payment false)) payment h.month
        present,
    sum_by-ext (held h.spend_amounts h.reserved_holds)
        (held h.spend_amounts (update h.reserved_holds payment false)) payment
        (zrem payment h.month) (λ k s n. ground arith) absent,
  );
}
  where
    present : has payment h.month ≡ true
    present = v.listed payment ∙ ap is_some found

    absent : has payment (zrem payment h.month) ≡ false
    absent = ground (arith, has-zrem payment payment h.month v.distinct)

pub reserve_script-IsValid :
    (cap_min velocity_min : ℕ) (p : ReserveParams) (h : Hot)
    → IsValid h
    → IsValid (reserve_script cap_min velocity_min p h).0
unfolding reserve_script
reserve_script-IsValid cap_min velocity_min p h v =
    elim (Option-cases (h.spend_amounts p.payment_id)) [
      | inl fresh ↦
          ground (arith, write_hold-IsValid p.payment_id p.amount p.enforcement_ts h fresh v)
      | inr (a, e) ↦ ground arith
    ]

pub reserve_hold-IsValid :
    (payment amount ts : ℕ) (h : Hot) → IsValid h → IsValid (reserve_hold payment amount ts h).0
unfolding reserve_hold
reserve_hold-IsValid payment amount ts h v = elim (Option-cases (h.spend_amounts payment)) [
  | inl fresh ↦ rw fresh (write_hold-IsValid payment amount ts h fresh v)
  | inr (a, e) ↦ rw e v
]

pub settle_hold-IsValid : (payment : ℕ) (h : Hot) → IsValid h → IsValid (settle_hold payment h).0
unfolding settle_hold
settle_hold-IsValid payment h v = elim (Bool-cases (h.reserved_holds payment)) [
  | inl held_now ↦ elim (Option-cases (h.spend_amounts payment)) [
    | inl missing ↦ absurd (cc (v.held_listed payment held_now, missing))
    | inr (a, e) ↦ rw (held_now, e) (settle_amount-IsValid payment a h e held_now v)
  ]
  | inr free ↦ rw free v
]

pub release_hold-IsValid : (payment : ℕ) (h : Hot) → IsValid h → IsValid (release_hold payment h).0
unfolding release_hold
release_hold-IsValid payment h v = elim (Bool-cases (h.settled_holds payment)) [
  | inl settled ↦ rw settled v
  | inr unsettled ↦ elim (Option-cases (h.spend_amounts payment)) [
    | inl missing ↦ rw (unsettled, missing) v
    | inr (a, e) ↦ rw (unsettled, e) (drop_hold-IsValid payment a h e unsettled v)
  ]
]

pub step-IsValid : (h : Hot) (c : Command) → IsValid h → IsValid (step h c)
unfolding step reserve_hold_within_policy
step-IsValid h (reserves p) v =
    reserve_script-IsValid (snapshot_windows p.enforcement_ts thirty_days)
      (snapshot_windows p.enforcement_ts one_hour) p h v
step-IsValid h (reserves_unchecked payment amount ts) v = reserve_hold-IsValid payment amount ts h v
step-IsValid h (settles payment) v = settle_hold-IsValid payment h v
step-IsValid h (releases payment) v = release_hold-IsValid payment h v
step-IsValid h (credits amount) v = assumption
step-IsValid h (reclaims amount) v = assumption

-- Every sequence of scripts keeps the invariant: the four windows and the amounts hash list the same
-- payments, each once, no payment is both held and settled, and the reserved counter is the sum of
-- the outstanding holds.
pub run-IsValid : (h : Hot) (cs : List Command) → IsValid h → IsValid (run h cs)
unfolding run
run-IsValid h [] v = v
run-IsValid h (c ∷ cs) v = run-IsValid (step h c) cs (step-IsValid h c v)

pub empty_hot-IsValid : IsValid empty_hot
unfolding empty_hot
empty_hot-IsValid = record {
  hour_same = refl;
  day_same = refl;
  week_same = refl;
  distinct = tt;
  listed = λ k. refl;
  held_listed = λ k e. cc;
  settled_listed = λ k e. cc;
  exclusive = λ k e. refl;
  counted = refl;
}
