-- ===== src/Ledger/Hot/Tests.antt =====
-- Runs of the hot tier on small inputs, and its theorems applied to them.
use casper_agops_server.Prelude.{
  ℕ, ◌+◌, ◌-◌, ◌*◌, ◌≤◌, true, false, List, [], ◌∷◌, ◌≡◌, ◌≢◌, ◌⊎◌, ◌↔◌, refl, arith,
}
use casper_agops_server.Ledger.Hot.{
  ReserveParams, PolicyReserve, reserved, reserve_script, reserve_hold_within_policy, write_hold,
  zcount, zsum, window_sum, Window, thirty_days, one_hour, snapshot_windows, settle_hold,
  release_hold, Command, reserves, settles, releases, credits, step, run, empty_hot, is_insolvent,
}
use casper_agops_server.Ledger.Hot.Invariant.{IsValid, run-IsValid, empty_hot-IsValid}
use casper_agops_server.Ledger.Hot.Reserve.{
  IsAdmissible, reserve_iff_IsAdmissible, reserve_bounds, run-within_cap,
}
use casper_agops_server.Ledger.Hot.Resolve.{
  settle_once, release-write_hold, cycles, run-cycles_overspends,
}

-- 30 base units at 7200 s, under a cap of 100 and two payments per hour.
abbrev payment : ReserveParams
payment = record {
  payment_id = 1;
  amount = 30;
  enforcement_ts = 7_200;
  spend_cap = 100;
  velocity_limit_per_hour = 2;
  enforce_solvency = true;
}

abbrev funded : List Command
funded = credits 40 ∷ []

abbrev held_once : List Command
held_once = credits 40 ∷ reserves payment ∷ []

run-held_once : (run empty_hot held_once).reserved ≡ 30
unfolding run step empty_hot reserve_hold_within_policy reserve_script write_hold zcount zsum
    snapshot_windows is_insolvent
run-held_once = refl

held_once-duplicate :
    (reserve_hold_within_policy payment (run empty_hot held_once)).1 ≡ PolicyReserve.duplicate
unfolding run step empty_hot reserve_hold_within_policy reserve_script write_hold zcount zsum
    snapshot_windows is_insolvent
held_once-duplicate = refl

run-IsValid_example :
    IsValid (run empty_hot (credits 40 ∷ reserves payment ∷ settles 1 ∷ releases 1 ∷ []))
run-IsValid_example =
    run-IsValid empty_hot (credits 40 ∷ reserves payment ∷ settles 1 ∷ releases 1 ∷ [])
      empty_hot-IsValid

run-within_cap_example : window_sum (run empty_hot held_once) thirty_days 0 ≤ 100
unfolding window_sum empty_hot zsum snapshot_windows
run-within_cap_example =
    run-within_cap 0 100 empty_hot held_once empty_hot-IsValid (tt, ((refl, refl), tt))
      (omega arith)

reserve_iff_IsAdmissible_example :
    let h = run empty_hot funded in
    (((reserve_hold_within_policy payment h).1 ≡ reserved) ↔ IsAdmissible payment h)
    × ((((reserve_hold_within_policy payment h).1 ≡ reserved)
          × ((reserve_hold_within_policy payment h).0 ≡ write_hold 1 30 7_200 h))
        ⊎ (((reserve_hold_within_policy payment h).1 ≢ reserved)
            × ((reserve_hold_within_policy payment h).0 ≡ h)))
reserve_iff_IsAdmissible_example = reserve_iff_IsAdmissible payment (run empty_hot funded)

reserve_bounds_example :
    let h' = (reserve_hold_within_policy payment (run empty_hot funded)).0 in
    (window_sum h' thirty_days (snapshot_windows 7_200 thirty_days) ≤ 100)
    × (zcount (snapshot_windows 7_200 one_hour) h'.hour ≤ 2)
    × ((true ≡ false) ⊎ (h'.consumed + h'.reserved ≤ h'.float_confirmed))
unfolding run step empty_hot reserve_hold_within_policy reserve_script zcount zsum snapshot_windows
    is_insolvent
reserve_bounds_example =
    reserve_bounds payment (run empty_hot funded) (run-IsValid empty_hot funded empty_hot-IsValid)
      refl

settle_once_example :
    let h = run empty_hot held_once in
    let h' = (settle_hold 1 h).0 in
    ((settle_hold 1 h).1 ≡ true)
    × (h'.reserved ≡ h.reserved - 30)
    × ((w : Window) (min : ℕ) → window_sum h' w min ≡ window_sum h w min)
    × (h'.consumed ≡ h.consumed)
    × (h'.float_confirmed ≡ h.float_confirmed)
    × ((cs : List Command)
        → (settle_hold 1 (run h' cs) ≡ (run h' cs, false))
          × (release_hold 1 (run h' cs) ≡ (run h' cs, false)))
unfolding run step empty_hot reserve_hold_within_policy reserve_script write_hold zcount zsum
    snapshot_windows is_insolvent
settle_once_example =
    settle_once 1 30 (run empty_hot held_once) (run-IsValid empty_hot held_once empty_hot-IsValid)
      refl refl

release-write_hold_example : release_hold 1 (write_hold 1 30 7_200 empty_hot) ≡ (empty_hot, true)
unfolding empty_hot
release-write_hold_example = release-write_hold 1 30 7_200 empty_hot empty_hot-IsValid refl

-- Three payments of 30 from a float of 40.
run-cycles_overspends_example :
    let h = run empty_hot funded in
    let p = record payment { velocity_limit_per_hour = 3 } in
    let h' = run h (cycles 3 p) in
    (window_sum h' thirty_days (snapshot_windows 7_200 thirty_days)
      ≡ window_sum h thirty_days (snapshot_windows 7_200 thirty_days) + 3 * 30)
    × (h'.float_confirmed ≡ h.float_confirmed)
    × (h'.consumed ≡ h.consumed)
    × (h'.reserved ≡ h.reserved)
unfolding run step empty_hot zcount zsum window_sum
run-cycles_overspends_example =
    run-cycles_overspends 3 (record payment { velocity_limit_per_hour = 3 }) (run empty_hot funded)
      (run-IsValid empty_hot funded empty_hot-IsValid)
      (record {
        fresh = λ k le. refl;
        velocity = omega arith;
        within_cap = omega arith;
        positive = omega arith;
        solvent = omega arith;
      })
