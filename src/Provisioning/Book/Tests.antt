-- ===== src/Provisioning/Book/Tests.antt =====
-- A deposit, its confirmation and a teardown.
use casper_agops_server.Prelude.{
  ℕ, ◌+◌, ltb, ◌≤◌, true, false, none, some, List, [], ◌∷◌, ◌≡◌, refl, arith,
}
use casper_agops_server.Provisioning.Book.{
  Lua, IsExact, Book, AllocationParams, funded, not_configured, evaluate_allocation,
  reserve_allocation, is_cooling, deposit_for, submit_deposit, record_pending, float_of, sweep_all,
  teardown_agent, Operation, deposits, confirms, tears_down, operate, run, empty_book,
}
use casper_agops_server.Provisioning.Book.Sums.{pending_sum, float_sum}
use casper_agops_server.Provisioning.Book.Balance.{IsBalanced, run-IsBalanced}
use casper_agops_server.Provisioning.Book.Solvency.{
  outstanding, run-IsSolvent, teardown_agent-reclaims,
}

abbrev deposit : AllocationParams
deposit = record {
  agent_id = 1;
  requested = 30;
  destination = "00aa";
  seconds_since_last_allocation = none;
  total_budget = 100;
  per_agent_max = 50;
  allowed_destinations = "00aa" ∷ [];
  cooldown_seconds = 60;
  funded_total = 80;
}

-- Numbers without rounding: a pair stands for its difference.
abbrev lua_test : Lua
lua_test = record {
  Number = ℕ × ℕ;
  tonumber = λ n. (n, 0);
  minus = λ x y. (x.0 + y.1, x.1 + y.0);
  is_greater = λ x y. ltb (y.0 + x.1) (x.0 + y.1);
}

lua_test-IsExact : IsExact lua_test
lua_test-IsExact ceiling committed reserved requested a b c d = ground arith

abbrev operations : List Operation
operations =
    deposits true funded 7 deposit
    ∷ deposits true not_configured 8 deposit
    ∷ confirms (some true) 7
    ∷ tears_down (λ id. some false) true 1
    ∷ []

empty_book-IsBalanced : IsBalanced empty_book
unfolding empty_book pending_sum float_sum
empty_book-IsBalanced = record { reserved_sum = refl; committed_sum = refl }

-- The third deposit would pass the deposited funds.
run-deposits :
    (run lua_test empty_book (
      deposits true funded 7 deposit
      ∷ deposits true funded 8 deposit
      ∷ deposits true funded 9 deposit
      ∷ [])).reserved
    ≡ 60
unfolding run operate deposit_for evaluate_allocation is_cooling reserve_allocation submit_deposit
    record_pending empty_book
run-deposits = refl

run-IsBalanced_example : IsBalanced (run lua_test empty_book operations)
run-IsBalanced_example = run-IsBalanced lua_test empty_book operations empty_book-IsBalanced

run-IsSolvent_example :
    (outstanding (run lua_test empty_book operations) ≤ 100)
    × (outstanding (run lua_test empty_book operations) ≤ 80)
unfolding empty_book
run-IsSolvent_example =
    run-IsSolvent lua_test empty_book operations 100 80 lua_test-IsExact (omega arith) (omega arith)
      empty_book-IsBalanced
      (
        (omega arith, omega arith, omega arith),
        ((omega arith, omega arith, omega arith), (tt, (tt, tt))),
      )
      (omega arith) (omega arith)

abbrev confirmed_book : Book
confirmed_book =
    run lua_test empty_book (deposits true funded 7 deposit ∷ confirms (some true) 7 ∷ [])

teardown_agent-reclaims_example :
    let swept = sweep_all (λ id. none) 1 (confirmed_book.pending 1) confirmed_book in
    let after = (teardown_agent (λ id. none) true 1 confirmed_book).0 in
    ((teardown_agent (λ id. none) true 1 confirmed_book).1
      ≡ some (float_of 1 swept.float_confirmed))
    × (float_of 1 after.float_confirmed ≡ 0)
    × (after.committed + float_of 1 swept.float_confirmed ≡ swept.committed)
    × (after.reserved ≡ pending_sum after.allocations)
teardown_agent-reclaims_example =
    teardown_agent-reclaims (λ id. none) 1 confirmed_book
      (run-IsBalanced lua_test empty_book
        (deposits true funded 7 deposit ∷ confirms (some true) 7 ∷ []) empty_book-IsBalanced)
