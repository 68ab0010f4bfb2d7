-- ===== src/Ledger/Hot/Closed.antt =====
-- The holds that an agent's hot keys still count as pending.
use casper_agops_server.Prelude.{ℕ, Bool, ◌||◌, not, ◌≡◌, arith, ◌=?◌, nat_eq, is_some}
use casper_agops_server.Ledger.Hot.{Hot, release_hold, release_amount, drop_hold}

abbrev pub is_closed : Hot → ℕ → Bool
is_closed h id = h.settled_holds id || not (is_some (h.spend_amounts id))

pub release_hold-is_closed :
    (payment : ℕ) (h : Hot) (id : ℕ)
    → is_closed (release_hold payment h).0 id ≡ (payment =? id || is_closed h id)
unfolding release_hold release_amount drop_hold
release_hold-is_closed payment h id = ground arith
