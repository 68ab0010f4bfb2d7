-- ===== src/Guard/Tests/Reconciliations.antt =====
-- Reconciliations and anchors.
use casper_agops_server.Prelude.{true, false, none, some, [], ◌∷◌, ◌≡◌, refl}
use casper_agops_server.Ledger.Hot.{empty_hot}
use casper_agops_server.Guard.Intent.{intent_primary_asset}
use casper_agops_server.Guard.Store.{
  sign_row, settled_hold, create_decision_and_hold, insert_decision, insert_hold, has_hold,
  row_check, read_decision_by_idempotency, find_by_key, mark_decision_signed, update_decision,
  update_found,
}
use casper_agops_server.Ledger.Hot.{settle_hold}
use casper_agops_server.Guard.Reconcile.Settled.{
  answers_settled, settled_row, reconcile_decision-settles,
}
use casper_agops_server.Guard.Store.Rows.{IsConsistent}
use casper_agops_server.Guard.Reconcile.{
  read_settled, read_pending, Anchor, confirmed, ReconcileState, ReconcileDeps, reconcile_decision,
}
use casper_agops_server.Guard.Reconcile.Consistency.{reconcile_decision-IsConsistent}
use casper_agops_server.Guard.Reconcile.Ambiguity.{KeepsHolds, pending_read, uncertain-KeepsHolds}
use casper_agops_server.Guard.Reconcile.Anchors.{claims, fails, run_anchors, run_anchors-confirmed}
use casper_agops_server.Guard.Tests.Tables.{
  row, hold, signature_of, mark_signed_db, mark_signed_db-IsConsistent, mark_signed_db-found,
}

abbrev state : ReconcileState
state = record {
  world = record {
    db = mark_signed_db;
    hot = λ agent. empty_hot;
    deny_all = λ org. false;
    locks = λ org key. none;
    signatures = [];
  };
  anchors = λ id hash. none;
  attempts = λ id. [];
}

abbrev deps : ReconcileDeps
deps = record {
  read = λ d. some read_pending;
  anchorer = none;
  decision_hash = λ d. 6;
  new_anchor_id = 40;
  stale_submitted_ms = 300_000;
  now = 1_000;
}

reconcile_decision-IsConsistent_example :
    IsConsistent
      (reconcile_decision
        (record deps { read = λ d. some (read_settled (some 8) none) })
        1
        3
        state).0.world.db
reconcile_decision-IsConsistent_example =
    reconcile_decision-IsConsistent (record deps { read = λ d. some (read_settled (some 8) none) })
      1 3 state mark_signed_db-IsConsistent

uncertain-KeepsHolds_example : KeepsHolds state (reconcile_decision deps 1 3 state).0
uncertain-KeepsHolds_example =
    uncertain-KeepsHolds deps 1 3 state (sign_row signature_of row) mark_signed_db-found refl
      (λ e. cc) pending_read

abbrev proof : Anchor
proof = record { anchor_id = 40; state = confirmed; tx_hash = some 8; anchored_at = 900 }

run_anchors-confirmed_example :
    run_anchors
      (λ id hash. some proof)
      (claims 41 999_999 300_000 1 6 ∷ fails 40 999_999 1 6 ∷ [])
      1
      6
    ≡ some proof
run_anchors-confirmed_example =
    run_anchors-confirmed (λ id hash. some proof)
      (claims 41 999_999 300_000 1 6 ∷ fails 40 999_999 1 6 ∷ []) 1 6 refl

abbrev settling : ReconcileDeps
settling = record deps { read = λ d. some (read_settled (some 8) none) }

reconcile_decision-settles_example :
    let d = sign_row signature_of row in
    let (s', answer) = reconcile_decision settling 1 3 state in
    (answers_settled answer ≡ true)
    × (s'.world.db.decision 1 ≡ some (settled_row (some 8) none d))
    × (s'.world.db.hold 1 ≡ some (record hold { status = settled_hold }))
    × (s'.world.hot 3 ≡ (settle_hold 1 empty_hot).0)
unfolding create_decision_and_hold insert_decision insert_hold has_hold row_check
    read_decision_by_idempotency find_by_key intent_primary_asset mark_decision_signed
    update_decision update_found
reconcile_decision-settles_example =
    reconcile_decision-settles settling state (sign_row signature_of row) hold (some 8) none
      (record {
        found = mark_signed_db-found;
        hold_found = refl;
        status = refl;
        outcome = refl;
        is_open = refl;
        checked = refl;
      })
      refl
