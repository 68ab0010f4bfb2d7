-- ===== src/Guard/Tests/Readers.antt =====
-- A node that is down, and a swap.
use casper_agops_server.Prelude.{false, none, some, [], ◌∷◌, ◌≡◌, refl}
use casper_agops_server.Ledger.Hot.{empty_hot}
use casper_agops_server.Guard.Intent.{casper_test, cep18_asset, native_asset, CsprTrade, trades}
use casper_agops_server.Guard.Store.{sign_row}
use casper_agops_server.Guard.Reconcile.{
  read_pending, ReconcileState, ReconcileDeps, reconcile_decision,
}
use casper_agops_server.Guard.Reconcile.Ambiguity.{KeepsHolds, pending_read}
use casper_agops_server.Guard.Settlement.{
  http_error, executions, succeeded, get_deploy, Facilitator, settle_throws, TradeClient,
  cspr_trade_read, route_read, compose_read, submit_trade,
}
use casper_agops_server.Guard.Settlement.Reads.{unexecuted-KeepsHolds, cspr_trade_read-amount}
use casper_agops_server.Guard.Tests.Tables.{row, signature_of, mark_signed_db, mark_signed_db-found}

abbrev client : TradeClient
client = record { quote = λ pair n. some 4; submit = λ q. some (5, none); dash_to_slash = λ s. s }

abbrev facilitator : Facilitator
facilitator = record { decode = λ h. some h; settle = λ p. settle_throws }

abbrev state : ReconcileState
state = record {
  world = record {
    db = mark_signed_db;
    hot = λ agent. empty_hot;
    deny_all = λ org. false;
    locks = λ org key. none;
    signatures = [];
  };
  anchors = λ id hash. none;
  attempts = λ id. [];
}

abbrev deps : ReconcileDeps
deps = record {
  read =
      compose_read (route_read client facilitator (get_deploy (λ h. h) (λ h. http_error)))
        read_pending;
  anchorer = none;
  decision_hash = λ d. 6;
  new_anchor_id = 40;
  stale_submitted_ms = 300_000;
  now = 1_000;
}

unexecuted-KeepsHolds_example : KeepsHolds state (reconcile_decision deps 1 3 state).0
unexecuted-KeepsHolds_example =
    unexecuted-KeepsHolds client facilitator (λ h. h) (λ h. http_error) read_pending deps 1 3 78
      state (sign_row signature_of row) refl pending_read mark_signed_db-found refl (λ e. cc) refl
      refl

-- A swap of sCSPR for CSPR.
abbrev buys : CsprTrade
buys = record {
  network = casper_test;
  resource_id = "cspr.trade:swap";
  amount = 10;
  from_asset = cep18_asset "00cc" "sCSPR" "1";
  to_asset = native_asset;
  min_received = 9;
  slippage_bps = 50;
  route_id = none;
  risk_label = none;
}

cspr_trade_read-amount_example :
    cspr_trade_read client
      (get_deploy (λ h. h) (λ h. executions (succeeded ∷ [])))
      (record row { intent = trades buys })
    ≡ some (submit_trade client "CSPR/sCSPR" 10)
cspr_trade_read-amount_example =
    cspr_trade_read-amount client (λ h. h) (λ h. executions (succeeded ∷ []))
      (record row { intent = trades buys }) buys refl refl
