-- ===== src/Guard/Tests/Tables.antt =====
-- Decisions and holds, and the writes to them.
use casper_agops_server.Prelude.{true, false, none, some, List, [], ◌∷◌, ◌≡◌, ◌≢◌, refl}
use casper_agops_server.Guard.Intent.{
  casper_test, native_asset, contract_call, Intent, deploys, intent_primary_asset,
}
use casper_agops_server.Guard.Evaluate.{action_not_allowed}
use casper_agops_server.Guard.Store.{
  Decision, HoldRow, Db, Signature, reserved, denied, held, allows, denies, rows, insert_decision,
  create_decision_and_hold, row_check, read_decision_by_idempotency, find_by_key,
  mark_decision_settled_by_user, sign_row, update_decision, update_found, mark_decision_signed,
  mark_decision_terminal, failed_terminal, insert_hold, has_hold,
}
use casper_agops_server.Guard.Store.Rows.{IsConsistent}
use casper_agops_server.Guard.Store.Writes.{
  create_decision_and_hold-IsConsistent, mark_decision_signed-IsConsistent,
}
use casper_agops_server.Guard.Store.Callers.{
  Call, writes, create, sign, settle, reads, fail, closes_settled, closes_released, calls,
  new_session, calls-IsConsistent,
}
use casper_agops_server.Guard.Store.Transitions.{
  here, after, terminates, Reach-terminal, settled_by_user-reserved,
}

abbrev pub deploy : Intent
deploy = deploys (record {
  network = casper_test;
  resource_id = "deploy:counter";
  amount = 30;
  asset = native_asset;
  deploy_kind = contract_call;
  target = "contract-1";
  entry_point = some "increment";
  args_hash = none;
})

abbrev pub row : Decision
row = record {
  decision_id = 1;
  idempotency_key = 5;
  org_id = 2;
  agent_id = 3;
  intent = deploy;
  status = reserved;
  outcome = allows;
  reason_code = none;
  policy_ref = "policy_a@v1";
  signer_kind = some 0;
  raw_requirement_hash = none;
  signed_header_hash = none;
  signed_header_value = none;
  tx_hash = none;
  deploy_hash = none;
}

abbrev pub denial : Decision
denial = record row { status = denied; outcome = denies; reason_code = some action_not_allowed }

abbrev pub hold : HoldRow
hold = record { hold_id = 9; org_id = 2; agent_id = 3; amount = 30; status = held }

abbrev pub empty_db : Db
empty_db = record {
  ids = [];
  decision = λ id. none;
  hold = λ id. none;
  agent_suspended = λ agent org. false;
  orgs = λ org. true;
  agents = λ agent. true;
}

pub empty_db-IsConsistent : IsConsistent empty_db
empty_db-IsConsistent = record {
  rows_ok = λ id. refl;
  agree = λ id. refl;
  listed = λ id m. absurd (cc);
  unique = λ i j same. absurd (cc);
}

abbrev pub signature_of : Signature
signature_of = record {
  headers = some 70;
  header_hash = 77;
  header_value = none;
  tx_hash = none;
  deploy_hash = some 78;
}

abbrev pub reserved_db : Db
reserved_db = (create_decision_and_hold row hold empty_db).0

pub reserved_db-IsConsistent : IsConsistent reserved_db
reserved_db-IsConsistent =
    create_decision_and_hold-IsConsistent row hold empty_db refl empty_db-IsConsistent

pub reserved_db-found : reserved_db.decision 1 ≡ some row
unfolding create_decision_and_hold insert_decision insert_hold has_hold row_check
    read_decision_by_idempotency find_by_key intent_primary_asset
reserved_db-found = refl

abbrev denied_db : Db
denied_db = (insert_decision denial empty_db).0

denied_db-found : denied_db.decision 1 ≡ some denial
unfolding insert_decision row_check read_decision_by_idempotency find_by_key intent_primary_asset
denied_db-found = refl

abbrev pub mark_signed_db : Db
mark_signed_db = (mark_decision_signed 1 signature_of reserved_db).0

pub mark_signed_db-IsConsistent : IsConsistent mark_signed_db
mark_signed_db-IsConsistent =
    mark_decision_signed-IsConsistent 1 reserved_db reserved_db-IsConsistent signature_of

pub mark_signed_db-found : mark_signed_db.decision 1 ≡ some (sign_row signature_of row)
unfolding create_decision_and_hold insert_decision insert_hold has_hold row_check
    read_decision_by_idempotency find_by_key intent_primary_asset mark_decision_signed
    update_decision update_found
mark_signed_db-found = refl

-- A payment is signed and settled, while another caller, which read it as settled, closes its hold.
abbrev payment_calls : List Call
payment_calls =
    writes (create row hold)
    ∷ writes (sign 1 signature_of)
    ∷ writes (settle 1 none none)
    ∷ reads 1
    ∷ writes (fail 1)
    ∷ closes_settled 1
    ∷ closes_released 1
    ∷ []

calls-IsConsistent_example : IsConsistent (calls (new_session empty_db) payment_calls).db
calls-IsConsistent_example = calls-IsConsistent empty_db payment_calls empty_db-IsConsistent

-- The failure of a denied decision changes nothing.
Reach-terminal_example :
    (mark_decision_terminal 1 failed_terminal denied_db).0.decision 1 ≡ some denial
Reach-terminal_example =
    Reach-terminal denied_db (mark_decision_terminal 1 failed_terminal denied_db).0 1 denial
      (after here (terminates 1 failed_terminal refl refl)) denied_db-found refl

settled_by_user-reserved_example :
    ((mark_decision_settled_by_user 1 66 reserved_db).0 ≡ reserved_db)
    × ((mark_decision_settled_by_user 1 66 reserved_db).1 ≢ rows true)
settled_by_user-reserved_example =
    settled_by_user-reserved 1 66 reserved_db row reserved_db-IsConsistent reserved_db-found refl
