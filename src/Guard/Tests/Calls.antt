-- ===== src/Guard/Tests/Calls.antt =====
-- Calls of the authorization.
use casper_agops_server.Prelude.{
  true, false, none, some, [], ◌∷◌, ◌≡◌, ◌≢◌, ◌↔◌, refl, arith, nat_eq, All,
}
use casper_agops_server.Guard.Intent.{
  casper_test, casper_deploy, evm_transfer, kind, intent_primary_asset,
  raw_requirement_hash_from_intent,
}
use casper_agops_server.Guard.Evaluate.{
  GuardPolicy, evaluate_policy, permit, check_shape, check_kind, is_x402_or_trade_resource,
}
use casper_agops_server.Guard.Evaluate.Laws.{IsPermitted, evaluate_policy_iff}
use casper_agops_server.Guard.Store.{
  row_check, insert_decision, insert_hold, has_hold, create_decision_and_hold,
  read_decision_by_idempotency, find_by_key, matches_key, list_reserved_for_revoke,
  list_committed_for_revoke, mark_decision_signed, update_decision, update_found,
  is_agent_suspended, list_with, is_owned,
}
use casper_agops_server.Guard.Store.Rows.{IsConsistent}
use casper_agops_server.Ledger.Hot.{
  empty_hot, reserve_hold_within_policy, reserve_script, write_hold, zcount, zsum, is_insolvent,
  snapshot_windows,
}
use casper_agops_server.Ledger.Hot.Invariant.{empty_hot-IsValid}
use casper_agops_server.Guard.Authorize.{
  World, Params, Env, row_inserted, allowed, authorize_intent, authorize_locked, decide, reserve,
  persist_hold, check_org, check_agent, call_signer, mark_signed, release_idempotency_lock,
  set_lock, authorize_result_from_existing, revoke_agent_in_flight,
}
use casper_agops_server.Guard.Authorize.Signing.{
  is_signed, locked, IsQuiet, signature-IsPermitted, deny_all-blocks_signer,
}
use casper_agops_server.Guard.Authorize.Undone.{Left, authorize_intent-Left}
use casper_agops_server.Guard.Authorize.Replay.{authorize_intent-replays}
use casper_agops_server.Guard.Authorize.Revocation.{IsAborted, revoke_agent_in_flight-IsAborted}
use casper_agops_server.Guard.Tests.Tables.{
  deploy, row, empty_db, reserved_db, reserved_db-IsConsistent, signature_of,
}

abbrev policy : GuardPolicy
policy = record {
  policy_ref = "policy_a@v1";
  spend_cap = 100;
  per_transaction_max = 50;
  service_scope = "deploy:counter" ∷ [];
  service_destinations = [];
  allowed_actions = casper_deploy ∷ [];
  allowed_networks = casper_test ∷ [];
  velocity_limit_per_hour = 4;
  trade = none;
}

abbrev request : Params
request = record {
  decision_id = 1;
  hold_id = 9;
  idempotency_key = 5;
  org_id = 2;
  agent_id = 3;
  intent = deploy;
  policy = policy;
  now = 7_200;
}

abbrev env : Env
env = record {
  quoter = none;
  sign = λ id intent agent. some signature_of;
  signer_kind = 0;
  fingerprint = λ agent intent ref. 4;
  others = λ stage w. w;
}

abbrev world : World
world = record {
  db = empty_db;
  hot = λ agent. empty_hot;
  deny_all = λ org. false;
  locks = λ org key. none;
  signatures = [];
}

-- The kill switch is thrown while the request's row is inserted.
abbrev stopping : Env
stopping = record env {
  others = λ stage w. elim stage [ row_inserted ↦ record w { deny_all = λ org. true } | _ ↦ w ];
}

request-signed : (authorize_intent env request world).1 ≡ allowed 1 9 77 (some 70) none (some 78)
unfolding authorize_intent authorize_locked decide reserve persist_hold check_org check_agent
    call_signer mark_signed release_idempotency_lock set_lock evaluate_policy check_shape check_kind
    is_x402_or_trade_resource row_check insert_decision insert_hold has_hold
    create_decision_and_hold read_decision_by_idempotency find_by_key mark_decision_signed
    update_decision update_found empty_hot reserve_hold_within_policy reserve_script write_hold
    zcount zsum is_insolvent snapshot_windows intent_primary_asset raw_requirement_hash_from_intent
    is_agent_suspended
request-signed = refl

evaluate_policy_iff_example :
    (evaluate_policy false none policy deploy ≡ permit) ↔ IsPermitted false none policy deploy
evaluate_policy_iff_example = evaluate_policy_iff false none policy deploy

authorize_intent-Left_example :
    Left env request (λ s w. refl) world (authorize_intent env request world)
authorize_intent-Left_example =
    authorize_intent-Left env request (λ s w. refl) world empty_hot-IsValid

stopping-IsQuiet : IsQuiet stopping request
stopping-IsQuiet s w = ground arith

deny_all-blocks_signer_example :
    is_signed request (authorize_intent stopping request world).0 ≡ is_signed request world
deny_all-blocks_signer_example =
    deny_all-blocks_signer stopping request world stopping-IsQuiet (λ v. refl)

request-is_signed : is_signed request (authorize_intent env request world).0 ≡ true
unfolding authorize_intent authorize_locked decide reserve persist_hold check_org check_agent
    call_signer mark_signed release_idempotency_lock set_lock evaluate_policy check_shape check_kind
    is_x402_or_trade_resource row_check insert_decision insert_hold has_hold
    create_decision_and_hold read_decision_by_idempotency find_by_key mark_decision_signed
    update_decision update_found empty_hot reserve_hold_within_policy reserve_script write_hold
    zcount zsum is_insolvent snapshot_windows intent_primary_asset raw_requirement_hash_from_intent
    is_agent_suspended
request-is_signed = refl

signature-IsPermitted_example :
    IsPermitted ((locked env request world).deny_all 2) none policy deploy
    × (kind deploy ≢ evm_transfer)
signature-IsPermitted_example =
    signature-IsPermitted env request world (λ s w. refl) refl request-is_signed

reserved_db-replays : read_decision_by_idempotency reserved_db 2 5 ≡ some row
unfolding row_check insert_decision insert_hold has_hold create_decision_and_hold
    read_decision_by_idempotency find_by_key matches_key intent_primary_asset
reserved_db-replays = refl

authorize_intent-replays_example :
    let w = record world { db = reserved_db } in
    authorize_intent env request w ≡ (w, authorize_result_from_existing reserved_db row request)
authorize_intent-replays_example =
    authorize_intent-replays env request (record world { db = reserved_db }) row (λ s w. refl)
      reserved_db-replays

-- The agent has decision 1 reserved, with its hold in the hot keys.
abbrev revoking : World
revoking = record world { db = reserved_db; hot = λ agent. write_hold 1 30 7_200 empty_hot }

revoking-listed : list_reserved_for_revoke revoking.db 3 2 ≡ 1 ∷ []
unfolding create_decision_and_hold insert_decision insert_hold has_hold row_check
    read_decision_by_idempotency find_by_key intent_primary_asset list_reserved_for_revoke list_with
    is_owned
revoking-listed = refl

revoke_agent_in_flight-IsAborted_example :
    let out = revoke_agent_in_flight 3 2 revoking in
    (out.1
      ≡ some (list_reserved_for_revoke revoking.db 3 2, list_committed_for_revoke revoking.db 3 2))
    × IsConsistent out.0.db
    × All (IsAborted 3 out.0) (list_reserved_for_revoke revoking.db 3 2)
    × (list_reserved_for_revoke out.0.db 3 2 ≡ [])
    × (list_committed_for_revoke out.0.db 3 2 ≡ list_committed_for_revoke revoking.db 3 2)
revoke_agent_in_flight-IsAborted_example =
    revoke_agent_in_flight-IsAborted 3 2 revoking reserved_db-IsConsistent
