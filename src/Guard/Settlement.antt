-- ===== src/Guard/Settlement.antt =====
-- lib/casper/settlement-reader.ts: the settlement readers that the reconciliation is given. The node's
-- reply, the facilitator, the decoder of a payment header and the trade client are parameters; a `none`
-- is a throw. Hashes and header values are not the empty string where they are present. What the reads
-- carry as evidence is left out.
pub mod Reads
use casper_agops_server.Prelude.{
  ℕ, ◌+◌, String, Bool, true, false, not, Option, none, some, List, [], ◌∷◌, ◌==◌, string_eq,
  if◌then◌else◌,
}
use Prim.Native.String.{◌++◌}
use casper_agops_server.Guard.Intent.{
  ActionKind, Network, casper_test, casper, evm_sepolia, evm_base_sepolia, DeployKind, transfer,
  contract_call, contract_install, Asset, cep18_asset, native_asset, native_eth_asset, erc20_asset,
  network, resource_id, Intent, pays, trades, deploys, transfers, kind, amount, kind_beq,
  x402_payment, cspr_trade,
}
use casper_agops_server.Guard.Stored.{stored_fields, digits_at, pair_of}
use casper_agops_server.Guard.Store.{Decision, coalesce}
use casper_agops_server.Guard.Reconcile.{
  ReadStatus, read_settled, read_pending, read_ambiguous, read_failed, read_expired,
}

-- What `info_get_deploy` comes back with.
pub data Execution : Type 0 where
  succeeded other_result : Execution

pub data NodeReply : Type 0 where
  fetch_throws http_error body_throws : NodeReply
  executions : List Execution → NodeReply

pub record DeployFinality : Type 0 where
  pub found : Bool
  pub finalized : Bool
  pub success : Bool
  pub tx_hash : Option ℕ

abbrev not_found : DeployFinality
not_found = record { found = false; finalized = false; success = false; tx_hash = none }

-- `createLiveDeployReader`; `strip` takes the `0x` off a hash.
pub get_deploy : (ℕ → ℕ) → (ℕ → NodeReply) → ℕ → Option DeployFinality
get_deploy strip node hash = elim (node (strip hash)) [
  | fetch_throws ↦ some not_found
  | http_error ↦ some not_found
  | body_throws ↦ none
  | executions xs ↦ elim xs [
    | [] ↦ some (record { found = true; finalized = false; success = false; tx_hash = none })
    | x ∷ rest ↦ elim x [
      | succeeded ↦
          some
            (record { found = true; finalized = true; success = true; tx_hash = some (strip hash) })
      | other_result ↦
          some (record { found = true; finalized = true; success = false; tx_hash = none })
    ]
  ]
]

abbrev pub chased_hash : Decision → Option ℕ
chased_hash d = coalesce d.deploy_hash d.tx_hash

pub read_finality : Option ℕ → ℕ → DeployFinality → ReadStatus
read_finality deploy_hash hash fin =
    if not fin.found
    then read_pending
    else if not fin.finalized
    then read_pending
    else if fin.success
    then read_settled (coalesce fin.tx_hash (some hash)) deploy_hash
    else read_failed

-- `createCasperRpcSettlementReader`.
pub rpc_read : (ℕ → Option DeployFinality) → Decision → Option ReadStatus
unfolding read_finality
rpc_read get d = elim (chased_hash d) [
  | none ↦ some read_pending
  | some hash ↦ elim (get hash) [
    | none ↦ none
    | some fin ↦ some (read_finality d.deploy_hash hash fin)
  ]
]

pub data SettleReply : Type 0 where
  settle_throws settle_refused : SettleReply
  settle_submitted : (tx_hash : Option ℕ) → SettleReply

pub record Facilitator : Type 0 where
  pub decode : ℕ → Option ℕ
  pub settle : ℕ → SettleReply

pub settle_header : Facilitator → Option ℕ → ReadStatus
settle_header f none = read_failed
settle_header f (some header) = elim (f.decode header) [
  | none ↦ read_failed
  | some payload ↦ elim (f.settle payload) [
    | settle_throws ↦ read_failed
    | settle_refused ↦ read_failed
    | settle_submitted tx ↦ read_settled tx tx
  ]
]

-- `createFacilitatorSettlementReader`.
pub facilitator_read : Facilitator → (ℕ → Option DeployFinality) → Decision → Option ReadStatus
unfolding rpc_read settle_header
facilitator_read f get d = elim (chased_hash d) [
  | some hash ↦ rpc_read get d
  | none ↦
      if not (kind_beq (kind d.intent) x402_payment)
      then rpc_read get d
      else some (settle_header f d.signed_header_value)
]

-- The client's `quote` of a pair and an amount and `submit` of a quote.
pub record TradeClient : Type 0 where
  pub quote : String → ℕ → Option ℕ
  pub submit : ℕ → Option (ℕ × Option ℕ)
  pub dash_to_slash : String → String

pub submit_trade : TradeClient → String → ℕ → ReadStatus
submit_trade c pair n = elim (c.quote pair n) [
  | none ↦ read_failed
  | some quote_id ↦ elim (c.submit quote_id) [
    | none ↦ read_failed
    | some (tx, deploy) ↦ read_settled (some tx) (coalesce deploy (some tx))
  ]
]

abbrev amount_or : ℕ → Option ℕ → ℕ
amount_or n none = n
amount_or n (some m) = m

-- `createCsprTradeSettlementReader`; the amount of a decision is that of its intent.
pub cspr_trade_read : TradeClient → (ℕ → Option DeployFinality) → Decision → Option ReadStatus
unfolding rpc_read submit_trade pair_of stored_fields digits_at
cspr_trade_read c get d = elim (chased_hash d) [
  | some hash ↦ rpc_read get d
  | none ↦
      if not (kind_beq (kind d.intent) cspr_trade)
      then rpc_read get d
      else let l = stored_fields d.intent in
        some (
          submit_trade c (pair_of c.dash_to_slash l)
            (amount_or (amount d.intent) (digits_at "amount" l)))
]

-- `composeSettlementReader`.
pub compose_read : (Decision → Option ReadStatus) → ReadStatus → Decision → Option ReadStatus
compose_read live body d = elim (live d) [
  | none ↦ none
  | some r ↦ elim r [ read_pending ↦ some body | read_ambiguous ↦ some body | x ↦ some x ]
]

-- The reader of config/casper-guard.ts with a facilitator: a trade is read by the trade client.
pub route_read :
    TradeClient → Facilitator → (ℕ → Option DeployFinality) → Decision → Option ReadStatus
unfolding cspr_trade_read facilitator_read
route_read c f get d =
    if kind_beq (kind d.intent) cspr_trade
    then cspr_trade_read c get d
    else facilitator_read f get d
